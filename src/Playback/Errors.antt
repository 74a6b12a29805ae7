-- ===== src/Playback/Errors.antt =====
-- internal/calls/playback.go: how an error's text decides what is done about it.
use tg.Base.{
  ◌≡◌, ◌⊎◌, inl, inr, Bool, ◌||◌, Text, bytes, if◌then◌else◌, has_part, arith, ◌++◌, Bool-cases,
  ◌∷◌,
}

pub data ErrorKind : Type 0 where
  err_fatal err_retry_once err_rotate err_unknown : ErrorKind

abbrev pub says_closed : Text → Bool
says_closed msg = has_part msg (bytes "is closed") || has_part msg (bytes "GROUPCALL_FORBIDDEN")

abbrev pub says_invalid : Text → Bool
says_invalid msg = has_part msg (bytes "GROUPCALL_INVALID")

abbrev pub says_retry : Text → Bool
says_retry msg =
    has_part msg (bytes "GROUPCALL_ADD_PARTICIPANTS_FAILED")
    || (has_part msg (bytes "Timeout while fetching data")
        || has_part msg (bytes "INTERDC_X_CALL_ERROR"))

abbrev pub says_rotate : Text → Bool
says_rotate msg =
    has_part msg (bytes "CHANNELS_TOO_MUCH")
    || (has_part msg (bytes "FROZEN_METHOD_INVALID")
        || (has_part msg (bytes "FLOOD_WAIT_X")
            || (has_part msg (bytes "limiting join attempts")
                || has_part msg (bytes "USER_DEACTIVATED"))))

unfoldable pub classify_error : Text → ErrorKind
classify_error msg =
    if says_closed msg
    then err_fatal
    else if says_invalid msg
    then err_fatal
    else if says_retry msg
    then err_retry_once
    else if says_rotate msg
    then err_rotate
    else err_unknown

abbrev pub no_video_chat : Text
no_video_chat =
    bytes "<b>No active video chat found.</b>"
    ++ 10 ∷ 10 ∷ bytes "Please start one and <b>try again</b>"

abbrev pub invalid_call : Text
invalid_call =
    bytes "<b>GROUPCALL_INVALID:</b> start a video chat and try again."
    ++ 10 ∷ 10 ∷ bytes "If the problem persists, please report it to the developer."

unfoldable pub fatal_message : Text → Text
fatal_message msg =
    if says_closed msg then no_video_chat else if says_invalid msg then invalid_call else msg

-- A user who meets a fatal error reads one of two explanations, never the text of the server.
pub fatal_message-classify_error :
    (msg : Text)
    → classify_error msg ≡ err_fatal
    → (fatal_message msg ≡ no_video_chat) ⊎ (fatal_message msg ≡ invalid_call)
unfolding classify_error fatal_message
fatal_message-classify_error msg h = elim (Bool-cases (says_closed msg)) [
  | inl e ↦ inl (ground arith)
  | inr e ↦ elim (Bool-cases (says_invalid msg)) [
    | inl f ↦ inr (ground arith)
    | inr f ↦ absurd (ground arith)
  ]
]
