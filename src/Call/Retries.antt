-- ===== src/Call/Retries.antt =====
-- internal/calls/call.go: what a failed join leaves behind in the media library.
use tg.Base.{
  ◌≡◌, List, [], ◌∷◌, none, some, Bool, true, false, Text, ℤ, is_negative, if◌then◌else◌, ◌==◌,
  int_eq, lookup, contains, ok,
}
use tg.Call.State.{InputGroupCall, Native, creates, stops, AssistantAccount}
use tg.Call.Connect.{Replies}

-- Whether the media library has a call in the chat, by its log: one that was created, and not stopped.
unfoldable pub is_live : ℤ → List Native → Bool
is_live chat [] = false
is_live chat (creates c ∷ log) = let rest = is_live chat log in if c == chat then true else rest
is_live chat (stops c ∷ log) = let rest = is_live chat log in if c == chat then false else rest
is_live chat (op ∷ log) = is_live chat log

-- A first stream in a group whose call is known, where all goes well until JoinGroupCall fails.
pub record FailsToJoin (r : Replies) (chat : ℤ) (e : Text) (s : AssistantAccount) : Type 0 where
  pub in_group : is_negative chat ≡ true
  pub self : ℤ
  pub known_self : s.self_id ≡ some self
  pub call : InputGroupCall
  pub known_call : lookup chat s.input_group_calls ≡ some (some call)
  pub params : Text
  pub created : r.create_call ≡ ok params
  pub sources_set : r.set_stream_sources ≡ none
  pub calls : List ℤ
  pub listed : r.calls ≡ ok calls
  pub not_in : contains calls chat ≡ false
  pub refused : r.join_group_call ≡ some e
