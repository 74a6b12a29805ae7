-- ===== src/Call/State.antt =====
-- internal/calls/call.go and assistant.go: an assistant's view of its group calls. The media library
-- and the Telegram client are not part of the repository: what they answer is an argument, and the
-- calls of the media library that change its state are logged.
use tg.Base.{
  ℕ, suc, List, [], ◌∷◌, ◌++◌, Option, none, some, Bool, true, false, not, Text, bytes, ℤ, pos,
  negsuc, neg, ◌+ℤ◌, if◌then◌else◌, ◌==◌, int_eq, nat_eq, lookup, insert, delete, keep_if,
  format_int, Result, ok, err,
}

-- tg.InputGroupCall: the kind that has an id, and all others. A nil is `none` of an Option.
pub data InputGroupCall : Type 0 where
  call_obj : ℤ → ℤ → InputGroupCall
  other_call : InputGroupCall

pub record Media : Type 0 where
  pub has_camera : Bool
  pub has_screen : Bool

pub record PendingConnection : Type 0 where
  pub media_desc : Media
  pub payload : Text

-- A call of the media library that changes what it does in a chat.
pub data Native : Type 0 where
  creates sets_sources connects stops starts_presentation connects_presentation stops_presentation :
      ℤ → Native

-- `channels` is what stands in each channel that was made, and `made` how many were. `self_id` is
-- `none` where the assistant does not know itself.
pub record AssistantAccount : Type 0 where
  pub self_id : Option ℤ
  pub muted_by_admin : List ℤ
  pub presentations : List ℤ
  pub input_group_calls : List (ℤ × Option InputGroupCall)
  pub pending_connections : List (ℤ × PendingConnection)
  pub wait_connect : List (ℤ × ℕ)
  pub channels : ℕ → Option (Option Text)
  pub made : ℕ
  pub native : List Native

unfoldable pub std_remove : List ℤ → ℤ → List ℤ
std_remove xs v = keep_if (λ e. not (e == v)) xs

abbrev pub call_native : Native → AssistantAccount → AssistantAccount
call_native op s = record s { native = op ∷ s.native }

-- What stands in a channel that was not written to.
abbrev pub fresh_channel : ℕ → (ℕ → Option (Option Text)) → ℕ → Option (Option Text)
fresh_channel n channels k = if n == k then none else channels k

-- `acc.waitConnect[chatId] = make(chan error, 1)`
unfoldable pub register_wait : ℤ → AssistantAccount → AssistantAccount
register_wait chat s = record s {
  wait_connect = insert chat s.made s.wait_connect;
  channels = fresh_channel s.made s.channels;
  made = suc s.made;
}

-- `delete(acc.waitConnect, chatId)`
unfoldable pub forget_wait : ℤ → AssistantAccount → AssistantAccount
forget_wait chat s = record s { wait_connect = delete chat s.wait_connect }

abbrev pub call_closed : ℤ → Text
call_closed chat = bytes "group call for chatId " ++ format_int chat ++ bytes " is closed"

abbrev pub no_group_call : ℤ → Text
no_group_call chat = bytes "chatId " ++ format_int chat ++ bytes " is not a group call"

-- tg.InputPeer, and the call of the full chat that ChannelsGetFullChannel or MessagesGetFullChat
-- answers with.
pub data InputPeer : Type 0 where
  input_channel input_chat input_user : ℤ → InputPeer
  other_peer : InputPeer

abbrev pub is_group_peer : InputPeer → Bool
is_group_peer (input_channel id) = true
is_group_peer (input_chat id) = true
is_group_peer (input_user id) = false
is_group_peer other_peer = false

abbrev pub or_closed : ℤ → Option InputGroupCall → Result Text InputGroupCall
or_closed chat none = err (call_closed chat)
or_closed chat (some call) = ok call

-- `peer` is what ResolvePeer answers, `full` the call of the full chat.
unfoldable pub get_input_group_call :
    Result Text InputPeer
    → Result Text (Option InputGroupCall)
    → ℤ
    → AssistantAccount
    → AssistantAccount × Result Text InputGroupCall
get_input_group_call peer full chat s = elim (lookup chat s.input_group_calls) [
  | some call ↦ (s, or_closed chat call)
  | none ↦ elim peer [
    | err e ↦ (s, err e)
    | ok p ↦
        if is_group_peer p
        then (elim full [
          | err e ↦ (s, err e)
          | ok call ↦ (
            record s { input_group_calls = insert chat call s.input_group_calls },
            or_closed chat call,
          )
        ])
        else (s, err (no_group_call chat))
  ]
]

-- The loop over the map, in some order.
unfoldable pub find_call : ℤ → List (ℤ × Option InputGroupCall) → Option ℤ
find_call id [] = none
find_call id ((chat, some (call_obj call hash)) ∷ calls) =
    let rest = find_call id calls in if call == id then some chat else rest
find_call id ((chat, call) ∷ calls) = find_call id calls

unfoldable pub convert_group_call_id : ℤ → AssistantAccount → Result ℤ ℤ
unfolding find_call
convert_group_call_id id s = elim (find_call id s.input_group_calls) [
  | none ↦ err id
  | some chat ↦ ok chat
]

-- tg.Peer
pub data Peer : Type 0 where
  peer_user peer_chat peer_channel : ℤ → Peer
  no_peer : Peer

unfoldable pub get_participant_id : Peer → ℤ
get_participant_id (peer_user id) = id
get_participant_id (peer_channel id) = id
get_participant_id (peer_chat id) = id
get_participant_id no_peer = pos 0

abbrev pub channel_chat_id : ℤ → ℤ
channel_chat_id id = negsuc 999999999999 +ℤ neg id

-- parseChatId of a tg.Peer, which has no error.
unfoldable pub parse_peer : Peer → ℤ
parse_peer (peer_user id) = id
parse_peer (peer_chat id) = neg id
parse_peer (peer_channel id) = channel_chat_id id
parse_peer no_peer = pos 0
