-- ===== src/Call/Updates.antt =====
-- internal/calls/call.go: what an assistant does about updates.
use tg.Base.{
  ℕ, List, [], ◌∷◌, ◌++◌, Option, none, some, Bool, false, ◌&&◌, Text, bytes, ℤ, pos, if◌then◌else◌,
  ◌==◌, int_eq, nat_eq, lookup, insert, delete, contains, Result, ok, err,
}
use tg.Call.State.{
  call_obj, stops, AssistantAccount, std_remove, call_native, find_call, convert_group_call_id,
  Peer, get_participant_id, parse_peer,
}
use tg.Call.Connect.{ConnectionMode, is_stream, Replies, connect_call}

pub data ConnectionState : Type 0 where
  connecting connected failed timeout closed : ConnectionState

-- What a change is to somebody who waits: nothing yet, or the end of the wait.
unfoldable pub signal_of : ConnectionState → Option (Option Text)
signal_of connecting = none
signal_of connected = some none
signal_of failed = some (some (bytes "connection failed"))
signal_of closed = some (some (bytes "connection failed"))
signal_of timeout = some (some (bytes "connection timeout"))

-- A send that does not wait, to a channel with room for one value.
unfoldable pub offer : ℕ → Option Text → AssistantAccount → AssistantAccount
offer channel e s = elim (s.channels channel) [
  | some old ↦ s
  | none ↦ record s { channels = λ k. if channel == k then some e else s.channels k }
]

unfoldable pub on_connection_change : ℤ → ConnectionState → AssistantAccount → AssistantAccount
unfolding signal_of offer
on_connection_change chat state s = elim (lookup chat s.wait_connect) [
  | none ↦ s
  | some channel ↦ elim (signal_of state) [ none ↦ s | some e ↦ offer channel e s ]
]

-- tg.GroupCall: one that goes on, with its id and access hash, one that was discarded, and others.
pub data GroupCall : Type 0 where
  group_call : ℤ → ℤ → GroupCall
  discarded : ℤ → GroupCall
  other_group_call : GroupCall

abbrev pub call_id_of : GroupCall → ℤ
call_id_of (group_call id hash) = id
call_id_of (discarded id) = id
call_id_of other_group_call = pos 0

abbrev pub or_zero : Option ℤ → ℤ
or_zero none = pos 0
or_zero (some id) = id

-- The chat of an update: by its peer, or by the call's id.
unfoldable pub chat_of_update : Option Peer → GroupCall → AssistantAccount → ℤ
unfolding find_call parse_peer
chat_of_update (some p) call s = parse_peer p
chat_of_update none call s =
    if call_id_of call == pos 0
    then pos 0
    else or_zero (find_call (call_id_of call) s.input_group_calls)

unfoldable pub update_call : ℤ → GroupCall → AssistantAccount → AssistantAccount
update_call chat (group_call id hash) s = record s {
  input_group_calls = insert chat (some (call_obj id hash)) s.input_group_calls;
}
update_call chat (discarded id) s =
    call_native (stops chat) (record s { input_group_calls = delete chat s.input_group_calls })
update_call chat other_group_call s = s

unfoldable pub on_group_call : Option Peer → Option GroupCall → AssistantAccount → AssistantAccount
unfolding chat_of_update update_call
on_group_call peer none s = s
on_group_call peer (some call) s =
    let chat = chat_of_update peer call s in if chat == pos 0 then s else update_call chat call s

pub record Participant : Type 0 where
  pub peer : Peer
  pub can_self_unmute : Bool

-- The participants of an update, as far as the loop goes: the first one that is the assistant.
unfoldable pub find_self : ℤ → List Participant → Option Participant
unfolding get_participant_id
find_self self [] = none
find_self self (p ∷ ps) =
    let rest = find_self self ps in if get_participant_id p.peer == self then some p else rest

-- What the media library says of the call's mode and state, and the error of setCallStatus.
pub record Status : Type 0 where
  pub mode : Result Text ConnectionMode
  pub get_state : Option Text
  pub set_status : Option Text

abbrev pub in_stream : Result Text ConnectionMode → Bool
in_stream (err e) = false
in_stream (ok mode) = is_stream mode

-- The reconnection of a pending call.
unfoldable pub reconnect : Replies → ℤ → AssistantAccount → AssistantAccount
reconnect r chat s = elim (lookup chat s.pending_connections) [
  | none ↦ s
  | some pending ↦
      let s' = (connect_call r chat pending.media_desc pending.payload s).0 in
      record s' { pending_connections = delete chat s'.pending_connections }
]

unfoldable pub note_muted : ℤ → AssistantAccount → AssistantAccount
note_muted chat s =
    if contains s.muted_by_admin chat
    then s
    else record s { muted_by_admin = s.muted_by_admin ++ chat ∷ [] }

unfoldable pub note_unmuted : Status → ℤ → AssistantAccount → AssistantAccount
unfolding std_remove
note_unmuted st chat s =
    if contains s.muted_by_admin chat
    then (elim st.get_state [
      | some e ↦ s
      | none ↦ elim st.set_status [
        | some e ↦ s
        | none ↦ record s { muted_by_admin = std_remove s.muted_by_admin chat }
      ]
    ])
    else s

-- The body of the loop, for the assistant itself.
unfoldable pub on_self : Replies → Status → ℤ → Participant → AssistantAccount → AssistantAccount
unfolding reconnect note_muted note_unmuted
on_self r st chat p s =
    if in_stream st.mode && p.can_self_unmute
    then reconnect r chat s
    else if p.can_self_unmute
    then note_unmuted st chat s
    else note_muted chat s

-- `call` is `none` where the update's call is of another kind.
unfoldable pub on_group_call_participants :
    Replies → Status → Option ℤ → List Participant → AssistantAccount → AssistantAccount
unfolding convert_group_call_id find_self on_self
on_group_call_participants r st none ps s = s
on_group_call_participants r st (some call) ps s = elim (convert_group_call_id call s) [
  | err e ↦ s
  | ok chat ↦ elim s.self_id [
    | none ↦ s
    | some self ↦ elim (find_self self ps) [ none ↦ s | some p ↦ on_self r st chat p s ]
  ]
]
