-- ===== src/Membership/Leave.antt =====
-- internal/calls/membership.go: an assistant leaves the chats that nothing plays in. What LeaveChannel
-- answers, and the queues, are by the number of the calls of it so far, since other goroutines go on
-- in between.
use tg.Base.{
  ℕ, zero, suc, ◌+◌, List, [], ◌∷◌, Option, none, some, Bool, ◌||◌, Text, bytes, ℤ, pos,
  is_positive, if◌then◌else◌, ◌==◌, int_eq, nat_eq, ltb, length, has_part, Result, ok, err,
}
use tg.Player.{ChatCacher, is_active}

-- The peer of a dialog; `int64` ids.
pub data Peer : Type 0 where
  peer_channel peer_chat peer_user : ℤ → Peer

pub record Server : Type 0 where
  pub leave : ℕ → Option Text
  pub flood_wait : Text → ℤ
  pub chats : ℕ → ChatCacher

-- The ids that LeaveChannel was called with, the latest first, and how many calls went through.
pub record Tally : Type 0 where
  pub asked : List ℤ
  pub total_left : ℕ

abbrev pub max_leave_retries : ℕ
max_leave_retries = 2

-- An error that ends the tries for a chat at once.
abbrev pub is_gone : Text → Bool
is_gone e = has_part e (bytes "USER_NOT_PARTICIPANT") || has_part e (bytes "CHANNEL_PRIVATE")

-- The tries for one chat; `none` means that the fuel ran out.
unfoldable pub leave_loop : ℕ → Server → ℤ → ℕ → Tally → Option Tally
leave_loop zero s id retries t = none
leave_loop (suc fuel) s id retries t =
    let n = length t.asked in
    let t' = record t { asked = id ∷ t.asked } in
    if is_active id (s.chats n) then some t else elim (s.leave n) [
      | none ↦ some (record t' { total_left = suc t.total_left })
      | some e ↦
          let again = leave_loop fuel s id (suc retries) t' in
          if is_gone e
          then some t'
          else if is_positive (s.flood_wait e)
          then (if ltb max_leave_retries (suc retries) then some t' else again)
          else some t'
    ]

-- The id that leaveAssistantDialogs goes by, 0 where it passes over the dialog.
abbrev pub dialog_id : Peer → ℤ
dialog_id (peer_channel id) = id
dialog_id (peer_chat id) = id
dialog_id (peer_user id) = pos 0

unfoldable pub leave_dialogs : Server → List Peer → Tally → Option Tally
unfolding leave_loop
leave_dialogs s [] t = some t
leave_dialogs s (p ∷ ps) t =
    let id = dialog_id p in
    if id == pos 0 || is_active id (s.chats (length t.asked))
    then leave_dialogs s ps t
    else elim (leave_loop (suc max_leave_retries) s id 0 t) [
      | none ↦ none
      | some t' ↦ leave_dialogs s ps t'
    ]

abbrev pub nobody : Tally
nobody = record { asked = []; total_left = 0 }

-- The dialogs, or the error of GetDialogs.
unfoldable pub leave_assistant_dialogs :
    Server → Result Text (List Peer) → Option (Result Text ℕ × Tally)
unfolding leave_dialogs
leave_assistant_dialogs s (err e) = some (err e, nobody)
leave_assistant_dialogs s (ok ps) = elim (leave_dialogs s ps nobody) [
  | none ↦ none
  | some t ↦ some (ok t.total_left, t)
]

-- LeaveAll, over the results of the accounts in the order in which they come in: the number, and the
-- first error.
unfoldable pub leave_all : List (Result Text ℕ) → ℕ × Option Text → ℕ × Option Text
leave_all [] (n, e) = (n, e)
leave_all (ok k ∷ rs) (n, e) = leave_all rs (n + k, e)
leave_all (err x ∷ rs) (n, none) = leave_all rs (n, some x)
leave_all (err x ∷ rs) (n, some e) = leave_all rs (n, some e)
