-- ===== src/Broadcast/Defs.antt =====
-- internal/bot/broadcast.go: /broadcast, the goroutine that it starts, and /stop_broadcast. The lists
-- of chats and users are arguments, as is what Telegram answers to each message.
use tg.Base.{
  ℕ, suc, List, [], ◌∷◌, ◌++◌, Option, none, some, Bool, true, false, not, ◌||◌, Text, bytes,
  text_eq, ◌==◌, ℤ, int_eq, ltb, contains, if◌then◌else◌, has_part, to_lower,
}
use tg.Db.Collection.{Collection}
use tg.Db.Cached.{Table}
use tg.Db.Chats.{Chat}
use tg.Db.Users.{User, Flag, blocked_flag, deleted_flag}
use tg.Broadcast.Bulk.{Failure, mark_chats_invalid, mark_users}

abbrev has_any : Text → List Text → Bool
has_any msg [] = false
has_any msg (part ∷ parts) = has_part msg part || has_any msg parts

-- isUserGoneError: the flag that the user gets, if any.
unfoldable pub is_user_gone_error : Text → Option Flag
is_user_gone_error text =
    let msg = to_lower text in
    if has_any msg (bytes "user_is_blocked" ∷ bytes "bot was blocked by the user" ∷ [])
    then some blocked_flag
    else if has_any msg
        (bytes "user_is_deleted" ∷ bytes "user_deactivated" ∷ bytes "user is deactivated" ∷ [])
    then some deleted_flag
    else if has_any msg (
        bytes "chat not found"
        ∷ bytes "have no write access to the chat"
        ∷ bytes "can't initiate conversation with a user"
        ∷ [])
    then some blocked_flag
    else none

unfoldable pub is_chat_gone_error : Text → Bool
is_chat_gone_error text = has_any (to_lower text) (
    bytes "chat_write_forbidden"
    ∷ bytes "channel_private"
    ∷ bytes "user_not_participant"
    ∷ bytes "peer_id_invalid"
    ∷ bytes "chat_id_invalid"
    ∷ bytes "bot was kicked"
    ∷ bytes "chat not found"
    ∷ bytes "have no write access to the chat"
    ∷ bytes "group chat was deleted"
    ∷ [])

-- An error of a message: its text, and the seconds that getFloodWait finds, where they are positive.
pub record SendError : Type 0 where
  pub flood_wait : ℕ
  pub text : Text

-- What the rounds of the loop meet: the flag that stops them, what Telegram answers, and the error
-- of a write, which is ignored.
pub record Sends : Type 0 where
  pub cancelled : ℕ → Bool
  pub send : ℕ → ℤ → Option SendError
  pub fault : ℕ → Option (Failure ℤ)

pub record Tally : Type 0 where
  pub count : ℕ
  pub ucount : ℕ
  pub skipped : ℕ
  pub failed : List (ℤ × Text)

abbrev pub no_tally : Tally
no_tally = record { count = 0; ucount = 0; skipped = 0; failed = [] }

module _ (C : Collection ℤ Chat) (U : Collection ℤ User) where
  pub record Progress : Type 0 where
    pub chats : Table C
    pub users : Table U
    pub tally : Tally

  -- The end of a round for a target that is not reached: `gone` is what isUserGoneError says.
  unfoldable pub give_up : Option (Failure ℤ) → Bool → ℤ → Text → Option Flag → Progress → Progress
  give_up fault is_group target text gone w =
      let t = w.tally in
      let skips = record t { skipped = suc t.skipped } in
      let fails = record w { tally = record t { failed = (target, text) ∷ t.failed } } in
      if is_group
      then (if is_chat_gone_error text
          then record w {
            chats = (mark_chats_invalid C (λ _. fault) (target ∷ []) w.chats).0;
            tally = skips;
          }
          else fails)
      else elim gone [
        | none ↦ fails
        | some flag ↦ record w {
          users = (mark_users U flag (λ _. fault) (target ∷ []) w.users).0;
          tally = skips;
        }
      ]

  -- A round of the loop.
  unfoldable pub deliver : Sends → List ℤ → ℕ → ℤ → Progress → Progress
  unfolding give_up
  deliver o groups i target w =
      let t = w.tally in
      elim (o.send i target) [
        | none ↦
            if contains groups target
            then record w { tally = record t { count = suc t.count } }
            else record w { tally = record t { ucount = suc t.ucount } }
        | some e ↦
            if ltb 0 e.flood_wait
            then w
            else give_up (o.fault i) (contains groups target) target e.text
                (is_user_gone_error e.text) w
      ]

  -- The loop, from round i on; whether it came to the end.
  unfoldable pub send_all : Sends → List ℤ → ℕ → List ℤ → Progress → Progress × Bool
  unfolding deliver
  send_all o groups i [] w = (w, true)
  send_all o groups i (target ∷ targets) w = elim (o.cancelled i) [
    | true ↦ (w, false)
    | false ↦ send_all o groups (suc i) targets (deliver o groups i target w)
  ]

pub data Mode : Type 0 where
  to_chats to_users to_both : Mode

-- A round of the loop over the arguments, which keeps the mode and whether to copy.
abbrev parse_arg : Text → Mode × Bool → Mode × Bool
parse_arg a (mode, copy) =
    if a == bytes "-copy"
    then (mode, true)
    else if a == bytes "-chat"
    then (to_chats, copy)
    else if a == bytes "-user"
    then (to_users, copy)
    else if a == bytes "-both"
    then (to_both, copy)
    else (mode, copy)

unfoldable pub parse_args : List Text → Mode × Bool → Mode × Bool
parse_args [] options = options
parse_args (a ∷ args) options = parse_args args (parse_arg a options)

unfoldable pub targets_of : Mode → List ℤ → List ℤ → List ℤ
targets_of to_chats chats users = chats
targets_of to_users chats users = users
targets_of to_both chats users = chats ++ users

-- broadcastCancelFlag and broadcastInProgress.
pub record Flags : Type 0 where
  pub cancel : Bool
  pub in_progress : Bool

-- `starts` begins the loop: the targets, and whether to copy.
pub data BroadcastReply : Type 0 where
  no_reply already_in_progress usage no_targets no_broadcast stops : BroadcastReply
  starts : List ℤ → Bool → BroadcastReply

unfoldable pub start_broadcast : List ℤ → Bool → Flags → Flags × BroadcastReply
start_broadcast [] copy s = (s, no_targets)
start_broadcast (target ∷ targets) copy s =
    (record { cancel = false; in_progress = true }, starts (target ∷ targets) copy)

-- `replied` says that the command replies to a message, which is sent.
unfoldable pub broadcast_handler :
    Bool → Bool → List Text → List ℤ → List ℤ → Flags → Flags × BroadcastReply
unfolding parse_args targets_of start_broadcast
broadcast_handler is_dev replied args chats users s =
    if not is_dev
    then (s, no_reply)
    else if s.in_progress
    then (s, already_in_progress)
    else if not replied
    then (s, usage)
    else let (mode, copy) = parse_args args (to_both, false) in
      start_broadcast (targets_of mode chats users) copy s

unfoldable pub cancel_broadcast_handler : Bool → Flags → Flags × BroadcastReply
cancel_broadcast_handler is_dev s =
    if not is_dev
    then (s, no_reply)
    else if not s.in_progress
    then (s, no_broadcast)
    else (record s { cancel = true }, stops)
