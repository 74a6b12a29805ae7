-- ===== src/Tests/Broadcast.antt =====
-- Flags set in chunks, and a broadcast to two groups and three users.
use tg.Base.{
  ℕ, Option, insert, ◌==◌, ◌≡◌, refl, List, [], ◌∷◌, none, some, true, false, Text, bytes, ℤ, pos,
  negsuc, text_eq, int_eq, lookup, format_int, format_int-injective, has_part, has_prefix, nat_beq,
  if◌then◌else◌,
}
use tg.Db.Cached.{Table, IsCoherent}
use tg.Db.Chats.{Chat, blank_chat}
use tg.Db.Users.{User, reachable}
use tg.Broadcast.Bulk.{Failure, bulk_set_flag, bulk_from, update_many}
use tg.Broadcast.Flagged.{Reaches, bulk_set_flag-Reaches}
use tg.Broadcast.Defs.{
  Sends, SendError, Progress, no_tally, starts, give_up, deliver, send_all, is_chat_gone_error,
  is_user_gone_error, parse_args, targets_of, start_broadcast, broadcast_handler,
}
use tg.Broadcast.Report.{Reports, send_all-Reports}
use tg.Broadcast.Marks.{ChatFlagged, UserFlagged, send_all-Flagged}
use tg.Tests.Memory.{in_memory, update_entry}

abbrev chats : Table (in_memory {K = ℤ} {D = Chat})
chats = record {
  store = (negsuc 6, blank_chat) ∷ (negsuc 7, blank_chat) ∷ [];
  cache = record { entries = []; ttl = 60 };
}

abbrev users : Table (in_memory {K = ℤ} {D = User})
users = record {
  store = (pos 1, reachable) ∷ (pos 2, reachable) ∷ (pos 3, reachable) ∷ [];
  cache = record { entries = []; ttl = 60 };
}

chats-IsCoherent : IsCoherent in_memory format_int chats
unfolding lookup
chats-IsCoherent k v h = cc

abbrev set_invalid : Chat → Chat
set_invalid d = record d { invalid = true }

idem : (d : Chat) → set_invalid (set_invalid d) ≡ set_invalid d
idem d = refl

-- The second round trip would fail; there is only one.
abbrev late_failure : ℕ → Option (Failure ℤ)
late_failure n =
    if nat_beq n 1 then some (record { error = bytes "timeout"; updated = λ id. false }) else none

bulk_set_flag-Reaches_example :
    Reaches in_memory format_int set_invalid idem 5000 late_failure
      (negsuc 6 ∷ negsuc 7 ∷ [])
      chats
      (bulk_set_flag in_memory format_int set_invalid late_failure (negsuc 6 ∷ negsuc 7 ∷ []) chats)
bulk_set_flag-Reaches_example =
    bulk_set_flag-Reaches in_memory format_int set_invalid idem late_failure
      (negsuc 6 ∷ negsuc 7 ∷ []) chats format_int-injective chats-IsCoherent

-- A round trip that breaks off has flagged the first chat only.
broken_off :
    (bulk_set_flag in_memory format_int set_invalid
      (λ n. some (record { error = bytes "timeout"; updated = λ id. id == negsuc 6 }))
      (negsuc 6 ∷ negsuc 7 ∷ [])
      chats).0.store
    ≡ (negsuc 6, set_invalid blank_chat) ∷ (negsuc 7, blank_chat) ∷ []
unfolding bulk_set_flag bulk_from update_many insert lookup update_entry
broken_off = refl

abbrev says : Text → SendError
says text = record { flood_wait = 0; text = text }

-- The second group is gone, the first user has blocked the bot, and the third is asked to wait for.
abbrev sends : Sends
sends = record {
  cancelled = λ i. false;
  send = λ i target.
      if nat_beq i 1
      then some (says (bytes "CHANNEL_PRIVATE"))
      else if nat_beq i 2
      then some (says (bytes "USER_IS_BLOCKED"))
      else if nat_beq i 4
      then some (record { flood_wait = 30; text = bytes "FLOOD_WAIT" })
      else none;
  fault = λ i. none;
}

abbrev groups : List ℤ
groups = negsuc 6 ∷ negsuc 7 ∷ []

abbrev people : List ℤ
people = pos 1 ∷ pos 2 ∷ pos 3 ∷ []

abbrev targets : List ℤ
targets = negsuc 6 ∷ negsuc 7 ∷ pos 1 ∷ pos 2 ∷ pos 3 ∷ []

abbrev start : Progress in_memory in_memory
start = record { chats = chats; users = users; tally = no_tally }

-- The third user is neither counted nor listed as failed.
tally_run :
    (send_all in_memory in_memory sends groups 0 targets start).0.tally
    ≡ record no_tally { count = 1; ucount = 1; skipped = 2 }
unfolding send_all deliver give_up is_chat_gone_error is_user_gone_error has_part has_prefix
tally_run = refl

handler_run :
    broadcast_handler true true
      (bytes "-user" ∷ bytes "-copy" ∷ [])
      groups
      people
      (record { cancel = true; in_progress = false })
    ≡ (record { cancel = false; in_progress = true }, starts people true)
unfolding broadcast_handler parse_args targets_of start_broadcast
handler_run = refl

send_all-Reports_example :
    let r = send_all in_memory in_memory sends groups 0 targets start in
    Reports in_memory in_memory sends groups 0 targets start.tally r.0.tally r.1
send_all-Reports_example = send_all-Reports in_memory in_memory sends groups 0 targets start

send_all-Flagged_example :
    let w = (send_all in_memory in_memory sends groups 0 targets start).0 in
    ChatFlagged in_memory in_memory sends groups 0 targets (negsuc 7) chats w.chats
    × UserFlagged in_memory in_memory sends groups 0 targets (negsuc 7) users w.users
send_all-Flagged_example =
    send_all-Flagged in_memory in_memory sends groups 0 targets (negsuc 7) start
