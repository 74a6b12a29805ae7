-- ===== src/Tests/Chats.antt =====
-- The chats and the users behind their caches.
use tg.Base.{
  ℕ, ltb, if◌then◌else◌, ◌≡◌, refl, List, [], ◌∷◌, none, some, true, false, bytes, ℤ, pos, negsuc,
  lookup, int_eq, text_eq, ok, format_int,
}
use tg.Db.Cached.{Table, IsCoherent}
use tg.Db.Chats.{Chat, blank_chat, answered, failed, Reply, read_error, add_chat}
use tg.Db.Settings
use tg.Db.Getters.{observe, added, run-observe, add_chat-find_one}
use tg.Db.Users.{User, is_user_exist}
use tg.Db.Flags
use tg.Db.Flags.{IsFaithful, is_some}
use tg.Db.Reachability.{run-find_one, run-is_user_exist}
use tg.Tests.Memory.{in_memory}

-- A chat that was flagged invalid.
abbrev gone : Chat
gone = record blank_chat { play_type = pos 1; invalid = true }

abbrev chats : Table (in_memory {K = ℤ} {D = Chat})
chats = record { store = (negsuc 6, gone) ∷ []; cache = record { entries = []; ttl = 60 } }

chats-IsCoherent : IsCoherent in_memory format_int chats
unfolding lookup
chats-IsCoherent k v h = cc

-- The server answers the third try.
abbrev slow : ℕ → Reply
slow n = if ltb n 2 then failed (bytes "network") else answered

slow-read_error : read_error slow ≡ none
unfolding read_error
slow-read_error = refl

abbrev settings_calls : List Settings.Call
settings_calls =
    Settings.looks 1 slow (negsuc 6)
    ∷ Settings.sets_admin_mode none (negsuc 6) (bytes "everyone")
    ∷ Settings.sets_play_mode (some (bytes "timeout")) (negsuc 6) true
    ∷ Settings.adds 2 slow 2 none (negsuc 6)
    ∷ Settings.sets_type none (negsuc 7) (pos 2)
    ∷ []

run-observe_example :
    observe in_memory 9 slow (negsuc 6) (Settings.run in_memory settings_calls chats)
    ≡ record (observe in_memory 0 slow (negsuc 6) chats) { admin_mode = bytes "everyone" }
run-observe_example =
    run-observe in_memory settings_calls 0 9 slow (negsuc 6) chats chats-IsCoherent slow-read_error

add_chat-find_one_example :
    lookup (negsuc 6) (add_chat in_memory 1 slow 1 none (negsuc 6) chats).0.store
    ≡ some (added 1 (some gone))
unfolding lookup
add_chat-find_one_example =
    add_chat-find_one in_memory 1 1 slow (negsuc 6) (negsuc 6) chats chats-IsCoherent
      slow-read_error

-- A user that deleted the account.
abbrev left : User
left = record { blocked = false; deleted = true }

abbrev users : Table (in_memory {K = ℤ} {D = User})
users = record { store = (pos 5, left) ∷ []; cache = record { entries = []; ttl = 60 } }

users-IsFaithful : IsFaithful in_memory users
unfolding lookup
users-IsFaithful k v h = cc

-- The cached copy of user 5 lacks the flag `deleted` after the first call.
abbrev user_calls : List Flags.Call
user_calls =
    Flags.marks_blocked 1 none (pos 5)
    ∷ Flags.looks 2 none (pos 5)
    ∷ Flags.adds 3 none (pos 5)
    ∷ Flags.adds 4 (some (bytes "timeout")) (pos 6)
    ∷ []

run-find_one_example :
    lookup (pos 5) (Flags.run in_memory user_calls users).store
    ≡ some (record { blocked = false; deleted = false })
run-find_one_example = run-find_one in_memory user_calls (pos 5) users users-IsFaithful

run-is_user_exist_example :
    (is_user_exist in_memory 9 none (pos 6) (Flags.run in_memory user_calls users)).1
    ≡ ok (is_some (Flags.run_spec user_calls (pos 6) (lookup (pos 6) users.store)))
run-is_user_exist_example = run-is_user_exist in_memory user_calls 9 (pos 6) users users-IsFaithful
