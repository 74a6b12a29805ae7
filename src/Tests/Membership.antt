-- ===== src/Tests/Membership.antt =====
-- Assistants that join and leave.
use tg.Base.{
  ℕ, zero, suc, ◌*◌, ◌≤◌, ◌≡◌, refl, List, [], ◌∷◌, Option, none, some, false, Text, bytes, pos,
  negsuc, arith, lookup, int_eq, ok, ◌⊎◌, length,
}
use tg.Player.{ChatCacher, is_active}
use tg.Ttl
use tg.Admins.{left, plain_member}
use tg.Membership.Defs.{Caches, Telegram, ensure_assistant_member}
use tg.Membership.Links.{HasLinks, Call, run, run-HasLinks}
use tg.Membership.Links
use tg.Membership.Joining.{IsRemembered, IsLetIn, IsApproved}
use tg.Membership.Joined.{IsMember, ensure_assistant_member_lem}
use tg.Membership.Leave.{peer_channel, peer_user, Server, Tally, leave_assistant_dialogs}
use tg.Membership.Leaving.{PlaysInGroups, AsksFor, leave_assistant_dialogs_lem}

abbrev empty_caches : Caches
empty_caches = record {
  status_cache = record { entries = []; ttl = 60 };
  invite_cache = record { entries = []; ttl = 60 };
  admin_cache = record { entries = []; ttl = 60 };
}

-- The assistant has left; the first link is dead, the second one works.
abbrev dead_once : ℕ → Text → Option Text
dead_once zero link = some (bytes "INVITE_HASH_EXPIRED")
dead_once (suc n) link = none

abbrev telegram : Telegram
telegram = record {
  clock = λ n. n;
  member = ok left;
  invite = λ n. ok (bytes "t.me/x");
  join = dead_once;
  flood_wait = λ e. pos 0;
  search_admins = ok [];
  bot_id = pos 7;
  unban = none;
  approve = some (bytes "no");
}

empty_caches-HasLinks : HasLinks empty_caches
unfolding lookup
empty_caches-HasLinks key link e = cc

abbrev calls : List Call
calls =
    Links.ensures telegram 0 (negsuc 6) (pos 9)
    ∷ Links.updates_link 5 (negsuc 7) []
    ∷ Links.joins telegram (negsuc 7) (pos 9) (bytes "t.me/y")
    ∷ Links.clears (negsuc 6) (pos 9 ∷ [])
    ∷ []

run-HasLinks_example : HasLinks (run calls empty_caches)
run-HasLinks_example = run-HasLinks calls empty_caches empty_caches-HasLinks

-- A member that was remembered.
abbrev remembered : Caches
remembered = record empty_caches {
  status_cache = record {
    entries = (bytes "1:2", record { value = plain_member; expiration = 60 }) ∷ [];
    ttl = 60;
  };
}

ensured :
    (ensure_assistant_member
      (record telegram { member = ok plain_member })
      0
      (pos 1)
      (pos 2)
      empty_caches).1
    ≡ none
unfolding ensure_assistant_member lookup Ttl.get
ensured = refl

ensure_assistant_member_example :
    let t : Telegram = record telegram { member = ok plain_member } in
    ((IsRemembered (pos 1) (pos 2) empty_caches ⊎ IsMember t) ⊎ IsLetIn t)
    × (IsRemembered (pos 1) (pos 2) (ensure_assistant_member t 0 (pos 1) (pos 2) empty_caches).0
        ⊎ IsApproved t)
ensure_assistant_member_example =
    ensure_assistant_member_lem (record telegram { member = ok plain_member }) 0 (pos 1) (pos 2)
      empty_caches ensured

-- A song plays in the channel with the raw id 6.
abbrev busy : ChatCacher
busy = record {
  chat_cache =
      (
        negsuc 1000000000005,
        record { queue = some 1 ∷ []; autoplay = false; autoplay_history = [] },
      )
      ∷ [];
}

abbrev server : Server
server = record { leave = λ n. none; flood_wait = λ e. pos 0; chats = λ n. busy }

server-PlaysInGroups : PlaysInGroups server
unfolding is_active lookup
server-PlaysInGroups n (pos id) h = ground arith
server-PlaysInGroups n (negsuc id) h = cc

leave_assistant_dialogs_example :
    (n : ℕ) × (u : Tally) × (leave_assistant_dialogs server
        (ok (peer_channel (pos 6) ∷ peer_user (pos 3) ∷ []))
      ≡ some (ok n, u))
    × (length u.asked ≤ 3 * 2)
    × (PlaysInGroups server → AsksFor u (peer_channel (pos 6) ∷ peer_user (pos 3) ∷ []))
leave_assistant_dialogs_example =
    leave_assistant_dialogs_lem server (peer_channel (pos 6) ∷ peer_user (pos 3) ∷ [])

-- The assistant is told to leave a channel in which a song plays.
leaves_busy :
    leave_assistant_dialogs server (ok (peer_channel (pos 6) ∷ []))
    ≡ some (ok 1, record { asked = pos 6 ∷ []; total_left = 1 })
unfolding leave_assistant_dialogs is_active lookup
leaves_busy = refl
