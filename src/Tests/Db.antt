-- ===== src/Tests/Db.antt =====
-- The collections behind their caches.
use tg.Base.{
  ◌≡◌, Bool, List, [], ◌∷◌, none, some, not, ◌&&◌, ◌||◌, Text, bytes, ℤ, pos, negsuc, lookup, ◌==◌,
  text_eq, nat_eq, int_eq, contains, ok, format_int,
}
use tg.Admins.{AdminCache}
use tg.Db.Cached.{Table, IsCoherent}
use tg.Db.Assistant.{
  assign_assistant, assigned, Call, gets, removes, sets, assigns, clears, assign_assistant-assigned,
}
use tg.Db.Lists.{
  add_auth_user, remove_auth_user, is_auth_user, is_admin, authorized, is_auth_user-add_remove,
  same_key,
}
use tg.Tests.Memory.{in_memory}

-- An empty cache over a collection.
abbrev assistants : Table (in_memory {K = ℤ} {D = ℤ})
assistants = record { store = (negsuc 6, pos 2) ∷ []; cache = record { entries = []; ttl = 60 } }

assistants-IsCoherent : IsCoherent in_memory format_int assistants
unfolding lookup
assistants-IsCoherent k v h = cc

assign_assistant-assigned_example :
    let (s', answer) = assign_assistant in_memory 10 none none (negsuc 6) (pos 3) assistants in
    (assigned in_memory (negsuc 6) s' ≡ pos 2) × (answer ≡ ok (assigned in_memory (negsuc 6) s'))
unfolding lookup
assign_assistant-assigned_example =
    assign_assistant-assigned in_memory 10 (negsuc 6) (negsuc 6) (pos 3) assistants
      assistants-IsCoherent

abbrev calls : List Call
calls =
    gets 1 none (negsuc 6)
    ∷ removes 2 (some (bytes "timeout")) (negsuc 6)
    ∷ sets 3 none (negsuc 6) (pos 1)
    ∷ assigns 4 none none (negsuc 7) (pos 0)
    ∷ clears (some (bytes "timeout"))
    ∷ []

abbrev auth : Table (in_memory {K = ℤ} {D = List ℤ})
auth = record {
  store = (negsuc 6, pos 2 ∷ pos 3 ∷ []) ∷ [];
  cache = record { entries = []; ttl = 60 };
}

auth-IsCoherent : IsCoherent in_memory format_int auth
unfolding lookup
auth-IsCoherent k v h = cc

abbrev no_admins : AdminCache
no_admins = record { entries = []; ttl = 60 }

is_auth_user-add_remove_example :
    let admin = (is_admin in_memory 5 (negsuc 6) (pos 2) no_admins).1 in
    let listed = contains (authorized in_memory (negsuc 6) auth) (pos 2) in
    let same = ◌==◌ {A = ℤ} (negsuc 6) (negsuc 6) && ◌==◌ {A = ℤ} (pos 2) (pos 2) in
    ((is_auth_user in_memory 5 none
        (negsuc 6)
        (pos 2)
        no_admins
        (add_auth_user in_memory none (negsuc 6) (pos 2) auth).0).2
      ≡ (admin || (same || listed)))
    × ((is_auth_user in_memory 5 none
          (negsuc 6)
          (pos 2)
          no_admins
          (remove_auth_user in_memory none (negsuc 6) (pos 2) auth).0).2
        ≡ (admin || (not same && listed)))
is_auth_user-add_remove_example =
    is_auth_user-add_remove in_memory 5 (negsuc 6) (negsuc 6) (pos 2) (pos 2) no_admins auth
      auth-IsCoherent

abbrev blacklists : Table (in_memory {K = Text} {D = List ℤ})
blacklists = record { store = []; cache = record { entries = []; ttl = 60 } }

blacklists-IsCoherent : IsCoherent in_memory (same_key in_memory) blacklists
unfolding lookup
blacklists-IsCoherent k v h = cc

abbrev chat_list : Text
chat_list = bytes "bl_chats"

abbrev languages : Table (in_memory {K = ℤ} {D = Text})
languages = record { store = []; cache = record { entries = []; ttl = 60 } }

languages-IsCoherent : IsCoherent in_memory format_int languages
unfolding lookup
languages-IsCoherent k v h = cc

abbrev switches : Table (in_memory {K = Text} {D = Bool})
switches = record { store = []; cache = record { entries = []; ttl = 60 } }

switches-IsCoherent : IsCoherent in_memory (λ k. k) switches
unfolding lookup
switches-IsCoherent k v h = cc
