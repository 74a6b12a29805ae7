-- ===== src/Tests/Admins.antt =====
-- The administrators' cache.
use tg.Base.{
  ℕ, ◌+◌, ◌≡◌, refl, List, [], ◌∷◌, Option, none, some, Bool, true, false, Text, bytes, ℤ, pos,
  negsuc, arith, if◌then◌else◌, lookup, insert, ◌==◌, text_eq, nat_eq, int_eq, contains, Result, ok,
  err, map,
}
use tg.Base
use tg.Admins
use tg.Admins.{
  ChatMember, Members, AdminCache, AdminError, administrator, creator, restricted, user,
  all_creator_rights, not_administrator,
}
use tg.Admins.Laws.{cached, get_user_admin-update_admin_cache}

abbrev owner : ChatMember
owner = record { member_id = user (pos 1); status = creator }

abbrev helper : ChatMember
helper = record { member_id = user (pos 2); status = administrator (some all_creator_rights) }

abbrev dismissed : ChatMember
dismissed = record { member_id = user (pos 2); status = restricted }

abbrev admins : Members
admins = some owner ∷ none ∷ some helper ∷ []

-- Admins.admin_cache_key (negsuc 6), that is, "admins:-7".
abbrev stored : AdminCache
stored = record {
  entries = (bytes "admins:-7", record { value = admins; expiration = 100 }) ∷ [];
  ttl = 60;
}

abbrev no_answer : Result Text (List ChatMember)
no_answer = err (bytes "offline")

program : Unit {0}
unfolding lookup Admins.admin_cache_key Base.format_int Admins.ids_of Admins.find_admin
program = tt

stored_now : cached 50 (negsuc 6) stored ≡ some admins
unfolding program
stored_now = refl

stored_later : cached 55 (negsuc 6) stored ≡ some admins
unfolding program
stored_later = refl

get_user_admin-update_admin_cache_example :
    (Admins.get_user_admin 55 no_answer
      (negsuc 6)
      (pos 2)
      false
      (Admins.update_admin_cache 50 (negsuc 6) (some dismissed) stored)).1
    ≡ err (not_administrator (pos 2) (negsuc 6))
unfolding program
get_user_admin-update_admin_cache_example =
    get_user_admin-update_admin_cache 50 55 no_answer (negsuc 6) (pos 2) (pos 2) dismissed admins
      stored refl (refl, (refl, tt)) (omega arith) (omega arith) stored_now stored_later
