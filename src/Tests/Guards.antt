-- ===== src/Tests/Guards.antt =====
-- Who passes adminMode.
use tg.Base.{
  ◌≡◌, refl, List, [], ◌∷◌, none, false, ℤ, pos, negsuc, ok, lookup, insert, contains, delete, inl,
  inr, int_eq, text_eq, format_int,
}
use tg.Base
use tg.Ttl
use tg.Admins
use tg.Admins.{user, creator}
use tg.Db.Cached
use tg.Db.Cached.{Table}
use tg.Db.Chats.{answered, get_admin_mode, get_cmd_delete, get_chat, read_error, tries}
use tg.Db.Lists.{is_admin, is_auth_user, get_auth_users}
use tg.Commands.Guards.{Answers, Known, check_bot_admin, admins_pass, admin_mode}
use tg.Tests.Memory.{in_memory}

-- The bot owns the chat; nobody else is an administrator.
abbrev answers : Answers
answers = record {
  now = 5;
  me = pos 1;
  members = ok (record { member_id = user (pos 1); status = creator } ∷ []);
  delete_reply = λ n. answered;
  mode_reply = λ n. answered;
  auth_fault = none;
}

abbrev known : Known in_memory in_memory
known = record {
  admins = record { entries = []; ttl = 60 };
  chats = record { store = []; cache = record { entries = []; ttl = 60 } };
  auth = record { store = (negsuc 6, pos 3 ∷ []) ∷ []; cache = record { entries = []; ttl = 60 } };
}

stranger : (admin_mode answers false (negsuc 6) (pos 4) known).1 ≡ false
unfolding admin_mode check_bot_admin admins_pass is_admin is_auth_user get_auth_users get_admin_mode
    get_cmd_delete get_chat read_error tries Cached.read Admins.get_user_admin Admins.get_admins
    Admins.fetch_admins Admins.find_admin Admins.get_chat_admin_ids Admins.ids_of Ttl.get Ttl.set
    Ttl.set_with_ttl lookup insert Base.delete format_int Admins.admin_cache_key
stranger = refl
