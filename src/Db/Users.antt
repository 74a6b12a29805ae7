-- ===== src/Db/Users.antt =====
-- internal/db/users.go: who uses the bot, and whom it cannot reach any more. `fault` is the error of a
-- call, if any. The lists and the counts of all users are left out.
use tg.Base.{
  ℕ, Option, none, some, Bool, true, false, ◌||◌, Text, ℤ, int_eq, text_eq, if◌then◌else◌, Result,
  ok, err, format_int,
}
use mathlib.Core.Option
use tg.Ttl
use tg.Db.Collection.{Collection}
use tg.Db.Cached.{Table, read, remove_drop}

-- A document, without its _id.
pub record User : Type 0 where
  pub blocked : Bool
  pub deleted : Bool

abbrev pub reachable : User
reachable = record { blocked = false; deleted = false }

pub data Flag : Type 0 where
  blocked_flag deleted_flag : Flag

abbrev pub with_flag : Flag → Bool → User → User
with_flag blocked_flag value u = record u { blocked = value }
with_flag deleted_flag value u = record u { deleted = value }

abbrev pub is_flagged : User → Bool
is_flagged u = u.blocked || u.deleted

module _ (C : Collection ℤ User) where
  open C use {find_one, upsert}

  -- AddUser once the cache has answered.
  unfoldable pub add_missing : ℕ → Option Text → ℤ → Table C → Table C × Option Text
  add_missing now (some e) uid s = (s, some e)
  add_missing now none uid s = (
    record s {
      store = upsert uid (λ u. reachable) reachable s.store;
      cache = Ttl.set now (format_int uid) reachable s.cache;
    },
    none,
  )

  unfoldable pub add_user : ℕ → Option Text → ℤ → Table C → Table C × Option Text
  unfolding add_missing
  add_user now fault uid s =
      let (c, found) = Ttl.get now now (format_int uid) s.cache in
      let s' = record s { cache = c } in
      elim found [
        | some u ↦ if is_flagged u then add_missing now fault uid s' else (s', none)
        | none ↦ add_missing now fault uid s'
      ]

  unfoldable pub set_user_flag : ℕ → Option Text → ℤ → Flag → Bool → Table C → Table C × Option Text
  set_user_flag now (some e) uid flag value s = (s, some e)
  set_user_flag now none uid flag value s =
      let (c, found) = Ttl.get now now (format_int uid) s.cache in
      (
        record s {
          store = upsert uid (with_flag flag value) reachable s.store;
          cache =
              Ttl.set now (format_int uid) (with_flag flag value (Option.get_or found reachable)) c;
        },
        none,
      )

  unfoldable pub mark_user_blocked : ℕ → Option Text → ℤ → Table C → Table C × Option Text
  unfolding set_user_flag
  mark_user_blocked now fault uid s = set_user_flag now fault uid blocked_flag true s

  unfoldable pub mark_user_deleted : ℕ → Option Text → ℤ → Table C → Table C × Option Text
  unfolding set_user_flag
  mark_user_deleted now fault uid s = set_user_flag now fault uid deleted_flag true s

  unfoldable pub remove_user : Option Text → ℤ → Table C → Table C × Option Text
  remove_user fault uid s = remove_drop C format_int fault uid s

  abbrev pub exists_in : Result Text (Option User) → Result Text Bool
  exists_in (err e) = err e
  exists_in (ok none) = ok false
  exists_in (ok (some u)) = ok true

  unfoldable pub is_user_exist : ℕ → Option Text → ℤ → Table C → Table C × Result Text Bool
  is_user_exist now fault uid s =
      let (s', r) = read C format_int now fault uid s in (s', exists_in r)
