-- ===== src/Db/Lists.antt =====
-- internal/db/auth.go and blacklist.go: authorized users and the blacklists. A document is the one
-- field that the code decodes; the documents of the collection `cache` with fields of different types
-- are taken as collections of their own. `fault` is the error of a call, if any.
use tg.Base.{
  ℕ, ◌≡◌, ◌∙◌, ap, List, [], ◌∷◌, ◌++◌, Option, none, some, Bool, true, Text, bytes, ℤ, int_eq,
  int_beq_iff, text_eq, if◌then◌else◌, ◌==◌, ◌||◌, ◌&&◌, not, arith, Result, ok, err, format_int,
  format_int-injective, contains, contains-append, keep_if,
}
use mathlib.Core.Option
use tg.Admins.{AdminCache, get_chat_admin_ids, AdminError}
use tg.Db.Collection.{Collection}
use tg.Db.Cached.{
  Table, read, write_drop, update_drop, IsCoherent, IsInjective, read-find_one,
  write_drop-IsCoherent, update_drop-IsCoherent,
}

-- $addToSet and $pull.
unfoldable pub add_to_set : ℤ → List ℤ → List ℤ
add_to_set a xs = if contains xs a then xs else xs ++ a ∷ []

unfoldable pub pull : ℤ → List ℤ → List ℤ
pull a xs = keep_if (λ x. not (x == a)) xs

abbrev pub or_none : Result Text (Option (List ℤ)) → List ℤ
or_none (err e) = []
or_none (ok none) = []
or_none (ok (some xs)) = xs

contains-add_to_set :
    (a b : ℤ) (xs : List ℤ) → contains (add_to_set a xs) b ≡ (a == b || contains xs b)
unfolding add_to_set
contains-add_to_set a b xs = ground (arith, contains-append xs (a ∷ []) b, int_beq_iff a b)

contains-pull : (a b : ℤ) (xs : List ℤ) → contains (pull a xs) b ≡ (not (a == b) && contains xs b)
unfolding pull
contains-pull a b [] = ground arith
contains-pull a b (x ∷ xs) =
    ground (arith, contains-pull a b xs, int_beq_iff a b, int_beq_iff x a, int_beq_iff x b)

module _ (C : Collection ℤ (List ℤ)) where
  open C use {find_one}

  unfoldable pub add_auth_user : Option Text → ℤ → ℤ → Table C → Table C × Option Text
  add_auth_user fault chat uid s = write_drop C format_int fault chat (add_to_set uid) [] s

  unfoldable pub remove_auth_user : Option Text → ℤ → ℤ → Table C → Table C × Option Text
  remove_auth_user fault chat uid s = update_drop C format_int fault chat (pull uid) s

  unfoldable pub get_auth_users : ℕ → Option Text → ℤ → Table C → Table C × List ℤ
  get_auth_users now fault chat s =
      let (s', r) = read C format_int now fault chat s in (s', or_none r)

  -- The administrators that IsAuthUser and IsAdmin go by: none, if the list is not cached.
  abbrev pub known_admins : Result AdminError (List ℤ) → List ℤ
  known_admins (err e) = []
  known_admins (ok ids) = ids

  unfoldable pub is_auth_user :
      ℕ → Option Text → ℤ → ℤ → AdminCache → Table C → AdminCache × Table C × Bool
  unfolding get_auth_users
  is_auth_user now fault chat uid a s =
      let (a', r) = get_chat_admin_ids now chat a in
      let (s', users) = get_auth_users now fault chat s in
      if contains (known_admins r) uid then (a', s, true) else (a', s', contains users uid)

  unfoldable pub is_admin : ℕ → ℤ → ℤ → AdminCache → AdminCache × Bool
  is_admin now chat uid a =
      let (a', r) = get_chat_admin_ids now chat a in (a', contains (known_admins r) uid)

  -- The abstract view: the users that the collection authorizes in a chat.
  abbrev pub authorized : ℤ → Table C → List ℤ
  authorized chat s = Option.get_or (find_one chat s.store) []

  get_auth_users-authorized :
      (now : ℕ) (chat : ℤ) (s : Table C)
      → IsCoherent C format_int s
      → (get_auth_users now none chat s).1 ≡ authorized chat s
  unfolding get_auth_users
  get_auth_users-authorized now chat s h =
      ground (arith, read-find_one C format_int now none chat s h)

  contains-auth_after_add :
      (now : ℕ) (chat j uid v : ℤ) (s : Table C)
      → IsCoherent C format_int s
      → contains (get_auth_users now none j (add_auth_user none chat uid s).0).1 v ≡ (
          if chat == j
          then uid == v || contains (authorized j s) v
          else contains (authorized j s) v)
  unfolding add_auth_user
  contains-auth_after_add now chat j uid v s h =
      let s' = (write_drop C format_int none chat (add_to_set uid) [] s).0 in
      ap (λ (xs : List ℤ). contains xs v)
        (get_auth_users-authorized now j s' (
          write_drop-IsCoherent C format_int none chat (add_to_set uid) [] s format_int-injective
            h))
      ∙ (unfold write_drop in
          ground (
            arith,
            C.find_one-upsert chat j (add_to_set uid) [] s.store,
            contains-add_to_set uid v (authorized j s),
          ))

  contains-auth_after_remove :
      (now : ℕ) (chat j uid v : ℤ) (s : Table C)
      → IsCoherent C format_int s
      → contains (get_auth_users now none j (remove_auth_user none chat uid s).0).1 v ≡ (
          if chat == j
          then not (uid == v) && contains (authorized j s) v
          else contains (authorized j s) v)
  unfolding remove_auth_user
  contains-auth_after_remove now chat j uid v s h =
      let s' = (update_drop C format_int none chat (pull uid) s).0 in
      ap (λ (xs : List ℤ). contains xs v)
        (get_auth_users-authorized now j s'
          (update_drop-IsCoherent C format_int none chat (pull uid) s format_int-injective h))
      ∙ (unfold update_drop in
          ground (
            arith,
            C.find_one-update chat j (pull uid) s.store,
            contains-pull uid v (authorized j s),
          ))

  -- Where the cache agrees with the collection and no call fails, AddAuthUser and RemoveAuthUser
  -- change who may control playback for the one user in the one chat, at once, although reads go
  -- through the cache; an administrator that the cache knows of always may.
  pub is_auth_user-add_remove :
      (now : ℕ) (chat j uid v : ℤ) (a : AdminCache) (s : Table C)
      → IsCoherent C format_int s
      → let admin = (is_admin now j v a).1 in
        ((is_auth_user now none j v a (add_auth_user none chat uid s).0).2
          ≡ (admin || ((chat == j && uid == v) || contains (authorized j s) v)))
        × ((is_auth_user now none j v a (remove_auth_user none chat uid s).0).2
            ≡ (admin || (not (chat == j && uid == v) && contains (authorized j s) v)))
  unfolding is_auth_user is_admin
  is_auth_user-add_remove now chat j uid v a s h = (
    ground (arith, contains-auth_after_add now chat j uid v s h),
    ground (arith, contains-auth_after_remove now chat j uid v s h),
  )

-- The blacklists: the same two fields of the documents bl_chats and bl_users, in one cache each.
-- `list` is the document's name, and the cache's key.
module _ (C : Collection Text (List ℤ)) where
  open C use {find_one as find_list}

  abbrev pub same_key : Text → Text
  same_key list = list

  abbrev pub bl_chats : Text
  bl_chats = bytes "bl_chats"

  abbrev pub bl_users : Text
  bl_users = bytes "bl_users"

  unfoldable pub add_blacklisted : Option Text → Text → ℤ → Table C → Table C × Option Text
  add_blacklisted fault list id s = write_drop C same_key fault list (add_to_set id) [] s

  unfoldable pub remove_blacklisted : Option Text → Text → ℤ → Table C → Table C × Option Text
  remove_blacklisted fault list id s = update_drop C same_key fault list (pull id) s

  unfoldable pub get_blacklisted : ℕ → Option Text → Text → Table C → Table C × List ℤ
  get_blacklisted now fault list s =
      let (s', r) = read C same_key now fault list s in (s', or_none r)

  unfoldable pub is_blacklisted : ℕ → Option Text → Text → ℤ → Table C → Table C × Bool
  unfolding get_blacklisted
  is_blacklisted now fault list id s =
      let (s', ids) = get_blacklisted now fault list s in (s', contains ids id)

  -- The abstract view.
  abbrev pub on_list : Text → ℤ → Table C → Bool
  on_list list id s = contains (Option.get_or (find_list list s.store) []) id

  is_blacklisted-on_list :
      (now : ℕ) (list : Text) (id : ℤ) (s : Table C)
      → IsCoherent C same_key s
      → (is_blacklisted now none list id s).1 ≡ on_list list id s
  unfolding is_blacklisted
  is_blacklisted-on_list now list id s h =
      ground (arith, read-find_one C same_key now none list s h)

  -- Where the cache agrees with the collection and no call fails, an id that was blacklisted is
  -- on its list at once, one that was taken off is not, and nothing else changes on this list or
  -- the other one.
  pub is_blacklisted-add_remove :
      (now : ℕ) (list other : Text) (id j : ℤ) (s : Table C)
      → IsCoherent C same_key s
      → ((is_blacklisted now none other j (add_blacklisted none list id s).0).1
          ≡ ((list == other && id == j) || on_list other j s))
        × ((is_blacklisted now none other j (remove_blacklisted none list id s).0).1
            ≡ (not (list == other && id == j) && on_list other j s))
  unfolding add_blacklisted remove_blacklisted
  is_blacklisted-add_remove now list other id j s h =
      let inj : IsInjective C same_key = λ a b e. e in
      (
        is_blacklisted-on_list now other j _
              (write_drop-IsCoherent C same_key none list (add_to_set id) [] s inj h)
            ∙ (unfold write_drop in
                ground (
                  arith,
                  C.find_one-upsert list other (add_to_set id) [] s.store,
                  contains-add_to_set id j (Option.get_or (find_list other s.store) []),
                )),
        is_blacklisted-on_list now other j _
              (update_drop-IsCoherent C same_key none list (pull id) s inj h)
            ∙ (unfold update_drop in
                ground (
                  arith,
                  C.find_one-update list other (pull id) s.store,
                  contains-pull id j (Option.get_or (find_list other s.store) []),
                )),
      )
