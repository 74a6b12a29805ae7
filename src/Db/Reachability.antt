-- ===== src/Db/Reachability.antt =====
-- internal/db/users.go: what the collection holds after any history of calls, and what IsUserExist
-- answers.
use tg.Base.{
  ℕ, ◌≡◌, refl, ◌∙◌, ap, List, [], ◌∷◌, Option, none, some, true, false, Text, ℤ, inl, inr, int_eq,
  int_beq_iff, text_eq, arith, ok, format_int, Option-cases, Bool-cases,
}
use tg.Ttl
use tg.Db.Collection.{Collection}
use tg.Ttl.Held.{held, get-held}
use tg.Db.Cached.{Table, fill, read, remove_drop}
use tg.Db.Users.{
  User, reachable, Flag, blocked_flag, deleted_flag, with_flag, is_flagged, add_missing, add_user,
  set_user_flag, mark_user_blocked, mark_user_deleted, remove_user, exists_in, is_user_exist,
}
use tg.Db.Flags.{
  Call, adds, marks_blocked, marks_deleted, looks, removes, written, flagged, step_spec, run_spec,
  is_some, unflagged, step, run, IsFaithful, looked, step-IsFaithful, run-IsFaithful,
}

module _ (C : Collection ℤ User) where
  open C use {find_one}

  add_missing-store :
      (now : ℕ) (fault : Option Text) (uid j : ℤ) (s : Table C)
      → find_one j (add_missing C now fault uid s).0.store
        ≡ written fault uid (λ y. some reachable) j (find_one j s.store)
  unfolding add_missing
  add_missing-store now (some e) uid j s = refl
  add_missing-store now none uid j s = C.find_one-upsert uid j (λ u. reachable) reachable s.store

  -- A user whose cached copy has no flag is stored without one.
  unflagged-store :
      (uid : ℤ) (v : User) (s : Table C)
      → IsFaithful C s
      → held (format_int uid) s.cache ≡ some v
      → is_flagged v ≡ false
      → find_one uid s.store ≡ some reachable
  unflagged-store uid v s h g f = elim (Option-cases (find_one uid s.store)) [
    | inl e ↦ absurd (ground (arith, h uid v))
    | inr (d, e) ↦ e ∙ ap some (unflagged d (ground (arith, h uid v)))
  ]

  written-already :
      (fault : Option Text) (uid j : ℤ) (s : Table C)
      → find_one uid s.store ≡ some reachable
      → find_one j s.store ≡ written fault uid (λ y. some reachable) j (find_one j s.store)
  written-already (some e) uid j s h = refl
  written-already none uid j s h = ground (arith, int_beq_iff uid j)

  add_user-store :
      (now : ℕ) (fault : Option Text) (uid j : ℤ) (s : Table C)
      → IsFaithful C s
      → find_one j (add_user C now fault uid s).0.store
        ≡ written fault uid (λ y. some reachable) j (find_one j s.store)
  unfolding add_user
  add_user-store now fault uid j s h =
      let m = add_missing-store now fault uid j (looked C now uid s) in
      elim (Option-cases (Ttl.get now now (format_int uid) s.cache).1) [
        | inl e ↦ rw (e, add_user) m
        | inr (v, e) ↦ elim (Bool-cases (is_flagged v)) [
          | inl f ↦ rw (e, add_user, f) m
          | inr f ↦
              rw (e, add_user, f)
                (written-already fault uid j s
                  (unflagged-store uid v s h (get-held now (format_int uid) s.cache v e) f))
        ]
      ]

  set_user_flag-store :
      (now : ℕ) (fault : Option Text) (uid j : ℤ) (flag : Flag) (s : Table C)
      → find_one j (set_user_flag C now fault uid flag true s).0.store
        ≡ written fault uid (flagged flag) j (find_one j s.store)
  unfolding set_user_flag
  set_user_flag-store now (some e) uid j flag s = refl
  set_user_flag-store now none uid j flag s =
      C.find_one-upsert uid j (with_flag flag true) reachable s.store

  remove_user-store :
      (fault : Option Text) (uid j : ℤ) (s : Table C)
      → find_one j (remove_user C fault uid s).0.store
        ≡ written fault uid (λ y. none) j (find_one j s.store)
  unfolding remove_user remove_drop
  remove_user-store (some e) uid j s = refl
  remove_user-store none uid j s = C.find_one-remove uid j s.store

  fill-store :
      (now : ℕ) (fault : Option Text) (uid : ℤ) (s : Table C)
      → (fill C format_int now fault uid s).0.store ≡ s.store
  unfolding fill
  fill-store now (some e) uid s = refl
  fill-store now none uid s = ground arith

  is_user_exist-store :
      (now : ℕ) (fault : Option Text) (uid : ℤ) (s : Table C)
      → (is_user_exist C now fault uid s).0.store ≡ s.store
  unfolding is_user_exist read
  is_user_exist-store now fault uid s =
      ground (arith, fill-store now fault uid (looked C now uid s))

  step-store :
      (c : Call) (j : ℤ) (s : Table C)
      → IsFaithful C s
      → find_one j (step C c s).store ≡ step_spec c j (find_one j s.store)
  unfolding step mark_user_blocked mark_user_deleted
  step-store (adds now fault uid) j s h = add_user-store now fault uid j s h
  step-store (marks_blocked now fault uid) j s h =
      set_user_flag-store now fault uid j blocked_flag s
  step-store (marks_deleted now fault uid) j s h =
      set_user_flag-store now fault uid j deleted_flag s
  step-store (looks now fault uid) j s h = ap (find_one j) (is_user_exist-store now fault uid s)
  step-store (removes fault uid) j s h = remove_user-store fault uid j s

  -- From a cache whose copies agree with the collection on who is there and who is flagged, and
  -- after any calls, with whatever errors, the collection holds of every user what the calls that
  -- succeeded make of it without a cache: although AddUser trusts a cached copy without a flag
  -- and does not write, a user whom it adds is never left flagged.
  pub run-find_one :
      (calls : List Call) (j : ℤ) (s : Table C)
      → IsFaithful C s
      → find_one j (run C calls s).store ≡ run_spec calls j (find_one j s.store)
  unfolding run
  run-find_one [] j s h = refl
  run-find_one (c ∷ calls) j s h =
      run-find_one calls j (step C c s) (step-IsFaithful C c s h)
      ∙ ap (run_spec calls j) (step-store c j s h)

  fill-exists :
      (now : ℕ) (uid : ℤ) (s : Table C)
      → exists_in C (fill C format_int now none uid s).1 ≡ ok (is_some (find_one uid s.store))
  unfolding fill
  fill-exists now uid s = ground arith

  -- From a cache whose copies agree with the collection on who is there and who is flagged, and
  -- after any calls, with whatever errors, IsUserExist answers, from the cache or not, whether
  -- the collection has the user, where the server answers its read.
  pub run-is_user_exist :
      (calls : List Call) (now : ℕ) (uid : ℤ) (s : Table C)
      → IsFaithful C s
      → (is_user_exist C now none uid (run C calls s)).1
        ≡ ok (is_some (run_spec calls uid (find_one uid s.store)))
  unfolding is_user_exist read
  run-is_user_exist calls now uid s h =
      let t = run C calls s in
      let h' = run-IsFaithful C calls s h in
      let result : (is_user_exist C now none uid t).1 ≡ ok (is_some (find_one uid t.store)) =
        elim (Option-cases (Ttl.get now now (format_int uid) t.cache).1) [
          | inl e ↦ rw (e, is_user_exist, read) (fill-exists now uid (looked C now uid t))
          | inr (v, e) ↦ ground (arith, h' uid v (get-held now (format_int uid) t.cache v e))
        ] in
      result ∙ ap (λ (x : Option User). ok (is_some x)) (run-find_one calls uid s h)
