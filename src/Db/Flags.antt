-- ===== src/Db/Flags.antt =====
-- internal/db/users.go: histories of calls. The cached copy of a user can lack a flag that the
-- collection has, but both agree on whether there is one.
use tg.Base.{
  ℕ, ◌≡◌, List, [], ◌∷◌, Option, none, some, Bool, true, false, not, Text, ℤ, inl, inr, int_eq,
  int_beq_iff, text_eq, if◌then◌else◌, ◌==◌, arith, format_int, format_int-injective, Option-cases,
}
use mathlib.Core.Option
use tg.Ttl
use tg.Db.Collection.{Collection}
use tg.Ttl.Held.{held, held-delete, held-set, held-get}
use tg.Db.Cached.{Table, fill, read, remove_drop, key-==}
use tg.Db.Users.{
  User, reachable, Flag, blocked_flag, deleted_flag, with_flag, is_flagged, add_missing, add_user,
  set_user_flag, mark_user_blocked, mark_user_deleted, remove_user, is_user_exist,
}

-- A call, with the clock and the error that it meets.
pub data Call : Type 0 where
  adds marks_blocked marks_deleted looks : ℕ → Option Text → ℤ → Call
  removes : Option Text → ℤ → Call

-- A write that succeeds changes the document of its user.
abbrev pub written : Option Text → ℤ → (Option User → Option User) → ℤ → Option User → Option User
written none uid f j x = if uid == j then f x else x
written (some e) uid f j x = x

abbrev pub flagged : Flag → Option User → Option User
flagged flag x = some (with_flag flag true (Option.get_or x reachable))

-- The reference: what a call makes of the document of user `j`, as if there were no cache.
abbrev pub step_spec : Call → ℤ → Option User → Option User
step_spec (adds now fault uid) j x = written fault uid (λ y. some reachable) j x
step_spec (marks_blocked now fault uid) j x = written fault uid (flagged blocked_flag) j x
step_spec (marks_deleted now fault uid) j x = written fault uid (flagged deleted_flag) j x
step_spec (looks now fault uid) j x = x
step_spec (removes fault uid) j x = written fault uid (λ y. none) j x

abbrev pub run_spec : List Call → ℤ → Option User → Option User
run_spec [] j x = x
run_spec (c ∷ calls) j x = run_spec calls j (step_spec c j x)

abbrev pub is_some : Option User → Bool
is_some none = false
is_some (some u) = true

-- A cached copy, beside what the collection holds: it is there, and flagged exactly if the copy is.
abbrev pub agrees : User → Option User → Bool
agrees v none = false
agrees v (some d) = if is_flagged v then is_flagged d else not (is_flagged d)

pub unflagged : (d : User) → is_flagged d ≡ false → d ≡ reachable
unflagged d h =
    let b : d.blocked ≡ false = ground arith in
    let c : d.deleted ≡ false = ground arith in λ i. record { blocked = b i; deleted = c i }

agrees-flagged :
    (flag : Flag) (v d : User)
    → agrees (with_flag flag true v) (some (with_flag flag true d)) ≡ true
agrees-flagged blocked_flag v d = ground arith
agrees-flagged deleted_flag v d = ground arith

agrees_self : (d : User) → agrees d (some d) ≡ true
agrees_self d = ground arith

module _ (C : Collection ℤ User) where
  open C use {find_one}

  unfoldable pub step : Call → Table C → Table C
  step (adds now fault uid) s = (add_user C now fault uid s).0
  step (marks_blocked now fault uid) s = (mark_user_blocked C now fault uid s).0
  step (marks_deleted now fault uid) s = (mark_user_deleted C now fault uid s).0
  step (looks now fault uid) s = (is_user_exist C now fault uid s).0
  step (removes fault uid) s = (remove_user C fault uid s).0

  unfoldable pub run : List Call → Table C → Table C
  run [] s = s
  run (c ∷ calls) s = run calls (step c s)

  -- Every cached copy agrees with the collection on whether its user is there and is flagged.
  abbrev pub IsFaithful : Table C → Type 0
  IsFaithful s =
      (k : ℤ) (v : User)
      → held (format_int k) s.cache ≡ some v
      → agrees v (find_one k s.store) ≡ true

  -- The table after a Get.
  abbrev pub looked : ℕ → ℤ → Table C → Table C
  looked now uid s = record s { cache = (Ttl.get now now (format_int uid) s.cache).0 }

  looked-IsFaithful :
      (now : ℕ) (uid : ℤ) (s : Table C) → IsFaithful s → IsFaithful (looked now uid s)
  looked-IsFaithful now uid s h k v g =
      h k v (held-get now (format_int uid) (format_int k) s.cache v g)

  add_missing-IsFaithful :
      (now : ℕ) (fault : Option Text) (uid : ℤ) (s : Table C)
      → IsFaithful s
      → IsFaithful (add_missing C now fault uid s).0
  unfolding add_missing
  add_missing-IsFaithful now (some e) uid s h k v g = h k v g
  add_missing-IsFaithful now none uid s h k v g = ground (
    arith,
    h k v,
    held-set now (format_int uid) (format_int k) reachable s.cache,
    key-== C format_int format_int-injective uid k,
    C.find_one-upsert uid k (λ u. reachable) reachable s.store,
  )

  add_user-IsFaithful :
      (now : ℕ) (fault : Option Text) (uid : ℤ) (s : Table C)
      → IsFaithful s
      → IsFaithful (add_user C now fault uid s).0
  unfolding add_user
  add_user-IsFaithful now fault uid s h k v g =
      let h' : IsFaithful (looked now uid s) = looked-IsFaithful now uid s h in
      ground (arith, h' k v, add_missing-IsFaithful now fault uid (looked now uid s) h' k v)

  set_user_flag-IsFaithful :
      (now : ℕ) (fault : Option Text) (uid : ℤ) (flag : Flag) (s : Table C)
      → IsFaithful s
      → IsFaithful (set_user_flag C now fault uid flag true s).0
  unfolding set_user_flag
  set_user_flag-IsFaithful now (some e) uid flag s h k v g = h k v g
  set_user_flag-IsFaithful now none uid flag s h k v g =
      let t = looked now uid s in
      let old = Option.get_or (Ttl.get now now (format_int uid) s.cache).1 reachable in
      ground (
        arith,
        looked-IsFaithful now uid s h k v,
        held-set now (format_int uid) (format_int k) (with_flag flag true old) t.cache,
        key-== C format_int format_int-injective uid k,
        C.find_one-upsert uid k (with_flag flag true) reachable s.store,
        agrees-flagged flag old (Option.get_or (find_one k s.store) reachable),
      )

  remove_user-IsFaithful :
      (fault : Option Text) (uid : ℤ) (s : Table C)
      → IsFaithful s
      → IsFaithful (remove_user C fault uid s).0
  unfolding remove_user remove_drop
  remove_user-IsFaithful (some e) uid s h k v g = h k v g
  remove_user-IsFaithful none uid s h k v g = ground (
    arith,
    h k v,
    held-delete (format_int uid) (format_int k) s.cache,
    key-== C format_int format_int-injective uid k,
    C.find_one-remove uid k s.store,
  )

  fill-IsFaithful :
      (now : ℕ) (fault : Option Text) (uid : ℤ) (s : Table C)
      → IsFaithful s
      → IsFaithful (fill C format_int now fault uid s).0
  unfolding fill
  fill-IsFaithful now (some e) uid s h k v g = h k v g
  fill-IsFaithful now none uid s h k v g = elim (Option-cases (find_one uid s.store)) [
    | inl f ↦ ground (arith, h k v)
    | inr (d, f) ↦ ground (
      arith,
      h k v,
      held-set now (format_int uid) (format_int k) d s.cache,
      key-== C format_int format_int-injective uid k,
      int_beq_iff uid k,
      agrees_self d,
    )
  ]

  is_user_exist-IsFaithful :
      (now : ℕ) (fault : Option Text) (uid : ℤ) (s : Table C)
      → IsFaithful s
      → IsFaithful (is_user_exist C now fault uid s).0
  unfolding is_user_exist read
  is_user_exist-IsFaithful now fault uid s h k v g =
      let h' : IsFaithful (looked now uid s) = looked-IsFaithful now uid s h in
      ground (arith, h' k v, fill-IsFaithful now fault uid (looked now uid s) h' k v)

  pub step-IsFaithful : (c : Call) (s : Table C) → IsFaithful s → IsFaithful (step c s)
  unfolding step mark_user_blocked mark_user_deleted
  step-IsFaithful (adds now fault uid) s h = add_user-IsFaithful now fault uid s h
  step-IsFaithful (marks_blocked now fault uid) s h =
      set_user_flag-IsFaithful now fault uid blocked_flag s h
  step-IsFaithful (marks_deleted now fault uid) s h =
      set_user_flag-IsFaithful now fault uid deleted_flag s h
  step-IsFaithful (looks now fault uid) s h = is_user_exist-IsFaithful now fault uid s h
  step-IsFaithful (removes fault uid) s h = remove_user-IsFaithful fault uid s h

  pub run-IsFaithful : (calls : List Call) (s : Table C) → IsFaithful s → IsFaithful (run calls s)
  unfolding run
  run-IsFaithful [] s h = h
  run-IsFaithful (c ∷ calls) s h = run-IsFaithful calls (step c s) (step-IsFaithful c s h)
