-- ===== src/Db/Cached.antt =====
-- The pattern that the getters and setters of internal/db share: a read goes through the cache and
-- fills it, a write goes to the collection and then stores or drops the cached value.
use tg.Base.{
  ℕ, ◌≡◌, ◌∙◌, ap, sym, ◌⊎◌, inl, inr, Option, none, some, Text, ◌==◌, Comparable, text_eq,
  text_beq, text_beq_iff, arith, Result, ok, err, Option-cases, Bool-cases,
}
use tg.Ttl
use tg.Ttl.{Cache, get_rest}
use tg.Ttl.Held.{held, held-delete, held-set, held-get, get-held}
use tg.Db.Collection.{Collection}

-- A collection behind its cache.
pub record Table {K D : Type 0} ⦃e : Comparable K⦄ (C : Collection K D) : Type 0 where
  pub store : C.Store
  pub cache : Cache D

module _ {K D : Type 0} ⦃e : Comparable K⦄ (C : Collection K D) (key : K → Text) where
  open C use {find_one, upsert, update, remove, remove_all}

  -- The end of a getter, once the cache has missed; `fault` is the error of FindOne, if any.
  unfoldable pub fill : ℕ → Option Text → K → Table C → Table C × Result Text (Option D)
  fill now (some e) k s = (s, err e)
  fill now none k s = elim (find_one k s.store) [
    | none ↦ (s, ok none)
    | some d ↦ (record s { cache = Ttl.set now (key k) d s.cache }, ok (some d))
  ]

  unfoldable pub read : ℕ → Option Text → K → Table C → Table C × Result Text (Option D)
  unfolding fill
  read now fault k s =
      let (c, found) = Ttl.get now now (key k) s.cache in
      elim found [
        | some v ↦ (record s { cache = c }, ok (some v))
        | none ↦ fill now fault k (record s { cache = c })
      ]

  -- A setter that stores the new value in the cache.
  unfoldable pub write_set : ℕ → Option Text → K → D → Table C → Table C × Option Text
  write_set now (some e) k v s = (s, some e)
  write_set now none k v s = (
    record s { store = upsert k (λ _. v) v s.store; cache = Ttl.set now (key k) v s.cache },
    none,
  )

  -- Setters that drop the cached value: with and without upsert, and a deletion.
  unfoldable pub write_drop : Option Text → K → (D → D) → D → Table C → Table C × Option Text
  write_drop (some e) k f new s = (s, some e)
  write_drop none k f new s =
      (record s { store = upsert k f new s.store; cache = Ttl.delete (key k) s.cache }, none)

  unfoldable pub update_drop : Option Text → K → (D → D) → Table C → Table C × Option Text
  update_drop (some e) k f s = (s, some e)
  update_drop none k f s =
      (record s { store = update k f s.store; cache = Ttl.delete (key k) s.cache }, none)

  unfoldable pub remove_drop : Option Text → K → Table C → Table C × Option Text
  remove_drop (some e) k s = (s, some e)
  remove_drop none k s =
      (record s { store = remove k s.store; cache = Ttl.delete (key k) s.cache }, none)

  -- Every cached value, expired or not, is the one in the collection.
  abbrev pub IsCoherent : Table C → Type 0
  IsCoherent s = (k : K) (v : D) → held (key k) s.cache ≡ some v → find_one k s.store ≡ some v

  -- Two ids that print alike are the same.
  abbrev pub IsInjective : Type 0
  IsInjective = (a b : K) → key a ≡ key b → a ≡ b

  pub get-IsCoherent :
      (now : ℕ) (k : K) (s : Table C)
      → IsCoherent s
      → IsCoherent (record s { cache = (Ttl.get now now (key k) s.cache).0 })
  get-IsCoherent now k s h j v g = h j v (held-get now (key k) (key j) s.cache v g)

  pub key-== : IsInjective → (a b : K) → (key a == key b) ≡ (a == b)
  key-== inj a b = elim (Bool-cases (e.equal a b)) [
    | inl h ↦ (text_beq_iff (key a) (key b)).1 (ap key ((e.equal_iff a b).0 h)) ∙ sym h
    | inr h ↦ elim (Bool-cases (text_beq (key a) (key b))) [
      | inl g ↦
          absurd
            (ground (arith, (e.equal_iff a b).1 (inj a b ((text_beq_iff (key a) (key b)).0 g))))
      | inr g ↦ g ∙ sym h
    ]
  ]

  fill-IsCoherent :
      (now : ℕ) (fault : Option Text) (k : K) (s : Table C)
      → IsInjective
      → IsCoherent s
      → IsCoherent (fill now fault k s).0
  unfolding fill
  fill-IsCoherent now (some x) k s inj h j v g = h j v g
  fill-IsCoherent now none k s inj h j v g = elim (Option-cases (find_one k s.store)) [
    | inl f ↦ ground (arith, h j v)
    | inr (d, f) ↦
        ground
          (arith, h j v, held-set now (key k) (key j) d s.cache, key-== inj k j, e.equal_iff k j)
  ]

  pub read-IsCoherent :
      (now : ℕ) (fault : Option Text) (k : K) (s : Table C)
      → IsInjective
      → IsCoherent s
      → IsCoherent (read now fault k s).0
  unfolding read
  read-IsCoherent now fault k s inj h j v g =
      let s' : Table C = record s { cache = (Ttl.get now now (key k) s.cache).0 } in
      let h' : IsCoherent s' = get-IsCoherent now k s h in
      ground (arith, h' j v, fill-IsCoherent now fault k s' inj h' j v)

  -- A read answers what the collection holds, from the cache or not, or reports the error.
  pub read-find_one :
      (now : ℕ) (fault : Option Text) (k : K) (s : Table C)
      → IsCoherent s
      → (((read now fault k s).1 ≡ ok (find_one k s.store))
          ⊎ ((x : Text) × (fault ≡ some x) × ((read now fault k s).1 ≡ err x)))
        × ((read now fault k s).0.store ≡ s.store)
  unfolding read fill
  read-find_one now fault k s h = elim (Option-cases (Ttl.get now now (key k) s.cache).1) [
    | inr (v, f) ↦
        let g : find_one k s.store ≡ some v = h k v (get-held now (key k) s.cache v f) in
        (inl (ground arith), ground arith)
    | inl f ↦ elim (Option-cases fault) [
      | inl g ↦ (inl (ground arith), ground arith)
      | inr (x, g) ↦ (inr (x, g, ground arith), ground arith)
    ]
  ]

  pub write_set-IsCoherent :
      (now : ℕ) (fault : Option Text) (k : K) (v : D) (s : Table C)
      → IsInjective
      → IsCoherent s
      → IsCoherent (write_set now fault k v s).0
  unfolding write_set
  write_set-IsCoherent now (some x) k v s inj h j w g = h j w g
  write_set-IsCoherent now none k v s inj h j w g = ground (
    arith,
    h j w,
    held-set now (key k) (key j) v s.cache,
    key-== inj k j,
    C.find_one-upsert k j (λ _. v) v s.store,
  )

  pub write_drop-IsCoherent :
      (fault : Option Text) (k : K) (f : D → D) (new : D) (s : Table C)
      → IsInjective
      → IsCoherent s
      → IsCoherent (write_drop fault k f new s).0
  unfolding write_drop
  write_drop-IsCoherent (some x) k f new s inj h j w g = h j w g
  write_drop-IsCoherent none k f new s inj h j w g = ground (
    arith,
    h j w,
    held-delete (key k) (key j) s.cache,
    key-== inj k j,
    C.find_one-upsert k j f new s.store,
  )

  pub update_drop-IsCoherent :
      (fault : Option Text) (k : K) (f : D → D) (s : Table C)
      → IsInjective
      → IsCoherent s
      → IsCoherent (update_drop fault k f s).0
  unfolding update_drop
  update_drop-IsCoherent (some x) k f s inj h j w g = h j w g
  update_drop-IsCoherent none k f s inj h j w g = ground (
    arith,
    h j w,
    held-delete (key k) (key j) s.cache,
    key-== inj k j,
    C.find_one-update k j f s.store,
  )

  pub remove_drop-IsCoherent :
      (fault : Option Text) (k : K) (s : Table C)
      → IsInjective
      → IsCoherent s
      → IsCoherent (remove_drop fault k s).0
  unfolding remove_drop
  remove_drop-IsCoherent (some x) k s inj h j w g = h j w g
  remove_drop-IsCoherent none k s inj h j w g = ground (
    arith,
    h j w,
    held-delete (key k) (key j) s.cache,
    key-== inj k j,
    C.find_one-remove k j s.store,
  )
