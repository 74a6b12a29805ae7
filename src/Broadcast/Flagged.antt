-- ===== src/Broadcast/Flagged.antt =====
-- internal/db/broadcast.go: which documents a bulk update reaches, and what the cache holds then.
use tg.Base.{
  Bool, true, ℕ, zero, suc, ◌≤◌, ◌≡◌, refl, sym, ap, ◌∙◌, ◌⊎◌, inl, inr, List, [], ◌∷◌, ◌++◌,
  Option, none, some, Text, Comparable, take, drop, length, contains, contains-append, arith,
  if◌then◌else◌, Option-cases, Bool-cases, keep_if, false,
}
use mathlib.Core.Option
use tg.Ttl
use tg.Ttl.Held.{held}
use tg.Db.Collection.{Collection}
use tg.Db.Cached.{Table, IsCoherent, IsInjective, update_drop, update_drop-IsCoherent}
use tg.Broadcast.Bulk.{bulk_mark_chunk, Failure, update_many, evict_all, bulk_from, bulk_set_flag}

take-drop {ℓ} : {A : Type ℓ} (n : ℕ) (xs : List A) → xs ≡ take n xs ++ drop n xs
take-drop zero xs = refl
take-drop (suc n) [] = refl
take-drop (suc n) (x ∷ xs) = ap (◌∷◌ x) (take-drop n xs)

length-drop {ℓ} : {A : Type ℓ} (n : ℕ) (xs : List A) → length (drop n xs) ≤ length xs
length-drop zero xs = omega arith
length-drop (suc n) [] = omega arith
length-drop (suc n) (x ∷ xs) = omega (arith, length-drop n xs)

length-take {ℓ} : {A : Type ℓ} (n : ℕ) (xs : List A) → length (take n xs) ≤ n
length-take zero xs = omega arith
length-take (suc n) [] = omega arith
length-take (suc n) (x ∷ xs) = omega (arith, length-take n xs)

contains-keep_if {ℓ} :
    {A : Type ℓ} ⦃e : Comparable A⦄ (p : A → Bool) (xs : List A) (a : A)
    → contains xs a ≡ false
    → contains (keep_if p xs) a ≡ false
contains-keep_if p [] a h = refl
contains-keep_if p (x ∷ xs) a h = ground (arith, contains-keep_if p xs a)

append_assoc {ℓ} : {A : Type ℓ} (xs ys zs : List A) → xs ++ (ys ++ zs) ≡ (xs ++ ys) ++ zs
append_assoc [] ys zs = refl
append_assoc (x ∷ xs) ys zs = ap (◌∷◌ x) (append_assoc xs ys zs)

module _ {K D : Type 0} ⦃e : Comparable K⦄ (C : Collection K D) (key : K → Text) (f : D → D)
    (idem : (d : D) → f (f d) ≡ f d) where
  open C use {find_one}

  -- What becomes of the document of j where these ids are reached.
  abbrev pub marked : List K → K → Option D → Option D
  marked ids j o = if contains ids j then Option.map f o else o

  map_idem : (o : Option D) → Option.map f (Option.map f o) ≡ Option.map f o
  map_idem none = refl
  map_idem (some d) = ap some (idem d)

  update_many-marked :
      (ids : List K) (j : K) (s : C.Store)
      → find_one j (update_many C key f ids s) ≡ marked ids j (find_one j s)
  unfolding update_many
  update_many-marked [] j s = refl
  update_many-marked (k ∷ ids) j s = ground (
    arith,
    update_many-marked ids j (C.update k f s),
    C.find_one-update k j f s,
    map_idem (find_one j s),
  )

  marked-append :
      (xs ys : List K) (j : K) (o : Option D) → marked (xs ++ ys) j o ≡ marked ys j (marked xs j o)
  marked-append xs ys j o = ground (arith, contains-append xs ys j, map_idem o)

  abbrev reached : List K → Table C → Table C
  reached ids s = record s {
    store = update_many C key f ids s.store;
    cache = evict_all C key f ids s.cache;
  }

  reached-IsCoherent :
      (ids : List K) (s : Table C)
      → IsInjective C key
      → IsCoherent C key s
      → IsCoherent C key (reached ids s)
  unfolding update_many evict_all Ttl.delete update_drop
  reached-IsCoherent [] s inj h = h
  reached-IsCoherent (k ∷ ids) s inj h =
      reached-IsCoherent ids (update_drop C key none k f s).0 inj
        (update_drop-IsCoherent C key none k f s inj h)

  marked-reached :
      (chunk xs : List K) (j : K) (s : Table C)
      → marked xs j (find_one j (reached chunk s).store)
        ≡ marked (chunk ++ xs) j (find_one j s.store)
  marked-reached chunk xs j s =
      ap (marked xs j) (update_many-marked chunk j s.store)
      ∙ sym (marked-append chunk xs j (find_one j s.store))

  -- All ids were reached, and no cached copy is stale.
  abbrev pub ReachesAll : List K → Table C → Table C × Option Text → Type 0
  ReachesAll ids s r =
      (r.1 ≡ none)
      × ((j : K) → find_one j r.0.store ≡ marked ids j (find_one j s.store))
      × IsCoherent C key r.0

  -- A round trip failed: the ids before its chunk were reached, and those of the chunk that it had
  -- updated by then. Only copies of the chunk's documents may be stale.
  abbrev pub BreaksOff :
      ℕ → (ℕ → Option (Failure K)) → List K → Table C → Table C × Option Text → Type 0
  BreaksOff size fault ids s r =
      (n : ℕ) × (x : Failure K) × (done : List K) × (chunk : List K) × (rest : List K) × (fault n
        ≡ some x)
      × (r.1 ≡ some x.error)
      × (ids ≡ done ++ (chunk ++ rest))
      × (length chunk ≤ size)
      × ((j : K)
          → find_one j r.0.store ≡ marked (done ++ keep_if x.updated chunk) j (find_one j s.store))
      × ((j : K) (v : D)
          → held (key j) r.0.cache ≡ some v
          → (find_one j r.0.store ≡ some v) ⊎ (contains chunk j ≡ true))

  abbrev pub Reaches :
      ℕ → (ℕ → Option (Failure K)) → List K → Table C → Table C × Option Text → Type 0
  Reaches size fault ids s r = ReachesAll ids s r ⊎ BreaksOff size fault ids s r

  reached-Reaches :
      (size : ℕ) (fault : ℕ → Option (Failure K)) (chunk later ids : List K) (s : Table C)
      (r : Table C × Option Text)
      → ids ≡ chunk ++ later
      → Reaches size fault later (reached chunk s) r
      → Reaches size fault ids s r
  reached-Reaches size fault chunk later ids s r p (inl (e, m, c)) = inl (
    e,
    λ j. m j ∙ marked-reached chunk later j s ∙ ap (λ ks. marked ks j (find_one j s.store)) (sym p),
    c,
  )
  reached-Reaches size fault chunk later ids s r p
        (inr (n, x, done, broken, rest, f, e, q, l, m, c)) =
      inr (
        n,
        x,
        chunk ++ done,
        broken,
        rest,
        f,
        e,
        p ∙ ap (λ ks. chunk ++ ks) q ∙ append_assoc chunk done (broken ++ rest),
        l,
        λ j.
            m j
            ∙ marked-reached chunk (done ++ keep_if x.updated broken) j s
            ∙ ap (λ ks. marked ks j (find_one j s.store))
                (append_assoc chunk done (keep_if x.updated broken)),
        c,
      )

  -- The failing round trip.
  broken-BreaksOff :
      (size n : ℕ) (fault : ℕ → Option (Failure K)) (x : Failure K) (ids : List K) (s : Table C)
      → IsCoherent C key s
      → fault n ≡ some x
      → let part = keep_if x.updated (take size ids) in
        BreaksOff size fault ids s
          (record s { store = update_many C key f part s.store }, some x.error)
  broken-BreaksOff size n fault x ids s h e =
      let chunk = take size ids in
      let part = keep_if x.updated chunk in
      (
        n,
        x,
        [],
        chunk,
        drop size ids,
        e,
        refl,
        take-drop size ids,
        length-take size ids,
        λ j. update_many-marked part j s.store,
        λ j v g. elim (Bool-cases (contains chunk j)) [
          | inl b ↦ inr b
          | inr b ↦
              let out = contains-keep_if x.updated chunk j b in
              inl (update_many-marked part j s.store ∙ rw (out) (h j v g))
        ],
      )

  bulk_from-Reaches :
      (size fuel n : ℕ) (fault : ℕ → Option (Failure K)) (ids : List K) (s : Table C)
      → IsInjective C key
      → IsCoherent C key s
      → length ids ≤ fuel
      → Reaches (suc size) fault ids s (bulk_from C key f (suc size) fuel n fault ids s)
  unfolding bulk_from
  bulk_from-Reaches size fuel n fault [] s inj h l = inl (refl, λ j. refl, h)
  bulk_from-Reaches size zero n fault (id ∷ ids) s inj h l = absurd (omega arith)
  bulk_from-Reaches size (suc fuel) n fault (id ∷ ids) s inj h l = elim (Option-cases (fault n)) [
    | inl e ↦
        let chunk = take (suc size) (id ∷ ids) in
        let later = drop size ids in
        let r = bulk_from C key f (suc size) fuel (suc n) fault later (reached chunk s) in
        let all : (id ∷ ids) ≡ chunk ++ later = take-drop (suc size) (id ∷ ids) in
        rw (e, bulk_from)
          (reached-Reaches (suc size) fault chunk later (id ∷ ids) s r all (
            bulk_from-Reaches size fuel (suc n) fault later (reached chunk s) inj
              (reached-IsCoherent chunk s inj h) (omega (arith, length-drop size ids))))
    | inr (x, e) ↦
        let broken = broken-BreaksOff (suc size) n fault x (id ∷ ids) s h e in
        rw (e, bulk_from) (inr broken)
  ]

  -- Where the cache agrees with the collection, keys of different ids differ and the update made
  -- twice is the update made once: a bulk update that reports success has changed the documents
  -- of all its ids and no others, and leaves no stale copy in the cache. One that reports an
  -- error breaks off at a round trip that failed with it: all documents before its chunk of 5000
  -- at most are changed, and of the chunk those that the server had changed by then, and no
  -- others; only copies of documents of that chunk may be stale, since it is not evicted.
  pub bulk_set_flag-Reaches :
      (fault : ℕ → Option (Failure K)) (ids : List K) (s : Table C)
      → IsInjective C key
      → IsCoherent C key s
      → Reaches bulk_mark_chunk fault ids s (bulk_set_flag C key f fault ids s)
  unfolding bulk_set_flag
  bulk_set_flag-Reaches fault ids s inj h =
      bulk_from-Reaches 4999 (length ids) 0 fault ids s inj h (omega arith)
