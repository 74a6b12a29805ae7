-- ===== src/Ttl/Eviction.antt =====
-- internal/cache/cache.go: evictExpired, alone and between the steps of other goroutines.
use tg.Base.{
  ℕ, ◌≤◌, ◌≡◌, refl, inl, inr, List, [], ◌∷◌, Option, none, some, true, Text, if◌then◌else◌, arith,
  lookup, contains, Option-cases, text_beq_iff, text_eq, length-delete-le, ◌∙◌,
}
use tg.Ttl.Defs.{
  Item, Cache, expired, drop_expired, get_rest, expired_keys, delete_expired, evict_expired, size,
}
use tg.Ttl.Reads.{fresh, peek, lookup-drop_expired, peek-drop_expired}

module _ {ℓ} {A : Type ℓ} where
  lookup-delete_expired :
      (now : ℕ) (keys : List Text) (j : Text) (c : Cache A)
      → lookup j (delete_expired now keys c).entries
        ≡ (if contains keys j then fresh now (lookup j c.entries) else lookup j c.entries)
  unfolding delete_expired
  lookup-delete_expired now [] j c = refl
  lookup-delete_expired now (key ∷ keys) j c = ground (
    arith,
    lookup-delete_expired now keys j (drop_expired now key c),
    lookup-drop_expired now key j c,
  )

  contains-expired_keys :
      (now : ℕ) (m : List (Text × Item A)) (j : Text) (item : Item A)
      → lookup j m ≡ some item
      → expired now item ≡ true
      → contains (expired_keys now m) j ≡ true
  unfolding expired_keys lookup
  contains-expired_keys now [] j item h e = cc
  contains-expired_keys now ((key, other) ∷ m) j item h e =
      ground (arith, contains-expired_keys now m j item, text_beq_iff key j)

  -- The pass of the janitor removes exactly the entries that have expired at its time.
  pub lookup-evict_expired :
      (now : ℕ) (j : Text) (c : Cache A)
      → lookup j (evict_expired now c).entries ≡ fresh now (lookup j c.entries)
  unfolding evict_expired
  lookup-evict_expired now j c =
      let step = lookup-delete_expired now (expired_keys now c.entries) j c in
      elim (Option-cases (lookup j c.entries)) [
        | inl missing ↦ ground arith
        | inr (item, found) ↦ ground (arith, contains-expired_keys now c.entries j item found)
      ]

  length-drop_expired-le :
      (now : ℕ) (key : Text) (c : Cache A) → size (drop_expired now key c) ≤ size c
  unfolding drop_expired size
  length-drop_expired-le now key c = ground (arith, length-delete-le key c.entries)

  pub size-delete_expired-le :
      (now : ℕ) (keys : List Text) (c : Cache A) → size (delete_expired now keys c) ≤ size c
  unfolding delete_expired
  size-delete_expired-le now [] c = omega arith
  size-delete_expired-le now (key ∷ keys) c = omega (
    arith,
    size-delete_expired-le now keys (drop_expired now key c),
    length-drop_expired-le now key c,
  )

  peek-delete_expired :
      (now later : ℕ) (keys : List Text) (j : Text) (c : Cache A)
      → now ≤ later
      → peek later j (delete_expired now keys c) ≡ peek later j c
  unfolding delete_expired
  peek-delete_expired now later [] j c h = refl
  peek-delete_expired now later (key ∷ keys) j c h =
      peek-delete_expired now later keys j (drop_expired now key c) h
      ∙ peek-drop_expired now later key j c h

  -- What the cache does of its own accord, up to a time: the ends of Gets and of janitor passes,
  -- each with whatever its first critical section saw, at whatever earlier state.
  pub data Background (later : ℕ) : Cache A → Cache A → Type ℓ where
    idle : {c : Cache A} → Background later c c
    ends_get :
        {c d : Cache A} (now now' : ℕ) (key : Text) (seen : Option (Item A))
        → now' ≤ later
        → Background later c d
        → Background later c (get_rest now now' key seen d).0
    ends_pass :
        {c d : Cache A} (now : ℕ) (keys : List Text)
        → now ≤ later
        → Background later c d
        → Background later c (delete_expired now keys d)

  peek-get_rest :
      (now now' later : ℕ) (key j : Text) (seen : Option (Item A)) (c : Cache A)
      → now' ≤ later
      → peek later j (get_rest now now' key seen c).0 ≡ peek later j c
  unfolding get_rest
  peek-get_rest now now' later key j none c h = refl
  peek-get_rest now now' later key j (some item) c h =
      ground (arith, peek-drop_expired now' later key j c h)

  -- However the ends of Gets and of janitor passes interleave, with whatever they had seen
  -- before, a Get at a time that none of them is past returns for every key what it would have
  -- returned.
  pub Background-peek :
      {later : ℕ} {c d : Cache A} (j : Text)
      → Background later c d
      → peek later j d ≡ peek later j c
  Background-peek j idle = refl
  Background-peek {later} j (ends_get {d = d} now now' key seen h b) =
      peek-get_rest now now' later key j seen d h ∙ Background-peek j b
  Background-peek {later} j (ends_pass {d = d} now keys h b) =
      peek-delete_expired now later keys j d h ∙ Background-peek j b
