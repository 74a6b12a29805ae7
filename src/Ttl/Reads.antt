-- ===== src/Ttl/Reads.antt =====
-- What the operations of the TTL cache mean to those who read it.
use tg.Base.{
  ℕ, ◌+◌, ◌≤◌, ◌≡◌, refl, Option, none, some, false, Text, ltb, if◌then◌else◌, ◌==◌, arith, lookup,
  lookup-insert, lookup-delete, text_beq_iff, text_eq,
}
use tg.Ttl.Defs.{
  Item, Cache, expired, drop_expired, get_rest, get, set_with_ttl, set, delete, clear,
}

module _ {ℓ} {A : Type ℓ} where
  -- The abstract view: what a Get at a time returns.
  abbrev pub unexpired : ℕ → Option (Item A) → Option A
  unexpired now none = none
  unexpired now (some item) = if expired now item then none else some item.value

  abbrev pub peek : ℕ → Text → Cache A → Option A
  peek now key c = unexpired now (lookup key c.entries)

  -- An entry, unless it has expired.
  abbrev pub fresh : ℕ → Option (Item A) → Option (Item A)
  fresh now none = none
  fresh now (some item) = if expired now item then none else some item

  get_rest-value :
      (now now' : ℕ) (key : Text) (seen : Option (Item A)) (c : Cache A)
      → (get_rest now now' key seen c).1 ≡ unexpired now seen
  unfolding get_rest
  get_rest-value now now' key none c = refl
  get_rest-value now now' key (some item) c = ground arith

  pub get-value :
      (now now' : ℕ) (key : Text) (c : Cache A) → (get now now' key c).1 ≡ peek now key c
  unfolding get
  get-value now now' key c = get_rest-value now now' key (lookup key c.entries) c

  -- One lookup through the second critical section of Get.
  pub lookup-drop_expired :
      (now : ℕ) (key j : Text) (c : Cache A)
      → lookup j (drop_expired now key c).entries
        ≡ (if key == j then fresh now (lookup j c.entries) else lookup j c.entries)
  unfolding drop_expired
  lookup-drop_expired now key j c =
      ground (arith, lookup-delete key j c.entries, text_beq_iff key j)

  -- Dropping what has expired is invisible from then on.
  pub peek-drop_expired :
      (now later : ℕ) (key j : Text) (c : Cache A)
      → now ≤ later
      → peek later j (drop_expired now key c) ≡ peek later j c
  peek-drop_expired now later key j c h = rw (lookup-drop_expired now key j c) (ground arith)

  peek-get_rest :
      (now now' later : ℕ) (key j : Text) (seen : Option (Item A)) (c : Cache A)
      → now' ≤ later
      → peek later j (get_rest now now' key seen c).0 ≡ peek later j c
  unfolding get_rest
  peek-get_rest now now' later key j none c h = refl
  peek-get_rest now now' later key j (some item) c h =
      ground (arith, peek-drop_expired now' later key j c h)

  -- Get returns the value of an entry that is there and has not expired, and nothing otherwise;
  -- and no Get at the time of its second look or later, of any key, can tell that it ran.
  pub get-peek :
      (now now' later : ℕ) (key j : Text) (c : Cache A)
      → now' ≤ later
      → ((get now now' key c).1 ≡ peek now key c)
        × (peek later j (get now now' key c).0 ≡ peek later j c)
  unfolding get
  get-peek now now' later key j c h =
      (get-value now now' key c, peek-get_rest now now' later key j (lookup key c.entries) c h)

  ttl-get_rest :
      (now now' : ℕ) (key : Text) (seen : Option (Item A)) (c : Cache A)
      → (get_rest now now' key seen c).0.ttl ≡ c.ttl
  unfolding get_rest
  ttl-get_rest now now' key none c = refl
  ttl-get_rest now now' key (some item) c = ground arith

  pub ttl-get : (now now' : ℕ) (key : Text) (c : Cache A) → (get now now' key c).0.ttl ≡ c.ttl
  unfolding get
  ttl-get now now' key c = ttl-get_rest now now' key (lookup key c.entries) c

  -- A Get whose two critical sections are torn apart removes no entry that has not expired at its
  -- second look, whatever it saw and whatever the cache became in between.
  pub get_rest-keeps_unexpired :
      (now now' : ℕ) (key j : Text) (seen : Option (Item A)) (c : Cache A) (item : Item A)
      → lookup j c.entries ≡ some item
      → expired now' item ≡ false
      → lookup j (get_rest now now' key seen c).0.entries ≡ some item
  unfolding get_rest
  get_rest-keeps_unexpired now now' key j none c item found fresh = found
  get_rest-keeps_unexpired now now' key j (some old) c item found fresh =
      ground (arith, lookup-drop_expired now' key j c)

  -- A value that was stored is returned until its TTL has passed, and not after it; every other
  -- key reads as before.
  pub peek-set_with_ttl :
      (now later ttl : ℕ) (key j : Text) (value : A) (c : Cache A)
      → peek later j (set_with_ttl now key value ttl c) ≡ (
          if key == j then (if ltb (now + ttl) later then none else some value) else peek later j c)
  unfolding set_with_ttl
  peek-set_with_ttl now later ttl key j value c =
      rw (lookup-insert key j (record { value = value; expiration = now + ttl }) c.entries)
        (ground arith)

  pub peek-set :
      (now later : ℕ) (key j : Text) (value : A) (c : Cache A)
      → peek later j (set now key value c) ≡ (
          if key == j
          then (if ltb (now + c.ttl) later then none else some value)
          else peek later j c)
  unfolding set
  peek-set now later key j value c = peek-set_with_ttl now later c.ttl key j value c

  pub peek-delete :
      (later : ℕ) (key j : Text) (c : Cache A)
      → peek later j (delete key c) ≡ (if key == j then none else peek later j c)
  unfolding delete
  peek-delete later key j c = rw (lookup-delete key j c.entries) (ground arith)

  pub peek-clear : (later : ℕ) (j : Text) (c : Cache A) → peek later j (clear c) ≡ none
  unfolding clear lookup
  peek-clear later j c = refl
