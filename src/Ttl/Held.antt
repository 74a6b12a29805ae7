-- ===== src/Ttl/Held.antt =====
-- internal/cache/cache.go: what a cache holds, expired or not.
use tg.Base.{
  ℕ, ◌+◌, ◌≡◌, Option, none, some, Text, if◌then◌else◌, ◌==◌, text_eq, arith, lookup, lookup-insert,
  lookup-delete,
}
use mathlib.Core.Option
use tg.Ttl.Defs as Ttl
use tg.Ttl.Defs.{Cache, get_rest}
use tg.Ttl.Reads.{get-value, lookup-drop_expired}

-- The value of an entry, whether or not it has expired.
abbrev pub held {ℓ} : {A : Type ℓ} → Text → Cache A → Option A
held key c = Option.map (λ item. item.value) (lookup key c.entries)

module _ {A : Type 0} where
  pub held-delete :
      (key j : Text) (c : Cache A)
      → held j (Ttl.delete key c) ≡ (if key == j then none else held j c)
  unfolding Ttl.delete
  held-delete key j c = ground (arith, lookup-delete key j c.entries)

  pub held-set :
      (now : ℕ) (key j : Text) (v : A) (c : Cache A)
      → held j (Ttl.set now key v c) ≡ (if key == j then some v else held j c)
  unfolding Ttl.set Ttl.set_with_ttl
  held-set now key j v c =
      ground (arith, lookup-insert key j (record { value = v; expiration = now + c.ttl }) c.entries)

  held-get_rest :
      (now : ℕ) (key j : Text) (seen : Option (Ttl.Item A)) (c : Cache A) (v : A)
      → held j (get_rest now now key seen c).0 ≡ some v
      → held j c ≡ some v
  unfolding get_rest
  held-get_rest now key j none c v h = h
  held-get_rest now key j (some item) c v h = ground (arith, lookup-drop_expired now key j c)

  -- A Get can only lose entries.
  pub held-get :
      (now : ℕ) (key j : Text) (c : Cache A) (v : A)
      → held j (Ttl.get now now key c).0 ≡ some v
      → held j c ≡ some v
  unfolding Ttl.get
  held-get now key j c v h = held-get_rest now key j (lookup key c.entries) c v h

  -- What a Get returns was stored.
  pub get-held :
      (now : ℕ) (key : Text) (c : Cache A) (v : A)
      → (Ttl.get now now key c).1 ≡ some v
      → held key c ≡ some v
  get-held now key c v h = ground (arith, get-value now now key c)
