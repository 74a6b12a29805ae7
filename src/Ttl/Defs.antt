-- ===== src/Ttl/Defs.antt =====
-- internal/cache/cache.go: the TTL cache. Each stretch between a Lock and its Unlock is one
-- definition, and so one step where goroutines interleave. Times are numbers of nanoseconds, and
-- an operation takes what each of its calls of time.Now() returned. A TTL is not negative.
use tg.Base.{
  ℕ, ◌+◌, List, [], ◌∷◌, Option, none, some, Bool, Text, ltb, if◌then◌else◌, length, lookup, insert,
  text_eq,
}
use tg.Base

pub record Item {ℓ} (A : Type ℓ) : Type ℓ where
  pub value : A
  pub expiration : ℕ

-- The source's field `data` is `entries` here.
pub record Cache {ℓ} (A : Type ℓ) : Type ℓ where
  pub entries : List (Text × Item A)
  pub ttl : ℕ

module _ {ℓ} {A : Type ℓ} where
  -- `now.After(item.Expiration)`
  abbrev pub expired : ℕ → Item A → Bool
  expired now item = ltb item.expiration now

  unfoldable pub new_cache : ℕ → Cache A
  new_cache ttl = record { entries = []; ttl = ttl }

  -- The second critical section of Get: the entry is looked at again before it goes.
  unfoldable pub drop_expired : ℕ → Text → Cache A → Cache A
  drop_expired now key c = elim (lookup key c.entries) [
    | none ↦ c
    | some item ↦ if expired now item then record c { entries = Base.delete key c.entries } else c
  ]

  -- Get after its first critical section, which saw `seen`; `now` and `now'` are the two readings
  -- of the clock, and `c` is the cache at the second critical section.
  unfoldable pub get_rest : ℕ → ℕ → Text → Option (Item A) → Cache A → Cache A × Option A
  unfolding drop_expired
  get_rest now now' key none c = (c, none)
  get_rest now now' key (some item) c =
      if expired now item then (drop_expired now' key c, none) else (c, some item.value)

  -- Get with no other goroutine between its two critical sections.
  unfoldable pub get : ℕ → ℕ → Text → Cache A → Cache A × Option A
  unfolding get_rest
  get now now' key c = get_rest now now' key (lookup key c.entries) c

  unfoldable pub set_with_ttl : ℕ → Text → A → ℕ → Cache A → Cache A
  set_with_ttl now key value ttl c = record c {
    entries = insert key (record { value = value; expiration = now + ttl }) c.entries;
  }

  unfoldable pub set : ℕ → Text → A → Cache A → Cache A
  set now key value c = set_with_ttl now key value c.ttl c

  unfoldable pub delete : Text → Cache A → Cache A
  delete key c = record c { entries = Base.delete key c.entries }

  unfoldable pub clear : Cache A → Cache A
  clear c = record c { entries = [] }

  unfoldable pub size : Cache A → ℕ
  size c = length c.entries

  -- The first critical section of evictExpired.
  unfoldable pub expired_keys : ℕ → List (Text × Item A) → List Text
  expired_keys now [] = []
  expired_keys now ((key, item) ∷ m) =
      let rest = expired_keys now m in if expired now item then key ∷ rest else rest

  -- The second one.
  unfoldable pub delete_expired : ℕ → List Text → Cache A → Cache A
  unfolding drop_expired
  delete_expired now [] c = c
  delete_expired now (key ∷ keys) c = delete_expired now keys (drop_expired now key c)

  unfoldable pub evict_expired : ℕ → Cache A → Cache A
  unfolding expired_keys delete_expired
  evict_expired now c = delete_expired now (expired_keys now c.entries) c
