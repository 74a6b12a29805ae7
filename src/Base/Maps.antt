-- ===== src/Base/Maps.antt =====
-- A Go map as an association list. The order of the entries is not observed by the code.
use Prim.Native.Nat.{◌≤◌}
use mathlib.Core.Path.{◌≡◌, refl}
use mathlib.Core.List.{List, [], ◌∷◌}
use mathlib.Core.Option.{Option, none, some}
use native.Mathlib.Omega.{arith}
use tg.Base.Tests.{Comparable, ◌==◌, if◌then◌else◌, ==_refl}
use tg.Base.Lists.{length}

module _ {ℓ κ} {K : Type ℓ} {V : Type κ} ⦃e : Comparable K⦄ where
  -- `value, ok := table[key]`
  unfoldable pub lookup : K → List (K × V) → Option V
  lookup key [] = none
  lookup key ((other, value) ∷ table) = if other == key then some value else lookup key table

  -- `delete(table, key)`
  unfoldable pub delete : K → List (K × V) → List (K × V)
  delete key [] = []
  delete key ((other, value) ∷ table) =
      let rest = delete key table in if other == key then rest else (other, value) ∷ rest

  -- `table[key] = value`
  unfoldable pub insert : K → V → List (K × V) → List (K × V)
  insert key value [] = (key, value) ∷ []
  insert key value ((other, old) ∷ table) =
      let rest = insert key value table in
      if other == key then (key, value) ∷ table else (other, old) ∷ rest

  -- No key stands twice, which a Go map guarantees.
  abbrev pub HasUniqueKeys : List (K × V) → Type κ
  HasUniqueKeys [] = Unit
  HasUniqueKeys ((k, v) ∷ m) = (lookup k m ≡ none) × HasUniqueKeys m

  -- A map that was written at `key` reads the new value there, and as before elsewhere.
  pub lookup-insert :
      (key other : K) (value : V) (table : List (K × V))
      → lookup other (insert key value table)
        ≡ (if key == other then some value else lookup other table)
  unfolding lookup insert
  lookup-insert key other value [] = refl
  lookup-insert key other value ((i, w) ∷ table) = ground (
    arith,
    lookup-insert key other value table,
    e.equal_iff i other,
    e.equal_iff i key,
    e.equal_iff key other,
  )

  pub lookup-delete :
      (k j : K) (m : List (K × V)) → lookup j (delete k m) ≡ (if k == j then none else lookup j m)
  unfolding lookup delete
  lookup-delete k j [] = ground arith
  lookup-delete k j ((i, w) ∷ m) =
      ground (arith, e.equal_iff k j, e.equal_iff i k, e.equal_iff i j, lookup-delete k j m)

  pub lookup-insert_self : (k : K) (v : V) (m : List (K × V)) → lookup k (insert k v m) ≡ some v
  lookup-insert_self k v m = simp (lookup-insert, ==_refl)

  pub insert-HasUniqueKeys :
      (k : K) (v : V) (m : List (K × V)) → HasUniqueKeys m → HasUniqueKeys (insert k v m)
  unfolding insert lookup
  insert-HasUniqueKeys k v [] u = (refl, tt)
  insert-HasUniqueKeys k v ((i, w) ∷ m) u = ground (
    arith,
    e.equal_iff k i,
    e.equal_iff i k,
    lookup-insert k i v m,
    insert-HasUniqueKeys k v m u.1,
  )

  pub delete-HasUniqueKeys :
      (k : K) (m : List (K × V)) → HasUniqueKeys m → HasUniqueKeys (delete k m)
  unfolding delete
  delete-HasUniqueKeys k [] u = tt
  delete-HasUniqueKeys k ((i, w) ∷ m) u =
      ground (arith, lookup-delete k i m, delete-HasUniqueKeys k m u.1)

  pub length-delete-le : (k : K) (m : List (K × V)) → length (delete k m) ≤ length m
  unfolding delete
  length-delete-le k [] = omega arith
  length-delete-le k ((i, w) ∷ m) = ground (arith, length-delete-le k m)
