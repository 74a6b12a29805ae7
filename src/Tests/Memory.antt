-- ===== src/Tests/Memory.antt =====
-- A collection in memory, as an association list: it meets what is assumed of MongoDB.
use tg.Base.{
  List, [], none, some, ◌≡◌, refl, ◌==◌, Comparable, if◌then◌else◌, lookup, insert, delete, inl,
  inr, lookup-insert, lookup-delete, arith, Option-cases, text_eq, int_eq,
}
use mathlib.Core.Option
use tg.Db.Collection.{Collection}

module _ {K D : Type 0} ⦃e : Comparable K⦄ where
  unfoldable pub update_entry : K → (D → D) → List (K × D) → List (K × D)
  update_entry k f s = elim (lookup k s) [ none ↦ s | some d ↦ insert k (f d) s ]

  pub upsert_law :
      (k j : K) (f : D → D) (new : D) (s : List (K × D))
      → lookup j (insert k (f (Option.get_or (lookup k s) new)) s)
        ≡ (if k == j then some (f (Option.get_or (lookup j s) new)) else lookup j s)
  upsert_law k j f new s =
      ground (arith, lookup-insert k j (f (Option.get_or (lookup k s) new)) s, e.equal_iff k j)

  pub update_law :
      (k j : K) (f : D → D) (s : List (K × D))
      → lookup j (update_entry k f s) ≡ (if k == j then Option.map f (lookup j s) else lookup j s)
  unfolding update_entry
  update_law k j f s = elim (Option-cases (lookup k s)) [
    | inl h ↦ ground (arith, e.equal_iff k j)
    | inr (d, h) ↦ ground (arith, lookup-insert k j (f d) s, e.equal_iff k j)
  ]

  pub empty_law : (j : K) → lookup {V = D} j [] ≡ none
  unfolding lookup
  empty_law j = refl

  abbrev pub in_memory : Collection K D
  in_memory = record {
    Store = List (K × D);
    find_one = lookup;
    upsert = λ k f new s. insert k (f (Option.get_or (lookup k s) new)) s;
    update = update_entry;
    remove = delete;
    remove_all = λ s. [];
    find_one-upsert = upsert_law;
    find_one-update = update_law;
    find_one-remove = lookup-delete;
    find_one-remove_all = λ j s. empty_law j;
  }
