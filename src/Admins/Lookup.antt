-- ===== src/Admins/Lookup.antt =====
-- internal/cache/admins.go: searching and changing a list of administrators.
use tg.Base.{
  ℕ, suc, zero, ◌≡◌, refl, subst, inl, inr, [], ◌∷◌, ◌++◌, Option, none, some, true, false, ℤ,
  if◌then◌else◌, ◌==◌, int_eq, int_beq_iff, text_eq, take, drop, set, arith, contains, Distinct,
  Option-cases, ==_refl,
}
use tg.Admins.Defs.{
  ChatMember, Members, sender_id, member_id_of, is_administrator, has_id, ids_of, find_admin,
  index_of, updated,
}

-- No id stands at two places.
abbrev pub HasUniqueIds : Members → Type 0
HasUniqueIds admins = Distinct (ids_of admins)

has_id_unique : (uid j : ℤ) (m : Option ChatMember) → has_id uid m ≡ true → has_id j m ≡ (uid == j)
has_id_unique uid j m h = elim (Option-cases (member_id_of m)) [
  | inl e ↦ absurd (ground arith)
  | inr (id, e) ↦ ground (arith, int_beq_iff id uid, int_beq_iff id j)
]

find_admin-set :
    (uid j : ℤ) (m : ChatMember) (admins : Members) (i : ℕ)
    → has_id uid (some m) ≡ true
    → index_of uid admins ≡ some i
    → find_admin j (set admins i (some m)) ≡ (if uid == j then some m else find_admin j admins)
unfolding index_of find_admin
find_admin-set uid j m [] i s h = cc
find_admin-set uid j m (x ∷ xs) zero s h =
    ground (arith, has_id_unique uid j (some m), has_id_unique uid j x)
find_admin-set uid j m (x ∷ xs) (suc i) s h =
    ground (arith, has_id_unique uid j x, find_admin-set uid j m xs i s)

find_admin-absent :
    (uid : ℤ) (admins : Members)
    → contains (ids_of admins) uid ≡ false
    → find_admin uid admins ≡ none
unfolding ids_of find_admin
find_admin-absent uid [] h = refl
find_admin-absent uid (x ∷ xs) h = ground (arith, find_admin-absent uid xs)

ids_of-cons :
    (x : Option ChatMember) (xs : Members) (id : ℤ)
    → member_id_of x ≡ some id
    → ids_of (x ∷ xs) ≡ id ∷ ids_of xs
unfolding ids_of
ids_of-cons x xs id h = ground arith

ids_of-skip :
    (x : Option ChatMember) (xs : Members) → member_id_of x ≡ none → ids_of (x ∷ xs) ≡ ids_of xs
unfolding ids_of
ids_of-skip x xs h = ground arith

HasUniqueIds-tail : (x : Option ChatMember) (xs : Members) → HasUniqueIds (x ∷ xs) → HasUniqueIds xs
HasUniqueIds-tail x xs u = elim (Option-cases (member_id_of x)) [
  | inl e ↦ subst Distinct (ids_of-skip x xs e) u
  | inr (id, e) ↦
      let v : Distinct (id ∷ ids_of xs) = subst Distinct (ids_of-cons x xs id e) u in v.1
]

HasUniqueIds-head :
    (uid : ℤ) (x : Option ChatMember) (xs : Members)
    → HasUniqueIds (x ∷ xs)
    → has_id uid x ≡ true
    → contains (ids_of xs) uid ≡ false
HasUniqueIds-head uid x xs u h = elim (Option-cases (member_id_of x)) [
  | inl e ↦ absurd (ground arith)
  | inr (id, e) ↦
      let v : Distinct (id ∷ ids_of xs) = subst Distinct (ids_of-cons x xs id e) u in
      ground (arith, v.0, int_beq_iff id uid)
]

find_admin-cut :
    (uid j : ℤ) (admins : Members) (i : ℕ)
    → HasUniqueIds admins
    → index_of uid admins ≡ some i
    → find_admin j (take i admins ++ drop (suc i) admins)
      ≡ (if uid == j then none else find_admin j admins)
unfolding index_of find_admin ids_of
find_admin-cut uid j [] i u h = cc
find_admin-cut uid j (x ∷ xs) zero u h = ground (
  arith,
  has_id_unique uid j x,
  HasUniqueIds-head uid x xs u,
  find_admin-absent uid xs,
  int_beq_iff uid j,
)
find_admin-cut uid j (x ∷ xs) (suc i) u h = ground (
  arith,
  has_id_unique uid j x,
  find_admin-cut uid j xs i (HasUniqueIds-tail x xs u),
  int_beq_iff uid j,
)

find_admin-append :
    (uid j : ℤ) (m : ChatMember) (admins : Members)
    → has_id uid (some m) ≡ true
    → index_of uid admins ≡ none
    → find_admin j (admins ++ some m ∷ []) ≡ (if uid == j then some m else find_admin j admins)
unfolding index_of find_admin
find_admin-append uid j m [] s h = ground (arith, has_id_unique uid j (some m))
find_admin-append uid j m (x ∷ xs) s h =
    ground (arith, has_id_unique uid j x, find_admin-append uid j m xs s)

find_admin-missing :
    (uid : ℤ) (admins : Members) → index_of uid admins ≡ none → find_admin uid admins ≡ none
unfolding index_of find_admin
find_admin-missing uid [] h = refl
find_admin-missing uid (x ∷ xs) h = ground (arith, find_admin-missing uid xs)

abbrev pub or_same : Members → Option Members → Members
or_same admins none = admins
or_same admins (some new) = new

pub find_admin-updated :
    (uid j : ℤ) (m : ChatMember) (admins : Members)
    → sender_id m.member_id ≡ some uid
    → HasUniqueIds admins
    → find_admin j (or_same admins (updated uid m admins)) ≡ (
        if uid == j
        then (if is_administrator (some m) then some m else none)
        else find_admin j admins)
unfolding updated
find_admin-updated uid j m admins s u =
    let h : has_id uid (some m) ≡ true = ground (arith, ==_refl uid) in
    elim (Option-cases (index_of uid admins)) [
      | inl e ↦ ground (
        arith,
        find_admin-append uid j m admins h e,
        find_admin-missing uid admins e,
        int_beq_iff uid j,
      )
      | inr (i, e) ↦
          ground (arith, find_admin-set uid j m admins i h e, find_admin-cut uid j admins i u e)
    ]
