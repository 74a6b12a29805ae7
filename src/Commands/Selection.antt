-- ===== src/Commands/Selection.antt =====
-- internal/bot/remove.go: the tracks that a command names, in the order of their removal.
use tg.Base.{
  ℕ, zero, suc, ◌<◌, ◌≤◌, ◌≡◌, refl, ◌∙◌, List, [], ◌∷◌, false, not, ◌&&◌, ◌||◌, ℤ, pos, negsuc,
  nat_beq, nat_eq, int_eq, ltb, leb, contains, Distinct, inl, inr, arith, Bool-cases,
}
use tg.Commands.Remove.{unique_tracks, insert_descending, sort_descending}

abbrev pub IsBelow : ℕ → List ℕ → Type 0
IsBelow n [] = Unit
IsBelow n (t ∷ ts) = (t < n) × IsBelow n ts

-- Each number is greater than all behind it.
abbrev pub IsDescending : List ℕ → Type 0
IsDescending [] = Unit
IsDescending (t ∷ ts) = IsBelow t ts × IsDescending ts

pub IsBelow-contains : (n : ℕ) (ts : List ℕ) → IsBelow n ts → contains ts n ≡ false
IsBelow-contains n [] h = refl
IsBelow-contains n (t ∷ ts) h = ground (arith, IsBelow-contains n ts h.1)

pub IsBelow-mono : (m n : ℕ) (ts : List ℕ) → m ≤ n → IsBelow m ts → IsBelow n ts
IsBelow-mono m n [] le h = tt
IsBelow-mono m n (t ∷ ts) le h = (omega arith, IsBelow-mono m n ts le h.1)

contains-insert_descending :
    (t x : ℕ) (us : List ℕ) → contains (insert_descending t us) x ≡ (nat_beq t x || contains us x)
unfolding insert_descending
contains-insert_descending t x [] = refl
contains-insert_descending t x (u ∷ us) = ground (arith, contains-insert_descending t x us)

pub contains-sort_descending :
    (ts : List ℕ) (x : ℕ) → contains (sort_descending ts) x ≡ contains ts x
unfolding sort_descending
contains-sort_descending [] x = refl
contains-sort_descending (t ∷ ts) x =
    ground
      (arith, contains-insert_descending t x (sort_descending ts), contains-sort_descending ts x)

insert_descending-IsBelow :
    (n t : ℕ) (us : List ℕ) → t < n → IsBelow n us → IsBelow n (insert_descending t us)
unfolding insert_descending
insert_descending-IsBelow n t [] h k = (h, tt)
insert_descending-IsBelow n t (u ∷ us) h k = ground (arith, insert_descending-IsBelow n t us h k.1)

insert_descending-IsDescending :
    (t : ℕ) (us : List ℕ)
    → contains us t ≡ false
    → IsDescending us
    → IsDescending (insert_descending t us)
unfolding insert_descending
insert_descending-IsDescending t [] h d = (tt, tt)
insert_descending-IsDescending t (u ∷ us) h d = elim (Bool-cases (ltb u t)) [
  | inl e ↦ rw (e) ((ground arith, IsBelow-mono u t us (ground arith) d.0), d)
  | inr e ↦ rw (e) (
    insert_descending-IsBelow u t us (ground arith) d.0,
    insert_descending-IsDescending t us (ground arith) d.1,
  )
]

pub sort_descending-IsDescending : (ts : List ℕ) → Distinct ts → IsDescending (sort_descending ts)
unfolding sort_descending
sort_descending-IsDescending [] d = tt
sort_descending-IsDescending (t ∷ ts) d =
    insert_descending-IsDescending t (sort_descending ts) (contains-sort_descending ts t ∙ d.0)
      (sort_descending-IsDescending ts d.1)

pub contains-unique_tracks :
    (size : ℕ) (seen : List ℕ) (named : List ℤ) (t : ℕ)
    → contains (unique_tracks size seen named) t
      ≡ (ltb 0 t && leb t size && not (contains seen t) && contains named (pos t))
unfolding unique_tracks
contains-unique_tracks size seen [] t = ground arith
contains-unique_tracks size seen (negsuc n ∷ named) t =
    ground (arith, contains-unique_tracks size seen named t)
contains-unique_tracks size seen (pos zero ∷ named) t =
    ground (arith, contains-unique_tracks size seen named t)
contains-unique_tracks size seen (pos (suc n) ∷ named) t = ground (
  arith,
  contains-unique_tracks size seen named t,
  contains-unique_tracks size (suc n ∷ seen) named t,
)

pub unique_tracks-Distinct :
    (size : ℕ) (seen : List ℕ) (named : List ℤ) → Distinct (unique_tracks size seen named)
unfolding unique_tracks
unique_tracks-Distinct size seen [] = tt
unique_tracks-Distinct size seen (negsuc n ∷ named) = unique_tracks-Distinct size seen named
unique_tracks-Distinct size seen (pos zero ∷ named) = unique_tracks-Distinct size seen named
unique_tracks-Distinct size seen (pos (suc n) ∷ named) = ground (
  arith,
  unique_tracks-Distinct size seen named,
  unique_tracks-Distinct size (suc n ∷ seen) named,
  contains-unique_tracks size (suc n ∷ seen) named (suc n),
)
