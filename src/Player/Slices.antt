-- ===== src/Player/Slices.antt =====
-- What the in-place copies of internal/cache/player_cache.go come to, as lists.
use tg.Base.{
  ℕ, zero, suc, ◌+◌, ◌-◌, ◌≤◌, ◌<◌, ◌≡◌, refl, ap, List, [], ◌∷◌, ◌++◌, Option, none, some, true,
  Text, arith, length, get_elem?, set, take, drop, erase_at, if◌then◌else◌,
}
use mathlib.Core.Option
use native.Mathlib.Numerals.{add-one}
use tg.Player.State.{Memory, Pointer, has_track_id}
use tg.Player.Updates.{copy_to, put_in_front, index_from, shift_to_front, cut_out}

-- The entries of a slice move up by one when it is copied onto itself one place on.
copy_to-shift {ℓ} :
    {A : Type ℓ} (y last : A) (ys : List A)
    → copy_to (ys ++ last ∷ []) 0 (y ∷ ys ++ last ∷ []) ≡ y ∷ ys
unfolding copy_to
copy_to-shift y last [] = refl
copy_to-shift y last (z ∷ zs) = ap (◌∷◌ y) (copy_to-shift z last zs)

-- AddSongToFront puts the track behind the current one.
pub put_in_front_lem :
    (song x : Pointer) (xs : List Pointer) → put_in_front song (x ∷ xs) ≡ x ∷ song ∷ xs
unfolding put_in_front copy_to
put_in_front_lem song x [] = refl
put_in_front_lem song x (y ∷ ys) = rw (copy_to-shift y none ys) refl

copy_to-take {ℓ} :
    {A : Type ℓ} (i : ℕ) (y : A) (ys : List A)
    → i ≤ length ys
    → copy_to ys 0 (take i (y ∷ ys)) ≡ erase_at i (y ∷ ys)
unfolding copy_to
copy_to-take zero y [] h = refl
copy_to-take zero y (z ∷ zs) h = refl
copy_to-take (suc i) y [] h = absurd (omega arith)
copy_to-take (suc i) y (z ∷ zs) h = ap (◌∷◌ y) (copy_to-take i z zs (omega arith))

get_elem?-lt {ℓ} :
    {A : Type ℓ} (xs : List A) (i : ℕ) {a : A} → get_elem? xs i ≡ some a → i < length xs
get_elem?-lt [] i h = cc
get_elem?-lt (x ∷ xs) zero h = omega arith
get_elem?-lt (x ∷ xs) (suc i) h = omega (arith, get_elem?-lt xs i h)

suc-sub-one : (i : ℕ) → suc i - 1 ≡ i
suc-sub-one i = omega arith

-- MoveTrackToFront takes the track out of its place and puts it behind the current one.
pub shift_to_front_lem :
    (i : ℕ) (x track : Pointer) (xs : List Pointer)
    → get_elem? xs i ≡ some track
    → shift_to_front (suc i) (x ∷ xs) ≡ x ∷ track ∷ erase_at i xs
unfolding shift_to_front copy_to
shift_to_front_lem i x track [] h = cc
shift_to_front_lem i x track (y ∷ ys) h =
    rw (h, shift_to_front)
      (rw (suc-sub-one i) (
        ap (λ (l : List Pointer). x ∷ track ∷ l)
          (copy_to-take i y ys (omega (arith, get_elem?-lt (y ∷ ys) i h)))))

copy_to-drop {ℓ} :
    {A : Type ℓ} (i : ℕ) (x nil : A) (xs : List A)
    → i ≤ length xs
    → take (length xs) (set (copy_to (x ∷ xs) i (drop i xs)) (length xs) nil) ≡ erase_at i (x ∷ xs)
unfolding copy_to
copy_to-drop zero x nil [] h = refl
copy_to-drop zero x nil (y ∷ ys) h = ap (◌∷◌ y) (copy_to-drop zero y nil ys (omega arith))
copy_to-drop (suc i) x nil [] h = absurd (omega arith)
copy_to-drop (suc i) x nil (y ∷ ys) h = ap (◌∷◌ x) (copy_to-drop i y nil ys (omega arith))

-- RemoveTrack takes the track at the index out, and keeps the others in order.
pub cut_out_lem :
    (i : ℕ) (queue : List Pointer) → i < length queue → cut_out i queue ≡ erase_at i queue
unfolding cut_out
cut_out_lem i [] h = absurd (omega arith)
cut_out_lem i (x ∷ xs) h =
    rw (suc-sub-one (length xs)) (rw (add-one i) (copy_to-drop i x none xs (omega arith)))

-- The reference for the search: the index of the first track with the id.
abbrev pub position : Memory → Text → List Pointer → Option ℕ
position mem id [] = none
position mem id (p ∷ ps) =
    if has_track_id mem id p then some 0 else Option.map suc (position mem id ps)

pub index_from-position :
    (mem : Memory) (id : Text) (i : ℕ) (ps : List Pointer)
    → index_from mem id i ps ≡ Option.map (λ j. j + i) (position mem id ps)
unfolding index_from
index_from-position mem id i [] = refl
index_from-position mem id i (p ∷ ps) = ground (arith, index_from-position mem id (i + 1) ps)

pub get_elem?-position :
    (mem : Memory) (id : Text) (ps : List Pointer) (i : ℕ)
    → position mem id ps ≡ some i
    → (track : Pointer) × (get_elem? ps i ≡ some track) × (has_track_id mem id track ≡ true)
get_elem?-position mem id [] i h = cc
get_elem?-position mem id (p ∷ ps) zero h = (p, refl, ground arith)
get_elem?-position mem id (p ∷ ps) (suc i) h = get_elem?-position mem id ps i (ground arith)

pub erase_at_beyond {ℓ} : {A : Type ℓ} (i : ℕ) (xs : List A) → length xs ≤ i → erase_at i xs ≡ xs
erase_at_beyond i [] h = refl
erase_at_beyond zero (x ∷ xs) h = absurd (omega arith)
erase_at_beyond (suc i) (x ∷ xs) h = ap (◌∷◌ x) (erase_at_beyond i xs (omega arith))
