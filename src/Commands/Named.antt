-- ===== src/Commands/Named.antt =====
-- internal/bot/remove.go: which songs /remove takes out, by the numbers and ranges that are written.
use tg.Base.{
  ℕ, zero, suc, ◌+◌, ◌-◌, ◌<◌, ◌≤◌, ◌≡◌, refl, ap, ◌∙◌, List, [], ◌∷◌, none, some, Bool, true,
  false, ◌&&◌, ◌||◌, ◌==◌, Text, ℤ, pos, negsuc, nat_eq, int_eq, ltb, leb, if◌then◌else◌, contains,
  contains-append, length, arith, Bool-cases, Option-cases, inl, inr,
}
use tg.Player.{ChatCacher, Pointer, data_of}
use tg.Commands.Numbers.{split, trim_space, atoi}
use tg.Commands.Remove.{
  int_lt, at_least_one, count_from, numbers_between, track_range, range_of, tracks_of_part,
  tracks_to_remove, remove_handler,
}
use tg.Commands.Removal.{without_named, remove_handler-without_named}

abbrev at_most : ℤ → ℤ → Bool
at_most (pos a) (pos b) = leb a b
at_most (pos a) (negsuc b) = false
at_most (negsuc a) (pos b) = true
at_most (negsuc a) (negsuc b) = leb b a

-- A number lies between the two ends of a range, whichever stands first.
abbrev is_between : ℕ → ℤ → ℤ → Bool
is_between t a b =
    (at_most a (pos t) && at_most (pos t) b) || (at_most b (pos t) && at_most (pos t) a)

-- A number lies in a range that is written as two ends, which must both be numbers.
abbrev is_in_range : ℕ → List Text → Bool
is_in_range t (start ∷ end ∷ []) = elim (atoi (trim_space start)) [
  | none ↦ false
  | some a ↦ elim (atoi (trim_space end)) [ none ↦ false | some b ↦ is_between t a b ]
]
is_in_range t [] = false
is_in_range t (part ∷ []) = false
is_in_range t (a ∷ b ∷ c ∷ parts) = false

abbrev is_written : ℕ → Text → Bool
is_written t part =
    if contains part b'-'
    then is_in_range t (split b'-' part)
    else elim (atoi part) [ none ↦ false | some n ↦ n == pos t ]

-- A part of the command, which commas divide, is this number or a range around it.
unfoldable pub is_named : ℕ → List Text → Bool
is_named t [] = false
is_named t (part ∷ parts) = is_written t (trim_space part) || is_named t parts

-- The queue without the songs, behind the first, whose number is named.
unfoldable pub remaining : {A : Type 0} → ℕ → List Text → List A → List A
remaining n parts [] = []
remaining n parts (x ∷ xs) =
    let rest = remaining (suc n) parts xs in if ltb 0 n && is_named n parts then rest else x ∷ rest

contains-count_from :
    (start n t : ℕ) → contains (count_from start n) (pos t) ≡ (leb start t && ltb t (start + n))
unfolding count_from
contains-count_from start zero t = ground arith
contains-count_from start (suc n) t = ground (arith, contains-count_from (suc start) n t)

contains-numbers_between :
    (size t : ℕ) (a b : ℤ)
    → 0 < t
    → t < size
    → contains (numbers_between size a b) (pos t) ≡ (at_most a (pos t) && at_most (pos t) b)
unfolding numbers_between
contains-numbers_between size t a (negsuc b) h k = ground arith
contains-numbers_between size t (pos a) (pos b) h k =
    let first = at_least_one (pos a) in
    let last = if leb size b then size else b in
    ground (arith, contains-count_from first (suc last - first) t)
contains-numbers_between size t (negsuc a) (pos b) h k =
    let last = if leb size b then size else b in
    ground (arith, contains-count_from 1 (suc last - 1) t)

-- What the swap of the two ends rests on.
ordered :
    (t : ℕ) (a b : ℤ)
    → (if int_lt b a
        then at_most b (pos t) && at_most (pos t) a
        else at_most a (pos t) && at_most (pos t) b)
      ≡ is_between t a b
ordered t (pos a) (pos b) = ground arith
ordered t (pos a) (negsuc b) = ground arith
ordered t (negsuc a) (pos b) = ground arith
ordered t (negsuc a) (negsuc b) = ground arith

contains-track_range :
    (size t : ℕ) (a b : ℤ)
    → 0 < t
    → t < size
    → contains (track_range size a b) (pos t) ≡ is_between t a b
unfolding track_range
contains-track_range size t a b h k = ground (
  arith,
  contains-numbers_between size t a b h k,
  contains-numbers_between size t b a h k,
  ordered t a b,
)

contains-range_of :
    (size t : ℕ) (ends : List Text)
    → 0 < t
    → t < size
    → contains (range_of size ends) (pos t) ≡ is_in_range t ends
unfolding range_of
contains-range_of size t [] h k = refl
contains-range_of size t (part ∷ []) h k = refl
contains-range_of size t (a ∷ b ∷ c ∷ parts) h k = refl
contains-range_of size t (start ∷ end ∷ []) h k = elim (Option-cases (atoi (trim_space start))) [
  | inl e ↦ rw (range_of, is_in_range, e) refl
  | inr (a, e) ↦ elim (Option-cases (atoi (trim_space end))) [
    | inl f ↦ rw (range_of, is_in_range, e, f) refl
    | inr (b, f) ↦ rw (range_of, is_in_range, e, f) (contains-track_range size t a b h k)
  ]
]

contains-tracks_of_part :
    (size t : ℕ) (part : Text)
    → 0 < t
    → t < size
    → contains (tracks_of_part size part) (pos t) ≡ is_written t part
unfolding tracks_of_part
contains-tracks_of_part size t part h k = elim (Bool-cases (contains part b'-')) [
  | inl e ↦ rw (e) (contains-range_of size t (split b'-' part) h k)
  | inr e ↦ elim (Option-cases (atoi part)) [
    | inl f ↦ rw (e, f) refl
    | inr (n, f) ↦ rw (e, f) (ground arith)
  ]
]

contains-tracks_to_remove :
    (size t : ℕ) (parts : List Text)
    → 0 < t
    → t < size
    → contains (tracks_to_remove size parts) (pos t) ≡ is_named t parts
unfolding tracks_to_remove is_named
contains-tracks_to_remove size t [] h k = refl
contains-tracks_to_remove size t (part ∷ parts) h k = ground (
  arith,
  contains-append (tracks_of_part size (trim_space part)) (tracks_to_remove size parts) (pos t),
  contains-tracks_of_part size t (trim_space part) h k,
  contains-tracks_to_remove size t parts h k,
)

without_named-remaining :
    {A : Type 0} (n size : ℕ) (parts : List Text) (xs : List A)
    → n + length xs ≤ size
    → without_named n (tracks_to_remove size parts) xs ≡ remaining n parts xs
unfolding without_named remaining
without_named-remaining n size parts [] h = refl
without_named-remaining n size parts (x ∷ xs) h = ground (
  arith,
  contains-tracks_to_remove size n parts,
  without_named-remaining (suc n) size parts xs (omega arith),
)

-- Whatever /remove is given, once adminMode lets it through: the songs are gone whose number one
-- of its parts, which commas divide, is or has in its range, where a range is two numbers with a
-- hyphen, whichever stands first, in whatever order and however often; where the current song has
-- number 0, which cannot be removed, and the song behind it number 1; all others are left, in
-- order, although every removal shifts the songs behind it; and nothing else of this chat
-- changes, nor anything of another.
pub remove_handler_lem :
    (chat j : ℤ) (args : Text) (c : ChatCacher)
    → data_of j (remove_handler true chat args c).0 ≡ (
        if chat == j
        then record (data_of j c) { queue = remaining 0 (split b',' args) (data_of chat c).queue }
        else data_of j c)
remove_handler_lem chat j args c =
    let queue : List Pointer = (data_of chat c).queue in
    remove_handler-without_named chat j args c
    ∙ ap
        (λ (q : List Pointer).
          if chat == j then record (data_of j c) { queue = q } else data_of j c)
        (without_named-remaining 0 (length queue) (split b',' args) queue (omega arith))
