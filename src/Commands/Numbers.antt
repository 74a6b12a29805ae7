-- ===== src/Commands/Numbers.antt =====
-- What the commands of internal/bot use of Go's strings and strconv. The blanks are those of ASCII.
use tg.Base.{
  ℕ, ◌+◌, ◌-◌, ◌*◌, List, [], ◌∷◌, Option, none, some, Bool, ◌&&◌, ◌||◌, Text, ℤ, pos, neg, nat_beq,
  ltb, leb, if◌then◌else◌, is_blank,
}
use mathlib.Core.List.{reverse}

abbrev pub is_space : ℕ → Bool
is_space c = (leb 9 c && leb c 13) || nat_beq c 32

unfoldable pub trim_left : Text → Text
trim_left [] = []
trim_left (c ∷ s) = let rest = trim_left s in if is_space c then rest else c ∷ s

-- strings.TrimSpace(s)
unfoldable pub trim_space : Text → Text
unfolding trim_left
trim_space s = reverse (trim_left (reverse (trim_left s)))

unfoldable pub add_byte : ℕ → List Text → List Text
add_byte c [] = (c ∷ []) ∷ []
add_byte c (part ∷ parts) = (c ∷ part) ∷ parts

-- strings.Split(s, sep), for a separator of one byte
unfoldable pub split : ℕ → Text → List Text
unfolding add_byte
split sep [] = [] ∷ []
split sep (c ∷ s) = let rest = split sep s in if nat_beq c sep then [] ∷ rest else add_byte c rest

-- The value of decimal digits, behind those that were read.
unfoldable pub read_digits : ℕ → Text → Option ℕ
read_digits n [] = some n
read_digits n (c ∷ s) =
    let rest = read_digits (10 * n + (c - 48)) s in if leb 48 c && leb c 57 then rest else none

-- A number below a bound, or nothing.
unfoldable pub read_below : ℕ → Text → Option ℕ
unfolding read_digits
read_below bound s =
    if is_blank s
    then none
    else elim (read_digits 0 s) [ none ↦ none | some n ↦ if ltb n bound then some n else none ]

abbrev pub int_bound : ℕ
int_bound = 9223372036854775808

abbrev pub as_positive : Option ℕ → Option ℤ
as_positive none = none
as_positive (some n) = some (pos n)

abbrev pub as_negative : Option ℕ → Option ℤ
as_negative none = none
as_negative (some n) = some (neg (pos n))

-- strconv.Atoi(s), where an int has 64 bits
unfoldable pub atoi : Text → Option ℤ
unfolding read_below
atoi [] = none
atoi (c ∷ s) =
    if nat_beq c b'-'
    then as_negative (read_below (int_bound + 1) s)
    else as_positive (read_below int_bound (if nat_beq c b'+' then s else c ∷ s))
