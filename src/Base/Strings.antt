-- ===== src/Base/Strings.antt =====
-- Text as a list of bytes, with what the code uses of Go's strings and strconv.
use Prim.Native.Nat.{ℕ, zero, suc, ◌+◌, ◌-◌, ◌*◌, ◌/◌, ◌%◌, ◌<◌, ◌≤◌}
use Prim.Native.Char.{code}
use Prim.Native.String.{String}
use mathlib.Core.Path.{◌≡◌, refl, sym, ap, ◌∙◌, subst}
use mathlib.Core.Logic.{◌↔◌, ◌≢◌}
use mathlib.Core.Bool.{Bool, true, false, ◌&&◌, ◌||◌}
use mathlib.Core.List.{List, [], ◌∷◌, ◌++◌, reverse, reverse-reverse, reverse-cons}
use native.Mathlib.Omega.{arith}
use tg.Base.Tests.{Comparable, nat_beq, ltb, leb, if◌then◌else◌}
use tg.Base.Lists.{drop}
use tg.Base.Int.{ℤ, pos, negsuc}

abbrev pub Text : Type 0
Text = List ℕ

-- A literal's bytes, where it is ASCII.
abbrev pub bytes : String → Text
bytes String.[] = []
bytes (String.◌∷◌ letter more) = code letter ∷ bytes more

abbrev pub text_beq : Text → Text → Bool
text_beq [] [] = true
text_beq (a ∷ s) (b ∷ t) = nat_beq a b && text_beq s t
text_beq _ _ = false

pub text_beq_iff : (s t : Text) → (text_beq s t ≡ true) ↔ (s ≡ t)
text_beq_iff [] [] = (λ h. refl, λ h. refl)
text_beq_iff [] (b ∷ t) = (λ h. cc, λ h. cc)
text_beq_iff (a ∷ s) [] = (λ h. cc, λ h. cc)
text_beq_iff (a ∷ s) (b ∷ t) =
    (λ h. ground (arith, text_beq_iff s t), λ h. ground (arith, text_beq_iff s t))

instance abbrev pub text_eq : Comparable Text
text_eq = record { equal = text_beq; equal_iff = text_beq_iff }

-- `s == ""`
abbrev pub is_blank : Text → Bool
is_blank [] = true
is_blank (c ∷ s) = false

unfoldable pub has_prefix : Text → Text → Bool
has_prefix s [] = true
has_prefix [] (b ∷ t) = false
has_prefix (a ∷ s) (b ∷ t) = nat_beq a b && has_prefix s t

abbrev lower : ℕ → ℕ
lower c = if leb b'A' c && leb c b'Z' then c + 32 else c

-- strings.ToLower of an ASCII text.
abbrev pub to_lower : Text → Text
to_lower [] = []
to_lower (c ∷ s) = lower c ∷ to_lower s

-- strings.Contains(s, t)
unfoldable pub has_part : Text → Text → Bool
unfolding has_prefix
has_part [] t = has_prefix [] t
has_part (a ∷ s) t = has_prefix (a ∷ s) t || has_part s t

-- The decimal digits of a number, the last one first. The fuel is above the number.
unfoldable pub digits_rev : ℕ → ℕ → Text
digits_rev zero n = []
digits_rev (suc f) n =
    let rest = digits_rev f (n / 10) in (48 + n % 10) ∷ (if ltb n 10 then [] else rest)

-- strconv.FormatInt(id, 10)
unfoldable pub format_int : ℤ → Text
unfolding digits_rev
format_int (pos n) = reverse (digits_rev (suc n) n)
format_int (negsuc n) = b'-' ∷ reverse (digits_rev (suc (suc n)) (suc n))

value_rev : Text → ℕ
value_rev [] = 0
value_rev (c ∷ s) = (c - 48) + 10 * value_rev s

value-digits_rev : (f n : ℕ) → n < f → value_rev (digits_rev f n) ≡ n
unfolding value_rev digits_rev
value-digits_rev zero n h = elim h [ ]
value-digits_rev (suc f) n h = ground (arith, value-digits_rev f (n / 10))

AreAboveMinus : Text → Type 0
AreAboveMinus [] = Unit
AreAboveMinus (c ∷ s) = (48 ≤ c) × AreAboveMinus s

digits_rev-AreAboveMinus : (f n : ℕ) → AreAboveMinus (digits_rev f n)
unfolding digits_rev AreAboveMinus
digits_rev-AreAboveMinus zero n = tt
digits_rev-AreAboveMinus (suc f) n = ground (arith, digits_rev-AreAboveMinus f (n / 10))

not-AreAboveMinus-minus : (s : Text) → ¬ AreAboveMinus (s ++ b'-' ∷ [])
unfolding AreAboveMinus
not-AreAboveMinus-minus [] h = absurd (omega arith)
not-AreAboveMinus-minus (c ∷ s) h = not-AreAboveMinus-minus s h.1

reverse-injective : (s t : Text) → reverse s ≡ reverse t → s ≡ t
reverse-injective s t h = sym (reverse-reverse s) ∙ ap reverse h ∙ reverse-reverse t

positive-ne-negative : (f g m n : ℕ) → reverse (digits_rev f m) ≢ b'-' ∷ reverse (digits_rev g n)
positive-ne-negative f g m n h =
    let e : digits_rev f m ≡ digits_rev g n ++ b'-' ∷ [] =
      sym (reverse-reverse (digits_rev f m))
      ∙ ap reverse h
      ∙ reverse-cons b'-' (reverse (digits_rev g n))
      ∙ ap (λ (s : Text). s ++ b'-' ∷ []) (reverse-reverse (digits_rev g n)) in
    not-AreAboveMinus-minus (digits_rev g n) (subst AreAboveMinus e (digits_rev-AreAboveMinus f m))

digits_rev-injective : (m n : ℕ) → digits_rev (suc m) m ≡ digits_rev (suc n) n → m ≡ n
digits_rev-injective m n h =
    sym (value-digits_rev (suc m) m (omega arith))
    ∙ ap value_rev h
    ∙ value-digits_rev (suc n) n (omega arith)

-- Two numbers, or two ids, that print alike are equal.
pub format_int-injective : (a b : ℤ) → format_int a ≡ format_int b → a ≡ b
unfolding format_int
format_int-injective (pos m) (pos n) h = ap pos (digits_rev-injective m n (reverse-injective _ _ h))
format_int-injective (pos m) (negsuc n) h =
    absurd (positive-ne-negative (suc m) (suc (suc n)) m (suc n) h)
format_int-injective (negsuc m) (pos n) h =
    absurd (positive-ne-negative (suc n) (suc (suc m)) n (suc m) (sym h))
format_int-injective (negsuc m) (negsuc n) h =
    let e : reverse (digits_rev (suc (suc m)) (suc m))
        ≡ reverse (digits_rev (suc (suc n)) (suc n)) =
      ap (drop 1) h in
    let f : suc m ≡ suc n = digits_rev-injective (suc m) (suc n) (reverse-injective _ _ e) in
    ground arith
