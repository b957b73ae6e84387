-- ===== src/Prelude/Int.antt =====
-- Signed integers over the native numbers, under the library's names: Python's `int`.
use Prim.Native.Nat.{ℕ, suc, ◌+◌, ◌-◌, ◌*◌, ◌/◌, ◌<◌}
use Prim.Native.Char.{code}
use mathlib.Core.Path.{◌≡◌, refl}
use mathlib.Core.Option.{Option, none, some}
use Prim.Native.String.{String, ◌++◌ as ◌<>◌}
use mathlib.Core.Bool.{Bool, false, ◌&&◌, ◌||◌}
use arch_installer.Prelude.Tests.{ltb, leb, eqb, if◌then◌else◌}
use arch_installer.Prelude.Text.{show_nat}

-- `negsuc n` is -(n + 1).
pub data ℤ : Type 0 where
  pos : ℕ → ℤ
  negsuc : ℕ → ℤ

abbrev pub pos_part : ℤ → ℕ
pos_part (pos n) = n
pos_part (negsuc n) = 0

abbrev pub neg_part : ℤ → ℕ
neg_part (pos n) = 0
neg_part (negsuc n) = suc n

-- a - b, as an integer.
abbrev pub sub_ℕ : ℕ → ℕ → ℤ
sub_ℕ a b = if leb b a then pos (a - b) else negsuc (b - a - 1)

infixl 65 ◌+ℤ◌
unfoldable pub ◌+ℤ◌ : ℤ → ℤ → ℤ
a +ℤ b = sub_ℕ (pos_part a + pos_part b) (neg_part a + neg_part b)

infix 50 ◌<ℤ◌
abbrev pub ◌<ℤ◌ : ℤ → ℤ → Type 0
a <ℤ b = pos_part a + neg_part b < pos_part b + neg_part a

abbrev pub ltb_ℤ : ℤ → ℤ → Bool
ltb_ℤ a b = ltb (pos_part a + neg_part b) (pos_part b + neg_part a)

unfoldable pub show_int : ℤ → String
show_int (pos n) = show_nat n
show_int (negsuc n) = "-" <> show_nat (suc n)

infixl 66 ◌*ℤ◌
unfoldable pub ◌*ℤ◌ : ℤ → ℤ → ℤ
a *ℤ b =
    sub_ℕ (pos_part a * pos_part b + neg_part a * neg_part b)
      (pos_part a * neg_part b + neg_part a * pos_part b)

-- `n // k`, and `math.ceil(n / k)` where the quotient is an exact float
unfoldable pub floor_div : ℤ → ℕ → ℤ
floor_div (pos n) k = pos (n / k)
floor_div (negsuc n) k = negsuc (n / k)

unfoldable pub ceil_div : ℤ → ℕ → ℤ
ceil_div (pos n) k = pos ((n + k - 1) / k)
ceil_div (negsuc n) k = sub_ℕ 0 (suc n / k)

abbrev pub is_zero_int : ℤ → Bool
is_zero_int (pos n) = eqb n 0
is_zero_int (negsuc n) = false

-- the digits that are left, after `value`; an underscore stands between two digits
parse_digits : ℕ → Bool → String → Option ℕ
parse_digits value after_digit String.[] = if after_digit then some value else none
parse_digits value after_digit (String.◌∷◌ c s) =
    let n = code c in
    let is_digit = leb 48 n && leb n 57 in
    let rest = parse_digits (if is_digit then value * 10 + (n - 48) else value) is_digit s in
    if is_digit || (eqb n 95 && after_digit) then rest else none

-- `int(text)` of a stripped text: digits with or without a sign. Digits of other scripts than 0 to 9
-- count as no digits.
unfoldable pub parse_int : String → Option ℤ
unfolding parse_digits
parse_int String.[] = none
parse_int (String.◌∷◌ c s) =
    let n = code c in
    let digits = parse_digits 0 false (if eqb n 43 || eqb n 45 then s else String.◌∷◌ c s) in
    elim digits [ none ↦ none | some d ↦ some (if eqb n 45 then sub_ℕ 0 d else pos d) ]

int_examples :
    (parse_int "1_024" ≡ some (pos 1024))
    × (parse_int "-7" ≡ some (negsuc 6))
    × (parse_int "_7" ≡ none)
    × (parse_int "" ≡ none)
    × (floor_div (negsuc 6) 2 ≡ negsuc 3)
    × (ceil_div (negsuc 6) 2 ≡ negsuc 2)
    × (ceil_div (pos 7) 2 ≡ pos 4)
unfolding parse_int floor_div ceil_div
int_examples = (refl, refl, refl, refl, refl, refl, refl)
