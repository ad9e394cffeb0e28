-- ===== src/Prelude/Decimal.antt =====
-- Decimal numerals: `f"{n:0{w}d}"` and `int(text)` for texts of ASCII digits.
use native.Mathlib.Nat.{pow-suc}
use Prim.Native.Nat.{ℕ, zero, suc, ◌+◌, ◌-◌, ◌*◌, ◌/◌, ◌%◌, ◌^◌, ◌<◌}
use mathlib.Core.Bool.{Bool, true}
use mathlib.Core.List.{List, [], ◌∷◌, ◌++◌}
use mathlib.Core.Path.{◌≡◌, refl}
use native.Mathlib.Omega.{arith}
use atlas_pay.Prelude.Lists.{length, all, length-append}
use atlas_pay.Prelude.Tests.{nat_beq, if◌then◌else◌}
use atlas_pay.Prelude.Texts.{Text, is_digit_byte}

-- The digits of `n`, none for zero; `n` itself is enough fuel.
unfoldable pub digits_of : ℕ → ℕ → Text
digits_of zero n = []
digits_of (suc fuel) n =
    let rest = digits_of fuel (n / 10) ++ (48 + n % 10) ∷ [] in if nat_beq n 0 then [] else rest

-- At least `w` digits, padded by zeros on the left.
unfoldable pub format_padded : ℕ → ℕ → Text
format_padded zero n = digits_of n n
format_padded (suc w) n = format_padded w (n / 10) ++ (48 + n % 10) ∷ []

parse_from : ℕ → Text → ℕ
parse_from acc [] = acc
parse_from acc (c ∷ s) = parse_from (acc * 10 + (c - 48)) s

-- `int(s)` where `s` has digits only
unfoldable pub parse_decimal : Text → ℕ
unfolding parse_from
parse_decimal s = parse_from 0 s

parse_from-concat :
    (acc c : ℕ) (s : Text) → parse_from acc (s ++ c ∷ []) ≡ parse_from acc s * 10 + (c - 48)
unfolding parse_from
parse_from-concat acc c [] = refl
parse_from-concat acc c (x ∷ s) = parse_from-concat (acc * 10 + (x - 48)) c s

-- `int` reads back what the format wrote.
pub parse_decimal-format_padded : (w n : ℕ) → n < 10 ^ w → parse_decimal (format_padded w n) ≡ n
unfolding parse_decimal format_padded digits_of
parse_decimal-format_padded zero zero h = refl
parse_decimal-format_padded zero (suc n) h = absurd (omega arith)
parse_decimal-format_padded (suc w) n h = omega (
  arith,
  parse_from-concat 0 (48 + n % 10) (format_padded w (n / 10)),
  parse_decimal-format_padded w (n / 10) (omega (arith, pow-suc)),
)

pub length-format_padded : (w n : ℕ) → n < 10 ^ w → length (format_padded w n) ≡ w
unfolding format_padded digits_of
length-format_padded zero zero h = refl
length-format_padded zero (suc n) h = absurd (omega arith)
length-format_padded (suc w) n h = omega (
  arith,
  length-append (format_padded w (n / 10)) ((48 + n % 10) ∷ []),
  length-format_padded w (n / 10) (omega (arith, pow-suc)),
)

pub all-append {ℓ} :
    {A : Type ℓ} (p : A → Bool) (xs ys : List A)
    → all p xs ≡ true
    → all p ys ≡ true
    → all p (xs ++ ys) ≡ true
all-append p [] ys h k = k
all-append p (x ∷ xs) ys h k = ground (arith, all-append p xs ys)

pub format_padded-digits : (w n : ℕ) → n < 10 ^ w → all is_digit_byte (format_padded w n) ≡ true
unfolding format_padded digits_of
format_padded-digits zero zero h = refl
format_padded-digits zero (suc n) h = absurd (omega arith)
format_padded-digits (suc w) n h =
    all-append is_digit_byte (format_padded w (n / 10)) ((48 + n % 10) ∷ [])
      (format_padded-digits w (n / 10) (omega (arith, pow-suc))) (ground arith)

format_7 : format_padded 3 27 ≡ 48 ∷ 50 ∷ 55 ∷ []
unfolding format_padded digits_of
format_7 = refl

format_long : format_padded 2 1027 ≡ 49 ∷ 48 ∷ 50 ∷ 55 ∷ []
unfolding format_padded digits_of
format_long = refl
