-- ===== src/Prelude/Texts.antt =====
-- Python's `str` as its list of code points and `bytes` as its list of bytes, with the tests and
-- methods that the program uses. What Python takes from the Unicode tables for code points above
-- 127 is a parameter.
use Prim.Native.Char.{code}
use Prim.Native.Nat.{ℕ, ◌-◌}
use Prim.Native.String.{String}
use mathlib.Core.Bool.{Bool, true, false, not, ◌&&◌, ◌||◌}
use mathlib.Core.List.{List, [], ◌∷◌, ◌++◌}
use atlas_pay.Prelude.Lists.{all, is_empty}
use atlas_pay.Prelude.Tests.{ltb, leb, nat_beq, if◌then◌else◌}

abbrev pub Text : Type 0
Text = List ℕ

abbrev pub Bytes : Type 0
Bytes = List ℕ

abbrev pub codes : String → Text
codes String.[] = []
codes (String.◌∷◌ c s) = code c ∷ codes s

abbrev pub is_digit_byte : ℕ → Bool
is_digit_byte c = leb 48 c && leb c 57

abbrev pub is_ascii_char : ℕ → Bool
is_ascii_char c = ltb c 128

-- `s.isascii()`
abbrev pub is_ascii : Text → Bool
is_ascii = all is_ascii_char

-- `s.isascii() and s.isdecimal()`; also `b.isascii() and b.isdigit()` for bytes.
unfoldable pub is_ascii_digits : Text → Bool
is_ascii_digits s = not (is_empty s) && all is_digit_byte s

-- `isprintable` on ASCII
abbrev pub is_printable_char : ℕ → Bool
is_printable_char c = leb 32 c && leb c 126

abbrev pub is_upper_char : ℕ → Bool
is_upper_char c = leb 65 c && leb c 90

abbrev pub is_lower_char : ℕ → Bool
is_lower_char c = leb 97 c && leb c 122

-- `str.isspace` on ASCII: tab to carriage return, the four separators, and the space.
abbrev pub is_space_char : ℕ → Bool
is_space_char c = (leb 9 c && leb c 13) || (leb 28 c && leb c 32)

-- `isalpha` on ASCII
abbrev pub is_alpha_char : ℕ → Bool
is_alpha_char c = is_upper_char c || is_lower_char c

-- The Unicode tables, consulted for code points above 127 only.
pub record Unicode : Type 0 where
  pub upper_of : ℕ → Text
  pub space_at : ℕ → Bool
  pub digit_at : ℕ → Bool

module _ (u : Unicode) where
  abbrev pub upper_char : ℕ → Text
  upper_char c =
      if is_ascii_char c then (if is_lower_char c then (c - 32) ∷ [] else c ∷ []) else u.upper_of c

  -- `s.upper()`
  unfoldable pub upper : Text → Text
  upper [] = []
  upper (c ∷ s) = upper_char c ++ upper s

  abbrev pub is_space : ℕ → Bool
  is_space c = if is_ascii_char c then is_space_char c else u.space_at c

  -- `not s.strip()`: nothing but white space
  unfoldable pub is_blank : Text → Bool
  is_blank = all is_space

  abbrev pub is_digit : ℕ → Bool
  is_digit c = if is_ascii_char c then is_digit_byte c else u.digit_at c

-- The tables of a Unicode with no letter, space or digit above 127.
abbrev pub ascii_only : Unicode
ascii_only = record { upper_of = λ c. c ∷ []; space_at = λ c. false; digit_at = λ c. false }

-- `s.startswith(t)`
unfoldable pub starts_with : Text → Text → Bool
starts_with s [] = true
starts_with [] (y ∷ t) = false
starts_with (x ∷ s) (y ∷ t) = nat_beq x y && starts_with s t
