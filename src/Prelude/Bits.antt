-- ===== src/Prelude/Bits.antt =====
-- Single bits of Python's integers, and their big-endian bytes.
use native.Mathlib.Nat.{pow-suc}
use Prim.Native.Nat.{
  ℕ, zero, suc, ◌+◌, ◌*◌, ◌/◌, ◌%◌, ◌^◌, ◌≤◌, ◌<◌, min, max, bit_and, bit_or, digits,
  bit_and-bitwise, bit_or-bitwise,
}
use mathlib.Core.Path.{◌≡◌, refl, ap}
use mathlib.Core.Bool.{Bool, false, not, ◌||◌}
use mathlib.Core.List.{List, [], ◌∷◌, ◌++◌}
use native.Mathlib.Omega.{arith}
use atlas_pay.Prelude.Lists.{length, length-append}
use atlas_pay.Prelude.Tests.{nat_beq}

-- `x | 1 << k`
unfoldable pub set_bit : ℕ → ℕ → ℕ
set_bit x k = bit_or x (2 ^ k)

-- `bool(x & 1 << k)`
unfoldable pub test_bit : ℕ → ℕ → Bool
test_bit x k = not (nat_beq (bit_and x (2 ^ k)) 0)

-- The digit-wise operation that a native one stands for, at its lowest digit. Its fuel counts
-- down from the first operand, and any bound of that operand does.
module _ (rest : ℕ → ℕ) (join : ℕ → ℕ → ℕ) where
  enough : (b a f g : ℕ) → a ≤ f → a ≤ g → digits rest join f a b ≡ digits rest join g a b
  enough b zero zero zero l r = refl
  enough b zero zero (suc g) l r = refl
  enough b zero (suc f) zero l r = refl
  enough b zero (suc f) (suc g) l r = refl
  enough b (suc a) zero g l r = absurd (omega arith)
  enough b (suc a) (suc f) zero l r = absurd (omega arith)
  enough b (suc a) (suc f) (suc g) l r =
      let below = enough (b / 2) (suc a / 2) f g (omega arith) (omega arith) in
      ap (λ (x : ℕ). x * 2 + join (suc a % 2) (b % 2)) below

bit_and_step : (x y : ℕ) → bit_and x y ≡ bit_and (x / 2) (y / 2) * 2 + min (x % 2) (y % 2)
bit_and_step zero y = omega (arith, bit_and-bitwise 0 y, bit_and-bitwise 0 (y / 2))
bit_and_step (suc n) y =
    let h = suc n / 2 in
    let lower = enough (λ d. zero) min (y / 2) h n h (omega arith) (omega arith) in
    omega (arith, lower, bit_and-bitwise h (y / 2), bit_and-bitwise (suc n) y)

bit_or_step : (x y : ℕ) → bit_or x y ≡ bit_or (x / 2) (y / 2) * 2 + max (x % 2) (y % 2)
bit_or_step zero y = omega (arith, bit_or-bitwise 0 y, bit_or-bitwise 0 (y / 2))
bit_or_step (suc n) y =
    let h = suc n / 2 in
    let lower = enough (λ d. d) max (y / 2) h n h (omega arith) (omega arith) in
    omega (arith, lower, bit_or-bitwise h (y / 2), bit_or-bitwise (suc n) y)

-- A second operand without digits.
no_digits : (bound x : ℕ) → x ≤ bound → (bit_and x 0 ≡ 0) × (bit_or x 0 ≡ x)
no_digits bound zero l = (refl, refl)
no_digits zero (suc n) l = absurd (omega arith)
no_digits (suc bound) (suc n) l =
    let lower = no_digits bound (suc n / 2) (omega arith) in
    (omega (arith, lower.0, bit_and_step (suc n) 0), omega (arith, lower.1, bit_or_step (suc n) 0))

pub test_bit-of_zero : (k : ℕ) → test_bit 0 k ≡ false
unfolding test_bit
test_bit-of_zero k = rw (bit_and-bitwise 0 (2 ^ k)) refl

test_bit-zero : (x : ℕ) → test_bit x 0 ≡ nat_beq (x % 2) 1
unfolding test_bit
test_bit-zero x = ground (arith, bit_and_step x 1, (no_digits (x / 2) (x / 2) (omega arith)).0)

test_bit-suc : (x k : ℕ) → test_bit x (suc k) ≡ test_bit (x / 2) k
unfolding test_bit
test_bit-suc x k =
    let half : 2 ^ suc k / 2 ≡ 2 ^ k = omega (arith, pow-suc 2 k) in
    let even : 2 ^ suc k % 2 ≡ 0 = omega (arith, pow-suc 2 k) in
    let e : bit_and x (2 ^ suc k) ≡ bit_and (x / 2) (2 ^ k) * 2 =
      rw (bit_and_step x (2 ^ suc k), half, even) (omega arith) in
    rw e (ground arith)

set_bit-zero_half : (x : ℕ) → set_bit x 0 / 2 ≡ x / 2
unfolding set_bit
set_bit-zero_half x = omega (arith, bit_or_step x 1, (no_digits (x / 2) (x / 2) (omega arith)).1)

set_bit-zero_mod : (x : ℕ) → set_bit x 0 % 2 ≡ 1
unfolding set_bit
set_bit-zero_mod x = omega (arith, bit_or_step x 1)

set_bit-suc : (x k : ℕ) → set_bit x (suc k) ≡ set_bit (x / 2) k * 2 + x % 2
unfolding set_bit
set_bit-suc x k =
    let half : 2 ^ suc k / 2 ≡ 2 ^ k = omega (arith, pow-suc 2 k) in
    let even : 2 ^ suc k % 2 ≡ 0 = omega (arith, pow-suc 2 k) in
    rw (bit_or_step x (2 ^ suc k), half, even) (omega arith)

-- Setting a bit sets it and no other.
pub test_bit-set_bit : (x k j : ℕ) → test_bit (set_bit x k) j ≡ (nat_beq j k || test_bit x j)
test_bit-set_bit x zero zero = rw (test_bit-zero, set_bit-zero_mod) refl
test_bit-set_bit x zero (suc j) = ground (
  arith,
  test_bit-suc (set_bit x 0) j,
  ap (λ (y : ℕ). test_bit y j) (set_bit-zero_half x),
  test_bit-suc x j,
)
test_bit-set_bit x (suc k) zero = rw (test_bit-zero, set_bit-suc) (ground (arith, test_bit-zero x))
test_bit-set_bit x (suc k) (suc j) =
    let half : (set_bit (x / 2) k * 2 + x % 2) / 2 ≡ set_bit (x / 2) k = omega arith in
    rw (test_bit-suc, set_bit-suc, half, test_bit-set_bit (x / 2) k j)
      (ground (arith, test_bit-suc x j))

pub set_bit-lt : (w x k : ℕ) → x < 2 ^ w → k < w → set_bit x k < 2 ^ w
set_bit-lt zero x k h p = absurd (omega arith)
set_bit-lt (suc w) x zero h p = omega (arith, pow-suc 2 w, set_bit-zero_half x, set_bit-zero_mod x)
set_bit-lt (suc w) x (suc k) h p =
    rw set_bit-suc (
      omega (arith, pow-suc 2 w, set_bit-lt w (x / 2) k (omega (arith, pow-suc 2 w)) (omega arith)))

-- `x.to_bytes(w, "big")`
unfoldable pub to_bytes : ℕ → ℕ → List ℕ
to_bytes zero x = []
to_bytes (suc w) x = to_bytes w (x / 256) ++ (x % 256) ∷ []

bytes_from : ℕ → List ℕ → ℕ
bytes_from acc [] = acc
bytes_from acc (b ∷ bs) = bytes_from (acc * 256 + b) bs

-- `int.from_bytes(bs, "big")`
unfoldable pub from_bytes : List ℕ → ℕ
unfolding bytes_from
from_bytes bs = bytes_from 0 bs

bytes_from-concat :
    (acc b : ℕ) (bs : List ℕ) → bytes_from acc (bs ++ b ∷ []) ≡ bytes_from acc bs * 256 + b
unfolding bytes_from
bytes_from-concat acc b [] = refl
bytes_from-concat acc b (c ∷ bs) = bytes_from-concat (acc * 256 + c) b bs

pub length-to_bytes : (w x : ℕ) → length (to_bytes w x) ≡ w
unfolding to_bytes
length-to_bytes zero x = refl
length-to_bytes (suc w) x =
    omega
      (arith, length-append (to_bytes w (x / 256)) ((x % 256) ∷ []), length-to_bytes w (x / 256))

pub from_bytes-to_bytes : (w x : ℕ) → x < 256 ^ w → from_bytes (to_bytes w x) ≡ x
unfolding from_bytes to_bytes
from_bytes-to_bytes zero x h = omega arith
from_bytes-to_bytes (suc w) x h = omega (
  arith,
  bytes_from-concat 0 (x % 256) (to_bytes w (x / 256)),
  from_bytes-to_bytes w (x / 256) (omega (arith, pow-suc 256 w)),
)
