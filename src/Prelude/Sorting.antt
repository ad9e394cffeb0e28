-- ===== src/Prelude/Sorting.antt =====
-- Python's `range` and `sorted` on numbers. Sorting distinct numbers of a range is the same as
-- running through the range and keeping those that are there.
use Prim.Native.Nat.{ℕ, zero, suc, ◌+◌, ◌≤◌, ◌<◌}
use mathlib.Core.Path.{◌≡◌, refl, sym}
use mathlib.Core.Bool.{Bool, true, false, ◌&&◌, ◌||◌}
use mathlib.Core.List.{List, [], ◌∷◌, ◌++◌}
use mathlib.Core.Logic.{inl, inr}
use native.Mathlib.Omega.{arith}
use atlas_pay.Prelude.Equality.{mem, nat_eq}
use atlas_pay.Prelude.Lists.{keep, all}
use atlas_pay.Prelude.Tests.{leb, nat_beq, nat_beq_iff, if◌then◌else◌, Bool-cases}

-- `range(a, a + n)`
abbrev pub range_from : ℕ → ℕ → List ℕ
range_from a zero = []
range_from a (suc n) = a ∷ range_from (suc a) n

unfoldable pub insert_sorted : ℕ → List ℕ → List ℕ
insert_sorted k [] = k ∷ []
insert_sorted k (x ∷ xs) = if leb k x then k ∷ x ∷ xs else x ∷ insert_sorted k xs

-- `sorted(xs)`
unfoldable pub sorted : List ℕ → List ℕ
unfolding insert_sorted
sorted [] = []
sorted (x ∷ xs) = insert_sorted x (sorted xs)

abbrev pub IsDistinct : List ℕ → Type 0
IsDistinct [] = Unit
IsDistinct (x ∷ xs) = (mem x xs ≡ false) × IsDistinct xs

abbrev pub in_range : ℕ → ℕ → ℕ → Bool
in_range lo hi x = leb lo x && leb x hi

pub keep-range_append :
    (p : ℕ → Bool) (a m n : ℕ)
    → keep p (range_from a m) ++ keep p (range_from (a + m) n) ≡ keep p (range_from a (m + n))
keep-range_append p a zero n =
    let e : a + 0 ≡ a = omega arith in let e' : 0 + n ≡ n = omega arith in rw (e, e') refl
keep-range_append p a (suc m) n =
    let e : a + suc m ≡ suc a + m = omega arith in
    let e' : suc m + n ≡ suc (m + n) = omega arith in
    rw (e, e') (ground (arith, keep-range_append p (suc a) m n))

-- Two tests that agree on a range keep the same numbers of it.
pub keep-range_congr :
    (p q : ℕ → Bool) (a n : ℕ)
    → ((j : ℕ) → a ≤ j → j < a + n → p j ≡ q j)
    → keep p (range_from a n) ≡ keep q (range_from a n)
keep-range_congr p q a zero h = refl
keep-range_congr p q a (suc n) h = ground (
  arith,
  h a (omega arith) (omega arith),
  keep-range_congr p q (suc a) n (λ j u v. h j (omega arith) (omega arith)),
)

pub keep-range_none :
    (p : ℕ → Bool) (a n : ℕ) → ((j : ℕ) → a ≤ j → p j ≡ false) → keep p (range_from a n) ≡ []
keep-range_none p a zero h = refl
keep-range_none p a (suc n) h =
    ground (arith, h a (omega arith), keep-range_none p (suc a) n (λ j u. h j (omega arith)))

insert_sorted-above :
    (k : ℕ) (p : ℕ → Bool) (a n : ℕ)
    → k ≤ a
    → insert_sorted k (keep p (range_from a n)) ≡ k ∷ keep p (range_from a n)
unfolding insert_sorted
insert_sorted-above k p a zero h = refl
insert_sorted-above k p a (suc n) h = ground (arith, insert_sorted-above k p (suc a) n)

above_test : (a k j : ℕ) (b : Bool) → a ≡ k → suc a ≤ j → (nat_beq j k || b) ≡ b
above_test a k j b e h = ground arith

insert_sorted-keep :
    (k : ℕ) (p : ℕ → Bool) (a n : ℕ)
    → a ≤ k
    → k < a + n
    → p k ≡ false
    → insert_sorted k (keep p (range_from a n)) ≡ keep (λ j. nat_beq j k || p j) (range_from a n)
unfolding insert_sorted
insert_sorted-keep k p a zero h u f = absurd (omega arith)
insert_sorted-keep k p a (suc n) h u f = elim (Bool-cases (nat_beq a k)) [
  | inl e ↦ ground (
    arith,
    rw (← (nat_beq_iff a k).0 e) at f,
    insert_sorted-above k p (suc a) n (ground arith),
    keep-range_congr (λ j. nat_beq j k || p j) p (suc a) n
        (λ j v w. above_test a k j (p j) ((nat_beq_iff a k).0 e) v),
  )
  | inr e ↦ ground (arith, insert_sorted-keep k p (suc a) n)
]

pub sorted-keep :
    (ks : List ℕ) (a n : ℕ)
    → IsDistinct ks
    → all (λ k. leb a k && leb (suc k) (a + n)) ks ≡ true
    → sorted ks ≡ keep (λ j. mem j ks) (range_from a n)
unfolding sorted
sorted-keep [] a n d h = sym (keep-range_none (λ j. false) a n (λ j u. refl))
sorted-keep (k ∷ ks) a n d h =
    rw (sorted-keep ks a n d.1 (ground arith))
      (insert_sorted-keep k (λ j. mem j ks) a n (ground arith) (ground arith) d.0)
