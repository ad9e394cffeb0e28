-- ===== src/Snapshot/Percentile.antt =====
-- `percentile_cont(0.95) WITHIN GROUP (ORDER BY latency_ms)` of app/operational_snapshot.py, exactly: a
-- latency is a natural number, and a percentile the number of twentieths of it.
use atlas_pay.Prelude.{
  leb, Bool-cases, length, All, ℕ, zero, suc, ◌+◌, ◌-◌, ◌*◌, ◌/◌, ◌%◌, ◌≤◌, ◌<◌, ◌≡◌, refl, ap, ◌∙◌,
  inl, inr, List, [], ◌∷◌, arith,
}
use atlas_pay.Prelude.Sorting.{insert_sorted, sorted}

-- The element at a place, for a place in the list.
unfoldable pub get_or : List ℕ → ℕ → ℕ → ℕ
get_or [] i d = d
get_or (x ∷ xs) zero d = x
get_or (x ∷ xs) (suc i) d = get_or xs i d

-- Between the two neighbours of the place 0.95 (n - 1), in proportion.
unfoldable pub interpolate : List ℕ → ℕ → ℕ
interpolate ordered place =
    let lower = get_or ordered (place / 20) 0 in
    let upper = get_or ordered (place / 20 + 1) lower in 20 * lower + place % 20 * (upper - lower)

-- `COALESCE(..., 0)` for no rows
unfoldable pub p95 : List ℕ → ℕ
p95 [] = 0
p95 (x ∷ xs) = interpolate (sorted (x ∷ xs)) (19 * length xs)

get_or-All : (P : ℕ → Type 0) (xs : List ℕ) (i d : ℕ) → All P xs → P d → P (get_or xs i d)
unfolding get_or
get_or-All P [] i d h k = k
get_or-All P (x ∷ xs) zero d h k = h.0
get_or-All P (x ∷ xs) (suc i) d h k = get_or-All P xs i d h.1 k

insert_sorted-All :
    (P : ℕ → Type 0) (x : ℕ) (xs : List ℕ) → P x → All P xs → All P (insert_sorted x xs)
unfolding insert_sorted
insert_sorted-All P x [] h k = (h, tt)
insert_sorted-All P x (y ∷ ys) h k = elim (Bool-cases (leb x y)) [
  | inl c ↦ rw c (h, k)
  | inr c ↦ rw c (k.0, insert_sorted-All P x ys h k.1)
]

sorted-All : (P : ℕ → Type 0) (xs : List ℕ) → All P xs → All P (sorted xs)
unfolding sorted
sorted-All P [] h = tt
sorted-All P (x ∷ xs) h = insert_sorted-All P x (sorted xs) h.0 (sorted-All P xs h.1)

below : (a b r m : ℕ) → a ≤ m → b ≤ m → r < 20 → 20 * a + r * (b - a) ≤ 20 * m
below a b r m h k l = grind arith

get_or-in_range :
    (P : ℕ → Type 0) (xs : List ℕ) (i d : ℕ) → All P xs → i < length xs → P (get_or xs i d)
unfolding get_or
get_or-in_range P [] i d h l = absurd (omega arith)
get_or-in_range P (x ∷ xs) zero d h l = h.0
get_or-in_range P (x ∷ xs) (suc i) d h l = get_or-in_range P xs i d h.1 (omega arith)

length-insert_sorted : (x : ℕ) (xs : List ℕ) → length (insert_sorted x xs) ≡ suc (length xs)
unfolding insert_sorted
length-insert_sorted x [] = refl
length-insert_sorted x (y ∷ ys) = elim (Bool-cases (leb x y)) [
  | inl c ↦ rw c refl
  | inr c ↦ rw c (ap suc (length-insert_sorted x ys))
]

length-sorted : (xs : List ℕ) → length (sorted xs) ≡ length xs
unfolding sorted
length-sorted [] = refl
length-sorted (x ∷ xs) = length-insert_sorted x (sorted xs) ∙ ap suc (length-sorted xs)

-- The percentile lies between any two bounds of the latencies.
pub p95_bounds :
    (least greatest x : ℕ) (xs : List ℕ)
    → All (λ l. (least ≤ l) × (l ≤ greatest)) (x ∷ xs)
    → (20 * least ≤ p95 (x ∷ xs)) × (p95 (x ∷ xs) ≤ 20 * greatest)
unfolding p95 interpolate
p95_bounds least greatest x xs h =
    let ordered = sorted (x ∷ xs) in
    let all = sorted-All _ (x ∷ xs) h in
    let place = 19 * length xs in
    let lower =
      get_or-in_range _ ordered (place / 20) 0 all (omega (arith, length-sorted (x ∷ xs))) in
    let upper = get_or-All _ ordered (place / 20 + 1) (get_or ordered (place / 20) 0) all lower in
    (omega (arith, lower), below _ _ (place % 20) greatest lower.1 upper.1 (omega arith))
