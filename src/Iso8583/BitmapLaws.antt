-- ===== src/Iso8583/BitmapLaws.antt =====
-- Lemmas on the bitmaps of a set of field numbers, written and read back.
use mathlib.Core.Path.{ap₂}
use atlas_pay.Prelude.{
  leb, nat_beq, if◌then◌else◌, Bool-cases, all, keep, nat_eq, text_eq, mem, ℕ, zero, suc, ◌+◌, ◌-◌,
  ◌^◌, ◌≤◌, ◌<◌, ◌≡◌, refl, sym, ap, ◌∙◌, inl, inr, Bool, true, false, not, ◌&&◌, ◌||◌, List, [],
  ◌∷◌, ◌++◌, arith,
}
use atlas_pay.Prelude.Bits.{
  set_bit, test_bit, test_bit-of_zero, test_bit-set_bit, set_bit-lt, to_bytes, from_bytes,
  from_bytes-to_bytes,
}
use atlas_pay.Prelude.Sorting.{
  range_from, sorted, IsDistinct, in_range, keep-range_append, keep-range_none, sorted-keep,
}
use atlas_pay.Iso8583.Bitmap.{
  has_secondary, mark_fields, bitmaps, secondary_bytes, primary_numbers, secondary_numbers,
  decode_field_numbers,
}

abbrev pub are_field_numbers : List ℕ → Bool
are_field_numbers = all (in_range 2 128)

mark_fields-primary :
    (ks : List ℕ) (p s n : ℕ)
    → are_field_numbers ks ≡ true
    → 1 ≤ n
    → n ≤ 64
    → test_bit (mark_fields ks p s).0 (64 - n) ≡ (mem n ks || test_bit p (64 - n))
unfolding mark_fields
mark_fields-primary [] p s n h u v = refl
mark_fields-primary (k ∷ ks) p s n h u v = ground (
  arith,
  mark_fields-primary ks (if leb k 64 then set_bit p (64 - k) else p)
      (if leb k 64 then s else set_bit s (128 - k)) n,
  test_bit-set_bit p (64 - k) (64 - n),
)

mark_fields-secondary :
    (ks : List ℕ) (p s n : ℕ)
    → are_field_numbers ks ≡ true
    → 65 ≤ n
    → n ≤ 128
    → test_bit (mark_fields ks p s).1 (128 - n) ≡ (mem n ks || test_bit s (128 - n))
unfolding mark_fields
mark_fields-secondary [] p s n h u v = refl
mark_fields-secondary (k ∷ ks) p s n h u v = ground (
  arith,
  mark_fields-secondary ks (if leb k 64 then set_bit p (64 - k) else p)
      (if leb k 64 then s else set_bit s (128 - k)) n,
  test_bit-set_bit s (128 - k) (128 - n),
)

mark_fields-lt :
    (ks : List ℕ) (p s : ℕ)
    → are_field_numbers ks ≡ true
    → p < 2 ^ 64
    → s < 2 ^ 64
    → ((mark_fields ks p s).0 < 2 ^ 64) × ((mark_fields ks p s).1 < 2 ^ 64)
unfolding mark_fields
mark_fields-lt [] p s h u v = (u, v)
mark_fields-lt (k ∷ ks) p s h u v = elim (Bool-cases (leb k 64)) [
  | inl low ↦
      rw (low, mark_fields)
        (mark_fields-lt ks _ _ (ground arith) (set_bit-lt 64 p (64 - k) u (ground arith)) v)
  | inr high ↦
      rw (high, mark_fields)
        (mark_fields-lt ks _ _ (ground arith) u (set_bit-lt 64 s (128 - k) v (ground arith)))
]

-- The loops over the bits of a bitmap keep the numbers whose bit is set.
primary_numbers-keep :
    (p : ℕ) (q : ℕ → Bool) (b c : ℕ)
    → ((j : ℕ) → j < 64 → (test_bit p (63 - j) && not (nat_beq (j + 1) 1)) ≡ q (j + 1))
    → b + c ≤ 64
    → primary_numbers p (range_from b c) ≡ keep q (range_from (b + 1) c)
unfolding primary_numbers
primary_numbers-keep p q b zero h u = refl
primary_numbers-keep p q b (suc c) h u =
    let e : suc b + 1 ≡ suc (b + 1) = omega arith in
    let ih = primary_numbers-keep p q (suc b) c h (omega arith) in
    ground (arith, h b (omega arith), rw e at ih)

secondary_numbers-keep :
    (s : ℕ) (q : ℕ → Bool) (b c : ℕ)
    → ((j : ℕ) → j < 64 → test_bit s (63 - j) ≡ q (j + 65))
    → b + c ≤ 64
    → secondary_numbers s (range_from b c) ≡ keep q (range_from (b + 65) c)
unfolding secondary_numbers
secondary_numbers-keep s q b zero h u = refl
secondary_numbers-keep s q b (suc c) h u =
    let e : suc b + 65 ≡ suc (b + 65) = omega arith in
    let ih = secondary_numbers-keep s q (suc b) c h (omega arith) in
    ground (arith, h b (omega arith), rw e at ih)

mem-above : (ks : List ℕ) (j : ℕ) → has_secondary ks ≡ false → 65 ≤ j → mem j ks ≡ false
mem-above [] j h u = refl
mem-above (k ∷ ks) j h u = ground (arith, mem-above ks j)

one-mem : (ks : List ℕ) → are_field_numbers ks ≡ true → mem 1 ks ≡ false
one-mem [] h = refl
one-mem (k ∷ ks) h = ground (arith, one-mem ks)

start_bits :
    (b : Bool) (j : ℕ) → 1 ≤ j → j < 64 → test_bit (if b then set_bit 0 63 else 0) (63 - j) ≡ false
start_bits true j u v = ground (arith, test_bit-set_bit 0 63 (63 - j), test_bit-of_zero (63 - j))
start_bits false j u v = test_bit-of_zero (63 - j)

start-lt : (b : Bool) → (if b then set_bit 0 63 else 0) < 2 ^ 64
start-lt true = set_bit-lt 64 0 63 (omega arith) (omega arith)
start-lt false = omega arith

with_secondary :
    (p s : ℕ)
    → decode_field_numbers p (to_bytes 8 s)
      ≡ primary_numbers p (range_from 0 64)
        ++ secondary_numbers (from_bytes (to_bytes 8 s)) (range_from 0 64)
unfolding decode_field_numbers to_bytes
with_secondary p s = refl

without_secondary : (p : ℕ) → decode_field_numbers p [] ≡ primary_numbers p (range_from 0 64) ++ []
unfolding decode_field_numbers
without_secondary p = refl

widen :
    (ks : List ℕ)
    → are_field_numbers ks ≡ true
    → all (λ k. leb 1 k && leb (suc k) (1 + 128)) ks ≡ true
widen [] h = refl
widen (k ∷ ks) h = ground (arith, widen ks)

module _ (ks : List ℕ) (h : are_field_numbers ks ≡ true) where
  primary_bit :
      (j : ℕ)
      → j < 64
      → (test_bit (bitmaps ks).0 (63 - j) && not (nat_beq (j + 1) 1)) ≡ mem (j + 1) ks
  primary_bit zero u = ground (arith, one-mem ks h)
  primary_bit (suc j) u =
      let e : 64 - (suc j + 1) ≡ 63 - suc j = omega arith in
      let p = if has_secondary ks then set_bit 0 63 else 0 in
      let marked = mark_fields-primary ks p 0 (suc j + 1) h (omega arith) (omega arith) in
      ground (arith, rw e at marked, start_bits (has_secondary ks) (suc j) (omega arith) u)

  secondary_bit : (j : ℕ) → j < 64 → test_bit (bitmaps ks).1 (63 - j) ≡ mem (j + 65) ks
  secondary_bit j u =
      let e : 128 - (j + 65) ≡ 63 - j = omega arith in
      let p = if has_secondary ks then set_bit 0 63 else 0 in
      let marked = mark_fields-secondary ks p 0 (j + 65) h (omega arith) (omega arith) in
      ground (arith, rw e at marked, test_bit-of_zero (63 - j))

  flag_bit : (b : Bool) → test_bit (if b then set_bit 0 63 else 0) 63 ≡ b
  flag_bit true = rw test_bit-set_bit refl
  flag_bit false = test_bit-of_zero 63

  -- The flag of the secondary bitmap is set exactly if there is one.
  pub bitmap_flag : test_bit (bitmaps ks).0 63 ≡ has_secondary ks
  bitmap_flag =
      let p = if has_secondary ks then set_bit 0 63 else 0 in
      ground (
        arith,
        mark_fields-primary ks p 0 1 h (omega arith) (omega arith),
        one-mem ks h,
        flag_bit (has_secondary ks),
      )

  bitmaps-lt : ((bitmaps ks).0 < 2 ^ 64) × ((bitmaps ks).1 < 2 ^ 64)
  bitmaps-lt = mark_fields-lt ks _ 0 h (start-lt (has_secondary ks)) (omega arith)

  pub primary-bytes : from_bytes (to_bytes 8 (bitmaps ks).0) ≡ (bitmaps ks).0
  primary-bytes = from_bytes-to_bytes 8 (bitmaps ks).0 bitmaps-lt.0

  pub secondary-bytes : from_bytes (to_bytes 8 (bitmaps ks).1) ≡ (bitmaps ks).1
  secondary-bytes = from_bytes-to_bytes 8 (bitmaps ks).1 bitmaps-lt.1

  primary_part :
      primary_numbers (bitmaps ks).0 (range_from 0 64) ≡ keep (λ j. mem j ks) (range_from 1 64)
  primary_part = primary_numbers-keep (bitmaps ks).0 (λ j. mem j ks) 0 64 primary_bit (omega arith)

  secondary_part :
      secondary_numbers (bitmaps ks).1 (range_from 0 64) ≡ keep (λ j. mem j ks) (range_from 65 64)
  secondary_part =
      secondary_numbers-keep (bitmaps ks).1 (λ j. mem j ks) 0 64 secondary_bit (omega arith)

  sorted_numbers :
      IsDistinct ks
      → keep (λ j. mem j ks) (range_from 1 64) ++ keep (λ j. mem j ks) (range_from 65 64)
        ≡ sorted ks
  sorted_numbers d =
      keep-range_append (λ j. mem j ks) 1 64 64 ∙ sym (sorted-keep ks 1 128 d (widen ks h))

  decode_either :
      (b : Bool)
      → has_secondary ks ≡ b
      → IsDistinct ks
      → decode_field_numbers (bitmaps ks).0 (if b then to_bytes 8 (bitmaps ks).1 else [])
        ≡ sorted ks
  decode_either true e d =
      with_secondary (bitmaps ks).0 (bitmaps ks).1
      ∙ ap
          (λ s.
            primary_numbers (bitmaps ks).0 (range_from 0 64)
            ++ secondary_numbers s (range_from 0 64))
          secondary-bytes
      ∙ ap₂ ◌++◌ primary_part secondary_part
      ∙ sorted_numbers d
  decode_either false e d =
      without_secondary (bitmaps ks).0
      ∙ ap₂ ◌++◌ primary_part
          (sym (keep-range_none (λ j. mem j ks) 65 64 (λ j u. mem-above ks j e u)))
      ∙ sorted_numbers d

  -- The numbers that the decoder finds are the encoded numbers, in order.
  pub decode_field_numbers-bitmaps :
      IsDistinct ks → decode_field_numbers (bitmaps ks).0 (secondary_bytes ks) ≡ sorted ks
  decode_field_numbers-bitmaps d = decode_either (has_secondary ks) refl d
