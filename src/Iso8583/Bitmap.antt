-- ===== src/Iso8583/Bitmap.antt =====
-- The bitmaps of app/iso8583.py: `_encode_bitmap` and `_decode_field_numbers`.
use atlas_pay.Prelude.{
  ltb, leb, if◌then◌else◌, any, is_empty, ◌==◌, nat_eq, text_eq, Bytes, ℕ, ◌+◌, ◌-◌, Bool, not,
  ◌&&◌, List, [], ◌∷◌, ◌++◌,
}
use atlas_pay.Prelude.Bits.{set_bit, test_bit, to_bytes, from_bytes}
use atlas_pay.Prelude.Sorting.{range_from}

abbrev pub has_secondary : List ℕ → Bool
has_secondary = any (ltb 64)

-- The loop of `_encode_bitmap` over the field numbers, on the two accumulators.
unfoldable pub mark_fields : List ℕ → ℕ → ℕ → ℕ × ℕ
mark_fields [] primary secondary = (primary, secondary)
mark_fields (number ∷ rest) primary secondary =
    mark_fields rest (if leb number 64 then set_bit primary (64 - number) else primary)
      (if leb number 64 then secondary else set_bit secondary (128 - number))

abbrev pub bitmaps : List ℕ → ℕ × ℕ
bitmaps numbers = mark_fields numbers (if has_secondary numbers then set_bit 0 63 else 0) 0

-- The secondary bitmap, if there is one.
abbrev pub secondary_bytes : List ℕ → Bytes
secondary_bytes numbers = if has_secondary numbers then to_bytes 8 (bitmaps numbers).1 else []

unfoldable pub encode_bitmap : List ℕ → Bytes
unfolding mark_fields
encode_bitmap numbers = to_bytes 8 (bitmaps numbers).0 ++ secondary_bytes numbers

-- The first loop of `_decode_field_numbers`, over the bits that are left.
unfoldable pub primary_numbers : ℕ → List ℕ → List ℕ
primary_numbers primary [] = []
primary_numbers primary (bit ∷ bits) =
    let rest = primary_numbers primary bits in
    if test_bit primary (63 - bit) && not (bit + 1 == 1) then (bit + 1) ∷ rest else rest

-- The second loop, over the bits of the secondary bitmap.
unfoldable pub secondary_numbers : ℕ → List ℕ → List ℕ
secondary_numbers secondary [] = []
secondary_numbers secondary (bit ∷ bits) =
    let rest = secondary_numbers secondary bits in
    if test_bit secondary (63 - bit) then (bit + 65) ∷ rest else rest

unfoldable pub decode_field_numbers : ℕ → Bytes → List ℕ
unfolding primary_numbers secondary_numbers
decode_field_numbers primary secondary_raw =
    primary_numbers primary (range_from 0 64)
    ++ (if is_empty secondary_raw
        then []
        else secondary_numbers (from_bytes secondary_raw) (range_from 0 64))
