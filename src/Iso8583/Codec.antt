-- ===== src/Iso8583/Codec.antt =====
-- `ISO8583Codec.encode` and `ISO8583Codec.decode` of app/iso8583.py. `fields` is a mapping, so its
-- numbers are distinct, and each assignment of the loops adds an entry at the end.
use mathlib.Core.Option.{get_or}
use atlas_pay.Prelude.{
  ltb, leb, if◌then◌else◌, length, slice, codec_error, Result, ok, ◌>>=◌, ◌>>◌, raise_if, or_raise,
  ◌==◌, nat_eq, text_eq, Text, Bytes, is_ascii, is_ascii_digits, ℕ, not, ◌&&◌, ◌||◌, List, [], ◌∷◌,
  ◌++◌,
}
use atlas_pay.Prelude.Bits.{test_bit, from_bytes}
use atlas_pay.Prelude.Dict.{Dict, keys, lookup}
use atlas_pay.Prelude.Sorting.{sorted}
use atlas_pay.Iso8583.Spec.{FieldValue, FieldSpec, Iso8583Message}
use atlas_pay.Iso8583.Bitmap.{encode_bitmap, decode_field_numbers}
use atlas_pay.Iso8583.Field.{encode_field, decode_field}

unfoldable pub encode_mti : Text → Result Bytes
encode_mti mti = do
  raise_if (not (length mti == 4) || not (is_ascii_digits mti)) codec_error
  ok mti

unfoldable pub decode_mti : Bytes → Result Text
unfolding encode_mti
decode_mti raw = do raise_if (not (is_ascii raw)) codec_error; _ ← encode_mti raw; ok raw

unfoldable pub validate_field_number : ℕ → Result (Unit {0})
validate_field_number number = raise_if (not (leb 2 number && leb number 128)) codec_error

-- The loop of `encode` over `message.fields.items()`.
unfoldable pub encode_fields : Dict ℕ FieldSpec → Dict ℕ FieldValue → Result (Dict ℕ Bytes)
unfolding validate_field_number
encode_fields specs [] = ok []
encode_fields specs ((number, value) ∷ fields) = do
  validate_field_number number
  s ← or_raise (lookup number specs) codec_error
  raw ← encode_field s value
  rest ← encode_fields specs fields
  ok ((number, raw) ∷ rest)

-- `b"".join(normalized_fields[number] for number in numbers)`
unfoldable pub join_fields : Dict ℕ Bytes → List ℕ → Bytes
join_fields d [] = []
join_fields d (number ∷ numbers) = get_or (lookup number d) [] ++ join_fields d numbers

unfoldable pub encode : Dict ℕ FieldSpec → Iso8583Message → Result Bytes
encode specs message = do
  mti ← encode_mti message.mti
  normalized ← encode_fields specs message.fields
  ok (mti ++ (encode_bitmap (keys normalized) ++ join_fields normalized (sorted (keys normalized))))

-- The loop of `decode` over the field numbers, from an offset.
unfoldable pub decode_fields :
    Dict ℕ FieldSpec → Bytes → ℕ → List ℕ → Result (Dict ℕ FieldValue × ℕ)
decode_fields specs raw offset [] = ok ([], offset)
decode_fields specs raw offset (number ∷ numbers) = do
  s ← or_raise (lookup number specs) codec_error
  (value, next) ← decode_field s raw offset
  (fields, last) ← decode_fields specs raw next numbers
  ok ((number, value) ∷ fields, last)

unfoldable pub decode : Dict ℕ FieldSpec → Bytes → Result Iso8583Message
unfolding decode_mti decode_fields
decode specs raw = do
  raise_if (ltb (length raw) 12) codec_error
  mti ← decode_mti (slice raw 0 4)
  let primary = from_bytes (slice raw 4 12)
  let secondary = test_bit primary 63
  let bitmap_end : ℕ = if secondary then 20 else 12
  raise_if (ltb (length raw) bitmap_end) codec_error
  let numbers = decode_field_numbers primary (if secondary then slice raw 12 20 else [])
  (fields, offset) ← decode_fields specs raw bitmap_end numbers
  raise_if (not (offset == length raw)) codec_error
  ok (record { mti = mti; fields = fields })
