-- ===== src/Iso8583/Field.antt =====
-- Single fields of app/iso8583.py: `_encode_field`, `_decode_field` and the checks of their values.
use atlas_pay.Prelude.{
  ltb, leb, if◌then◌else◌, length, slice, any, value_error, codec_error, unicode_error, Result, err,
  ok, raise_if, ◌>>=◌, ◌>>◌, text_eq, ◌==◌, nat_eq, Text, Bytes, is_ascii, is_ascii_digits, ℕ, ◌+◌,
  Bool, true, false, not, ◌&&◌, ◌||◌, ◌++◌,
}
use atlas_pay.Prelude.Decimal.{format_padded, parse_decimal}
use atlas_pay.Iso8583.Spec.{
  DataType, numeric, ans, binary, LengthType, fixed, llvar, lllvar, FieldValue, str_value,
  bytes_value, FieldSpec, length_prefix_width,
}

-- `_validate_text_bytes`
unfoldable pub validate_text_bytes : DataType → Bytes → Result (Unit {0})
validate_text_bytes numeric raw = raise_if (any (λ c. ltb c 48 || ltb 57 c) raw) codec_error
validate_text_bytes ans raw = raise_if (any (λ c. ltb c 32 || ltb 126 c) raw) codec_error
validate_text_bytes binary raw = ok tt

-- `_coerce_and_validate_value`
unfoldable pub coerce_value : DataType → FieldValue → Result Bytes
unfolding validate_text_bytes
coerce_value binary (bytes_value raw) = ok raw
coerce_value binary (str_value s) = err codec_error
coerce_value t (bytes_value raw) = err codec_error
coerce_value t (str_value s) = do
  raise_if (not (is_ascii s)) codec_error
  validate_text_bytes t s
  ok s

-- `raw.decode("ascii")`
unfoldable pub decode_ascii : Bytes → Result Text
decode_ascii raw = do raise_if (not (is_ascii raw)) unicode_error; ok raw

-- `int(raw)` on bytes. Signs, spaces and underscores, which `int` takes too, raise here like any other
-- byte that is not a digit.
unfoldable pub int_of_bytes : Bytes → Result ℕ
int_of_bytes raw = do raise_if (not (is_ascii_digits raw)) value_error; ok (parse_decimal raw)

-- `_coerce_and_validate_decoded_value`
unfoldable pub coerce_decoded : DataType → Bytes → Result FieldValue
unfolding validate_text_bytes decode_ascii
coerce_decoded binary raw = ok (bytes_value raw)
coerce_decoded t raw = do validate_text_bytes t raw; text ← decode_ascii raw; ok (str_value text)

unfoldable pub is_fixed : LengthType → Bool
is_fixed fixed = true
is_fixed llvar = false
is_fixed lllvar = false

-- What `_encode_field` writes around a value that has been checked.
unfoldable pub frame_value : FieldSpec → Bytes → Result Bytes
unfolding is_fixed length_prefix_width
frame_value s raw =
    if is_fixed s.length_type
    then (do raise_if (not (length raw == s.max_length)) codec_error; ok raw)
    else do
      raise_if (not (leb s.min_length (length raw) && leb (length raw) s.max_length)) codec_error
      ok (format_padded (length_prefix_width s.length_type) (length raw) ++ raw)

unfoldable pub encode_field : FieldSpec → FieldValue → Result Bytes
unfolding coerce_value frame_value
encode_field s value = do raw ← coerce_value s.data_type value; frame_value s raw

-- The length prefix of a variable field: the length and the offset behind the prefix.
unfoldable pub read_prefix_length : FieldSpec → Bytes → ℕ → Result (ℕ × ℕ)
unfolding length_prefix_width int_of_bytes
read_prefix_length s payload offset = do
  let prefix_end = offset + length_prefix_width s.length_type
  raise_if (ltb (length payload) prefix_end) codec_error
  let digits = slice payload offset prefix_end
  raise_if (not (is_ascii_digits digits)) codec_error
  size ← int_of_bytes digits
  raise_if (not (leb s.min_length size && leb size s.max_length)) codec_error
  ok (size, prefix_end)

-- The length of a field's value and the offset where it starts.
unfoldable pub read_length : FieldSpec → Bytes → ℕ → Result (ℕ × ℕ)
unfolding is_fixed read_prefix_length
read_length s payload offset =
    if is_fixed s.length_type
    then ok (s.max_length, offset)
    else read_prefix_length s payload offset

-- The value of `size` bytes at an offset, and the offset behind it.
unfoldable pub read_value : FieldSpec → Bytes → ℕ × ℕ → Result (FieldValue × ℕ)
unfolding coerce_decoded
read_value s payload (size, offset) = do
  let stop = offset + size
  raise_if (ltb (length payload) stop) codec_error
  value ← coerce_decoded s.data_type (slice payload offset stop)
  ok (value, stop)

unfoldable pub decode_field : FieldSpec → Bytes → ℕ → Result (FieldValue × ℕ)
unfolding read_length read_value
decode_field s payload offset = do at ← read_length s payload offset; read_value s payload at
