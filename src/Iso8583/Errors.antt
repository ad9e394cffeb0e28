-- ===== src/Iso8583/Errors.antt =====
-- Lemmas on the errors of encoding and decoding in app/iso8583.py.
use atlas_pay.Prelude.{
  ltb, leb, if◌then◌else◌, length, slice, any, Error, codec_error, err, ok, raise_if, text_eq, ◌==◌,
  nat_eq, Text, Bytes, is_ascii, is_ascii_digits, ℕ, ◌+◌, ◌≡◌, refl, Bool, true, false, not, ◌&&◌,
  ◌||◌, List, [], ◌∷◌, arith,
}
use atlas_pay.Prelude.Raises.{
  RaisesOnly, returns, raises_bind, raises_after, raises_none, raises_either, error_of, raises_if,
}
use atlas_pay.Prelude.Dict.{Dict, lookup}
use atlas_pay.Iso8583.Spec.{
  DataType, numeric, ans, binary, str_value, FieldSpec, length_prefix_width,
}
use atlas_pay.Iso8583.Field.{
  validate_text_bytes, decode_ascii, int_of_bytes, coerce_decoded, is_fixed, read_prefix_length,
  read_length, read_value, decode_field,
}
use atlas_pay.Iso8583.Bitmap.{decode_field_numbers}
use atlas_pay.Prelude.Bits.{test_bit, from_bytes}
use atlas_pay.Iso8583.Codec.{encode_mti, decode_mti, decode_fields, decode}

text_raises : (t : DataType) (raw : Bytes) → RaisesOnly codec_error (validate_text_bytes t raw)
unfolding validate_text_bytes
text_raises numeric raw = raises_if _
text_raises ans raw = raises_if _
text_raises binary raw = returns _

-- Digits, and printable characters, are ASCII: bytes that were validated can be decoded.
numeric_ascii : (raw : Bytes) → any (λ c. ltb c 48 || ltb 57 c) raw ≡ false → is_ascii raw ≡ true
numeric_ascii [] h = refl
numeric_ascii (c ∷ raw) h = ground (arith, numeric_ascii raw)

printable_ascii : (raw : Bytes) → any (λ c. ltb c 32 || ltb 126 c) raw ≡ false → is_ascii raw ≡ true
printable_ascii [] h = refl
printable_ascii (c ∷ raw) h = ground (arith, printable_ascii raw)

not_raised : (b : Bool) (e : Error) → raise_if b e ≡ ok tt → b ≡ false
not_raised true e h = absurd (ground (arith, h))
not_raised false e h = refl

ascii_raises : (raw : Bytes) → is_ascii raw ≡ true → RaisesOnly codec_error (decode_ascii raw)
unfolding decode_ascii
ascii_raises raw h = rw h (returns raw)

decoded_raises : (t : DataType) (raw : Bytes) → RaisesOnly codec_error (coerce_decoded t raw)
unfolding coerce_decoded validate_text_bytes
decoded_raises numeric raw =
    raises_after (validate_text_bytes numeric raw) (text_raises numeric raw) λ _ valid.
      raises_bind (ascii_raises raw (numeric_ascii raw (not_raised _ codec_error valid)))
        λ text. returns (str_value text)
decoded_raises ans raw = raises_after (validate_text_bytes ans raw) (text_raises ans raw) λ _ valid.
    raises_bind (ascii_raises raw (printable_ascii raw (not_raised _ codec_error valid)))
      λ text. returns (str_value text)
decoded_raises binary raw = returns _

-- The digits of a length prefix are a number.
int_raises :
    (digits : Bytes)
    → raise_if (not (is_ascii_digits digits)) codec_error ≡ ok tt
    → RaisesOnly codec_error (int_of_bytes digits)
unfolding int_of_bytes
int_raises digits h = rw (not_raised (not (is_ascii_digits digits)) codec_error h) (returns _)

prefix_raises :
    (s : FieldSpec) (payload : Bytes) (offset : ℕ)
    → RaisesOnly codec_error (read_prefix_length s payload offset)
unfolding read_prefix_length
prefix_raises s payload offset =
    let end = offset + length_prefix_width s.length_type in
    let digits = slice payload offset end in
    raises_bind (raises_if (ltb (length payload) end)) λ _.
      raises_after (raise_if (not (is_ascii_digits digits)) codec_error)
        (raises_if (not (is_ascii_digits digits)))
        λ _ numeral. raises_bind (int_raises digits numeral) λ n.
          raises_bind (raises_if (not (leb s.min_length n && leb n s.max_length)))
            λ _. returns (n, end)

length_raises :
    (s : FieldSpec) (payload : Bytes) (offset : ℕ)
    → RaisesOnly codec_error (read_length s payload offset)
unfolding read_length
length_raises s payload offset =
    raises_either (is_fixed s.length_type) (returns (s.max_length, offset))
      (prefix_raises s payload offset)

value_raises :
    (s : FieldSpec) (payload : Bytes) (size offset : ℕ)
    → RaisesOnly codec_error (read_value s payload (size, offset))
unfolding read_value
value_raises s payload size offset =
    let stop = offset + size in
    raises_bind (raises_if (ltb (length payload) stop)) λ _.
      raises_bind (decoded_raises s.data_type (slice payload offset stop))
        λ value. returns (value, stop)

field_raises :
    (s : FieldSpec) (payload : Bytes) (offset : ℕ)
    → RaisesOnly codec_error (decode_field s payload offset)
unfolding decode_field
field_raises s payload offset =
    raises_bind (length_raises s payload offset) λ at. value_raises s payload at.0 at.1

fields_raise :
    (specs : Dict ℕ FieldSpec) (raw : Bytes) (offset : ℕ) (numbers : List ℕ)
    → RaisesOnly codec_error (decode_fields specs raw offset numbers)
unfolding decode_fields
fields_raise specs raw offset [] = returns _
fields_raise specs raw offset (n ∷ numbers) =
    let rest = λ (o : ℕ). fields_raise specs raw o numbers in
    raises_bind (raises_none (lookup n specs))
      λ s. raises_bind (field_raises s raw offset) λ next. raises_bind (rest next.1) λ _. returns _

mti_raises : (mti : Text) → RaisesOnly codec_error (encode_mti mti)
unfolding encode_mti
mti_raises mti = raises_bind (raises_if _) λ _. returns _

decoded_mti_raises : (raw : Bytes) → RaisesOnly codec_error (decode_mti raw)
unfolding decode_mti
decoded_mti_raises raw = raises_bind (raises_if _) λ _. raises_bind (mti_raises raw) λ _. returns _

decode-raises : (specs : Dict ℕ FieldSpec) (raw : Bytes) → RaisesOnly codec_error (decode specs raw)
unfolding decode
decode-raises specs raw =
    let primary = from_bytes (slice raw 4 12) in
    let secondary = test_bit primary 63 in
    let stop : ℕ = if secondary then 20 else 12 in
    let numbers = decode_field_numbers primary (if secondary then slice raw 12 20 else []) in
    raises_bind (raises_if (ltb (length raw) 12)) λ _.
      raises_bind (decoded_mti_raises (slice raw 0 4)) λ mti.
        raises_bind (raises_if (ltb (length raw) stop)) λ _.
          raises_bind (fields_raise specs raw stop numbers) λ last.
            raises_bind (raises_if (not (last.1 == length raw)))
              λ _. returns (record { mti = mti; fields = last.0 })

-- Whatever bytes arrive, under any profile, `decode` returns a message or raises
-- `ISO8583CodecError`: no other exception leaves it, as the reading of a length prefix or the decoding
-- of a text might raise.
pub decode-error :
    (specs : Dict ℕ FieldSpec) (raw : Bytes) (e : Error)
    → decode specs raw ≡ err e
    → e ≡ codec_error
decode-error specs raw e h = error_of e (decode-raises specs raw) h
