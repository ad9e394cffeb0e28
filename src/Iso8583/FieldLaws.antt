-- ===== src/Iso8583/FieldLaws.antt =====
-- Lemmas on one field of app/iso8583.py, encoded under a valid spec and decoded.
use mathlib.Core.List.{append_assoc}
use atlas_pay.Prelude.{
  Bool-cases, length, slice, all, length-append, slice-middle, ok, >>=-eq-ok, Bytes, is_digit_byte,
  is_ascii_digits, ℕ, ◌+◌, ◌^◌, ◌≤◌, ◌<◌, ◌≡◌, refl, sym, ap, ◌∙◌, inl, inr, true, false, [], ◌∷◌,
  ◌++◌, arith,
}
use atlas_pay.Prelude.Decimal.{
  format_padded, parse_decimal, parse_decimal-format_padded, length-format_padded,
  format_padded-digits,
}
use atlas_pay.Iso8583.Spec.{
  DataType, LengthType, FieldValue, FieldSpec, make_spec, length_prefix_width,
}
use atlas_pay.Iso8583.Field.{
  coerce_value, coerce_decoded, is_fixed, frame_value, encode_field, read_length, read_value,
  decode_field,
}

-- The spec passes its own `__post_init__`.
abbrev pub IsValidSpec : FieldSpec → Type 0
IsValidSpec s = make_spec s ≡ ok s

-- A value that was accepted for encoding is accepted, unchanged, for decoding.
coerce_decoded-coerce_value :
    (t : DataType) (v : FieldValue) (body : Bytes)
    → coerce_value t v ≡ ok body
    → coerce_decoded t body ≡ ok v
unfolding coerce_value coerce_decoded
coerce_decoded-coerce_value t v body h = ground arith

prefix_fits :
    (s : FieldSpec) (size : ℕ)
    → IsValidSpec s
    → is_fixed s.length_type ≡ false
    → size ≤ s.max_length
    → size < 10 ^ length_prefix_width s.length_type
unfolding make_spec is_fixed length_prefix_width
prefix_fits s size v f h = ground arith

prefix_width : (t : LengthType) → is_fixed t ≡ false → 1 ≤ length_prefix_width t
unfolding is_fixed length_prefix_width
prefix_width t f = ground arith

frame_fixed :
    (s : FieldSpec) (body raw : Bytes)
    → is_fixed s.length_type ≡ true
    → frame_value s body ≡ ok raw
    → (raw ≡ body) × (length body ≡ s.max_length)
unfolding frame_value
frame_fixed s body raw f h = ground arith

frame_variable :
    (s : FieldSpec) (body raw : Bytes)
    → is_fixed s.length_type ≡ false
    → frame_value s body ≡ ok raw
    → (raw ≡ format_padded (length_prefix_width s.length_type) (length body) ++ body)
      × (s.min_length ≤ length body)
      × (length body ≤ s.max_length)
unfolding frame_value
frame_variable s body raw f h = ground arith

-- Reading the value of a known length behind `pre`.
read_value_at :
    (s : FieldSpec) (v : FieldValue) (body pre rest : Bytes) (at : ℕ)
    → coerce_value s.data_type v ≡ ok body
    → at ≡ length pre
    → read_value s (pre ++ (body ++ rest)) (length body, at) ≡ ok (v, at + length body)
unfolding read_value
read_value_at s v body pre rest at c e = ground (
  arith,
  coerce_decoded-coerce_value s.data_type v body c,
  slice-middle pre body rest at (at + length body) e (omega arith),
  length-append pre (body ++ rest),
  length-append body rest,
)

pub digits_are_ascii :
    (digits : Bytes)
    → 1 ≤ length digits
    → all is_digit_byte digits ≡ true
    → is_ascii_digits digits ≡ true
unfolding is_ascii_digits
digits_are_ascii [] h d = absurd (omega arith)
digits_are_ascii (c ∷ cs) h d = d

read_digits :
    (s : FieldSpec) (size offset : ℕ) (payload digits : Bytes)
    → is_fixed s.length_type ≡ false
    → s.min_length ≤ size
    → size ≤ s.max_length
    → slice payload offset (offset + length_prefix_width s.length_type) ≡ digits
    → is_ascii_digits digits ≡ true
    → parse_decimal digits ≡ size
    → offset + length_prefix_width s.length_type ≤ length payload
    → read_length s payload offset ≡ ok (size, offset + length_prefix_width s.length_type)
unfolding read_length
read_digits s size offset payload digits f lo hi cut ascii parsed room = ground arith

read_prefix :
    (s : FieldSpec) (size : ℕ) (pre rest : Bytes)
    → IsValidSpec s
    → is_fixed s.length_type ≡ false
    → s.min_length ≤ size
    → size ≤ s.max_length
    → read_length s
        (pre ++ (format_padded (length_prefix_width s.length_type) size ++ rest))
        (length pre)
      ≡ ok (size, length pre + length_prefix_width s.length_type)
read_prefix s size pre rest v f lo hi =
    let w = length_prefix_width s.length_type in
    let p = format_padded w size in
    let fits : size < 10 ^ w = prefix_fits s size v f hi in
    let width : length p ≡ w = length-format_padded w size fits in
    read_digits s size (length pre) (pre ++ (p ++ rest)) p f lo hi
      (slice-middle pre p rest (length pre) (length pre + w) refl (omega arith))
      (digits_are_ascii p (omega (arith, prefix_width s.length_type f))
        (format_padded-digits w size fits))
      (parse_decimal-format_padded w size fits)
      (omega (arith, length-append pre (p ++ rest), length-append p rest))

decode_by :
    (s : FieldSpec) (payload : Bytes) (offset : ℕ) (at : ℕ × ℕ)
    → read_length s payload offset ≡ ok at
    → decode_field s payload offset ≡ read_value s payload at
unfolding decode_field
decode_by s payload offset at h = rw h refl

read_fixed :
    (s : FieldSpec) (payload : Bytes) (offset : ℕ)
    → is_fixed s.length_type ≡ true
    → read_length s payload offset ≡ ok (s.max_length, offset)
unfolding read_length
read_fixed s payload offset f = rw f refl

module _ (s : FieldSpec) (v : FieldValue) (body pre rest : Bytes) (valid : IsValidSpec s)
    (coerced : coerce_value s.data_type v ≡ ok body) where
  fixed_round_trip :
      is_fixed s.length_type ≡ true
      → length body ≡ s.max_length
      → decode_field s (pre ++ (body ++ rest)) (length pre) ≡ ok (v, length pre + length body)
  fixed_round_trip f size =
      decode_by s _ _ _ (read_fixed s _ _ f)
      ∙ ap (λ n. read_value s (pre ++ (body ++ rest)) (n, length pre)) (sym size)
      ∙ read_value_at s v body pre rest (length pre) coerced refl

  variable_round_trip :
      is_fixed s.length_type ≡ false
      → s.min_length ≤ length body
      → length body ≤ s.max_length
      → let p = format_padded (length_prefix_width s.length_type) (length body) in
        decode_field s (pre ++ ((p ++ body) ++ rest)) (length pre)
        ≡ ok (v, length pre + length (p ++ body))
  variable_round_trip f lo hi =
      let w = length_prefix_width s.length_type in
      let p = format_padded w (length body) in
      let width : length p ≡ w =
        length-format_padded w (length body) (prefix_fits s (length body) valid f hi) in
      let front : length (pre ++ p) ≡ length pre + w =
        length-append pre p ∙ ap (λ n. length pre + n) width in
      let whole : length pre + w + length body ≡ length pre + length (p ++ body) =
        omega (arith, length-append p body) in
      rw (append_assoc p body rest) (
        decode_by s _ _ _ (read_prefix s (length body) pre (body ++ rest) valid f lo hi)
        ∙ ap (λ l. read_value s l (length body, length pre + w))
            (sym (append_assoc pre p (body ++ rest)))
        ∙ read_value_at s v body (pre ++ p) rest (length pre + w) coerced (sym front)
        ∙ ap (λ n. ok (v, n)) whole)

-- An encoded field is read back at its offset, and the next field starts behind it.
pub decode_field-encode_field :
    (s : FieldSpec) (v : FieldValue) (raw pre rest : Bytes)
    → IsValidSpec s
    → encode_field s v ≡ ok raw
    → decode_field s (pre ++ (raw ++ rest)) (length pre) ≡ ok (v, length pre + length raw)
unfolding encode_field
decode_field-encode_field s v raw pre rest valid h =
    let (body, coerced, framed) = >>=-eq-ok (coerce_value s.data_type v) (frame_value s) h in
    elim (Bool-cases (is_fixed s.length_type)) [
      | inl f ↦
          let (e, size) = frame_fixed s body raw f framed in
          rw e (fixed_round_trip s v body pre rest valid coerced f size)
      | inr f ↦
          let (e, lo, hi) = frame_variable s body raw f framed in
          rw e (variable_round_trip s v body pre rest valid coerced f lo hi)
    ]
