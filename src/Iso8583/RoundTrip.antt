-- ===== src/Iso8583/RoundTrip.antt =====
-- Lemmas on decoding an encoded message, for app/iso8583.py.
use mathlib.Core.List.{append_assoc}
use atlas_pay.Prelude.{
  if◌then◌else◌, length, all, length-append, empty_of_length, slice-middle, ok, Result-cases,
  text_eq, nat_eq, mem, Text, Bytes, is_digit_byte, is_ascii, is_ascii_digits, ℕ, ◌+◌, ◌≡◌, refl,
  sym, ap, ◌∙◌, inl, inr, Bool, true, false, List, [], ◌∷◌, ◌++◌, arith,
}
use atlas_pay.Prelude.Bits.{test_bit, to_bytes, from_bytes, length-to_bytes}
use atlas_pay.Prelude.Dict.{Dict, keys, is_some, lookup}
use atlas_pay.Prelude.Sorting.{sorted, IsDistinct}
use atlas_pay.Iso8583.Spec.{FieldValue, FieldSpec, Iso8583Message}
use atlas_pay.Iso8583.Bitmap.{
  has_secondary, bitmaps, secondary_bytes, encode_bitmap, decode_field_numbers,
}
use atlas_pay.Iso8583.BitmapLaws.{bitmap_flag, primary-bytes, decode_field_numbers-bitmaps}
use atlas_pay.Iso8583.Codec.{
  encode_mti, decode_mti, encode_fields, join_fields, encode, decode_fields, decode,
}
use atlas_pay.Iso8583.Loops.{
  IsValidProfile, Encoded, keys-encode_fields, encode_fields-Encoded, pick, lookup-pick,
  decode_fields-join, mem-sorted, mem-keys,
}

digits_below : (s : Text) → all is_digit_byte s ≡ true → is_ascii s ≡ true
digits_below [] h = refl
digits_below (c ∷ s) h = ground (arith, digits_below s)

digits-ascii : (s : Text) → is_ascii_digits s ≡ true → is_ascii s ≡ true
unfolding is_ascii_digits
digits-ascii [] h = refl
digits-ascii (c ∷ s) h = digits_below (c ∷ s) h

-- `decode`, on a payload in its four parts.
decode_parts :
    (specs : Dict ℕ FieldSpec) (mti p secondary body : Bytes) (primary : ℕ) (flag : Bool)
    (fields : Dict ℕ FieldValue)
    → let raw = mti ++ (p ++ (secondary ++ body)) in
      decode_mti mti ≡ ok mti
      → length mti ≡ 4
      → length p ≡ 8
      → length secondary ≡ (if flag then 8 else 0)
      → from_bytes p ≡ primary
      → test_bit primary 63 ≡ flag
      → decode_fields specs raw (12 + length secondary) (decode_field_numbers primary secondary)
        ≡ ok (fields, length raw)
      → decode specs raw ≡ ok (record { mti = mti; fields = fields })
unfolding decode
decode_parts specs mti p secondary body primary true fields m lm lp ls fp tb df =
    let raw = mti ++ (p ++ (secondary ++ body)) in
    let third =
      slice-middle (mti ++ p) secondary body 12 20 (omega (arith, length-append mti p))
        (omega (arith, length-append mti p)) in
    ground (
      arith,
      slice-middle [] mti (p ++ (secondary ++ body)) 0 4 refl (omega arith),
      slice-middle mti p (secondary ++ body) 4 12 (omega arith) (omega arith),
      rw (append_assoc mti p (secondary ++ body)) at third,
      length-append mti (p ++ (secondary ++ body)),
      length-append p (secondary ++ body),
      length-append secondary body,
      rw (ls) at df,
    )
decode_parts specs mti p secondary body primary false fields m lm lp ls fp tb df = ground (
  arith,
  slice-middle [] mti (p ++ (secondary ++ body)) 0 4 refl (omega arith),
  slice-middle mti p (secondary ++ body) 4 12 (omega arith) (omega arith),
  length-append mti (p ++ (secondary ++ body)),
  length-append p (secondary ++ body),
  length-append secondary body,
  empty_of_length secondary ls,
  rw (ls) at df,
)

encode_mti-decode_mti :
    (mti raw : Text)
    → encode_mti mti ≡ ok raw
    → (raw ≡ mti) × (length mti ≡ 4) × (decode_mti mti ≡ ok mti)
unfolding encode_mti decode_mti
encode_mti-decode_mti mti raw h = (ground arith, ground arith, ground (arith, digits-ascii mti))

length-secondary : (ks : List ℕ) → length (secondary_bytes ks) ≡ (if has_secondary ks then 8 else 0)
length-secondary ks = ground (arith, length-to_bytes 8 (bitmaps ks).1)

module _ (specs : Dict ℕ FieldSpec) (mti : Text) (fields : Dict ℕ FieldValue) (d : Dict ℕ Bytes)
    (valid : IsValidProfile specs) (distinct : IsDistinct (keys fields))
    (e : encode_fields specs fields ≡ ok d) where
  good : (n : ℕ) → mem n (sorted (keys d)) ≡ true → Encoded specs fields d n
  good n m =
      encode_fields-Encoded specs fields d n e
        (rw (mem-sorted, (keys-encode_fields specs fields d e).0) at m)

  decode_body :
      (decoded_mti : decode_mti mti ≡ ok mti)
      → length mti ≡ 4
      → decode specs (mti ++ (encode_bitmap (keys d) ++ join_fields d (sorted (keys d))))
        ≡ ok (record { mti = mti; fields = pick fields (sorted (keys d)) })
  unfolding encode_bitmap
  decode_body m lm =
      let ks = keys d in
      let p = to_bytes 8 (bitmaps ks).0 in
      let s = secondary_bytes ks in
      let body = join_fields d (sorted ks) in
      let (ek, in_bounds) = keys-encode_fields specs fields d e in
      let numbers_ok = rw (← ek) at in_bounds in
      let found = decode_field_numbers-bitmaps ks numbers_ok (rw (← ek) at distinct) in
      let loop = decode_fields-join specs fields d (mti ++ (p ++ s)) (sorted ks) valid good in
      let shape : (mti ++ (p ++ s)) ++ body ≡ mti ++ (p ++ (s ++ body)) =
        append_assoc mti (p ++ s) body ∙ ap (λ l. mti ++ l) (append_assoc p s body) in
      let start : length (mti ++ (p ++ s)) ≡ 12 + length s =
        omega (
          arith,
          length-append mti (p ++ s),
          length-append p s,
          length-to_bytes 8 (bitmaps ks).0,
        ) in
      ap (λ l. decode specs (mti ++ l)) (append_assoc p s body)
      ∙ decode_parts specs mti p s body (bitmaps ks).0 (has_secondary ks) (pick fields (sorted ks))
          m lm (length-to_bytes 8 (bitmaps ks).0) (length-secondary ks)
          (primary-bytes ks numbers_ok) (bitmap_flag ks numbers_ok)
          (rw found (rw (shape, start) at loop))

  found_iff : (n : ℕ) → mem n (sorted (keys d)) ≡ is_some (lookup n fields)
  found_iff n =
      mem-sorted n (keys d) ∙ ap (mem n) (keys-encode_fields specs fields d e).0 ∙ mem-keys n fields

  lookup-decoded : (n : ℕ) → lookup n (pick fields (sorted (keys d))) ≡ lookup n fields
  lookup-decoded n =
      lookup-pick fields n (sorted (keys d)) (λ j m. sym (found_iff j) ∙ m)
      ∙ ground (arith, found_iff n)

-- Under a valid profile, every message with distinct field numbers that the codec encodes is
-- decoded to the same MTI and the same fields: the codec loses and invents nothing.
pub decode-encode :
    (specs : Dict ℕ FieldSpec) (message : Iso8583Message) (raw : Bytes)
    → IsValidProfile specs
    → IsDistinct (keys message.fields)
    → encode specs message ≡ ok raw
    → (decoded : Iso8583Message) × (decode specs raw ≡ ok decoded)
      × (decoded.mti ≡ message.mti)
      × ((n : ℕ) → lookup n decoded.fields ≡ lookup n message.fields)
unfolding encode
decode-encode specs message raw valid distinct h = elim (Result-cases (encode_mti message.mti)) [
  | inr (x, e) ↦ absurd (ground (arith, e))
  | inl (mti, em) ↦ elim (Result-cases (encode_fields specs message.fields)) [
    | inr (x, e) ↦ absurd (ground (arith, em, e))
    | inl (d, e) ↦
        let (same, lm, dm) = encode_mti-decode_mti message.mti mti em in
        let body = decode_body specs message.mti message.fields d valid distinct e dm lm in
        (
          record { mti = message.mti; fields = pick message.fields (sorted (keys d)) },
          ground (arith, em, e, same, body),
          refl,
          lookup-decoded specs message.mti message.fields d valid distinct e,
        )
  ]
]
