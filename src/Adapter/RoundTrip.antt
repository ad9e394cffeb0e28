-- ===== src/Adapter/RoundTrip.antt =====
-- Lemmas on app/network_adapter.py: a canonical request mapped to ISO 8583 and back, in memory and
-- on the wire.
use mathlib.Core.Path.{ap₂, fun_ext}
use atlas_pay.Prelude.{
  Bool-cases, Option-cases, Result, ok, ◌>>=◌, ◌==◌, nat_eq, list_beq, list_beq_iff, text_eq, Text,
  Bytes, codes, is_ascii_digits, ℕ, ◌^◌, ◌≤◌, ◌<◌, ◌≡◌, refl, ◌∙◌, inl, inr, true, false, Option,
  some, ◌∷◌, arith,
}
use atlas_pay.Prelude.Dict.{Dict, keys, lookup}
use atlas_pay.Canonical.{correlation_eq, AuthorizationRequest, make_authorization, IsCanonical}
use atlas_pay.Iso8583.FieldLaws.{digits_are_ascii}
use atlas_pay.Iso8583.Spec.{str_value, FieldSpec, Iso8583Message}
use atlas_pay.Iso8583.Loops.{IsValidProfile}
use atlas_pay.Iso8583.RoundTrip.{decode-encode}
use atlas_pay.Iso8583.Codec.{encode, decode}
use atlas_pay.Adapter.{
  numeric_to_alpha_currency, alpha_to_numeric_currency, view, required_text, icc_value, int_of,
  authorization_from_view, authorization_from_iso8583, format_amount, icc_field,
  authorization_to_iso8583,
}
use atlas_pay.Prelude.Decimal.{
  format_padded, parse_decimal-format_padded, length-format_padded, format_padded-digits,
}
use atlas_pay.Prelude.Int.{ℤ, pos, negsuc, ltb_ℤ, leb_ℤ}
use atlas_pay.Prelude.Sorting.{IsDistinct}

-- The entries of the two currency tables.
data Entry (c n : Text) : Type 0 where
  mad : codes "MAD" ≡ c → codes "504" ≡ n → Entry c n
  usd : codes "USD" ≡ c → codes "840" ≡ n → Entry c n
  eur : codes "EUR" ≡ c → codes "978" ≡ n → Entry c n

currency-Entry : (c n : Text) → lookup c alpha_to_numeric_currency ≡ some n → Entry c n
unfolding lookup
currency-Entry c n h = elim (Bool-cases (codes "MAD" == c)) [
  | inl e ↦ mad ((list_beq_iff (codes "MAD") c).0 e) (ground (arith, e))
  | inr e ↦ elim (Bool-cases (codes "USD" == c)) [
    | inl f ↦ usd ((list_beq_iff (codes "USD") c).0 f) (ground (arith, e, f))
    | inr f ↦ elim (Bool-cases (codes "EUR" == c)) [
      | inl g ↦ eur ((list_beq_iff (codes "EUR") c).0 g) (ground (arith, e, f, g))
      | inr g ↦ absurd (ground (arith, e, f, g))
    ]
  ]
]

-- A currency that has a numeric code is the one that this code stands for.
currency_back : (c n : Text) → Entry c n → lookup n numeric_to_alpha_currency ≡ some c
unfolding lookup list_beq
currency_back c n (mad e f) = rw (← e, ← f) refl
currency_back c n (usd e f) = rw (← e, ← f) refl
currency_back c n (eur e f) = rw (← e, ← f) refl

digits_text : (n : ℕ) → n < 10 ^ 12 → is_ascii_digits (format_padded 12 n) ≡ true
digits_text n h =
    digits_are_ascii (format_padded 12 n) (omega (arith, length-format_padded 12 n h))
      (format_padded-digits 12 n h)

amount_back :
    (other : Text → Result ℤ) (n : ℕ)
    → n ≤ 999999999999
    → int_of other (format_padded 12 n) ≡ ok (pos n)
unfolding int_of
amount_back other n h =
    let fits : n < 10 ^ 12 = omega arith in
    rw (digits_text n fits, parse_decimal-format_padded 12 n fits) refl

-- The message of a request whose currency has the numeric code `n`.
sent : AuthorizationRequest → Text → Iso8583Message
sent r n = record {
  mti = codes "0200";
  fields =
      (2, str_value r.instrument.pan)
      ∷ (3, str_value (codes "000000"))
      ∷ (4, str_value (format_amount r.amount_minor))
      ∷ (11, str_value r.correlation.stan)
      ∷ (37, str_value r.correlation.rrn)
      ∷ (41, str_value r.terminal_id)
      ∷ (42, str_value r.merchant_id)
      ∷ (49, str_value n)
      ∷ icc_field r.instrument.icc_data;
}

record IsSent (r : AuthorizationRequest) (m : Iso8583Message) : Type 0 where
  number : Text
  number_at : lookup r.currency alpha_to_numeric_currency ≡ some number
  in_profile : ltb_ℤ (pos 999999999999) r.amount_minor ≡ false
  message : m ≡ sent r number

to-IsSent :
    (r : AuthorizationRequest) (m : Iso8583Message) → authorization_to_iso8583 r ≡ ok m → IsSent r m
unfolding authorization_to_iso8583 sent
to-IsSent r m h = elim (Option-cases (lookup r.currency alpha_to_numeric_currency)) [
  | inl e ↦ absurd (ground (arith, e))
  | inr (n, e) ↦ record {
    number = n;
    number_at = e;
    in_profile = ground (arith, e);
    message = ground (arith, e);
  }
]

sent_texts :
    (r : AuthorizationRequest) (n : Text)
    → (required_text (view (sent r n)) 3 ≡ ok (codes "000000"))
      × (required_text (view (sent r n)) 4 ≡ ok (format_amount r.amount_minor))
      × (required_text (view (sent r n)) 49 ≡ ok n)
      × (required_text (view (sent r n)) 42 ≡ ok r.merchant_id)
      × (required_text (view (sent r n)) 41 ≡ ok r.terminal_id)
      × (required_text (view (sent r n)) 2 ≡ ok r.instrument.pan)
      × (required_text (view (sent r n)) 11 ≡ ok r.correlation.stan)
      × (required_text (view (sent r n)) 37 ≡ ok r.correlation.rrn)
unfolding sent lookup required_text
sent_texts r n = (refl, refl, refl, refl, refl, refl, refl, refl)

sent_mti : (r : AuthorizationRequest) (n : Text) → list_beq (sent r n).mti (codes "0200") ≡ true
unfolding sent list_beq
sent_mti r n = refl

purchase_code : list_beq (codes "000000") (codes "000000") ≡ true
unfolding list_beq
purchase_code = refl

sent_icc :
    (r : AuthorizationRequest) (n : Text)
    → icc_value (view (sent r n) 55) ≡ ok r.instrument.icc_data
unfolding sent lookup icc_value
sent_icc r n = ground arith

amount_sent :
    (other : Text → Result ℤ) (z : ℤ)
    → leb_ℤ z (pos 0) ≡ false
    → ltb_ℤ (pos 999999999999) z ≡ false
    → int_of other (format_amount z) ≡ ok z
unfolding format_amount
amount_sent other (pos n) lo hi = amount_back other n (ground arith)
amount_sent other (negsuc n) lo hi = absurd (ground arith)

amount_positive :
    (r : AuthorizationRequest) → make_authorization r ≡ ok r → leb_ℤ r.amount_minor (pos 0) ≡ false
unfolding make_authorization
amount_positive r h = ground arith

-- A canonical request comes back from its own ISO 8583 message.
pub from-to :
    (other : Text → Result ℤ) (r : AuthorizationRequest) (m : Iso8583Message)
    → IsCanonical r
    → authorization_to_iso8583 r ≡ ok m
    → authorization_from_iso8583 other m ≡ ok r
unfolding authorization_from_iso8583 authorization_from_view
from-to other r m c h =
    let s = to-IsSent r m h in
    let (t3, t4, t49, t42, t41, t2, t11, t37) = sent_texts r s.number in
    let lo = amount_positive r c.request_ok in
    let back = currency_back r.currency s.number (currency-Entry r.currency s.number s.number_at) in
    rw s.message (
      rw
        (
          sent_mti r s.number,
          t3,
          purchase_code,
          t4,
          amount_sent other r.amount_minor lo s.in_profile,
          lo,
          t49,
          back,
          sent_icc r s.number,
          t42,
          t41,
          t2,
          c.instrument_ok,
          t11,
          t37,
          c.correlation_ok,
        )
        c.request_ok)

sent-IsDistinct :
    (r : AuthorizationRequest) (m : Iso8583Message) → IsSent r m → IsDistinct (keys m.fields)
unfolding sent
sent-IsDistinct r m s = rw s.message (distinct_with r.instrument.icc_data)
  where
    distinct_with :
        (icc : Option Bytes)
        → IsDistinct (2 ∷ 3 ∷ 4 ∷ 11 ∷ 37 ∷ 41 ∷ 42 ∷ 49 ∷ keys (icc_field icc))
    distinct_with icc = ground arith

authorization_from_iso8583-congr :
    (other : Text → Result ℤ) (m m' : Iso8583Message)
    → m'.mti ≡ m.mti
    → ((n : ℕ) → view m' n ≡ view m n)
    → authorization_from_iso8583 other m' ≡ authorization_from_iso8583 other m
unfolding authorization_from_iso8583
authorization_from_iso8583-congr other m m' e h = ap₂ (authorization_from_view other) e (fun_ext h)

-- A canonical request that was mapped and encoded for the wire is read back from the wire: decoding
-- the bytes and mapping the message give the same request.
pub wire_round_trip :
    (other : Text → Result ℤ) (specs : Dict ℕ FieldSpec) (r : AuthorizationRequest)
    (m : Iso8583Message) (raw : Bytes)
    → IsValidProfile specs
    → IsCanonical r
    → authorization_to_iso8583 r ≡ ok m
    → encode specs m ≡ ok raw
    → (decode specs raw >>= authorization_from_iso8583 other) ≡ ok r
wire_round_trip other specs r m raw valid c h e =
    let (d, decoded, same_mti, same_fields) =
      decode-encode specs m raw valid (sent-IsDistinct r m (to-IsSent r m h)) e in
    rw decoded
      (authorization_from_iso8583-congr other m d same_mti same_fields ∙ from-to other r m c h)
