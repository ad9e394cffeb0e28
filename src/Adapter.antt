-- ===== src/Adapter.antt =====
-- The ISO 8583 adapter of app/iso8583_adapter.py, between messages and the canonical model.
pub mod RoundTrip
use atlas_pay.Prelude.{
  if◌then◌else◌, length, mapping_error, Result, ok, err, ◌>>=◌, ◌>>◌, raise_if, or_raise, ◌==◌,
  nat_eq, text_eq, Text, Bytes, codes, is_ascii_digits, ℕ, suc, Bool, false, not, Option, none,
  some, [], ◌∷◌,
}
use atlas_pay.Prelude.Decimal.{format_padded, parse_decimal}
use atlas_pay.Prelude.Dict.{Dict, lookup}
use atlas_pay.Prelude.Int.{ℤ, pos, negsuc, ltb_ℤ, leb_ℤ}
use atlas_pay.Canonical.{
  NetworkCorrelation, correlation_eq, AuthorizationRequest, make_correlation, make_instrument,
  make_authorization,
}
use atlas_pay.Iso8583.Spec.{numeric, FieldValue, str_value, bytes_value, Iso8583Message}

abbrev pub numeric_to_alpha_currency : Dict Text Text
numeric_to_alpha_currency =
    (codes "504", codes "MAD") ∷ (codes "840", codes "USD") ∷ (codes "978", codes "EUR") ∷ []

-- `{alpha: numeric for numeric, alpha in ...items()}`
abbrev pub invert : Dict Text Text → Dict Text Text
invert [] = []
invert ((number, name) ∷ d) = (name, number) ∷ invert d

abbrev pub alpha_to_numeric_currency : Dict Text Text
alpha_to_numeric_currency = invert numeric_to_alpha_currency

abbrev pub response_mti : Dict Text Text
response_mti =
    (codes "0200", codes "0210") ∷ (codes "0400", codes "0410") ∷ (codes "0800", codes "0810") ∷ []

-- The fields of a message, as its mapping gives them.
abbrev pub View : Type 0
View = ℕ → Option FieldValue

abbrev pub view : Iso8583Message → View
view m n = lookup n m.fields

-- `_required_text`
unfoldable pub required_text : View → ℕ → Result Text
required_text fields number = elim (fields number) [
  | none ↦ err mapping_error
  | some (str_value s) ↦ ok s
  | some (bytes_value b) ↦ err mapping_error
]

-- `message.fields.get(55)`, which must be binary if it is there
unfoldable pub icc_value : Option FieldValue → Result (Option Bytes)
icc_value none = ok none
icc_value (some (bytes_value b)) = ok (some b)
icc_value (some (str_value s)) = err mapping_error

-- `int(text)`: the texts that are not plain ASCII digits are Python's to read.
unfoldable pub int_of : (Text → Result ℤ) → Text → Result ℤ
int_of other s = if is_ascii_digits s then ok (pos (parse_decimal s)) else other s

module _ (other_int : Text → Result ℤ) where
  unfoldable pub authorization_from_view : Text → View → Result AuthorizationRequest
  unfolding int_of icc_value
  authorization_from_view mti fields = do
    raise_if (not (mti == codes "0200")) mapping_error
    processing_code ← required_text fields 3
    raise_if (not (processing_code == codes "000000")) mapping_error
    amount_text ← required_text fields 4
    amount_minor ← int_of other_int amount_text
    raise_if (leb_ℤ amount_minor (pos 0)) mapping_error
    currency_numeric ← required_text fields 49
    currency ← or_raise (lookup currency_numeric numeric_to_alpha_currency) mapping_error
    icc_data ← icc_value (fields 55)
    merchant_id ← required_text fields 42
    terminal_id ← required_text fields 41
    pan ← required_text fields 2
    instrument ← make_instrument pan icc_data
    stan ← required_text fields 11
    rrn ← required_text fields 37
    correlation ← make_correlation stan rrn
    make_authorization (record {
      amount_minor = amount_minor;
      currency = currency;
      merchant_id = merchant_id;
      terminal_id = terminal_id;
      instrument = instrument;
      correlation = correlation;
    })

  unfoldable pub authorization_from_iso8583 : Iso8583Message → Result AuthorizationRequest
  authorization_from_iso8583 m = authorization_from_view m.mti (view m)

-- `f"{n:012d}"`
unfoldable pub format_amount : ℤ → Text
format_amount (pos n) = format_padded 12 n
format_amount (negsuc n) = 45 ∷ format_padded 11 (suc n)

abbrev pub icc_field : Option Bytes → Dict ℕ FieldValue
icc_field none = []
icc_field (some icc) = (55, bytes_value icc) ∷ []

unfoldable pub authorization_to_iso8583 : AuthorizationRequest → Result Iso8583Message
unfolding format_amount
authorization_to_iso8583 r = do
  currency_numeric ← or_raise (lookup r.currency alpha_to_numeric_currency) mapping_error
  raise_if (ltb_ℤ (pos 999999999999) r.amount_minor) mapping_error
  raise_if (not (length r.terminal_id == 8)) mapping_error
  raise_if (not (length r.merchant_id == 15)) mapping_error
  ok (record {
    mti = codes "0200";
    fields =
        (2, str_value r.instrument.pan)
        ∷ (3, str_value (codes "000000"))
        ∷ (4, str_value (format_amount r.amount_minor))
        ∷ (11, str_value r.correlation.stan)
        ∷ (37, str_value r.correlation.rrn)
        ∷ (41, str_value r.terminal_id)
        ∷ (42, str_value r.merchant_id)
        ∷ (49, str_value currency_numeric)
        ∷ icc_field r.instrument.icc_data;
  })

unfoldable pub correlation_key : Iso8583Message → Result NetworkCorrelation
correlation_key m = do
  stan ← required_text (view m) 11
  rrn ← required_text (view m) 37
  make_correlation stan rrn

-- The comparison under `try`: every exception that `correlation_key` raises is a `ValueError`.
unfoldable pub same_key : Result NetworkCorrelation → Result NetworkCorrelation → Bool
same_key (ok a) (ok b) = a == b
same_key (ok a) (err e) = false
same_key (err e) r = false

unfoldable pub correlates_response : Iso8583Message → Iso8583Message → Bool
unfolding same_key
correlates_response request response = elim (lookup request.mti response_mti) [
  | none ↦ false
  | some expected ↦
      if response.mti == expected
      then same_key (correlation_key request) (correlation_key response)
      else false
]
