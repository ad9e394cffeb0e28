-- ===== src/Canonical.antt =====
-- The payment model of app/canonical.py: what each `__post_init__` accepts. A value of one of these
-- records is one that its constructor has returned.
use atlas_pay.Prelude.{
  leb, length, all, is_empty, value_error, Result, ok, ◌>>◌, raise_if, Eq, ◌==◌, nat_eq,
  list_beq_iff, text_eq, Text, Bytes, is_ascii, is_ascii_digits, is_printable_char, is_upper_char,
  is_alpha_char, ◌≡◌, ◌↔◌, Bool, true, false, not, ◌&&◌, Option, none, some, arith,
}
use atlas_pay.Prelude.Int.{ℤ, pos, leb_ℤ}

pub record NetworkCorrelation : Type 0 where
  pub stan : Text
  pub rrn : Text

unfoldable pub correlation_beq : NetworkCorrelation → NetworkCorrelation → Bool
correlation_beq a b = a.stan == b.stan && a.rrn == b.rrn

pub correlation_beq_iff : (a b : NetworkCorrelation) → (correlation_beq a b ≡ true) ↔ (a ≡ b)
unfolding correlation_beq
correlation_beq_iff a b = ground (arith, list_beq_iff a.stan b.stan, list_beq_iff a.rrn b.rrn)

instance abbrev pub correlation_eq : Eq NetworkCorrelation
correlation_eq = record { beq = correlation_beq; beq_iff = correlation_beq_iff }

pub record CardPaymentInstrument : Type 0 where
  pub pan : Text
  pub icc_data : Option Bytes

pub record AuthorizationRequest : Type 0 where
  pub amount_minor : ℤ
  pub currency : Text
  pub merchant_id : Text
  pub terminal_id : Text
  pub instrument : CardPaymentInstrument
  pub correlation : NetworkCorrelation

unfoldable pub is_stan : Text → Bool
is_stan s = length s == 6 && is_ascii_digits s

unfoldable pub is_rrn : Text → Bool
is_rrn s = length s == 12 && is_ascii s && all is_printable_char s

-- `NetworkCorrelation(stan=..., rrn=...)`
unfoldable pub make_correlation : Text → Text → Result NetworkCorrelation
unfolding is_stan is_rrn
make_correlation stan rrn = do
  raise_if (not (is_stan stan)) value_error
  raise_if (not (is_rrn rrn)) value_error
  ok (record { stan = stan; rrn = rrn })

unfoldable pub is_pan : Text → Bool
is_pan pan = leb 12 (length pan) && leb (length pan) 19 && is_ascii_digits pan

abbrev pub is_empty_icc : Option Bytes → Bool
is_empty_icc none = false
is_empty_icc (some icc) = is_empty icc

-- `CardPaymentInstrument(pan=..., icc_data=...)`
unfoldable pub make_instrument : Text → Option Bytes → Result CardPaymentInstrument
unfolding is_pan
make_instrument pan icc_data = do
  raise_if (not (is_pan pan)) value_error
  raise_if (is_empty_icc icc_data) value_error
  ok (record { pan = pan; icc_data = icc_data })

-- Three ASCII letters, all of them capital: on ASCII letters `s == s.upper()` says no more.
unfoldable pub is_currency : Text → Bool
is_currency s = length s == 3 && is_ascii s && all is_alpha_char s && all is_upper_char s

-- `AuthorizationRequest(...)`
unfoldable pub make_authorization : AuthorizationRequest → Result AuthorizationRequest
unfolding is_currency
make_authorization r = do
  raise_if (leb_ℤ r.amount_minor (pos 0)) value_error
  raise_if (not (is_currency r.currency)) value_error
  raise_if (is_empty r.merchant_id) value_error
  raise_if (is_empty r.terminal_id) value_error
  ok r

-- The request was made by the three constructors.
pub record IsCanonical (r : AuthorizationRequest) : Type 0 where
  pub correlation_ok : make_correlation r.correlation.stan r.correlation.rrn ≡ ok r.correlation
  pub instrument_ok : make_instrument r.instrument.pan r.instrument.icc_data ≡ ok r.instrument
  pub request_ok : make_authorization r ≡ ok r
