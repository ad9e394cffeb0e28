-- ===== src/Iso20022.antt =====
-- The ISO 20022 projection of app/iso20022.py. The texts of the losses are not modelled.
pub mod Losses
use atlas_pay.Prelude.{
  value_error, iso20022_error, Result, err, ok, raise_if, ◌>>=◌, ◌>>◌, Text, Bytes, Unicode,
  is_blank, not, Option, none, some, List, [], ◌∷◌,
}
use atlas_pay.Prelude.Int.{ℤ, pos, leb_ℤ}
use atlas_pay.Canonical.{
  NetworkCorrelation, AuthorizationRequest, make_correlation, is_pan, make_instrument, is_currency,
  make_authorization,
}

pub data MappingLossCode : Type 0 where
  icc_data_not_projected stan_is_network_specific : MappingLossCode

pub record Iso20022CardAuthorization : Type 0 where
  pub message_id : Text
  pub transaction_id : Text
  pub amount_minor : ℤ
  pub currency : Text
  pub merchant_id : Text
  pub terminal_id : Text
  pub pan : Text

-- `ISO20022CardAuthorization(...)`, with `__post_init__`
unfoldable pub make_card_authorization :
    Unicode → Iso20022CardAuthorization → Result Iso20022CardAuthorization
make_card_authorization u a = do
  raise_if (is_blank u a.message_id) value_error
  raise_if (is_blank u a.transaction_id) value_error
  raise_if (is_blank u a.merchant_id) value_error
  raise_if (is_blank u a.terminal_id) value_error
  raise_if (leb_ℤ a.amount_minor (pos 0)) value_error
  raise_if (not (is_currency a.currency)) value_error
  raise_if (not (is_pan a.pan)) value_error
  ok a

pub record Iso20022Projection : Type 0 where
  pub authorization : Iso20022CardAuthorization
  pub losses : List MappingLossCode

abbrev pub losses_of : Option Bytes → List MappingLossCode
losses_of none = stan_is_network_specific ∷ []
losses_of (some icc) = stan_is_network_specific ∷ icc_data_not_projected ∷ []

unfoldable pub authorization_to_iso20022 :
    Unicode → AuthorizationRequest → Text → Result Iso20022Projection
authorization_to_iso20022 u request message_id = do
  a ← make_card_authorization u (record {
    message_id = message_id;
    transaction_id = request.correlation.rrn;
    amount_minor = request.amount_minor;
    currency = request.currency;
    merchant_id = request.merchant_id;
    terminal_id = request.terminal_id;
    pan = request.instrument.pan;
  })
  ok (record { authorization = a; losses = losses_of request.instrument.icc_data })

-- `except ValueError`, around constructors that raise nothing else
abbrev pub as_mapping_error {ℓ} : {A : Type ℓ} → Result A → Result A
as_mapping_error (err e) = err iso20022_error
as_mapping_error (ok a) = ok a

-- The request of a message, in the order in which Python builds it.
unfoldable pub request_of :
    Iso20022CardAuthorization → NetworkCorrelation → Result AuthorizationRequest
request_of message correlation = do
  instrument ← make_instrument message.pan none
  make_authorization (record {
    amount_minor = message.amount_minor;
    currency = message.currency;
    merchant_id = message.merchant_id;
    terminal_id = message.terminal_id;
    instrument = instrument;
    correlation = correlation;
  })

unfoldable pub authorization_from_iso20022 :
    Iso20022CardAuthorization → Text → Result AuthorizationRequest
authorization_from_iso20022 message stan = do
  correlation ← as_mapping_error (make_correlation stan message.transaction_id)
  as_mapping_error (request_of message correlation)
