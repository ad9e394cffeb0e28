-- ===== src/Network/Transport.antt =====
-- The byte-oriented transport boundary of app/network_transport.py. A transport is a parameter: it
-- takes a payload and a timeout, may raise, and keeps a state of its own. Times are natural numbers
-- of ticks.
pub mod Outcomes
use atlas_pay.Prelude.{
  if◌then◌else◌, Error, value_error, codec_error, assertion_error, Result, ok, err, ◌>>=◌, ◌>>◌,
  raise_if, or_raise, ◌==◌, nat_eq, text_eq, Text, Bytes, ℕ, Bool, true, false, not, ◌||◌, Option,
  none, some,
}
use atlas_pay.Prelude.Dict.{Dict, is_some}
use atlas_pay.Iso8583.Spec.{FieldSpec, Iso8583Message}
use atlas_pay.Iso8583.Codec.{encode, decode}

pub data TransportOutcome : Type 0 where
  response_outcome timeout_outcome failure_outcome : TransportOutcome

pub record TransportExchange : Type 0 where
  pub outcome : TransportOutcome
  pub response_payload : Option Bytes
  pub error : Option Text
  pub delivery_unknown : Bool

-- `TransportExchange(...)`, with `__post_init__`
unfoldable pub check_exchange : TransportOutcome → TransportExchange → Result (Unit {0})
check_exchange response_outcome x = do
  raise_if (not (is_some x.response_payload)) value_error
  raise_if (is_some x.error || x.delivery_unknown) value_error
check_exchange timeout_outcome x = do
  raise_if (is_some x.response_payload) value_error
  raise_if (not x.delivery_unknown) value_error
check_exchange failure_outcome x = do
  raise_if (is_some x.response_payload) value_error
  raise_if x.delivery_unknown value_error

unfoldable pub make_exchange : TransportExchange → Result TransportExchange
unfolding check_exchange
make_exchange x = do check_exchange x.outcome x; ok x

-- The text of an error: one that the transport reported, or that of a codec exception.
pub data ErrorNote : Type 0 where
  reported : Text → ErrorNote
  invalid_response : Error → ErrorNote

pub record ExchangeResult : Type 0 where
  pub outcome : TransportOutcome
  pub response : Option Iso8583Message
  pub error : Option ErrorNote
  pub delivery_unknown : Bool

abbrev pub note : Option Text → Option ErrorNote
note none = none
note (some s) = some (reported s)

abbrev pub failure_result : Option ErrorNote → ExchangeResult
failure_result why = record {
  outcome = failure_outcome;
  response = none;
  error = why;
  delivery_unknown = false;
}

-- The `try` around `decode`, with its `except ISO8583CodecError`
unfoldable pub decoded_result : Result Iso8583Message → Result ExchangeResult
decoded_result (ok m) = ok (record {
  outcome = response_outcome;
  response = some m;
  error = none;
  delivery_unknown = false;
})
decoded_result (err codec_error) = ok (failure_result (some (invalid_response codec_error)))
decoded_result (err e) = err e

-- What the adapter makes of the transport's answer.
unfoldable pub interpret :
    Dict ℕ FieldSpec → TransportOutcome → TransportExchange → Result ExchangeResult
unfolding decoded_result
interpret specs timeout_outcome x = ok (record {
  outcome = timeout_outcome;
  response = none;
  error = note x.error;
  delivery_unknown = true;
})
interpret specs failure_outcome x = ok (failure_result (note x.error))
interpret specs response_outcome x = do
  payload ← or_raise x.response_payload assertion_error
  decoded_result (decode specs payload)

abbrev pub Transport : Type 0 → Type 0
Transport T = Bytes → ℕ → T → Result TransportExchange × T

abbrev pub interpret_sent :
    {T : Type 0} → Dict ℕ FieldSpec → Result TransportExchange × T → Result ExchangeResult × T
interpret_sent specs (r, t) = (r >>= λ x. interpret specs x.outcome x, t)

-- The transport is asked only for a request that the codec encodes.
abbrev pub send_encoded :
    {T : Type 0} → Dict ℕ FieldSpec → Transport T → ℕ → T → Result Bytes → Result ExchangeResult × T
send_encoded specs send timeout t (ok payload) = interpret_sent specs (send payload timeout t)
send_encoded specs send timeout t (err e) = (err e, t)

-- `ISO8583NetworkAdapter.exchange`
unfoldable pub exchange :
    {T : Type 0}
    → Dict ℕ FieldSpec
    → Transport T
    → Iso8583Message
    → ℕ
    → T
    → Result ExchangeResult × T
exchange specs send request timeout t =
    if timeout == 0
    then (err value_error, t)
    else send_encoded specs send timeout t (encode specs request)
