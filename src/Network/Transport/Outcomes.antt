-- ===== src/Network/Transport/Outcomes.antt =====
-- Lemmas on the failure boundaries of the transport adapter.
use atlas_pay.Prelude.{
  Bool-cases, Option-cases, Error, codec_error, Result, ok, err, Result-cases, ◌==◌, nat_eq,
  text_eq, ℕ, ◌≡◌, refl, inl, inr, Bool, true, false, none, arith,
}
use atlas_pay.Prelude.Dict.{Dict, is_some}
use atlas_pay.Iso8583.Spec.{FieldSpec, Iso8583Message}
use atlas_pay.Iso8583.Codec.{encode, decode}
use atlas_pay.Network.Transport.{
  TransportOutcome, response_outcome, timeout_outcome, failure_outcome, TransportExchange,
  check_exchange, make_exchange, ExchangeResult, decoded_result, interpret, Transport, exchange,
}
use atlas_pay.Iso8583.Errors.{decode-error}

abbrev pub is_timeout : TransportOutcome → Bool
is_timeout timeout_outcome = true
is_timeout response_outcome = false
is_timeout failure_outcome = false

abbrev pub is_response : TransportOutcome → Bool
is_response response_outcome = true
is_response timeout_outcome = false
is_response failure_outcome = false

-- What every result says: delivery is unknown after a timeout and in no other case, and there is a
-- response, and no error, for a response outcome and in no other case.
pub record IsClassified (r : ExchangeResult) : Type 0 where
  pub unknown_on_timeout : r.delivery_unknown ≡ is_timeout r.outcome
  pub response_present : is_some r.response ≡ is_response r.outcome
  pub no_error : is_response r.outcome ≡ true → r.error ≡ none

decoded-IsClassified :
    (d : Result Iso8583Message) (r : ExchangeResult) → decoded_result d ≡ ok r → IsClassified r
unfolding decoded_result
decoded-IsClassified (ok m) r h = ground arith
decoded-IsClassified (err codec_error) r h = ground arith
decoded-IsClassified (err e) r h = absurd (ground arith)

interpret-IsClassified :
    (specs : Dict ℕ FieldSpec) (o : TransportOutcome) (x : TransportExchange) (r : ExchangeResult)
    → interpret specs o x ≡ ok r
    → IsClassified r
unfolding interpret
interpret-IsClassified specs timeout_outcome x r h = ground arith
interpret-IsClassified specs failure_outcome x r h = ground arith
interpret-IsClassified specs response_outcome x r h = elim (Option-cases x.response_payload) [
  | inl e ↦ absurd (ground (arith, e))
  | inr (p, e) ↦ decoded-IsClassified (decode specs p) r (ground (arith, e))
]

-- Whatever the transport answers, a result of the adapter says that delivery is unknown exactly
-- after a timeout, and carries a response exactly for a response outcome.
pub exchange-IsClassified :
    (T : Type 0) (specs : Dict ℕ FieldSpec) (send : Transport T) (request : Iso8583Message)
    (timeout : ℕ) (t t' : T) (r : ExchangeResult)
    → exchange specs send request timeout t ≡ (ok r, t')
    → IsClassified r
unfolding exchange
exchange-IsClassified T specs send request timeout t t' r h = elim (Bool-cases (timeout == 0)) [
  | inl z ↦ absurd (ground (arith, z))
  | inr z ↦ elim (Result-cases (encode specs request)) [
    | inr (x, e) ↦ absurd (ground (arith, z, e))
    | inl (payload, e) ↦ elim (Result-cases (send payload timeout t).0) [
      | inr (x, f) ↦ absurd (ground (arith, z, e, f))
      | inl (x, f) ↦ interpret-IsClassified specs x.outcome x r (ground (arith, z, e, f))
    ]
  ]
]

decoded_result_total :
    (d : Result Iso8583Message)
    → ((e : Error) → d ≡ err e → e ≡ codec_error)
    → (r : ExchangeResult) × (decoded_result d ≡ ok r)
unfolding decoded_result
decoded_result_total (ok m) h = (_, refl)
decoded_result_total (err e) h = rw (h e refl) (_, refl)

interpret_by :
    (specs : Dict ℕ FieldSpec) (x : TransportExchange) (o : TransportOutcome)
    → check_exchange o x ≡ ok tt
    → (r : ExchangeResult) × (interpret specs o x ≡ ok r)
unfolding interpret check_exchange
interpret_by specs x timeout_outcome h = (_, refl)
interpret_by specs x failure_outcome h = (_, refl)
interpret_by specs x response_outcome h = elim (Option-cases x.response_payload) [
  | inl e ↦ absurd (ground (arith, e))
  | inr (p, e) ↦
      let (r, f) = decoded_result_total (decode specs p) (decode-error specs p) in
      (r, ground (arith, e, f))
]

checked : (x : TransportExchange) → make_exchange x ≡ ok x → check_exchange x.outcome x ≡ ok tt
unfolding make_exchange
checked x h = ground arith

-- An answer that its constructor has accepted never trips the adapter's assertion, and bytes that
-- do not decode count as a failure: the adapter always makes a result of it.
pub interpret_total :
    (specs : Dict ℕ FieldSpec) (x : TransportExchange)
    → make_exchange x ≡ ok x
    → (r : ExchangeResult) × (interpret specs x.outcome x ≡ ok r)
interpret_total specs x h = interpret_by specs x x.outcome (checked x h)
