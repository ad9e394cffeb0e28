-- ===== src/Telemetry.antt =====
-- `NetworkTelemetry` of app/network_observability.py, and the methods of app/network_flow.py with it. The
-- metrics' client is the list of the label values that each metric was incremented with, oldest first;
-- `elapsed` stands for what `perf_counter` measures. A span
-- is appended as it ends, with the exception that was recorded in it.
pub mod Tally
pub mod Totals
use atlas_pay.Prelude.{
  Error, Result, err, ok, Text, codes, ℕ, Bool, true, false, Option, none, some, List, [], ◌∷◌,
  ◌++◌,
}
use atlas_pay.Iso8583.Spec.{Iso8583Message}
use atlas_pay.Network.Routing.{
  IssuerRoute, route, ReversalReason, timeout_reason, late_response_reason, operator_reason,
}
use atlas_pay.Network.Transport.{
  TransportOutcome, response_outcome, timeout_outcome, failure_outcome,
}
use atlas_pay.Network.Coordinator.{
  TransactionDisposition, disposition_text, Coordinator, handle_response,
}
use atlas_pay.Network.Attempt.{NetworkAttempt, NetworkFlowResult, FlowConfig, FlowState}
use atlas_pay.Network.Flow.{flow_exchange, reason_of, recorded, after_late}

pub record ExchangeObservation : Type 0 where
  pub transport_outcome : Option TransportOutcome
  pub disposition : Option TransactionDisposition
  pub delivery_unknown : Bool
  pub reversal_reason : Option ReversalReason

abbrev pub new_observation : ExchangeObservation
new_observation = record {
  transport_outcome = none;
  disposition = none;
  delivery_unknown = false;
  reversal_reason = none;
}

pub record OutcomeLabels : Type 0 where
  pub route : Text
  pub issuer : Text
  pub transport_outcome : Text
  pub disposition : Text
  pub delivery_unknown : Text

-- The value of a span's attribute: a text, a Boolean, or the name of an exception's class.
pub data Attribute : Type 0 where
  text_attribute : Text → Attribute
  flag_attribute : Bool → Attribute
  class_attribute : Error → Attribute

pub record Span : Type 0 where
  pub name : Text
  pub attributes : List (Text × Attribute)
  pub exception : Option Error

pub record Telemetry : Type 0 where
  pub attempts : List (Text × Text)
  pub outcomes : List OutcomeLabels
  pub latency : List (Text × Text × Text × ℕ)
  pub reversals : List (Text × Text × Text)
  pub spans : List Span

abbrev pub new_telemetry : Telemetry
new_telemetry = record { attempts = []; outcomes = []; latency = []; reversals = []; spans = [] }

abbrev pub outcome_text : TransportOutcome → Text
outcome_text response_outcome = codes "response"
outcome_text timeout_outcome = codes "timeout"
outcome_text failure_outcome = codes "failure"

abbrev pub reason_text : ReversalReason → Text
reason_text timeout_reason = codes "timeout"
reason_text late_response_reason = codes "late_response"
reason_text operator_reason = codes "operator"

-- `carrier.transport_outcome or TransportOutcome.FAILURE`
abbrev pub outcome_or_failure : Option TransportOutcome → TransportOutcome
outcome_or_failure none = failure_outcome
outcome_or_failure (some o) = o

abbrev pub disposition_or_none : Option TransactionDisposition → Text
disposition_or_none none = codes "none"
disposition_or_none (some d) = disposition_text d

abbrev pub flag_text : Bool → Text
flag_text true = codes "true"
flag_text false = codes "false"

-- `observe_exchange` up to its `yield`
unfoldable pub begin_observation : IssuerRoute → Telemetry → Telemetry
begin_observation r t = record t { attempts = t.attempts ++ ((r.name, r.issuer_id) ∷ []) }

unfoldable pub count_reversal :
    IssuerRoute → Option ReversalReason → List (Text × Text × Text) → List (Text × Text × Text)
count_reversal r none counted = counted
count_reversal r (some reason) counted = counted ++ ((r.name, r.issuer_id, reason_text reason) ∷ [])

abbrev pub route_attributes : IssuerRoute → List (Text × Attribute)
route_attributes r =
    (codes "atlaspay.route", text_attribute r.name)
    ∷ (codes "atlaspay.issuer", text_attribute r.issuer_id)
    ∷ []

-- What the `except` block sets.
abbrev pub error_attributes : Option Error → List (Text × Attribute)
error_attributes none = []
error_attributes (some e) = (codes "error.type", class_attribute e) ∷ []

abbrev pub reversal_attributes : Option ReversalReason → List (Text × Attribute)
reversal_attributes none = []
reversal_attributes (some reason) =
    (codes "atlaspay.reversal_reason", text_attribute (reason_text reason)) ∷ []

-- The span of an exchange as it ends, with its attributes in the order in which they were set.
unfoldable pub exchange_span : IssuerRoute → Option Error → Text → ExchangeObservation → Span
exchange_span r raised outcome carrier = record {
  name = codes "atlaspay.authorization.network_exchange";
  attributes =
      route_attributes r
      ++ error_attributes raised
      ++ ((codes "atlaspay.transport_outcome", text_attribute outcome)
          ∷ (codes "atlaspay.disposition", text_attribute (disposition_or_none carrier.disposition))
          ∷ (codes "atlaspay.delivery_unknown", flag_attribute carrier.delivery_unknown)
          ∷ [])
      ++ reversal_attributes carrier.reversal_reason;
  exception = raised;
}

-- The span of a late response.
unfoldable pub late_span : IssuerRoute → TransactionDisposition → Span
late_span r d = record {
  name = codes "atlaspay.authorization.late_response";
  attributes =
      route_attributes r
      ++ ((codes "atlaspay.disposition", text_attribute (disposition_text d)) ∷ []);
  exception = none;
}

-- The `finally` block of `observe_exchange`, which runs whether or not the body raised.
unfoldable pub end_observation :
    IssuerRoute → ℕ → Option Error → ExchangeObservation → Telemetry → Telemetry
end_observation r elapsed raised carrier t =
    let outcome = outcome_text (outcome_or_failure carrier.transport_outcome) in
    record t {
      outcomes =
          t.outcomes
          ++ (record {
            route = r.name;
            issuer = r.issuer_id;
            transport_outcome = outcome;
            disposition = disposition_or_none carrier.disposition;
            delivery_unknown = flag_text carrier.delivery_unknown;
          }
              ∷ []);
      latency = t.latency ++ ((r.name, r.issuer_id, outcome, elapsed) ∷ []);
      reversals = count_reversal r carrier.reversal_reason t.reversals;
      spans = t.spans ++ (exchange_span r raised outcome carrier ∷ []);
    }

unfoldable pub record_late_response : IssuerRoute → TransactionDisposition → Telemetry → Telemetry
record_late_response r d t = record t {
  outcomes =
      t.outcomes
      ++ (record {
        route = r.name;
        issuer = r.issuer_id;
        transport_outcome = codes "async_response";
        disposition = disposition_text d;
        delivery_unknown = codes "false";
      }
          ∷ []);
  spans = t.spans ++ (late_span r d ∷ []);
}

-- The exception that leaves the body.
abbrev pub exception_of : Result NetworkFlowResult → Option Error
exception_of (err e) = some e
exception_of (ok r) = none

-- What `exchange` writes into the carrier: nothing where `_exchange` raises.
unfoldable pub carried : Result NetworkFlowResult → ExchangeObservation
carried (err e) = new_observation
carried (ok r) = record {
  transport_outcome = some r.transport_outcome;
  disposition = r.disposition;
  delivery_unknown = r.delivery_unknown;
  reversal_reason = reason_of r.reversal;
}

-- `AuthorizationNetworkFlow.exchange` with telemetry
unfoldable pub exchange_observed :
    {T P : Type 0}
    → FlowConfig T P
    → NetworkAttempt
    → ℕ
    → ℕ
    → Telemetry
    → FlowState T P
    → Result NetworkFlowResult × FlowState T P × Telemetry
exchange_observed config attempt completed_at elapsed t s =
    let begun = begin_observation attempt.route t in
    let (r, s') = flow_exchange config attempt completed_at s in
    let (answer, s'') = recorded attempt completed_at r s' in
    (answer, s'', end_observation attempt.route elapsed (exception_of r) (carried r) begun)

-- What `handle_late_response` counts once the coordinator has answered, before it records.
unfoldable pub late_counted :
    NetworkAttempt → Result (TransactionDisposition × Coordinator) → Telemetry → Telemetry
late_counted attempt (err e) t = t
late_counted attempt (ok (d, c)) t = record_late_response attempt.route d t

-- `AuthorizationNetworkFlow.handle_late_response` with telemetry
unfoldable pub handle_late_observed :
    {T P : Type 0}
    → NetworkAttempt
    → Iso8583Message
    → ℕ
    → Telemetry
    → FlowState T P
    → Result TransactionDisposition × FlowState T P × Telemetry
handle_late_observed attempt response now t s =
    let answered = handle_response attempt.request response now s.coordinator in
    let (r, s') = after_late attempt now s answered in (r, s', late_counted attempt answered t)
