-- ===== src/Network/Flow.antt =====
-- `AuthorizationNetworkFlow` of app/network_flow.py. The state joins those of the parts; an exception
-- that leaves a method keeps the changes made before it. The transport and the provider of reversal
-- correlations are parameters, each with a state of its own. Telemetry is not modelled.
pub mod Results
pub mod Timeout
pub mod Failure
pub mod Kept
use atlas_pay.Prelude.{
  ltb, leb, if◌then◌else◌, value_error, assertion_error, Result, err, ok, raise_if, ◌>>=◌, ◌>>◌,
  text_eq, ◌==◌, nat_eq, mem, ℕ, ◌+◌, ◌-◌, ◌*◌, Bool, true, false, not, Option, none, some, List,
}
use atlas_pay.Canonical.{NetworkCorrelation, correlation_eq, AuthorizationRequest}
use atlas_pay.Adapter.{correlation_key}
use atlas_pay.Iso8583.Spec.{Iso8583Message}
use atlas_pay.Network.Routing.{
  route as find_route, ReversalReason, timeout_reason, ReversalLink, ReversalRegistry, link,
}
use atlas_pay.Network.Transport.{
  exchange as transport_exchange, TransportOutcome, response_outcome, timeout_outcome,
  failure_outcome, ExchangeResult,
}
use atlas_pay.Network.Coordinator.{
  TransactionDisposition, timed_out, Coordinator, register, cancel, expire, handle_response,
}
use atlas_pay.Network.Attempt.{NetworkAttempt, NetworkFlowResult, FlowConfig, FlowState}
use atlas_pay.Network.History.{NetworkObservation, record_observation}

-- `start`; where it raises it has changed nothing.
unfoldable pub start :
    {T P : Type 0}
    → FlowConfig T P
    → AuthorizationRequest
    → Iso8583Message
    → ℕ
    → ℕ
    → FlowState T P
    → Result (NetworkAttempt × FlowState T P)
start config canonical request now timeout s = do
  wire ← correlation_key request
  raise_if (not (wire == canonical.correlation)) value_error
  r ← find_route config.routes canonical
  (key, c) ← register request now timeout s.coordinator
  let attempt : NetworkAttempt = record {
    route = r;
    request = request;
    correlation = key;
    started_at = now;
    deadline = now + timeout;
    timeout_seconds = timeout;
  }
  ok (attempt, record s { coordinator = c })

-- The branch of `_exchange` for a local failure, given what `cancel` returns.
unfoldable pub after_cancel :
    {T P : Type 0}
    → NetworkAttempt
    → ExchangeResult
    → FlowState T P
    → Result (Bool × Coordinator)
    → Result NetworkFlowResult × FlowState T P
after_cancel attempt r s (err e) = (err e, s)
after_cancel attempt r s (ok (false, c)) = (err value_error, record s { coordinator = c })
after_cancel attempt r s (ok (true, c)) = (
  ok (record {
    route = attempt.route;
    transport_outcome = failure_outcome;
    disposition = none;
    delivery_unknown = false;
    reversal = none;
    error = r.error;
  }),
  record s { coordinator = c },
)

-- The branch for a timeout, given what `link` returns.
unfoldable pub after_link :
    {T P : Type 0}
    → NetworkAttempt
    → ExchangeResult
    → FlowState T P
    → Result (ReversalLink × ReversalRegistry)
    → Result NetworkFlowResult × FlowState T P
after_link attempt r s (err e) = (err e, s)
after_link attempt r s (ok (l, g)) = (
  ok (record {
    route = attempt.route;
    transport_outcome = timeout_outcome;
    disposition = some timed_out;
    delivery_unknown = true;
    reversal = some l;
    error = r.error;
  }),
  record s { reversals = g },
)

-- The branch for a timeout, given what `next_for` returns.
unfoldable pub after_next :
    {T P : Type 0}
    → NetworkAttempt
    → ExchangeResult
    → FlowState T P
    → Result NetworkCorrelation
    → Result NetworkFlowResult × FlowState T P
after_next attempt r s (err e) = (err e, s)
after_next attempt r s (ok reversal) =
    after_link attempt r s (link attempt.correlation reversal timeout_reason s.reversals)

-- The branch for a timeout, given what `expire` returns.
unfoldable pub after_expire :
    {T P : Type 0}
    → FlowConfig T P
    → NetworkAttempt
    → ExchangeResult
    → FlowState T P
    → Result (List NetworkCorrelation × Coordinator)
    → Result NetworkFlowResult × FlowState T P
after_expire config attempt r s (err e) = (err e, s)
after_expire config attempt r s (ok (expired, c)) =
    if not (mem attempt.correlation expired)
    then (err value_error, record s { coordinator = c })
    else (let (reversal, p) = config.next_for attempt.correlation attempt.route s.provider in
        after_next attempt r (record s { coordinator = c; provider = p }) reversal)

-- The branch for a response, given what `handle_response` returns.
unfoldable pub after_response :
    {T P : Type 0}
    → NetworkAttempt
    → FlowState T P
    → Result (TransactionDisposition × Coordinator)
    → Result NetworkFlowResult × FlowState T P
after_response attempt s (err e) = (err e, s)
after_response attempt s (ok (d, c)) = (
  ok (record {
    route = attempt.route;
    transport_outcome = response_outcome;
    disposition = some d;
    delivery_unknown = false;
    reversal = none;
    error = none;
  }),
  record s { coordinator = c },
)

-- `if completed_at >= attempt.deadline: expire`, as its effect on the coordinator.
unfoldable pub expire_past : NetworkAttempt → ℕ → Coordinator → Result Coordinator
expire_past attempt completed_at c =
    if leb attempt.deadline completed_at
    then (expire completed_at c >>= λ (found, c'). ok c')
    else ok c

unfoldable pub handle_after_expiry :
    {T P : Type 0}
    → NetworkAttempt
    → Iso8583Message
    → ℕ
    → FlowState T P
    → Result Coordinator
    → Result NetworkFlowResult × FlowState T P
handle_after_expiry attempt response completed_at s (err e) = (err e, s)
handle_after_expiry attempt response completed_at s (ok c) =
    after_response attempt (record s { coordinator = c })
      (handle_response attempt.request response completed_at c)

unfoldable pub on_response :
    {T P : Type 0}
    → NetworkAttempt
    → Option Iso8583Message
    → ℕ
    → FlowState T P
    → Result NetworkFlowResult × FlowState T P
on_response attempt none completed_at s = (err assertion_error, s)
on_response attempt (some response) completed_at s =
    handle_after_expiry attempt response completed_at s
      (expire_past attempt completed_at s.coordinator)

-- What `_exchange` does with the adapter's result.
unfoldable pub on_outcome :
    {T P : Type 0}
    → FlowConfig T P
    → NetworkAttempt
    → ℕ
    → ExchangeResult
    → FlowState T P
    → TransportOutcome
    → Result NetworkFlowResult × FlowState T P
on_outcome config attempt completed_at r s failure_outcome =
    after_cancel attempt r s (cancel attempt.request s.coordinator)
on_outcome config attempt completed_at r s timeout_outcome =
    if ltb completed_at attempt.deadline
    then (err value_error, s)
    else after_expire config attempt r s (expire completed_at s.coordinator)
on_outcome config attempt completed_at r s response_outcome =
    on_response attempt r.response completed_at s

unfoldable pub after_adapter :
    {T P : Type 0}
    → FlowConfig T P
    → NetworkAttempt
    → ℕ
    → FlowState T P
    → Result ExchangeResult
    → Result NetworkFlowResult × FlowState T P
after_adapter config attempt completed_at s (err e) = (err e, s)
after_adapter config attempt completed_at s (ok r) =
    on_outcome config attempt completed_at r s r.outcome

-- `_exchange`
unfoldable pub flow_exchange :
    {T P : Type 0}
    → FlowConfig T P
    → NetworkAttempt
    → ℕ
    → FlowState T P
    → Result NetworkFlowResult × FlowState T P
flow_exchange config attempt completed_at s =
    let (r, t) =
      transport_exchange config.specs config.send attempt.request attempt.timeout_seconds
        s.transport in
    after_adapter config attempt completed_at (record s { transport = t }) r

-- `result.reversal.reason if result.reversal is not None else None`
abbrev pub reason_of : Option ReversalLink → Option ReversalReason
reason_of none = none
reason_of (some l) = some l.reason

-- The observation that `_record` writes: a clock that runs backwards counts as no latency.
abbrev pub observation_of :
    NetworkAttempt
    → TransportOutcome
    → Option TransactionDisposition
    → Bool
    → ℕ
    → Option ReversalReason
    → NetworkObservation
observation_of attempt outcome d unknown completed_at reason = record {
  route = attempt.route;
  transport_outcome = outcome;
  disposition = d;
  delivery_unknown = unknown;
  latency_ms = (completed_at - attempt.started_at) * 1000;
  reversal_reason = reason;
}

-- `_record`
unfoldable pub observe :
    {T P : Type 0} → NetworkObservation → FlowState T P → Result (Unit {0}) × FlowState T P
observe o s =
    let (written, history) = record_observation o s.history in
    (written, record s { history = history })

-- The observation of a result.
abbrev pub result_row : NetworkAttempt → ℕ → NetworkFlowResult → NetworkObservation
result_row attempt completed_at r =
    observation_of attempt r.transport_outcome r.disposition r.delivery_unknown completed_at
      (reason_of r.reversal)

-- The observation of a late response.
abbrev pub late_row : NetworkAttempt → ℕ → TransactionDisposition → NetworkObservation
late_row attempt now d = observation_of attempt response_outcome (some d) false now none

-- The rest of `exchange`: a result is recorded, an exception is not; the writer may raise.
unfoldable pub recorded :
    {T P : Type 0}
    → NetworkAttempt
    → ℕ
    → Result NetworkFlowResult
    → FlowState T P
    → Result NetworkFlowResult × FlowState T P
recorded attempt completed_at (err e) s = (err e, s)
recorded attempt completed_at (ok r) s =
    let (written, s') = observe (result_row attempt completed_at r) s in
    (written >>= λ done. ok r, s')

-- `exchange`
unfoldable pub exchange_recorded :
    {T P : Type 0}
    → FlowConfig T P
    → NetworkAttempt
    → ℕ
    → FlowState T P
    → Result NetworkFlowResult × FlowState T P
exchange_recorded config attempt completed_at s =
    let (r, s') = flow_exchange config attempt completed_at s in recorded attempt completed_at r s'

-- `handle_late_response` once the coordinator has answered: the writer may raise when the
-- coordinator has changed.
unfoldable pub after_late :
    {T P : Type 0}
    → NetworkAttempt
    → ℕ
    → FlowState T P
    → Result (TransactionDisposition × Coordinator)
    → Result TransactionDisposition × FlowState T P
after_late attempt now s (err e) = (err e, s)
after_late attempt now s (ok (d, c)) =
    let (written, s') = observe (late_row attempt now d) (record s { coordinator = c }) in
    (written >>= λ done. ok d, s')

-- `handle_late_response`
unfoldable pub handle_late_response :
    {T P : Type 0}
    → NetworkAttempt
    → Iso8583Message
    → ℕ
    → FlowState T P
    → Result TransactionDisposition × FlowState T P
handle_late_response attempt response now s =
    after_late attempt now s (handle_response attempt.request response now s.coordinator)
