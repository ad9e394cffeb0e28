-- ===== src/Network/Flow/Results.antt =====
-- What a result of the flow may say.
use atlas_pay.Prelude.{
  ltb, Bool-cases, Result, err, ok, >>=-eq-ok, text_eq, nat_eq, mem, ℕ, ◌≡◌, ap, inl, inr, Bool,
  true, false, Option, none, some, List, arith,
}
use atlas_pay.Prelude.Dict.{is_some}
use atlas_pay.Canonical.{NetworkCorrelation, correlation_eq}
use atlas_pay.Iso8583.Spec.{Iso8583Message}
use atlas_pay.Network.Routing.{timeout_reason, ReversalLink, link}
use atlas_pay.Network.Transport.{
  TransportOutcome, response_outcome, timeout_outcome, failure_outcome, ExchangeResult,
}
use atlas_pay.Network.Transport.Outcomes.{is_timeout}
use atlas_pay.Network.Coordinator.{TransactionDisposition, timed_out, Coordinator}
use atlas_pay.Network.Attempt.{NetworkAttempt, NetworkFlowResult, FlowConfig, FlowState}
use atlas_pay.Network.Flow.{
  after_cancel, after_link, after_next, after_expire, after_response, handle_after_expiry,
  on_response, on_outcome, after_adapter, flow_exchange, observe, result_row, recorded,
  exchange_recorded,
}

abbrev pub IsDispositionOf : TransportOutcome → Option TransactionDisposition → Type 0
IsDispositionOf timeout_outcome d = d ≡ some timed_out
IsDispositionOf failure_outcome d = d ≡ none
IsDispositionOf response_outcome d = is_some d ≡ true

-- Delivery is unknown, and a reversal is linked, after a timeout and in no other case; the reversal is
-- for the attempt's correlation, by reason of the timeout.
pub record IsFlowResult (attempt : NetworkAttempt) (r : NetworkFlowResult) : Type 0 where
  pub same_route : r.route ≡ attempt.route
  pub unknown_on_timeout : r.delivery_unknown ≡ is_timeout r.transport_outcome
  pub reversal_on_timeout : is_some r.reversal ≡ is_timeout r.transport_outcome
  pub disposition_fits : IsDispositionOf r.transport_outcome r.disposition
  pub reversal_links :
      (l : ReversalLink)
      → r.reversal ≡ some l
      → (l.original ≡ attempt.correlation) × (l.reason ≡ timeout_reason)

module _ {T P : Type 0} (config : FlowConfig T P) (attempt : NetworkAttempt) where
  -- The result of a branch is in order, where the branch has one.
  abbrev pub Keeps : Result NetworkFlowResult × FlowState T P → Type 0
  Keeps x = (r : NetworkFlowResult) → x.0 ≡ ok r → IsFlowResult attempt r

  cancel-Keeps :
      (r : ExchangeResult) (s : FlowState T P) (c : Result (Bool × Coordinator))
      → Keeps (after_cancel attempt r s c)
  unfolding after_cancel
  cancel-Keeps r s (err e) q h = absurd (ground arith)
  cancel-Keeps r s (ok (false, c)) q h = absurd (ground arith)
  cancel-Keeps r s (ok (true, c)) q h = ground arith

  link-Keeps :
      (x : ExchangeResult) (s : FlowState T P) (k : NetworkCorrelation)
      → Keeps (after_link attempt x s (link attempt.correlation k timeout_reason s.reversals))
  unfolding after_link link
  link-Keeps x s k q h = ground arith

  next-Keeps :
      (x : ExchangeResult) (s : FlowState T P) (k : Result NetworkCorrelation)
      → Keeps (after_next attempt x s k)
  unfolding after_next
  next-Keeps x s (err e) q h = absurd (ground arith)
  next-Keeps x s (ok k) q h = link-Keeps x s k q h

  expire-Keeps :
      (x : ExchangeResult) (s : FlowState T P) (e : Result (List NetworkCorrelation × Coordinator))
      → Keeps (after_expire config attempt x s e)
  unfolding after_expire
  expire-Keeps x s (err e) q h = absurd (ground arith)
  expire-Keeps x s (ok (found, c)) q h = elim (Bool-cases (mem attempt.correlation found)) [
    | inl e ↦ next-Keeps x _ _ q (rw e at h)
    | inr e ↦ absurd (ground (arith, e))
  ]

  response-Keeps :
      (m : Option Iso8583Message) (now : ℕ) (s : FlowState T P)
      → Keeps (on_response attempt m now s)
  unfolding on_response handle_after_expiry after_response
  response-Keeps none now s q h = absurd (ground arith)
  response-Keeps (some m) now s q h = ground arith

  outcome-Keeps :
      (now : ℕ) (x : ExchangeResult) (s : FlowState T P) (o : TransportOutcome)
      → Keeps (on_outcome config attempt now x s o)
  unfolding on_outcome
  outcome-Keeps now x s failure_outcome q h = cancel-Keeps x s _ q h
  outcome-Keeps now x s response_outcome q h = response-Keeps x.response now s q h
  outcome-Keeps now x s timeout_outcome q h = elim (Bool-cases (ltb now attempt.deadline)) [
    | inl e ↦ absurd (ground (arith, e))
    | inr e ↦ expire-Keeps x s _ q (rw e at h)
  ]

  adapter-Keeps :
      (now : ℕ) (s : FlowState T P) (x : Result ExchangeResult)
      → Keeps (after_adapter config attempt now s x)
  unfolding after_adapter
  adapter-Keeps now s (err e) q h = absurd (ground arith)
  adapter-Keeps now s (ok x) q h = outcome-Keeps now x s x.outcome q h

  pub flow-Keeps : (now : ℕ) (s : FlowState T P) → Keeps (flow_exchange config attempt now s)
  unfolding flow_exchange
  flow-Keeps now s q h = adapter-Keeps now _ _ q h

  -- A call that returns, returns what `_exchange` returned: the writer adds an exception at most.
  pub recorded-same :
      (now : ℕ) (x : Result NetworkFlowResult) (s : FlowState T P) (r : NetworkFlowResult)
      → (recorded attempt now x s).0 ≡ ok r
      → x ≡ ok r
  unfolding recorded
  recorded-same now (err e) s r h = h
  recorded-same now (ok q) s r h =
      let (done, written, same) =
        >>=-eq-ok (observe (result_row attempt now q) s).0 (λ done. ok q) h in
      same

  -- Whatever the transport, the provider and the writer do, a result of `exchange` says that delivery is unknown,
  -- and links a reversal of the attempt's correlation, exactly after a timeout; the disposition is
  -- `timed_out` after a timeout, none after a local failure, and present after a response.
  pub exchange-IsFlowResult :
      (completed_at : ℕ) (s s' : FlowState T P) (r : NetworkFlowResult)
      → exchange_recorded config attempt completed_at s ≡ (ok r, s')
      → IsFlowResult attempt r
  unfolding exchange_recorded
  exchange-IsFlowResult now s s' r h =
      flow-Keeps now s r
        (recorded-same now _ _ r (ap (λ (p : Result NetworkFlowResult × FlowState T P). p.0) h))
