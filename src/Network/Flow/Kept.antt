-- ===== src/Network/Flow/Kept.antt =====
-- Lemmas on the history of a network flow, which `_exchange` leaves alone.
use atlas_pay.Prelude.{
  ltb, Bool-cases, Option-cases, Result, err, ok, text_eq, nat_eq, mem, ℕ, ◌≡◌, refl, inl, inr,
  Bool, true, false, List,
}
use atlas_pay.Iso8583.Spec.{Iso8583Message}
use atlas_pay.Canonical.{NetworkCorrelation, correlation_eq}
use atlas_pay.Network.Routing.{timeout_reason, ReversalLink, ReversalRegistry, link}
use atlas_pay.Network.Transport.{
  TransportOutcome, response_outcome, timeout_outcome, failure_outcome, ExchangeResult,
}
use atlas_pay.Network.Coordinator.{TransactionDisposition, Coordinator}
use atlas_pay.Network.Attempt.{NetworkAttempt, FlowConfig, FlowState}
use atlas_pay.Network.Flow.{
  after_cancel, after_link, after_next, after_expire, after_response, handle_after_expiry,
  on_response, on_outcome, after_adapter, flow_exchange,
}

module _ {T P : Type 0} (config : FlowConfig T P) (attempt : NetworkAttempt) where
  cancel-history :
      (r : ExchangeResult) (s : FlowState T P) (c : Result (Bool × Coordinator))
      → (after_cancel attempt r s c).1.history ≡ s.history
  unfolding after_cancel
  cancel-history r s (err e) = refl
  cancel-history r s (ok (false, c)) = refl
  cancel-history r s (ok (true, c)) = refl

  link-history :
      (r : ExchangeResult) (s : FlowState T P) (l : Result (ReversalLink × ReversalRegistry))
      → (after_link attempt r s l).1.history ≡ s.history
  unfolding after_link
  link-history r s (err e) = refl
  link-history r s (ok (l, g)) = refl

  next-history :
      (r : ExchangeResult) (s : FlowState T P) (k : Result NetworkCorrelation)
      → (after_next attempt r s k).1.history ≡ s.history
  unfolding after_next
  next-history r s (err e) = refl
  next-history r s (ok k) = link-history r s (link attempt.correlation k timeout_reason s.reversals)

  expire-history :
      (r : ExchangeResult) (s : FlowState T P) (c : Result (List NetworkCorrelation × Coordinator))
      → (after_expire config attempt r s c).1.history ≡ s.history
  unfolding after_expire
  expire-history r s (err e) = refl
  expire-history r s (ok (expired, c)) = elim (Bool-cases (mem attempt.correlation expired)) [
    | inl there ↦
        rw there (next-history r _ (config.next_for attempt.correlation attempt.route s.provider).0)
    | inr absent ↦ rw absent refl
  ]

  response-history :
      (s : FlowState T P) (d : Result (TransactionDisposition × Coordinator))
      → (after_response attempt s d).1.history ≡ s.history
  unfolding after_response
  response-history s (err e) = refl
  response-history s (ok (d, c)) = refl

  expiry-history :
      (response : Iso8583Message) (at : ℕ) (s : FlowState T P) (c : Result Coordinator)
      → (handle_after_expiry attempt response at s c).1.history ≡ s.history
  unfolding handle_after_expiry
  expiry-history response at s (err e) = refl
  expiry-history response at s (ok c) = response-history (record s { coordinator = c }) _

  outcome-history :
      (at : ℕ) (r : ExchangeResult) (s : FlowState T P) (o : TransportOutcome)
      → (on_outcome config attempt at r s o).1.history ≡ s.history
  unfolding on_outcome on_response
  outcome-history at r s failure_outcome = cancel-history r s _
  outcome-history at r s timeout_outcome = elim (Bool-cases (ltb at attempt.deadline)) [
    | inl early ↦ rw early refl
    | inr due ↦ rw due (expire-history r s _)
  ]
  outcome-history at r s response_outcome = elim (Option-cases r.response) [
    | inl missing ↦ rw missing refl
    | inr (response, there) ↦ rw there (expiry-history response at s _)
  ]

  adapter-history :
      (at : ℕ) (s : FlowState T P) (r : Result ExchangeResult)
      → (after_adapter config attempt at s r).1.history ≡ s.history
  unfolding after_adapter
  adapter-history at s (err e) = refl
  adapter-history at s (ok r) = outcome-history at r s r.outcome

  -- `_exchange` writes no observation.
  pub flow_exchange-history :
      (at : ℕ) (s : FlowState T P) → (flow_exchange config attempt at s).1.history ≡ s.history
  unfolding flow_exchange
  flow_exchange-history at s = adapter-history at _ _
