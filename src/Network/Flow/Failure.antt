-- ===== src/Network/Flow/Failure.antt =====
-- What a local failure leaves behind.
use atlas_pay.Prelude.{
  ltb, if◌then◌else◌, Bool-cases, Result, err, ok, Result-cases, text_eq, ◌==◌, nat_eq, ℕ, ◌≡◌,
  refl, sym, ap, ◌∙◌, inl, inr, Bool, true, false, Option, none, some, List, arith,
}
use atlas_pay.Prelude.Dict.{lookup-erase, contains-lookup}
use atlas_pay.Canonical.{NetworkCorrelation, correlation_beq_iff, correlation_eq}
use atlas_pay.Adapter.{correlation_key}
use atlas_pay.Iso8583.Spec.{Iso8583Message}
use atlas_pay.Network.Transport.{
  exchange as transport_exchange, TransportOutcome, response_outcome, timeout_outcome,
  failure_outcome, ExchangeResult,
}
use atlas_pay.Network.Coordinator.{Coordinator, cancel, expire}
use atlas_pay.Network.Coordinator.Phases.{unused, phase}
use atlas_pay.Network.Coordinator.Reachable.{IsConsistent}
use atlas_pay.Network.Attempt.{NetworkAttempt, NetworkFlowResult, FlowConfig, FlowState}
use atlas_pay.Network.Flow.Results.{recorded-same}
use atlas_pay.Network.Flow.{
  after_cancel, after_link, after_next, after_expire, after_response, handle_after_expiry,
  on_response, on_outcome, after_adapter, flow_exchange, observe, recorded, exchange_recorded,
}
use atlas_pay.Network.Routing.{ReversalRegistry}

-- A transaction that is taken back is unused, as before its registration.
pub cancel-phase :
    (request : Iso8583Message) (c c' : Coordinator) (key k : NetworkCorrelation)
    → IsConsistent c
    → correlation_key request ≡ ok key
    → cancel request c ≡ ok (true, c')
    → phase c' k ≡ (if key == k then unused else phase c k)
unfolding cancel phase
cancel-phase request c c' key k h e f = ground (
  arith,
  e,
  lookup-erase key k c.pending,
  contains-lookup key c.pending,
  contains-lookup k c.pending,
  h.completed_apart k,
  h.timed_out_apart k,
  correlation_beq_iff key k,
  correlation_beq_iff k key,
)

module _ {T P : Type 0} (config : FlowConfig T P) (attempt : NetworkAttempt) where
  -- The attempt's correlation is unused again, and the reversals are as they were.
  pub record IsTakenBack (c : Coordinator) (g : ReversalRegistry) (s' : FlowState T P)
      : Type 0 where
    pub unused_again : phase s'.coordinator attempt.correlation ≡ unused
    pub others_kept :
        (k : NetworkCorrelation)
        → (attempt.correlation == k) ≡ false
        → phase s'.coordinator k ≡ phase c k
    pub reversals_kept : s'.reversals ≡ g

  abbrev Cancels : FlowState T P → Result NetworkFlowResult × FlowState T P → Type 0
  Cancels s x =
      (r : NetworkFlowResult)
      → x.0 ≡ ok r
      → r.transport_outcome ≡ failure_outcome
      → IsTakenBack s.coordinator s.reversals x.1

  cancel-Cancels :
      (x : ExchangeResult) (s : FlowState T P)
      → IsConsistent s.coordinator
      → correlation_key attempt.request ≡ ok attempt.correlation
      → Cancels s (after_cancel attempt x s (cancel attempt.request s.coordinator))
  unfolding after_cancel
  cancel-Cancels x s c e r h o = elim (Result-cases (cancel attempt.request s.coordinator)) [
    | inr (y, f) ↦ absurd (ground (arith, f))
    | inl (found, f) ↦ taken found.0 found.1 f
  ]
    where
      taken :
          (b : Bool) (c' : Coordinator)
          → cancel attempt.request s.coordinator ≡ ok (b, c')
          → IsTakenBack s.coordinator s.reversals
              (after_cancel attempt x s (cancel attempt.request s.coordinator)).1
      taken false c' f = absurd (ground (arith, f))
      taken true c' f = rw f (record {
        unused_again =
            cancel-phase attempt.request s.coordinator c' attempt.correlation attempt.correlation c
              e f
            ∙ ground (arith, correlation_beq_iff attempt.correlation attempt.correlation);
        others_kept = λ k differ.
            cancel-phase attempt.request s.coordinator c' attempt.correlation k c e f
            ∙ rw differ refl;
        reversals_kept = refl;
      })

  no_failure_response :
      (m : Option Iso8583Message) (now : ℕ) (s : FlowState T P)
      → Cancels s (on_response attempt m now s)
  unfolding on_response handle_after_expiry after_response
  no_failure_response none now s r h t = absurd (ground arith)
  no_failure_response (some m) now s r h t = absurd (ground arith)

  no_failure_timeout :
      (x : ExchangeResult) (s : FlowState T P) (e : Result (List NetworkCorrelation × Coordinator))
      → Cancels s (after_expire config attempt x s e)
  unfolding after_expire after_next after_link
  no_failure_timeout x s e r h t = absurd (ground arith)

  outcome-Cancels :
      (now : ℕ) (x : ExchangeResult) (s : FlowState T P) (o : TransportOutcome)
      → IsConsistent s.coordinator
      → correlation_key attempt.request ≡ ok attempt.correlation
      → Cancels s (on_outcome config attempt now x s o)
  unfolding on_outcome
  outcome-Cancels now x s failure_outcome c e r h t = cancel-Cancels x s c e r h t
  outcome-Cancels now x s response_outcome c e r h t = no_failure_response x.response now s r h t
  outcome-Cancels now x s timeout_outcome c e r h t = elim (Bool-cases (ltb now attempt.deadline)) [
    | inl z ↦ absurd (ground (arith, z))
    | inr z ↦ rw z (no_failure_timeout x s (expire now s.coordinator) r (rw z at h) t)
  ]

  adapter-Cancels :
      (now : ℕ) (s : FlowState T P) (x : Result ExchangeResult)
      → IsConsistent s.coordinator
      → correlation_key attempt.request ≡ ok attempt.correlation
      → Cancels s (after_adapter config attempt now s x)
  unfolding after_adapter
  adapter-Cancels now s (err y) c e r h t = absurd (ground arith)
  adapter-Cancels now s (ok x) c e r h t = outcome-Cancels now x s x.outcome c e r h t

  recorded-Cancels :
      (now : ℕ) (x : Result NetworkFlowResult) (s s2 : FlowState T P)
      → Cancels s (x, s2)
      → Cancels s (recorded attempt now x s2)
  unfolding recorded observe
  recorded-Cancels now (err e) s s2 k r h t = absurd (ground arith)
  recorded-Cancels now (ok y) s s2 k r h t =
      let w = k r (recorded-same config attempt now (ok y) s2 r h) t in
      record {
        unused_again = w.unused_again;
        others_kept = w.others_kept;
        reversals_kept = w.reversals_kept;
      }

  -- After a local failure that `exchange` reports, from a consistent coordinator and for an
  -- attempt whose correlation is that of its request, the correlation is unused, so that it may
  -- be registered again; no other correlation has moved, and no reversal has been linked.
  pub failure-IsTakenBack :
      (completed_at : ℕ) (s s' : FlowState T P) (r : NetworkFlowResult)
      → IsConsistent s.coordinator
      → correlation_key attempt.request ≡ ok attempt.correlation
      → exchange_recorded config attempt completed_at s ≡ (ok r, s')
      → r.transport_outcome ≡ failure_outcome
      → IsTakenBack s.coordinator s.reversals s'
  unfolding exchange_recorded flow_exchange
  failure-IsTakenBack now s s' r c e h t =
      let (sent, t') =
        transport_exchange config.specs config.send attempt.request attempt.timeout_seconds
          s.transport in
      let s₁ : FlowState T P = record s { transport = t' } in
      let whole = recorded-Cancels now _ s₁ _ (adapter-Cancels now s₁ sent c e) in
      by_state (ap (λ (p : Result NetworkFlowResult × FlowState T P). p.1) h)
        (whole r (ap (λ (p : Result NetworkFlowResult × FlowState T P). p.0) h) t)
    where
      by_state :
          {a b : FlowState T P}
          → a ≡ b
          → IsTakenBack s.coordinator s.reversals a
          → IsTakenBack s.coordinator s.reversals b
      by_state eq w = rw (sym eq) w
