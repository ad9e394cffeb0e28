-- ===== src/Network/Flow/Timeout.antt =====
-- What a timeout leaves behind, and what becomes of the response that comes too late.
use atlas_pay.Prelude.{
  ltb, Bool-cases, Result, err, ok, ◌>>=◌, Result-cases, text_eq, nat_eq, mem, ℕ, ◌≡◌, refl, sym,
  ap, ◌∙◌, inl, inr, Bool, true, false, Option, none, some, arith,
}
use atlas_pay.Prelude.Dict.{lookup-insert}
use atlas_pay.Canonical.{NetworkCorrelation, correlation_beq_iff, correlation_eq}
use atlas_pay.Adapter.{correlation_key, correlates_response}
use atlas_pay.Iso8583.Spec.{Iso8583Message}
use atlas_pay.Network.Routing.{
  ReversalReason, timeout_reason, ReversalLink, ReversalRegistry, link, for_original,
}
use atlas_pay.Network.Transport.{
  TransportOutcome, response_outcome, timeout_outcome, failure_outcome, ExchangeResult,
}
use atlas_pay.Network.Coordinator.{
  TransactionDisposition, late, duplicate, Coordinator, expire, handle_key, handle_response,
}
use atlas_pay.Network.Coordinator.Phases.{
  Phase, unused, settled, expired_phase, waiting, phase, respond, handle_key-phase,
}
use atlas_pay.Network.Coordinator.Reachable.{IsConsistent}
use atlas_pay.Network.Coordinator.Expiry.{expire_phase, phase_is_due, expire-phase}
use atlas_pay.Network.History.{NetworkObservation, History, next_write, record_observation}
use atlas_pay.Network.Attempt.{NetworkAttempt, NetworkFlowResult, FlowConfig, FlowState}
use atlas_pay.Network.Flow.Results.{recorded-same}
use atlas_pay.Network.Flow.{
  after_cancel, after_link, after_next, after_expire, after_response, handle_after_expiry,
  on_response, on_outcome, after_adapter, flow_exchange, observe, late_row, recorded,
  exchange_recorded, after_late, handle_late_response,
}

due-expired : (now : ℕ) (p : Phase) → phase_is_due now p ≡ true → expire_phase now p ≡ expired_phase
due-expired now (waiting d) h = ground arith
due-expired now unused h = absurd (ground arith)
due-expired now settled h = absurd (ground arith)
due-expired now expired_phase h = absurd (ground arith)

-- The registry has the result's link, and the attempt's correlation has timed out.
pub record IsTimedOut {T P : Type 0} (k : NetworkCorrelation) (r : NetworkFlowResult)
    (s : FlowState T P) : Type 0 where
  pub linked : for_original k s.reversals ≡ r.reversal
  pub expired : phase s.coordinator k ≡ expired_phase

module _ {T P : Type 0} (config : FlowConfig T P) (attempt : NetworkAttempt) where
  abbrev Reverses : Result NetworkFlowResult × FlowState T P → Type 0
  Reverses x =
      (r : NetworkFlowResult)
      → x.0 ≡ ok r
      → r.transport_outcome ≡ timeout_outcome
      → IsTimedOut attempt.correlation r x.1

  for_original-link :
      (o r : NetworkCorrelation) (why : ReversalReason) (g g' : ReversalRegistry) (l : ReversalLink)
      → link o r why g ≡ ok (l, g')
      → for_original o g' ≡ some l
  unfolding link for_original
  for_original-link o r why g g' l h =
      ground (arith, lookup-insert o o l g.by_original, correlation_beq_iff o o)

  link-Reverses :
      (x : ExchangeResult) (s : FlowState T P) (k : NetworkCorrelation)
      → phase s.coordinator attempt.correlation ≡ expired_phase
      → Reverses (after_link attempt x s (link attempt.correlation k timeout_reason s.reversals))
  unfolding after_link
  link-Reverses x s k p r h t =
      elim (Result-cases (link attempt.correlation k timeout_reason s.reversals)) [
        | inr (e, f) ↦ absurd (ground (arith, f))
        | inl (lg, f) ↦ rw f (record {
          linked = ground (
            arith,
            f,
            for_original-link attempt.correlation k timeout_reason s.reversals lg.1 lg.0 f,
          );
          expired = p;
        })
      ]

  next-Reverses :
      (x : ExchangeResult) (s : FlowState T P) (k : Result NetworkCorrelation)
      → phase s.coordinator attempt.correlation ≡ expired_phase
      → Reverses (after_next attempt x s k)
  unfolding after_next
  next-Reverses x s (err e) p r h t = absurd (ground arith)
  next-Reverses x s (ok k) p r h t = link-Reverses x s k p r h t

  expire-Reverses :
      (now : ℕ) (x : ExchangeResult) (s : FlowState T P)
      → IsConsistent s.coordinator
      → Reverses (after_expire config attempt x s (expire now s.coordinator))
  unfolding after_expire
  expire-Reverses now x s c r h t = elim (Result-cases (expire now s.coordinator)) [
    | inr (e, f) ↦ absurd (ground (arith, f))
    | inl (fc, f) ↦ elim (Bool-cases (mem attempt.correlation fc.0)) [
      | inr e ↦ absurd (ground (arith, f, e))
      | inl e ↦
          let (moved, seen) = expire-phase now s.coordinator fc.1 fc.0 attempt.correlation c f in
          rw (f, e)
            (next-Reverses x _ _
              (moved ∙ due-expired now (phase s.coordinator attempt.correlation) (sym seen ∙ e)) r
              (rw (f, e) at h) t)
    ]
  ]

  cancel_no_timeout :
      (x : ExchangeResult) (s : FlowState T P) (c : Result (Bool × Coordinator))
      → Reverses (after_cancel attempt x s c)
  unfolding after_cancel
  cancel_no_timeout x s (err e) r h t = absurd (ground arith)
  cancel_no_timeout x s (ok (false, c)) r h t = absurd (ground arith)
  cancel_no_timeout x s (ok (true, c)) r h t = absurd (ground arith)

  response_no_timeout :
      (m : Option Iso8583Message) (now : ℕ) (s : FlowState T P)
      → Reverses (on_response attempt m now s)
  unfolding on_response handle_after_expiry after_response
  response_no_timeout none now s r h t = absurd (ground arith)
  response_no_timeout (some m) now s r h t = absurd (ground arith)

  outcome-Reverses :
      (now : ℕ) (x : ExchangeResult) (s : FlowState T P) (o : TransportOutcome)
      → IsConsistent s.coordinator
      → Reverses (on_outcome config attempt now x s o)
  unfolding on_outcome
  outcome-Reverses now x s failure_outcome c r h t = cancel_no_timeout x s _ r h t
  outcome-Reverses now x s response_outcome c r h t = response_no_timeout x.response now s r h t
  outcome-Reverses now x s timeout_outcome c r h t = elim (Bool-cases (ltb now attempt.deadline)) [
    | inl e ↦ absurd (ground (arith, e))
    | inr e ↦ rw e (expire-Reverses now x s c r (rw e at h) t)
  ]

  adapter-Reverses :
      (now : ℕ) (s : FlowState T P) (x : Result ExchangeResult)
      → IsConsistent s.coordinator
      → Reverses (after_adapter config attempt now s x)
  unfolding after_adapter
  adapter-Reverses now s (err e) c r h t = absurd (ground arith)
  adapter-Reverses now s (ok x) c r h t = outcome-Reverses now x s x.outcome c r h t

  recorded-keeps :
      (now : ℕ) (x : Result NetworkFlowResult) (s : FlowState T P)
      → Reverses (x, s)
      → Reverses (recorded attempt now x s)
  unfolding recorded observe
  recorded-keeps now (err e) s k r h t = absurd (ground arith)
  recorded-keeps now (ok y) s k r h t =
      let w = k r (recorded-same config attempt now (ok y) s r h) t in
      record { linked = w.linked; expired = w.expired }

  -- After a timeout that `exchange` reports, from a consistent coordinator, the registry has the
  -- result's reversal of the attempt's correlation, and the coordinator has the correlation as
  -- timed out.
  pub timeout-IsTimedOut :
      (completed_at : ℕ) (s s' : FlowState T P) (r : NetworkFlowResult)
      → IsConsistent s.coordinator
      → exchange_recorded config attempt completed_at s ≡ (ok r, s')
      → r.transport_outcome ≡ timeout_outcome
      → IsTimedOut attempt.correlation r s'
  unfolding exchange_recorded flow_exchange
  timeout-IsTimedOut now s s' r c h t =
      let whole = recorded-keeps now _ _ (adapter-Reverses now _ _ c) in
      by_state (ap (λ (p : Result NetworkFlowResult × FlowState T P). p.1) h)
        (whole r (ap (λ (p : Result NetworkFlowResult × FlowState T P). p.0) h) t)
    where
      by_state :
          {a b : FlowState T P}
          → a ≡ b
          → IsTimedOut attempt.correlation r a
          → IsTimedOut attempt.correlation r b
      by_state e w = rw (sym e) w

responded :
    (request response : Iso8583Message) (now : ℕ) (c : Coordinator) (key : NetworkCorrelation)
    → correlation_key response ≡ ok key
    → correlates_response request response ≡ true
    → handle_response request response now c ≡ ok (handle_key key now c)
unfolding handle_response
responded request response now c key k m = rw (k, m) refl

record-next_write :
    (o : NetworkObservation) (h : History) → (record_observation o h).0 ≡ next_write h
unfolding record_observation next_write
record-next_write o none = refl
record-next_write o (some w) = refl

late_lem :
    (T P : Type 0) (attempt : NetworkAttempt) (response : Iso8583Message) (now : ℕ)
    (s : FlowState T P)
    → correlation_key response ≡ ok attempt.correlation
    → correlates_response attempt.request response ≡ true
    → (s' : FlowState T P) × (handle_late_response attempt response now s ≡ (
      (next_write s.history >>= λ done.
          ok (respond now (phase s.coordinator attempt.correlation)).0),
      s',
    ))
      × (phase s'.coordinator attempt.correlation
          ≡ (respond now (phase s.coordinator attempt.correlation)).1)
unfolding handle_late_response after_late observe
late_lem T P attempt response now s k m =
    let (answer, moved) = handle_key-phase attempt.correlation now s.coordinator in
    let d = (handle_key attempt.correlation now s.coordinator).0 in
    let s₁ : FlowState T P = record s {
      coordinator = (handle_key attempt.correlation now s.coordinator).1;
    } in
    let s' : FlowState T P = (observe (late_row attempt now d) s₁).1 in
    let h : handle_late_response attempt response now s
        ≡ ((record_observation (late_row attempt now d) s.history).0 >>= λ done. ok d, s') =
      rw (responded attempt.request response now s.coordinator attempt.correlation k m) refl in
    (
      s',
      h
          ∙ ap (λ (x : Result (Unit {0})). (x >>= λ done. ok d, s'))
              (record-next_write (late_row attempt now d) s.history)
          ∙ ap (λ (x : TransactionDisposition). (next_write s.history >>= λ done. ok x, s')) answer,
      moved attempt.correlation
          ∙ ground (arith, correlation_beq_iff attempt.correlation attempt.correlation),
    )

-- A response that correlates with an attempt whose correlation has timed out is `late` the first
-- time that it is handled, and `duplicate` right after, whatever the clock says. Each call gives this
-- answer if the writer stores its observation, and otherwise raises what the writer raised; also then
-- the next call finds a duplicate.
pub late-duplicate :
    (T P : Type 0) (attempt : NetworkAttempt) (response : Iso8583Message) (now later : ℕ)
    (s : FlowState T P)
    → phase s.coordinator attempt.correlation ≡ expired_phase
    → correlation_key response ≡ ok attempt.correlation
    → correlates_response attempt.request response ≡ true
    → (s' s'' : FlowState T P) × (handle_late_response attempt response now s
        ≡ ((next_write s.history >>= λ done. ok late), s'))
      × (handle_late_response attempt response later s'
          ≡ ((next_write s'.history >>= λ done. ok duplicate), s''))
late-duplicate T P attempt response now later s p k m =
    let (s', first, moved) = late_lem T P attempt response now s k m in
    let (s'', second, done) = late_lem T P attempt response later s' k m in
    (s', s'', rw p at first, rw (moved, p) at second)
