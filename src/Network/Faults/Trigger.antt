-- ===== src/Network/Faults/Trigger.antt =====
-- Lemmas on which call of a sequence app/network_faults.py disturbs.
use atlas_pay.Prelude.{
  Result, ok, Bytes, ℕ, zero, suc, ◌+◌, ◌≤◌, ◌≡◌, refl, ap, ◌≢◌, false, List, [], ◌∷◌, arith,
}
use atlas_pay.Network.Transport.{TransportExchange, check_exchange, make_exchange, Transport}
use atlas_pay.Network.Faults.{
  FaultMode, no_fault, local_failure, timeout_fault, malformed_response, FaultRule, is_no_fault,
  fault_answer, FaultState, after_inner, fault_exchange,
}

-- The answers of a transport to a sequence of payloads.
unfoldable pub answers :
    {T : Type 0} → Transport T → ℕ → List Bytes → T → List (Result TransportExchange)
answers send timeout [] t = []
answers send timeout (p ∷ ps) t =
    (send p timeout t).0 ∷ answers send timeout ps (send p timeout t).1

-- The answers that the rule makes of a sequence of payloads, where some calls have been made: at the
-- triggering call a fault, that the inner transport never sees.
unfoldable pub disturbed :
    {T : Type 0}
    → Transport T
    → FaultRule
    → ℕ
    → ℕ
    → List Bytes
    → T
    → List (Result TransportExchange)
unfolding answers
disturbed send rule timeout n [] t = []
disturbed send rule timeout zero (p ∷ ps) t = fault_answer rule.mode ∷ answers send timeout ps t
disturbed send rule timeout (suc n) (p ∷ ps) t =
    (send p timeout t).0 ∷ disturbed send rule timeout n ps (send p timeout t).1

passed :
    (T : Type 0) (send : Transport T) (rule : FaultRule) (payload : Bytes) (timeout : ℕ)
    (s : FaultState T)
    → rule.trigger_on_call ≢ suc s.calls
    → fault_exchange send rule payload timeout s
      ≡ after_inner (suc s.calls) (send payload timeout s.inner)
unfolding fault_exchange
passed T send rule payload timeout s h = ground arith

faulted :
    (T : Type 0) (send : Transport T) (rule : FaultRule) (payload : Bytes) (timeout : ℕ)
    (s : FaultState T)
    → is_no_fault rule.mode ≡ false
    → rule.trigger_on_call ≡ suc s.calls
    → fault_exchange send rule payload timeout s
      ≡ (fault_answer rule.mode, record { calls = suc s.calls; inner = s.inner })
unfolding fault_exchange
faulted T send rule payload timeout s m h = ground arith

-- Once the counter is past the trigger, the inner transport answers every call.
pub answers-spent :
    (T : Type 0) (send : Transport T) (rule : FaultRule) (timeout : ℕ) (ps : List Bytes)
    (s : FaultState T)
    → rule.trigger_on_call ≤ s.calls
    → answers (fault_exchange send rule) timeout ps s ≡ answers send timeout ps s.inner
unfolding answers
answers-spent T send rule timeout [] s h = refl
answers-spent T send rule timeout (p ∷ ps) s h = rw (passed T send rule p timeout s (omega arith)) (
    ap (◌∷◌ (send p timeout s.inner).0) (
      answers-spent T send rule timeout ps
        (record { calls = suc s.calls; inner = (send p timeout s.inner).1 }) (omega arith)))

-- With a rule of some fault, exactly the call at the trigger is answered by the fault; the inner
-- transport answers all calls before and after it, and never sees that one.
pub answers-disturbed :
    (T : Type 0) (send : Transport T) (rule : FaultRule) (timeout n : ℕ) (ps : List Bytes)
    (s : FaultState T)
    → is_no_fault rule.mode ≡ false
    → rule.trigger_on_call ≡ suc (s.calls + n)
    → answers (fault_exchange send rule) timeout ps s ≡ disturbed send rule timeout n ps s.inner
unfolding answers disturbed
answers-disturbed T send rule timeout n [] s m h = refl
answers-disturbed T send rule timeout zero (p ∷ ps) s m h =
    rw (faulted T send rule p timeout s m (omega arith)) (
      ap (◌∷◌ (fault_answer rule.mode)) (
        answers-spent T send rule timeout ps (record { calls = suc s.calls; inner = s.inner })
          (omega arith)))
answers-disturbed T send rule timeout (suc n) (p ∷ ps) s m h =
    rw (passed T send rule p timeout s (omega arith)) (
      ap (◌∷◌ (send p timeout s.inner).0) (
        answers-disturbed T send rule timeout n ps
          (record { calls = suc s.calls; inner = (send p timeout s.inner).1 }) m (omega arith)))

-- Every fault is an answer that the constructor accepts.
pub fault_answer-valid :
    (m : FaultMode) → is_no_fault m ≡ false → (x : TransportExchange) × (fault_answer m ≡ ok x)
unfolding fault_answer make_exchange check_exchange
fault_answer-valid no_fault h = absurd (ground arith)
fault_answer-valid local_failure h = (_, refl)
fault_answer-valid timeout_fault h = (_, refl)
fault_answer-valid malformed_response h = (_, refl)
