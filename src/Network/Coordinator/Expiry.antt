-- ===== src/Network/Coordinator/Expiry.antt =====
-- `expire` against the phases of the keys, and what it does when several transactions are due.
use atlas_pay.Prelude.{
  leb, if◌then◌else◌, type_error, ok, err, ◌>>=◌, nat_eq, text_eq, mem, ℕ, ◌≡◌, refl, ◌∙◌, ◌≢◌,
  Bool, true, false, Option, none, some, List, [], ◌∷◌, arith,
}
use atlas_pay.Prelude.Dict.{Dict, lookup, lookup-erase, contains-lookup}
use atlas_pay.Canonical.{NetworkCorrelation, correlation_beq_iff, correlation_eq}
use atlas_pay.Network.Coordinator.{
  PendingTransaction, Coordinator, due_keys, sorted_correlations, expire_keys, expire,
}
use atlas_pay.Network.Coordinator.Phases.{Phase, unused, settled, expired_phase, waiting, phase}
use atlas_pay.Network.Coordinator.Reachable.{HasUniqueKeys, IsConsistent}
use atlas_pay.Network.Coordinator.Invariant.{Expiry, none_due, one_due, expire-Expiry}
use atlas_pay.Prelude.Sets.{mem-add}

abbrev pub is_due : ℕ → Option PendingTransaction → Bool
is_due now none = false
is_due now (some t) = leb t.deadline now

mem-due_keys :
    (now : ℕ) (k : NetworkCorrelation) (d : Dict NetworkCorrelation PendingTransaction)
    → HasUniqueKeys d
    → mem k (due_keys now d) ≡ is_due now (lookup k d)
unfolding due_keys lookup
mem-due_keys now k [] u = refl
mem-due_keys now k ((j, t) ∷ d) u = ground (
  arith,
  mem-due_keys now k d u.1,
  contains-lookup j d,
  contains-lookup k d,
  correlation_beq_iff j k,
  correlation_beq_iff k j,
)

-- The contract of `expire` for one key: a key whose deadline has come times out.
abbrev pub expire_phase : ℕ → Phase → Phase
expire_phase now (waiting deadline) = if leb deadline now then expired_phase else waiting deadline
expire_phase now unused = unused
expire_phase now settled = settled
expire_phase now expired_phase = expired_phase

abbrev pub phase_is_due : ℕ → Phase → Bool
phase_is_due now (waiting deadline) = leb deadline now
phase_is_due now unused = false
phase_is_due now settled = false
phase_is_due now expired_phase = false

-- From a consistent coordinator, a call of `expire` that returns has timed out exactly the
-- waiting keys whose deadline has come, and reports exactly these.
pub expire-phase :
    (now : ℕ) (c c' : Coordinator) (found : List NetworkCorrelation) (k : NetworkCorrelation)
    → IsConsistent c
    → expire now c ≡ ok (found, c')
    → (phase c' k ≡ expire_phase now (phase c k)) × (mem k found ≡ phase_is_due now (phase c k))
unfolding phase
expire-phase now c c' found k h e = from_Expiry (expire-Expiry now c found c' e)
  where
    from_Expiry :
        Expiry now c found c'
        → (phase c' k ≡ expire_phase now (phase c k)) × (mem k found ≡ phase_is_due now (phase c k))
    from_Expiry (none_due due e₂ shape) =
        let m = rw due at (mem-due_keys now k c.pending h.unique) in
        rw (shape, e₂)
          (ground (arith, m, h.completed_apart k, h.timed_out_apart k, contains-lookup k c.pending))
    from_Expiry (one_due key due e₂ shape) =
        let m = rw due at (mem-due_keys now k c.pending h.unique) in
        rw (shape, e₂)
          (ground (
            arith,
            m,
            h.completed_apart k,
            h.timed_out_apart k,
            contains-lookup k c.pending,
            lookup-erase key k c.pending,
            mem-add key k c.timed_out_set,
            correlation_beq_iff key k,
            correlation_beq_iff k key,
          ))

-- Where the keys of the pending transactions are unique, two of them that are due at once make
-- `expire` raise `TypeError`: the correlations that it sorts have no order.
pub expire_two_due :
    (now : ℕ) (c : Coordinator) (k j : NetworkCorrelation)
    → HasUniqueKeys c.pending
    → k ≢ j
    → is_due now (lookup k c.pending) ≡ true
    → is_due now (lookup j c.pending) ≡ true
    → expire now c ≡ err type_error
unfolding expire sorted_correlations
expire_two_due now c k j u ne dk dj =
    two_members (due_keys now c.pending) (mem-due_keys now k c.pending u ∙ dk)
      (mem-due_keys now j c.pending u ∙ dj)
  where
    two_members :
        (due : List NetworkCorrelation)
        → mem k due ≡ true
        → mem j due ≡ true
        → ◌>>=◌ {B = List NetworkCorrelation × Coordinator}
            (sorted_correlations due)
            (λ e. ok (e, expire_keys e c))
          ≡ err type_error
    two_members [] a b = cc
    two_members (x ∷ []) a b =
        absurd (ground (arith, ne, correlation_beq_iff k x, correlation_beq_iff j x))
    two_members (x ∷ y ∷ rest) a b = refl
