-- ===== src/Network/Coordinator/Invariant.antt =====
-- The consistency of the coordinator of app/network_coordinator.py, call by call.
use atlas_pay.Prelude.{
  if◌then◌else◌, Bool-cases, ok, ◌>>=◌, Result-cases, nat_eq, text_eq, mem, ℕ, ◌+◌, ◌≡◌, refl, ap,
  ◌⊎◌, inl, inr, Bool, true, false, not, List, [], ◌∷◌, arith,
}
use atlas_pay.Prelude.Dict.{Dict, contains, insert, erase}
use atlas_pay.Canonical.{NetworkCorrelation, correlation_beq_iff, correlation_eq}
use atlas_pay.Iso8583.Spec.{Iso8583Message}
use atlas_pay.Adapter.{correlation_key, correlates_response}
use atlas_pay.Network.Coordinator.{
  TransactionDisposition, accepted, mismatched, late, duplicate, PendingTransaction, Coordinator,
  new_coordinator, is_known, register_key, register, cancel, due_keys, sorted_correlations,
  expire_keys, expire, handle_key, handle_response,
}
use atlas_pay.Network.Coordinator.Reachable.{
  IsConsistent, Step, registers, cancels, expires, handles, Reach, here, next, contains-insert,
  contains-erase, insert_unique, erase_unique, time_out-IsConsistent, handle_key-IsConsistent,
}
use atlas_pay.Prelude.Sets.{add, mem-add}

register_inv :
    (request : Iso8583Message) (now timeout : ℕ) (key : NetworkCorrelation) (c c' : Coordinator)
    → register request now timeout c ≡ ok (key, c')
    → register_key key now timeout c ≡ ok (key, c')
unfolding register register_key
register_inv request now timeout key c c' h = elim (Result-cases (correlation_key request)) [
  | inl (k, e) ↦ ground (arith, e)
  | inr (x, e) ↦ absurd (ground (arith, e))
]

register_key-IsConsistent :
    (now timeout : ℕ) (key : NetworkCorrelation) (c c' : Coordinator)
    → IsConsistent c
    → register_key key now timeout c ≡ ok (key, c')
    → IsConsistent c'
unfolding register_key
register_key-IsConsistent now timeout key c c' h e =
    let t : PendingTransaction = record { correlation = key; deadline = now + timeout } in
    let shape : c' ≡ record c { pending = insert key t c.pending } = ground arith in
    let fresh : is_known key c ≡ false = ground arith in
    rw shape (record {
      unique = insert_unique key t c.pending h.unique;
      completed_apart = λ k. ground (
        arith,
        fresh,
        contains-insert key k t c.pending,
        h.completed_apart k,
        correlation_beq_iff key k,
      );
      timed_out_apart = λ k. ground (
        arith,
        fresh,
        contains-insert key k t c.pending,
        h.timed_out_apart k,
        correlation_beq_iff key k,
      );
    })

cancel_inv :
    (request : Iso8583Message) (found : Bool) (c c' : Coordinator)
    → cancel request c ≡ ok (found, c')
    → (key : NetworkCorrelation) × (correlation_key request ≡ ok key)
      × (found ≡ contains key c.pending)
      × (c' ≡ record c { pending = erase key c.pending })
unfolding cancel
cancel_inv request found c c' h = elim (Result-cases (correlation_key request)) [
  | inl (k, e) ↦ (k, e, ground (arith, e), ground (arith, e))
  | inr (x, e) ↦ absurd (ground (arith, e))
]

erase-IsConsistent :
    (key : NetworkCorrelation) (c : Coordinator)
    → IsConsistent c
    → IsConsistent (record c { pending = erase key c.pending })
erase-IsConsistent key c h = record {
  unique = erase_unique key c.pending h.unique;
  completed_apart = λ k. ground (arith, contains-erase key k c.pending, h.completed_apart k);
  timed_out_apart = λ k. ground (arith, contains-erase key k c.pending, h.timed_out_apart k);
}

handle_inv :
    (request response : Iso8583Message) (now : ℕ) (d : TransactionDisposition) (c c' : Coordinator)
    → handle_response request response now c ≡ ok (d, c')
    → (key : NetworkCorrelation) × (correlation_key response ≡ ok key)
      × ((d, c') ≡ (
          if not (correlates_response request response)
          then (mismatched, c)
          else handle_key key now c))
unfolding handle_response
handle_inv request response now d c c' h = elim (Result-cases (correlation_key response)) [
  | inl (k, e) ↦ (k, e, ground (arith, e))
  | inr (x, e) ↦ absurd (ground (arith, e))
]

pub contains-due :
    (now : ℕ) (k : NetworkCorrelation) (d : Dict NetworkCorrelation PendingTransaction)
    → mem k (due_keys now d) ≡ true
    → contains k d ≡ true
unfolding due_keys contains
contains-due now k [] h = h
contains-due now k ((j, t) ∷ d) h =
    ground (arith, contains-due now k d, correlation_beq_iff j k, correlation_beq_iff k j)

-- What a call of `expire` that returns has found and done: nothing was due, or one key was.
pub data Expiry (now : ℕ) (c : Coordinator) (found : List NetworkCorrelation) (c' : Coordinator)
    : Type 0 where
  none_due : due_keys now c.pending ≡ [] → found ≡ [] → c' ≡ c → Expiry now c found c'
  one_due :
      (key : NetworkCorrelation)
      → due_keys now c.pending ≡ key ∷ []
      → found ≡ key ∷ []
      → c' ≡ record c { pending = erase key c.pending; timed_out_set = add key c.timed_out_set }
      → Expiry now c found c'

expire_from :
    (due : List NetworkCorrelation) (now : ℕ) (c : Coordinator) (found : List NetworkCorrelation)
    (c' : Coordinator)
    → due_keys now c.pending ≡ due
    → ◌>>=◌ {B = List NetworkCorrelation × Coordinator}
        (sorted_correlations due)
        (λ e. ok (e, expire_keys e c))
      ≡ ok (found, c')
    → Expiry now c found c'
unfolding sorted_correlations expire_keys
expire_from [] now c found c' e h = none_due e (ground arith) (ground arith)
expire_from (k ∷ []) now c found c' e h = one_due k e (ground arith) (ground arith)
expire_from (k ∷ j ∷ rest) now c found c' e h = absurd (ground arith)

pub expire-Expiry :
    (now : ℕ) (c : Coordinator) (found : List NetworkCorrelation) (c' : Coordinator)
    → expire now c ≡ ok (found, c')
    → Expiry now c found c'
unfolding expire
expire-Expiry now c found c' h = expire_from (due_keys now c.pending) now c found c' refl h

due_not_settled :
    (now : ℕ) (key : NetworkCorrelation) (c : Coordinator)
    → IsConsistent c
    → due_keys now c.pending ≡ key ∷ []
    → mem key c.completed ≡ false
due_not_settled now key c h e =
    let due : mem key (due_keys now c.pending) ≡ true =
      rw e (ground (arith, correlation_beq_iff key key)) in
    ground (arith, contains-due now key c.pending due, h.completed_apart key)

-- One call keeps the coordinator consistent.
Step-IsConsistent : {c c' : Coordinator} → IsConsistent c → Step c c' → IsConsistent c'
Step-IsConsistent {c} {c'} h (registers request now timeout key e) =
    register_key-IsConsistent now timeout key c c' h (register_inv request now timeout key c c' e)
Step-IsConsistent {c} {c'} h (cancels request found e) =
    let (key, ek, ef, shape) = cancel_inv request found c c' e in
    rw shape (erase-IsConsistent key c h)
Step-IsConsistent {c} {c'} h (expires now found e) = expired (expire-Expiry now c found c' e)
  where
    expired : Expiry now c found c' → IsConsistent c'
    expired (none_due e₁ e₂ shape) = rw shape h
    expired (one_due key due e₂ shape) =
        rw shape (time_out-IsConsistent key c h (due_not_settled now key c h due))
Step-IsConsistent {c} {c'} h (handles request response now d e) =
    let (key, ek, shape) = handle_inv request response now d c c' e in
    let kept = handle_key-IsConsistent key now c h in
    elim (Bool-cases (correlates_response request response)) [
      | inl y ↦ rw (ap (λ (p : TransactionDisposition × Coordinator). p.1) (rw y at shape)) kept
      | inr y ↦ rw (ap (λ (p : TransactionDisposition × Coordinator). p.1) (rw y at shape)) h
    ]

new-IsConsistent : IsConsistent new_coordinator
new-IsConsistent = record { unique = tt; completed_apart = λ k e. cc; timed_out_apart = λ k e. cc }

Reach_from : {c c' : Coordinator} → IsConsistent c → Reach c c' → IsConsistent c'
Reach_from h here = h
Reach_from h (next r s) = Step-IsConsistent (Reach_from h r) s

-- Whatever calls a new coordinator has seen, a correlation key stands at most once in the dict of
-- pending transactions, and in at most one of the three collections.
pub Reach-IsConsistent : {c : Coordinator} → Reach new_coordinator c → IsConsistent c
Reach-IsConsistent r = Reach_from new-IsConsistent r

handle_key-settled :
    (key k : NetworkCorrelation) (now : ℕ) (c : Coordinator)
    → mem k c.completed ≡ true
    → mem k (handle_key key now c).1.completed ≡ true
unfolding handle_key
handle_key-settled key k now c h = ground (arith, mem-add key k c.completed)

Step-settled :
    {c c' : Coordinator}
    → Step c c'
    → (k : NetworkCorrelation) → mem k c.completed ≡ true
    → mem k c'.completed ≡ true
Step-settled {c} {c'} (registers request now timeout key e) k h =
    unfold register_key in ground (arith, register_inv request now timeout key c c' e)
Step-settled {c} {c'} (cancels request found e) k h =
    let (key, ek, ef, shape) = cancel_inv request found c c' e in rw shape h
Step-settled {c} {c'} (expires now found e) k h = expired (expire-Expiry now c found c' e)
  where
    expired : Expiry now c found c' → mem k c'.completed ≡ true
    expired (none_due e₁ e₂ shape) = rw shape h
    expired (one_due key due e₂ shape) = rw shape h
Step-settled {c} {c'} (handles request response now d e) k h =
    let (key, ek, shape) = handle_inv request response now d c c' e in
    ground (arith, shape, handle_key-settled key k now c h)

Reach-settled :
    {c c' : Coordinator}
    → Reach c c'
    → (k : NetworkCorrelation) → mem k c.completed ≡ true
    → mem k c'.completed ≡ true
Reach-settled here k h = h
Reach-settled (next r s) k h = Step-settled s k (Reach-settled r k h)

handle_key-completes :
    (key : NetworkCorrelation) (now : ℕ) (c : Coordinator)
    → ((handle_key key now c).0 ≡ accepted) ⊎ ((handle_key key now c).0 ≡ late)
    → mem key (handle_key key now c).1.completed ≡ true
unfolding handle_key
handle_key-completes key now c h =
    ground (arith, mem-add key key c.completed, correlation_beq_iff key key)

-- Once a response has been accepted, in time or late, every correlated response with its key is
-- answered as a duplicate and changes nothing, whatever calls come in between.
pub accepted_once :
    (c c' c'' : Coordinator) (request response : Iso8583Message) (now : ℕ)
    (d : TransactionDisposition) (request' response' : Iso8583Message) (now' : ℕ)
    → handle_response request response now c ≡ ok (d, c')
    → (d ≡ accepted) ⊎ (d ≡ late)
    → Reach c' c''
    → correlates_response request' response' ≡ true
    → correlation_key response' ≡ correlation_key response
    → handle_response request' response' now' c'' ≡ ok (duplicate, c'')
unfolding handle_response handle_key
accepted_once c c' c'' request response now d request' response' now' e kind r corr same =
    let (key, ek, shape) = handle_inv request response now d c c' e in
    let stored : mem key c'.completed ≡ true =
      ground (arith, shape, handle_key-completes key now c) in
    ground (arith, ek, Reach-settled r key stored)
