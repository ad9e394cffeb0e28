-- ===== src/Network/Coordinator/Phases.antt =====
-- The coordinator of app/network_coordinator.py beside its contract: the phases of a correlation key.
use atlas_pay.Prelude.{
  leb, if◌then◌else◌, Bool-cases, value_error, err, ok, text_eq, ◌==◌, nat_eq, mem, ℕ, ◌+◌, ◌≡◌,
  refl, ap, ◌∙◌, ◌≢◌, inl, inr, Bool, true, false, Option, none, some, arith,
}
use atlas_pay.Prelude.Dict.{lookup, lookup-insert, lookup-erase, contains-lookup}
use atlas_pay.Canonical.{NetworkCorrelation, correlation_beq_iff, correlation_eq}
use atlas_pay.Iso8583.Spec.{Iso8583Message}
use atlas_pay.Adapter.{correlation_key, correlates_response}
use atlas_pay.Network.Coordinator.{
  TransactionDisposition, accepted, mismatched, timed_out, late, duplicate, PendingTransaction,
  Coordinator, register_key, handle_key, handle_response,
}
use atlas_pay.Prelude.Sets.{mem-add, mem-discard}

pub data Phase : Type 0 where
  unused settled expired_phase : Phase
  waiting : ℕ → Phase

abbrev pub pending_phase : Option PendingTransaction → Phase
pending_phase none = unused
pending_phase (some t) = waiting t.deadline

-- The phase of a key, as `handle_response` asks for it.
unfoldable pub phase : Coordinator → NetworkCorrelation → Phase
phase c key =
    if mem key c.completed
    then settled
    else if mem key c.timed_out_set
    then expired_phase
    else pending_phase (lookup key c.pending)

-- What the contract says of a response to a key in a phase: the answer and the next phase.
abbrev pub respond : ℕ → Phase → TransactionDisposition × Phase
respond now settled = (duplicate, settled)
respond now expired_phase = (late, settled)
respond now unused = (mismatched, unused)
respond now (waiting deadline) =
    if leb deadline now then (timed_out, expired_phase) else (accepted, settled)

-- Where a key in a phase stands in the coordinator: in one of its three collections at most, the
-- pending one with its deadline.
abbrev pending_deadline : Option PendingTransaction → Option ℕ
pending_deadline none = none
pending_deadline (some t) = some t.deadline

abbrev deadline_of : Phase → Option ℕ
deadline_of (waiting deadline) = some deadline
deadline_of unused = none
deadline_of settled = none
deadline_of expired_phase = none

abbrev is_settled : Phase → Bool
is_settled settled = true
is_settled unused = false
is_settled expired_phase = false
is_settled (waiting deadline) = false

abbrev is_expired : Phase → Bool
is_expired expired_phase = true
is_expired unused = false
is_expired settled = false
is_expired (waiting deadline) = false

pub record IsAt (c : Coordinator) (key : NetworkCorrelation) (p : Phase) : Type 0 where
  pub pending : pending_deadline (lookup key c.pending) ≡ deadline_of p
  pub completed : mem key c.completed ≡ is_settled p
  pub timed_out : mem key c.timed_out_set ≡ is_expired p

-- What the contract says where the response correlates with the request, and where it does not.
abbrev pub respond_if : Bool → ℕ → Phase → TransactionDisposition × Phase
respond_if true now p = respond now p
respond_if false now p = (mismatched, p)

-- `handle_key` moves its key as the contract says, and leaves every other key in its phase.
pub handle_key-phase :
    (key : NetworkCorrelation) (now : ℕ) (c : Coordinator)
    → ((handle_key key now c).0 ≡ (respond now (phase c key)).0)
      × ((k : NetworkCorrelation)
          → phase (handle_key key now c).1 k
            ≡ (if key == k then (respond now (phase c key)).1 else phase c k))
unfolding handle_key phase
handle_key-phase key now c = (
  ground arith,
  λ k. ground (
    arith,
    mem-add key k c.completed,
    mem-add key k c.timed_out_set,
    mem-discard key k c.timed_out_set,
    lookup-erase key k c.pending,
    correlation_beq_iff key k,
    correlation_beq_iff k key,
  ),
)

module _ (key : NetworkCorrelation) (now : ℕ) (c : Coordinator) where
  moved_key :
      (p : Phase)
      → IsAt c key p
      → ((handle_key key now c).0 ≡ (respond now p).0)
        × (mem key (handle_key key now c).1.completed ≡ is_settled (respond now p).1)
        × (mem key (handle_key key now c).1.timed_out_set ≡ is_expired (respond now p).1)
        × (pending_deadline (lookup key (handle_key key now c).1.pending)
            ≡ deadline_of (respond now p).1)
  unfolding handle_key
  moved_key p at = ground (
    arith,
    at.pending,
    at.completed,
    at.timed_out,
    correlation_beq_iff key key,
    mem-add key key c.completed,
    mem-add key key c.timed_out_set,
    mem-discard key key c.timed_out_set,
    lookup-erase key key c.pending,
  )

  kept_key :
      (k : NetworkCorrelation)
      → k ≢ key
      → (mem k (handle_key key now c).1.completed ≡ mem k c.completed)
        × (mem k (handle_key key now c).1.timed_out_set ≡ mem k c.timed_out_set)
        × (lookup k (handle_key key now c).1.pending ≡ lookup k c.pending)
  unfolding handle_key
  kept_key k other = ground (
    arith,
    correlation_beq_iff key k,
    correlation_beq_iff k key,
    mem-add key k c.completed,
    mem-add key k c.timed_out_set,
    mem-discard key k c.timed_out_set,
    lookup-erase key k c.pending,
  )

-- What the contract says of one response: the answer, where its key stands afterwards, and that every
-- other key stands where it stood.
pub record IsAnswered (key : NetworkCorrelation) (d : TransactionDisposition) (next : Phase)
    (answered : TransactionDisposition) (c c' : Coordinator) : Type 0 where
  pub answer : answered ≡ d
  pub own : IsAt c' key next
  pub others : (k : NetworkCorrelation) (q : Phase) → k ≢ key → IsAt c k q → IsAt c' k q

-- For a response with a key that stands in a phase, `handle_response` returns. Where the response
-- correlates with the request it answers as the contract says for that phase and moves the key to
-- the phase that follows, out of the collection where it stood; otherwise it answers `mismatched`
-- and moves nothing. Every other key stands where it stood.
pub handle_response-respond :
    (request response : Iso8583Message) (key : NetworkCorrelation) (now : ℕ) (c : Coordinator)
    (p : Phase)
    → correlation_key response ≡ ok key
    → IsAt c key p
    → let (d, next) = respond_if (correlates_response request response) now p in
      (answered : TransactionDisposition) × (c' : Coordinator) × (handle_response request response
          now c
        ≡ ok (answered, c'))
      × IsAnswered key d next answered c c'
unfolding handle_response
handle_response-respond request response key now c p found at =
    elim (Bool-cases (correlates_response request response)) [
      | inr unrelated ↦
          rw (unrelated, found)
            (
              mismatched,
              c,
              refl,
              record { answer = refl; own = at; others = λ k q other there. there },
            )
      | inl related ↦
          let (said, in_completed, in_timed_out, in_pending) = moved_key key now c p at in
          rw (related, found)
            (
              (handle_key key now c).0,
              (handle_key key now c).1,
              refl,
              record {
                answer = said;
                own = record {
                  pending = in_pending;
                  completed = in_completed;
                  timed_out = in_timed_out;
                };
                others = λ k q other there.
                    let (same_completed, same_timed_out, same_pending) =
                      kept_key key now c k other in
                    record {
                      pending = ap pending_deadline same_pending ∙ there.pending;
                      completed = same_completed ∙ there.completed;
                      timed_out = same_timed_out ∙ there.timed_out;
                    };
              },
            )
    ]

-- Where a key is registered, it was unused; it then waits until its deadline, and no other key
-- has changed its phase.
pub register_key-phase :
    (key : NetworkCorrelation) (now timeout : ℕ) (c c' : Coordinator) (k : NetworkCorrelation)
    → register_key key now timeout c ≡ ok (key, c')
    → (phase c key ≡ unused)
      × (phase c' k ≡ (if key == k then waiting (now + timeout) else phase c k))
unfolding register_key phase
register_key-phase key now timeout c c' k h = (
  ground (arith, contains-lookup key c.pending),
  ground (
    arith,
    contains-lookup key c.pending,
    correlation_beq_iff key k,
    lookup-insert key k (record { correlation = key; deadline = now + timeout }) c.pending,
  ),
)

-- A key that is in use cannot be registered again.
pub register_key-in_use :
    (key : NetworkCorrelation) (now timeout : ℕ) (c : Coordinator)
    → phase c key ≢ unused
    → register_key key now timeout c ≡ err value_error
unfolding register_key phase
register_key-in_use key now timeout c h = ground (arith, contains-lookup key c.pending)
