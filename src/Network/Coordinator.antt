-- ===== src/Network/Coordinator.antt =====
-- `NetworkTransactionCoordinator` of app/network_coordinator.py. A method returns its result and
-- the new state; where it raises it has changed nothing. Times are natural numbers of ticks.
pub mod Phases
pub mod Reachable
pub mod Invariant
pub mod Expiry
use atlas_pay.Prelude.{
  leb, if◌then◌else◌, value_error, type_error, Result, err, ok, raise_if, ◌>>=◌, ◌>>◌, text_eq,
  ◌==◌, nat_eq, mem, Text, codes, ℕ, ◌+◌, Bool, not, ◌||◌, Option, none, some, List, [], ◌∷◌,
}
use atlas_pay.Prelude.Dict.{Dict, lookup, contains, insert, erase}
use atlas_pay.Canonical.{NetworkCorrelation, correlation_eq}
use atlas_pay.Iso8583.Spec.{Iso8583Message}
use atlas_pay.Adapter.{correlation_key, correlates_response}
use atlas_pay.Prelude.Sets.{add, discard}

pub data TransactionDisposition : Type 0 where
  accepted mismatched timed_out late duplicate : TransactionDisposition

abbrev pub disposition_text : TransactionDisposition → Text
disposition_text accepted = codes "accepted"
disposition_text mismatched = codes "mismatched"
disposition_text timed_out = codes "timed_out"
disposition_text late = codes "late"
disposition_text duplicate = codes "duplicate"

pub record PendingTransaction : Type 0 where
  pub correlation : NetworkCorrelation
  pub deadline : ℕ

pub record Coordinator : Type 0 where
  pub pending : Dict NetworkCorrelation PendingTransaction
  pub completed : List NetworkCorrelation
  pub timed_out_set : List NetworkCorrelation

abbrev pub new_coordinator : Coordinator
new_coordinator = record { pending = []; completed = []; timed_out_set = [] }

-- `key in self._pending or key in self._completed or key in self._timed_out`
abbrev pub is_known : NetworkCorrelation → Coordinator → Bool
is_known key c = contains key c.pending || mem key c.completed || mem key c.timed_out_set

-- The rest of `register`, for the request's key.
unfoldable pub register_key :
    NetworkCorrelation → ℕ → ℕ → Coordinator → Result (NetworkCorrelation × Coordinator)
register_key key now timeout c = do
  raise_if (is_known key c) value_error
  ok (
    key,
    record c {
      pending = insert key (record { correlation = key; deadline = now + timeout }) c.pending;
    },
  )

unfoldable pub register :
    Iso8583Message → ℕ → ℕ → Coordinator → Result (NetworkCorrelation × Coordinator)
unfolding register_key
register request now timeout c = do
  raise_if (timeout == 0) value_error
  key ← correlation_key request
  register_key key now timeout c

unfoldable pub cancel : Iso8583Message → Coordinator → Result (Bool × Coordinator)
cancel request c = do
  key ← correlation_key request
  ok (contains key c.pending, record c { pending = erase key c.pending })

-- The keys whose deadline has come, in the order of the dict.
unfoldable pub due_keys : ℕ → Dict NetworkCorrelation PendingTransaction → List NetworkCorrelation
due_keys now [] = []
due_keys now ((key, t) ∷ pending) =
    let rest = due_keys now pending in if leb t.deadline now then key ∷ rest else rest

-- `sorted` on correlations. `NetworkCorrelation` is a dataclass with no order, so that the first
-- comparison raises `TypeError`; up to one element is sorted with none.
unfoldable pub sorted_correlations : List NetworkCorrelation → Result (List NetworkCorrelation)
sorted_correlations [] = ok []
sorted_correlations (key ∷ []) = ok (key ∷ [])
sorted_correlations (key ∷ other ∷ rest) = err type_error

-- The loop of `expire`.
unfoldable pub expire_keys : List NetworkCorrelation → Coordinator → Coordinator
expire_keys [] c = c
expire_keys (key ∷ rest) c =
    expire_keys rest
      (record c { pending = erase key c.pending; timed_out_set = add key c.timed_out_set })

unfoldable pub expire : ℕ → Coordinator → Result (List NetworkCorrelation × Coordinator)
unfolding due_keys sorted_correlations expire_keys
expire now c = do
  expired ← sorted_correlations (due_keys now c.pending)
  ok (expired, expire_keys expired c)

-- What `handle_response` does for a transaction that it finds pending, or does not.
unfoldable pub settle :
    NetworkCorrelation
    → ℕ
    → Option PendingTransaction
    → Coordinator
    → TransactionDisposition × Coordinator
settle key now none c = (mismatched, c)
settle key now (some t) c =
    if leb t.deadline now
    then (
      timed_out,
      record c { pending = erase key c.pending; timed_out_set = add key c.timed_out_set },
    )
    else (accepted, record c { pending = erase key c.pending; completed = add key c.completed })

-- `handle_response`, once the response is known to correlate.
unfoldable pub handle_key :
    NetworkCorrelation → ℕ → Coordinator → TransactionDisposition × Coordinator
unfolding settle
handle_key key now c =
    if mem key c.completed
    then (duplicate, c)
    else if mem key c.timed_out_set
    then (
      late,
      record c { timed_out_set = discard key c.timed_out_set; completed = add key c.completed },
    )
    else settle key now (lookup key c.pending) c

unfoldable pub handle_response :
    Iso8583Message
    → Iso8583Message
    → ℕ
    → Coordinator
    → Result (TransactionDisposition × Coordinator)
unfolding handle_key
handle_response request response now c = do
  key ← correlation_key response
  ok (if not (correlates_response request response) then (mismatched, c) else handle_key key now c)
