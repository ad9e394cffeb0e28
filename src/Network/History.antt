-- ===== src/Network/History.antt =====
-- The observations of app/network_history.py. The rows of the table, oldest first, have the
-- same fields. A latency is a natural number of
-- thousandths of a tick, so that the guard of `NetworkObservation` always passes.
use atlas_pay.Prelude.{Error, Result, err, ok, ℕ, Bool, Option, none, some, List, [], ◌∷◌, ◌++◌}
use atlas_pay.Network.Routing.{IssuerRoute, ReversalReason}
use atlas_pay.Network.Transport.{TransportOutcome}
use atlas_pay.Network.Coordinator.{TransactionDisposition}

pub record NetworkObservation : Type 0 where
  pub route : IssuerRoute
  pub transport_outcome : TransportOutcome
  pub disposition : Option TransactionDisposition
  pub delivery_unknown : Bool
  pub latency_ms : ℕ
  pub reversal_reason : Option ReversalReason

-- A writer: the rows that it has stored, and for each of its next calls the error that it raises, if
-- any; beyond these it stores.
pub record Writer : Type 0 where
  pub rows : List NetworkObservation
  pub faults : List (Option Error)

-- No writer, or one in this state.
abbrev pub History : Type 0
History = Option Writer

-- What the next call of `record` answers.
unfoldable pub next_write : History → Result (Unit {0})
next_write none = ok tt
next_write (some w) = elim w.faults [
  | [] ↦ ok tt
  | fault ∷ faults ↦ elim fault [ none ↦ ok tt | some e ↦ err e ]
]

unfoldable pub store : NetworkObservation → List NetworkObservation → List (Option Error) → Writer
store o rows [] = record { rows = rows ++ (o ∷ []); faults = [] }
store o rows (none ∷ faults) = record { rows = rows ++ (o ∷ []); faults = faults }
store o rows (some e ∷ faults) = record { rows = rows; faults = faults }

-- `record`, where there is a writer: its answer, and the writer afterwards.
unfoldable pub record_observation : NetworkObservation → History → Result (Unit {0}) × History
record_observation o none = (ok tt, none)
record_observation o (some w) = (next_write (some w), some (store o w.rows w.faults))
