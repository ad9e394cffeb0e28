-- ===== src/Network/Attempt.antt =====
-- The records of app/network_flow.py, and the state that the flow joins from its parts.
use atlas_pay.Prelude.{Result, ℕ, Bool, Option, List}
use atlas_pay.Prelude.Dict.{Dict}
use atlas_pay.Canonical.{NetworkCorrelation}
use atlas_pay.Iso8583.Spec.{FieldSpec, Iso8583Message}
use atlas_pay.Network.Routing.{IssuerRoute, ReversalLink, ReversalRegistry}
use atlas_pay.Network.Transport.{TransportOutcome, ErrorNote, Transport}
use atlas_pay.Network.Coordinator.{TransactionDisposition, Coordinator}
use atlas_pay.Network.History.{History}

pub record NetworkAttempt : Type 0 where
  pub route : IssuerRoute
  pub request : Iso8583Message
  pub correlation : NetworkCorrelation
  pub started_at : ℕ
  pub deadline : ℕ
  pub timeout_seconds : ℕ

pub record NetworkFlowResult : Type 0 where
  pub route : IssuerRoute
  pub transport_outcome : TransportOutcome
  pub disposition : Option TransactionDisposition
  pub delivery_unknown : Bool
  pub reversal : Option ReversalLink
  pub error : Option ErrorNote

abbrev pub CorrelationProvider : Type 0 → Type 0
CorrelationProvider P = NetworkCorrelation → IssuerRoute → P → Result NetworkCorrelation × P

-- What does not change, for a transport with states in T and a provider with states in P.
pub record FlowConfig (T P : Type 0) : Type 0 where
  pub routes : List IssuerRoute
  pub specs : Dict ℕ FieldSpec
  pub send : Transport T
  pub next_for : CorrelationProvider P

pub record FlowState (T P : Type 0) : Type 0 where
  pub coordinator : Coordinator
  pub reversals : ReversalRegistry
  pub transport : T
  pub provider : P
  pub history : History
