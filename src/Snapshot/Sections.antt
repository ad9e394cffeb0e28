-- ===== src/Snapshot/Sections.antt =====
-- The records of app/operational_snapshot.py. Counts and ages are natural numbers, so that the guards
-- `ge=0` always pass; a moment is a number of ticks.
use atlas_pay.Prelude.{Text, ℕ, Bool, Option, List}
use atlas_pay.Prelude.Dict.{Dict}

pub data SnapshotHealth : Type 0 where
  healthy degraded critical : SnapshotHealth

pub data DataState : Type 0 where
  fresh partial : DataState

pub data SectionState : Type 0 where
  available unavailable : SectionState

pub record SnapshotProvenance : Type 0 where
  pub source : Text
  pub generated_at : ℕ
  pub contract_version : Text

pub record PaymentSummary : Type 0 where
  pub state : SectionState
  pub total : Option ℕ
  pub by_status : Option (Dict Text ℕ)
  pub operations : Option ℕ
  pub reason : Option Text

pub record LedgerSummary : Type 0 where
  pub state : SectionState
  pub balanced : Option Bool
  pub discrepancies : Option ℕ
  pub discrepancy_kinds : Option (Dict Text ℕ)
  pub inspected_at : Option ℕ
  pub reason : Option Text

pub record OutboxSummary : Type 0 where
  pub state : SectionState
  pub unpublished : Option ℕ
  pub poison_messages : Option ℕ
  pub oldest_unpublished_age_seconds : Option ℕ
  pub reason : Option Text

pub record RouteNetworkSummary : Type 0 where
  pub route_name : Text
  pub issuer_id : Text
  pub acquirer_id : Text
  pub observations : ℕ
  pub accepted : ℕ
  pub timeouts : ℕ
  pub late_responses : ℕ
  pub delivery_unknown : ℕ
  pub p95_latency_ms : ℕ

pub record NetworkSummary : Type 0 where
  pub state : SectionState
  pub observations : Option ℕ
  pub by_disposition : Option (Dict Text ℕ)
  pub timeouts : Option ℕ
  pub late_responses : Option ℕ
  pub p95_latency_ms : Option ℕ
  pub routes : Option (List RouteNetworkSummary)
  pub reason : Option Text

pub record OperationalSnapshot : Type 0 where
  pub provenance : SnapshotProvenance
  pub health : SnapshotHealth
  pub data_state : DataState
  pub payments : PaymentSummary
  pub ledger : LedgerSummary
  pub outbox : OutboxSummary
  pub network : NetworkSummary
  pub incidents : List Text
  pub missing_sections : List Text

pub record DatabaseMeasurements : Type 0 where
  pub payment_total : ℕ
  pub payment_status_counts : Dict Text ℕ
  pub operation_count : ℕ
  pub unpublished_outbox : ℕ
  pub poison_outbox : ℕ
  pub oldest_unpublished_age_seconds : ℕ
  pub network_observations : ℕ
  pub network_disposition_counts : Dict Text ℕ
  pub network_timeouts : ℕ
  pub network_late_responses : ℕ
  pub network_p95_latency_ms : ℕ
  pub network_routes : List RouteNetworkSummary
