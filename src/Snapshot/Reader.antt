-- ===== src/Snapshot/Reader.antt =====
-- The two readers of app/operational_snapshot.py. A reader's two reads are transactions of their own:
-- what is measured and what is inspected may be two states of the database.
use atlas_pay.Prelude.{
  if◌then◌else◌, length, is_empty, value_error, Result, ok, raise_if, ◌>>◌, text_eq, ◌==◌, nat_eq,
  Text, codes, ℕ, Bool, not, ◌||◌, none, some, List, [], ◌∷◌, ◌++◌, map,
}
use atlas_pay.Prelude.Dict.{Dict}
use atlas_pay.Payments.Database.{status_eq, Database}
use atlas_pay.Payments.Reconciliation.{Discrepancy, decimal, kind_text, text_leb, inspect, is_clean}
use atlas_pay.Network.History.{NetworkObservation}
use atlas_pay.Snapshot.Grouping.{group_by, count_rows, triple_eq}
use atlas_pay.Snapshot.Sections.{
  SnapshotHealth, healthy, degraded, critical, fresh, partial, available, unavailable,
  SnapshotProvenance, OperationalSnapshot, DatabaseMeasurements,
}
use atlas_pay.Snapshot.Measurements.{measure_database}

abbrev pub contract_version : Text
contract_version = codes "v1"

abbrev pub default_outbox_max_attempts : ℕ
default_outbox_max_attempts = 5

abbrev pub provenance_at : ℕ → SnapshotProvenance
provenance_at generated_at = record {
  source = codes "atlaspay-api";
  generated_at = generated_at;
  contract_version = contract_version;
}

-- `PostgresOperationalSnapshotReader.__init__`, as the bound that it keeps
unfoldable pub make_reader : ℕ → Result ℕ
make_reader max_attempts = do raise_if (max_attempts == 0) value_error; ok max_attempts

-- `dict(sorted(Counter(...).items()))` over the kinds of the report
unfoldable pub count_kinds : List Discrepancy → Dict Text ℕ
count_kinds report =
    count_rows
      (group_by text_leb (λ (t : Text). t) (map (λ (d : Discrepancy). kind_text d.kind) report))

unfoldable pub incidents_of : List Discrepancy → ℕ → List Text
incidents_of report poison =
    (if is_empty report
      then []
      else (codes "ledger/reconciliation has "
          ++ (decimal (length report) ++ codes " discrepancy(s)"))
        ∷ [])
    ++ (if poison == 0
        then []
        else (codes "outbox has "
            ++ (decimal poison ++ codes " unpublished event(s) at retry limit"))
          ∷ [])

unfoldable pub health_of : List Discrepancy → ℕ → ℕ → SnapshotHealth
health_of report poison unpublished =
    if not (is_empty report) || not (poison == 0)
    then critical
    else if not (unpublished == 0)
    then degraded
    else healthy

-- The snapshot of the measurements and the report.
unfoldable pub snapshot_of : ℕ → DatabaseMeasurements → List Discrepancy → OperationalSnapshot
snapshot_of generated_at m report = record {
  provenance = provenance_at generated_at;
  health = health_of report m.poison_outbox m.unpublished_outbox;
  data_state = fresh;
  payments = record {
    state = available;
    total = some m.payment_total;
    by_status = some m.payment_status_counts;
    operations = some m.operation_count;
    reason = none;
  };
  ledger = record {
    state = available;
    balanced = some (is_clean report);
    discrepancies = some (length report);
    discrepancy_kinds = some (count_kinds report);
    inspected_at = some generated_at;
    reason = none;
  };
  outbox = record {
    state = available;
    unpublished = some m.unpublished_outbox;
    poison_messages = some m.poison_outbox;
    oldest_unpublished_age_seconds = some m.oldest_unpublished_age_seconds;
    reason = none;
  };
  network = record {
    state = available;
    observations = some m.network_observations;
    by_disposition = some m.network_disposition_counts;
    timeouts = some m.network_timeouts;
    late_responses = some m.network_late_responses;
    p95_latency_ms = some m.network_p95_latency_ms;
    routes = some m.network_routes;
    reason = none;
  };
  incidents = incidents_of report m.poison_outbox;
  missing_sections = [];
}

-- `PostgresOperationalSnapshotReader.read`: the database and the observations as they are measured, and
-- the database as it is inspected.
unfoldable pub read_snapshot :
    (Text → Text → Bool)
    → ℕ
    → ℕ
    → ℕ
    → Database
    → List NetworkObservation
    → Database
    → OperationalSnapshot
read_snapshot collate max_attempts generated_at now measured rows inspected =
    snapshot_of generated_at (measure_database collate max_attempts now measured rows)
      (inspect inspected)

-- `UnavailableOperationalSnapshotReader.read`
unfoldable pub read_unavailable : Text → ℕ → OperationalSnapshot
read_unavailable why generated_at = record {
  provenance = provenance_at generated_at;
  health = degraded;
  data_state = partial;
  payments = record {
    state = unavailable;
    total = none;
    by_status = none;
    operations = none;
    reason = some why;
  };
  ledger = record {
    state = unavailable;
    balanced = none;
    discrepancies = none;
    discrepancy_kinds = none;
    inspected_at = none;
    reason = some why;
  };
  outbox = record {
    state = unavailable;
    unpublished = none;
    poison_messages = none;
    oldest_unpublished_age_seconds = none;
    reason = some why;
  };
  network = record {
    state = unavailable;
    observations = none;
    by_disposition = none;
    timeouts = none;
    late_responses = none;
    p95_latency_ms = none;
    routes = none;
    reason = some why;
  };
  incidents = codes "durable operational database is unavailable" ∷ [];
  missing_sections = codes "payments" ∷ codes "ledger" ∷ codes "outbox" ∷ codes "network" ∷ [];
}
