-- ===== src/Snapshot/Measurements.antt =====
-- The queries of `_measure_database` of app/operational_snapshot.py: one transaction, on the payments'
-- tables and on the rows of `network_observations`. The database's collation is a parameter, and `now`
-- stands for `NOW()`; an age is a number of its ticks.
use atlas_pay.Prelude.{
  leb, if◌then◌else◌, length, text_eq, ◌==◌, nat_eq, Text, ℕ, ◌-◌, Bool, true, false, not, ◌&&◌,
  Option, none, some, List, [], ◌∷◌, map,
}
use atlas_pay.Prelude.Dict.{Dict}
use atlas_pay.Payments.Database.{status_text, status_eq, Payment, EventRow, Database}
use atlas_pay.Payments.Outbox.{is_published}
use atlas_pay.Network.Coordinator.{TransactionDisposition, accepted, late, disposition_text}
use atlas_pay.Network.Transport.{timeout_outcome}
use atlas_pay.Network.History.{NetworkObservation}
use atlas_pay.Snapshot.Grouping.{group_by, count_rows, sum_values, count_where, Triple, triple_eq}
use atlas_pay.Snapshot.Percentile.{p95}
use atlas_pay.Snapshot.Sections.{RouteNetworkSummary, DatabaseMeasurements}

-- `WHERE disposition IS NOT NULL`
unfoldable pub dispositions : List NetworkObservation → List Text
dispositions [] = []
dispositions (o ∷ rows) = elim o.disposition [
  | none ↦ dispositions rows
  | some d ↦ disposition_text d ∷ dispositions rows
]

abbrev pub has_disposition : TransactionDisposition → NetworkObservation → Bool
has_disposition d o = elim o.disposition [
  | none ↦ false
  | some x ↦ disposition_text x == disposition_text d
]

abbrev pub is_timeout : NetworkObservation → Bool
is_timeout o = elim o.transport_outcome [ timeout_outcome ↦ true | _ ↦ false ]

abbrev pub is_poison : ℕ → EventRow → Bool
is_poison max_attempts e = not (is_published e) && leb max_attempts e.attempts

abbrev pub is_unpublished : EventRow → Bool
is_unpublished e = not (is_published e)

-- `MIN(created_at) FILTER (WHERE published_at IS NULL)`
unfoldable pub oldest_unpublished : List EventRow → Option ℕ
oldest_unpublished [] = none
oldest_unpublished (e ∷ events) =
    let rest = oldest_unpublished events in
    if is_published e
    then rest
    else some (elim rest [
      | none ↦ e.created_at
      | some t ↦ if leb e.created_at t then e.created_at else t
    ])

-- The age of the oldest, or 0 for none; an event of the future is of no age.
unfoldable pub oldest_age : ℕ → Option ℕ → ℕ
oldest_age now none = 0
oldest_age now (some created) = now - created

abbrev pub latencies : List NetworkObservation → List ℕ
latencies = map (λ (o : NetworkObservation). o.latency_ms)

-- The three columns by which the last query groups.
abbrev pub route_key : NetworkObservation → Triple
route_key o = (o.route.name, o.route.issuer_id, o.route.acquirer_id)

-- One row of the last query, and its summary.
unfoldable pub summarize_route : Triple → List NetworkObservation → RouteNetworkSummary
summarize_route (name, issuer, acquirer) rows = record {
  route_name = name;
  issuer_id = issuer;
  acquirer_id = acquirer;
  observations = length rows;
  accepted = count_where (has_disposition accepted) rows;
  timeouts = count_where is_timeout rows;
  late_responses = count_where (has_disposition late) rows;
  delivery_unknown = count_where (λ o. o.delivery_unknown) rows;
  p95_latency_ms = p95 (latencies rows);
}

unfoldable pub summarize_routes : Dict Triple (List NetworkObservation) → List RouteNetworkSummary
summarize_routes [] = []
summarize_routes ((k, rows) ∷ groups) = summarize_route k rows ∷ summarize_routes groups

module _ (collate : Text → Text → Bool) where
  -- `ORDER BY route_name, issuer_id, acquirer_id`
  abbrev pub collate_triple : Triple → Triple → Bool
  collate_triple (a, b, c) (x, y, z) =
      if not (a == x) then collate a x else if not (b == y) then collate b y else collate c z

  abbrev pub count_texts : List Text → Dict Text ℕ
  count_texts texts = count_rows (group_by collate (λ (t : Text). t) texts)

  unfoldable pub measure_database :
      ℕ → ℕ → Database → List NetworkObservation → DatabaseMeasurements
  measure_database max_attempts now db rows =
      let status_counts = count_texts (map (λ (p : Payment). status_text p.status) db.payments) in
      record {
        payment_total = sum_values status_counts;
        payment_status_counts = status_counts;
        operation_count = length db.operations;
        unpublished_outbox = count_where is_unpublished db.events;
        poison_outbox = count_where (is_poison max_attempts) db.events;
        oldest_unpublished_age_seconds = oldest_age now (oldest_unpublished db.events);
        network_observations = length rows;
        network_disposition_counts = count_texts (dispositions rows);
        network_timeouts = count_where is_timeout rows;
        network_late_responses = count_where (has_disposition late) rows;
        network_p95_latency_ms = p95 (latencies rows);
        network_routes = summarize_routes (group_by collate_triple route_key rows);
      }
