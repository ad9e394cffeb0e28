-- ===== src/Snapshot/Counts.antt =====
-- Lemmas on the counts of a snapshot beside the rows that they count.
use atlas_pay.Prelude.{
  length, text_eq, ◌==◌, nat_eq, Text, ℕ, ◌+◌, ◌≤◌, ◌≡◌, Option, none, some, List, [], ◌∷◌,
}
use atlas_pay.Prelude.Dict.{Dict, lookup}
use atlas_pay.Payments.Database.{PaymentStatus, status_text, status_eq, Payment, Database}
use atlas_pay.Network.History.{NetworkObservation}
use atlas_pay.Snapshot.Grouping.{count_where, triple_eq}
use atlas_pay.Snapshot.Sections.{RouteNetworkSummary, DatabaseMeasurements}
use atlas_pay.Snapshot.Measurements.{has_disposition}
use atlas_pay.Network.Coordinator.{TransactionDisposition, disposition_text}

-- The sum of one column over the routes.
pub sum_routes : (RouteNetworkSummary → ℕ) → List RouteNetworkSummary → ℕ
sum_routes column [] = 0
sum_routes column (r ∷ routes) = column r + sum_routes column routes

abbrev pub or_zero : Option ℕ → ℕ
or_zero none = 0
or_zero (some n) = n

abbrev length_of : Option (List Text) → Option ℕ
length_of none = none
length_of (some rows) = some (length rows)

-- The count of a text, 0 where it is not listed.
abbrev pub count_of : Text → Dict Text ℕ → ℕ
count_of t counts = or_zero (lookup t counts)

-- What a snapshot's figures say of the rows that were measured.
pub record IsCounted (payments : List Payment) (rows : List NetworkObservation)
    (m : DatabaseMeasurements) : Type 0 where
  pub total : m.payment_total ≡ length payments
  pub by_status :
      (s : PaymentStatus)
      → count_of (status_text s) m.payment_status_counts
        ≡ count_where (λ (p : Payment). p.status == s) payments
  pub by_disposition :
      (d : TransactionDisposition)
      → count_of (disposition_text d) m.network_disposition_counts
        ≡ count_where (has_disposition d) rows
  pub observations :
      sum_routes (λ (r : RouteNetworkSummary). r.observations) m.network_routes ≡ length rows
  pub accepted :
      sum_routes (λ (r : RouteNetworkSummary). r.accepted) m.network_routes
      ≡ count_where (has_disposition TransactionDisposition.accepted) rows
  pub timeouts :
      sum_routes (λ (r : RouteNetworkSummary). r.timeouts) m.network_routes ≡ m.network_timeouts
  pub late :
      sum_routes (λ (r : RouteNetworkSummary). r.late_responses) m.network_routes
      ≡ m.network_late_responses
  pub unknown :
      sum_routes (λ (r : RouteNetworkSummary). r.delivery_unknown) m.network_routes
      ≡ count_where (λ o. o.delivery_unknown) rows
  pub poison : m.poison_outbox ≤ m.unpublished_outbox
