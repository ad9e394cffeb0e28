-- ===== src/Snapshot/Health.antt =====
-- Lemmas on the health that a snapshot reports.
use atlas_pay.Prelude.{
  if◌then◌else◌, any, all, is_empty, text_eq, ◌==◌, nat_eq, Text, ℕ, ◌≡◌, refl, ◌↔◌, ◌⊎◌, Bool,
  true, false, not, ◌&&◌, ◌||◌, List, [], ◌∷◌, arith,
}
use atlas_pay.Payments.Database.{status_eq, EventRow, Database}
use atlas_pay.Payments.Outbox.{is_published}
use atlas_pay.Payments.Reconciliation.{Discrepancy, inspect, is_clean}
use atlas_pay.Snapshot.Grouping.{count_where, triple_eq}
use atlas_pay.Snapshot.Sections.{SnapshotHealth, healthy, degraded, critical, OperationalSnapshot}
use atlas_pay.Snapshot.Measurements.{is_poison, is_unpublished, measure_database}
use atlas_pay.Snapshot.Reader.{incidents_of, health_of, snapshot_of, read_snapshot}
use atlas_pay.Network.History.{NetworkObservation}

-- What each level of health means for the database as it was measured and as it was inspected.
abbrev pub Means : ℕ → Database → Database → SnapshotHealth → Type 0
Means max_attempts measured inspected healthy =
    (is_clean (inspect inspected) ≡ true) × (all is_published measured.events ≡ true)
Means max_attempts measured inspected degraded =
    (is_clean (inspect inspected) ≡ true)
    × (any (is_poison max_attempts) measured.events ≡ false)
    × (all is_published measured.events ≡ false)
Means max_attempts measured inspected critical =
    (is_clean (inspect inspected) ≡ false) ⊎ (any (is_poison max_attempts) measured.events ≡ true)

-- The health is the one whose meaning holds; it is critical exactly if there is an incident.
pub record IsClassified (max_attempts : ℕ) (measured inspected : Database) (s : OperationalSnapshot)
    : Type 0 where
  pub means : (h : SnapshotHealth) → (s.health ≡ h) ↔ Means max_attempts measured inspected h
  pub incidents : (s.health ≡ critical) ↔ (is_empty s.incidents ≡ false)

none_counted :
    (p : EventRow → Bool) (events : List EventRow)
    → (count_where p events == 0) ≡ not (any p events)
unfolding count_where
none_counted p [] = refl
none_counted p (e ∷ events) = ground (arith, none_counted p events)

all_published : (events : List EventRow) → not (any is_unpublished events) ≡ all is_published events
all_published [] = refl
all_published (e ∷ events) = ground (arith, all_published events)

-- An event at the retry limit is not published.
poison-unpublished :
    (max_attempts : ℕ) (events : List EventRow)
    → any (is_poison max_attempts) events ≡ true
    → all is_published events ≡ false
poison-unpublished max_attempts [] h = ground (arith, h)
poison-unpublished max_attempts (e ∷ events) h =
    ground (arith, h, poison-unpublished max_attempts events)

-- The verdict on three facts: a clean report, an event at the retry limit, all events published.
abbrev verdict : Bool → Bool → Bool → SnapshotHealth
verdict clean poison published =
    if not clean || poison then critical else if not published then degraded else healthy

health_of-verdict :
    (max_attempts : ℕ) (report : List Discrepancy) (events : List EventRow)
    → health_of report
        (count_where (is_poison max_attempts) events)
        (count_where is_unpublished events)
      ≡ verdict (is_empty report) (any (is_poison max_attempts) events) (all is_published events)
unfolding health_of
health_of-verdict max_attempts report events =
    rw
      (
        none_counted (is_poison max_attempts) events,
        none_counted is_unpublished events,
        all_published events,
      )
      (ground arith)

incidents_of-empty :
    (max_attempts : ℕ) (report : List Discrepancy) (events : List EventRow)
    → is_empty (incidents_of report (count_where (is_poison max_attempts) events))
      ≡ (is_empty report && not (any (is_poison max_attempts) events))
unfolding incidents_of
incidents_of-empty max_attempts report events =
    rw (none_counted (is_poison max_attempts) events) (ground arith)

verdict_means :
    (c p q : Bool)
    → (p ≡ true → q ≡ false)
    → ((verdict c p q ≡ healthy) ↔ ((c ≡ true) × (q ≡ true)))
      × ((verdict c p q ≡ degraded) ↔ ((c ≡ true) × (p ≡ false) × (q ≡ false)))
      × ((verdict c p q ≡ critical) ↔ ((c ≡ false) ⊎ (p ≡ true)))
verdict_means true true true h = absurd (ground (arith, h))
verdict_means true true false h = ground arith
verdict_means true false true h = ground arith
verdict_means true false false h = ground arith
verdict_means false true true h = absurd (ground (arith, h))
verdict_means false true false h = ground arith
verdict_means false false true h = ground arith
verdict_means false false false h = ground arith

verdict_incidents : (c p q : Bool) → (verdict c p q ≡ critical) ↔ ((c && not p) ≡ false)
verdict_incidents true true q = ground arith
verdict_incidents true false true = ground arith
verdict_incidents true false false = ground arith
verdict_incidents false p q = ground arith

health-Means :
    (max_attempts : ℕ) (measured inspected : Database) (h : SnapshotHealth)
    → (verdict
          (is_clean (inspect inspected))
          (any (is_poison max_attempts) measured.events)
          (all is_published measured.events)
        ≡ h)
      ↔ Means max_attempts measured inspected h
health-Means max_attempts measured inspected healthy =
    (verdict_means _ _ _ (poison-unpublished max_attempts measured.events)).0
health-Means max_attempts measured inspected degraded =
    (verdict_means _ _ _ (poison-unpublished max_attempts measured.events)).1
health-Means max_attempts measured inspected critical =
    (verdict_means _ _ _ (poison-unpublished max_attempts measured.events)).2

-- The health of a snapshot is critical exactly if the report is not clean or an event that is not
-- published has reached the retry limit, and exactly then there is an incident; it is healthy exactly if
-- the report is clean and every event is published; it is degraded in the cases that are left. What
-- was measured and what was inspected may be two states of the database.
pub read_snapshot-IsClassified :
    (collate : Text → Text → Bool) (max_attempts generated_at now : ℕ) (measured : Database)
    (rows : List NetworkObservation) (inspected : Database)
    → IsClassified max_attempts measured inspected
        (read_snapshot collate max_attempts generated_at now measured rows inspected)
unfolding read_snapshot snapshot_of measure_database
read_snapshot-IsClassified collate max_attempts generated_at now measured rows inspected =
    let report = inspect inspected in
    let same = health_of-verdict max_attempts report measured.events in
    record {
      means = λ h. rw same (health-Means max_attempts measured inspected h);
      incidents =
          rw (same, incidents_of-empty max_attempts report measured.events)
            (verdict_incidents (is_empty report) (any (is_poison max_attempts) measured.events)
              (all is_published measured.events));
    }
