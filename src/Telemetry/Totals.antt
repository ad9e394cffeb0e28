-- ===== src/Telemetry/Totals.antt =====
-- Lemmas on the metrics of a network flow beside its durable observations.
use mathlib.Core.List.{append-nil}
use atlas_pay.Network.Flow.Kept.{flow_exchange-history}
use atlas_pay.Network.Flow.Results.{flow-Keeps}
use atlas_pay.Prelude.{
  length, Error, Result, err, ok, ℕ, ◌≡◌, refl, sym, ◌∙◌, Bool, true, Option, none, some, List, [],
  ◌∷◌, ◌++◌, arith,
}
use atlas_pay.Iso8583.Spec.{Iso8583Message}
use atlas_pay.Network.Coordinator.{TransactionDisposition, Coordinator, handle_response}
use atlas_pay.Network.History.{
  NetworkObservation, Writer, History, next_write, store, record_observation,
}
use atlas_pay.Network.Attempt.{NetworkAttempt, NetworkFlowResult, FlowConfig, FlowState}
use atlas_pay.Snapshot.Grouping.{count_where}
use atlas_pay.Telemetry.{
  Telemetry, new_telemetry, begin_observation, end_observation, exception_of, carried,
  exchange_observed, late_counted, handle_late_observed,
}
use atlas_pay.Network.Transport.Outcomes.{is_timeout as is_timeout_outcome}
use atlas_pay.Network.Flow.{flow_exchange, observe, result_row, late_row, recorded, after_late}
use atlas_pay.Telemetry.Tally.{
  is_reversed, IsTallied, count_where-append, raised-IsTallied, returned-IsTallied, late-IsTallied,
}
use atlas_pay.Snapshot.Measurements.{is_timeout as is_timeout_row, has_disposition}
use atlas_pay.Prelude.Dict.{is_some}

-- The rows that are stored, the observations whose write raised, and the telemetry.
abbrev pub Kept : Type 0
Kept = List NetworkObservation × List NetworkObservation × Telemetry

-- The observation that `exchange` hands to the writer, and the one of `handle_late_response`.
abbrev pub exchange_row : NetworkAttempt → ℕ → Result NetworkFlowResult → List NetworkObservation
exchange_row attempt completed_at (err e) = []
exchange_row attempt completed_at (ok r) = result_row attempt completed_at r ∷ []

abbrev pub response_row :
    NetworkAttempt → ℕ → Result (TransactionDisposition × Coordinator) → List NetworkObservation
response_row attempt now (err e) = []
response_row attempt now (ok (d, c)) = late_row attempt now d ∷ []

-- What a call loses of the observations that it hands over.
abbrev pub lost_by : Result (Unit {0}) → List NetworkObservation → List NetworkObservation
lost_by (ok done) handed = []
lost_by (err e) handed = handed

-- The exchanges and the late responses of a flow that keeps a history and has telemetry, whether they
-- return or raise, whatever the writer raises, and whatever happens to the rest of the state between
-- them. The observation whose write raises is lost.
pub data Step {T P : Type 0} (config : FlowConfig T P) : Kept → Kept → Type 0 where
  exchanges :
      {lost : List NetworkObservation} {t : Telemetry} {w w' : Writer} (attempt : NetworkAttempt)
      (completed_at elapsed : ℕ) (s : FlowState T P)
      → s.history ≡ some w
      → (exchange_observed config attempt completed_at elapsed t s).1.history ≡ some w'
      → Step config
          (w.rows, lost, t)
          (
            w'.rows,
            lost
                ++ lost_by (next_write s.history) (
                    exchange_row attempt completed_at
                      (flow_exchange config attempt completed_at s).0),
            (exchange_observed config attempt completed_at elapsed t s).2,
          )
  late_responses :
      {lost : List NetworkObservation} {t : Telemetry} {w w' : Writer} (attempt : NetworkAttempt)
      (response : Iso8583Message) (now : ℕ) (s : FlowState T P)
      → s.history ≡ some w
      → (handle_late_observed attempt response now t s).1.history ≡ some w'
      → Step config
          (w.rows, lost, t)
          (
            w'.rows,
            lost
                ++ lost_by (next_write s.history) (
                    response_row attempt now
                      (handle_response attempt.request response now s.coordinator)),
            (handle_late_observed attempt response now t s).2,
          )

pub data Reach {T P : Type 0} (config : FlowConfig T P) : Kept → Type 0 where
  start_up : Reach config ([], [], new_telemetry)
  then_step : {a b : Kept} → Reach config a → Step config a b → Reach config b

-- Two lists of rows with the same counts are tallied alike.
abbrev Alike : List NetworkObservation → List NetworkObservation → Type 0
Alike xs ys = (p : NetworkObservation → Bool) → count_where p xs ≡ count_where p ys

count_where-all : (xs : List NetworkObservation) → count_where (λ x. true) xs ≡ length xs
unfolding count_where
count_where-all [] = refl
count_where-all (x ∷ xs) = ground (arith, count_where-all xs)

Alike-IsTallied :
    (xs ys : List NetworkObservation) (t : Telemetry)
    → Alike xs ys
    → IsTallied xs t
    → IsTallied ys t
Alike-IsTallied xs ys t same h = record {
  dispositions = λ d. h.dispositions d ∙ same (has_disposition d);
  timeouts = h.timeouts ∙ same is_timeout_row;
  reversals = h.reversals ∙ same is_reversed;
  planned = sym (same is_reversed) ∙ h.planned ∙ same is_timeout_row;
  measured = h.measured;
  exchanges = h.exchanges;
  spanned = h.spanned;
  stored = omega (arith, h.stored, same (λ x. true), count_where-all xs, count_where-all ys);
}

kept_row :
    (p : NetworkObservation → Bool) (o : NetworkObservation) (rows lost : List NetworkObservation)
    → count_where p ((rows ++ lost) ++ (o ∷ []))
      ≡ count_where p ((rows ++ (o ∷ [])) ++ (lost ++ []))
unfolding count_where
kept_row p o rows lost = omega (
  arith,
  count_where-append p (rows ++ lost) (o ∷ []),
  count_where-append p rows lost,
  count_where-append p (rows ++ (o ∷ [])) (lost ++ []),
  count_where-append p rows (o ∷ []),
  count_where-append p lost [],
)

-- A row that is handed over is stored or lost.
handed-Alike :
    (o : NetworkObservation) (rows lost : List NetworkObservation) (faults : List (Option Error))
    → Alike ((rows ++ lost) ++ (o ∷ [])) (
        (store o rows faults).rows
        ++ (lost ++ lost_by (next_write (some (record { rows = rows; faults = faults }))) (o ∷ [])))
unfolding store next_write count_where
handed-Alike o rows lost [] p = kept_row p o rows lost
handed-Alike o rows lost (none ∷ faults) p = kept_row p o rows lost
handed-Alike o rows lost (some e ∷ faults) p = omega (
  arith,
  count_where-append p (rows ++ lost) (o ∷ []),
  count_where-append p rows lost,
  count_where-append p rows (lost ++ (o ∷ [])),
  count_where-append p lost (o ∷ []),
)

lost_none : (r : Result (Unit {0})) → lost_by r [] ≡ []
lost_none (ok done) = refl
lost_none (err e) = refl

handed_none :
    (rows lost : List NetworkObservation) (r : Result (Unit {0}))
    → (rows ++ lost) ++ [] ≡ rows ++ (lost ++ lost_by r [])
handed_none rows lost r = rw (lost_none r, append-nil lost, append-nil (rows ++ lost)) refl

module _ {T P : Type 0} (config : FlowConfig T P) (attempt : NetworkAttempt) where
  exchange-IsTallied :
      (lost : List NetworkObservation) (t : Telemetry) (completed_at elapsed : ℕ)
      (result : Result NetworkFlowResult) (s : FlowState T P) (first : History) (w w' : Writer)
      → first ≡ some w
      → IsTallied (w.rows ++ lost) t
      → s.history ≡ some w
      → ((r : NetworkFlowResult)
          → result ≡ ok r
          → is_some r.reversal ≡ is_timeout_outcome r.transport_outcome)
      → (recorded attempt completed_at result s).1.history ≡ some w'
      → IsTallied
          (w'.rows
            ++ (lost ++ lost_by (next_write first) (exchange_row attempt completed_at result)))
          (end_observation attempt.route elapsed
            (exception_of result)
            (carried result)
            (begin_observation attempt.route t))
  unfolding recorded observe record_observation
  exchange-IsTallied lost t completed_at elapsed (err e) s first w w' e₀ h kept planned after =
      let same : w ≡ w' = ground (arith, kept, after) in
      rw (e₀, ← same, ← handed_none w.rows lost (next_write (some w)))
        (raised-IsTallied (w.rows ++ lost) t h attempt.route elapsed e)
  exchange-IsTallied lost t completed_at elapsed (ok r) s first w w' e₀ h kept planned after =
      let row = result_row attempt completed_at r in
      let same : store row w.rows w.faults ≡ w' = ground (arith, rw kept at after) in
      rw (e₀, ← same)
        (Alike-IsTallied _ _ _ (handed-Alike row w.rows lost w.faults) (
          returned-IsTallied (w.rows ++ lost) t h attempt.route elapsed r row refl refl refl
            (planned r refl)))

  late-response-IsTallied :
      (lost : List NetworkObservation) (t : Telemetry) (now : ℕ)
      (answered : Result (TransactionDisposition × Coordinator)) (s : FlowState T P)
      (first : History) (w w' : Writer)
      → first ≡ some w
      → IsTallied (w.rows ++ lost) t
      → s.history ≡ some w
      → (after_late attempt now s answered).1.history ≡ some w'
      → IsTallied
          (w'.rows ++ (lost ++ lost_by (next_write first) (response_row attempt now answered)))
          (late_counted attempt answered t)
  unfolding after_late observe record_observation late_counted
  late-response-IsTallied lost t now (err e) s first w w' e₀ h kept after =
      let same : w ≡ w' = ground (arith, kept, after) in
      rw (e₀, ← same, ← handed_none w.rows lost (next_write (some w)), append-nil (w.rows ++ lost))
        h
  late-response-IsTallied lost t now (ok (d, c)) s first w w' e₀ h kept after =
      let row = late_row attempt now d in
      let same : store row w.rows w.faults ≡ w' = ground (arith, rw kept at after) in
      rw (e₀, ← same)
        (Alike-IsTallied _ _ _ (handed-Alike row w.rows lost w.faults)
          (late-IsTallied (w.rows ++ lost) t h attempt.route d row refl refl refl))

module _ {T P : Type 0} (config : FlowConfig T P) where
  Step-IsTallied :
      {a b : Kept} → Step config a b → IsTallied (a.0 ++ a.1) a.2 → IsTallied (b.0 ++ b.1) b.2
  unfolding exchange_observed handle_late_observed
  Step-IsTallied (exchanges {lost} {t} {w} {w'} attempt completed_at elapsed s kept after) h =
      let f = flow_exchange config attempt completed_at s in
      (exchange-IsTallied config attempt lost t completed_at elapsed f.0 f.1 s.history w w' kept h
        (flow_exchange-history config attempt completed_at s ∙ kept)
        (λ q e. (flow-Keeps config attempt completed_at s q e).reversal_on_timeout) after)
  Step-IsTallied (late_responses {lost} {t} {w} {w'} attempt response now s kept after) h =
      (late-response-IsTallied config attempt lost t now
        (handle_response attempt.request response now s.coordinator) s s.history w w' kept h kept
        after)

  -- Through any exchanges and late responses, whether they return or raise, the metrics agree with the
  -- stored observations and those whose write raised, taken together: each disposition and each
  -- timeout has been counted as often as it stands there; a reversal was counted for each timeout;
  -- every attempt has one latency and one outcome, and the other outcomes are those of late responses;
  -- there are as many spans as outcomes, and as many of them without an exception as observations.
  pub Reach-IsTallied :
      (reached : Kept) → Reach config reached → IsTallied (reached.0 ++ reached.1) reached.2
  unfolding count_where
  Reach-IsTallied _ start_up = record {
    dispositions = λ d. refl;
    timeouts = refl;
    reversals = refl;
    planned = refl;
    measured = refl;
    exchanges = refl;
    spanned = refl;
    stored = refl;
  }
  Reach-IsTallied _ (then_step {a} reach step) = Step-IsTallied step (Reach-IsTallied a reach)
