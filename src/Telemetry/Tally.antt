-- ===== src/Telemetry/Tally.antt =====
-- The metrics of a flow against its stored observations, and what one outcome more does to both: for
-- app/network_observability.py.
use atlas_pay.Prelude.{
  length, length-append, Error, err, ok, list_beq, text_eq, ◌==◌, nat_eq, Text, codes, ℕ, ◌+◌, ◌≡◌,
  refl, sym, ap, ◌∙◌, Bool, true, false, Option, none, some, List, [], ◌∷◌, ◌++◌, arith,
}
use atlas_pay.Network.Routing.{IssuerRoute, route, ReversalReason, ReversalLink}
use atlas_pay.Network.Coordinator.{TransactionDisposition, disposition_text}
use atlas_pay.Network.History.{NetworkObservation}
use atlas_pay.Network.Attempt.{NetworkFlowResult}
use atlas_pay.Snapshot.Grouping.{count_where, triple_eq}
use atlas_pay.Snapshot.Measurements.{has_disposition, is_timeout}
use atlas_pay.Telemetry.{
  OutcomeLabels, Span, Telemetry, outcome_text, reason_text, disposition_or_none, begin_observation,
  count_reversal, exchange_span, late_span, end_observation, record_late_response, carried,
}
use atlas_pay.Network.Transport.Outcomes.{is_timeout as is_timeout_outcome}
use atlas_pay.Prelude.Dict.{is_some}
use atlas_pay.Network.Transport.{
  TransportOutcome, response_outcome, timeout_outcome, failure_outcome,
}
use atlas_pay.Network.Flow.{reason_of}

abbrev pub is_async : OutcomeLabels → Bool
is_async o = o.transport_outcome == codes "async_response"

abbrev pub is_reversed : NetworkObservation → Bool
is_reversed o = elim o.reversal_reason [ none ↦ false | some r ↦ true ]

abbrev pub is_raised : Span → Bool
is_raised s = is_some s.exception

-- The metrics against the rows: each disposition was counted as often as it was stored, and so was a
-- timeout; a reversal was counted for each row with a reason, and those are the timeouts; each attempt
-- has been measured, and has an outcome, of which there are no others than those of late responses.
-- Each outcome has a span, and each span either recorded an exception or has a row.
pub record IsTallied (rows : List NetworkObservation) (t : Telemetry) : Type 0 where
  pub dispositions :
      (d : TransactionDisposition)
      → count_where (λ (o : OutcomeLabels). o.disposition == disposition_text d) t.outcomes
        ≡ count_where (has_disposition d) rows
  pub timeouts :
      count_where (λ (o : OutcomeLabels). o.transport_outcome == codes "timeout") t.outcomes
      ≡ count_where is_timeout rows
  pub reversals : length t.reversals ≡ count_where is_reversed rows
  pub planned : count_where is_reversed rows ≡ count_where is_timeout rows
  pub measured : length t.latency ≡ length t.attempts
  pub exchanges : length t.attempts + count_where is_async t.outcomes ≡ length t.outcomes
  pub spanned : length t.spans ≡ length t.outcomes
  pub stored : length rows + count_where is_raised t.spans ≡ length t.spans

pub count_where-append :
    {A : Type 0} (p : A → Bool) (xs ys : List A)
    → count_where p (xs ++ ys) ≡ count_where p xs + count_where p ys
unfolding count_where
count_where-append p [] ys = omega arith
count_where-append p (x ∷ xs) ys = ground (arith, count_where-append p xs ys)

abbrev has_label : TransactionDisposition → OutcomeLabels → Bool
has_label d o = o.disposition == disposition_text d

abbrev has_timeout : OutcomeLabels → Bool
has_timeout o = o.transport_outcome == codes "timeout"

-- One more outcome, of an exchange or not, and the rows that fit it.
extended :
    (rows added : List NetworkObservation) (t t' : Telemetry) (o : OutcomeLabels) (span : Span)
    (exchanged : ℕ)
    → IsTallied rows t
    → t'.outcomes ≡ t.outcomes ++ (o ∷ [])
    → length t'.attempts ≡ length t.attempts + exchanged
    → length t'.latency ≡ length t.latency + exchanged
    → length t'.reversals ≡ length t.reversals + count_where is_reversed added
    → ((d : TransactionDisposition)
        → count_where (has_label d) (o ∷ []) ≡ count_where (has_disposition d) added)
    → count_where has_timeout (o ∷ []) ≡ count_where is_timeout added
    → count_where is_reversed added ≡ count_where is_timeout added
    → count_where is_async (o ∷ []) + exchanged ≡ 1
    → t'.spans ≡ t.spans ++ (span ∷ [])
    → length added + count_where is_raised (span ∷ []) ≡ 1
    → IsTallied (rows ++ added) t'
extended rows added t t' o span exchanged h outcomes attempts latency reversals fits_disposition
      fits_timeout planned async spans kept =
    record {
      dispositions = λ d. rw outcomes (
          omega (
            arith,
            count_where-append (has_label d) t.outcomes (o ∷ []),
            count_where-append (has_disposition d) rows added,
            h.dispositions d,
            fits_disposition d,
          ));
      timeouts = rw outcomes (
          omega (
            arith,
            count_where-append has_timeout t.outcomes (o ∷ []),
            count_where-append is_timeout rows added,
            h.timeouts,
            fits_timeout,
          ));
      reversals = omega (arith, reversals, h.reversals, count_where-append is_reversed rows added);
      planned = omega (
        arith,
        h.planned,
        planned,
        count_where-append is_reversed rows added,
        count_where-append is_timeout rows added,
      );
      measured = omega (arith, attempts, latency, h.measured);
      exchanges = rw outcomes (
          omega (
            arith,
            attempts,
            async,
            h.exchanges,
            count_where-append is_async t.outcomes (o ∷ []),
            length-append t.outcomes (o ∷ []),
          ));
      spanned =
          rw (outcomes, spans)
            (omega (
              arith,
              h.spanned,
              length-append t.outcomes (o ∷ []),
              length-append t.spans (span ∷ []),
            ));
      stored = rw spans (
          omega (
            arith,
            h.stored,
            kept,
            length-append rows added,
            length-append t.spans (span ∷ []),
            count_where-append is_raised t.spans (span ∷ []),
          ));
    }

label_of-disposition :
    (x : Option TransactionDisposition) (d : TransactionDisposition)
    → (disposition_or_none x == disposition_text d)
      ≡ elim x as (λ o. Bool) [ none ↦ false | some y ↦ disposition_text y == disposition_text d ]
unfolding list_beq
label_of-disposition none d = ground arith
label_of-disposition (some y) d = refl

label_of-timeout :
    (o : TransportOutcome)
    → (outcome_text o == codes "timeout")
      ≡ elim o as (λ x. Bool) [ timeout_outcome ↦ true | _ ↦ false ]
unfolding list_beq
label_of-timeout response_outcome = refl
label_of-timeout timeout_outcome = refl
label_of-timeout failure_outcome = refl

label_of-async : (o : TransportOutcome) → (outcome_text o == codes "async_response") ≡ false
unfolding list_beq
label_of-async response_outcome = refl
label_of-async timeout_outcome = refl
label_of-async failure_outcome = refl

one_more : {A : Type 0} (xs : List A) (x : A) → length (xs ++ (x ∷ [])) ≡ length xs + 1
one_more xs x = omega (arith, length-append xs (x ∷ []))

-- A test that two elements answer alike counts them alike.
alike :
    {A B : Type 0} (p : A → Bool) (q : B → Bool) (a : A) (b : B)
    → p a ≡ q b
    → count_where p (a ∷ []) ≡ count_where q (b ∷ [])
unfolding count_where
alike p q a b h = ground (arith, h)

no_row : {A : Type 0} (p : A → Bool) (a : A) → p a ≡ false → count_where p (a ∷ []) ≡ 0
unfolding count_where
no_row p a h = ground (arith, h)

async_timeout : (codes "async_response" == codes "timeout") ≡ false
unfolding list_beq
async_timeout = refl

counted :
    (route : IssuerRoute) (xs : List (Text × Text × Text)) (reason : Option ReversalReason)
    (row : NetworkObservation)
    → row.reversal_reason ≡ reason
    → length (count_reversal route reason xs) ≡ length xs + count_where is_reversed (row ∷ [])
unfolding count_reversal count_where
counted route xs none row e = ground (arith, e)
counted route xs (some why) row e =
    ground (arith, e, one_more xs (route.name, route.issuer_id, reason_text why))

reversed_timeout :
    (r : NetworkFlowResult) (row : NetworkObservation)
    → row.transport_outcome ≡ r.transport_outcome
    → row.reversal_reason ≡ reason_of r.reversal
    → is_some r.reversal ≡ is_timeout_outcome r.transport_outcome
    → is_reversed row ≡ is_timeout row
reversed_timeout r row outcome reason planned =
    ap (λ (x : Option ReversalReason). elim x as (λ o. Bool) [ none ↦ false | some y ↦ true ])
      reason
    ∙ reason_some r.reversal
    ∙ planned
    ∙ ap (λ (x : TransportOutcome). elim x as (λ o. Bool) [ timeout_outcome ↦ true | _ ↦ false ])
        (sym outcome)
  where
    reason_some :
        (l : Option ReversalLink)
        → elim (reason_of l) as (λ o. Bool) [ none ↦ false | some y ↦ true ] ≡ is_some l
    reason_some none = refl
    reason_some (some l) = refl

module _ (rows : List NetworkObservation) (t : Telemetry) (h : IsTallied rows t)
    (route : IssuerRoute) where
  -- An exchange that raised adds an outcome and no row.
  pub raised-IsTallied :
      (elapsed : ℕ) (e : Error)
      → IsTallied
          (rows ++ [])
          (end_observation route elapsed (some e) (carried (err e)) (begin_observation route t))
  unfolding end_observation carried begin_observation count_reversal count_where exchange_span
  raised-IsTallied elapsed e =
      extended rows [] t _ _ _ 1 h refl (one_more t.attempts _) (one_more t.latency _) (omega arith)
        (λ d. no_row (has_label d) _ (label_of-disposition none d))
        (no_row has_timeout _ (label_of-timeout failure_outcome)) refl
        (omega (arith, no_row is_async _ (label_of-async failure_outcome))) refl refl

  -- An exchange that returned adds an outcome and its row.
  pub returned-IsTallied :
      (elapsed : ℕ) (r : NetworkFlowResult) (row : NetworkObservation)
      → row.transport_outcome ≡ r.transport_outcome
      → row.disposition ≡ r.disposition
      → row.reversal_reason ≡ reason_of r.reversal
      → is_some r.reversal ≡ is_timeout_outcome r.transport_outcome
      → IsTallied
          (rows ++ (row ∷ []))
          (end_observation route elapsed none (carried (ok r)) (begin_observation route t))
  unfolding end_observation carried begin_observation exchange_span count_where
  returned-IsTallied elapsed r row outcome disposition reason planned =
      extended rows (row ∷ []) t _ _ _ 1 h refl (one_more t.attempts _) (one_more t.latency _)
        (counted route t.reversals (reason_of r.reversal) row reason)
        (λ d. alike (has_label d) (has_disposition d) _ row (
          label_of-disposition r.disposition d
          ∙ ap
              (λ (x : Option TransactionDisposition). elim x as (λ o. Bool) [
                | none ↦ false
                | some y ↦ disposition_text y == disposition_text d
              ])
              (sym disposition)))
        (alike has_timeout is_timeout _ row (
          label_of-timeout r.transport_outcome
          ∙ ap
              (λ (x : TransportOutcome). elim x as (λ o. Bool) [
                | timeout_outcome ↦ true
                | _ ↦ false
              ])
              (sym outcome)))
        (alike is_reversed is_timeout row row (reversed_timeout r row outcome reason planned))
        (omega (arith, no_row is_async _ (label_of-async r.transport_outcome))) refl refl

  -- A late response adds an outcome and its row.
  pub late-IsTallied :
      (d : TransactionDisposition) (row : NetworkObservation)
      → row.transport_outcome ≡ response_outcome
      → row.disposition ≡ some d
      → row.reversal_reason ≡ none
      → IsTallied (rows ++ (row ∷ [])) (record_late_response route d t)
  unfolding record_late_response late_span count_where list_beq
  late-IsTallied d row outcome disposition reason =
      let labels : OutcomeLabels = record {
        route = route.name;
        issuer = route.issuer_id;
        transport_outcome = codes "async_response";
        disposition = disposition_text d;
        delivery_unknown = codes "false";
      } in
      extended rows (row ∷ []) t _ labels _ 0 h refl (omega arith) (omega arith)
        (omega (arith, no_row is_reversed row (ground (arith, reason))))
        (λ x. alike (has_label x) (has_disposition x) labels row (rw disposition refl))
        (alike has_timeout is_timeout labels row (
          async_timeout
          ∙ ap
              (λ (x : TransportOutcome). elim x as (λ o. Bool) [
                | timeout_outcome ↦ true
                | _ ↦ false
              ])
              (sym outcome)))
        (alike is_reversed is_timeout row row (ground (arith, reason, outcome))) refl refl refl
