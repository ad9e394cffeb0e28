-- ===== src/Tests/Delivery.antt =====
-- The outbox on two events.
use atlas_pay.Prelude.{
  length, runtime_error, err, ok, list_beq, Text, codes, is_blank, ascii_only, ℕ, suc, ◌+◌, ◌≤◌,
  ◌≡◌, refl, true, false, none, some, [], ◌∷◌, arith,
}
use atlas_pay.Payments.Database.{
  authorized, captured, capture, EventRow, Database, empty_database, update,
}
use atlas_pay.Payments.Outbox.{
  is_available, insert_by_time, by_time, has_id, is_among, lock, select_batch, claim_batch,
  acknowledge, record_failure, Callback, settle_event, publish_events, publish_batch, after_handler,
  consume_once,
}
use atlas_pay.Payments.Outbox.Leases.{Each, no_claim, claim_batch-disjoint}
use atlas_pay.Payments.Outbox.Waiting.{waiting_count, publish_rounds}
use atlas_pay.Payments.Outbox.Progress.{Publishes}
use atlas_pay.Payments.Outbox.Drain.{IsDrained, publish_rounds-IsDrained}
use atlas_pay.Payments.Outbox.Consumption.{consume_once-once}
use atlas_pay.Payments.Outbox.Delivery.{
  acknowledges, consumes, here, further, acknowledge-unclaimed,
}

abbrev pub event : Text → ℕ → EventRow
event id at = record {
  id = id;
  aggregate_type = codes "payment";
  aggregate_id = codes "pay_1";
  event_type = codes "payment.captured";
  payload = record {
    amount = 1;
    currency = codes "MAD";
    from_status = authorized;
    journal_transaction_id = codes "j";
    operation = capture;
    operation_id = codes "op";
    payment_id = codes "pay_1";
    to_status = captured;
  };
  created_at = at;
  published_at = none;
  attempts = 0;
  last_error = none;
  locked_at = none;
}

-- The younger event stands first in the table.
abbrev pub two_events : Database
two_events = record empty_database { events = event (codes "b") 2 ∷ event (codes "a") 1 ∷ [] }

abbrev after_claim : Database
after_claim = record empty_database {
  events = event (codes "b") 2 ∷ lock 10 (event (codes "a") 1) ∷ [];
}

first_claim : claim_batch 10 1 5 60 two_events ≡ ok (event (codes "a") 1 ∷ [], after_claim)
unfolding claim_batch select_batch by_time insert_by_time is_available update list_beq
first_claim = refl

abbrev both_claimed : Database
both_claimed = record empty_database {
  events = lock 20 (event (codes "b") 2) ∷ lock 10 (event (codes "a") 1) ∷ [];
}

second_claim : claim_batch 20 5 5 60 after_claim ≡ ok (event (codes "b") 2 ∷ [], both_claimed)
unfolding claim_batch select_batch by_time insert_by_time is_available update list_beq
second_claim = refl

soon : 20 ≤ 10 + 60
soon = omega arith

claim_batch-disjoint_example :
    Each (λ e. is_among (event (codes "a") 1 ∷ []) e ≡ false) (event (codes "b") 2 ∷ [])
claim_batch-disjoint_example =
    claim_batch-disjoint 10 20 1 5 5 5 60 60 two_events after_claim after_claim both_claimed
      (event (codes "a") 1 ∷ []) (event (codes "b") 2 ∷ []) first_claim no_claim second_claim soon

acknowledged_first : (acknowledge (codes "a") 15 after_claim).0 ≡ true
unfolding acknowledge list_beq
acknowledged_first = refl

abbrev after_retry : Database
after_retry = (acknowledge (codes "a") 15 after_claim).1

abbrev retried : Database
retried = record empty_database {
  events =
      lock 200 (event (codes "b") 2)
      ∷ record (event (codes "a") 1) { published_at = some 15; attempts = 1 }
      ∷ [];
}

late_claim : claim_batch 200 5 5 60 after_retry ≡ ok (event (codes "b") 2 ∷ [], retried)
unfolding claim_batch select_batch by_time insert_by_time is_available acknowledge update list_beq
late_claim = refl

acknowledge-unclaimed_example : Each (λ e. has_id (codes "a") e ≡ false) (event (codes "b") 2 ∷ [])
acknowledge-unclaimed_example =
    acknowledge-unclaimed (codes "a") 15 200 5 5 60 after_claim after_retry retried
      (event (codes "b") 2 ∷ []) acknowledged_first here late_claim

-- A handler that counts, and one that raises.
abbrev counting : Callback ℕ
counting e n = (ok tt, suc n)

abbrev raising : Callback ℕ
raising e n = (err runtime_error, suc n)

abbrev consumed_once : Database
consumed_once = record two_events { consumed = (codes "mailer", codes "a") ∷ [] }

consume_test :
    consume_once ascii_only (codes "mailer") (event (codes "a") 1) counting two_events 0
    ≡ (ok true, consumed_once, 1)
unfolding consume_once after_handler is_blank
consume_test = refl

-- Another consumer takes the event, and it is acknowledged, before it is delivered again.
abbrev also_audited : Database
also_audited =
    (consume_once ascii_only (codes "audit") (event (codes "a") 1) counting consumed_once 1).1

abbrev acknowledged_later : Database
acknowledged_later = (acknowledge (codes "a") 15 also_audited).1

consume_once-once_example :
    consume_once ascii_only (codes "mailer") (event (codes "a") 9) raising acknowledged_later 7
    ≡ (ok false, acknowledged_later, 7)
consume_once-once_example =
    consume_once-once ascii_only (codes "mailer") (event (codes "a") 1) counting two_events
      consumed_once 0 1 consume_test acknowledged_later (event (codes "a") 9) raising 7
      (further
        (further here (consumes ascii_only (codes "audit") (event (codes "a") 1) counting 1 refl))
        (acknowledges (codes "a") 15 refl))
      refl

raise_test :
    consume_once ascii_only (codes "mailer") (event (codes "a") 1) raising two_events 0
    ≡ (err runtime_error, two_events, 1)
unfolding consume_once after_handler is_blank
raise_test = refl

-- The loop of `publish_batch`: an event whose publication fails is counted as an attempt.
publish_test :
    publish_batch {W = ℕ} counting (λ e. codes "error") (λ id. 30) 10 5 5 60 two_events 0
    ≡ ok (
      2,
      record empty_database {
        events =
            record (event (codes "b") 2) { published_at = some 30; attempts = 1 }
            ∷ record (event (codes "a") 1) { published_at = some 30; attempts = 1 }
            ∷ [];
      },
      2,
    )
unfolding publish_batch publish_events settle_event claim_batch select_batch by_time insert_by_time
    is_available acknowledge update list_beq
publish_test = refl

failing_test :
    publish_batch {W = ℕ} raising (λ e. codes "error") (λ id. 30) 10 1 5 60 two_events 0
    ≡ ok (
      0,
      record empty_database {
        events =
            event (codes "b") 2
            ∷ record (event (codes "a") 1) { attempts = 1; last_error = some (codes "error") }
            ∷ [];
      },
      1,
    )
unfolding publish_batch publish_events settle_event claim_batch select_batch by_time insert_by_time
    is_available record_failure update list_beq
failing_test = refl

always : Publishes counting
always e w = refl

two_wait : waiting_count 5 two_events.events ≤ length {A = ℕ} (10 ∷ 20 ∷ [])
unfolding waiting_count
two_wait = omega arith

publish_rounds-IsDrained_example :
    (db' : Database) × (w' : ℕ) × (publish_rounds counting
        (λ e. [])
        (λ id. 7)
        1
        5
        60
        (10 ∷ 20 ∷ [])
        two_events
        0
      ≡ ok (db', w'))
    × IsDrained 5 two_events.events db'.events
publish_rounds-IsDrained_example =
    publish_rounds-IsDrained counting (λ e. []) (λ id. 7) 1 5 60 3 (10 ∷ 20 ∷ []) two_events 0
      always (omega arith) (omega arith) (omega arith) (omega arith) (λ w. refl, (λ w. refl, tt))
      two_wait
