-- ===== src/Tests/Operator.antt =====
-- The operator's snapshot, the HTTP API and the metrics on small states.
use atlas_pay.Prelude.{
  type_error, data_error, err, ok, list_beq, text_eq, nat_eq, Text, codes, is_ascii_digits, upper,
  ascii_only, ℕ, ◌≡◌, refl, ◌↔◌, inl, true, false, none, some, [], ◌∷◌, ◌++◌,
}
use atlas_pay.Prelude.Dict.{lookup, contains, insert, erase}
use atlas_pay.Canonical.{correlation_beq, correlation_eq}
use atlas_pay.Network.Transport.{exchange as transport_exchange, timeout_outcome, interpret}
use atlas_pay.Payments.Database.{
  pending, status_eq, Payment, Database, empty_database, find, as_varchar, as_char, insert_payment,
}
use atlas_pay.Payments.Repository.{
  CreatePaymentRequest, make_request, new_payment, get_stored, claim_used, create_stored,
}
use atlas_pay.Payments.Reconciliation.{
  missing_payments, missing_journals, missing_events, missing_operations, mismatches, bad_journals,
  structural, text_leb, key_leb, insert_by_key, sort_report, inspect, is_clean,
}
use atlas_pay.Snapshot.Sections.{critical, OperationalSnapshot}
use atlas_pay.Snapshot.Reader.{read_snapshot, read_unavailable}
use atlas_pay.Snapshot.Health.{IsClassified, read_snapshot-IsClassified}
use atlas_pay.Demo.Scenarios.{demo_rows}
use atlas_pay.Http.{
  answer, refuse, crash, partition_space, lower, compare_digest, after_compare, check_credentials,
  authorize, SnapshotReader, unconfigured, build_reader, after_authorize, get_operational_snapshot,
  after_create, create_payment, get_payment,
}
use atlas_pay.Http.Authorization.{
  IsAllowed, get_operational_snapshot-IsAllowed, get_operational_snapshot-non_ascii,
}
use atlas_pay.Http.Repositories.{stored, create_payment-get_payment}
use atlas_pay.Tests.Delivery.{two_events}
use atlas_pay.Prelude.Sets.{add}
use atlas_pay.Prelude.Bits.{set_bit, to_bytes}
use atlas_pay.Prelude.Sorting.{insert_sorted, sorted}
use atlas_pay.Iso8583.Bitmap.{mark_fields, encode_bitmap}
use atlas_pay.Iso8583.Field.{validate_text_bytes, coerce_value, is_fixed, frame_value, encode_field}
use atlas_pay.Iso8583.Codec.{encode_mti, validate_field_number, encode_fields, join_fields, encode}
use atlas_pay.Network.Routing.{timeout_reason, link}
use atlas_pay.Network.Coordinator.{timed_out, due_keys, sorted_correlations, expire_keys, expire}
use atlas_pay.Network.History.{NetworkObservation, next_write, store, record_observation}
use atlas_pay.Network.Attempt.{FlowState}
use atlas_pay.Network.Flow.{
  after_link, after_next, after_expire, on_outcome, after_adapter, flow_exchange, observe, recorded,
}
use atlas_pay.Telemetry.{
  text_attribute, flag_attribute, Telemetry, new_telemetry, begin_observation, count_reversal,
  exchange_span, end_observation, carried, exchange_observed,
}
use atlas_pay.Telemetry.Tally.{IsTallied}
use atlas_pay.Telemetry.Totals.{exchanges, start_up, then_step, Reach-IsTallied}
use atlas_pay.Tests.Exchanges.{
  issuer, attempt, timeout_answer, config, before, timeout_result, after_timeout,
}

read_snapshot-IsClassified_example :
    IsClassified 5 two_events two_events
      (read_snapshot text_leb 5 9 9 two_events demo_rows two_events)
read_snapshot-IsClassified_example =
    read_snapshot-IsClassified text_leb 5 9 9 two_events demo_rows two_events

unclean : is_clean (inspect two_events) ≡ false
unfolding inspect sort_report insert_by_key structural missing_payments missing_journals
    missing_events missing_operations bad_journals mismatches key_leb text_leb list_beq
unclean = refl

-- Two events without their operations make the report unclean.
two_events_health : (read_snapshot text_leb 5 9 9 two_events demo_rows two_events).health ≡ critical
two_events_health =
    ((read_snapshot-IsClassified text_leb 5 9 9 two_events demo_rows two_events).means critical).1
      (inl unclean)

abbrev no_lower : ℕ → Text
no_lower c = c ∷ []

abbrev unmeasured : OperationalSnapshot
unmeasured = read_unavailable unconfigured 9

abbrev reader : SnapshotReader
reader = build_reader none (λ most now. err data_error)

get_operational_snapshot-IsAllowed_example :
    (get_operational_snapshot no_lower (some (codes "t0k")) (some (codes "Bearer t0k")) reader 9
      ≡ answer 200 unmeasured)
    ↔ (IsAllowed no_lower (some (codes "t0k")) (some (codes "Bearer t0k"))
        × (◌≡◌ {A = ℕ} 200 200)
        × (reader 9 ≡ ok unmeasured))
get_operational_snapshot-IsAllowed_example =
    get_operational_snapshot-IsAllowed no_lower (some (codes "t0k")) (some (codes "Bearer t0k"))
      reader 9 200 unmeasured

let_in :
    get_operational_snapshot no_lower (some (codes "t0k")) (some (codes "Bearer t0k")) reader 9
    ≡ answer 200 unmeasured
unfolding get_operational_snapshot authorize check_credentials partition_space lower list_beq
    compare_digest after_compare after_authorize build_reader
let_in = refl

wrong_token :
    get_operational_snapshot no_lower (some (codes "t0k")) (some (codes "Bearer t1k")) reader 9
    ≡ refuse 401
unfolding get_operational_snapshot authorize check_credentials partition_space lower list_beq
    compare_digest after_compare after_authorize build_reader
wrong_token = refl

bearer_lowered : lower no_lower (codes "BEARER") ≡ codes "bearer"
unfolding lower
bearer_lowered = refl

get_operational_snapshot-non_ascii_example :
    get_operational_snapshot no_lower
      (some (codes "t0k"))
      (some (codes "BEARER" ++ (32 ∷ (233 ∷ []))))
      reader
      9
    ≡ crash type_error
get_operational_snapshot-non_ascii_example =
    get_operational_snapshot-non_ascii no_lower (codes "t0k") (codes "BEARER") (233 ∷ []) reader 9
      refl bearer_lowered refl refl

abbrev order : CreatePaymentRequest
order = record { amount = 5; currency = codes "mad"; merchant_reference = codes "m-1" }

abbrev by_reference : CreatePaymentRequest → Text
by_reference r = r.merchant_reference

abbrev paid : Payment
paid = record {
  id = codes "pay_1";
  amount = 5;
  currency = codes "MAD";
  merchant_reference = codes "m-1";
  status = pending;
  created_at = 3;
}

abbrev one_payment : Database
one_payment = record empty_database { payments = paid ∷ [] }

nothing_there : get_stored (codes "pay_1") empty_database ≡ none
unfolding get_stored find
nothing_there = refl

posted :
    create_payment ascii_only (stored by_reference) order none (codes "pay_1") 3 empty_database
    ≡ (answer 201 paid, one_payment)
unfolding create_payment make_request upper after_create create_stored claim_used insert_payment
    as_char as_varchar new_payment
posted = refl

create_payment-get_payment_example :
    get_payment ascii_only (stored by_reference) (codes "pay_1") one_payment ≡ answer 200 paid
unfolding upper
create_payment-get_payment_example =
    create_payment-get_payment by_reference ascii_only order none (codes "pay_1") 3 empty_database
      one_payment paid refl nothing_there posted

abbrev after_metrics : Telemetry
after_metrics = record {
  attempts = (codes "issuer", codes "bank") ∷ [];
  outcomes =
      record {
        route = codes "issuer";
        issuer = codes "bank";
        transport_outcome = codes "timeout";
        disposition = codes "timed_out";
        delivery_unknown = codes "true";
      }
      ∷ [];
  latency = (codes "issuer", codes "bank", codes "timeout", 7) ∷ [];
  reversals = (codes "issuer", codes "bank", codes "timeout") ∷ [];
  spans =
      record {
        name = codes "atlaspay.authorization.network_exchange";
        attributes =
            (codes "atlaspay.route", text_attribute (codes "issuer"))
            ∷ (codes "atlaspay.issuer", text_attribute (codes "bank"))
            ∷ (codes "atlaspay.transport_outcome", text_attribute (codes "timeout"))
            ∷ (codes "atlaspay.disposition", text_attribute (codes "timed_out"))
            ∷ (codes "atlaspay.delivery_unknown", flag_attribute true)
            ∷ (codes "atlaspay.reversal_reason", text_attribute (codes "timeout"))
            ∷ [];
        exception = none;
      }
      ∷ [];
}

observed :
    exchange_observed (config timeout_answer) attempt 31 7 new_telemetry before
    ≡ (ok timeout_result, after_timeout, after_metrics)
unfolding exchange_observed begin_observation end_observation exchange_span count_reversal carried
    flow_exchange transport_exchange interpret after_adapter on_outcome after_expire after_next
    after_link link recorded observe record_observation next_write store expire due_keys
    sorted_correlations expire_keys erase add insert contains list_beq correlation_beq encode
    encode_mti encode_fields validate_field_number encode_field coerce_value validate_text_bytes
    frame_value is_fixed lookup join_fields encode_bitmap mark_fields to_bytes set_bit sorted
    insert_sorted is_ascii_digits
observed = refl

abbrev timeout_row : NetworkObservation
timeout_row = record {
  route = issuer;
  transport_outcome = timeout_outcome;
  disposition = some timed_out;
  delivery_unknown = true;
  latency_ms = 31000;
  reversal_reason = some timeout_reason;
}

-- The state before the exchange, with a writer that raises once.
abbrev broken : FlowState ℕ ℕ
broken = record before { history = some (record { rows = []; faults = some data_error ∷ [] }) }

-- The write raised: the observation is lost, and it has been counted.
Reach-IsTallied_example : IsTallied ([] ++ (timeout_row ∷ [])) after_metrics
unfolding exchange_observed begin_observation end_observation exchange_span count_reversal carried
    flow_exchange transport_exchange interpret after_adapter on_outcome after_expire after_next
    after_link link recorded observe record_observation next_write store expire due_keys
    sorted_correlations expire_keys erase add insert contains list_beq correlation_beq encode
    encode_mti encode_fields validate_field_number encode_field coerce_value validate_text_bytes
    frame_value is_fixed lookup join_fields encode_bitmap mark_fields to_bytes set_bit sorted
    insert_sorted is_ascii_digits
Reach-IsTallied_example =
    Reach-IsTallied (config timeout_answer) ([], timeout_row ∷ [], after_metrics)
      (then_step start_up (
        exchanges {w = record { rows = []; faults = some data_error ∷ [] }}
          {w' = record { rows = []; faults = [] }} attempt 31 7 broken refl refl))
