-- ===== src/Tests/Exchanges.antt =====
-- The flow, the transport and its faults on one purchase.
use atlas_pay.Prelude.{
  ok, ◌>>=◌, list_beq, text_eq, nat_eq, codes, is_ascii_digits, ℕ, suc, ◌≡◌, refl, true, false,
  none, some, [], ◌∷◌,
}
use atlas_pay.Prelude.Dict.{lookup, contains, insert, erase}
use atlas_pay.Prelude.Sets.{add}
use atlas_pay.Prelude.Bits.{set_bit, to_bytes}
use atlas_pay.Prelude.Sorting.{insert_sorted, sorted}
use atlas_pay.Canonical.{
  NetworkCorrelation, correlation_beq, correlation_eq, is_stan, is_rrn, make_correlation,
}
use atlas_pay.Iso8583.Spec.{default_field_specs}
use atlas_pay.Iso8583.Bitmap.{mark_fields, encode_bitmap}
use atlas_pay.Iso8583.Field.{validate_text_bytes, coerce_value, is_fixed, frame_value, encode_field}
use atlas_pay.Iso8583.Codec.{encode_mti, validate_field_number, encode_fields, join_fields, encode}
use atlas_pay.Adapter.{required_text, correlation_key}
use atlas_pay.Network.Coordinator.{
  timed_out, late, duplicate, new_coordinator, cancel, due_keys, sorted_correlations, expire_keys,
  expire,
}
use atlas_pay.Network.Coordinator.Phases.{expired_phase, phase}
use atlas_pay.Network.Coordinator.Invariant.{Reach-IsConsistent}
use atlas_pay.Network.Routing.{IssuerRoute, timeout_reason, ReversalLink, new_registry, link}
use atlas_pay.Network.Transport.{
  exchange as transport_exchange, response_outcome, timeout_outcome, failure_outcome,
  TransportExchange, check_exchange, make_exchange, ExchangeResult, interpret, Transport,
}
use atlas_pay.Network.Faults.{timeout_fault, FaultRule, malformed_payload, fault_exchange}
use atlas_pay.Network.Faults.Trigger.{answers, disturbed, answers-disturbed}
use atlas_pay.Network.History.{next_write, store, record_observation}
use atlas_pay.Network.Attempt.{NetworkAttempt, NetworkFlowResult, FlowConfig, FlowState}
use atlas_pay.Network.Flow.{
  after_cancel, after_link, after_next, after_expire, on_outcome, after_adapter, flow_exchange,
  observe, recorded, exchange_recorded, handle_late_response,
}
use atlas_pay.Network.Flow.Results.{IsFlowResult, exchange-IsFlowResult}
use atlas_pay.Network.Flow.Timeout.{IsTimedOut, timeout-IsTimedOut, late-duplicate}
use atlas_pay.Network.Flow.Failure.{IsTakenBack, failure-IsTakenBack}
use atlas_pay.Tests.Switch.{
  key, request, response, registered, registered-Reach, response_key, request_key,
  response_correlates, expired_coordinator,
}

abbrev pub issuer : IssuerRoute
issuer = record {
  name = codes "issuer";
  acquirer_id = codes "acquirer";
  issuer_id = codes "bank";
  pan_prefix = codes "4";
  currencies = codes "MAD" ∷ [];
}

abbrev pub attempt : NetworkAttempt
attempt = record {
  route = issuer;
  request = request;
  correlation = key;
  started_at = 0;
  deadline = 30;
  timeout_seconds = 30;
}

-- A transport that gives one answer, and counts its calls.
abbrev pub always : TransportExchange → Transport ℕ
always x payload timeout n = (ok x, suc n)

abbrev pub timeout_answer : TransportExchange
timeout_answer = record {
  outcome = timeout_outcome;
  response_payload = none;
  error = none;
  delivery_unknown = true;
}

abbrev failure_answer : TransportExchange
failure_answer = record {
  outcome = failure_outcome;
  response_payload = none;
  error = none;
  delivery_unknown = false;
}

abbrev pub reversal_key : NetworkCorrelation
reversal_key = record { stan = codes "900001"; rrn = codes "900000000001" }

abbrev pub config : TransportExchange → FlowConfig ℕ ℕ
config x = record {
  routes = issuer ∷ [];
  specs = default_field_specs;
  send = always x;
  next_for = λ original r n. (ok reversal_key, suc n);
}

abbrev pub before : FlowState ℕ ℕ
before = record {
  coordinator = registered;
  reversals = new_registry;
  transport = 0;
  provider = 0;
  history = some (record { rows = []; faults = [] });
}

abbrev pub timeout_link : ReversalLink
timeout_link = record { original = key; reversal = reversal_key; reason = timeout_reason }

abbrev pub timeout_result : NetworkFlowResult
timeout_result = record {
  route = issuer;
  transport_outcome = timeout_outcome;
  disposition = some timed_out;
  delivery_unknown = true;
  reversal = some timeout_link;
  error = none;
}

abbrev pub after_timeout : FlowState ℕ ℕ
after_timeout = record {
  coordinator = expired_coordinator;
  reversals = record { by_original = (key, timeout_link) ∷ []; reversal_keys = reversal_key ∷ [] };
  transport = 1;
  provider = 1;
  history = some (record {
    rows =
        record {
          route = issuer;
          transport_outcome = timeout_outcome;
          disposition = some timed_out;
          delivery_unknown = true;
          latency_ms = 31000;
          reversal_reason = some timeout_reason;
        }
        ∷ [];
    faults = [];
  });
}

timeout_test :
    exchange_recorded (config timeout_answer) attempt 31 before ≡ (ok timeout_result, after_timeout)
unfolding exchange_recorded flow_exchange transport_exchange interpret after_adapter on_outcome
    after_expire after_next after_link link recorded observe record_observation next_write store
    expire due_keys sorted_correlations expire_keys erase add insert contains list_beq
    correlation_beq encode encode_mti encode_fields validate_field_number encode_field coerce_value
    validate_text_bytes frame_value is_fixed lookup join_fields encode_bitmap mark_fields to_bytes
    set_bit sorted insert_sorted is_ascii_digits
timeout_test = refl

exchange-IsFlowResult_example : IsFlowResult attempt timeout_result
exchange-IsFlowResult_example =
    exchange-IsFlowResult (config timeout_answer) attempt 31 before after_timeout timeout_result
      timeout_test

timeout-IsTimedOut_example : IsTimedOut key timeout_result after_timeout
timeout-IsTimedOut_example =
    timeout-IsTimedOut (config timeout_answer) attempt 31 before after_timeout timeout_result
      (Reach-IsConsistent registered-Reach) timeout_test refl

expired_key : phase after_timeout.coordinator key ≡ expired_phase
unfolding phase list_beq correlation_beq
expired_key = refl

late-duplicate_example :
    (s' s'' : FlowState ℕ ℕ) × (handle_late_response attempt response 40 after_timeout
      ≡ ((next_write after_timeout.history >>= λ done. ok late), s'))
    × (handle_late_response attempt response 50 s'
        ≡ ((next_write s'.history >>= λ done. ok duplicate), s''))
late-duplicate_example =
    late-duplicate ℕ ℕ attempt response 40 50 after_timeout expired_key response_key
      response_correlates

abbrev failure_flow_result : NetworkFlowResult
failure_flow_result = record {
  route = issuer;
  transport_outcome = failure_outcome;
  disposition = none;
  delivery_unknown = false;
  reversal = none;
  error = none;
}

abbrev after_failure : FlowState ℕ ℕ
after_failure = record {
  coordinator = new_coordinator;
  reversals = new_registry;
  transport = 1;
  provider = 0;
  history = some (record {
    rows =
        record {
          route = issuer;
          transport_outcome = failure_outcome;
          disposition = none;
          delivery_unknown = false;
          latency_ms = 2000;
          reversal_reason = none;
        }
        ∷ [];
    faults = [];
  });
}

failure_test :
    exchange_recorded (config failure_answer) attempt 2 before
    ≡ (ok failure_flow_result, after_failure)
unfolding exchange_recorded flow_exchange transport_exchange interpret after_adapter on_outcome
    after_cancel cancel correlation_key required_text make_correlation is_stan is_rrn recorded
    observe record_observation next_write store erase contains list_beq correlation_beq encode
    encode_mti encode_fields validate_field_number encode_field coerce_value validate_text_bytes
    frame_value is_fixed lookup join_fields encode_bitmap mark_fields to_bytes set_bit sorted
    insert_sorted is_ascii_digits
failure_test = refl

failure-IsTakenBack_example :
    IsTakenBack (config failure_answer) attempt registered new_registry after_failure
failure-IsTakenBack_example =
    failure-IsTakenBack (config failure_answer) attempt 2 before after_failure failure_flow_result
      (Reach-IsConsistent registered-Reach) request_key failure_test refl

abbrev adapter_result : ExchangeResult
adapter_result = record {
  outcome = timeout_outcome;
  response = none;
  error = none;
  delivery_unknown = true;
}

adapter_test :
    transport_exchange default_field_specs (always timeout_answer) request 30 0
    ≡ (ok adapter_result, 1)
unfolding transport_exchange interpret encode encode_mti encode_fields validate_field_number
    encode_field coerce_value validate_text_bytes frame_value is_fixed lookup join_fields
    encode_bitmap mark_fields to_bytes set_bit sorted insert_sorted is_ascii_digits
adapter_test = refl

abbrev garbled : TransportExchange
garbled = record {
  outcome = response_outcome;
  response_payload = some malformed_payload;
  error = none;
  delivery_unknown = false;
}

garbled_valid : make_exchange garbled ≡ ok garbled
unfolding make_exchange check_exchange
garbled_valid = refl

abbrev second_times_out : FaultRule
second_times_out = record { mode = timeout_fault; trigger_on_call = 2 }

answers-disturbed_example :
    answers
      (fault_exchange (always failure_answer) second_times_out)
      30
      (codes "a" ∷ codes "b" ∷ codes "c" ∷ [])
      (record { calls = 0; inner = 0 })
    ≡ disturbed
        (always failure_answer)
        second_times_out
        30
        1
        (codes "a" ∷ codes "b" ∷ codes "c" ∷ [])
        0
answers-disturbed_example =
    answers-disturbed ℕ (always failure_answer) second_times_out 30 1
      (codes "a" ∷ codes "b" ∷ codes "c" ∷ []) (record { calls = 0; inner = 0 }) refl refl
