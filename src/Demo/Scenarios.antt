-- ===== src/Demo/Scenarios.antt =====
-- Lemmas on the rows that the demo's scenarios store.
use mathlib.Core.List.{append_assoc}
use atlas_pay.Prelude.{
  slice, ok, list_beq, text_eq, nat_eq, codes, is_ascii_digits, Unicode, upper, is_blank,
  starts_with, ℕ, ◌≡◌, refl, ◌∙◌, Bool, true, false, Option, none, some, [], ◌∷◌, ◌++◌,
}
use atlas_pay.Network.Routing.{
  route as find_route, IssuerRoute, make_route, make_router, is_eligible, longest_prefix,
  only_route, most_specific, ReversalReason, timeout_reason, link,
}
use atlas_pay.Network.Transport.{
  exchange as transport_exchange, TransportOutcome, response_outcome, timeout_outcome,
  failure_outcome, check_exchange, make_exchange, decoded_result, interpret,
}
use atlas_pay.Network.Coordinator.{
  TransactionDisposition, accepted, timed_out, late, register_key, register, cancel, due_keys,
  sorted_correlations, expire_keys, expire, settle, handle_key, handle_response,
}
use atlas_pay.Network.History.{NetworkObservation, next_write, store, record_observation}
use atlas_pay.Demo.{
  Rows, scripted_transport, static_reversal, demo_route, demo_canonical, demo_flow,
  exchange_attempt, run_scenario, accepted_exchange, late_scenario, run_demo,
}
use atlas_pay.Prelude.Dict.{lookup, contains, insert, erase}
use atlas_pay.Prelude.Bits.{set_bit, test_bit, to_bytes, from_bytes}
use atlas_pay.Prelude.Sorting.{insert_sorted, sorted}
use atlas_pay.Canonical.{
  correlation_beq, correlation_eq, is_stan, is_rrn, make_correlation, is_pan, make_instrument,
  is_currency, make_authorization,
}
use atlas_pay.Iso8583.Spec.{length_prefix_width, make_codec}
use atlas_pay.Iso8583.Bitmap.{
  mark_fields, encode_bitmap, primary_numbers, secondary_numbers, decode_field_numbers,
}
use atlas_pay.Iso8583.Field.{
  validate_text_bytes, coerce_value, decode_ascii, int_of_bytes, coerce_decoded, is_fixed,
  frame_value, encode_field, read_prefix_length, read_length, read_value, decode_field,
}
use atlas_pay.Iso8583.Codec.{
  encode_mti, decode_mti, validate_field_number, encode_fields, join_fields, encode, decode_fields,
  decode,
}
use atlas_pay.Adapter.{required_text, correlation_key, same_key, correlates_response}
use atlas_pay.Network.Flow.{
  start, after_cancel, after_link, after_next, after_expire, after_response, expire_past,
  handle_after_expiry, on_response, on_outcome, after_adapter, flow_exchange, observe, recorded,
  exchange_recorded, after_late, handle_late_response,
}
use atlas_pay.Prelude.Sets.{add}
use atlas_pay.Prelude.Decimal.{parse_decimal}

abbrev pub the_route : IssuerRoute
the_route = record {
  name = codes "issuer-a";
  acquirer_id = codes "atlas-acquirer";
  issuer_id = codes "issuer-bank-a";
  pan_prefix = codes "411111";
  currencies = codes "MAD" ∷ [];
}

abbrev row :
    TransportOutcome
    → Option TransactionDisposition
    → Bool
    → ℕ
    → Option ReversalReason
    → NetworkObservation
row outcome d unknown latency reason = record {
  route = the_route;
  transport_outcome = outcome;
  disposition = d;
  delivery_unknown = unknown;
  latency_ms = latency;
  reversal_reason = reason;
}

-- The rows of one run: an accepted exchange, one that timed out, its late response, one that failed.
abbrev pub demo_rows : Rows
demo_rows =
    row response_outcome (some accepted) false 18000 none
    ∷ row timeout_outcome (some timed_out) true 200000 (some timeout_reason)
    ∷ row response_outcome (some late) false 240000 none
    ∷ row failure_outcome none false 5000 none
    ∷ []

route_test : (u : Unicode) → demo_route u ≡ ok the_route
unfolding demo_route make_route is_blank upper list_beq
route_test u = refl

-- A run, with the rows as it appends them.
run_demo-appends :
    (u : Unicode) (rows : Rows)
    → run_demo u false rows ≡ (
      ok tt,
      (((rows ++ (row response_outcome (some accepted) false 18000 none ∷ []))
              ++ (row timeout_outcome (some timed_out) true 200000 (some timeout_reason) ∷ []))
            ++ (row response_outcome (some late) false 240000 none ∷ []))
          ++ (row failure_outcome none false 5000 none ∷ []),
    )
unfolding run_demo run_scenario accepted_exchange late_scenario make_exchange check_exchange
    make_correlation is_stan is_rrn is_ascii_digits demo_flow demo_route make_route is_blank upper
    list_beq make_router make_codec demo_canonical make_instrument is_pan make_authorization
    is_currency start find_route is_eligible starts_with longest_prefix most_specific only_route
    correlation_key required_text correlation_beq register register_key lookup contains insert
    exchange_attempt exchange_recorded flow_exchange transport_exchange scripted_transport
    static_reversal interpret decoded_result after_adapter on_outcome on_response after_response
    expire_past handle_after_expiry after_expire after_next after_link link after_cancel cancel
    recorded after_late next_write store int_of_bytes decode_ascii expire due_keys
    sorted_correlations expire_keys handle_late_response handle_response handle_key settle
    correlates_response same_key observe record_observation erase add encode encode_mti decode
    decode_mti decode_fields decode_field decode_field_numbers read_prefix_length read_length
    read_value coerce_decoded primary_numbers secondary_numbers encode_fields validate_field_number
    encode_field coerce_value validate_text_bytes frame_value is_fixed join_fields encode_bitmap
    mark_fields to_bytes from_bytes set_bit test_bit sorted insert_sorted parse_decimal slice
    length_prefix_width
run_demo-appends u rows = refl

-- A run raises nothing and adds its four rows, whatever was stored before.
pub run_demo-rows : (u : Unicode) (rows : Rows) → run_demo u false rows ≡ (ok tt, rows ++ demo_rows)
run_demo-rows u rows = run_demo-appends u rows ∙ simp (append_assoc)
