-- ===== src/Demo.antt =====
-- The scenarios of app/demo_network.py, and the bootstrap of app/hosted_demo.py. A moment is a number of
-- hundredths of a second, so that the script's times are whole. The state is the rows of
-- `network_observations`; what was stored before an exception stays. The advisory lock makes the
-- seeding one step.
pub mod Scenarios
pub mod Bootstrap
use atlas_pay.Prelude.{
  if◌then◌else◌, length, is_empty, value_error, Result, err, ok, ◌>>=◌, ◌>>◌, text_eq, ◌==◌, nat_eq,
  Text, codes, Unicode, ℕ, Bool, true, false, not, ◌||◌, none, some, List, [], ◌∷◌,
}
use atlas_pay.Prelude.Int.{pos}
use atlas_pay.Canonical.{
  NetworkCorrelation, correlation_eq, AuthorizationRequest, make_correlation, make_instrument,
  make_authorization,
}
use atlas_pay.Iso8583.Spec.{str_value, default_field_specs, Iso8583Message, make_codec}
use atlas_pay.Iso8583.Codec.{encode}
use atlas_pay.Network.Routing.{IssuerRoute, make_route, make_router, new_registry}
use atlas_pay.Network.Transport.{
  response_outcome, timeout_outcome, failure_outcome, TransportExchange, make_exchange, Transport,
}
use atlas_pay.Network.Coordinator.{accepted, late, new_coordinator}
use atlas_pay.Network.History.{NetworkObservation, History}
use atlas_pay.Network.Attempt.{NetworkAttempt, CorrelationProvider, FlowConfig, FlowState}
use atlas_pay.Network.Flow.{start, exchange_recorded, handle_late_response}
use atlas_pay.Migrations.{Entry, Schema, migrate_database}

abbrev pub Rows : Type 0
Rows = List NetworkObservation

-- A call that may raise and that stores rows.
abbrev pub Script : Type 0 → Type 0
Script A = Rows → Result A × Rows

abbrev pub then_run : {A B : Type 0} → Result A × Rows → (A → Script B) → Result B × Rows
then_run (err e, rows) next = (err e, rows)
then_run (ok a, rows) next = next a rows

abbrev pub lift : {A : Type 0} → Result A → Script A
lift r rows = (r, rows)

-- `ScriptedTransport`
unfoldable pub scripted_transport : TransportExchange → Transport (Unit {0})
scripted_transport x payload timeout t =
    if is_empty payload || timeout == 0 then (err value_error, t) else (ok x, t)

-- `StaticReversalCorrelations`
unfoldable pub static_reversal : NetworkCorrelation → CorrelationProvider (Unit {0})
static_reversal value original r t =
    if original == value then (err value_error, t) else (ok value, t)

-- `_route`
unfoldable pub demo_route : Unicode → Result IssuerRoute
demo_route u = make_route u (record {
  name = codes "issuer-a";
  acquirer_id = codes "atlas-acquirer";
  issuer_id = codes "issuer-bank-a";
  pan_prefix = codes "411111";
  currencies = codes "MAD" ∷ [];
})

-- `_canonical`
unfoldable pub demo_canonical : Text → Text → Result AuthorizationRequest
demo_canonical stan rrn = do
  card ← make_instrument (codes "4111111111111111") none
  correlation ← make_correlation stan rrn
  make_authorization (record {
    amount_minor = pos 12500;
    currency = codes "MAD";
    merchant_id = codes "DEMO-MERCHANT";
    terminal_id = codes "TERM0001";
    instrument = card;
    correlation = correlation;
  })

-- `_request`
abbrev pub demo_request : Text → Text → Iso8583Message
demo_request stan rrn = record {
  mti = codes "0200";
  fields = (3, str_value (codes "000000")) ∷ (11, str_value stan) ∷ (37, str_value rrn) ∷ [];
}

-- `_response`
abbrev pub demo_response : Text → Text → Iso8583Message
demo_response stan rrn = record {
  mti = codes "0210";
  fields = (11, str_value stan) ∷ (37, str_value rrn) ∷ (39, str_value (codes "00")) ∷ [];
}

abbrev pub DemoFlow : Type 0
DemoFlow = FlowConfig (Unit {0}) (Unit {0}) × FlowState (Unit {0}) (Unit {0})

-- `_flow`, with an empty coordinator and an empty registry, over the rows there are
unfoldable pub demo_flow : Unicode → TransportExchange → NetworkCorrelation → Rows → Result DemoFlow
demo_flow u x reversal rows = do
  r ← demo_route u
  routes ← make_router (r ∷ [])
  specs ← make_codec default_field_specs
  ok (
    record {
      routes = routes;
      specs = specs;
      send = scripted_transport x;
      next_for = static_reversal reversal;
    },
    record {
      coordinator = new_coordinator;
      reversals = new_registry;
      transport = tt;
      provider = tt;
      history = some (record { rows = rows; faults = [] });
    },
  )

-- The rows behind a history.
abbrev pub rows_of : History → Rows
rows_of none = []
rows_of (some w) = w.rows

abbrev pub Attempted : Type 0
Attempted = NetworkAttempt × FlowState (Unit {0}) (Unit {0})

-- `exchange` of an attempt, keeping the attempt and the state for what follows.
unfoldable pub exchange_attempt :
    FlowConfig (Unit {0}) (Unit {0}) → ℕ → Attempted → Result Attempted × Rows
exchange_attempt config completed_at (attempt, s) =
    let (r, s') = exchange_recorded config attempt completed_at s in
    (r >>= λ result. ok (attempt, s'), rows_of s'.history)

-- One scenario: the flow, `start` at `now`, `exchange` at `completed_at`.
unfoldable pub run_scenario :
    Unicode → Result TransportExchange → Text → Text → Text → Text → ℕ → ℕ → Script Attempted
run_scenario u scripted reversal_stan reversal_rrn stan rrn now completed_at rows =
    then_run
      (lift
        (do
          x ← scripted
          answer ← make_exchange x
          reversal ← make_correlation reversal_stan reversal_rrn
          (config, s) ← demo_flow u answer reversal rows
          canonical ← demo_canonical stan rrn
          begun ← start config canonical (demo_request stan rrn) now 200 s
          ok (config, begun))
        rows)
      (λ (config, begun) before. exchange_attempt config completed_at begun)

-- The answer that accepts: its payload is encoded by a codec of the default profile.
unfoldable pub accepted_exchange : Text → Text → Result TransportExchange
accepted_exchange stan rrn = do
  specs ← make_codec default_field_specs
  payload ← encode specs (demo_response stan rrn)
  ok (record {
    outcome = response_outcome;
    response_payload = some payload;
    error = none;
    delivery_unknown = false;
  })

abbrev pub deadline_exchange : TransportExchange
deadline_exchange = record {
  outcome = timeout_outcome;
  response_payload = none;
  error = some (codes "demo issuer response deadline exceeded");
  delivery_unknown = true;
}

abbrev pub refused_exchange : TransportExchange
refused_exchange = record {
  outcome = failure_outcome;
  response_payload = none;
  error = some (codes "demo connection refused before write");
  delivery_unknown = false;
}

unfoldable pub late_scenario : Attempted → Script (Unit {0})
late_scenario (attempt, s) rows =
    let (r, s') =
      handle_late_response attempt (demo_response (codes "100002") (codes "100000000002")) 340 s in
    (r >>= λ d. ok tt, rows_of s'.history)

-- `run_demo` up to the snapshot that it returns
unfoldable pub run_demo : Unicode → Bool → Script (Unit {0})
run_demo u reset rows =
    then_run
      (run_scenario u (accepted_exchange (codes "100001") (codes "100000000001")) (codes "900001")
        (codes "900000000001") (codes "100001") (codes "100000000001") 0 18
        (if reset then [] else rows))
      λ accepted rows₁.
        then_run
          (run_scenario u (ok deadline_exchange) (codes "900002") (codes "900000000002")
            (codes "100002") (codes "100000000002") 100 300 rows₁)
          λ timed rows₂. then_run (late_scenario timed rows₂) λ late rows₃.
            then_run
              (run_scenario u (ok refused_exchange) (codes "900003") (codes "900000000003")
                (codes "100003") (codes "100000000003") 400 405 rows₃)
              λ failed rows₄. (ok tt, rows₄)

-- `ensure_demo_seeded`
unfoldable pub ensure_demo_seeded : Unicode → Script Bool
ensure_demo_seeded u rows =
    if not (length rows == 0)
    then (ok false, rows)
    else then_run (run_demo u false rows) (λ done rows'. (ok true, rows'))

-- `bootstrap_hosted_demo`: the migrations, then the seeding.
module _ {S : Type 0} (digest : Text → Text) (run : Text → S → Result S) where
  unfoldable pub seed_after :
      Unicode → Rows → Result (List Text) × Schema S → Result (List Text × Bool) × Schema S × Rows
  seed_after u rows (err e, s) = (err e, s, rows)
  seed_after u rows (ok applied, s) =
      let (seeded, rows') = ensure_demo_seeded u rows in
      (seeded >>= λ ran. ok (applied, ran), s, rows')

  unfoldable pub bootstrap_hosted_demo :
      Unicode → List Entry → Schema S → Rows → Result (List Text × Bool) × Schema S × Rows
  bootstrap_hosted_demo u directory s rows =
      seed_after u rows (migrate_database digest run u directory s)
