-- ===== src/Network/Faults.antt =====
-- `FaultInjectingTransport` of app/network_faults.py: a transport around another one, whose state
-- is the number of calls so far and the state of the inner transport.
pub mod Trigger
use atlas_pay.Prelude.{
  if◌then◌else◌, value_error, assertion_error, Result, ok, err, ◌>>=◌, ◌>>◌, raise_if, ◌==◌, nat_eq,
  text_eq, Text, Bytes, codes, ℕ, suc, Bool, true, false, not, ◌||◌, none, some,
}
use atlas_pay.Network.Transport.{
  response_outcome, timeout_outcome, failure_outcome, TransportExchange, make_exchange, Transport,
}

pub data FaultMode : Type 0 where
  no_fault local_failure timeout_fault malformed_response : FaultMode

pub record FaultRule : Type 0 where
  pub mode : FaultMode
  pub trigger_on_call : ℕ

-- `FaultRule(...)`, with `__post_init__`
unfoldable pub make_rule : FaultRule → Result FaultRule
make_rule rule = do raise_if (rule.trigger_on_call == 0) value_error; ok rule

abbrev pub is_no_fault : FaultMode → Bool
is_no_fault no_fault = true
is_no_fault local_failure = false
is_no_fault timeout_fault = false
is_no_fault malformed_response = false

abbrev pub local_failure_text : Text
local_failure_text = codes "fault injection: local transport failure before response"

abbrev pub deadline_text : Text
deadline_text = codes "fault injection: response deadline exceeded"

abbrev pub malformed_payload : Bytes
malformed_payload = codes "fault-injected-invalid-iso8583"

-- What the transport answers in place of the inner one.
unfoldable pub fault_answer : FaultMode → Result TransportExchange
fault_answer no_fault = err assertion_error
fault_answer local_failure = make_exchange (record {
  outcome = failure_outcome;
  response_payload = none;
  error = some local_failure_text;
  delivery_unknown = false;
})
fault_answer timeout_fault = make_exchange (record {
  outcome = timeout_outcome;
  response_payload = none;
  error = some deadline_text;
  delivery_unknown = true;
})
fault_answer malformed_response = make_exchange (record {
  outcome = response_outcome;
  response_payload = some malformed_payload;
  error = none;
  delivery_unknown = false;
})

-- The call counter, and the state of the inner transport.
pub record FaultState (T : Type 0) : Type 0 where
  pub calls : ℕ
  pub inner : T

abbrev pub after_inner :
    {T : Type 0} → ℕ → Result TransportExchange × T → Result TransportExchange × FaultState T
after_inner calls (r, t) = (r, record { calls = calls; inner = t })

-- `FaultInjectingTransport.exchange`
unfoldable pub fault_exchange : {T : Type 0} → Transport T → FaultRule → Transport (FaultState T)
fault_exchange send rule payload timeout s =
    let calls = suc s.calls in
    if not (calls == rule.trigger_on_call) || is_no_fault rule.mode
    then after_inner calls (send payload timeout s.inner)
    else (fault_answer rule.mode, record { calls = calls; inner = s.inner })
