-- ===== src/Tests/Switch.antt =====
-- The coordinator on one purchase.
use atlas_pay.Prelude.{
  type_error, err, ok, list_beq, text_eq, nat_eq, mem, codes, is_ascii_digits, ◌≡◌, refl, ap, ◌≢◌,
  inl, true, [], ◌∷◌, arith,
}
use atlas_pay.Prelude.Dict.{lookup, contains, insert, erase}
use atlas_pay.Prelude.Sets.{add}
use atlas_pay.Canonical.{
  NetworkCorrelation, correlation_beq, correlation_eq, is_stan, is_rrn, make_correlation,
}
use atlas_pay.Iso8583.Spec.{str_value, Iso8583Message}
use atlas_pay.Adapter.{required_text, correlation_key, same_key, correlates_response}
use atlas_pay.Network.Coordinator.{
  TransactionDisposition, accepted, duplicate, Coordinator, new_coordinator, register_key, register,
  due_keys, sorted_correlations, expire_keys, expire, settle, handle_key, handle_response,
}
use atlas_pay.Network.Coordinator.Phases.{
  settled, waiting, phase, IsAt, IsAnswered, handle_response-respond,
}
use atlas_pay.Network.Coordinator.Reachable.{
  HasUniqueKeys, IsConsistent, registers, Reach, here, next,
}
use atlas_pay.Network.Coordinator.Invariant.{Reach-IsConsistent, accepted_once}
use atlas_pay.Network.Coordinator.Expiry.{
  is_due, expire_phase, phase_is_due, expire-phase, expire_two_due,
}

abbrev pub key : NetworkCorrelation
key = record { stan = codes "123456"; rrn = codes "123456789012" }

abbrev other_key : NetworkCorrelation
other_key = record { stan = codes "654321"; rrn = codes "210987654321" }

abbrev pub request : Iso8583Message
request = record {
  mti = codes "0200";
  fields = (11, str_value key.stan) ∷ (37, str_value key.rrn) ∷ [];
}

abbrev pub response : Iso8583Message
response = record {
  mti = codes "0210";
  fields = (11, str_value key.stan) ∷ (37, str_value key.rrn) ∷ [];
}

abbrev pub registered : Coordinator
registered = record {
  pending = (key, record { correlation = key; deadline = 30 }) ∷ [];
  completed = [];
  timed_out_set = [];
}

register_test : register request 0 30 new_coordinator ≡ ok (key, registered)
unfolding register register_key correlation_key required_text make_correlation is_stan is_rrn
    is_ascii_digits lookup contains insert
register_test = refl

pub registered-Reach : Reach new_coordinator registered
registered-Reach = next here (registers request 0 30 key register_test)

pub response_key : correlation_key response ≡ ok key
unfolding correlation_key required_text make_correlation is_stan is_rrn is_ascii_digits lookup
response_key = refl

pub request_key : correlation_key request ≡ ok key
unfolding correlation_key required_text make_correlation is_stan is_rrn is_ascii_digits lookup
request_key = refl

pub response_correlates : correlates_response request response ≡ true
unfolding correlates_response same_key correlation_key required_text make_correlation is_stan is_rrn
    is_ascii_digits lookup list_beq correlation_beq
response_correlates = refl

waiting_there : IsAt registered key (waiting 30)
unfolding lookup correlation_beq list_beq
waiting_there = record { pending = refl; completed = refl; timed_out = refl }

handle_response-respond_example :
    (answered : TransactionDisposition) × (c' : Coordinator) × (handle_response request response 10
        registered
      ≡ ok (answered, c'))
    × IsAnswered key accepted settled answered registered c'
unfolding correlates_response lookup list_beq correlation_key required_text make_correlation
    is_ascii_digits correlation_beq
handle_response-respond_example =
    handle_response-respond request response key 10 registered (waiting 30) response_key
      waiting_there

registered_key : register_key key 0 30 new_coordinator ≡ ok (key, registered)
unfolding register_key contains insert
registered_key = refl

Reach-IsConsistent_example : IsConsistent registered
Reach-IsConsistent_example = Reach-IsConsistent registered-Reach

abbrev settled_coordinator : Coordinator
settled_coordinator = record { pending = []; completed = key ∷ []; timed_out_set = [] }

accepted_test : handle_response request response 10 registered ≡ ok (accepted, settled_coordinator)
unfolding handle_response handle_key settle correlates_response same_key correlation_key
    required_text make_correlation is_stan is_rrn is_ascii_digits lookup list_beq correlation_beq
    erase add
accepted_test = refl

accepted_once_example :
    handle_response request response 99 settled_coordinator ≡ ok (duplicate, settled_coordinator)
accepted_once_example =
    accepted_once registered settled_coordinator settled_coordinator request response 10 accepted
      request response 99 accepted_test (inl refl) here response_correlates refl

abbrev pub expired_coordinator : Coordinator
expired_coordinator = record { pending = []; completed = []; timed_out_set = key ∷ [] }

expire_test : expire 30 registered ≡ ok (key ∷ [], expired_coordinator)
unfolding expire due_keys sorted_correlations expire_keys erase add list_beq correlation_beq
expire_test = refl

expire-phase_example :
    (phase expired_coordinator key ≡ expire_phase 30 (phase registered key))
    × (mem key (key ∷ []) ≡ phase_is_due 30 (phase registered key))
expire-phase_example =
    expire-phase 30 registered expired_coordinator (key ∷ []) key
      (Reach-IsConsistent registered-Reach) expire_test

abbrev two_pending : Coordinator
two_pending = record {
  pending =
      (key, record { correlation = key; deadline = 30 })
      ∷ (other_key, record { correlation = other_key; deadline = 31 })
      ∷ [];
  completed = [];
  timed_out_set = [];
}

two_pending-HasUniqueKeys : HasUniqueKeys two_pending.pending
unfolding contains list_beq correlation_beq
two_pending-HasUniqueKeys = (refl, (refl, tt))

two_due :
    (is_due 31 (lookup key two_pending.pending) ≡ true)
    × (is_due 31 (lookup other_key two_pending.pending) ≡ true)
unfolding lookup list_beq correlation_beq
two_due = (refl, refl)

keys_differ : key ≢ other_key
keys_differ = λ h. ground (arith, ap (λ (c : NetworkCorrelation). c.stan) h)

expire_two_due_example : expire 31 two_pending ≡ err type_error
expire_two_due_example =
    expire_two_due 31 two_pending key other_key two_pending-HasUniqueKeys keys_differ two_due.0
      two_due.1
