-- ===== src/Tests/Orders.antt =====
-- The repositories on two orders.
use atlas_pay.Prelude.{
  data_error, err, ok, text_eq, nat_eq, Text, codes, upper, ascii_only, ◌≡◌, refl, ◌≢◌, none, some,
  [], ◌∷◌, ◌++◌, arith,
}
use atlas_pay.Prelude.Dict.{lookup, insert}
use atlas_pay.Payments.Database.{
  status_eq, Payment, empty_database, find, as_varchar, as_char, insert_payment,
}
use atlas_pay.Payments.Repository.{
  CreatePaymentRequest, make_request, new_payment, Repository, new_repository, create_keyed,
  create_used, create_in_memory, get_in_memory, get_stored, create_stored,
}
use atlas_pay.Payments.Repository.Idempotency.{none_yet, create-idempotent}
use atlas_pay.Payments.Repository.Refinement.{
  IsStored, IsSameAnswer, IsStorable, create_stored-refines,
}

abbrev order : CreatePaymentRequest
order = record { amount = 12550; currency = codes "MAD"; merchant_reference = codes "order" }

abbrev bigger_order : CreatePaymentRequest
bigger_order = record { amount = 99999; currency = codes "MAD"; merchant_reference = codes "order" }

abbrev order_digest : CreatePaymentRequest → Text
order_digest r = r.amount ∷ (r.currency ++ r.merchant_reference)

abbrev order_payment : Payment
order_payment = new_payment order (codes "pay_1") 5

abbrev with_order : Repository
with_order = record {
  payments = (codes "pay_1", order_payment) ∷ [];
  idempotency = (codes "k", (order_digest order, codes "pay_1")) ∷ [];
}

create_test :
    create_in_memory order_digest order (some (codes "k")) (codes "pay_1") 5 new_repository
    ≡ ok (order_payment, with_order)
unfolding create_in_memory create_used create_keyed lookup insert
create_test = refl

create-idempotent_example :
    create_in_memory order_digest order (some (codes "k")) (codes "pay_2") 6 with_order
    ≡ ok (order_payment, with_order)
create-idempotent_example =
    create-idempotent order_digest order (codes "k") (codes "pay_1") (codes "pay_2") 5 6
      order_payment new_repository with_order with_order refl create_test (none_yet with_order)

orders_differ : order_digest bigger_order ≢ order_digest order
orders_differ = λ h. ground (arith, h)

empty-IsStored : IsStored empty_database new_repository
unfolding get_stored get_in_memory find lookup
empty-IsStored = record {
  same_payments = λ id. refl;
  same_keys = λ k. refl;
  linked = λ k f id h. absurd (ground (arith, h));
}

unused_id : get_in_memory (codes "pay_1") new_repository ≡ none
unfolding get_in_memory lookup
unused_id = refl

order-IsStorable : IsStorable order
unfolding make_request upper
order-IsStorable = record {
  tables = ascii_only;
  sent = order;
  accepted = refl;
  three = refl;
  readable = refl;
  in_range = refl;
}

-- A currency that has four characters as capitals is refused by the column, and by it alone.
abbrev sharp_order : CreatePaymentRequest
sharp_order = record order { currency = codes "SSAB" }

sharp_refused :
    create_stored order_digest sharp_order none (codes "pay_1") 5 empty_database ≡ err data_error
unfolding create_stored insert_payment as_char as_varchar new_payment
sharp_refused = refl

create_stored-refines_example :
    IsSameAnswer
      (create_stored order_digest order (some (codes "k")) (codes "pay_1") 5 empty_database)
      (create_in_memory order_digest order (some (codes "k")) (codes "pay_1") 5 new_repository)
create_stored-refines_example =
    create_stored-refines order_digest order (codes "pay_1") 5 empty_database new_repository
      empty-IsStored order-IsStorable unused_id (some (codes "k")) refl
