-- ===== src/Payments/Repository.antt =====
-- The payment repositories of app/repository.py, with the request of app/models.py and the service of
-- app/service.py, which only passes calls on. `digest` stands for the SHA-256 of the canonical JSON
-- of a request, `fresh` for `f"pay_{uuid4().hex}"`, `now` for the clock. A call of the in-memory
-- repository holds its lock, and a call of the other is one transaction: each is one step.
pub mod Idempotency
pub mod Refinement
use atlas_pay.Prelude.{
  ltb, if◌then◌else◌, length, keep, is_empty, value_error, idempotency_error, key_error,
  runtime_error, data_error, Result, err, ok, raise_if, ◌>>=◌, ◌>>◌, or_raise, text_eq, ◌==◌,
  nat_eq, Text, Unicode, upper, ℕ, not, ◌||◌, Option, none, some, [], ◌∷◌, ◌++◌,
}
use atlas_pay.Prelude.Dict.{Dict, lookup, insert}
use atlas_pay.Payments.Database.{
  pending, status_eq, Payment, KeyRow, Database, find, has_nul, insert_payment,
}

pub record CreatePaymentRequest : Type 0 where
  pub amount : ℕ
  pub currency : Text
  pub merchant_reference : Text

-- What the model's validation accepts, with the currency in capitals.
unfoldable pub make_request : Unicode → CreatePaymentRequest → Result CreatePaymentRequest
make_request u r = do
  raise_if (r.amount == 0) value_error
  raise_if (not (length r.currency == 3)) value_error
  raise_if (is_empty r.merchant_reference || ltb 128 (length r.merchant_reference)) value_error
  ok (record r { currency = upper u r.currency })

-- `Payment(**request.model_dump())`
unfoldable pub new_payment : CreatePaymentRequest → Text → ℕ → Payment
new_payment r fresh now = record {
  id = fresh;
  amount = r.amount;
  currency = r.currency;
  merchant_reference = r.merchant_reference;
  status = pending;
  created_at = now;
}

-- `if idempotency_key:`, which an empty key fails
abbrev pub used_key : Option Text → Option Text
used_key none = none
used_key (some key) = if is_empty key then none else some key

-- `InMemoryPaymentRepository`
pub record Repository : Type 0 where
  pub payments : Dict Text Payment
  pub idempotency : Dict Text (Text × Text)

abbrev pub new_repository : Repository
new_repository = record { payments = []; idempotency = [] }

module _ (digest : CreatePaymentRequest → Text) where
  -- The branch of a key that has an entry.
  unfoldable pub reuse :
      CreatePaymentRequest → Text × Text → Repository → Result (Payment × Repository)
  reuse r (previous, id) s = do
    raise_if (not (previous == digest r)) idempotency_error
    p ← or_raise (lookup id s.payments) key_error
    ok (p, s)

  unfoldable pub create_keyed :
      CreatePaymentRequest
      → Text
      → Text
      → ℕ
      → Repository
      → Option (Text × Text)
      → Result (Payment × Repository)
  create_keyed r key fresh now s (some entry) = reuse r entry s
  create_keyed r key fresh now s none = ok (
    new_payment r fresh now,
    record {
      payments = insert fresh (new_payment r fresh now) s.payments;
      idempotency = insert key (digest r, fresh) s.idempotency;
    },
  )

  unfoldable pub create_used :
      CreatePaymentRequest → Text → ℕ → Repository → Option Text → Result (Payment × Repository)
  create_used r fresh now s none = ok (
    new_payment r fresh now,
    record s { payments = insert fresh (new_payment r fresh now) s.payments },
  )
  create_used r fresh now s (some key) = create_keyed r key fresh now s (lookup key s.idempotency)

  -- `InMemoryPaymentRepository.create_payment`
  unfoldable pub create_in_memory :
      CreatePaymentRequest → Option Text → Text → ℕ → Repository → Result (Payment × Repository)
  create_in_memory r key fresh now s = create_used r fresh now s (used_key key)

-- `InMemoryPaymentRepository.get`
unfoldable pub get_in_memory : Text → Repository → Option Payment
get_in_memory id s = lookup id s.payments

-- `PostgresPaymentRepository.get`
unfoldable pub get_stored : Text → Database → Option Payment
get_stored id db = find (λ p. p.id == id) db.payments

-- `DELETE FROM payments WHERE id = ...`
unfoldable pub delete_payment : Text → Database → Database
delete_payment id db = record db { payments = keep (λ p. not (p.id == id)) db.payments }

module _ (digest : CreatePaymentRequest → Text) where
  -- The answer for a key that another payment has claimed; the candidate is gone.
  unfoldable pub reuse_stored :
      CreatePaymentRequest → Option KeyRow → Database → Result (Payment × Database)
  reuse_stored r none db = err runtime_error
  reuse_stored r (some row) db = do
    raise_if (not (row.request_fingerprint == digest r)) idempotency_error
    p ← or_raise (get_stored row.payment_id db) runtime_error
    ok (p, db)

  -- The claim of the key: `ON CONFLICT (key) DO NOTHING`.
  unfoldable pub claim_key :
      CreatePaymentRequest → Text → Payment → Database → Option KeyRow → Result (Payment × Database)
  claim_key r key p db none = do
    raise_if (has_nul key) data_error
    let row : KeyRow = record { key = key; request_fingerprint = digest r; payment_id = p.id }
    ok (p, record db { idempotency_keys = db.idempotency_keys ++ (row ∷ []) })
  claim_key r key p db (some row) = do
    raise_if (has_nul key) data_error
    let db' = delete_payment p.id db
    reuse_stored r (find (λ x. x.key == key) db'.idempotency_keys) db'

  unfoldable pub claim_used :
      CreatePaymentRequest → Payment → Database → Option Text → Result (Payment × Database)
  claim_used r p db none = ok (p, db)
  claim_used r p db (some key) = claim_key r key p db (find (λ x. x.key == key) db.idempotency_keys)

  -- `PostgresPaymentRepository.create_payment`
  unfoldable pub create_stored :
      CreatePaymentRequest → Option Text → Text → ℕ → Database → Result (Payment × Database)
  create_stored r key fresh now db = do
    with_payment ← insert_payment (new_payment r fresh now) db
    claim_used r (new_payment r fresh now) with_payment (used_key key)
