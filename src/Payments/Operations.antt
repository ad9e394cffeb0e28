-- ===== src/Payments/Operations.antt =====
-- `PostgresPaymentOperations` of app/payment_operations.py. The parameters stand for what the code
-- takes from outside: `digest` for the SHA-256 of the canonical JSON of the four fields, `fresh` for
-- the three `uuid4` values, `clock` for the database's NOW(). `execute` runs in one transaction, with
-- the key's advisory lock and the payment's row lock, so that it is one step on the database.
pub mod Execution
pub mod Replay
pub mod Conservation
use atlas_pay.Prelude.{
  operation_error, transition_error, conflict_error, Result, ok, err, ◌>>=◌, ◌>>◌, raise_if, ◌==◌,
  nat_eq, text_eq, Text, codes, Unicode, upper, is_blank, ℕ, Bool, true, false, not, Option, none,
  some, List, [], ◌∷◌, ◌++◌,
}
use atlas_pay.Payments.Database.{
  PaymentStatus, authorized, captured, refunded, reversed, PaymentOperation, capture, refund,
  reversal_operation, debit, credit, status_text, operation_text, status_eq, Payment,
  LedgerTransaction, LedgerEntry, OperationRow, EventRow, Database, find, update,
  insert_transaction, insert_entries, assert_balanced, insert_operation, insert_event,
}

pub record OperationRequest : Type 0 where
  pub payment_id : Text
  pub operation : PaymentOperation
  pub source_account_id : Text
  pub destination_account_id : Text

pub record OperationResult : Type 0 where
  pub operation_id : Text
  pub payment_id : Text
  pub operation : PaymentOperation
  pub from_status : PaymentStatus
  pub to_status : PaymentStatus
  pub journal_transaction_id : Text
  pub replayed : Bool

pub record FreshIds : Type 0 where
  pub operation_id : Text
  pub journal_id : Text
  pub event_id : Text

-- `_TRANSITIONS`
unfoldable pub expected_from : PaymentOperation → PaymentStatus
expected_from capture = authorized
expected_from refund = captured
expected_from reversal_operation = authorized

unfoldable pub target_status : PaymentOperation → PaymentStatus
target_status capture = captured
target_status refund = refunded
target_status reversal_operation = reversed

unfoldable pub result_from_row : OperationRow → Bool → OperationResult
result_from_row o replayed = record {
  operation_id = o.id;
  payment_id = o.payment_id;
  operation = o.operation;
  from_status = o.from_status;
  to_status = o.to_status;
  journal_transaction_id = o.journal_transaction_id;
  replayed = replayed;
}

-- `f"payment:{payment_id}:{operation.value}:{operation_id}"`
abbrev pub operation_reference : OperationRequest → Text → Text
operation_reference r id =
    codes "payment:"
    ++ (r.payment_id ++ (codes ":" ++ (operation_text r.operation ++ (codes ":" ++ id))))

unfoldable pub set_status : Text → PaymentStatus → Database → Database
set_status id status db = record db {
  payments = update (λ p. p.id == id) (λ p. record p { status = status }) db.payments;
}

-- The debit of the source and the credit of the destination.
unfoldable pub operation_entries : Text → Text → Text → ℕ → Text → List LedgerEntry
operation_entries journal source destination amount currency =
    record {
      transaction_id = journal;
      account_id = source;
      side = debit;
      amount = amount;
      currency = currency;
    }
    ∷ record {
      transaction_id = journal;
      account_id = destination;
      side = credit;
      amount = amount;
      currency = currency;
    }
    ∷ []

unfoldable pub operation_row :
    OperationRequest → Text → Text → FreshIds → PaymentStatus → OperationRow
operation_row r key fingerprint fresh current = record {
  id = fresh.operation_id;
  idempotency_key = key;
  request_fingerprint = fingerprint;
  payment_id = r.payment_id;
  operation = r.operation;
  from_status = current;
  to_status = target_status r.operation;
  journal_transaction_id = fresh.journal_id;
}

unfoldable pub event_row : OperationRequest → FreshIds → PaymentStatus → ℕ → Text → ℕ → EventRow
event_row r fresh current amount currency clock = record {
  id = fresh.event_id;
  aggregate_type = codes "payment";
  aggregate_id = r.payment_id;
  event_type = codes "payment." ++ status_text (target_status r.operation);
  payload = record {
    amount = amount;
    currency = currency;
    from_status = current;
    journal_transaction_id = fresh.journal_id;
    operation = r.operation;
    operation_id = fresh.operation_id;
    payment_id = r.payment_id;
    to_status = target_status r.operation;
  };
  created_at = clock;
  published_at = none;
  attempts = 0;
  last_error = none;
  locked_at = none;
}

-- The statements that change the database, in their order.
unfoldable pub write_operation :
    OperationRequest
    → Text
    → Text
    → FreshIds
    → ℕ
    → PaymentStatus
    → ℕ
    → Text
    → Database
    → Result Database
write_operation r key fingerprint fresh clock current amount currency db = do
  let t : LedgerTransaction = record {
    id = fresh.journal_id;
    reference = operation_reference r fresh.operation_id;
    currency = currency;
  }
  with_journal ← insert_transaction t db
  with_entries ←
      insert_entries
        (operation_entries fresh.journal_id r.source_account_id r.destination_account_id amount
          currency)
        with_journal
  with_row ←
      insert_operation (operation_row r key fingerprint fresh current)
        (set_status r.payment_id (target_status r.operation) with_entries)
  written ← insert_event (event_row r fresh current amount currency clock) with_row
  assert_balanced fresh.journal_id written
  ok written

module _ (u : Unicode) (digest : OperationRequest → Text) where
  -- The part of `execute` for a key that was not used before, given the payment's row.
  unfoldable pub execute_on :
      OperationRequest
      → Text
      → FreshIds
      → ℕ
      → Database
      → Option Payment
      → Result (OperationResult × Database)
  execute_on r key fresh clock db none = err operation_error
  execute_on r key fresh clock db (some p) = do
    raise_if (not (p.status == expected_from r.operation)) transition_error
    db' ← write_operation r key (digest r) fresh clock p.status p.amount (upper u p.currency) db
    ok (result_from_row (operation_row r key (digest r) fresh p.status) false, db')

  -- The part after the guards, given the row of the idempotency key.
  unfoldable pub execute_keyed :
      OperationRequest
      → Text
      → FreshIds
      → ℕ
      → Database
      → Option OperationRow
      → Result (OperationResult × Database)
  execute_keyed r key fresh clock db (some row) = do
    raise_if (not (row.request_fingerprint == digest r)) conflict_error
    ok (result_from_row row true, db)
  execute_keyed r key fresh clock db none =
      execute_on r key fresh clock db (find (λ p. p.id == r.payment_id) db.payments)

  unfoldable pub execute :
      OperationRequest → Text → FreshIds → ℕ → Database → Result (OperationResult × Database)
  execute r key fresh clock db = do
    raise_if (is_blank u key) operation_error
    raise_if (r.source_account_id == r.destination_account_id) operation_error
    execute_keyed r key fresh clock db (find (λ o. o.idempotency_key == key) db.operations)
