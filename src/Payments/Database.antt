-- ===== src/Payments/Database.antt =====
-- The tables of migrations/*.sql with their constraints, as the statements of the adapters use them.
-- A table is the list of its rows, in the order in which they were inserted; a statement that breaks
-- a constraint raises, and the transaction that it is part of leaves the tables as they were.
-- Amounts are natural numbers: a negative one fails the same guards as zero does.
pub mod Inserts
use atlas_pay.Prelude.{
  ltb, leb, if◌then◌else◌, length, take, drop, any, keep, integrity_error, data_error,
  trigger_error, Result, ok, raise_if, ◌>>=◌, ◌>>◌, Eq, text_eq, ◌==◌, nat_eq, Text, codes, ℕ, zero,
  suc, ◌+◌, ◌-◌, ◌≡◌, ◌↔◌, Bool, true, false, not, ◌&&◌, ◌||◌, Option, none, some, List, [], ◌∷◌,
  ◌++◌, arith,
}

pub data PaymentStatus : Type 0 where
  pending authorized captured refunded reversed failed cancelled : PaymentStatus

pub data PaymentOperation : Type 0 where
  capture refund reversal_operation : PaymentOperation

pub data LedgerSide : Type 0 where
  debit credit : LedgerSide

abbrev pub status_text : PaymentStatus → Text
status_text pending = codes "pending"
status_text authorized = codes "authorized"
status_text captured = codes "captured"
status_text refunded = codes "refunded"
status_text reversed = codes "reversed"
status_text failed = codes "failed"
status_text cancelled = codes "cancelled"

abbrev pub operation_text : PaymentOperation → Text
operation_text capture = codes "capture"
operation_text refund = codes "refund"
operation_text reversal_operation = codes "reversal"

abbrev pub status_code : PaymentStatus → ℕ
status_code pending = 0
status_code authorized = 1
status_code captured = 2
status_code refunded = 3
status_code reversed = 4
status_code failed = 5
status_code cancelled = 6

pub status_beq_iff :
    (a b : PaymentStatus) → (nat_eq.beq (status_code a) (status_code b) ≡ true) ↔ (a ≡ b)
status_beq_iff a b = ground arith

instance abbrev pub status_eq : Eq PaymentStatus
status_eq = record { beq = λ a b. status_code a == status_code b; beq_iff = status_beq_iff }

pub record Payment : Type 0 where
  pub id : Text
  pub amount : ℕ
  pub currency : Text
  pub merchant_reference : Text
  pub status : PaymentStatus
  pub created_at : ℕ

pub record LedgerAccount : Type 0 where
  pub id : Text
  pub name : Text
  pub currency : Text

pub record LedgerTransaction : Type 0 where
  pub id : Text
  pub reference : Text
  pub currency : Text

pub record LedgerEntry : Type 0 where
  pub transaction_id : Text
  pub account_id : Text
  pub side : LedgerSide
  pub amount : ℕ
  pub currency : Text

pub record OperationRow : Type 0 where
  pub id : Text
  pub idempotency_key : Text
  pub request_fingerprint : Text
  pub payment_id : Text
  pub operation : PaymentOperation
  pub from_status : PaymentStatus
  pub to_status : PaymentStatus
  pub journal_transaction_id : Text

-- The JSON object of an event of this program.
pub record EventPayload : Type 0 where
  pub amount : ℕ
  pub currency : Text
  pub from_status : PaymentStatus
  pub journal_transaction_id : Text
  pub operation : PaymentOperation
  pub operation_id : Text
  pub payment_id : Text
  pub to_status : PaymentStatus

pub record EventRow : Type 0 where
  pub id : Text
  pub aggregate_type : Text
  pub aggregate_id : Text
  pub event_type : Text
  pub payload : EventPayload
  pub created_at : ℕ
  pub published_at : Option ℕ
  pub attempts : ℕ
  pub last_error : Option Text
  pub locked_at : Option ℕ

pub record KeyRow : Type 0 where
  pub key : Text
  pub request_fingerprint : Text
  pub payment_id : Text

pub record Database : Type 0 where
  pub payments : List Payment
  pub idempotency_keys : List KeyRow
  pub accounts : List LedgerAccount
  pub transactions : List LedgerTransaction
  pub entries : List LedgerEntry
  pub operations : List OperationRow
  pub events : List EventRow
  pub consumed : List (Text × Text)

abbrev pub empty_database : Database
empty_database = record {
  payments = [];
  idempotency_keys = [];
  accounts = [];
  transactions = [];
  entries = [];
  operations = [];
  events = [];
  consumed = [];
}

-- `SELECT ... WHERE p`, where a constraint allows one row at most.
unfoldable pub find {ℓ} : {A : Type ℓ} → (A → Bool) → List A → Option A
find p [] = none
find p (x ∷ xs) = if p x then some x else find p xs

-- `UPDATE ... SET f WHERE p`
unfoldable pub update {ℓ} : {A : Type ℓ} → (A → Bool) → (A → A) → List A → List A
update p f [] = []
update p f (x ∷ xs) = (if p x then f x else x) ∷ update p f xs

-- The bound of BIGINT.
abbrev pub bigint_bound : ℕ
bigint_bound = 9223372036854775808

unfoldable pub insert_account : LedgerAccount → Database → Result Database
insert_account a db = do
  raise_if (any (λ x. x.id == a.id) db.accounts) integrity_error
  ok (record db { accounts = db.accounts ++ (a ∷ []) })

unfoldable pub insert_transaction : LedgerTransaction → Database → Result Database
insert_transaction t db = do
  raise_if (any (λ x. x.id == t.id) db.transactions) integrity_error
  ok (record db { transactions = db.transactions ++ (t ∷ []) })

-- Both foreign keys carry the currency.
abbrev pub entry_fits : LedgerEntry → Database → Bool
entry_fits n db =
    any (λ a. a.id == n.account_id && a.currency == n.currency) db.accounts
    && any (λ t. t.id == n.transaction_id && t.currency == n.currency) db.transactions

unfoldable pub insert_entry : LedgerEntry → Database → Result Database
insert_entry n db = do
  raise_if (leb bigint_bound n.amount) data_error
  raise_if (n.amount == 0 || not (entry_fits n db)) integrity_error
  ok (record db { entries = db.entries ++ (n ∷ []) })

-- `executemany`
unfoldable pub insert_entries : List LedgerEntry → Database → Result Database
insert_entries [] db = ok db
insert_entries (n ∷ entries) db = do db' ← insert_entry n db; insert_entries entries db'

abbrev pub is_debit : LedgerSide → Bool
is_debit debit = true
is_debit credit = false

abbrev pub side_amount : Bool → LedgerEntry → ℕ
side_amount true n = if is_debit n.side then n.amount else 0
side_amount false n = if is_debit n.side then 0 else n.amount

-- `SUM(amount) FILTER (WHERE side = ...)` of all entries, of debits or of credits.
unfoldable pub side_total : Bool → List LedgerEntry → ℕ
side_total debits [] = 0
side_total debits (n ∷ entries) = side_amount debits n + side_total debits entries

abbrev pub entries_of : Text → List LedgerEntry → List LedgerEntry
entries_of id = keep (λ n. n.transaction_id == id)

-- The trigger `assert_ledger_transaction_balanced`, run at commit for a new transaction. Its totals
-- are BIGINT variables.
unfoldable pub assert_balanced : Text → Database → Result (Unit {0})
assert_balanced id db = do
  let entries = entries_of id db.entries
  raise_if (leb bigint_bound (side_total true entries)) data_error
  raise_if (leb bigint_bound (side_total false entries)) data_error
  raise_if (ltb (length entries) 2 || side_total true entries == 0 || side_total false entries == 0)
      trigger_error
  raise_if (not (side_total true entries == side_total false entries)) trigger_error

unfoldable pub insert_operation : OperationRow → Database → Result Database
insert_operation o db = do
  raise_if
      (any
        (λ x.
          x.id == o.id
          || x.idempotency_key == o.idempotency_key
          || x.journal_transaction_id == o.journal_transaction_id)
        db.operations)
      integrity_error
  raise_if (not (any (λ p. p.id == o.payment_id) db.payments)) integrity_error
  raise_if (not (any (λ t. t.id == o.journal_transaction_id) db.transactions)) integrity_error
  ok (record db { operations = db.operations ++ (o ∷ []) })

unfoldable pub insert_event : EventRow → Database → Result Database
insert_event e db = do
  raise_if (any (λ x. x.id == e.id) db.events) integrity_error
  ok (record db { events = db.events ++ (e ∷ []) })

-- The driver refuses a text with a zero character.
abbrev pub has_nul : Text → Bool
has_nul s = any (λ c. c == 0) s

-- What VARCHAR(n) stores: of what is too long spaces are cut off, and anything else is refused.
unfoldable pub as_varchar : ℕ → Text → Result Text
as_varchar n s = do raise_if (any (λ c. not (c == 32)) (drop n s)) data_error; ok (take n s)

abbrev pub spaces : ℕ → Text
spaces zero = []
spaces (suc n) = 32 ∷ spaces n

-- What CHAR(n) stores: the same, filled up with spaces.
unfoldable pub as_char : ℕ → Text → Result Text
as_char n s = do t ← as_varchar n s; ok (t ++ spaces (n - length t))

unfoldable pub insert_payment : Payment → Database → Result Database
insert_payment p db = do
  raise_if (has_nul p.currency || has_nul p.merchant_reference) data_error
  raise_if (leb bigint_bound p.amount) data_error
  currency ← as_char 3 p.currency
  reference ← as_varchar 128 p.merchant_reference
  raise_if (p.amount == 0 || any (λ x. x.id == p.id) db.payments) integrity_error
  let stored = record p { currency = currency; merchant_reference = reference }
  ok (record db { payments = db.payments ++ (stored ∷ []) })
