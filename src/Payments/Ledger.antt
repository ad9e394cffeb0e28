-- ===== src/Payments/Ledger.antt =====
-- `PostgresLedger` of app/ledger.py. A call returns its result and the database that its transaction
-- commits; where it raises, the transaction is rolled back. The side of a posting is one of the two
-- that its type admits. `fresh` stands for `f"jrn_{uuid4().hex}"`.
pub mod Balance
use atlas_pay.Prelude.{
  ltb, if◌then◌else◌, length, any, is_empty, ledger_error, integrity_error, Result, ok, err, ◌>>=◌,
  ◌>>◌, raise_if, ◌==◌, nat_eq, text_eq, Text, Unicode, upper, ℕ, ◌+◌, Bool, true, false, not,
  Option, none, some, List, [], ◌∷◌,
}
use atlas_pay.Prelude.Int.{ℤ, pos, ◌-ℤ◌}
use atlas_pay.Payments.Database.{
  LedgerSide, status_eq, LedgerAccount, LedgerTransaction, LedgerEntry, Database, insert_account,
  insert_transaction, insert_entries, is_debit, side_amount, assert_balanced,
}

pub record LedgerPosting : Type 0 where
  pub account_id : Text
  pub side : LedgerSide
  pub amount : ℕ

unfoldable pub create_account :
    Unicode → LedgerAccount → Database → Result (LedgerAccount × Database)
create_account u account db = do
  let currency = upper u account.currency
  raise_if (not (length currency == 3)) ledger_error
  let row : LedgerAccount = record { id = account.id; name = account.name; currency = currency }
  db' ← insert_account row db
  ok (row, db')

abbrev pub posting_amount : Bool → LedgerPosting → ℕ
posting_amount true p = if is_debit p.side then p.amount else 0
posting_amount false p = if is_debit p.side then 0 else p.amount

-- `sum(p.amount for p in postings if p.side == ...)`, of debits or of credits
unfoldable pub posting_total : Bool → List LedgerPosting → ℕ
posting_total debits [] = 0
posting_total debits (p ∷ postings) = posting_amount debits p + posting_total debits postings

unfoldable pub validate_postings : List LedgerPosting → Result (Unit {0})
validate_postings postings = do
  raise_if (ltb (length postings) 2) ledger_error
  raise_if (any (λ p. p.amount == 0) postings) ledger_error
  raise_if (not (posting_total true postings == posting_total false postings)) ledger_error

-- `transaction_id or fresh`
abbrev pub journal_of : Option Text → Text → Text
journal_of none fresh = fresh
journal_of (some id) fresh = if is_empty id then fresh else id

unfoldable pub entry_rows : Text → Text → List LedgerPosting → List LedgerEntry
entry_rows id currency [] = []
entry_rows id currency (p ∷ postings) =
    record {
      transaction_id = id;
      account_id = p.account_id;
      side = p.side;
      amount = p.amount;
      currency = currency;
    }
    ∷ entry_rows id currency postings

-- The two inserts of a journal and the trigger that the commit runs.
unfoldable pub write_journal : LedgerTransaction → List LedgerEntry → Database → Result Database
write_journal t entries db = do
  with_transaction ← insert_transaction t db
  written ← insert_entries entries with_transaction
  assert_balanced t.id written
  ok written

-- `except psycopg.IntegrityError`
abbrev pub as_ledger_error {ℓ} : {A : Type ℓ} → Result A → Result A
as_ledger_error (err integrity_error) = err ledger_error
as_ledger_error (err e) = err e
as_ledger_error (ok a) = ok a

unfoldable pub post :
    Unicode
    → Text
    → Text
    → List LedgerPosting
    → Option Text
    → Text
    → Database
    → Result (Text × Database)
post u reference currency postings transaction_id fresh db = do
  validate_postings postings
  let normalized = upper u currency
  raise_if (not (length normalized == 3)) ledger_error
  let id = journal_of transaction_id fresh
  db' ← as_ledger_error (
      write_journal (record { id = id; reference = reference; currency = normalized })
        (entry_rows id normalized postings) db)
  ok (id, db')

-- The sum of the entries of one account, of debits or of credits.
unfoldable pub account_total : Bool → Text → List LedgerEntry → ℕ
account_total debits id [] = 0
account_total debits id (n ∷ entries) =
    (if n.account_id == id then side_amount debits n else 0) + account_total debits id entries

-- `account_balance`: debits less credits, 0 for an account with no entries. The query always
-- returns one row.
unfoldable pub account_balance : Text → Database → ℤ
account_balance id db =
    pos (account_total true id db.entries) -ℤ pos (account_total false id db.entries)
