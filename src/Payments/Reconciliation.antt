-- ===== src/Payments/Reconciliation.antt =====
-- `PostgresReconciler.inspect` of app/reconciliation.py. The queries run over the rows in the order of
-- the tables: the sort of the report, on all three fields, makes the order of the rows irrelevant.
pub mod Structure
pub mod Preserved
pub mod Mismatch
use atlas_pay.Prelude.{
  ltb, if◌then◌else◌, length, any, is_empty, ◌==◌, nat_eq, text_eq, Text, codes, ℕ, Bool, true,
  false, not, ◌&&◌, List, [], ◌∷◌, ◌++◌,
}
use atlas_pay.Prelude.Decimal.{digits_of}
use atlas_pay.Payments.Database.{
  status_text, status_eq, Payment, LedgerTransaction, LedgerEntry, OperationRow, EventRow, Database,
  side_total, entries_of,
}

pub data DiscrepancyKind : Type 0 where
  operation_without_payment operation_without_journal operation_without_outbox : DiscrepancyKind
  outbox_without_operation payment_status_mismatch : DiscrepancyKind
  journal_entry_count_invalid journal_unbalanced : DiscrepancyKind

pub record Discrepancy : Type 0 where
  pub kind : DiscrepancyKind
  pub entity_id : Text
  pub detail : Text

abbrev pub discrepancy : DiscrepancyKind → Text → Text → Discrepancy
discrepancy kind id detail = record { kind = kind; entity_id = id; detail = detail }

-- `str(n)`
abbrev pub decimal : ℕ → Text
decimal n = if n == 0 then codes "0" else digits_of n n

-- The first two queries.
unfoldable pub missing_payments : Database → List OperationRow → List Discrepancy
missing_payments db [] = []
missing_payments db (o ∷ ops) =
    let rest = missing_payments db ops in
    if any (λ p. p.id == o.payment_id) db.payments
    then rest
    else discrepancy operation_without_payment o.id
        (codes "payment " ++ (o.payment_id ++ codes " is missing"))
      ∷ rest

unfoldable pub missing_journals : Database → List OperationRow → List Discrepancy
missing_journals db [] = []
missing_journals db (o ∷ ops) =
    let rest = missing_journals db ops in
    if any (λ t. t.id == o.journal_transaction_id) db.transactions
    then rest
    else discrepancy operation_without_journal o.id
        (codes "journal " ++ (o.journal_transaction_id ++ codes " is missing"))
      ∷ rest

-- The join of an operation with its event.
abbrev pub is_event_of : OperationRow → EventRow → Bool
is_event_of o e =
    e.aggregate_type == codes "payment"
    && e.aggregate_id == o.payment_id
    && e.payload.operation_id == o.id

unfoldable pub missing_events : Database → List OperationRow → List Discrepancy
missing_events db [] = []
missing_events db (o ∷ ops) =
    let rest = missing_events db ops in
    if any (is_event_of o) db.events
    then rest
    else discrepancy operation_without_outbox o.id (codes "transactional outbox event is missing")
      ∷ rest

-- Every payload of the model has an `operation_id`.
unfoldable pub missing_operations : Database → List EventRow → List Discrepancy
missing_operations db [] = []
missing_operations db (e ∷ events) =
    let rest = missing_operations db events in
    if e.aggregate_type == codes "payment"
      && not (any (λ o. o.id == e.payload.operation_id) db.operations)
    then discrepancy outbox_without_operation e.id
        (codes "operation " ++ (e.payload.operation_id ++ codes " is missing"))
      ∷ rest
    else rest

-- The join of one operation with the payments.
unfoldable pub mismatches_of : OperationRow → List Payment → List Discrepancy
mismatches_of o [] = []
mismatches_of o (p ∷ payments) =
    let rest = mismatches_of o payments in
    if p.id == o.payment_id && not (p.status == o.to_status)
    then discrepancy payment_status_mismatch o.id (
        codes "payment status "
        ++ (status_text p.status ++ (codes " != operation target " ++ status_text o.to_status)))
      ∷ rest
    else rest

unfoldable pub mismatches : Database → List OperationRow → List Discrepancy
mismatches db [] = []
mismatches db (o ∷ ops) = mismatches_of o db.payments ++ mismatches db ops

-- What the last loop says of one journal.
unfoldable pub check_journal : Text → List LedgerEntry → List Discrepancy
check_journal id entries =
    (if ltb (length entries) 2
      then discrepancy journal_entry_count_invalid id
          (codes "journal has " ++ (decimal (length entries) ++ codes " entries"))
        ∷ []
      else [])
    ++ (if side_total true entries == side_total false entries
        then []
        else discrepancy journal_unbalanced id (
            codes "debits="
            ++ (decimal (side_total true entries)
                ++ (codes ", credits=" ++ decimal (side_total false entries))))
          ∷ [])

unfoldable pub bad_journals : Database → List LedgerTransaction → List Discrepancy
bad_journals db [] = []
bad_journals db (t ∷ ts) = check_journal t.id (entries_of t.id db.entries) ++ bad_journals db ts

-- All queries but that of the statuses.
unfoldable pub structural : Database → List Discrepancy
structural db =
    missing_payments db db.operations
    ++ (missing_journals db db.operations
        ++ (missing_events db db.operations
            ++ (missing_operations db db.events ++ bad_journals db db.transactions)))

-- `kind.value`
abbrev pub kind_text : DiscrepancyKind → Text
kind_text operation_without_payment = codes "operation_without_payment"
kind_text operation_without_journal = codes "operation_without_journal"
kind_text operation_without_outbox = codes "operation_without_outbox"
kind_text outbox_without_operation = codes "outbox_without_operation"
kind_text payment_status_mismatch = codes "payment_status_mismatch"
kind_text journal_entry_count_invalid = codes "journal_entry_count_invalid"
kind_text journal_unbalanced = codes "journal_unbalanced"

-- `a <= b` on texts
unfoldable pub text_leb : Text → Text → Bool
text_leb [] t = true
text_leb (x ∷ s) [] = false
text_leb (x ∷ s) (y ∷ t) = let rest = text_leb s t in if x == y then rest else ltb x y

-- `<=` on the sort key, a tuple of texts.
unfoldable pub key_leb : Discrepancy → Discrepancy → Bool
key_leb a b =
    if not (kind_text a.kind == kind_text b.kind)
    then text_leb (kind_text a.kind) (kind_text b.kind)
    else if not (a.entity_id == b.entity_id)
    then text_leb a.entity_id b.entity_id
    else text_leb a.detail b.detail

unfoldable pub insert_by_key : Discrepancy → List Discrepancy → List Discrepancy
insert_by_key d [] = d ∷ []
insert_by_key d (x ∷ xs) = if key_leb d x then d ∷ x ∷ xs else x ∷ insert_by_key d xs

unfoldable pub sort_report : List Discrepancy → List Discrepancy
unfolding insert_by_key
sort_report [] = []
sort_report (d ∷ ds) = insert_by_key d (sort_report ds)

unfoldable pub inspect : Database → List Discrepancy
inspect db = sort_report (structural db ++ mismatches db db.operations)

-- `ReconciliationReport.clean`
abbrev pub is_clean : List Discrepancy → Bool
is_clean = is_empty
