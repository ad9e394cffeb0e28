-- ===== src/Payments/Operations/Conservation.antt =====
-- Lemmas on the operations and the balances of the books.
use atlas_pay.Prelude.{
  if◌then◌else◌, Bool-cases, Option-cases, operation_error, ok, raise_if, >>=-eq-ok, ◌==◌, nat_eq,
  list_beq_iff, text_eq, Text, Unicode, upper, is_blank, ℕ, ◌+◌, ◌≡◌, refl, sym, ap, ◌∙◌, ◌≢◌, inl,
  inr, Bool, true, false, ◌&&◌, Option, some, List, [], arith,
}
use atlas_pay.Prelude.Int.{pos, ◌+ℤ◌, ◌-ℤ◌, +ℤ_parts, -ℤ_parts, eq_of_parts}
use atlas_pay.Payments.Database.{
  status_eq, Payment, LedgerAccount, Database, find, insert_account, side_total, entries_of,
}
use atlas_pay.Payments.Ledger.{LedgerPosting, create_account, post, account_total, account_balance}
use atlas_pay.Payments.Ledger.Balance.{
  IsBooked, side_total_of-append, post-IsBooked, account_total-append,
}
use atlas_pay.Payments.Operations.{
  OperationRequest, OperationResult, FreshIds, result_from_row, operation_entries, execute_on,
  execute_keyed, execute,
}
use atlas_pay.Payments.Operations.Execution.{on-IsExecuted, execute-IsExecuted}

-- The calls that write to the ledger.
pub data Step (u : Unicode) (digest : OperationRequest → Text) (db db' : Database) : Type 0 where
  opens : (a b : LedgerAccount) → create_account u a db ≡ ok (b, db') → Step u digest db db'
  posts :
      (reference currency : Text) (ps : List LedgerPosting) (given : Option Text) (fresh id : Text)
      → post u reference currency ps given fresh db ≡ ok (id, db')
      → Step u digest db db'
  executes :
      (r : OperationRequest) (key : Text) (fresh : FreshIds) (clock : ℕ) (x : OperationResult)
      → execute u digest r key fresh clock db ≡ ok (x, db')
      → Step u digest db db'

pub data Reach (u : Unicode) (digest : OperationRequest → Text) : Database → Type 0 where
  start : (db : Database) → db.entries ≡ [] → Reach u digest db
  next : {db db' : Database} → Reach u digest db → Step u digest db db' → Reach u digest db'

opens-entries :
    (u : Unicode) (a b : LedgerAccount) (db db' : Database)
    → create_account u a db ≡ ok (b, db')
    → db'.entries ≡ db.entries
unfolding create_account insert_account
opens-entries u a b db db' h = ground arith

pub operation_entries_total :
    (journal source destination currency k : Text) (amount : ℕ)
    → side_total true (entries_of k (operation_entries journal source destination amount currency))
      ≡ side_total false
          (entries_of k (operation_entries journal source destination amount currency))
unfolding operation_entries side_total
operation_entries_total journal source destination currency k amount =
    elim (Bool-cases (journal == k)) [ inl e ↦ rw e (omega arith) | inr e ↦ rw e refl ]

-- What a call of `execute` does to the entries: nothing, or two more of them.
pub executed_entries :
    (u : Unicode) (digest : OperationRequest → Text) (r : OperationRequest) (key : Text)
    (fresh : FreshIds) (clock : ℕ) (db db' : Database) (x : OperationResult)
    → execute u digest r key fresh clock db ≡ ok (x, db')
    → x.replayed ≡ true
    → db' ≡ db
unfolding execute execute_keyed execute_on result_from_row
executed_entries u digest r key fresh clock db db' x h again =
    let (named, h₁, k₁) = >>=-eq-ok (raise_if (is_blank u key) operation_error) _ h in
    let (differ, h₂, k₂) =
      >>=-eq-ok (raise_if (r.source_account_id == r.destination_account_id) operation_error) _ k₁ in
    elim (Option-cases (find (λ o. o.idempotency_key == key) db.operations)) [
      | inr (row, e) ↦ ground (arith, rw e at k₂)
      | inl e ↦ elim (Option-cases (find (λ p. p.id == r.payment_id) db.payments)) [
        | inl f ↦ absurd (ground (arith, rw (e, f) at k₂))
        | inr (p, f) ↦
            let i = on-IsExecuted u digest r key fresh clock db db' x p e f (rw (e, f) at k₂) in
            absurd (clash (ap (λ (y : OperationResult). y.replayed) i.returned))
      ]
    ]
  where
    clash : x.replayed ≡ false → ⊥
    clash e = cc (e, again)

executes-IsBooked :
    (u : Unicode) (digest : OperationRequest → Text) (r : OperationRequest) (key : Text)
    (fresh : FreshIds) (clock : ℕ) (db db' : Database) (x : OperationResult)
    → IsBooked db.entries
    → execute u digest r key fresh clock db ≡ ok (x, db')
    → IsBooked db'.entries
executes-IsBooked u digest r key fresh clock db db' x booked h k = elim (Bool-cases x.replayed) [
  | inl again ↦ rw (executed_entries u digest r key fresh clock db db' x h again) (booked k)
  | inr once ↦
      let i = execute-IsExecuted u digest r key fresh clock db db' x h once in
      let c = upper u i.payment.currency in
      let rows =
        operation_entries fresh.journal_id r.source_account_id r.destination_account_id
          i.payment.amount c in
      rw i.written (
        omega (
          arith,
          booked k,
          side_total_of-append true k db.entries rows,
          side_total_of-append false k db.entries rows,
          operation_entries_total fresh.journal_id r.source_account_id r.destination_account_id c k
              i.payment.amount,
        ))
]

-- From an empty ledger, through any sequence of accounts opened, postings and operations, the
-- debits of every journal equal its credits.
pub Reach-IsBooked :
    (u : Unicode) (digest : OperationRequest → Text) {db : Database}
    → Reach u digest db
    → IsBooked db.entries
unfolding side_total
Reach-IsBooked u digest (start db empty) = λ k. rw empty refl
Reach-IsBooked u digest (next {db} {db'} reach (opens a b h)) =
    rw (opens-entries u a b db db' h) (Reach-IsBooked u digest reach)
Reach-IsBooked u digest (next {db} {db'} reach (posts reference currency ps given fresh id h)) =
    post-IsBooked u reference currency ps given fresh id db db' (Reach-IsBooked u digest reach) h
Reach-IsBooked u digest (next {db} {db'} reach (executes r key fresh clock x h)) =
    executes-IsBooked u digest r key fresh clock db db' x (Reach-IsBooked u digest reach) h

-- What the two entries of an operation add to an account's debits, or credits.
operation_entries_to :
    (b : Bool) (journal source destination currency account : Text) (amount : ℕ)
    → account_total b account (operation_entries journal source destination amount currency) ≡ (
        if b
        then (if source == account then amount else 0)
        else (if destination == account then amount else 0))
unfolding operation_entries account_total
operation_entries_to true journal source destination currency account amount = ground arith
operation_entries_to false journal source destination currency account amount = ground arith

-- A debit and a credit of one amount, against the balance before.
balance_after :
    (at_source at_destination : Bool) (d c amount : ℕ)
    → (at_source && at_destination) ≡ false
    → pos (d + (if at_source then amount else 0))
        -ℤ pos (c + (if at_destination then amount else 0))
      ≡ (if at_source
          then pos d -ℤ pos c +ℤ pos amount
          else if at_destination
          then pos d -ℤ pos c -ℤ pos amount
          else pos d -ℤ pos c)
balance_after true true d c amount h = absurd (ground arith)
balance_after true false d c amount h = eq_of_parts _ _ (
    ground (
      arith,
      -ℤ_parts (pos (d + amount)) (pos (c + 0)),
      -ℤ_parts (pos d) (pos c),
      +ℤ_parts (pos d -ℤ pos c) (pos amount),
    ))
balance_after false true d c amount h = eq_of_parts _ _ (
    ground (
      arith,
      -ℤ_parts (pos (d + 0)) (pos (c + amount)),
      -ℤ_parts (pos d) (pos c),
      -ℤ_parts (pos d -ℤ pos c) (pos amount),
    ))
balance_after false false d c amount h =
    eq_of_parts _ _ (ground (arith, -ℤ_parts (pos (d + 0)) (pos (c + 0)), -ℤ_parts (pos d) (pos c)))

-- An operation between two different accounts that is not a replay adds the amount of the
-- payment to the balance of the source account, takes it from that of the destination, and
-- leaves every other balance.
pub execute-account_balance :
    (u : Unicode) (digest : OperationRequest → Text) (r : OperationRequest) (key : Text)
    (fresh : FreshIds) (clock : ℕ) (db db' : Database) (x : OperationResult) (p : Payment)
    (account : Text)
    → r.source_account_id ≢ r.destination_account_id
    → find (λ p. p.id == r.payment_id) db.payments ≡ some p
    → execute u digest r key fresh clock db ≡ ok (x, db')
    → x.replayed ≡ false
    → account_balance account db' ≡ (
        if r.source_account_id == account
        then account_balance account db +ℤ pos p.amount
        else if r.destination_account_id == account
        then account_balance account db -ℤ pos p.amount
        else account_balance account db)
unfolding account_balance
execute-account_balance u digest r key fresh clock db db' x p account apart found h once =
    let i = execute-IsExecuted u digest r key fresh clock db db' x h once in
    let same : p ≡ i.payment = some_injective (sym found ∙ i.payment_found) in
    let c = upper u i.payment.currency in
    let rows =
      operation_entries fresh.journal_id r.source_account_id r.destination_account_id
        i.payment.amount c in
    let to = λ (b : Bool).
      operation_entries_to b fresh.journal_id r.source_account_id r.destination_account_id c account
        i.payment.amount in
    rw
      (
        i.written,
        same,
        account_total-append true account db.entries rows,
        account_total-append false account db.entries rows,
        to true,
        to false,
      )
      (balance_after (r.source_account_id == account) (r.destination_account_id == account)
        (account_total true account db.entries) (account_total false account db.entries)
        i.payment.amount
        (ground (
          arith,
          apart,
          list_beq_iff r.source_account_id account,
          list_beq_iff r.destination_account_id account,
        )))
  where
    some_injective : {p q : Payment} → some p ≡ some q → p ≡ q
    some_injective e = cc
