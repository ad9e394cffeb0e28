-- ===== src/Payments/Operations/Execution.antt =====
-- What an operation that succeeds leaves in the tables.
use atlas_pay.Prelude.{
  Option-cases, operation_error, transition_error, ok, raise_if, >>=-eq-ok, ◌==◌, nat_eq, text_eq,
  Text, Unicode, upper, is_blank, ℕ, ◌≡◌, refl, ◌∙◌, inl, inr, false, not, none, some, [], ◌∷◌,
  ◌++◌, arith,
}
use atlas_pay.Payments.Database.{
  PaymentStatus, status_beq_iff, status_eq, Payment, LedgerTransaction, Database, find, update,
  insert_transaction, insert_entries, assert_balanced, insert_operation, insert_event,
}
use atlas_pay.Payments.Database.Inserts.{
  insert_transaction-shape, insert_operation-shape, insert_event-shape, insert_entries-shape,
}
use atlas_pay.Payments.Operations.{
  OperationRequest, OperationResult, FreshIds, expected_from, target_status, result_from_row,
  operation_reference, set_status, operation_entries, operation_row, event_row, write_operation,
  execute_on, execute_keyed, execute,
}

abbrev pub operation_journal : OperationRequest → FreshIds → Text → LedgerTransaction
operation_journal r fresh currency = record {
  id = fresh.journal_id;
  reference = operation_reference r fresh.operation_id;
  currency = currency;
}

-- The tables after the five writes: all of them, and nothing else, has happened.
abbrev pub after_operation :
    OperationRequest → Text → Text → FreshIds → ℕ → PaymentStatus → ℕ → Text → Database → Database
after_operation r key fingerprint fresh clock current amount currency db = record db {
  transactions = db.transactions ++ (operation_journal r fresh currency ∷ []);
  entries =
      db.entries
      ++ operation_entries fresh.journal_id r.source_account_id r.destination_account_id amount
          currency;
  payments =
      update (λ p. p.id == r.payment_id) (λ p. record p { status = target_status r.operation })
        db.payments;
  operations = db.operations ++ (operation_row r key fingerprint fresh current ∷ []);
  events = db.events ++ (event_row r fresh current amount currency clock ∷ []);
}

pub write_operation-shape :
    (r : OperationRequest) (key fingerprint : Text) (fresh : FreshIds) (clock : ℕ)
    (current : PaymentStatus) (amount : ℕ) (currency : Text) (db db' : Database)
    → write_operation r key fingerprint fresh clock current amount currency db ≡ ok db'
    → db' ≡ after_operation r key fingerprint fresh clock current amount currency db
unfolding write_operation set_status
write_operation-shape r key fingerprint fresh clock current amount currency db db' h =
    let t = operation_journal r fresh currency in
    let es =
      operation_entries fresh.journal_id r.source_account_id r.destination_account_id amount
        currency in
    let o = operation_row r key fingerprint fresh current in
    let v = event_row r fresh current amount currency clock in
    let (db₁, h₁, k₁) = >>=-eq-ok (insert_transaction t db) _ h in
    let (db₂, h₂, k₂) = >>=-eq-ok (insert_entries es db₁) _ k₁ in
    let paid = set_status r.payment_id (target_status r.operation) db₂ in
    let (db₃, h₃, k₃) = >>=-eq-ok (insert_operation o paid) _ k₂ in
    let (db₄, h₄, k₄) = >>=-eq-ok (insert_event v db₃) _ k₃ in
    let (done, h₅, k₅) = >>=-eq-ok (assert_balanced fresh.journal_id db₄) _ k₄ in
    let e₁ = (insert_transaction-shape t db db₁ h₁).1 in
    let e₂ = insert_entries-shape es db₁ db₂ h₂ in
    let e₃ = (insert_operation-shape o paid db₃ h₃).3 in
    let e₄ = (insert_event-shape v db₃ db₄ h₄).1 in
    let same : db' ≡ db₄ = ground (arith, k₅) in same ∙ e₄ ∙ rw (e₃, e₂, e₁) refl

-- What is known of a call that was not a replay: the key was unused, the payment existed in the
-- state that the transition starts from, and its status, one balanced journal, the operation's row
-- and the event were written together.
pub record IsExecuted (u : Unicode) (digest : OperationRequest → Text) (r : OperationRequest)
    (key : Text) (fresh : FreshIds) (clock : ℕ) (db db' : Database) (x : OperationResult)
    : Type 0 where
  pub payment : Payment
  pub key_unused : find (λ o. o.idempotency_key == key) db.operations ≡ none
  pub payment_found : find (λ p. p.id == r.payment_id) db.payments ≡ some payment
  pub in_state : payment.status ≡ expected_from r.operation
  pub written :
      db'
      ≡ after_operation r key
          (digest r)
          fresh
          clock
          payment.status
          payment.amount
          (upper u payment.currency)
          db
  pub returned : x ≡ result_from_row (operation_row r key (digest r) fresh payment.status) false

module _ (u : Unicode) (digest : OperationRequest → Text) (r : OperationRequest) (key : Text)
    (fresh : FreshIds) (clock : ℕ) (db db' : Database) (x : OperationResult) where
  pub on-IsExecuted :
      (p : Payment)
      → find (λ o. o.idempotency_key == key) db.operations ≡ none
      → find (λ p. p.id == r.payment_id) db.payments ≡ some p
      → execute_on u digest r key fresh clock db (some p) ≡ ok (x, db')
      → IsExecuted u digest r key fresh clock db db' x
  unfolding execute_on
  on-IsExecuted p unused found h =
      let (started, h₁, k₁) =
        >>=-eq-ok (raise_if (not (p.status == expected_from r.operation)) transition_error) _ h in
      let (db₁, h₂, k₂) =
        >>=-eq-ok
          (write_operation r key (digest r) fresh clock p.status p.amount (upper u p.currency) db) _
          k₁ in
      record {
        payment = p;
        key_unused = unused;
        payment_found = found;
        in_state = ground (arith, h₁, status_beq_iff p.status (expected_from r.operation));
        written =
            (let e : db' ≡ db₁ = ground (arith, k₂) in e)
            ∙ write_operation-shape r key (digest r) fresh clock p.status p.amount
                (upper u p.currency) db db₁ h₂;
        returned = ground (arith, k₂);
      }

  -- An operation that is not a replay has found its key unused and its payment in the state that the
  -- transition starts from, and has made exactly the five writes: the journal and its debit and
  -- credit of the payment's amount, the new status, the operation's row and the event.
  pub execute-IsExecuted :
      execute u digest r key fresh clock db ≡ ok (x, db')
      → x.replayed ≡ false
      → IsExecuted u digest r key fresh clock db db' x
  unfolding execute execute_keyed result_from_row
  execute-IsExecuted h once =
      let (named, h₁, k₁) = >>=-eq-ok (raise_if (is_blank u key) operation_error) _ h in
      let (differ, h₂, k₂) =
        >>=-eq-ok (raise_if (r.source_account_id == r.destination_account_id) operation_error) _
          k₁ in
      elim (Option-cases (find (λ o. o.idempotency_key == key) db.operations)) [
        | inr (o, e) ↦ absurd (ground (arith, once, rw e at k₂))
        | inl e ↦ elim (Option-cases (find (λ p. p.id == r.payment_id) db.payments)) [
          | inl f ↦ absurd (unfold execute_on in ground (arith, rw (e, f) at k₂))
          | inr (p, f) ↦ on-IsExecuted p e f (rw (e, f) at k₂)
        ]
      ]
