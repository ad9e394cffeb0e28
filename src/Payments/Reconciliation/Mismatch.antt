-- ===== src/Payments/Reconciliation/Mismatch.antt =====
-- The report on a payment that has had two operations.
use atlas_pay.Prelude.{
  Bool-cases, any, is_empty, ok, ◌==◌, nat_eq, list_beq_iff, text_eq, Text, Unicode, upper, ℕ, ◌≡◌,
  refl, ◌∙◌, inl, inr, Bool, true, false, not, ◌&&◌, some, List, [], ◌∷◌, ◌++◌, arith,
}
use atlas_pay.Payments.Database.{
  PaymentStatus, status_eq, Payment, OperationRow, Database, find, update,
}
use atlas_pay.Payments.Database.Inserts.{any-append}
use atlas_pay.Payments.Operations.{
  OperationRequest, OperationResult, FreshIds, target_status, operation_row, execute,
}
use atlas_pay.Payments.Operations.Execution.{after_operation, IsExecuted, execute-IsExecuted}
use atlas_pay.Payments.Reconciliation.{
  Discrepancy, mismatches_of, mismatches, structural, insert_by_key, sort_report, inspect, is_clean,
}

insert-full : (d : Discrepancy) (ds : List Discrepancy) → is_empty (insert_by_key d ds) ≡ false
unfolding insert_by_key
insert-full d [] = refl
insert-full d (x ∷ ds) = ground arith

sort-is_empty : (ds : List Discrepancy) → is_empty (sort_report ds) ≡ is_empty ds
unfolding sort_report
sort-is_empty [] = refl
sort-is_empty (d ∷ ds) = insert-full d (sort_report ds)

is_empty-append : (xs ys : List Discrepancy) → is_empty (xs ++ ys) ≡ (is_empty xs && is_empty ys)
is_empty-append [] ys = refl
is_empty-append (x ∷ xs) ys = refl

-- A report is clean exactly where no query reports a row.
pub inspect-is_clean :
    (db : Database)
    → is_clean (inspect db) ≡ (is_empty (structural db) && is_empty (mismatches db db.operations))
unfolding inspect
inspect-is_clean db =
    sort-is_empty (structural db ++ mismatches db db.operations)
    ∙ is_empty-append (structural db) (mismatches db db.operations)

moved :
    (o : OperationRow) (id : Text) (status : PaymentStatus) (ps : List Payment) (p : Payment)
    → o.payment_id ≡ id
    → (status == o.to_status) ≡ false
    → find (λ p. p.id == id) ps ≡ some p
    → is_empty (mismatches_of o (update (λ p. p.id == id) (λ p. record p { status = status }) ps))
      ≡ false
unfolding mismatches_of update find
moved o id status [] p same differ found = absurd (ground arith)
moved o id status (q ∷ ps) p same differ found = elim (Bool-cases (q.id == id)) [
  | inl h ↦ rw (h, differ, same) (rw h refl)
  | inr h ↦
      let later = moved o id status ps p same differ (rw h at found) in rw h (ground (arith, later))
]

-- An earlier operation of the payment has another target than the status that is set now.
abbrev pub has_other_target : Text → PaymentStatus → OperationRow → Bool
has_other_target id status o = o.payment_id == id && not (status == o.to_status)

mismatched_rows :
    (id : Text) (status : PaymentStatus) (db : Database) (ps : List Payment)
    (os : List OperationRow) (p : Payment)
    → db.payments ≡ update (λ p. p.id == id) (λ p. record p { status = status }) ps
    → find (λ p. p.id == id) ps ≡ some p
    → any (has_other_target id status) os ≡ true
    → is_empty (mismatches db os) ≡ false
unfolding mismatches
mismatched_rows id status db ps [] p shape found h = absurd (ground arith)
mismatched_rows id status db ps (o ∷ os) p shape found h =
    is_empty-append (mismatches_of o db.payments) (mismatches db os)
    ∙ elim (Bool-cases (has_other_target id status o)) [
      | inl k ↦
          let now : is_empty (mismatches_of o db.payments) ≡ false = rw shape (
            moved o id status ps p (ground (arith, k, list_beq_iff o.payment_id id))
              (ground (arith, k)) found) in
          ground (arith, now)
      | inr k ↦ ground (arith, mismatched_rows id status db ps os p shape found (rw k at h))
    ]

-- After an operation that is not a replay, the report of the reconciler is not clean if the
-- payment has had an operation with another target before, as a refunded payment has had its
-- capture.
pub execute-unclean :
    (u : Unicode) (digest : OperationRequest → Text) (r : OperationRequest) (key : Text)
    (fresh : FreshIds) (clock : ℕ) (db db' : Database) (x : OperationResult)
    → any (has_other_target r.payment_id (target_status r.operation)) db.operations ≡ true
    → execute u digest r key fresh clock db ≡ ok (x, db')
    → x.replayed ≡ false
    → is_clean (inspect db') ≡ false
execute-unclean u digest r key fresh clock db db' x earlier h once =
    let i = execute-IsExecuted u digest r key fresh clock db db' x h once in
    inspect-is_clean db' ∙ rw i.written (ground (arith, report i))
  where
    report :
        (i : IsExecuted u digest r key fresh clock db db' x)
        → is_empty (
            mismatches
              (after_operation r key
                (digest r)
                fresh
                clock
                i.payment.status
                i.payment.amount
                (upper u i.payment.currency)
                db)
              (db.operations ++ (operation_row r key (digest r) fresh i.payment.status ∷ [])))
          ≡ false
    report i =
        mismatched_rows r.payment_id (target_status r.operation) _ db.payments _ i.payment refl
          i.payment_found
          (any-append _ db.operations (operation_row r key (digest r) fresh i.payment.status ∷ [])
            ∙ ground (arith, earlier))
