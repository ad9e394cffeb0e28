-- ===== src/Payments/Reconciliation/Preserved.antt =====
-- Lemmas on the operations and the consistency of the tables.
use atlas_pay.Prelude.{
  leb, Bool-cases, length, any, ok, text_eq, ◌==◌, nat_eq, ==_refl, Text, codes, Unicode, upper, ℕ,
  ◌+◌, ◌≡◌, refl, ◌∙◌, inl, inr, Bool, true, false, ◌&&◌, some, List, [], ◌∷◌, ◌++◌, arith,
}
use atlas_pay.Payments.Database.{
  PaymentStatus, status_eq, Payment, LedgerTransaction, LedgerEntry, OperationRow, Database, find,
  update, side_total, entries_of,
}
use atlas_pay.Payments.Database.Inserts.{any-append}
use atlas_pay.Payments.Ledger.Balance.{IsBooked, side_total_of-append}
use atlas_pay.Payments.Operations.{
  OperationRequest, OperationResult, FreshIds, operation_entries, operation_row, event_row, execute,
}
use atlas_pay.Payments.Operations.Execution.{operation_journal, IsExecuted, execute-IsExecuted}
use atlas_pay.Payments.Operations.Conservation.{operation_entries_total, executed_entries}
use atlas_pay.Payments.Reconciliation.{is_event_of}
use atlas_pay.Payments.Reconciliation.Structure.{Every-snoc, Every-map, IsStructured}

any-set_status :
    (id k : Text) (status : PaymentStatus) (ps : List Payment)
    → any (λ p. p.id == k) (update (λ p. p.id == id) (λ p. record p { status = status }) ps)
      ≡ any (λ p. p.id == k) ps
unfolding update
any-set_status id k status [] = refl
any-set_status id k status (p ∷ ps) = elim (Bool-cases (p.id == id)) [
  | inl h ↦ rw (h, any-set_status id k status ps) refl
  | inr h ↦ rw (h, any-set_status id k status ps) refl
]

find-any {ℓ} :
    {A : Type ℓ} (p : A → Bool) (xs : List A) (x : A) → find p xs ≡ some x → any p xs ≡ true
unfolding find
find-any p [] x h = absurd (ground arith)
find-any p (y ∷ xs) x h = ground (arith, find-any p xs x)

length_of-append :
    (id : Text) (xs ys : List LedgerEntry)
    → length (entries_of id (xs ++ ys)) ≡ length (entries_of id xs) + length (entries_of id ys)
length_of-append id [] ys = omega arith
length_of-append id (x ∷ xs) ys = elim (Bool-cases (x.transaction_id == id)) [
  | inl e ↦ rw e (omega (arith, length_of-append id xs ys))
  | inr e ↦ rw e (length_of-append id xs ys)
]

module _ (u : Unicode) (digest : OperationRequest → Text) (r : OperationRequest) (key : Text)
    (fresh : FreshIds) (clock : ℕ) (db db' : Database) (x : OperationResult) where
  executed-IsStructured :
      IsStructured db
      → IsBooked db.entries
      → IsExecuted u digest r key fresh clock db db' x
      → IsStructured db'
  unfolding operation_row event_row
  executed-IsStructured h booked i =
      let c = upper u i.payment.currency in
      let o = operation_row r key (digest r) fresh i.payment.status in
      let e = event_row r fresh i.payment.status i.payment.amount c clock in
      let t = operation_journal r fresh c in
      rw i.written (record {
        payments_there =
            Every-snoc _ db.operations o
              (Every-map _ _ db.operations
                (λ y k. any-set_status r.payment_id y.payment_id _ db.payments ∙ k)
                h.payments_there)
              (any-set_status r.payment_id r.payment_id _ db.payments
                ∙ find-any (λ (p : Payment). p.id == r.payment_id) db.payments i.payment
                    i.payment_found);
        journals_there =
            Every-snoc _ db.operations o
              (Every-map _ _ db.operations
                (λ y k.
                  any-append (λ (z : LedgerTransaction). z.id == y.journal_transaction_id)
                    db.transactions (t ∷ [])
                  ∙ ground (arith, k))
                h.journals_there)
              (any-append (λ (z : LedgerTransaction). z.id == fresh.journal_id) db.transactions
                  (t ∷ [])
                ∙ ground (arith, ==_refl fresh.journal_id));
        events_there =
            Every-snoc _ db.operations o
              (Every-map _ _ db.operations
                (λ y k. any-append (is_event_of y) db.events (e ∷ []) ∙ ground (arith, k))
                h.events_there)
              (any-append (is_event_of o) db.events (e ∷ [])
                ∙ ground (
                  arith,
                  ==_refl (codes "payment"),
                  ==_refl r.payment_id,
                  ==_refl fresh.operation_id,
                ));
        operations_there =
            Every-snoc _ db.events e
              (Every-map _ _ db.events
                (λ y k. ground (
                  arith,
                  k,
                  any-append (λ (z : OperationRow). z.id == y.payload.operation_id) db.operations
                      (o ∷ []),
                ))
                h.operations_there)
              (ground (
                arith,
                any-append (λ (z : OperationRow). z.id == fresh.operation_id) db.operations
                    (o ∷ []),
                ==_refl fresh.operation_id,
              ));
        journals_sound =
            Every-snoc _ db.transactions t
              (Every-map _ _ db.transactions
                (λ y k. sound_after y.id i.payment.amount c (ground (arith, k))) h.journals_sound)
              (new_sound i.payment.amount c);
      })
    where
      rows : ℕ → Text → List LedgerEntry
      rows amount c =
          operation_entries fresh.journal_id r.source_account_id r.destination_account_id amount c

      totals :
          (id : Text) (amount : ℕ) (c : Text)
          → side_total true (entries_of id (db.entries ++ rows amount c))
            ≡ side_total false (entries_of id (db.entries ++ rows amount c))
      totals id amount c = omega (
        arith,
        booked id,
        side_total_of-append true id db.entries (rows amount c),
        side_total_of-append false id db.entries (rows amount c),
        operation_entries_total fresh.journal_id r.source_account_id r.destination_account_id c id
            amount,
      )

      sound_after :
          (id : Text) (amount : ℕ) (c : Text)
          → leb 2 (length (entries_of id db.entries)) ≡ true
          → (leb 2 (length (entries_of id (db.entries ++ rows amount c)))
              && side_total true (entries_of id (db.entries ++ rows amount c))
                == side_total false (entries_of id (db.entries ++ rows amount c)))
            ≡ true
      sound_after id amount c k =
          ground (arith, k, totals id amount c, length_of-append id db.entries (rows amount c))

      two_rows : (amount : ℕ) (c : Text) → length (entries_of fresh.journal_id (rows amount c)) ≡ 2
      two_rows amount c = unfold operation_entries in ground (arith, ==_refl fresh.journal_id)

      new_sound :
          (amount : ℕ) (c : Text)
          → (leb 2 (length (entries_of fresh.journal_id (db.entries ++ rows amount c)))
              && side_total true (entries_of fresh.journal_id (db.entries ++ rows amount c))
                == side_total false (entries_of fresh.journal_id (db.entries ++ rows amount c)))
            ≡ true
      new_sound amount c = ground (
        arith,
        totals fresh.journal_id amount c,
        two_rows amount c,
        length_of-append fresh.journal_id db.entries (rows amount c),
      )

  -- Where the tables agree with each other and the books are balanced, they still agree after an
  -- operation, replayed or not.
  pub execute-IsStructured :
      IsStructured db
      → IsBooked db.entries
      → execute u digest r key fresh clock db ≡ ok (x, db')
      → IsStructured db'
  execute-IsStructured h booked k = elim (Bool-cases x.replayed) [
    | inl again ↦ rw (executed_entries u digest r key fresh clock db db' x k again) h
    | inr once ↦
        executed-IsStructured h booked
          (execute-IsExecuted u digest r key fresh clock db db' x k once)
  ]
