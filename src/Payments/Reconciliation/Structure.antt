-- ===== src/Payments/Reconciliation/Structure.antt =====
-- What a report without findings says of the tables.
use atlas_pay.Prelude.{
  leb, length, any, text_eq, ◌==◌, nat_eq, Text, codes, ◌≡◌, refl, ◌↔◌, Bool, true, false, not,
  ◌&&◌, ◌||◌, List, [], ◌∷◌, ◌++◌, arith,
}
use atlas_pay.Payments.Database.{
  status_eq, LedgerTransaction, LedgerEntry, OperationRow, EventRow, Database, side_total,
  entries_of,
}
use atlas_pay.Payments.Reconciliation.{
  missing_payments, missing_journals, is_event_of, missing_events, missing_operations,
  check_journal, bad_journals, structural,
}

pub append-empty {ℓ} : {A : Type ℓ} (xs ys : List A) → (xs ++ ys ≡ []) ↔ ((xs ≡ []) × (ys ≡ []))
append-empty [] ys = (λ h. (refl, h), λ h. h.1)
append-empty (x ∷ xs) ys = (λ h. absurd (ground arith), λ h. absurd (ground arith))

-- Every row of the list passes the test.
abbrev pub Every {ℓ} : {A : Type ℓ} → (A → Bool) → List A → Type 0
Every p [] = Unit
Every p (x ∷ xs) = (p x ≡ true) × Every p xs

pub Every-snoc {ℓ} :
    {A : Type ℓ} (p : A → Bool) (xs : List A) (x : A)
    → Every p xs
    → p x ≡ true
    → Every p (xs ++ (x ∷ []))
Every-snoc p [] x h k = (k, tt)
Every-snoc p (y ∷ xs) x h k = (h.0, Every-snoc p xs x h.1 k)

pub Every-map {ℓ} :
    {A : Type ℓ} (p q : A → Bool) (xs : List A)
    → ((x : A) → p x ≡ true → q x ≡ true)
    → Every p xs
    → Every q xs
Every-map p q [] f h = tt
Every-map p q (x ∷ xs) f h = (f x h.0, Every-map p q xs f h.1)

abbrev has_payment : Database → OperationRow → Bool
has_payment db o = any (λ p. p.id == o.payment_id) db.payments

abbrev has_journal : Database → OperationRow → Bool
has_journal db o = any (λ t. t.id == o.journal_transaction_id) db.transactions

abbrev has_event : Database → OperationRow → Bool
has_event db o = any (is_event_of o) db.events

abbrev has_operation : Database → EventRow → Bool
has_operation db e =
    not (e.aggregate_type == codes "payment")
    || any (λ o. o.id == e.payload.operation_id) db.operations

abbrev is_sound : Database → LedgerTransaction → Bool
is_sound db t =
    let entries = entries_of t.id db.entries in
    leb 2 (length entries) && side_total true entries == side_total false entries

payments_iff :
    (db : Database) (os : List OperationRow)
    → (missing_payments db os ≡ []) ↔ Every (has_payment db) os
unfolding missing_payments
payments_iff db [] = ground arith
payments_iff db (o ∷ os) = ground (arith, payments_iff db os)

journals_iff :
    (db : Database) (os : List OperationRow)
    → (missing_journals db os ≡ []) ↔ Every (has_journal db) os
unfolding missing_journals
journals_iff db [] = ground arith
journals_iff db (o ∷ os) = ground (arith, journals_iff db os)

events_iff :
    (db : Database) (os : List OperationRow) → (missing_events db os ≡ []) ↔ Every (has_event db) os
unfolding missing_events
events_iff db [] = ground arith
events_iff db (o ∷ os) = ground (arith, events_iff db os)

operations_iff :
    (db : Database) (es : List EventRow)
    → (missing_operations db es ≡ []) ↔ Every (has_operation db) es
unfolding missing_operations
operations_iff db [] = ground arith
operations_iff db (e ∷ es) = ground (arith, operations_iff db es)

check_iff :
    (id : Text) (es : List LedgerEntry)
    → (check_journal id es ≡ [])
      ↔ ((leb 2 (length es) && side_total true es == side_total false es) ≡ true)
unfolding check_journal
check_iff id es = ground arith

sound_iff :
    (db : Database) (ts : List LedgerTransaction)
    → (bad_journals db ts ≡ []) ↔ Every (is_sound db) ts
unfolding bad_journals
sound_iff db [] = ground arith
sound_iff db (t ∷ ts) = ground (
  arith,
  sound_iff db ts,
  check_iff t.id (entries_of t.id db.entries),
  append-empty (check_journal t.id (entries_of t.id db.entries)) (bad_journals db ts),
)

-- The tables agree with each other: an operation has its payment, its journal and its event, an event
-- of a payment its operation, and a journal two entries at least, in balance.
pub record IsStructured (db : Database) : Type 0 where
  pub payments_there : Every (λ o. any (λ p. p.id == o.payment_id) db.payments) db.operations
  pub journals_there :
      Every (λ o. any (λ t. t.id == o.journal_transaction_id) db.transactions) db.operations
  pub events_there : Every (λ o. any (is_event_of o) db.events) db.operations
  pub operations_there :
      Every
        (λ e.
          not (e.aggregate_type == codes "payment")
          || any (λ o. o.id == e.payload.operation_id) db.operations)
        db.events
  pub journals_sound :
      Every
        (λ t.
          leb 2 (length (entries_of t.id db.entries))
          && side_total true (entries_of t.id db.entries)
            == side_total false (entries_of t.id db.entries))
        db.transactions

-- The queries of the reconciler, that of the statuses apart, report nothing exactly where the tables
-- agree with each other.
pub structural-IsStructured : (db : Database) → (structural db ≡ []) ↔ IsStructured db
unfolding structural
structural-IsStructured db = (
  λ h.
      let (a, h₁) = (append-empty _ _).0 h in
      let (b, h₂) = (append-empty _ _).0 h₁ in
      let (c, h₃) = (append-empty _ _).0 h₂ in
      let (d, e) = (append-empty _ _).0 h₃ in
      record {
        payments_there = (payments_iff db db.operations).0 a;
        journals_there = (journals_iff db db.operations).0 b;
        events_there = (events_iff db db.operations).0 c;
        operations_there = (operations_iff db db.events).0 d;
        journals_sound = (sound_iff db db.transactions).0 e;
      },
  λ s. (append-empty _ _).1 (
    (payments_iff db db.operations).1 s.payments_there,
    (append-empty _ _).1 (
      (journals_iff db db.operations).1 s.journals_there,
      (append-empty _ _).1 (
        (events_iff db db.operations).1 s.events_there,
        (append-empty _ _).1 (
          (operations_iff db db.events).1 s.operations_there,
          (sound_iff db db.transactions).1 s.journals_sound,
        ),
      ),
    ),
  ),
)
