-- ===== src/Payments/Database/Inserts.antt =====
-- What an insert that succeeds has found, and what it leaves.
use atlas_pay.Prelude.{
  leb, Bool-cases, length, take, drop, any, ok, >>=-eq-ok, text_eq, ◌==◌, nat_eq, Text, ℕ, zero,
  suc, ◌+◌, ◌≤◌, ◌≡◌, refl, sym, ap, ◌∙◌, inl, inr, Bool, true, false, ◌||◌, none, some, List, [],
  ◌∷◌, ◌++◌, arith,
}
use atlas_pay.Payments.Database.{
  status_eq, Payment, LedgerTransaction, LedgerEntry, OperationRow, EventRow, Database, find,
  bigint_bound, insert_transaction, entry_fits, insert_entry, insert_entries, side_total,
  entries_of, assert_balanced, insert_operation, insert_event, has_nul, as_varchar, as_char,
  insert_payment,
}
use atlas_pay.Prelude.Sorting.{in_range}

pub insert_transaction-shape :
    (t : LedgerTransaction) (db db' : Database)
    → insert_transaction t db ≡ ok db'
    → (any (λ x. x.id == t.id) db.transactions ≡ false)
      × (db' ≡ record db { transactions = db.transactions ++ (t ∷ []) })
unfolding insert_transaction
insert_transaction-shape t db db' h = ground arith

pub insert_entry-shape :
    (n : LedgerEntry) (db db' : Database)
    → insert_entry n db ≡ ok db'
    → (entry_fits n db ≡ true) × (db' ≡ record db { entries = db.entries ++ (n ∷ []) })
unfolding insert_entry
insert_entry-shape n db db' h = ground arith

pub insert_operation-shape :
    (o : OperationRow) (db db' : Database)
    → insert_operation o db ≡ ok db'
    → (any
          (λ x.
            x.id == o.id
            || x.idempotency_key == o.idempotency_key
            || x.journal_transaction_id == o.journal_transaction_id)
          db.operations
        ≡ false)
      × (any (λ p. p.id == o.payment_id) db.payments ≡ true)
      × (any (λ t. t.id == o.journal_transaction_id) db.transactions ≡ true)
      × (db' ≡ record db { operations = db.operations ++ (o ∷ []) })
unfolding insert_operation
insert_operation-shape o db db' h = ground arith

pub insert_event-shape :
    (e : EventRow) (db db' : Database)
    → insert_event e db ≡ ok db'
    → (any (λ x. x.id == e.id) db.events ≡ false)
      × (db' ≡ record db { events = db.events ++ (e ∷ []) })
unfolding insert_event
insert_event-shape e db db' h = ground arith

append_assoc {ℓ} : {A : Type ℓ} (xs ys zs : List A) → (xs ++ ys) ++ zs ≡ xs ++ (ys ++ zs)
append_assoc [] ys zs = refl
append_assoc (x ∷ xs) ys zs = ap (◌∷◌ x) (append_assoc xs ys zs)

append-nil {ℓ} : {A : Type ℓ} (xs : List A) → xs ≡ xs ++ []
append-nil [] = refl
append-nil (x ∷ xs) = ap (◌∷◌ x) (append-nil xs)

pub insert_entries-shape :
    (ns : List LedgerEntry) (db db' : Database)
    → insert_entries ns db ≡ ok db'
    → db' ≡ record db { entries = db.entries ++ ns }
unfolding insert_entries
insert_entries-shape [] db db' h =
    let e : db' ≡ db = ground arith in
    e ∙ ap (λ (x : List LedgerEntry). record db { entries = x }) (append-nil db.entries)
insert_entries-shape (n ∷ ns) db db' h =
    let (db₁, first, rest) = >>=-eq-ok (insert_entry n db) (insert_entries ns) h in
    let (fits, e) = insert_entry-shape n db db₁ first in
    insert_entries-shape ns db₁ db' rest
    ∙ rw e (
        ap (λ (x : List LedgerEntry). record db { entries = x })
          (append_assoc db.entries (n ∷ []) ns))

pub assert_balanced-equal :
    (id : Text) (db : Database)
    → assert_balanced id db ≡ ok tt
    → side_total true (entries_of id db.entries) ≡ side_total false (entries_of id db.entries)
unfolding assert_balanced
assert_balanced-equal id db h = ground arith

pub side_total-append :
    (b : Bool) (xs ys : List LedgerEntry)
    → side_total b (xs ++ ys) ≡ side_total b xs + side_total b ys
unfolding side_total
side_total-append b [] ys = omega arith
side_total-append b (x ∷ xs) ys = omega (arith, side_total-append b xs ys)

module _ {ℓ} {A : Type ℓ} where
  pub find-append :
      (p : A → Bool) (xs : List A) (x : A)
      → find p xs ≡ none
      → p x ≡ true
      → find p (xs ++ (x ∷ [])) ≡ some x
  unfolding find
  find-append p [] x h k = rw k refl
  find-append p (y ∷ xs) x h k = elim (Bool-cases (p y)) [
    | inl e ↦ absurd (ground (arith, e))
    | inr e ↦ rw e (find-append p xs x (rw e at h) k)
  ]

  pub any-append : (p : A → Bool) (xs ys : List A) → any p (xs ++ ys) ≡ (any p xs || any p ys)
  any-append p [] ys = refl
  any-append p (x ∷ xs) ys = ground (arith, any-append p xs ys)

past_end : {A : Type 0} (n : ℕ) (xs : List A) → length xs ≤ n → (drop n xs ≡ []) × (take n xs ≡ xs)
past_end zero [] h = (refl, refl)
past_end zero (x ∷ xs) h = absurd (omega arith)
past_end (suc n) [] h = (refl, refl)
past_end (suc n) (x ∷ xs) h =
    let (dropped, taken) = past_end n xs (omega arith) in (dropped, ap (◌∷◌ x) taken)

as_varchar-short : (n : ℕ) (s : Text) → length s ≤ n → as_varchar n s ≡ ok s
unfolding as_varchar
as_varchar-short n s h = let (dropped, taken) = past_end n s h in rw (dropped, taken) refl

as_char-exact : (s : Text) → length s ≡ 3 → as_char 3 s ≡ ok s
unfolding as_char
as_char-exact s h =
    rw (as_varchar-short 3 s (omega (arith, h)), h) (ap (λ (t : Text). ok t) (sym (append-nil s)))

module _ (p : Payment) (db : Database) (currency_fits : length p.currency ≡ 3)
    (reference_fits : length p.merchant_reference ≤ 128) where
  -- A payment whose texts fit their columns is stored as it is.
  pub insert_payment-shape :
      (db' : Database)
      → insert_payment p db ≡ ok db'
      → record db { payments = db.payments ++ (p ∷ []) } ≡ db'
  unfolding insert_payment
  insert_payment-shape db' h = ground (
    arith,
    h,
    as_char-exact p.currency currency_fits,
    as_varchar-short 128 p.merchant_reference reference_fits,
  )

  pub insert_payment-new :
      (has_nul p.currency || has_nul p.merchant_reference) ≡ false
      → leb bigint_bound p.amount ≡ false
      → (p.amount == 0) ≡ false
      → any (λ x. x.id == p.id) db.payments ≡ false
      → insert_payment p db ≡ ok (record db { payments = db.payments ++ (p ∷ []) })
  unfolding insert_payment
  insert_payment-new readable in_range some_amount absent =
      rw
        (
          readable,
          in_range,
          as_char-exact p.currency currency_fits,
          as_varchar-short 128 p.merchant_reference reference_fits,
          some_amount,
          absent,
        )
        refl
