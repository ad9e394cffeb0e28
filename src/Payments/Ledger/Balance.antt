-- ===== src/Payments/Ledger/Balance.antt =====
-- Lemmas on posting and the balances of the books.
use atlas_pay.Prelude.{
  if◌then◌else◌, Bool-cases, length, ledger_error, integrity_error, Result, ok, err, raise_if,
  >>=-eq-ok, ◌==◌, nat_eq, text_eq, Text, Unicode, upper, ℕ, ◌+◌, ◌≡◌, refl, inl, inr, Bool, true,
  false, not, Option, List, [], ◌∷◌, ◌++◌, arith,
}
use atlas_pay.Prelude.Int.{pos, ◌+ℤ◌, ◌-ℤ◌, +ℤ_parts, -ℤ_parts, eq_of_parts}
use atlas_pay.Payments.Database.{
  status_eq, LedgerTransaction, LedgerEntry, Database, insert_transaction, insert_entries,
  side_total, entries_of, assert_balanced,
}
use atlas_pay.Payments.Database.Inserts.{insert_transaction-shape, insert_entries-shape}
use atlas_pay.Payments.Ledger.{
  LedgerPosting, posting_amount, posting_total, validate_postings, journal_of, entry_rows,
  write_journal, as_ledger_error, post, account_total, account_balance,
}

-- The entries under every journal have debits equal to credits.
abbrev pub IsBooked : List LedgerEntry → Type 0
IsBooked entries =
    (id : Text) → side_total true (entries_of id entries) ≡ side_total false (entries_of id entries)

pub side_total_of-append :
    (b : Bool) (id : Text) (xs ys : List LedgerEntry)
    → side_total b (entries_of id (xs ++ ys))
      ≡ side_total b (entries_of id xs) + side_total b (entries_of id ys)
unfolding side_total
side_total_of-append b id [] ys = omega arith
side_total_of-append b id (x ∷ xs) ys = elim (Bool-cases (x.transaction_id == id)) [
  | inl e ↦ rw e (omega (arith, side_total_of-append b id xs ys))
  | inr e ↦ rw e (side_total_of-append b id xs ys)
]

entry_rows_total :
    (b : Bool) (id k currency : Text) (ps : List LedgerPosting)
    → side_total b (entries_of k (entry_rows id currency ps))
      ≡ (if id == k then posting_total b ps else 0)
unfolding side_total entry_rows posting_total
entry_rows_total b id k currency [] = ground arith
entry_rows_total true id k currency (p ∷ ps) = elim (Bool-cases (id == k)) [
  | inl e ↦ rw e (let i = rw e at (entry_rows_total true id k currency ps) in omega (arith, i))
  | inr e ↦ rw e (rw e at (entry_rows_total true id k currency ps))
]
entry_rows_total false id k currency (p ∷ ps) = elim (Bool-cases (id == k)) [
  | inl e ↦ rw e (let i = rw e at (entry_rows_total false id k currency ps) in omega (arith, i))
  | inr e ↦ rw e (rw e at (entry_rows_total false id k currency ps))
]

pub validated_totals :
    (ps : List LedgerPosting)
    → validate_postings ps ≡ ok tt
    → posting_total true ps ≡ posting_total false ps
unfolding validate_postings
validated_totals ps h = ground arith

-- The journal that a call of `post` has written.
pub record IsPosted (u : Unicode) (currency : Text) (ps : List LedgerPosting) (id : Text)
    (db db' : Database) : Type 0 where
  pub validated : validate_postings ps ≡ ok tt
  pub entries_written : db'.entries ≡ db.entries ++ entry_rows id (upper u currency) ps

as_ledger_ok {ℓ} : {A : Type ℓ} (r : Result A) (a : A) → as_ledger_error r ≡ ok a → r ≡ ok a
as_ledger_ok (ok b) a h = h
as_ledger_ok (err integrity_error) a h = absurd (ground arith)
as_ledger_ok (err e) a h = absurd (ground arith)

write_journal-entries :
    (t : LedgerTransaction) (es : List LedgerEntry) (db db' : Database)
    → write_journal t es db ≡ ok db'
    → db'.entries ≡ db.entries ++ es
unfolding write_journal
write_journal-entries t es db db' h =
    let (db₁, h₁, k₁) = >>=-eq-ok (insert_transaction t db) _ h in
    let (db₂, h₂, k₂) = >>=-eq-ok (insert_entries es db₁) _ k₁ in
    let (done, h₃, k₃) = >>=-eq-ok (assert_balanced t.id db₂) _ k₂ in
    let same : db' ≡ db₂ = ground (arith, k₃) in
    rw (same, insert_entries-shape es db₁ db₂ h₂, (insert_transaction-shape t db db₁ h₁).1) refl

post-IsPosted :
    (u : Unicode) (reference currency : Text) (ps : List LedgerPosting) (given : Option Text)
    (fresh id : Text) (db db' : Database)
    → post u reference currency ps given fresh db ≡ ok (id, db')
    → IsPosted u currency ps id db db'
unfolding post
post-IsPosted u reference currency ps given fresh id db db' h =
    let (a, h₁, k₁) = >>=-eq-ok (validate_postings ps) _ h in
    let (b, h₂, k₂) =
      >>=-eq-ok (raise_if (not (length (upper u currency) == 3)) ledger_error) _ k₁ in
    let (db₁, h₃, k₃) =
      >>=-eq-ok
        (as_ledger_error (
          write_journal
            (record {
              id = journal_of given fresh;
              reference = reference;
              currency = upper u currency;
            })
            (entry_rows (journal_of given fresh) (upper u currency) ps) db))
        _ k₂ in
    let same : db' ≡ db₁ = ground (arith, k₃) in
    let named : id ≡ journal_of given fresh = ground (arith, k₃) in
    record {
      validated = h₁;
      entries_written = rw (same, named) (write_journal-entries _ _ db db₁ (as_ledger_ok _ db₁ h₃));
    }

-- A posting that is accepted keeps every journal of the ledger balanced.
pub post-IsBooked :
    (u : Unicode) (reference currency : Text) (ps : List LedgerPosting) (given : Option Text)
    (fresh id : Text) (db db' : Database)
    → IsBooked db.entries
    → post u reference currency ps given fresh db ≡ ok (id, db')
    → IsBooked db'.entries
post-IsBooked u reference currency ps given fresh id db db' booked h k =
    let i = post-IsPosted u reference currency ps given fresh id db db' h in
    let rows = entry_rows id (upper u currency) ps in
    rw i.entries_written (
      omega (
        arith,
        booked k,
        side_total_of-append true k db.entries rows,
        side_total_of-append false k db.entries rows,
        same_totals i,
      ))
  where
    same_totals :
        IsPosted u currency ps id db db'
        → side_total true (entries_of k (entry_rows id (upper u currency) ps))
          ≡ side_total false (entries_of k (entry_rows id (upper u currency) ps))
    same_totals i =
        rw
          (
            entry_rows_total true id k (upper u currency) ps,
            entry_rows_total false id k (upper u currency) ps,
            validated_totals ps i.validated,
          )
          refl

pub account_total-append :
    (b : Bool) (id : Text) (xs ys : List LedgerEntry)
    → account_total b id (xs ++ ys) ≡ account_total b id xs + account_total b id ys
unfolding account_total
account_total-append b id [] ys = omega arith
account_total-append b id (x ∷ xs) ys = omega (arith, account_total-append b id xs ys)

-- The sum of an account's postings, of debits or of credits.
unfoldable pub posted_to : Bool → Text → List LedgerPosting → ℕ
posted_to b id [] = 0
posted_to b id (p ∷ ps) = (if p.account_id == id then posting_amount b p else 0) + posted_to b id ps

account_total-rows :
    (b : Bool) (account id currency : Text) (ps : List LedgerPosting)
    → account_total b account (entry_rows id currency ps) ≡ posted_to b account ps
unfolding account_total entry_rows posted_to
account_total-rows b account id currency [] = refl
account_total-rows true account id currency (p ∷ ps) =
    rw (account_total-rows true account id currency ps) refl
account_total-rows false account id currency (p ∷ ps) =
    rw (account_total-rows false account id currency ps) refl

pub balance_moves :
    (d c d' c' : ℕ) → pos (d + d') -ℤ pos (c + c') ≡ pos d -ℤ pos c +ℤ (pos d' -ℤ pos c')
balance_moves d c d' c' = eq_of_parts _ _ (
    ground (
      arith,
      -ℤ_parts (pos (d + d')) (pos (c + c')),
      -ℤ_parts (pos d) (pos c),
      -ℤ_parts (pos d') (pos c'),
      +ℤ_parts (pos d -ℤ pos c) (pos d' -ℤ pos c'),
    ))

-- A posting that is accepted moves the balance of every account by the debits less the credits
-- that it makes to that account.
pub post-account_balance :
    (u : Unicode) (reference currency : Text) (ps : List LedgerPosting) (given : Option Text)
    (fresh id : Text) (db db' : Database) (account : Text)
    → post u reference currency ps given fresh db ≡ ok (id, db')
    → account_balance account db'
      ≡ account_balance account db
        +ℤ (pos (posted_to true account ps) -ℤ pos (posted_to false account ps))
unfolding account_balance
post-account_balance u reference currency ps given fresh id db db' account h =
    let i = post-IsPosted u reference currency ps given fresh id db db' h in
    let rows = entry_rows id (upper u currency) ps in
    rw
      (
        i.entries_written,
        account_total-append true account db.entries rows,
        account_total-append false account db.entries rows,
        account_total-rows true account id (upper u currency) ps,
        account_total-rows false account id (upper u currency) ps,
      )
      (balance_moves (account_total true account db.entries)
        (account_total false account db.entries) (posted_to true account ps)
        (posted_to false account ps))
