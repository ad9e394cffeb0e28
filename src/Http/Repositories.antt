-- ===== src/Http/Repositories.antt =====
-- The two repositories of app/repository.py as instances of the protocol that app/main.py uses, and lemmas
-- on its two handlers of payments.
use atlas_pay.Prelude.{
  Bool-cases, Option-cases, length, data_error, Result, err, ok, raise_if, >>=-eq-ok, Result-cases,
  list_beq_iff, text_eq, ◌==◌, nat_eq, ==_refl, Text, Unicode, upper, ℕ, ◌≤◌, ◌≡◌, refl, sym, ap,
  ◌∙◌, inl, inr, Bool, true, Option, none, some, List, [], ◌∷◌, ◌++◌, arith,
}
use atlas_pay.Prelude.Dict.{Dict, lookup, insert, lookup-insert}
use atlas_pay.Payments.Database.{
  status_eq, Payment, KeyRow, Database, find, has_nul, insert_payment,
}
use atlas_pay.Payments.Database.Inserts.{insert_payment-shape}
use atlas_pay.Payments.Repository.{
  CreatePaymentRequest, make_request, new_payment, used_key, Repository, create_in_memory,
  get_in_memory, get_stored, reuse_stored, claim_key, claim_used, create_stored,
}
use atlas_pay.Payments.Repository.Idempotency.{Created, unkeyed, claims, reuses, used-Created}
use atlas_pay.Http.{answer, PaymentRepository, after_create, create_payment, get_payment}

module _ {S : Type 0} (u : Unicode) (repository : PaymentRepository S) where
  answered :
      (drawn : Text) (s s' : S) (p : Payment) (result : Result (Payment × S))
      → after_create u repository s result ≡ (answer 201 p, s')
      → result ≡ ok (p, s')
  unfolding after_create
  answered drawn s s' p (ok (q, t)) h = ground (arith, h)
  answered drawn s s' p (err e) h = absurd (ground (arith, h))

  -- What the endpoints give back, where the repository finds what it has made.
  created_found :
      (r : CreatePaymentRequest) (key : Option Text) (drawn : Text) (now : ℕ) (s s' : S)
      (p : Payment)
      → create_payment u repository r key drawn now s ≡ (answer 201 p, s')
      → ((request : CreatePaymentRequest)
          → make_request u r ≡ ok request
          → repository.create request key drawn now s ≡ ok (p, s')
          → repository.get p.id s' ≡ some p)
      → get_payment u repository p.id s' ≡ answer 200 p
  unfolding create_payment get_payment
  created_found r key drawn now s s' p h finds = elim (Result-cases (make_request u r)) [
    | inr (e, bad) ↦ absurd (ground (arith, h, bad))
    | inl (request, good) ↦
        let made =
          answered drawn s s' p (repository.create request key drawn now s)
            (rw (good, create_payment) at h) in
        rw (finds request good made, get_payment) refl
  ]

-- Every payment stands under its identifier.
abbrev IsKeyed : Dict Text Payment → Type 0
IsKeyed d = (id : Text) (p : Payment) → lookup id d ≡ some p → p.id ≡ id

insert-IsKeyed :
    (id : Text) (p : Payment) (d : Dict Text Payment)
    → p.id ≡ id
    → IsKeyed d
    → IsKeyed (insert id p d) × (lookup p.id (insert id p d) ≡ some p)
insert-IsKeyed id p d named keyed = (
  λ j q h. elim (Bool-cases (id == j)) [
    | inl same ↦ ground (arith, h, same, lookup-insert id j p d, list_beq_iff id j, named)
    | inr other ↦ keyed j q (ground (arith, h, other, lookup-insert id j p d))
  ],
  ap (λ (i : Text). lookup i (insert id p d)) named
      ∙ lookup-insert id id p d
      ∙ rw (==_refl id) refl,
)

module _ (digest : CreatePaymentRequest → Text) where
  Created-found :
      (r : CreatePaymentRequest) (drawn : Text) (now : ℕ) (p : Payment) (s s' : Repository)
      (key : Option Text)
      → IsKeyed s.payments
      → Created digest r drawn now p s s' key
      → IsKeyed s'.payments × (lookup p.id s'.payments ≡ some p)
  unfolding new_payment
  Created-found r drawn now p s s' _ keyed (unkeyed made after) =
      rw after (insert-IsKeyed drawn p s.payments (ap (λ (x : Payment). x.id) made) keyed)
  Created-found r drawn now p s s' _ keyed (claims key free made after) =
      rw after (insert-IsKeyed drawn p s.payments (ap (λ (x : Payment). x.id) made) keyed)
  Created-found r drawn now p s s' _ keyed (reuses key id entry stored after) =
      rw after (keyed, ap (λ (i : Text). lookup i s.payments) (keyed id p stored) ∙ stored)

  in_memory_found :
      (r : CreatePaymentRequest) (key : Option Text) (drawn : Text) (now : ℕ) (s s' : Repository)
      (p : Payment)
      → IsKeyed s.payments
      → get_in_memory drawn s ≡ none
      → create_in_memory digest r key drawn now s ≡ ok (p, s')
      → IsKeyed s'.payments × (get_in_memory p.id s' ≡ some p)
  unfolding create_in_memory get_in_memory
  in_memory_found r key drawn now s s' p keyed unused h =
      Created-found r drawn now p s s' (used_key key) keyed
        (used-Created digest r drawn now p s s' (used_key key) h)

  -- `InMemoryPaymentRepository`
  abbrev in_memory : PaymentRepository Repository
  in_memory = record { create = create_in_memory digest; get = get_in_memory }

find-holds {ℓ} : {A : Type ℓ} (p : A → Bool) (xs : List A) (x : A) → find p xs ≡ some x → p x ≡ true
unfolding find
find-holds p [] x h = absurd (ground (arith, h))
find-holds p (y ∷ xs) x h = elim (Bool-cases (p y)) [
  | inl k ↦ ground (arith, h, k)
  | inr k ↦ find-holds p xs x (rw k at h)
]

find-append_new {ℓ} :
    {A : Type ℓ} (p : A → Bool) (xs : List A) (x : A)
    → find p xs ≡ none
    → p x ≡ true
    → find p (xs ++ (x ∷ [])) ≡ some x
unfolding find
find-append_new p [] x h k = rw k refl
find-append_new p (y ∷ xs) x h k = elim (Bool-cases (p y)) [
  | inl c ↦ absurd (ground (arith, h, c))
  | inr c ↦ rw c (find-append_new p xs x (rw c at h) k)
]

module _ (digest : CreatePaymentRequest → Text) where
  fresh_found :
      (r : CreatePaymentRequest) (drawn : Text) (now : ℕ) (db db' : Database)
      → length r.currency ≡ 3
      → length r.merchant_reference ≤ 128
      → get_stored drawn db ≡ none
      → insert_payment (new_payment r drawn now) db ≡ ok db'
      → get_stored (new_payment r drawn now).id db' ≡ some (new_payment r drawn now)
  unfolding get_stored new_payment
  fresh_found r drawn now db db' three short unused h =
      let p = new_payment r drawn now in
      let kept = insert_payment-shape p db three short db' h in
      ap (λ (x : Database). get_stored drawn x) (sym kept)
      ∙ find-append_new (λ x. x.id == drawn) db.payments p unused (==_refl drawn)

  reused_found :
      (r : CreatePaymentRequest) (row : Option KeyRow) (db db' : Database) (p : Payment)
      → reuse_stored digest r row db ≡ ok (p, db')
      → get_stored p.id db' ≡ some p
  unfolding reuse_stored
  reused_found r none db db' p h = absurd (ground (arith, h))
  reused_found r (some row) db db' p h = elim (Option-cases (get_stored row.payment_id db)) [
    | inl missing ↦ absurd (ground (arith, h, missing))
    | inr (q, there) ↦
        let same : q ≡ p = ground (arith, h, there) in
        let kept : db ≡ db' = ground (arith, h, there) in
        let named : p.id ≡ row.payment_id = (list_beq_iff p.id row.payment_id).0 (
          find-holds (λ x. x.id == row.payment_id) db.payments p
            (unfold get_stored in (there ∙ ap (λ (x : Payment). some x) same))) in
        ap (λ (x : Database). get_stored p.id x) (sym kept)
        ∙ ap (λ (i : Text). get_stored i db) named
        ∙ there
        ∙ ap (λ (x : Payment). some x) same
  ]

  claimed_found :
      (r : CreatePaymentRequest) (p q : Payment) (db db' : Database) (key : Option Text)
      → get_stored p.id db ≡ some p
      → claim_used digest r p db key ≡ ok (q, db')
      → get_stored q.id db' ≡ some q
  unfolding claim_used claim_key get_stored
  claimed_found r p q db db' none there h = ground (arith, h, there)
  claimed_found r p q db db' (some key) there h =
      elim (Option-cases (find (λ x. x.key == key) db.idempotency_keys)) [
        | inl free ↦
            let h' = rw (free, claim_key) at h in
            let same : p ≡ q = ground (arith, h') in
            let kept : record db {
              idempotency_keys =
                  db.idempotency_keys
                  ++ (record { key = key; request_fingerprint = digest r; payment_id = p.id } ∷ []);
            }
                ≡ db' =
              ground (arith, h') in
            ap (λ (x : Database). get_stored q.id x) (sym kept)
            ∙ ap (λ (x : Payment). get_stored x.id db) (sym same)
            ∙ there
            ∙ ap (λ (x : Payment). some x) same
        | inr (row, taken) ↦
            let (readable, passed, reused) =
              >>=-eq-ok (raise_if (has_nul key) data_error) _ (rw (taken, claim_key) at h) in
            reused_found r _ _ db' q reused
      ]

  stored_found :
      (r : CreatePaymentRequest) (key : Option Text) (drawn : Text) (now : ℕ) (db db' : Database)
      (p : Payment)
      → length r.currency ≡ 3
      → length r.merchant_reference ≤ 128
      → get_stored drawn db ≡ none
      → create_stored digest r key drawn now db ≡ ok (p, db')
      → get_stored p.id db' ≡ some p
  unfolding create_stored
  stored_found r key drawn now db db' p three short unused h =
      let (with_payment, inserted, claimed) =
        >>=-eq-ok (insert_payment (new_payment r drawn now) db) _ h in
      claimed_found r (new_payment r drawn now) p with_payment db' (used_key key)
        (fresh_found r drawn now db with_payment three short unused inserted) claimed

  -- `PostgresPaymentRepository`
  abbrev pub stored : PaymentRepository Database
  stored = record { create = create_stored digest; get = get_stored }

module _ (digest : CreatePaymentRequest → Text) where
  accepted_texts :
      (u : Unicode) (r request : CreatePaymentRequest)
      → make_request u r ≡ ok request
      → (request.currency ≡ upper u r.currency) × (length request.merchant_reference ≤ 128)
  unfolding make_request
  accepted_texts u r request h = (ground (arith, h), ground (arith, h))

  -- Over HTTP and the durable repository, the payment that a request has made, or found under its key,
  -- is found by its identifier and is the one that was answered, if the drawn identifier was unused
  -- and the currency still has three characters as capitals.
  pub create_payment-get_payment :
      (u : Unicode) (r : CreatePaymentRequest) (key : Option Text) (drawn : Text) (now : ℕ)
      (db db' : Database) (p : Payment)
      → length (upper u r.currency) ≡ 3
      → get_stored drawn db ≡ none
      → create_payment u (stored digest) r key drawn now db ≡ (answer 201 p, db')
      → get_payment u (stored digest) p.id db' ≡ answer 200 p
  create_payment-get_payment u r key drawn now db db' p three unused h =
      created_found u (stored digest) r key drawn now db db' p h λ request good made.
        let (capitals, short) = accepted_texts u r request good in
        stored_found digest request key drawn now db db' p (ap length capitals ∙ three) short unused
          made

  -- The same over the in-memory repository, whose payments stand under their identifiers.
  create_payment-in_memory :
      (u : Unicode) (r : CreatePaymentRequest) (key : Option Text) (drawn : Text) (now : ℕ)
      (s s' : Repository) (p : Payment)
      → IsKeyed s.payments
      → get_in_memory drawn s ≡ none
      → create_payment u (in_memory digest) r key drawn now s ≡ (answer 201 p, s')
      → get_payment u (in_memory digest) p.id s' ≡ answer 200 p
  create_payment-in_memory u r key drawn now s s' p keyed unused h =
      created_found u (in_memory digest) r key drawn now s s' p h λ request good made.
        (in_memory_found digest request key drawn now s s' p keyed unused made).1
