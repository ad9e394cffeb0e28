-- ===== src/Payments/Repository/Refinement.antt =====
-- The durable repository beside the in-memory one.
use atlas_pay.Prelude.{
  leb, if◌then◌else◌, Bool-cases, Option-cases, length, any, keep, Error, idempotency_error, Result,
  err, ok, list_beq_iff, text_eq, ◌==◌, nat_eq, ==_refl, Text, Unicode, ℕ, ◌≤◌, ◌≡◌, refl, sym, ap,
  ◌∙◌, inl, inr, Bool, true, false, not, ◌||◌, Option, none, some, List, [], ◌∷◌, ◌++◌, arith,
}
use atlas_pay.Prelude.Dict.{is_some, lookup, insert, lookup-insert}
use atlas_pay.Payments.Database.{
  status_eq, Payment, KeyRow, Database, find, bigint_bound, has_nul, insert_payment,
}
use atlas_pay.Payments.Database.Inserts.{insert_payment-new}
use atlas_pay.Payments.Repository.{
  CreatePaymentRequest, make_request, new_payment, used_key, Repository, reuse, create_keyed,
  create_used, create_in_memory, get_in_memory, get_stored, delete_payment, reuse_stored, claim_key,
  claim_used, create_stored,
}

abbrev pub entry_of : Option KeyRow → Option (Text × Text)
entry_of none = none
entry_of (some row) = some (row.request_fingerprint, row.payment_id)

-- The tables hold what the dicts hold, and a key's payment is there.
pub record IsStored (db : Database) (s : Repository) : Type 0 where
  pub same_payments : (id : Text) → get_stored id db ≡ get_in_memory id s
  pub same_keys :
      (key : Text)
      → entry_of (find (λ x. x.key == key) db.idempotency_keys) ≡ lookup key s.idempotency
  pub linked :
      (key fingerprint id : Text)
      → lookup key s.idempotency ≡ some (fingerprint, id)
      → is_some (lookup id s.payments) ≡ true

-- Both return the same payment in corresponding states, or both raise the same error.
pub data IsSameAnswer : Result (Payment × Database) → Result (Payment × Repository) → Type 0 where
  both_return :
      (p : Payment) (db : Database) (s : Repository)
      → IsStored db s
      → IsSameAnswer (ok (p, db)) (ok (p, s))
  both_raise : (e : Error) → IsSameAnswer (err e) (err e)

find-or {ℓ} :
    {A : Type ℓ} (p : A → Bool) (xs : List A) (x : A)
    → find p (xs ++ (x ∷ []))
      ≡ (if is_some (find p xs) then find p xs else if p x then some x else none)
unfolding find
find-or p [] x = ground arith
find-or p (y ∷ xs) x = elim (Bool-cases (p y)) [ inl e ↦ rw e refl | inr e ↦ rw e (find-or p xs x) ]

find-none-any {ℓ} : {A : Type ℓ} (p : A → Bool) (xs : List A) → find p xs ≡ none → any p xs ≡ false
unfolding find
find-none-any p [] h = refl
find-none-any p (x ∷ xs) h = ground (arith, find-none-any p xs)

keep-absent {ℓ} :
    {A : Type ℓ} (p : A → Bool) (xs : List A) (x : A)
    → any p xs ≡ false
    → p x ≡ true
    → keep (λ y. not (p y)) (xs ++ (x ∷ [])) ≡ xs
keep-absent p [] x h k = rw k refl
keep-absent p (y ∷ xs) x h k = elim (Bool-cases (p y)) [
  | inl e ↦ absurd (ground (arith, e))
  | inr e ↦ rw e (ap (◌∷◌ y) (keep-absent p xs x (rw e at h) k))
]

-- A request that the API has accepted, and whose texts and amount fit the columns of the table: the
-- currency still has three characters as capitals.
pub record IsStorable (r : CreatePaymentRequest) : Type 0 where
  pub tables : Unicode
  pub sent : CreatePaymentRequest
  pub accepted : make_request tables sent ≡ ok r
  pub three : length r.currency ≡ 3
  pub readable : (has_nul r.currency || has_nul r.merchant_reference) ≡ false
  pub in_range : leb bigint_bound r.amount ≡ false

abbrev pub key_has_nul : Option Text → Bool
key_has_nul none = false
key_has_nul (some key) = has_nul key

accepted_request :
    (u : Unicode) (sent r : CreatePaymentRequest)
    → make_request u sent ≡ ok r
    → ((r.amount == 0) ≡ false) × (length r.merchant_reference ≤ 128)
unfolding make_request
accepted_request u sent r h = (ground (arith, h), ground (arith, h))

module _ (digest : CreatePaymentRequest → Text) (r : CreatePaymentRequest) (fresh : Text) (now : ℕ)
    (db : Database) (s : Repository) (h : IsStored db s) (valid : IsStorable r)
    (free : get_in_memory fresh s ≡ none) where
  abbrev with_payment : Database
  with_payment = record db { payments = db.payments ++ (new_payment r fresh now ∷ []) }

  absent : any (λ p. p.id == fresh) db.payments ≡ false
  unfolding get_stored
  absent = find-none-any (λ p. p.id == fresh) db.payments (h.same_payments fresh ∙ free)

  inserted : insert_payment (new_payment r fresh now) db ≡ ok with_payment
  unfolding new_payment
  inserted =
      let (some_amount, short) = accepted_request valid.tables valid.sent r valid.accepted in
      insert_payment-new (new_payment r fresh now) db valid.three short valid.readable
        valid.in_range some_amount absent

  payments_after :
      (id : Text)
      → get_stored id with_payment ≡ lookup id (insert fresh (new_payment r fresh now) s.payments)
  unfolding get_stored get_in_memory new_payment
  payments_after id = rw (find-or (λ p. p.id == id) db.payments (new_payment r fresh now)) (
      ground (
        arith,
        h.same_payments id,
        free,
        list_beq_iff fresh id,
        lookup-insert fresh id (new_payment r fresh now) s.payments,
      ))

  linked_after :
      (key fingerprint id : Text)
      → lookup key s.idempotency ≡ some (fingerprint, id)
      → is_some (lookup id (insert fresh (new_payment r fresh now) s.payments)) ≡ true
  linked_after key fingerprint id e = ground (
    arith,
    h.linked key fingerprint id e,
    lookup-insert fresh id (new_payment r fresh now) s.payments,
  )

  deleted : delete_payment fresh with_payment ≡ db
  unfolding delete_payment new_payment
  deleted =
      ap (λ (x : List Payment). record db { payments = x })
        (keep-absent (λ (p : Payment). p.id == fresh) db.payments (new_payment r fresh now) absent
          (==_refl fresh))

  unkeyed-IsStored :
      IsStored with_payment
        (record s { payments = insert fresh (new_payment r fresh now) s.payments })
  unfolding get_in_memory
  unkeyed-IsStored = record {
    same_payments = payments_after;
    same_keys = h.same_keys;
    linked = linked_after;
  }

  abbrev claimed_db : Text → Database
  claimed_db key = record with_payment {
    idempotency_keys =
        db.idempotency_keys
        ++ (record { key = key; request_fingerprint = digest r; payment_id = fresh } ∷ []);
  }

  claimed-IsStored :
      (key : Text)
      → lookup key s.idempotency ≡ none
      → IsStored (claimed_db key) (record {
        payments = insert fresh (new_payment r fresh now) s.payments;
        idempotency = insert key (digest r, fresh) s.idempotency;
      })
  unfolding get_in_memory get_stored
  claimed-IsStored key e = record {
    same_payments = λ id. unfold get_stored in payments_after id;
    same_keys = λ k.
        rw
          (find-or (λ x. x.key == k) db.idempotency_keys
            (record { key = key; request_fingerprint = digest r; payment_id = fresh }))
          (ground (
            arith,
            h.same_keys k,
            e,
            lookup-insert key k (digest r, fresh) s.idempotency,
            list_beq_iff key k,
          ));
    linked = λ k fingerprint id f. ground (
      arith,
      f,
      h.linked k fingerprint id,
      lookup-insert key k (digest r, fresh) s.idempotency,
      list_beq_iff key k,
      lookup-insert fresh id (new_payment r fresh now) s.payments,
      list_beq_iff fresh id,
    );
  }

  reused_same :
      (key : Text) (row : KeyRow)
      → lookup key s.idempotency ≡ some (row.request_fingerprint, row.payment_id)
      → IsSameAnswer
          (reuse_stored digest r (some row) db)
          (reuse digest r (row.request_fingerprint, row.payment_id) s)
  unfolding reuse_stored reuse get_in_memory
  reused_same key row e = elim (Bool-cases (row.request_fingerprint == digest r)) [
    | inr f ↦ rw f (both_raise idempotency_error)
    | inl f ↦ elim (Option-cases (lookup row.payment_id s.payments)) [
      | inl g ↦ absurd (ground (arith, g, h.linked key row.request_fingerprint row.payment_id e))
      | inr (p, g) ↦ rw (f, h.same_payments row.payment_id, g) (both_return p db s h)
    ]
  ]

  used_same :
      (key : Option Text)
      → key_has_nul key ≡ false
      → IsSameAnswer
          (claim_used digest r (new_payment r fresh now) with_payment key)
          (create_used digest r fresh now s key)
  unfolding claim_used create_used claim_key create_keyed new_payment
  used_same none readable = both_return _ _ _ unkeyed-IsStored
  used_same (some key) readable =
      elim (Option-cases (find (λ x. x.key == key) db.idempotency_keys)) [
        | inl e ↦
            let f : lookup key s.idempotency ≡ none = sym (h.same_keys key) ∙ ap entry_of e in
            rw (e, f, readable) (both_return _ _ _ (claimed-IsStored key f))
        | inr (row, e) ↦
            let f : lookup key s.idempotency ≡ some (row.request_fingerprint, row.payment_id) =
              sym (h.same_keys key) ∙ ap entry_of e in
            rw (e, f, readable) (rw (deleted, e) (reused_same key row f))
      ]

  -- For a request that the API accepts and whose values fit their columns, an unused identifier, and a
  -- key without a zero character, the durable repository gives the answer of the in-memory one, and
  -- the tables still hold what the dicts hold: in particular the candidate payment that it inserts for
  -- a key already used is gone again.
  pub create_stored-refines :
      (key : Option Text)
      → key_has_nul (used_key key) ≡ false
      → IsSameAnswer
          (create_stored digest r key fresh now db)
          (create_in_memory digest r key fresh now s)
  unfolding create_stored create_in_memory
  create_stored-refines key readable = rw inserted (used_same (used_key key) readable)
