-- ===== src/Payments/Repository/Idempotency.antt =====
-- Lemmas on the idempotency keys of the repository.
use atlas_pay.Prelude.{
  Option-cases, is_empty, idempotency_error, ok, err, ◌==◌, nat_eq, list_beq_iff, text_eq, ==_refl,
  Text, ℕ, ◌≡◌, refl, sym, ap, ◌∙◌, ◌≢◌, inl, inr, false, Option, none, some, arith,
}
use atlas_pay.Prelude.Dict.{lookup, insert, lookup-insert}
use atlas_pay.Payments.Database.{status_eq, Payment}
use atlas_pay.Payments.Repository.{
  CreatePaymentRequest, new_payment, used_key, Repository, reuse, create_keyed, create_used,
  create_in_memory,
}

-- The key stands for this request's payment.
pub record IsClaimed (digest : CreatePaymentRequest → Text) (r : CreatePaymentRequest) (key : Text)
    (p : Payment) (s : Repository) : Type 0 where
  pub id : Text
  pub entry : lookup key s.idempotency ≡ some (digest r, id)
  pub stored : lookup id s.payments ≡ some p

module _ (digest : CreatePaymentRequest → Text) where
  -- Any number of calls, each drawing an identifier that no payment has.
  pub data Calls : Repository → Repository → Type 0 where
    none_yet : (s : Repository) → Calls s s
    then_call :
        {s s' s'' : Repository} (r : CreatePaymentRequest) (key : Option Text) (fresh : Text)
        (now : ℕ) (p : Payment)
        → Calls s s'
        → lookup fresh s'.payments ≡ none
        → create_in_memory digest r key fresh now s' ≡ ok (p, s'')
        → Calls s s''

  -- What a call that returns has done, for the key that it uses.
  pub data Created (r : CreatePaymentRequest) (fresh : Text) (now : ℕ) (q : Payment)
      (s s' : Repository) : Option Text → Type 0 where
    unkeyed :
        q ≡ new_payment r fresh now
        → s' ≡ record s { payments = insert fresh q s.payments }
        → Created r fresh now q s s' none
    claims :
        (key : Text)
        → lookup key s.idempotency ≡ none
        → q ≡ new_payment r fresh now
        → s' ≡ record {
          payments = insert fresh q s.payments;
          idempotency = insert key (digest r, fresh) s.idempotency;
        }
        → Created r fresh now q s s' (some key)
    reuses :
        (key id : Text)
        → lookup key s.idempotency ≡ some (digest r, id)
        → lookup id s.payments ≡ some q
        → s' ≡ s
        → Created r fresh now q s s' (some key)

  reused-Created :
      (r : CreatePaymentRequest) (fresh : Text) (now : ℕ) (q : Payment) (s s' : Repository)
      (key previous id : Text)
      → lookup key s.idempotency ≡ some (previous, id)
      → reuse digest r (previous, id) s ≡ ok (q, s')
      → Created r fresh now q s s' (some key)
  unfolding reuse
  reused-Created r fresh now q s s' key previous id e h =
      elim (Option-cases (lookup id s.payments)) [
        | inl f ↦ absurd (ground (arith, f))
        | inr (p, f) ↦
            let named : previous ≡ digest r = ground (arith, f, list_beq_iff previous (digest r)) in
            let shown : p ≡ q = ground (arith, f) in
            reuses key id (e ∙ ap (λ (x : Text). some (x, id)) named)
              (f ∙ ap (λ (x : Payment). some x) shown) (ground (arith, f))
      ]

  pub used-Created :
      (r : CreatePaymentRequest) (fresh : Text) (now : ℕ) (q : Payment) (s s' : Repository)
      (key : Option Text)
      → create_used digest r fresh now s key ≡ ok (q, s')
      → Created r fresh now q s s' key
  unfolding create_used create_keyed
  used-Created r fresh now q s s' none h =
      let shown : new_payment r fresh now ≡ q = ground arith in
      unkeyed (sym shown) (rw (sym shown) (ground arith))
  used-Created r fresh now q s s' (some key) h = elim (Option-cases (lookup key s.idempotency)) [
    | inl e ↦
        let shown : q ≡ new_payment r fresh now = ground (arith, e) in
        claims key e shown (rw shown (ground (arith, e)))
    | inr ((previous, id), e) ↦ reused-Created r fresh now q s s' key previous id e (rw e at h)
  ]

  Created-IsClaimed :
      (r : CreatePaymentRequest) (fresh : Text) (now : ℕ) (p : Payment) (s s' : Repository)
      (key : Text)
      → Created r fresh now p s s' (some key)
      → IsClaimed digest r key p s'
  Created-IsClaimed r fresh now p s s' _ (claims key e shown after) = rw after (record {
    id = fresh;
    entry =
        ground (arith, lookup-insert key key (digest r, fresh) s.idempotency, list_beq_iff key key);
    stored = ground (arith, lookup-insert fresh fresh p s.payments, list_beq_iff fresh fresh);
  })
  Created-IsClaimed r fresh now p s s' _ (reuses key id e f after) =
      rw after (record { id = id; entry = e; stored = f })

  other-IsClaimed :
      (r other : CreatePaymentRequest) (key : Text) (fresh : Text) (now : ℕ) (p q : Payment)
      (s s' : Repository) (given : Option Text)
      → IsClaimed digest r key p s
      → lookup fresh s.payments ≡ none
      → Created other fresh now q s s' given
      → IsClaimed digest r key p s'
  other-IsClaimed r other key fresh now p q s s' given c free (unkeyed shown after) =
      rw after (record {
        id = c.id;
        entry = c.entry;
        stored =
            ground (
              arith,
              c.stored,
              free,
              lookup-insert fresh c.id q s.payments,
              list_beq_iff fresh c.id,
            );
      })
  other-IsClaimed r other key fresh now p q s s' given c free (claims k e shown after) =
      rw after (record {
        id = c.id;
        entry = ground (
          arith,
          c.entry,
          e,
          lookup-insert k key (digest other, fresh) s.idempotency,
          list_beq_iff k key,
        );
        stored =
            ground (
              arith,
              c.stored,
              free,
              lookup-insert fresh c.id q s.payments,
              list_beq_iff fresh c.id,
            );
      })
  other-IsClaimed r other key fresh now p q s s' given c free (reuses k id e f after) = rw after c

  Calls-IsClaimed :
      (r : CreatePaymentRequest) (key : Text) (p : Payment) {s s' : Repository}
      → IsClaimed digest r key p s
      → Calls s s'
      → IsClaimed digest r key p s'
  unfolding create_in_memory
  Calls-IsClaimed r key p c (none_yet s) = c
  Calls-IsClaimed r key p c (then_call {s} {s'} {s''} other given fresh now q calls free h) =
      other-IsClaimed r other key fresh now p q s' s'' (used_key given)
        (Calls-IsClaimed r key p c calls) free
        (used-Created other fresh now q s' s'' (used_key given) h)

  replayed-IsClaimed :
      (r : CreatePaymentRequest) (key fresh : Text) (now : ℕ) (p : Payment) (s : Repository)
      → IsClaimed digest r key p s
      → create_used digest r fresh now s (some key) ≡ ok (p, s)
  unfolding create_used create_keyed reuse
  replayed-IsClaimed r key fresh now p s c = rw (c.entry) (rw (==_refl (digest r), c.stored) refl)

  -- A request under a key that is not empty makes one payment for good: after any number of other
  -- calls, each drawing an unused identifier, the same request under the key returns that payment
  -- and changes nothing.
  pub create-idempotent :
      (r : CreatePaymentRequest) (key fresh fresh' : Text) (now now' : ℕ) (p : Payment)
      (s s₁ s₂ : Repository)
      → is_empty key ≡ false
      → create_in_memory digest r (some key) fresh now s ≡ ok (p, s₁)
      → Calls s₁ s₂
      → create_in_memory digest r (some key) fresh' now' s₂ ≡ ok (p, s₂)
  unfolding create_in_memory
  create-idempotent r key fresh fresh' now now' p s s₁ s₂ full h calls =
      let c =
        Created-IsClaimed r fresh now p s s₁ key
          (used-Created r fresh now p s s₁ (some key) (rw full at h)) in
      rw full (replayed-IsClaimed r key fresh' now' p s₂ (Calls-IsClaimed r key p c calls))

  -- After any number of such calls, a request with another digest under the key is refused.
  pub create-conflict :
      (r other : CreatePaymentRequest) (key fresh fresh' : Text) (now now' : ℕ) (p : Payment)
      (s s₁ s₂ : Repository)
      → is_empty key ≡ false
      → create_in_memory digest r (some key) fresh now s ≡ ok (p, s₁)
      → Calls s₁ s₂
      → digest other ≢ digest r
      → create_in_memory digest other (some key) fresh' now' s₂ ≡ err idempotency_error
  unfolding create_in_memory create_used create_keyed reuse
  create-conflict r other key fresh fresh' now now' p s s₁ s₂ full h calls ne =
      let c =
        Calls-IsClaimed r key p
          (Created-IsClaimed r fresh now p s s₁ key
            (used-Created r fresh now p s s₁ (some key) (rw full at h)))
          calls in
      let d : (digest r == digest other) ≡ false =
        ground (arith, ne, list_beq_iff (digest r) (digest other)) in
      rw (full, c.entry) (rw d refl)
