-- ===== src/Payments/Operations/Replay.antt =====
-- An idempotency key used again.
use atlas_pay.Prelude.{
  Option-cases, operation_error, conflict_error, ok, err, raise_if, >>=-eq-ok, ◌==◌, nat_eq,
  list_beq_iff, text_eq, ==_refl, Text, Unicode, is_blank, ℕ, ◌≡◌, refl, ap, ◌≢◌, inl, inr, true,
  false, not, none, some, arith,
}
use atlas_pay.Payments.Database.{status_eq, OperationRow, Database, find}
use atlas_pay.Payments.Database.Inserts.{find-append}
use atlas_pay.Payments.Operations.{
  OperationRequest, OperationResult, FreshIds, result_from_row, operation_row, execute_on,
  execute_keyed, execute,
}
use atlas_pay.Payments.Operations.Execution.{IsExecuted, on-IsExecuted, execute-IsExecuted}

module _ (u : Unicode) (digest : OperationRequest → Text) (r : OperationRequest) (key : Text)
    (fresh : FreshIds) (clock : ℕ) (db db' : Database) (x : OperationResult)
    (done : execute u digest r key fresh clock db ≡ ok (x, db')) where
  -- The row of the key that the call has left, or found.
  record IsKept : Type 0 where
    row : OperationRow
    named : is_blank u key ≡ false
    differ : (r.source_account_id == r.destination_account_id) ≡ false
    found : find (λ o. o.idempotency_key == key) db'.operations ≡ some row
    same : (row.request_fingerprint == digest r) ≡ true
    shown : result_from_row row true ≡ record x { replayed = true }

  replayed_keeps :
      (row : OperationRow)
      → is_blank u key ≡ false
      → (r.source_account_id == r.destination_account_id) ≡ false
      → find (λ o. o.idempotency_key == key) db.operations ≡ some row
      → IsKept
  unfolding execute execute_keyed result_from_row
  replayed_keeps row named differ e =
      let h = rw (named, differ, e) at done in
      let (checked, h₁, k₁) =
        >>=-eq-ok (raise_if (not (row.request_fingerprint == digest r)) conflict_error) _ h in
      let same_db : db' ≡ db = ground (arith, k₁) in
      let shown : x ≡ result_from_row row true = ground (arith, k₁) in
      record {
        row = row;
        named = named;
        differ = differ;
        found = rw same_db e;
        same = ground (arith, h₁);
        shown = rw shown refl;
      }

  executed_keeps :
      is_blank u key ≡ false
      → (r.source_account_id == r.destination_account_id) ≡ false
      → IsExecuted u digest r key fresh clock db db' x
      → IsKept
  unfolding operation_row result_from_row
  executed_keeps named differ i = record {
    row = operation_row r key (digest r) fresh i.payment.status;
    named = named;
    differ = differ;
    found = rw i.written (
        find-append (λ (o : OperationRow). o.idempotency_key == key) db.operations
          (operation_row r key (digest r) fresh i.payment.status) i.key_unused (==_refl key));
    same = ==_refl (digest r);
    shown = rw i.returned refl;
  }

  kept : IsKept
  unfolding execute execute_keyed result_from_row
  kept =
      let (a, h₁, k₁) = >>=-eq-ok (raise_if (is_blank u key) operation_error) _ done in
      let (b, h₂, k₂) =
        >>=-eq-ok (raise_if (r.source_account_id == r.destination_account_id) operation_error) _
          k₁ in
      let named : is_blank u key ≡ false = ground (arith, h₁) in
      let differ : (r.source_account_id == r.destination_account_id) ≡ false = ground (arith, h₂) in
      elim (Option-cases (find (λ o. o.idempotency_key == key) db.operations)) [
        | inr (row, e) ↦ replayed_keeps row named differ e
        | inl e ↦ executed_keeps named differ (
            execute-IsExecuted u digest r key fresh clock db db' x done
              (fresh_result e (rw e at k₂)))
      ]
    where
      fresh_result :
          find (λ o. o.idempotency_key == key) db.operations ≡ none
          → execute_keyed u digest r key fresh clock db none ≡ ok (x, db')
          → x.replayed ≡ false
      fresh_result e h = elim (Option-cases (find (λ p. p.id == r.payment_id) db.payments)) [
        | inl f ↦ absurd (unfold execute_on in ground (arith, rw f at h))
        | inr (p, f) ↦
            let i = on-IsExecuted u digest r key fresh clock db db' x p e f (rw f at h) in
            rw i.returned refl
      ]

  -- After a call that returned, the same request under the same key returns the same result, marked
  -- as a replay, whatever identifiers and clock it would draw, and leaves the database as it is.
  pub execute-replay :
      (fresh' : FreshIds) (clock' : ℕ)
      → execute u digest r key fresh' clock' db' ≡ ok (record x { replayed = true }, db')
  unfolding execute execute_keyed
  execute-replay fresh' clock' =
      rw (kept.named, kept.differ, kept.found, kept.same)
        (ap (λ (y : OperationResult). ok (y, db')) kept.shown)

  -- After a call that returned, a request with another digest under the same key, between two
  -- different accounts, is refused as a conflict.
  pub execute-conflict :
      (other : OperationRequest) (fresh' : FreshIds) (clock' : ℕ)
      → digest other ≢ digest r
      → other.source_account_id ≢ other.destination_account_id
      → execute u digest other key fresh' clock' db' ≡ err conflict_error
  unfolding execute execute_keyed
  execute-conflict other fresh' clock' ne apart =
      let e : (kept.row.request_fingerprint == digest other) ≡ false = ground (
        arith,
        kept.same,
        list_beq_iff kept.row.request_fingerprint (digest r),
        list_beq_iff kept.row.request_fingerprint (digest other),
      ) in
      let d : (other.source_account_id == other.destination_account_id) ≡ false =
        ground (arith, list_beq_iff other.source_account_id other.destination_account_id) in
      rw (kept.named, d, kept.found, e) refl
