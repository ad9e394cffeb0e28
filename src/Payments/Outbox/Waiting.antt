-- ===== src/Payments/Outbox/Waiting.antt =====
-- Lemmas on the events that wait in the outbox, round by round.
use atlas_pay.Prelude.{
  ltb, if◌then◌else◌, Bool-cases, take, any, keep, Error, Result, ok, ◌>>=◌, list_beq_iff, text_eq,
  ◌==◌, nat_eq, ==_refl, Text, ℕ, suc, ◌≤◌, ◌<◌, ◌≡◌, refl, sym, ◌∙◌, ◌⊎◌, inl, inr, Bool, true,
  false, not, ◌&&◌, Option, none, some, List, [], ◌∷◌, map, arith,
}
use atlas_pay.Payments.Database.{status_eq, EventRow, Database}
use atlas_pay.Payments.Outbox.{
  is_published, lease_over, is_available, insert_by_time, by_time, is_among, lock, select_batch,
  Callback, publish_batch,
}
use atlas_pay.Payments.Outbox.Leases.{Each, Each-map, select_batch-Each, select_batch-available}
use atlas_pay.Payments.Outbox.Progress.{
  settle_row, settle_rows, settle_row-id, settle_rows-among, settle_rows-others,
}

-- An event that is not published and has attempts left.
abbrev pub is_waiting : ℕ → EventRow → Bool
is_waiting max_attempts e = not (is_published e) && ltb e.attempts max_attempts

unfoldable pub waiting_count : ℕ → List EventRow → ℕ
waiting_count max_attempts [] = 0
waiting_count max_attempts (e ∷ es) =
    let rest = waiting_count max_attempts es in if is_waiting max_attempts e then suc rest else rest

-- No waiting event is under a lease that still runs.
abbrev pub IsFree : ℕ → ℕ → ℕ → List EventRow → Type 0
IsFree now max_attempts lease =
    Each (λ e. is_waiting max_attempts e ≡ true → lease_over now lease e.locked_at ≡ true)

over_later :
    (now later lease : ℕ) (at : Option ℕ)
    → now ≤ later
    → lease_over now lease at ≡ true
    → lease_over later lease at ≡ true
over_later now later lease none l o = refl
over_later now later lease (some t) l o = ground (arith, o, l)

pub IsFree-later :
    (now later max_attempts lease : ℕ) (es : List EventRow)
    → now ≤ later
    → IsFree now max_attempts lease es
    → IsFree later max_attempts lease es
IsFree-later now later max_attempts lease es l h =
    Each-map _ _ es (λ e f w. over_later now later lease e.locked_at l (f w)) h

-- What a round makes of one row.
abbrev pub round_row : (Text → ℕ) → ℕ → List EventRow → EventRow → EventRow
round_row clock now claimed e =
    settle_rows clock claimed (if is_among claimed e then lock now e else e)

module _ (clock : Text → ℕ) (now max_attempts : ℕ) (claimed : List EventRow) where
  round_row-waiting :
      (e : EventRow)
      → is_waiting max_attempts (round_row clock now claimed e) ≡ true
      → (is_among claimed e ≡ false) × (round_row clock now claimed e ≡ e)
  round_row-waiting e h = elim (Bool-cases (is_among claimed e)) [
    | inl among ↦
        absurd (ground (arith, settle_rows-among clock claimed (lock now e) among, rw among at h))
    | inr other ↦ (other, rw other (settle_rows-others clock claimed e other))
  ]

  pub round-count-le :
      (es : List EventRow)
      → waiting_count max_attempts (map (round_row clock now claimed) es)
        ≤ waiting_count max_attempts es
  unfolding waiting_count
  round-count-le [] = omega arith
  round-count-le (e ∷ es) =
      elim (Bool-cases (is_waiting max_attempts (round_row clock now claimed e))) [
        | inl h ↦
            let (other, same) = round_row-waiting e h in
            rw (same, rw same at h) (omega (arith, round-count-le es))
        | inr h ↦ rw h (ground (arith, round-count-le es))
      ]

  -- A waiting event that was claimed no longer waits.
  pub round-count-lt :
      (es : List EventRow)
      → any (λ e. is_waiting max_attempts e && is_among claimed e) es ≡ true
      → waiting_count max_attempts (map (round_row clock now claimed) es)
        < waiting_count max_attempts es
  unfolding waiting_count
  round-count-lt [] h = absurd (ground (arith, h))
  round-count-lt (e ∷ es) h =
      elim (Bool-cases (is_waiting max_attempts (round_row clock now claimed e))) [
        | inl k ↦
            let (other, same) = round_row-waiting e k in
            rw (same, rw same at k) (omega (arith, round-count-lt es (ground (arith, h, other))))
        | inr k ↦ elim (Bool-cases (is_waiting max_attempts e)) [
          | inl w ↦ rw (k, w) (omega (arith, round-count-le es))
          | inr w ↦ rw (k, w) (round-count-lt es (ground (arith, h, w)))
        ]
      ]

  pub round-IsFree :
      (lease : ℕ) (es : List EventRow)
      → IsFree now max_attempts lease es
      → IsFree now max_attempts lease (map (round_row clock now claimed) es)
  round-IsFree lease [] h = tt
  round-IsFree lease (e ∷ es) h = (
    λ k. let (other, same) = round_row-waiting e k in rw same (h.0 (rw same at k)),
    round-IsFree lease es h.1,
  )

any_mono :
    (p q : EventRow → Bool) (es : List EventRow)
    → ((e : EventRow) → p e ≡ true → q e ≡ true)
    → any p es ≡ true
    → any q es ≡ true
any_mono p q [] f h = h
any_mono p q (e ∷ es) f h = ground (arith, h, f e, any_mono p q es f)

module _ (now batch_size max_attempts lease : ℕ) where
  -- An available event is a waiting row of the table.
  available_row :
      (es : List EventRow)
      → Each
          (λ e.
            is_available now max_attempts lease e ≡ true
            → any (λ x. is_waiting max_attempts x && x.id == e.id) es ≡ true)
          es
  unfolding is_available
  available_row [] = tt
  available_row (e ∷ es) = (
    λ h. ground (arith, h, ==_refl e.id),
    Each-map _ _ es (λ x f h. ground (arith, f h)) (available_row es),
  )

  take-empty : (es : List EventRow) → take (suc batch_size) es ≡ [] → es ≡ []
  take-empty [] h = refl
  take-empty (e ∷ es) h = absurd (ground (arith, h))

  by_time-empty : (es : List EventRow) → by_time es ≡ [] → es ≡ []
  unfolding by_time
  by_time-empty [] h = refl
  by_time-empty (e ∷ es) h = absurd (occupied e (by_time es) h)
    where
      occupied : (e : EventRow) (xs : List EventRow) → insert_by_time e xs ≡ [] → ⊥
      occupied e [] k = ground (arith, k)
      occupied e (x ∷ xs) k = ground (arith, k)

  none_waiting :
      (es : List EventRow)
      → keep (is_available now max_attempts lease) es ≡ []
      → IsFree now max_attempts lease es
      → waiting_count max_attempts es ≡ 0
  unfolding waiting_count is_available
  none_waiting [] h f = refl
  none_waiting (e ∷ es) h f = elim (Bool-cases (is_waiting max_attempts e)) [
    | inl w ↦ absurd (ground (arith, h, w, f.0 w))
    | inr w ↦ rw w (none_waiting es (ground (arith, h, w)) f.1)
  ]

  select_batch-empty :
      (es : List EventRow)
      → select_batch now (suc batch_size) max_attempts lease es ≡ []
      → keep (is_available now max_attempts lease) es ≡ []
  unfolding select_batch
  select_batch-empty es h = by_time-empty _ (take-empty _ h)

  -- Where an event waits, a batch takes one that waits.
  pub select_batch-takes :
      (es : List EventRow)
      → IsFree now max_attempts lease es
      → 0 < waiting_count max_attempts es
      → any
          (λ e.
            is_waiting max_attempts e
            && is_among (select_batch now (suc batch_size) max_attempts lease es) e)
          es
        ≡ true
  select_batch-takes es f h =
      takes (select_batch now (suc batch_size) max_attempts lease es) refl
        (select_batch-Each _ now (suc batch_size) max_attempts lease es (available_row es))
        (select_batch-available now (suc batch_size) max_attempts lease es)
    where
      takes :
          (batch : List EventRow)
          → batch ≡ select_batch now (suc batch_size) max_attempts lease es
          → Each
              (λ e.
                is_available now max_attempts lease e ≡ true
                → any (λ x. is_waiting max_attempts x && x.id == e.id) es ≡ true)
              batch
          → Each (λ e. is_available now max_attempts lease e ≡ true) batch
          → any (λ e. is_waiting max_attempts e && is_among batch e) es ≡ true
      takes [] same rows available =
          absurd (omega (arith, none_waiting es (select_batch-empty es (sym same)) f))
      takes (c ∷ batch) same rows available =
          any_mono _ _ es (λ x k. ground (arith, k, list_beq_iff x.id c.id, list_beq_iff c.id x.id))
            (rows.0 available.0)

-- Rounds of `publish_batch` at the given times, one after another.
module _ {W : Type 0} (publish : Callback W) (describe : Error → Text) (clock : Text → ℕ)
    (batch_size max_attempts lease : ℕ) where
  unfoldable pub publish_rounds : List ℕ → Database → W → Result (Database × W)
  publish_rounds [] db w = ok (db, w)
  publish_rounds (now ∷ nows) db w = do
    (published, db', w') ←
        publish_batch publish describe clock now batch_size max_attempts lease db w
    publish_rounds nows db' w'

abbrev pub IsAscending : ℕ → List ℕ → Type 0
IsAscending since [] = Unit
IsAscending since (now ∷ nows) = (since ≤ now) × IsAscending now nows

-- What rounds make of one row: it is published, or is as it was.
pub record RowMap (f : EventRow → EventRow) : Type 0 where
  pub same_id : (e : EventRow) → (f e).id ≡ e.id
  pub moves : (e : EventRow) → (is_published (f e) ≡ true) ⊎ (f e ≡ e)

settle_rows-id :
    (clock : Text → ℕ) (claimed : List EventRow) (e : EventRow)
    → (settle_rows clock claimed e).id ≡ e.id
unfolding settle_rows
settle_rows-id clock [] e = refl
settle_rows-id clock (c ∷ claimed) e =
    settle_rows-id clock claimed (settle_row clock c.id e) ∙ settle_row-id clock c.id e

pub round-RowMap :
    (clock : Text → ℕ) (now : ℕ) (claimed : List EventRow) → RowMap (round_row clock now claimed)
round-RowMap clock now claimed = record {
  same_id = λ e. settle_rows-id clock claimed _ ∙ ground arith;
  moves = λ e. elim (Bool-cases (is_among claimed e)) [
    | inl among ↦ inl (rw among (settle_rows-among clock claimed (lock now e) among))
    | inr other ↦ inr (rw other (settle_rows-others clock claimed e other))
  ];
}
