-- ===== src/Payments/Outbox/Leases.antt =====
-- What a claim takes, and what keeps others from it.
use atlas_pay.Prelude.{
  leb, Bool-cases, length, take, any, keep, ok, list_beq_iff, Text, ℕ, zero, suc, ◌+◌, ◌≤◌, ◌≡◌,
  refl, sym, ap, ◌∙◌, inl, inr, Bool, true, false, some, List, [], ◌∷◌, arith,
}
use atlas_pay.Payments.Database.{EventRow, Database, update}
use atlas_pay.Payments.Outbox.{
  is_available, insert_by_time, by_time, has_id, is_among, lock, select_batch, claim_batch,
}

-- A property of every member.
abbrev pub Each {κ} : (EventRow → Type κ) → List EventRow → Type κ
Each P [] = Unit
Each P (e ∷ es) = P e × Each P es

Each-keep : (p : EventRow → Bool) (es : List EventRow) → Each (λ e. p e ≡ true) (keep p es)
Each-keep p [] = tt
Each-keep p (e ∷ es) = elim (Bool-cases (p e)) [
  | inl h ↦ rw h (h, Each-keep p es)
  | inr h ↦ rw h (Each-keep p es)
]

Each-insert {κ} :
    (P : EventRow → Type κ) (e : EventRow) (es : List EventRow)
    → P e
    → Each P es
    → Each P (insert_by_time e es)
unfolding insert_by_time
Each-insert P e [] h k = (h, tt)
Each-insert P e (x ∷ es) h k = elim (Bool-cases (leb e.created_at x.created_at)) [
  | inl c ↦ rw c (h, k)
  | inr c ↦ rw c (k.0, Each-insert P e es h k.1)
]

Each-by_time {κ} : (P : EventRow → Type κ) (es : List EventRow) → Each P es → Each P (by_time es)
unfolding by_time
Each-by_time P [] h = tt
Each-by_time P (e ∷ es) h = Each-insert P e (by_time es) h.0 (Each-by_time P es h.1)

Each-take {κ} :
    (P : EventRow → Type κ) (n : ℕ) (es : List EventRow) → Each P es → Each P (take n es)
Each-take P zero es h = tt
Each-take P (suc n) [] h = tt
Each-take P (suc n) (e ∷ es) h = (h.0, Each-take P n es h.1)

pub Each-map {κ μ} :
    (P : EventRow → Type κ) (Q : EventRow → Type μ) (es : List EventRow)
    → ((e : EventRow) → P e → Q e)
    → Each P es
    → Each Q es
Each-map P Q [] f h = tt
Each-map P Q (e ∷ es) f h = (f e h.0, Each-map P Q es f h.1)

-- What is kept from a list that has a property, has it too.
Each-kept {κ} :
    (P : EventRow → Type κ) (p : EventRow → Bool) (es : List EventRow)
    → Each P es
    → Each P (keep p es)
Each-kept P p [] h = tt
Each-kept P p (e ∷ es) h = elim (Bool-cases (p e)) [
  | inl c ↦ rw c (h.0, Each-kept P p es h.1)
  | inr c ↦ rw c (Each-kept P p es h.1)
]

length-take : (n : ℕ) (es : List EventRow) → length (take n es) ≤ n
length-take zero es = omega arith
length-take (suc n) [] = omega arith
length-take (suc n) (e ∷ es) = omega (arith, length-take n es)

pub select_batch-Each {κ} :
    (P : EventRow → Type κ) (now batch_size max_attempts lease : ℕ) (es : List EventRow)
    → Each P es
    → Each P (select_batch now batch_size max_attempts lease es)
unfolding select_batch
select_batch-Each P now batch_size max_attempts lease es h =
    Each-take P batch_size _
      (Each-by_time P _ (Each-kept P (is_available now max_attempts lease) es h))

pub select_batch-available :
    (now batch_size max_attempts lease : ℕ) (es : List EventRow)
    → Each
        (λ e. is_available now max_attempts lease e ≡ true)
        (select_batch now batch_size max_attempts lease es)
unfolding select_batch
select_batch-available now batch_size max_attempts lease es =
    Each-take _ batch_size _ (Each-by_time _ _ (Each-keep (is_available now max_attempts lease) es))

pub claim_batch-shape :
    (now batch_size max_attempts lease : ℕ) (db db' : Database) (claimed : List EventRow)
    → claim_batch now batch_size max_attempts lease db ≡ ok (claimed, db')
    → (claimed ≡ select_batch now batch_size max_attempts lease db.events)
      × (db'.events ≡ update (is_among claimed) (lock now) db.events)
unfolding claim_batch
claim_batch-shape now batch_size max_attempts lease db db' claimed h = ground arith

-- A claim takes at most `batch_size` events, none of them published, out of attempts, or under a
-- lease that still runs.
pub claim_batch-available :
    (now batch_size max_attempts lease : ℕ) (db db' : Database) (claimed : List EventRow)
    → claim_batch now batch_size max_attempts lease db ≡ ok (claimed, db')
    → (length claimed ≤ batch_size)
      × Each (λ e. is_available now max_attempts lease e ≡ true) claimed
unfolding select_batch
claim_batch-available now batch_size max_attempts lease db db' claimed h =
    let (e, f) = claim_batch-shape now batch_size max_attempts lease db db' claimed h in
    rw e (
      length-take batch_size _,
      unfold select_batch in select_batch-available now batch_size max_attempts lease db.events,
    )

-- After the claim, an event of a claimed id is under a lease that began then.
locked_after :
    (now : ℕ) (claimed es : List EventRow)
    → Each
        (λ e. is_among claimed e ≡ true → e.locked_at ≡ some now)
        (update (is_among claimed) (lock now) es)
unfolding update
locked_after now claimed [] = tt
locked_after now claimed (e ∷ es) = elim (Bool-cases (is_among claimed e)) [
  | inl h ↦ rw h (λ k. refl, locked_after now claimed es)
  | inr h ↦ rw h (λ k. absurd (ground (arith, h, k)), locked_after now claimed es)
]

leased_out :
    (now now' max_attempts lease : ℕ) (claimed : List EventRow) (e : EventRow)
    → now' ≤ now + lease
    → (is_among claimed e ≡ true → e.locked_at ≡ some now)
    → is_available now' max_attempts lease e ≡ true
    → is_among claimed e ≡ false
unfolding is_available
leased_out now now' max_attempts lease claimed e soon locked h =
    elim (Bool-cases (is_among claimed e)) [
      | inr k ↦ k
      | inl k ↦ absurd (ground (arith, locked k, h))
    ]

Each-both :
    (now now' max_attempts lease : ℕ) (claimed es : List EventRow)
    → now' ≤ now + lease
    → Each (λ e. is_among claimed e ≡ true → e.locked_at ≡ some now) es
    → Each (λ e. is_available now' max_attempts lease e ≡ true) es
    → Each (λ e. is_among claimed e ≡ false) es
Each-both now now' max_attempts lease claimed [] soon h k = tt
Each-both now now' max_attempts lease claimed (e ∷ es) soon h k = (
  leased_out now now' max_attempts lease claimed e soon h.0 k.0,
  Each-both now now' max_attempts lease claimed es soon h.1 k.1,
)

-- Claims, each of which comes before its own lease time has passed since a time.
pub data Claims (since : ℕ) (db : Database) : Database → Type 0 where
  no_claim : Claims since db db
  then_claim :
      {db' db'' : Database} (now size most lease : ℕ) (claimed : List EventRow)
      → Claims since db db'
      → claim_batch now size most lease db' ≡ ok (claimed, db'')
      → now ≤ since + lease
      → Claims since db db''

among_apart :
    (first : List EventRow) (e : EventRow) (claimed : List EventRow)
    → Each (λ c. is_among first c ≡ false) claimed
    → is_among claimed e ≡ true
    → is_among first e ≡ false
among_apart first e [] h k = absurd (ground arith)
among_apart first e (c ∷ claimed) h k = elim (Bool-cases (has_id e.id c)) [
  | inl same ↦
      ap (λ (id : Text). any (has_id id) first) (sym ((list_beq_iff c.id e.id).0 same)) ∙ h.0
  | inr other ↦ among_apart first e claimed h.1 (rw other at k)
]

still_held :
    (since now : ℕ) (first claimed es : List EventRow)
    → Each (λ c. is_among first c ≡ false) claimed
    → Each (λ e. is_among first e ≡ true → e.locked_at ≡ some since) es
    → Each
        (λ e. is_among first e ≡ true → e.locked_at ≡ some since)
        (update (is_among claimed) (lock now) es)
unfolding update
still_held since now first claimed [] apart h = tt
still_held since now first claimed (e ∷ es) apart h = elim (Bool-cases (is_among claimed e)) [
  | inl k ↦
      let free = among_apart first e claimed apart k in
      rw k (
        λ among. absurd (ground (arith, free, among)),
        still_held since now first claimed es apart h.1,
      )
  | inr k ↦ rw k (h.0, still_held since now first claimed es apart h.1)
]

apart_from_held :
    (since now size most lease : ℕ) (first : List EventRow) (db db' : Database)
    (claimed : List EventRow)
    → Each (λ e. is_among first e ≡ true → e.locked_at ≡ some since) db.events
    → claim_batch now size most lease db ≡ ok (claimed, db')
    → now ≤ since + lease
    → Each (λ e. is_among first e ≡ false) claimed
apart_from_held since now size most lease first db db' claimed held k soon =
    let (e, f) = claim_batch-shape now size most lease db db' claimed k in
    rw e (
      Each-both since now most lease first (select_batch now size most lease db.events) soon
        (select_batch-Each (λ e. is_among first e ≡ true → e.locked_at ≡ some since) now size most
          lease db.events held)
        (select_batch-available now size most lease db.events))

held_through :
    (since : ℕ) (first : List EventRow) (db db' : Database)
    → Each (λ e. is_among first e ≡ true → e.locked_at ≡ some since) db.events
    → Claims since db db'
    → Each (λ e. is_among first e ≡ true → e.locked_at ≡ some since) db'.events
held_through since first db db' held no_claim = held
held_through since first db db'' held (then_claim {db'} now size most lease claimed claims k soon) =
    let before = held_through since first db db' held claims in
    let apart = apart_from_held since now size most lease first db' db'' claimed before k soon in
    let (e, f) = claim_batch-shape now size most lease db' db'' claimed k in
    rw f (still_held since now first claimed db'.events apart before)

-- After a claim and any further claims, none of the later claims takes an event with the id of one
-- that the first has taken, as long as each comes before its own lease time has passed since the first.
pub claim_batch-disjoint :
    (now now' size size' most most' lease lease' : ℕ) (db db' db'' db''' : Database)
    (first second : List EventRow)
    → claim_batch now size most lease db ≡ ok (first, db')
    → Claims now db' db''
    → claim_batch now' size' most' lease' db'' ≡ ok (second, db''')
    → now' ≤ now + lease'
    → Each (λ e. is_among first e ≡ false) second
claim_batch-disjoint now now' size size' most most' lease lease' db db' db'' db''' first second h
      claims k soon =
    let (e, f) = claim_batch-shape now size most lease db db' first h in
    apart_from_held now now' size' most' lease' first db'' db''' second
      (held_through now first db' db'' (rw f (locked_after now first db.events)) claims) k soon
