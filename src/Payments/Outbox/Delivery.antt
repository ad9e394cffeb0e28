-- ===== src/Payments/Outbox/Delivery.antt =====
-- Lemmas on the delivery of the outbox's events and on the consumer's inbox.
use atlas_pay.Prelude.{
  Bool-cases, any, Result, err, ok, list_beq_iff, text_eq, ◌==◌, nat_eq, Text, Unicode, is_blank, ℕ,
  suc, ◌≡◌, refl, ◌∙◌, inl, inr, Bool, true, false, none, some, List, [], ◌∷◌, ◌++◌, arith,
}
use atlas_pay.Payments.Database.{status_eq, EventRow, Database, update, insert_event}
use atlas_pay.Payments.Database.Inserts.{insert_event-shape, any-append}
use atlas_pay.Payments.Outbox.{
  is_published, is_available, has_id, is_among, lock, select_batch, claim_batch, is_open,
  acknowledge, record_failure, Callback, is_consumed, after_handler, consume_once,
  reset_outbox_event,
}
use atlas_pay.Payments.Outbox.Leases.{
  Each, select_batch-Each, select_batch-available, claim_batch-shape,
}

-- The event is in the table, and published.
pub record IsDelivered (id : Text) (es : List EventRow) : Type 0 where
  pub present : any (has_id id) es ≡ true
  pub published : Each (λ e. has_id id e ≡ true → is_published e ≡ true) es

-- The calls that change the table of events, the insert of a payment operation, and the calls of
-- consumers, whatever their handlers do.
pub data Step (db db' : Database) : Type 1 where
  claims :
      (now batch_size max_attempts lease : ℕ) (claimed : List EventRow)
      → claim_batch now batch_size max_attempts lease db ≡ ok (claimed, db')
      → Step db db'
  acknowledges : (id : Text) (now : ℕ) → db' ≡ (acknowledge id now db).1 → Step db db'
  fails : (id why : Text) → db' ≡ (record_failure id why db).1 → Step db db'
  resets :
      (u : Unicode) (id : Text) (found : Bool)
      → reset_outbox_event u id db ≡ ok (found, db')
      → Step db db'
  inserts : (e : EventRow) → insert_event e db ≡ ok db' → Step db db'
  consumes :
      {W : Type 0} (u : Unicode) (consumer : Text) (e : EventRow) (handler : Callback W) (w : W)
      → db' ≡ (consume_once u consumer e handler db w).1
      → Step db db'

pub data Steps (db : Database) : Database → Type 1 where
  here : Steps db db
  further : {db' db'' : Database} → Steps db db' → Step db' db'' → Steps db db''

-- An update that keeps ids, and does not take back what is published.
module _ (p : EventRow → Bool) (f : EventRow → EventRow) (id : Text)
    (same_id : (e : EventRow) → (f e).id ≡ e.id)
    (keeps : (e : EventRow) → p e ≡ true → is_published e ≡ true → is_published (f e) ≡ true) where
  any-update : (es : List EventRow) → any (has_id id) (update p f es) ≡ any (has_id id) es
  unfolding update
  any-update [] = refl
  any-update (e ∷ es) = elim (Bool-cases (p e)) [
    | inl h ↦ rw (h, same_id e, any-update es) refl
    | inr h ↦ rw (h, any-update es) refl
  ]

  Each-update :
      (es : List EventRow)
      → Each (λ e. has_id id e ≡ true → is_published e ≡ true) es
      → Each (λ e. has_id id e ≡ true → is_published e ≡ true) (update p f es)
  unfolding update
  Each-update [] h = tt
  Each-update (e ∷ es) h = elim (Bool-cases (p e)) [
    | inl k ↦ rw k (λ c. keeps e k (h.0 (rw (same_id e) at c)), Each-update es h.1)
    | inr k ↦ rw k (h.0, Each-update es h.1)
  ]

  update-IsDelivered : (es : List EventRow) → IsDelivered id es → IsDelivered id (update p f es)
  update-IsDelivered es h = record {
    present = any-update es ∙ h.present;
    published = Each-update es h.published;
  }

Each-snoc {κ} :
    (P : EventRow → Type κ) (es : List EventRow) (e : EventRow)
    → Each P es
    → P e
    → Each P (es ++ (e ∷ []))
Each-snoc P [] e h k = (k, tt)
Each-snoc P (x ∷ es) e h k = (h.0, Each-snoc P es e h.1 k)

absent_id :
    (id : Text) (e : EventRow) (es : List EventRow)
    → any (has_id id) es ≡ true
    → any (λ x. x.id == e.id) es ≡ false
    → has_id id e ≡ false
absent_id id e [] h k = absurd (ground arith)
absent_id id e (x ∷ es) h k =
    ground
      (arith, absent_id id e es, list_beq_iff x.id id, list_beq_iff e.id id, list_beq_iff x.id e.id)

after_handler-events :
    (consumer : Text) (e : EventRow) (db : Database) (r : Result (Unit {0}))
    → (after_handler consumer e db r).1.events ≡ db.events
unfolding after_handler
after_handler-events consumer e db (err why) = refl
after_handler-events consumer e db (ok done) = refl

consume_once-events :
    {W : Type 0} (u : Unicode) (consumer : Text) (e : EventRow) (handler : Callback W)
    (db : Database) (w : W)
    → (consume_once u consumer e handler db w).1.events ≡ db.events
unfolding consume_once
consume_once-events u consumer e handler db w = elim (Bool-cases (is_blank u consumer)) [
  | inl b ↦ rw b refl
  | inr b ↦ elim (Bool-cases (is_consumed consumer e.id db)) [
    | inl c ↦ rw (b, c) refl
    | inr c ↦ rw (b, c) (after_handler-events consumer e db (handler e w).0)
  ]
]

Step-IsDelivered :
    (id : Text) (db db' : Database)
    → IsDelivered id db.events
    → Step db db'
    → IsDelivered id db'.events
unfolding acknowledge record_failure reset_outbox_event claim_batch
Step-IsDelivered id db db' h (claims now size most lease claimed e) =
    let shape : db'.events ≡ update (is_among claimed) (lock now) db.events = ground (arith, e) in
    rw shape
      (update-IsDelivered (is_among claimed) (lock now) id (λ e. refl) (λ e k q. q) db.events h)
Step-IsDelivered id db db' h (acknowledges k now e) =
    rw e (update-IsDelivered (is_open k) _ id (λ e. refl) (λ e k q. refl) db.events h)
Step-IsDelivered id db db' h (fails k why e) =
    rw e (update-IsDelivered (is_open k) _ id (λ e. refl) (λ e k q. q) db.events h)
Step-IsDelivered id db db' h (resets u k found e) =
    let shape : db'.events
        ≡ update (is_open k) (λ e. record e { attempts = 0; last_error = none }) db.events =
      ground (arith, e) in
    rw shape (update-IsDelivered (is_open k) _ id (λ e. refl) (λ e k q. q) db.events h)
Step-IsDelivered id db db' h (inserts e k) =
    let (fresh, shape) = insert_event-shape e db db' k in
    rw shape (record {
      present = any-append (has_id id) db.events (e ∷ []) ∙ ground (arith, h.present);
      published =
          Each-snoc _ db.events e h.published
            (λ c. absurd (ground (arith, c, absent_id id e db.events h.present fresh)));
    })
Step-IsDelivered id db db' h (consumes u consumer e handler w k) =
    rw (k) (rw (consume_once-events u consumer e handler db w) h)

Steps-IsDelivered :
    (id : Text) (db db' : Database)
    → IsDelivered id db.events
    → Steps db db'
    → IsDelivered id db'.events
Steps-IsDelivered id db db' h here = h
Steps-IsDelivered id db db'' h (further {db'} steps step) =
    Step-IsDelivered id db' db'' (Steps-IsDelivered id db db' h steps) step

acknowledged_events :
    (id : Text) (now : ℕ) (es : List EventRow)
    → Each
        (λ e. has_id id e ≡ true → is_published e ≡ true)
        (update
          (is_open id)
          (λ e. record e {
            published_at = some now;
            attempts = suc e.attempts;
            last_error = none;
            locked_at = none;
          })
          es)
unfolding update
acknowledged_events id now [] = tt
acknowledged_events id now (e ∷ es) = elim (Bool-cases (is_open id e)) [
  | inl h ↦ rw h (λ c. refl, acknowledged_events id now es)
  | inr h ↦ rw h (λ c. ground (arith, c, h), acknowledged_events id now es)
]

any_open : (id : Text) (es : List EventRow) → any (is_open id) es ≡ true → any (has_id id) es ≡ true
any_open id [] h = absurd (ground arith)
any_open id (e ∷ es) h = ground (arith, any_open id es)

acknowledge-IsDelivered :
    (id : Text) (now : ℕ) (db : Database)
    → (acknowledge id now db).0 ≡ true
    → IsDelivered id (acknowledge id now db).1.events
unfolding acknowledge
acknowledge-IsDelivered id now db h = record {
  present =
      any-update (is_open id) _ id (λ e. refl) (λ e k q. refl) db.events ∙ any_open id db.events h;
  published = acknowledged_events id now db.events;
}

not_taken :
    (now most lease : ℕ) (id : Text) (es : List EventRow)
    → Each (λ e. has_id id e ≡ true → is_published e ≡ true) es
    → Each (λ e. is_available now most lease e ≡ true) es
    → Each (λ e. has_id id e ≡ false) es
unfolding is_available
not_taken now most lease id [] h k = tt
not_taken now most lease id (e ∷ es) h k =
    (ground (arith, h.0, k.0), not_taken now most lease id es h.1 k.1)

-- Once an event is acknowledged, no claim takes it again, whatever claims, acknowledgements,
-- failures, resets and new events come in between.
pub acknowledge-unclaimed :
    (id : Text) (at now size most lease : ℕ) (db db' db'' : Database) (claimed : List EventRow)
    → (acknowledge id at db).0 ≡ true
    → Steps (acknowledge id at db).1 db'
    → claim_batch now size most lease db' ≡ ok (claimed, db'')
    → Each (λ e. has_id id e ≡ false) claimed
acknowledge-unclaimed id at now size most lease db db' db'' claimed found steps k =
    let d =
      Steps-IsDelivered id (acknowledge id at db).1 db' (acknowledge-IsDelivered id at db found)
        steps in
    claimed_of d
  where
    claimed_of : IsDelivered id db'.events → Each (λ e. has_id id e ≡ false) claimed
    claimed_of d =
        let published =
          select_batch-Each (λ e. has_id id e ≡ true → is_published e ≡ true) now size most lease
            db'.events d.published in
        let (shape, rest) = claim_batch-shape now size most lease db' db'' claimed k in
        rw shape (
          not_taken now most lease id (select_batch now size most lease db'.events) published
            (select_batch-available now size most lease db'.events))
