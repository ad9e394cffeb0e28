-- ===== src/Payments/Outbox/Consumption.antt =====
-- Lemmas on the inbox of a consumer: `consume_once` of app/outbox.py.
use atlas_pay.Prelude.{
  Bool-cases, Error, Result, err, ok, list_beq_iff, text_eq, ◌==◌, nat_eq, Text, Unicode, is_blank,
  ◌≡◌, refl, ap, ◌∙◌, inl, inr, Bool, true, false, ◌&&◌, [], ◌∷◌, ◌++◌, arith,
}
use atlas_pay.Payments.Database.{status_eq, EventRow, Database, insert_event}
use atlas_pay.Payments.Database.Inserts.{any-append}
use atlas_pay.Payments.Outbox.{
  claim_batch, acknowledge, record_failure, Callback, is_consumed, after_handler, consume_once,
  reset_outbox_event,
}
use atlas_pay.Payments.Outbox.Delivery.{
  Step, claims, acknowledges, fails, resets, inserts, consumes, Steps, here, further,
}

now_consumed :
    (consumer id : Text) (db : Database)
    → is_consumed consumer id (record db { consumed = db.consumed ++ ((consumer, id) ∷ []) }) ≡ true
now_consumed consumer id db =
    any-append (λ (c : Text × Text). c.0 == consumer && c.1 == id) db.consumed ((consumer, id) ∷ [])
    ∙ ground (arith, list_beq_iff consumer consumer, list_beq_iff id id)

handled :
    (consumer : Text) (e : EventRow) (db db' : Database) (r : Result (Unit {0}))
    → after_handler consumer e db r ≡ (ok true, db')
    → is_consumed consumer e.id db' ≡ true
unfolding after_handler
handled consumer e db db' (err why) h = absurd (ground arith)
handled consumer e db db' (ok done) h =
    let shape : db' ≡ record db { consumed = db.consumed ++ ((consumer, e.id) ∷ []) } =
      ground arith in
    rw shape (now_consumed consumer e.id db)

after_handler-consumed :
    (consumer other id : Text) (e : EventRow) (db : Database) (r : Result (Unit {0}))
    → is_consumed consumer id db ≡ true
    → is_consumed consumer id (after_handler other e db r).1 ≡ true
unfolding after_handler
after_handler-consumed consumer other id e db (err why) h = h
after_handler-consumed consumer other id e db (ok done) h =
    any-append (λ (c : Text × Text). c.0 == consumer && c.1 == id) db.consumed ((other, e.id) ∷ [])
    ∙ ground (arith, h)

consume_once-consumed :
    {W : Type 0} (consumer other id : Text) (u : Unicode) (e : EventRow) (handler : Callback W)
    (db : Database) (w : W)
    → is_consumed consumer id db ≡ true
    → is_consumed consumer id (consume_once u other e handler db w).1 ≡ true
unfolding consume_once
consume_once-consumed consumer other id u e handler db w h = elim (Bool-cases (is_blank u other)) [
  | inl b ↦ rw b h
  | inr b ↦ elim (Bool-cases (is_consumed other e.id db)) [
    | inl c ↦ rw (b, c) h
    | inr c ↦ rw (b, c) (after_handler-consumed consumer other id e db (handler e w).0 h)
  ]
]

-- No other call takes an event out of the inbox.
Step-consumed :
    (consumer id : Text) (db db' : Database)
    → is_consumed consumer id db ≡ true
    → Step db db'
    → is_consumed consumer id db' ≡ true
unfolding acknowledge record_failure reset_outbox_event claim_batch insert_event
Step-consumed consumer id db db' h (claims now size most lease claimed e) =
    let same : db'.consumed ≡ db.consumed = ground (arith, e) in rw same h
Step-consumed consumer id db db' h (acknowledges k now e) = rw e h
Step-consumed consumer id db db' h (fails k why e) = rw e h
Step-consumed consumer id db db' h (resets u k found e) =
    let same : db'.consumed ≡ db.consumed = ground (arith, e) in rw same h
Step-consumed consumer id db db' h (inserts e k) =
    let same : db'.consumed ≡ db.consumed = ground (arith, k) in rw same h
Step-consumed consumer id db db' h (consumes u other e handler w k) =
    rw k (consume_once-consumed consumer other id u e handler db w h)

Steps-consumed :
    (consumer id : Text) (db db' : Database)
    → is_consumed consumer id db ≡ true
    → Steps db db'
    → is_consumed consumer id db' ≡ true
Steps-consumed consumer id db db' h here = h
Steps-consumed consumer id db db'' h (further {db'} steps step) =
    Step-consumed consumer id db' db'' (Steps-consumed consumer id db db' h steps) step

module _ {W : Type 0} (u : Unicode) (consumer : Text) (e : EventRow) (handler : Callback W)
    (db db' : Database) (w w₁ : W) where
  consumed_after :
      consume_once u consumer e handler db w ≡ (ok true, db', w₁)
      → (is_blank u consumer ≡ false) × (is_consumed consumer e.id db' ≡ true)
  unfolding consume_once
  consumed_after h = elim (Bool-cases (is_blank u consumer)) [
    | inl b ↦ absurd (ground (arith, b))
    | inr b ↦ elim (Bool-cases (is_consumed consumer e.id db)) [
      | inl c ↦ absurd (ground (arith, b, c))
      | inr c ↦ (
        b,
        handled consumer e db db' (handler e w).0
            (ap (λ (x : Result Bool × Database × W). (x.0, x.1)) (rw (b, c) at h)),
      )
    ]
  ]

  -- Once a consumer's handler has returned for an event, no handler of that consumer runs for the event
  -- again, whatever claims, acknowledgements, failures, resets, new events and calls of consumers
  -- come in between, and however the event is delivered again.
  pub consume_once-once :
      consume_once u consumer e handler db w ≡ (ok true, db', w₁)
      → (db'' : Database) (again : EventRow) (handler' : Callback W) (w' : W) → Steps db' db''
      → again.id ≡ e.id
      → consume_once u consumer again handler' db'' w' ≡ (ok false, db'', w')
  unfolding consume_once
  consume_once-once h db'' again handler' w' steps same =
      let (b, c) = consumed_after h in
      let known : is_consumed consumer again.id db'' ≡ true =
        rw same (Steps-consumed consumer e.id db' db'' c steps) in
      rw (b, known) refl

  rolled_back :
      (r : Result (Unit {0})) (why : Error)
      → after_handler consumer e db r ≡ (err why, db')
      → db' ≡ db
  unfolding after_handler
  rolled_back (err x) why h = ground arith
  rolled_back (ok done) why h = absurd (ground arith)

  -- Where `consume_once` raises, as when the handler does, the event is not consumed: the database
  -- is as it was.
  pub consume_once-rolls_back :
      (why : Error) → consume_once u consumer e handler db w ≡ (err why, db', w₁) → db' ≡ db
  unfolding consume_once
  consume_once-rolls_back why h = elim (Bool-cases (is_blank u consumer)) [
    | inl b ↦ ground (arith, b)
    | inr b ↦ elim (Bool-cases (is_consumed consumer e.id db)) [
      | inl c ↦ absurd (ground (arith, b, c))
      | inr c ↦
          rolled_back (handler e w).0 why
            (ap (λ (x : Result Bool × Database × W). (x.0, x.1)) (rw (b, c) at h))
    ]
  ]
