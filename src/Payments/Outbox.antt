-- ===== src/Payments/Outbox.antt =====
-- `PostgresOutbox` of app/outbox.py and `PostgresReplayController` of app/reconciliation.py. Each call
-- of the database is one step: a row that another worker has locked just then, which SKIP LOCKED
-- passes over, is not modelled. Rows of equal `created_at` come in the order of their insertion.
-- Times are natural numbers of ticks, a lease a number of ticks. An event's payload goes with its row.
pub mod Leases
pub mod Delivery
pub mod Consumption
pub mod Progress
pub mod Waiting
pub mod Drain
use atlas_pay.Prelude.{
  ltb, leb, if◌then◌else◌, take, any, keep, Error, value_error, Result, ok, err, ◌>>=◌, ◌>>◌,
  raise_if, ◌==◌, nat_eq, text_eq, Text, Unicode, is_blank, ℕ, suc, ◌+◌, Bool, true, false, not,
  ◌&&◌, Option, none, some, List, [], ◌∷◌, ◌++◌,
}
use atlas_pay.Payments.Database.{status_eq, EventRow, Database, update}

abbrev pub is_published : EventRow → Bool
is_published e = elim e.published_at [ none ↦ false | some t ↦ true ]

-- `locked_at IS NULL OR locked_at < NOW() - lease`
abbrev pub lease_over : ℕ → ℕ → Option ℕ → Bool
lease_over now lease none = true
lease_over now lease (some t) = ltb (t + lease) now

-- The condition of `claim_batch`.
unfoldable pub is_available : ℕ → ℕ → ℕ → EventRow → Bool
is_available now max_attempts lease e =
    not (is_published e) && ltb e.attempts max_attempts && lease_over now lease e.locked_at

-- `ORDER BY created_at`
unfoldable pub insert_by_time : EventRow → List EventRow → List EventRow
insert_by_time e [] = e ∷ []
insert_by_time e (x ∷ xs) =
    if leb e.created_at x.created_at then e ∷ x ∷ xs else x ∷ insert_by_time e xs

unfoldable pub by_time : List EventRow → List EventRow
unfolding insert_by_time
by_time [] = []
by_time (e ∷ es) = insert_by_time e (by_time es)

abbrev pub has_id : Text → EventRow → Bool
has_id id e = e.id == id

-- `id = ANY(...)`
abbrev pub is_among : List EventRow → EventRow → Bool
is_among claimed e = any (has_id e.id) claimed

abbrev pub lock : ℕ → EventRow → EventRow
lock now e = record e { locked_at = some now }

unfoldable pub select_batch : ℕ → ℕ → ℕ → ℕ → List EventRow → List EventRow
select_batch now batch_size max_attempts lease events =
    take batch_size (by_time (keep (is_available now max_attempts lease) events))

unfoldable pub claim_batch : ℕ → ℕ → ℕ → ℕ → Database → Result (List EventRow × Database)
claim_batch now batch_size max_attempts lease db = do
  raise_if (batch_size == 0) value_error
  raise_if (max_attempts == 0) value_error
  raise_if (lease == 0) value_error
  let claimed = select_batch now batch_size max_attempts lease db.events
  ok (claimed, record db { events = update (is_among claimed) (lock now) db.events })

-- The condition of the updates: the event of this id, not yet published.
abbrev pub is_open : Text → EventRow → Bool
is_open id e = e.id == id && not (is_published e)

unfoldable pub acknowledge : Text → ℕ → Database → Bool × Database
acknowledge id now db = (
  any (is_open id) db.events,
  record db {
    events =
        update (is_open id)
          (λ e. record e {
            published_at = some now;
            attempts = suc e.attempts;
            last_error = none;
            locked_at = none;
          })
          db.events;
  },
)

unfoldable pub record_failure : Text → Text → Database → Bool × Database
record_failure id why db = (
  any (is_open id) db.events,
  record db {
    events =
        update (is_open id)
          (λ e. record e {
            attempts = suc e.attempts;
            last_error = some (take 1000 why);
            locked_at = none;
          })
          db.events;
  },
)

-- A callback: it sees the event, may raise, and keeps a state of its own.
abbrev pub Callback : Type 0 → Type 0
Callback W = EventRow → W → Result (Unit {0}) × W

module _ {W : Type 0} (publish : Callback W) (describe : Error → Text) (clock : Text → ℕ) where
  -- One turn of the loop, given what `publish` did. `describe` stands for `str(exc)`, and `clock` for
  -- the time at which an event is acknowledged.
  unfoldable pub settle_event : EventRow → Result (Unit {0}) → Database → Bool × Database
  settle_event e (ok done) db = acknowledge e.id (clock e.id) db
  settle_event e (err why) db = (false, (record_failure e.id (describe why) db).1)

  -- The loop of `publish_batch`: how many it has published, the database and the callback's state.
  unfoldable pub publish_events : List EventRow → Database → W → ℕ × Database × W
  publish_events [] db w = (0, db, w)
  publish_events (e ∷ events) db w =
      let (answer, w₁) = publish e w in
      let (counted, db₁) = settle_event e answer db in
      let (published, db₂, w₂) = publish_events events db₁ w₁ in
      (if counted then suc published else published, db₂, w₂)

  unfoldable pub publish_batch : ℕ → ℕ → ℕ → ℕ → Database → W → Result (ℕ × Database × W)
  publish_batch now batch_size max_attempts lease db w = do
    (events, claimed) ← claim_batch now batch_size max_attempts lease db
    ok (publish_events events claimed w)

abbrev pub is_consumed : Text → Text → Database → Bool
is_consumed consumer id db = any (λ c. c.0 == consumer && c.1 == id) db.consumed

-- The handler runs inside the transaction: where it raises, the claim is rolled back.
unfoldable pub after_handler :
    Text → EventRow → Database → Result (Unit {0}) → Result Bool × Database
after_handler consumer e db (err why) = (err why, db)
after_handler consumer e db (ok done) =
    (ok true, record db { consumed = db.consumed ++ ((consumer, e.id) ∷ []) })

unfoldable pub consume_once :
    {W : Type 0}
    → Unicode
    → Text
    → EventRow
    → Callback W
    → Database
    → W
    → Result Bool × Database × W
consume_once u consumer e handler db w =
    if is_blank u consumer
    then (err value_error, db, w)
    else if is_consumed consumer e.id db
    then (ok false, db, w)
    else (let (answer, w') = handler e w in
        let (r, db') = after_handler consumer e db answer in (r, db', w'))

-- `PostgresReplayController.reset_outbox_event`
unfoldable pub reset_outbox_event : Unicode → Text → Database → Result (Bool × Database)
reset_outbox_event u id db = do
  raise_if (is_blank u id) value_error
  ok (
    any (is_open id) db.events,
    record db {
      events = update (is_open id) (λ e. record e { attempts = 0; last_error = none }) db.events;
    },
  )
