-- ===== src/Payments/Outbox/Drain.antt =====
-- Lemmas on repeated rounds of `publish_batch` of app/outbox.py, down to an outbox where no event waits.
use atlas_pay.Prelude.{
  nat_beq, nat_beq_iff, Bool-cases, length, Error, ok, Text, ℕ, zero, suc, ◌≤◌, ◌<◌, ◌≡◌, refl, ap,
  ◌∙◌, inl, inr, true, false, List, [], ◌∷◌, map, arith,
}
use atlas_pay.Payments.Database.{EventRow, Database, update}
use atlas_pay.Payments.Outbox.{
  is_published, is_among, lock, select_batch, claim_batch, Callback, publish_events, publish_batch,
}
use atlas_pay.Payments.Outbox.Waiting.{
  is_waiting, waiting_count, IsFree, IsFree-later, round_row, round-count-le, round-count-lt,
  round-IsFree, select_batch-takes, publish_rounds, IsAscending, RowMap, round-RowMap,
}
use atlas_pay.Payments.Outbox.Progress.{update-map, map-map, Publishes, publish_events-rows}

-- The same events in the same order, of which those that waited are published.
abbrev pub IsDrained : ℕ → List EventRow → List EventRow → Type 0
IsDrained max_attempts [] [] = Unit
IsDrained max_attempts (e ∷ es) (e' ∷ es') =
    ((e'.id ≡ e.id) × (is_waiting max_attempts e ≡ true → is_published e' ≡ true))
    × IsDrained max_attempts es es'
IsDrained max_attempts _ _ = ⊥

IsDrained-rows :
    (max_attempts : ℕ) (f : EventRow → EventRow) (es : List EventRow)
    → RowMap f
    → waiting_count max_attempts (map f es) ≡ 0
    → IsDrained max_attempts es (map f es)
unfolding waiting_count
IsDrained-rows max_attempts f [] r h = tt
IsDrained-rows max_attempts f (e ∷ es) r h = (
  (
    r.same_id e,
    λ w. elim (r.moves e) [ inl p ↦ p | inr same ↦ absurd (ground (arith, h, rw (← same) at w)) ],
  ),
  IsDrained-rows max_attempts f es r (ground (arith, h)),
)

RowMap-compose : (f g : EventRow → EventRow) → RowMap f → RowMap g → RowMap (λ e. g (f e))
RowMap-compose f g r q = record {
  same_id = λ e. q.same_id (f e) ∙ r.same_id e;
  moves = λ e. elim (q.moves (f e)) [
    | inl p ↦ inl p
    | inr same ↦ elim (r.moves e) [ inl p ↦ inl (rw same p) | inr same' ↦ inr (same ∙ same') ]
  ];
}

positive : (n : ℕ) → nat_beq (suc n) 0 ≡ false
positive n = ground arith

map-id : (es : List EventRow) → es ≡ map (λ e. e) es
map-id [] = refl
map-id (e ∷ es) = ap (◌∷◌ e) (map-id es)

module _ {W : Type 0} (publish : Callback W) (describe : Error → Text) (clock : Text → ℕ)
    (publishes : Publishes publish) (n m l : ℕ) where
  -- One round returns, and leaves the rows so.
  record Round (now : ℕ) (db : Database) (w : W) : Type 0 where
    published : ℕ
    db' : Database
    w' : W
    returns :
        publish_batch publish describe clock now (suc n) (suc m) (suc l) db w
        ≡ ok (published, db', w')
    rows :
        db'.events
        ≡ map (round_row clock now (select_batch now (suc n) (suc m) (suc l) db.events)) db.events

  round : (now : ℕ) (db : Database) (w : W) → Round now db w
  unfolding publish_batch claim_batch
  round now db w =
      let batch = select_batch now (suc n) (suc m) (suc l) db.events in
      let claimed : Database = record db {
        events = update (is_among batch) (lock now) db.events;
      } in
      let r = publish_events publish describe clock batch claimed w in
      record {
        published = r.0;
        db' = r.1;
        w' = r.2;
        returns = rw (positive n, positive m, positive l) refl;
        rows =
            publish_events-rows publish describe clock publishes batch claimed w
            ∙ rw (update-map (is_among batch), map-map) refl;
      }

  record Rounds (nows : List ℕ) (db : Database) (w : W) : Type 0 where
    db' : Database
    w' : W
    f : EventRow → EventRow
    row_map : RowMap f
    returns : publish_rounds publish describe clock (suc n) (suc m) (suc l) nows db w ≡ ok (db', w')
    rows : db'.events ≡ map f db.events
    empty : waiting_count (suc m) db'.events ≡ 0

  -- A round has fewer events to publish than the one before, until there are none.
  fewer :
      (now count : ℕ) (es : List EventRow)
      → IsFree now (suc m) (suc l) es
      → waiting_count (suc m) es ≤ suc count
      → waiting_count
          (suc m)
          (map (round_row clock now (select_batch now (suc n) (suc m) (suc l) es)) es)
        ≤ count
  fewer now count es free h = elim (Bool-cases (nat_beq (waiting_count (suc m) es) 0)) [
    | inl none_left ↦ omega (
      arith,
      round-count-le clock now (suc m) (select_batch now (suc n) (suc m) (suc l) es) es,
      (nat_beq_iff _ _).0 none_left,
    )
    | inr some_left ↦ omega (
      arith,
      round-count-lt clock now (suc m) (select_batch now (suc n) (suc m) (suc l) es) es
          (select_batch-takes now n (suc m) (suc l) es free (ground (arith, some_left))),
    )
  ]

  rounds :
      (since : ℕ) (nows : List ℕ) (db : Database) (w : W)
      → IsAscending since nows
      → IsFree since (suc m) (suc l) db.events
      → waiting_count (suc m) db.events ≤ length nows
      → Rounds nows db w
  unfolding publish_rounds
  rounds since [] db w ascending free h = record {
    db' = db;
    w' = w;
    f = λ e. e;
    row_map = record { same_id = λ e. refl; moves = λ e. inr refl };
    returns = refl;
    rows = map-id db.events;
    empty = omega arith;
  }
  rounds since (now ∷ nows) db w ascending free h =
      let batch = select_batch now (suc n) (suc m) (suc l) db.events in
      let r = round now db w in
      let free' = IsFree-later since now (suc m) (suc l) db.events ascending.0 free in
      let s =
        rounds now nows r.db' r.w' ascending.1
          (rw r.rows (round-IsFree clock now (suc m) batch (suc l) db.events free'))
          (rw r.rows (fewer now (length nows) db.events free' h)) in
      record {
        db' = s.db';
        w' = s.w';
        f = λ e. s.f (round_row clock now batch e);
        row_map =
            RowMap-compose (round_row clock now batch) s.f (round-RowMap clock now batch) s.row_map;
        returns = rw r.returns s.returns;
        rows = rw r.rows at s.rows ∙ map-map (round_row clock now batch) s.f db.events;
        empty = s.empty;
      }

-- With a callback that never raises, and no waiting event under a running lease at first, as many
-- rounds as there are waiting events, at times that never go back, all return, and every event that
-- had attempts left and was not published is published then; every event keeps its id and its place.
pub publish_rounds-IsDrained :
    {W : Type 0} (publish : Callback W) (describe : Error → Text) (clock : Text → ℕ)
    (batch_size max_attempts lease since : ℕ) (nows : List ℕ) (db : Database) (w : W)
    → Publishes publish
    → 0 < batch_size
    → 0 < max_attempts
    → 0 < lease
    → IsAscending since nows
    → IsFree since max_attempts lease db.events
    → waiting_count max_attempts db.events ≤ length nows
    → (db' : Database) × (w' : W) × (publish_rounds publish describe clock batch_size max_attempts
          lease nows db w
        ≡ ok (db', w'))
      × IsDrained max_attempts db.events db'.events
publish_rounds-IsDrained publish describe clock (suc n) (suc m) (suc l) since nows db w always b a t
      ascending free enough =
    let s = rounds publish describe clock always n m l since nows db w ascending free enough in
    (
      s.db',
      s.w',
      s.returns,
      rw s.rows (IsDrained-rows (suc m) s.f db.events s.row_map (rw s.rows at s.empty)),
    )
publish_rounds-IsDrained publish describe clock zero m l since nows db w always b a t ascending free
      enough =
    absurd (omega arith)
publish_rounds-IsDrained publish describe clock (suc n) zero l since nows db w always b a t
      ascending free enough =
    absurd (omega arith)
publish_rounds-IsDrained publish describe clock (suc n) (suc m) zero since nows db w always b a t
      ascending free enough =
    absurd (omega arith)
