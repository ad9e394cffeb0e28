-- ===== src/Payments/Outbox/Progress.antt =====
-- Lemmas on what a round of `publish_batch` of app/outbox.py does to the rows, where the callback publishes.
use atlas_pay.Prelude.{
  if◌then◌else◌, Bool-cases, Error, ok, list_beq_iff, text_eq, ◌==◌, nat_eq, Text, ℕ, suc, ◌≡◌,
  refl, ap, inl, inr, Bool, true, false, none, some, List, [], ◌∷◌, map, arith,
}
use atlas_pay.Payments.Database.{status_eq, EventRow, Database, update}
use atlas_pay.Payments.Outbox.{
  is_published, is_among, is_open, acknowledge, Callback, settle_event, publish_events,
}

-- What `acknowledge` makes of one row.
abbrev pub settle_row : (Text → ℕ) → Text → EventRow → EventRow
settle_row clock id e =
    if is_open id e
    then record e {
      published_at = some (clock id);
      attempts = suc e.attempts;
      last_error = none;
      locked_at = none;
    }
    else e

-- The same for the claimed events in turn.
unfoldable pub settle_rows : (Text → ℕ) → List EventRow → EventRow → EventRow
settle_rows clock [] e = e
settle_rows clock (c ∷ claimed) e = settle_rows clock claimed (settle_row clock c.id e)

settle_row-published :
    (clock : Text → ℕ) (id : Text) (e : EventRow)
    → is_published e ≡ true
    → is_published (settle_row clock id e) ≡ true
settle_row-published clock id e h = ground (arith, h)

pub settle_rows-published :
    (clock : Text → ℕ) (claimed : List EventRow) (e : EventRow)
    → is_published e ≡ true
    → is_published (settle_rows clock claimed e) ≡ true
unfolding settle_rows
settle_rows-published clock [] e h = h
settle_rows-published clock (c ∷ claimed) e h =
    settle_rows-published clock claimed (settle_row clock c.id e)
      (settle_row-published clock c.id e h)

pub settle_row-id :
    (clock : Text → ℕ) (id : Text) (e : EventRow) → (settle_row clock id e).id ≡ e.id
settle_row-id clock id e = ground arith

-- A row of a claimed id is published in the end, and any other row stays.
pub settle_rows-among :
    (clock : Text → ℕ) (claimed : List EventRow) (e : EventRow)
    → is_among claimed e ≡ true
    → is_published (settle_rows clock claimed e) ≡ true
unfolding settle_rows
settle_rows-among clock [] e h = absurd (ground (arith, h))
settle_rows-among clock (c ∷ claimed) e h = elim (Bool-cases (c.id == e.id)) [
  | inl same ↦
      settle_rows-published clock claimed (settle_row clock c.id e)
        (ground (arith, same, list_beq_iff c.id e.id, list_beq_iff e.id c.id))
  | inr other ↦
      settle_rows-among clock claimed (settle_row clock c.id e)
        (rw (settle_row-id clock c.id e) (ground (arith, other, h)))
]

pub settle_rows-others :
    (clock : Text → ℕ) (claimed : List EventRow) (e : EventRow)
    → is_among claimed e ≡ false
    → settle_rows clock claimed e ≡ e
unfolding settle_rows
settle_rows-others clock [] e h = refl
settle_rows-others clock (c ∷ claimed) e h =
    let same : settle_row clock c.id e ≡ e =
      ground (arith, h, list_beq_iff c.id e.id, list_beq_iff e.id c.id) in
    rw same (settle_rows-others clock claimed e (ground (arith, h)))

pub update-map :
    (p : EventRow → Bool) (f : EventRow → EventRow) (es : List EventRow)
    → update p f es ≡ map (λ e. if p e then f e else e) es
unfolding update
update-map p f [] = refl
update-map p f (e ∷ es) = rw (update-map p f es) refl

pub map-map :
    (f g : EventRow → EventRow) (es : List EventRow) → map g (map f es) ≡ map (λ e. g (f e)) es
map-map f g [] = refl
map-map f g (e ∷ es) = rw (map-map f g es) refl

-- A callback that never raises.
abbrev pub Publishes : {W : Type 0} → Callback W → Type 0
Publishes {W} publish = (e : EventRow) (w : W) → (publish e w).0 ≡ ok tt

module _ {W : Type 0} (publish : Callback W) (describe : Error → Text) (clock : Text → ℕ)
    (publishes : Publishes publish) where
  pub publish_events-rows :
      (claimed : List EventRow) (db : Database) (w : W)
      → (publish_events publish describe clock claimed db w).1.events
        ≡ map (settle_rows clock claimed) db.events
  unfolding publish_events settle_event settle_rows acknowledge
  publish_events-rows [] db w = map-same db.events
    where
      map-same : (es : List EventRow) → es ≡ map (settle_rows clock []) es
      map-same [] = refl
      map-same (e ∷ es) = ap (◌∷◌ e) (map-same es)
  publish_events-rows (c ∷ claimed) db w =
      rw
        (
          publishes c w,
          publish_events-rows claimed (acknowledge c.id (clock c.id) db).1 (publish c w).1,
          update-map (is_open c.id),
          map-map,
        )
        refl
