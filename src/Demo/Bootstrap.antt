-- ===== src/Demo/Bootstrap.antt =====
-- Lemmas on repeated starts of the hosted demo of app/hosted_demo.py.
use atlas_pay.Prelude.{
  if◌then◌else◌, is_empty, Result, err, ok, ◌>>=◌, Text, Unicode, ℕ, zero, suc, ◌≡◌, refl, sym, ap,
  ◌∙◌, Bool, true, false, List, [], ◌∷◌, arith,
}
use atlas_pay.Migrations.{Entry, Schema, migrate_database}
use atlas_pay.Demo.{Rows, ensure_demo_seeded, seed_after, bootstrap_hosted_demo}
use atlas_pay.Demo.Scenarios.{demo_rows, run_demo-rows}
use atlas_pay.Migrations.Deployments.{migrate-again}

ensure-first : (u : Unicode) → ensure_demo_seeded u [] ≡ (ok true, demo_rows)
unfolding ensure_demo_seeded
ensure-first u = rw (run_demo-rows u []) refl

ensure-later :
    (u : Unicode) (rows : Rows)
    → is_empty rows ≡ false
    → ensure_demo_seeded u rows ≡ (ok false, rows)
unfolding ensure_demo_seeded
ensure-later u [] h = absurd (ground (arith, h))
ensure-later u (r ∷ rows) h = ground arith

-- What one start makes of the rows.
abbrev seeded_rows : Rows → Rows
seeded_rows [] = demo_rows
seeded_rows (r ∷ rows) = r ∷ rows

ensure_lem :
    (u : Unicode) (rows : Rows) → ensure_demo_seeded u rows ≡ (ok (is_empty rows), seeded_rows rows)
ensure_lem u [] = ensure-first u
ensure_lem u (r ∷ rows) = ensure-later u (r ∷ rows) refl

-- Any number of starts, in the order in which they get the lock, with what each reports.
pub starts : Unicode → ℕ → Rows → List (Result Bool) × Rows
starts u zero rows = ([], rows)
starts u (suc n) rows =
    let (answer, rows') = ensure_demo_seeded u rows in
    let (answers, final) = starts u n rows' in (answer ∷ answers, final)

abbrev pub replicate : ℕ → Result Bool → List (Result Bool)
replicate zero r = []
replicate (suc n) r = r ∷ replicate n r

later_starts :
    (u : Unicode) (n : ℕ) (rows : Rows)
    → is_empty rows ≡ false
    → starts u n rows ≡ (replicate n (ok false), rows)
unfolding starts
later_starts u zero rows h = refl
later_starts u (suc n) rows h = rw (ensure-later u rows h, later_starts u n rows h) refl

-- Of any number of starts the first alone seeds, and it does so exactly if there are no observations;
-- then the scenarios' four observations are stored once, and otherwise nothing is.
pub starts-once :
    (u : Unicode) (n : ℕ) (rows : Rows)
    → starts u (suc n) rows
      ≡ (ok (is_empty rows) ∷ replicate n (ok false), if is_empty rows then demo_rows else rows)
unfolding starts
starts-once u n [] = rw (ensure-first u, later_starts u n demo_rows refl) refl
starts-once u n (r ∷ rows) =
    rw (ensure-later u (r ∷ rows) refl, later_starts u n (r ∷ rows) refl) refl

module _ {S : Type 0} (digest : Text → Text) (run : Text → S → Result S) where
  seed_after-ok :
      (u : Unicode) (rows rows' : Rows) (m : Result (List Text) × Schema S) (s' : Schema S)
      (applied : List Text) (seeded : Bool)
      → seed_after digest run u rows m ≡ (ok (applied, seeded), s', rows')
      → (m ≡ (ok applied, s')) × (rows' ≡ seeded_rows rows)
  unfolding seed_after
  seed_after-ok u rows rows' (err e, t) s' applied seeded h = absurd (ground (arith, h))
  seed_after-ok u rows rows' (ok xs, t) s' applied seeded h =
      let h' : (ok (xs, is_empty rows), t, seeded_rows rows) ≡ (ok (applied, seeded), s', rows') =
        (rw (ensure_lem u rows) refl) ∙ h in
      (
        ap (λ (x : Result (List Text × Bool) × Schema S × Rows). (x.0 >>= λ y. ok y.0, x.1)) h',
        ap (λ (x : Result (List Text × Bool) × Schema S × Rows). x.2) (sym h'),
      )

  seeded-full : (rows : Rows) → is_empty (seeded_rows rows) ≡ false
  seeded-full [] = refl
  seeded-full (r ∷ rows) = refl

  -- After a bootstrap that returned there are observations, and another bootstrap with the same scripts
  -- applies nothing, seeds nothing, and leaves the database and the observations as they are.
  pub bootstrap-again :
      (u : Unicode) (directory : List Entry) (s s' : Schema S) (rows rows' : Rows)
      (applied : List Text) (seeded : Bool)
      → bootstrap_hosted_demo digest run u directory s rows ≡ (ok (applied, seeded), s', rows')
      → (is_empty rows' ≡ false)
        × (bootstrap_hosted_demo digest run u directory s' rows' ≡ (ok ([], false), s', rows'))
  unfolding bootstrap_hosted_demo seed_after
  bootstrap-again u directory s s' rows rows' applied seeded h =
      let (migrated, stored) =
        seed_after-ok u rows rows' (migrate_database digest run u directory s) s' applied seeded
          h in
      let full : is_empty rows' ≡ false = ap is_empty stored ∙ seeded-full rows in
      (
        full,
        rw
            (
              migrate-again digest run u directory s s' applied migrated,
              seed_after,
              ensure-later u rows' full,
            )
            refl,
      )
