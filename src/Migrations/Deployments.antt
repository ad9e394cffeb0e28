-- ===== src/Migrations/Deployments.antt =====
-- Lemmas on whole runs of the migration runner: their commits and rollbacks.
use mathlib.Core.Path.{subst}
use mathlib.Core.List.{append-nil}
use atlas_pay.Prelude.{
  All, Error, drift_error, Result, err, ok, Result-cases, text_eq, nat_eq, mem, Text, Unicode, ◌≡◌,
  refl, sym, ap, ◌≢◌, ◌⊎◌, inl, inr, false, some, List, [], ◌∷◌, ◌++◌, map, arith,
}
use atlas_pay.Prelude.Dict.{Dict, lookup}
use atlas_pay.Migrations.{
  Entry, stem, migration_files, Schema, recorded_rows, apply_all, commit, migrate_database,
}
use atlas_pay.Migrations.Runs.{
  IsRecorded, apply_all-recorded, apply_all-IsRecorded, apply_all-append, apply_all-congr,
  apply_all-others, added_since, apply_all-drift,
}

module _ {S : Type 0} (digest : Text → Text) (run : Text → S → Result S) where
  -- A committed run, in its parts.
  committed :
      (u : Unicode) (directory : List Entry) (s s' : Schema S) (applied : List Text)
      → migrate_database digest run u directory s ≡ (ok applied, s')
      → (kept : Dict Text Text) × (s'.migrations ≡ some kept)
        × (apply_all digest run
              (recorded_rows s.migrations)
              (migration_files u directory)
              s.tables
              (recorded_rows s.migrations)
            ≡ ok (applied, s'.tables, kept))
  unfolding migrate_database commit
  committed u directory s s' applied h =
      elim (Result-cases (
        apply_all digest run (recorded_rows s.migrations) (migration_files u directory) s.tables
          (recorded_rows s.migrations))) [
            | inl ((a, t, r), e) ↦
                let h' = rw (e, commit) at h in
                (r, ap (λ x. x.1.migrations) (sym h'), ground (arith, e, h'))
            | inr (why, e) ↦ absurd (ground (arith, rw (e, commit) at h))
          ]

  committed-again :
      (u : Unicode) (directory : List Entry) (tables : S) (kept : Dict Text Text)
      → All (IsRecorded digest run kept) (migration_files u directory)
      → migrate_database digest run u directory (record { tables = tables; migrations = some kept })
        ≡ (ok [], record { tables = tables; migrations = some kept })
  unfolding migrate_database commit apply_all
  committed-again u directory tables kept h =
      let all = apply_all-recorded digest run kept (migration_files u directory) [] tables kept h in
      rw (rw append-nil at all, commit) refl

  -- After a run that returned, another run of the same directory applies nothing and changes nothing.
  pub migrate-again :
      (u : Unicode) (directory : List Entry) (s s' : Schema S) (applied : List Text)
      → migrate_database digest run u directory s ≡ (ok applied, s')
      → migrate_database digest run u directory s' ≡ (ok [], s')
  migrate-again u directory s s' applied h =
      let (kept, rows, e) = committed u directory s s' applied h in
      let all =
        apply_all-IsRecorded digest run _ (migration_files u directory) s.tables _ applied s'.tables
          kept e (λ k c there. there) in
      let same : record { tables = s'.tables; migrations = some kept } ≡ s' =
        λ i. record { tables = s'.tables; migrations = sym rows i } in
      subst (λ x. migrate_database digest run u directory x ≡ (ok [], x)) same
        (committed-again u directory s'.tables kept all)

  module _ (u : Unicode) (older newer : List Entry) (new : List Entry)
      (extends : migration_files u newer ≡ migration_files u older ++ new)
      (fresh : All
        (λ e.
          mem (stem e.name) (map (λ (x : Entry). stem x.name) (migration_files u older)) ≡ false)
        new)
      (s s₁ s₂ : Schema S) (first second : List Text)
      (ran_first : migrate_database digest run u older s ≡ (ok first, s₁))
      (ran_second : migrate_database digest run u newer s₁ ≡ (ok second, s₂)) where
    -- Two deployments, of a directory and of one with further files behind it, end as one deployment
    -- of the longer directory does: with the same database, and with the same versions applied.
    pub migrate-extended : migrate_database digest run u newer s ≡ (ok (first ++ second), s₂)
    unfolding migrate_database commit
    migrate-extended =
        let files = migration_files u older in
        let rows = recorded_rows s.migrations in
        let (kept, there, e) = committed u older s s₁ first ran_first in
        let (kept', there', e') = committed u newer s₁ s₂ second ran_second in
        let all =
          apply_all-IsRecorded digest run rows files s.tables rows first s₁.tables kept e
            (λ k c at. at) in
        let since =
          added_since digest run rows kept files new
            (λ k. apply_all-others digest run rows files s.tables rows first s₁.tables kept k e)
            fresh in
        let e₁ =
          rw (there, extends, apply_all-recorded digest run kept files new s₁.tables kept all) at
            e' in
        let e₂ =
          apply_all-congr digest run kept rows new s₁.tables kept second s₂.tables kept' since e₁ in
        let e₃ =
          apply_all-append digest run rows files new s.tables rows first s₁.tables kept second
            s₂.tables kept' e e₂ in
        let same : record { tables = s₂.tables; migrations = some kept' } ≡ s₂ =
          λ i. record { tables = s₂.tables; migrations = sym there' i } in
        rw (extends, e₃, commit) (ap (λ (x : Schema S). (ok (first ++ second), x)) same)

  -- A file whose script has another checksum than its recorded version makes the run raise: the drift
  -- error, unless the run of the files before it raises. The database is then as it was.
  pub migrate-drift :
      (u : Unicode) (directory before : List Entry) (e : Entry) (after : List Entry) (s : Schema S)
      (previous : Text)
      → migration_files u directory ≡ before ++ (e ∷ after)
      → lookup (stem e.name) (recorded_rows s.migrations) ≡ some previous
      → previous ≢ digest e.sql
      → (why : Error) × (migrate_database digest run u directory s ≡ (err why, s))
        × ((why ≡ drift_error)
            ⊎ (apply_all digest run
                  (recorded_rows s.migrations)
                  before
                  s.tables
                  (recorded_rows s.migrations)
                ≡ err why))
  unfolding migrate_database commit
  migrate-drift u directory before e after s previous files there other =
      let (why, raised, cause) =
        apply_all-drift digest run (recorded_rows s.migrations) before e after s.tables
          (recorded_rows s.migrations) previous there other in
      (why, rw (files, raised, commit) refl, cause)
