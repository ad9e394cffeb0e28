-- ===== src/Tests/Upgrades.antt =====
-- The migration runner on directories of two and three scripts. The tables are the list of the scripts
-- that were run, and a script is its own checksum.
use atlas_pay.Prelude.{
  is_empty, Error, drift_error, Result, err, ok, list_beq, text_eq, nat_eq, mem, Text, codes,
  ascii_only, ◌≡◌, refl, ◌≢◌, ◌⊎◌, true, false, none, some, List, [], ◌∷◌, ◌++◌, map, arith,
}
use atlas_pay.Prelude.Dict.{Dict, lookup, contains}
use atlas_pay.Demo.{ensure_demo_seeded, seed_after, bootstrap_hosted_demo}
use atlas_pay.Demo.Scenarios.{demo_rows, run_demo-rows}
use atlas_pay.Demo.Bootstrap.{bootstrap-again}
use atlas_pay.Migrations.{
  Entry, stem, insert_by_name, by_name, migration_files, Schema, insert_migration, apply_entry,
  apply_all, commit, migrate_database,
}
use atlas_pay.Migrations.Deployments.{migrate-extended, migrate-drift}
use atlas_pay.Payments.Reconciliation.{text_leb}

abbrev script : Text → Text → Entry
script name sql = record { name = name; is_file = true; sql = sql }

abbrev own_checksum : Text → Text
own_checksum sql = sql

abbrev append_script : Text → List Text → Result (List Text)
append_script sql tables = ok (tables ++ (sql ∷ []))

abbrev first_two : List Entry
first_two =
    script (codes "002_b.sql") (codes "b")
    ∷ script (codes "README.md") (codes "r")
    ∷ script (codes "001_a.sql") (codes "a")
    ∷ []

abbrev all_three : List Entry
all_three = script (codes "003_c.sql") (codes "c") ∷ first_two

abbrev fresh_schema : Schema (List Text)
fresh_schema = record { tables = []; migrations = none }

abbrev two_rows : Dict Text Text
two_rows = (codes "001_a", codes "a") ∷ (codes "002_b", codes "b") ∷ []

abbrev two_applied : Schema (List Text)
two_applied = record { tables = codes "a" ∷ codes "b" ∷ []; migrations = some two_rows }

abbrev three_applied : Schema (List Text)
three_applied = record {
  tables = codes "a" ∷ codes "b" ∷ codes "c" ∷ [];
  migrations = some (two_rows ++ ((codes "003_c", codes "c") ∷ []));
}

two_run :
    migrate_database own_checksum append_script ascii_only first_two fresh_schema
    ≡ (ok (codes "001_a" ∷ codes "002_b" ∷ []), two_applied)
unfolding migrate_database migration_files by_name insert_by_name text_leb apply_all apply_entry
    insert_migration commit lookup contains list_beq
two_run = refl

three_run :
    migrate_database own_checksum append_script ascii_only all_three two_applied
    ≡ (ok (codes "003_c" ∷ []), three_applied)
unfolding migrate_database migration_files by_name insert_by_name text_leb apply_all apply_entry
    insert_migration commit lookup contains list_beq
three_run = refl

three_files :
    migration_files ascii_only all_three
    ≡ migration_files ascii_only first_two ++ (script (codes "003_c.sql") (codes "c") ∷ [])
unfolding migration_files by_name insert_by_name text_leb list_beq
three_files = refl

third_is_new :
    mem (codes "003_c") (map (λ (x : Entry). stem x.name) (migration_files ascii_only first_two))
    ≡ false
unfolding migration_files by_name insert_by_name text_leb list_beq
third_is_new = refl

migrate-extended_example :
    migrate_database own_checksum append_script ascii_only all_three fresh_schema
    ≡ (ok (codes "001_a" ∷ codes "002_b" ∷ codes "003_c" ∷ []), three_applied)
migrate-extended_example =
    migrate-extended own_checksum append_script ascii_only first_two all_three
      (script (codes "003_c.sql") (codes "c") ∷ []) three_files (third_is_new, tt) fresh_schema
      two_applied three_applied (codes "001_a" ∷ codes "002_b" ∷ []) (codes "003_c" ∷ []) two_run
      three_run

abbrev edited : List Entry
edited = script (codes "001_a.sql") (codes "z") ∷ []

edited_files :
    migration_files ascii_only edited ≡ [] ++ (script (codes "001_a.sql") (codes "z") ∷ [])
unfolding migration_files by_name insert_by_name text_leb list_beq
edited_files = refl

first_row : lookup (codes "001_a") two_rows ≡ some (codes "a")
unfolding lookup list_beq
first_row = refl

changed : codes "a" ≢ codes "z"
changed h = ground (arith, h)

migrate-drift_example :
    (why : Error) × (migrate_database own_checksum append_script ascii_only edited two_applied
      ≡ (err why, two_applied))
    × ((why ≡ drift_error)
        ⊎ (apply_all own_checksum append_script two_rows [] two_applied.tables two_rows ≡ err why))
migrate-drift_example =
    migrate-drift own_checksum append_script ascii_only edited []
      (script (codes "001_a.sql") (codes "z")) [] two_applied (codes "a") edited_files first_row
      changed

first_start :
    bootstrap_hosted_demo own_checksum append_script ascii_only first_two fresh_schema []
    ≡ (ok (codes "001_a" ∷ codes "002_b" ∷ [], true), two_applied, demo_rows)
unfolding bootstrap_hosted_demo seed_after ensure_demo_seeded
first_start = rw (two_run, seed_after, run_demo-rows ascii_only []) refl

bootstrap-again_example :
    (is_empty demo_rows ≡ false)
    × (bootstrap_hosted_demo own_checksum append_script ascii_only first_two two_applied demo_rows
        ≡ (ok ([], false), two_applied, demo_rows))
bootstrap-again_example =
    bootstrap-again own_checksum append_script ascii_only first_two fresh_schema two_applied []
      demo_rows (codes "001_a" ∷ codes "002_b" ∷ []) true first_start
