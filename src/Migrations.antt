-- ===== src/Migrations.antt =====
-- The migration runner of app/migrations.py. A directory is the list of its entries; `digest` stands
-- for the SHA-256 of a script as 64 hexadecimal digits, and `run` for what the server makes of one
-- script, on the tables of the schema or as an error. The advisory lock makes a run one step, and a
-- run that raises is rolled back. No script writes to `schema_migrations` itself.
pub mod Rows
pub mod Runs
pub mod Deployments
use atlas_pay.Prelude.{
  Error, Result, ok, err, ◌>>=◌, ◌>>◌, raise_if, drift_error, integrity_error, if◌then◌else◌, all,
  is_empty, keep, length, take, drop, leb, list_beq, ◌==◌, text_eq, Text, codes, Unicode, is_digit,
  ℕ, ◌-◌, Bool, not, ◌&&◌, Option, none, some, List, [], ◌∷◌, ◌++◌,
}
use atlas_pay.Prelude.Dict.{Dict, lookup, contains}
use atlas_pay.Payments.Reconciliation.{text_leb}

-- An entry of the directory, with the text that `read_text` gives.
pub record Entry : Type 0 where
  pub name : Text
  pub is_file : Bool
  pub sql : Text

-- The pattern `*.sql`.
abbrev pub has_sql_suffix : Text → Bool
has_sql_suffix name = leb 4 (length name) && drop (length name - 4) name == codes ".sql"

-- `path.name[:3].isdigit()`
abbrev pub is_numbered : Unicode → Text → Bool
is_numbered u name = not (is_empty (take 3 name)) && all (is_digit u) (take 3 name)

-- `path.stem` of a name with that suffix
abbrev pub stem : Text → Text
stem name = take (length name - 4) name

unfoldable pub insert_by_name : Entry → List Entry → List Entry
insert_by_name e [] = e ∷ []
insert_by_name e (x ∷ xs) = if text_leb e.name x.name then e ∷ x ∷ xs else x ∷ insert_by_name e xs

unfoldable pub by_name : List Entry → List Entry
unfolding insert_by_name
by_name [] = []
by_name (e ∷ es) = insert_by_name e (by_name es)

unfoldable pub migration_files : Unicode → List Entry → List Entry
migration_files u directory =
    by_name (keep (λ e. has_sql_suffix e.name && e.is_file && is_numbered u e.name) directory)

-- The tables of the schema, and the rows of `schema_migrations` once it exists.
pub record Schema (S : Type 0) : Type 0 where
  pub tables : S
  pub migrations : Option (Dict Text Text)

-- `CREATE TABLE IF NOT EXISTS`, and the rows then.
abbrev pub recorded_rows : Option (Dict Text Text) → Dict Text Text
recorded_rows none = []
recorded_rows (some rows) = rows

-- `INSERT INTO schema_migrations`, whose primary key is the version.
unfoldable pub insert_migration : Text → Text → Dict Text Text → Result (Dict Text Text)
insert_migration version checksum rows = do
  raise_if (contains version rows) integrity_error
  ok (rows ++ ((version, checksum) ∷ []))

module _ {S : Type 0} (digest : Text → Text) (run : Text → S → Result S) where
  -- The body of the loop, given the recorded checksum: what it adds to `applied`, and what it leaves.
  unfoldable pub apply_entry :
      Entry → S → Dict Text Text → Option Text → Result (List Text × S × Dict Text Text)
  apply_entry e tables rows (some previous) = do
    raise_if (not (previous == digest e.sql)) drift_error
    ok ([], tables, rows)
  apply_entry e tables rows none = do
    tables' ← run e.sql tables
    rows' ← insert_migration (stem e.name) (digest e.sql) rows
    ok (stem e.name ∷ [], tables', rows')

  -- The loop over the files: `recorded` is what was read before it, `rows` what the table holds now.
  unfoldable pub apply_all :
      Dict Text Text → List Entry → S → Dict Text Text → Result (List Text × S × Dict Text Text)
  apply_all recorded [] tables rows = ok ([], tables, rows)
  apply_all recorded (e ∷ files) tables rows = do
    (first, tables', rows') ← apply_entry e tables rows (lookup (stem e.name) recorded)
    (applied, final, kept) ← apply_all recorded files tables' rows'
    ok (first ++ applied, final, kept)

  -- The end of the transaction: it is committed, or rolled back.
  unfoldable pub commit :
      Schema S → Result (List Text × S × Dict Text Text) → Result (List Text) × Schema S
  commit s (err e) = (err e, s)
  commit s (ok (applied, tables, rows)) =
      (ok applied, record { tables = tables; migrations = some rows })

  unfoldable pub migrate_database : Unicode → List Entry → Schema S → Result (List Text) × Schema S
  migrate_database u directory s =
      let rows = recorded_rows s.migrations in
      commit s (apply_all rows (migration_files u directory) s.tables rows)
