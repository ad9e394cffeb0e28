-- ===== src/Migrations/Runs.antt =====
-- Lemmas on runs of the migration runner, one after another.
use atlas_pay.Prelude.{
  if◌then◌else◌, all, All, Error, drift_error, Result, err, ok, ◌>>=◌, >>=-eq-ok, Result-cases,
  list_beq_iff, text_eq, ◌==◌, nat_eq, ==_refl, mem, Text, ◌≡◌, refl, ap, ◌∙◌, ◌≢◌, ◌⊎◌, inl, inr,
  false, Option, none, some, List, [], ◌∷◌, ◌++◌, map, arith,
}
use mathlib.Core.List.{append_assoc}
use atlas_pay.Prelude.Dict.{Dict, lookup}
use atlas_pay.Migrations.{Entry, stem, insert_migration, apply_entry, apply_all}
use atlas_pay.Migrations.Rows.{
  or_else, or_else-none, not_same, differs, insert_migration-shape, insert_migration-row, Within,
}

module _ {S : Type 0} (digest : Text → Text) (run : Text → S → Result S) where
  -- The row of the file is there, with its checksum.
  abbrev pub IsRecorded : Dict Text Text → Entry → Type 0
  IsRecorded rows e = lookup (stem e.name) rows ≡ some (digest e.sql)

  nothing_first :
      (m : Result (List Text × S × Dict Text Text))
      → (m >>= λ (applied, final, kept). ok ([] ++ applied, final, kept)) ≡ m
  nothing_first (ok outcome) = refl
  nothing_first (err why) = refl

  -- Files that are recorded are passed over.
  pub apply_all-recorded :
      (recorded : Dict Text Text) (files others : List Entry) (tables : S) (rows : Dict Text Text)
      → All (IsRecorded recorded) files
      → apply_all digest run recorded (files ++ others) tables rows
        ≡ apply_all digest run recorded others tables rows
  unfolding apply_all apply_entry
  apply_all-recorded recorded [] others tables rows h = refl
  apply_all-recorded recorded (e ∷ files) others tables rows h =
      rw
        (
          h.0,
          apply_entry,
          ==_refl (digest e.sql),
          apply_all-recorded recorded files others tables rows h.1,
        )
        (nothing_first (apply_all digest run recorded others tables rows))

  -- A turn that returns: what it found of the recorded rows, and what it did to those of the table.
  apply_entry-rows :
      (e : Entry) (tables t : S) (rows rows' : Dict Text Text) (found : Option Text)
      (first : List Text)
      → apply_entry digest run e tables rows found ≡ ok (first, t, rows')
      → ((found ≡ some (digest e.sql)) × (rows' ≡ rows))
        ⊎ ((found ≡ none) × (insert_migration (stem e.name) (digest e.sql) rows ≡ ok rows'))
  unfolding apply_entry
  apply_entry-rows e tables t rows rows' none first h = ground (arith, h)
  apply_entry-rows e tables t rows rows' (some previous) first h =
      ground (arith, h, list_beq_iff previous (digest e.sql))

  -- A run that returns, taken apart at its first file.
  record FirstTurn (recorded : Dict Text Text) (e : Entry) (files : List Entry) (tables : S)
      (rows : Dict Text Text) (applied : List Text) (final : S) (kept : Dict Text Text)
      : Type 0 where
    first : List Text
    others : List Text
    tables' : S
    rows' : Dict Text Text
    turn :
        apply_entry digest run e tables rows (lookup (stem e.name) recorded)
        ≡ ok (first, tables', rows')
    rest : apply_all digest run recorded files tables' rows' ≡ ok (others, final, kept)
    joined : applied ≡ first ++ others

  first_turn :
      (recorded : Dict Text Text) (e : Entry) (files : List Entry) (tables : S)
      (rows : Dict Text Text) (applied : List Text) (final : S) (kept : Dict Text Text)
      → apply_all digest run recorded (e ∷ files) tables rows ≡ ok (applied, final, kept)
      → FirstTurn recorded e files tables rows applied final kept
  unfolding apply_all
  first_turn recorded e files tables rows applied final kept h =
      let ((first, tables', rows'), turn, after) =
        >>=-eq-ok (apply_entry digest run e tables rows (lookup (stem e.name) recorded)) _ h in
      let ((others, final', kept'), rest, same) =
        >>=-eq-ok (apply_all digest run recorded files tables' rows') _ after in
      record {
        first = first;
        others = others;
        tables' = tables';
        rows' = rows';
        turn = turn;
        rest = rest ∙ ground (arith, same);
        joined = ground (arith, same);
      }

  -- A turn keeps the rows there, and leaves those of other versions alone.
  apply_entry-keeps :
      (e : Entry) (tables t : S) (rows rows' : Dict Text Text) (found : Option Text)
      (first : List Text)
      → apply_entry digest run e tables rows found ≡ ok (first, t, rows')
      → Within rows rows'
  apply_entry-keeps e tables t rows rows' found first h k c there =
      elim (apply_entry-rows e tables t rows rows' found first h) [
        | inl (old, same) ↦ rw same there
        | inr (new, inserted) ↦
            insert_migration-shape (stem e.name) (digest e.sql) rows rows' inserted k
            ∙ ap (λ o. or_else o (if stem e.name == k then some (digest e.sql) else none)) there
      ]

  pub apply_all-keeps :
      (recorded : Dict Text Text) (files : List Entry) (tables : S) (rows : Dict Text Text)
      (applied : List Text) (final : S) (kept : Dict Text Text)
      → apply_all digest run recorded files tables rows ≡ ok (applied, final, kept)
      → Within rows kept
  unfolding apply_all
  apply_all-keeps recorded [] tables rows applied final kept h k c there =
      let same : rows ≡ kept = ground (arith, h) in rw (← same) there
  apply_all-keeps recorded (e ∷ files) tables rows applied final kept h k c there =
      let f = first_turn recorded e files tables rows applied final kept h in
      apply_all-keeps recorded files f.tables' f.rows' f.others final kept f.rest k c (
        apply_entry-keeps e tables f.tables' rows f.rows' (lookup (stem e.name) recorded) f.first
          f.turn k c there)

  apply_entry-IsRecorded :
      (recorded : Dict Text Text) (e : Entry) (tables t : S) (rows rows' : Dict Text Text)
      (first : List Text)
      → apply_entry digest run e tables rows (lookup (stem e.name) recorded) ≡ ok (first, t, rows')
      → Within recorded rows
      → IsRecorded rows' e
  apply_entry-IsRecorded recorded e tables t rows rows' first h w =
      elim (apply_entry-rows e tables t rows rows' (lookup (stem e.name) recorded) first h) [
        | inl (old, same) ↦ rw same (w (stem e.name) (digest e.sql) old)
        | inr (new, inserted) ↦
            insert_migration-row (stem e.name) (digest e.sql) rows rows' inserted
      ]

  -- After a run that returns every file is recorded with its checksum.
  pub apply_all-IsRecorded :
      (recorded : Dict Text Text) (files : List Entry) (tables : S) (rows : Dict Text Text)
      (applied : List Text) (final : S) (kept : Dict Text Text)
      → apply_all digest run recorded files tables rows ≡ ok (applied, final, kept)
      → Within recorded rows
      → All (IsRecorded kept) files
  apply_all-IsRecorded recorded [] tables rows applied final kept h w = tt
  apply_all-IsRecorded recorded (e ∷ files) tables rows applied final kept h w =
      let f = first_turn recorded e files tables rows applied final kept h in
      let longer =
        apply_entry-keeps e tables f.tables' rows f.rows' (lookup (stem e.name) recorded) f.first
          f.turn in
      (
        apply_all-keeps recorded files f.tables' f.rows' f.others final kept f.rest (stem e.name)
            (digest e.sql)
            (apply_entry-IsRecorded recorded e tables f.tables' rows f.rows' f.first f.turn w),
        apply_all-IsRecorded recorded files f.tables' f.rows' f.others final kept f.rest
            (λ k c there. longer k c (w k c there)),
      )

  -- The loop over two lists of files, one after the other.
  pub apply_all-append :
      (recorded : Dict Text Text) (xs ys : List Entry) (tables : S) (rows : Dict Text Text)
      (applied : List Text) (t : S) (rows' : Dict Text Text) (others : List Text) (final : S)
      (kept : Dict Text Text)
      → apply_all digest run recorded xs tables rows ≡ ok (applied, t, rows')
      → apply_all digest run recorded ys t rows' ≡ ok (others, final, kept)
      → apply_all digest run recorded (xs ++ ys) tables rows ≡ ok (applied ++ others, final, kept)
  unfolding apply_all
  apply_all-append recorded [] ys tables rows applied t rows' others final kept h k =
      ground (arith, h, k)
  apply_all-append recorded (e ∷ xs) ys tables rows applied t rows' others final kept h k =
      let f = first_turn recorded e xs tables rows applied t rows' h in
      let rest =
        apply_all-append recorded xs ys f.tables' f.rows' f.others t rows' others final kept f.rest
          k in
      rw (f.turn, rest, f.joined, append_assoc) refl

  -- Only the recorded rows of the files count.
  pub apply_all-congr :
      (d d' : Dict Text Text) (files : List Entry) (tables : S) (rows : Dict Text Text)
      (applied : List Text) (final : S) (kept : Dict Text Text)
      → All (λ e. lookup (stem e.name) d ≡ lookup (stem e.name) d') files
      → apply_all digest run d files tables rows ≡ ok (applied, final, kept)
      → apply_all digest run d' files tables rows ≡ ok (applied, final, kept)
  unfolding apply_all
  apply_all-congr d d' [] tables rows applied final kept h k = k
  apply_all-congr d d' (e ∷ files) tables rows applied final kept h k =
      let f = first_turn d e files tables rows applied final kept k in
      rw
        (
          ← h.0,
          f.turn,
          apply_all-congr d d' files f.tables' f.rows' f.others final kept h.1 f.rest,
          f.joined,
        )
        refl

  -- A version that is not among the files keeps its row, or stays without one.
  pub apply_all-others :
      (recorded : Dict Text Text) (files : List Entry) (tables : S) (rows : Dict Text Text)
      (applied : List Text) (final : S) (kept : Dict Text Text) (k : Text)
      → apply_all digest run recorded files tables rows ≡ ok (applied, final, kept)
      → mem k (map (λ (e : Entry). stem e.name) files) ≡ false
      → lookup k kept ≡ lookup k rows
  unfolding apply_all
  apply_all-others recorded [] tables rows applied final kept k h other = ground (arith, h)
  apply_all-others recorded (e ∷ files) tables rows applied final kept k h other =
      let f = first_turn recorded e files tables rows applied final kept h in
      apply_all-others recorded files f.tables' f.rows' f.others final kept k f.rest
        (ground (arith, other))
      ∙ elim (apply_entry-rows e tables f.tables' rows f.rows' (lookup (stem e.name) recorded)
          f.first f.turn) [
            | inl (old, same) ↦ rw same refl
            | inr (new, inserted) ↦
                insert_migration-shape (stem e.name) (digest e.sql) rows f.rows' inserted k
                ∙ (rw (not_same (stem e.name) k (ground (arith, other)))
                    (or_else-none (lookup k rows)))
          ]

  -- The files of a directory, recorded one deployment earlier, do not disturb those added since.
  pub added_since :
      (recorded kept : Dict Text Text) (files new : List Entry)
      → (keep_others : (k : Text)
          → mem k (map (λ (e : Entry). stem e.name) files) ≡ false
          → lookup k kept ≡ lookup k recorded)
      → All (λ e. mem (stem e.name) (map (λ (x : Entry). stem x.name) files) ≡ false) new
      → All (λ e. lookup (stem e.name) kept ≡ lookup (stem e.name) recorded) new
  added_since recorded kept files [] h k = tt
  added_since recorded kept files (e ∷ new) h k =
      (h (stem e.name) k.0, added_since recorded kept files new h k.1)

  -- A file with another checksum than the recorded one ends the loop, unless one before it does.
  pub apply_all-drift :
      (recorded : Dict Text Text) (xs : List Entry) (e : Entry) (ys : List Entry) (tables : S)
      (rows : Dict Text Text) (previous : Text)
      → lookup (stem e.name) recorded ≡ some previous
      → previous ≢ digest e.sql
      → (why : Error) × (apply_all digest run recorded (xs ++ (e ∷ ys)) tables rows ≡ err why)
        × ((why ≡ drift_error) ⊎ (apply_all digest run recorded xs tables rows ≡ err why))
  unfolding apply_all apply_entry
  apply_all-drift recorded [] e ys tables rows previous there other =
      (drift_error, rw (there, apply_entry, differs previous (digest e.sql) other) refl, inl refl)
  apply_all-drift recorded (x ∷ xs) e ys tables rows previous there other =
      elim (Result-cases (apply_entry digest run x tables rows (lookup (stem x.name) recorded))) [
        | inr (why, raised) ↦ (why, rw raised refl, inr (rw raised refl))
        | inl ((first, t, r), turn) ↦
            let (why, all, cause) = apply_all-drift recorded xs e ys t r previous there other in
            (
              why,
              rw (turn, all) refl,
              elim cause [ inl drift ↦ inl drift | inr before ↦ inr (rw (turn, before) refl) ],
            )
      ]
