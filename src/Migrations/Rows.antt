-- ===== src/Migrations/Rows.antt =====
-- Lemmas on the table of applied migrations, for app/migrations.py.
use atlas_pay.Prelude.{
  if◌then◌else◌, Bool-cases, ok, list_beq_iff, text_eq, ◌==◌, nat_eq, ==_refl, Text, ◌≡◌, refl, ◌∙◌,
  ◌≢◌, inl, inr, false, Option, none, some, [], ◌∷◌, ◌++◌, arith,
}
use atlas_pay.Prelude.Dict.{Dict, lookup, contains-lookup}
use atlas_pay.Migrations.{insert_migration}

-- `o`, or `p` where there is none.
abbrev pub or_else : Option Text → Option Text → Option Text
or_else none p = p
or_else (some v) p = some v

pub or_else-none : (o : Option Text) → or_else o none ≡ o
or_else-none none = refl
or_else-none (some v) = refl

pub not_same : (a b : Text) → (b == a) ≡ false → (a == b) ≡ false
not_same a b h = ground (arith, h, list_beq_iff a b, list_beq_iff b a)

pub differs : (a b : Text) → a ≢ b → (a == b) ≡ false
differs a b h = elim (Bool-cases (a == b)) [
  | inl same ↦ absurd (h ((list_beq_iff a b).0 same))
  | inr other ↦ other
]

pub lookup-append :
    (k : Text) (d d' : Dict Text Text) → lookup k (d ++ d') ≡ or_else (lookup k d) (lookup k d')
unfolding lookup
lookup-append k [] d' = refl
lookup-append k ((j, v) ∷ d) d' = ground (arith, lookup-append k d d')

pub insert_migration-shape :
    (version checksum : Text) (rows rows' : Dict Text Text)
    → insert_migration version checksum rows ≡ ok rows'
    → (k : Text)
    → lookup k rows' ≡ or_else (lookup k rows) (if version == k then some checksum else none)
unfolding insert_migration lookup
insert_migration-shape version checksum rows rows' h k =
    let shape : rows' ≡ rows ++ ((version, checksum) ∷ []) = ground (arith, h) in
    rw shape (lookup-append k rows ((version, checksum) ∷ []))

pub insert_migration-row :
    (version checksum : Text) (rows rows' : Dict Text Text)
    → insert_migration version checksum rows ≡ ok rows'
    → lookup version rows' ≡ some checksum
unfolding insert_migration
insert_migration-row version checksum rows rows' h =
    insert_migration-shape version checksum rows rows' h version
    ∙ ground (arith, h, contains-lookup version rows, ==_refl version)

-- Every row of the first is a row of the second.
abbrev pub Within : Dict Text Text → Dict Text Text → Type 0
Within d d' = (k c : Text) → lookup k d ≡ some c → lookup k d' ≡ some c
