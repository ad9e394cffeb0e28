-- ===== src/Snapshot/Grouping.antt =====
-- The `GROUP BY` of the queries of app/operational_snapshot.py, and the `Counter` over the report's kinds.
-- The groups come in the order that the collation gives to their keys.
use mathlib.Core.Option
use atlas_pay.Prelude.{
  if◌then◌else◌, Bool-cases, length, keep, is_empty, Eq, list_beq_iff, text_eq, ◌==◌, nat_eq, Text,
  ℕ, ◌+◌, ◌≡◌, refl, ◌↔◌, inl, inr, Bool, true, false, ◌&&◌, none, some, List, [], ◌∷◌, arith,
}
use atlas_pay.Prelude.Dict.{Dict, lookup, contains, contains-lookup}

module _ {K A : Type 0} ⦃e : Eq K⦄ (collate : K → K → Bool) (key : A → K) where
  -- A group of its own, in its place.
  unfoldable pub insert_group : A → Dict K (List A) → Dict K (List A)
  insert_group a [] = (key a, a ∷ []) ∷ []
  insert_group a ((k, rows) ∷ groups) =
      if collate (key a) k
      then (key a, a ∷ []) ∷ (k, rows) ∷ groups
      else (k, rows) ∷ insert_group a groups

  unfoldable pub extend_group : A → Dict K (List A) → Dict K (List A)
  extend_group a [] = []
  extend_group a ((k, rows) ∷ groups) =
      if k == key a then (k, a ∷ rows) ∷ groups else (k, rows) ∷ extend_group a groups

  unfoldable pub group_by : List A → Dict K (List A)
  group_by [] = []
  group_by (a ∷ rows) =
      let groups = group_by rows in
      if contains (key a) groups then extend_group a groups else insert_group a groups

-- `COUNT(*)` of each group.
unfoldable pub count_rows : {K A : Type 0} → Dict K (List A) → Dict K ℕ
count_rows [] = []
count_rows ((k, rows) ∷ groups) = (k, length rows) ∷ count_rows groups

-- `sum(counts.values())`
unfoldable pub sum_values : {K : Type 0} → Dict K ℕ → ℕ
sum_values [] = 0
sum_values ((k, n) ∷ counts) = n + sum_values counts

-- `COUNT(*) FILTER (WHERE p)`
unfoldable pub count_where : {A : Type 0} → (A → Bool) → List A → ℕ
count_where p rows = length (keep p rows)

-- The keys of a row of three columns.
abbrev pub Triple : Type 0
Triple = Text × Text × Text

pub triple_beq : Triple → Triple → Bool
triple_beq (a, b, c) (x, y, z) = a == x && b == y && c == z

pub triple_beq_iff : (s t : Triple) → (triple_beq s t ≡ true) ↔ (s ≡ t)
unfolding triple_beq
triple_beq_iff (a, b, c) (x, y, z) =
    ground (arith, list_beq_iff a x, list_beq_iff b y, list_beq_iff c z)

instance abbrev pub triple_eq : Eq Triple
triple_eq = record { beq = triple_beq; beq_iff = triple_beq_iff }

module _ {K A : Type 0} ⦃e : Eq K⦄ (collate : K → K → Bool) (key : A → K) where
  insert_group-lookup :
      (a : A) (groups : Dict K (List A)) (k : K)
      → contains (key a) groups ≡ false
      → lookup k (insert_group collate key a groups)
        ≡ (if key a == k then some (a ∷ []) else lookup k groups)
  unfolding insert_group lookup contains
  insert_group-lookup a [] k h = ground arith
  insert_group-lookup a ((j, rows) ∷ groups) k h = elim (Bool-cases (collate (key a) j)) [
    | inl before ↦ rw before refl
    | inr after ↦ rw after (
        ground (
          arith,
          h,
          e.beq_iff j (key a),
          e.beq_iff (key a) k,
          e.beq_iff j k,
          insert_group-lookup a groups k,
        ))
  ]

  extend_group-lookup :
      (a : A) (groups : Dict K (List A)) (k : K)
      → lookup k (extend_group collate key a groups)
        ≡ (if key a == k then Option.map (◌∷◌ a) (lookup k groups) else lookup k groups)
  unfolding extend_group lookup
  extend_group-lookup a [] k = ground arith
  extend_group-lookup a ((j, rows) ∷ groups) k = elim (Bool-cases (j == key a)) [
    | inl same ↦
        rw same (ground (arith, same, e.beq_iff j (key a), e.beq_iff (key a) k, e.beq_iff j k))
    | inr other ↦ rw other (
        ground (
          arith,
          other,
          e.beq_iff j (key a),
          e.beq_iff (key a) k,
          e.beq_iff j k,
          extend_group-lookup a groups k,
        ))
  ]

  -- The group of a key has the rows of that key, in their order, and a key without rows has no group.
  pub group_by-lookup :
      (rows : List A) (k : K)
      → lookup k (group_by collate key rows)
        ≡ (let found = keep (λ a. key a == k) rows in if is_empty found then none else some found)
  unfolding group_by lookup
  group_by-lookup [] k = refl
  group_by-lookup (a ∷ rows) k = elim (Bool-cases (contains (key a) (group_by collate key rows))) [
    | inl old ↦
        rw (old, extend_group-lookup a (group_by collate key rows) k)
          (ground (
            arith,
            old,
            contains-lookup (key a) (group_by collate key rows),
            e.beq_iff (key a) k,
            group_by-lookup rows k,
          ))
    | inr new ↦
        rw (new, insert_group-lookup a (group_by collate key rows) k new)
          (ground (
            arith,
            new,
            contains-lookup (key a) (group_by collate key rows),
            e.beq_iff (key a) k,
            group_by-lookup rows k,
          ))
  ]

-- How many rows of all groups satisfy a test.
unfoldable pub rows_where : {K A : Type 0} → (A → Bool) → Dict K (List A) → ℕ
rows_where p [] = 0
rows_where p ((k, rows) ∷ groups) = count_where p rows + rows_where p groups

module _ {K A : Type 0} ⦃e : Eq K⦄ (collate : K → K → Bool) (key : A → K) (p : A → Bool) where
  insert_group-where :
      (a : A) (groups : Dict K (List A))
      → rows_where p (insert_group collate key a groups)
        ≡ count_where p (a ∷ []) + rows_where p groups
  unfolding insert_group rows_where
  insert_group-where a [] = omega arith
  insert_group-where a ((j, rows) ∷ groups) = elim (Bool-cases (collate (key a) j)) [
    | inl before ↦ rw before refl
    | inr after ↦ rw after (omega (arith, insert_group-where a groups))
  ]

  extend_group-where :
      (a : A) (groups : Dict K (List A))
      → contains (key a) groups ≡ true
      → rows_where p (extend_group collate key a groups)
        ≡ count_where p (a ∷ []) + rows_where p groups
  unfolding extend_group rows_where contains count_where
  extend_group-where a [] h = absurd (ground (arith, h))
  extend_group-where a ((j, rows) ∷ groups) h = elim (Bool-cases (j == key a)) [
    | inl same ↦ rw same (ground arith)
    | inr other ↦ rw other (ground (arith, extend_group-where a groups (ground (arith, h, other))))
  ]

  -- Grouping loses no row and doubles none.
  pub group_by-where :
      (rows : List A) → rows_where p (group_by collate key rows) ≡ count_where p rows
  unfolding group_by rows_where count_where
  group_by-where [] = refl
  group_by-where (a ∷ rows) = elim (Bool-cases (contains (key a) (group_by collate key rows))) [
    | inl old ↦
        rw old (
          ground (arith, extend_group-where a (group_by collate key rows) old, group_by-where rows))
    | inr new ↦
        rw new
          (ground (arith, insert_group-where a (group_by collate key rows), group_by-where rows))
  ]
