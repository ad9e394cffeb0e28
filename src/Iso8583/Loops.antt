-- ===== src/Iso8583/Loops.antt =====
-- Lemmas on the field loops of `encode` and `decode`, for app/iso8583.py.
use mathlib.Core.List.{append_assoc, append-nil}
use mathlib.Core.Option.{get_or}
use mathlib.Core.Bool.{false≢true}
use atlas_pay.Prelude.{
  if◌then◌else◌, nat_beq_iff, Bool-cases, Option-cases, length, All, length-append, ok,
  Result-cases, text_eq, ◌==◌, nat_eq, mem, Bytes, ℕ, ◌≡◌, refl, ap, inl, inr, true, ◌||◌, none,
  some, List, [], ◌∷◌, ◌++◌, arith,
}
use atlas_pay.Prelude.Dict.{Dict, keys, is_some, lookup}
use atlas_pay.Prelude.Sorting.{insert_sorted, sorted, in_range}
use atlas_pay.Iso8583.Spec.{FieldValue, str_value, FieldSpec}
use atlas_pay.Iso8583.BitmapLaws.{are_field_numbers}
use atlas_pay.Iso8583.Field.{encode_field}
use atlas_pay.Iso8583.FieldLaws.{IsValidSpec, decode_field-encode_field}
use atlas_pay.Iso8583.Codec.{encode_fields, join_fields, decode_fields}

-- Every spec of the profile passes `__post_init__`.
abbrev pub IsValidProfile : Dict ℕ FieldSpec → Type 0
IsValidProfile = All (λ e. IsValidSpec e.1)

lookup-IsValidSpec :
    (specs : Dict ℕ FieldSpec) (n : ℕ) (s : FieldSpec)
    → IsValidProfile specs
    → lookup n specs ≡ some s
    → IsValidSpec s
unfolding lookup
lookup-IsValidSpec [] n s v h = cc
lookup-IsValidSpec ((k, t) ∷ specs) n s v h = elim (Bool-cases (k == n)) [
  | inl e ↦ rw (ap (λ o. get_or o t) (rw (e, lookup) at h)) at v.0
  | inr e ↦ lookup-IsValidSpec specs n s v.1 (rw (e, lookup) at h)
]

-- What the loop of `encode` establishes for a field number.
pub record Encoded (specs : Dict ℕ FieldSpec) (fields : Dict ℕ FieldValue) (d : Dict ℕ Bytes)
    (n : ℕ) : Type 0 where
  s : FieldSpec
  value : FieldValue
  raw : Bytes
  spec_at : lookup n specs ≡ some s
  value_at : lookup n fields ≡ some value
  raw_at : lookup n d ≡ some raw
  encoded : encode_field s value ≡ ok raw

-- One round of the loop, taken apart.
record Round (specs : Dict ℕ FieldSpec) (k : ℕ) (v : FieldValue) (fields : Dict ℕ FieldValue)
    (d : Dict ℕ Bytes) : Type 0 where
  s : FieldSpec
  raw : Bytes
  rest : Dict ℕ Bytes
  number_ok : in_range 2 128 k ≡ true
  spec_at : lookup k specs ≡ some s
  encoded : encode_field s v ≡ ok raw
  rest_ok : encode_fields specs fields ≡ ok rest
  split : d ≡ (k, raw) ∷ rest

encode_fields-Round :
    (specs : Dict ℕ FieldSpec) (k : ℕ) (v : FieldValue) (fields : Dict ℕ FieldValue)
    (d : Dict ℕ Bytes)
    → encode_fields specs ((k, v) ∷ fields) ≡ ok d
    → Round specs k v fields d
unfolding encode_fields
encode_fields-Round specs k v fields d h = elim (Option-cases (lookup k specs)) [
  | inl e ↦ absurd (ground (arith, e))
  | inr (s, es) ↦ elim (Result-cases (encode_field s v)) [
    | inr (x, e) ↦ absurd (ground (arith, es, e))
    | inl (raw, er) ↦ elim (Result-cases (encode_fields specs fields)) [
      | inr (x, e) ↦ absurd (ground (arith, es, er, e))
      | inl (rest, ef) ↦ record {
        s = s;
        raw = raw;
        rest = rest;
        number_ok = ground (arith, es, er, ef);
        spec_at = es;
        encoded = er;
        rest_ok = ef;
        split = ground (arith, es, er, ef);
      }
    ]
  ]
]

pub keys-encode_fields :
    (specs : Dict ℕ FieldSpec) (fields : Dict ℕ FieldValue) (d : Dict ℕ Bytes)
    → encode_fields specs fields ≡ ok d
    → (keys d ≡ keys fields) × (are_field_numbers (keys fields) ≡ true)
unfolding encode_fields
keys-encode_fields specs [] d h = ground arith
keys-encode_fields specs ((k, v) ∷ fields) d h =
    let r = encode_fields-Round specs k v fields d h in
    ground (arith, r.split, r.number_ok, keys-encode_fields specs fields r.rest r.rest_ok)

pub encode_fields-Encoded :
    (specs : Dict ℕ FieldSpec) (fields : Dict ℕ FieldValue) (d : Dict ℕ Bytes) (n : ℕ)
    → encode_fields specs fields ≡ ok d
    → mem n (keys fields) ≡ true
    → Encoded specs fields d n
unfolding lookup
encode_fields-Encoded specs [] d n h m = absurd (false≢true m)
encode_fields-Encoded specs ((k, v) ∷ fields) d n h m =
    let r = encode_fields-Round specs k v fields d h in
    elim (Bool-cases (k == n)) [
      | inl e ↦ record {
        s = r.s;
        value = v;
        raw = r.raw;
        spec_at = rw (← (nat_beq_iff k n).0 e) r.spec_at;
        value_at = ground (arith, e);
        raw_at = ground (arith, e, r.split);
        encoded = r.encoded;
      }
      | inr e ↦
          let t = encode_fields-Encoded specs fields r.rest n r.rest_ok (ground (arith, e)) in
          record {
            s = t.s;
            value = t.value;
            raw = t.raw;
            spec_at = t.spec_at;
            value_at = ground (arith, e, t.value_at);
            raw_at = ground (arith, e, r.split, t.raw_at);
            encoded = t.encoded;
          }
    ]

-- The fields of the listed numbers, in the order of the list.
pub pick : Dict ℕ FieldValue → List ℕ → Dict ℕ FieldValue
pick fields [] = []
pick fields (n ∷ ns) = (n, get_or (lookup n fields) (str_value [])) ∷ pick fields ns

pub lookup-pick :
    (fields : Dict ℕ FieldValue) (n : ℕ) (ns : List ℕ)
    → ((j : ℕ) → mem j ns ≡ true → is_some (lookup j fields) ≡ true)
    → lookup n (pick fields ns) ≡ (if mem n ns then lookup n fields else none)
unfolding lookup pick
lookup-pick fields n [] h = refl
lookup-pick fields n (m ∷ ns) h = ground (
  arith,
  h m (ground (arith, nat_beq_iff m m)),
  lookup-pick fields n ns (λ j u. h j (ground arith)),
)

pub decode_fields-join :
    (specs : Dict ℕ FieldSpec) (fields : Dict ℕ FieldValue) (d : Dict ℕ Bytes) (pre : Bytes)
    (ns : List ℕ)
    → IsValidProfile specs
    → ((n : ℕ) → mem n ns ≡ true → Encoded specs fields d n)
    → decode_fields specs (pre ++ join_fields d ns) (length pre) ns
      ≡ ok (pick fields ns, length (pre ++ join_fields d ns))
unfolding decode_fields join_fields pick
decode_fields-join specs fields d pre [] valid h = rw append-nil refl
decode_fields-join specs fields d pre (n ∷ ns) valid h =
    let t = h n (ground (arith, nat_beq_iff n n)) in
    let ih =
      decode_fields-join specs fields d (pre ++ t.raw) ns valid (λ j m. h j (ground arith)) in
    let here =
      decode_field-encode_field t.s t.value t.raw pre (join_fields d ns)
        (lookup-IsValidSpec specs n t.s valid t.spec_at) t.encoded in
    ground (
      arith,
      t.spec_at,
      t.value_at,
      t.raw_at,
      here,
      rw (append_assoc pre t.raw (join_fields d ns), length-append pre t.raw) at ih,
    )

mem-insert_sorted : (n k : ℕ) (xs : List ℕ) → mem n (insert_sorted k xs) ≡ (n == k || mem n xs)
unfolding insert_sorted
mem-insert_sorted n k [] = refl
mem-insert_sorted n k (x ∷ xs) = ground (arith, mem-insert_sorted n k xs)

pub mem-sorted : (n : ℕ) (xs : List ℕ) → mem n (sorted xs) ≡ mem n xs
unfolding sorted
mem-sorted n [] = refl
mem-sorted n (x ∷ xs) = ground (arith, mem-insert_sorted n x (sorted xs), mem-sorted n xs)

pub mem-keys :
    (n : ℕ) (fields : Dict ℕ FieldValue) → mem n (keys fields) ≡ is_some (lookup n fields)
unfolding lookup
mem-keys n [] = refl
mem-keys n ((k, v) ∷ fields) = ground (arith, mem-keys n fields)
