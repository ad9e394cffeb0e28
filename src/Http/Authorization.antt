-- ===== src/Http/Authorization.antt =====
-- Lemmas on who is given the snapshot by app/main.py.
use atlas_pay.Prelude.{
  nat_beq_iff, Bool-cases, all, is_empty, type_error, Result, err, ok, list_beq_iff, text_eq, ◌==◌,
  nat_eq, ==_refl, Text, codes, is_ascii, ℕ, ◌≡◌, refl, ap, ◌∙◌, ◌↔◌, inl, inr, Bool, true, false,
  not, ◌&&◌, Option, none, some, [], ◌∷◌, ◌++◌, arith,
}
use atlas_pay.Http.{
  Reply, answer, refuse, crash, partition_space, lower_char, lower, compare_digest, or_blank,
  after_compare, check_credentials, authorize, SnapshotReader, after_authorize,
  get_operational_snapshot,
}
use atlas_pay.Snapshot.Sections.{OperationalSnapshot}

-- The header carries the token: the scheme `bearer`, in any case of its letters, a space, the token.
pub record Carries (lower_of : ℕ → Text) (header : Option Text) (token : Text) : Type 0 where
  pub scheme : Text
  pub text : or_blank header ≡ scheme ++ (32 ∷ token)
  pub bearer : lower lower_of scheme ≡ codes "bearer"

abbrev is_other : ℕ → Bool
is_other c = not (c == 32)

partition_space-found :
    (s before after : Text) → partition_space s ≡ (before, true, after) → s ≡ before ++ (32 ∷ after)
unfolding partition_space
partition_space-found [] before after h = absurd (ground (arith, h))
partition_space-found (c ∷ s) before after h = elim (Bool-cases (c == 32)) [
  | inl space ↦ ground (arith, space, rw space at h)
  | inr other ↦
      let h' = rw other at h in
      let rest : partition_space s ≡ ((partition_space s).0, true, after) = ground (arith, h') in
      let joined : c ∷ (partition_space s).0 ≡ before = ground (arith, h') in
      rw (← joined) (ap (◌∷◌ c) (partition_space-found s (partition_space s).0 after rest))
]

partition_space-append :
    (before after : Text)
    → all is_other before ≡ true
    → partition_space (before ++ (32 ∷ after)) ≡ (before, true, after)
unfolding partition_space
partition_space-append [] after h = refl
partition_space-append (c ∷ before) after h = ground (arith, h, partition_space-append before after)

all-after : (p : ℕ → Bool) (xs ys : Text) → all p (xs ++ ys) ≡ true → all p ys ≡ true
all-after p [] ys h = h
all-after p (x ∷ xs) ys h = all-after p xs ys (ground (arith, h))

space_lowered : (lower_of : ℕ → Text) (c : ℕ) → (c == 32) ≡ true → lower_char lower_of c ≡ 32 ∷ []
space_lowered lower_of c h = rw ((nat_beq_iff c 32).0 h) refl

-- A lowered text without spaces comes from a text without spaces.
lower-other :
    (lower_of : ℕ → Text) (s : Text)
    → all is_other (lower lower_of s) ≡ true
    → all is_other s ≡ true
unfolding lower
lower-other lower_of [] h = refl
lower-other lower_of (c ∷ s) h = elim (Bool-cases (c == 32)) [
  | inl space ↦ absurd (ground (arith, rw (space_lowered lower_of c space) at h))
  | inr other ↦ ground (
    arith,
    other,
    lower-other lower_of s (all-after is_other (lower_char lower_of c) (lower lower_of s) h),
  )
]

-- What `check_credentials` answers: it accepts, it raises `TypeError`, or it refuses.
module _ (lower_of : ℕ → Text) (expected : Text) (header : Option Text) where
  accepted_if :
      (full : is_empty expected ≡ false)
      → is_ascii expected ≡ true
      → Carries lower_of header expected
      → check_credentials lower_of expected (partition_space (or_blank header)) ≡ answer 200 tt
  unfolding check_credentials compare_digest after_compare
  accepted_if full ascii c =
      let split : partition_space (or_blank header) ≡ (c.scheme, true, expected) =
        ap partition_space c.text
        ∙ partition_space-append c.scheme expected
            (lower-other lower_of c.scheme (rw c.bearer refl)) in
      rw split (rw (c.bearer, ==_refl (codes "bearer"), full, ascii, ==_refl expected) refl)

  accepted_only :
      (m : ℕ) (parts : Text × Bool × Text)
      → partition_space (or_blank header) ≡ parts
      → check_credentials lower_of expected parts ≡ answer m tt
      → (is_empty expected ≡ false) × (is_ascii expected ≡ true) × Carries lower_of header expected
  unfolding check_credentials compare_digest after_compare
  accepted_only m (scheme, false, supplied) split h = absurd (ground (arith, h))
  accepted_only m (scheme, true, supplied) split h =
      let bearer : (lower lower_of scheme == codes "bearer") ≡ true = ground (arith, h) in
      let full : is_empty supplied ≡ false = ground (arith, h) in
      let ascii : is_ascii expected ≡ true = ground (arith, h) in
      let same : (supplied == expected) ≡ true = ground (arith, h) in
      let e : supplied ≡ expected = (list_beq_iff supplied expected).0 same in
      (
        rw e at full,
        ascii,
        record {
          scheme = scheme;
          text =
              partition_space-found (or_blank header) scheme supplied split
              ∙ ap (λ (t : Text). scheme ++ (32 ∷ t)) e;
          bearer = (list_beq_iff (lower lower_of scheme) (codes "bearer")).0 bearer;
        },
      )

-- The request is let through: a token of ASCII characters is configured, and the header carries it.
pub record IsAllowed (lower_of : ℕ → Text) (token header : Option Text) : Type 0 where
  pub expected : Text
  pub configured : token ≡ some expected
  pub full : is_empty expected ≡ false
  pub ascii : is_ascii expected ≡ true
  pub carried : Carries lower_of header expected

IsAllowed-only :
    (lower_of : ℕ → Text) (token header : Option Text) (m : ℕ)
    → authorize lower_of token header ≡ answer m tt
    → IsAllowed lower_of token header
unfolding authorize
IsAllowed-only lower_of none header m h = absurd (ground (arith, h))
IsAllowed-only lower_of (some expected) header m h = elim (Bool-cases (is_empty expected)) [
  | inl empty ↦ absurd (ground (arith, rw (authorize, empty) at h))
  | inr full ↦
      let (full', ascii, carried) =
        accepted_only lower_of expected header m (partition_space (or_blank header)) refl
          (rw (authorize, full) at h) in
      record {
        expected = expected;
        configured = refl;
        full = full';
        ascii = ascii;
        carried = carried;
      }
]

-- A reply that carries a body comes from a request that was let through.
let_through :
    (reply : Reply (Unit {0})) (read : Result OperationalSnapshot) (s : OperationalSnapshot)
    (status : ℕ)
    → after_authorize reply read ≡ answer status s
    → (m : ℕ) × (reply ≡ answer m tt) × (status ≡ 200) × (read ≡ ok s)
unfolding after_authorize
let_through (answer m done) (ok body) s status h = (m, refl, ground (arith, h), ground (arith, h))
let_through (answer m done) (err e) s status h = absurd (ground (arith, h))
let_through (refuse m) read s status h = absurd (ground (arith, h))
let_through (crash e) read s status h = absurd (ground (arith, h))

module _ (lower_of : ℕ → Text) (token header : Option Text) where
  IsAllowed-if : IsAllowed lower_of token header → authorize lower_of token header ≡ answer 200 tt
  unfolding authorize
  IsAllowed-if a =
      rw (a.configured, authorize, a.full)
        (accepted_if lower_of a.expected header a.full a.ascii a.carried)

  -- A snapshot is given exactly where a token of ASCII characters is configured, the request carries it
  -- under the scheme `bearer`, and the reader returns; it is then what the reader read, with the
  -- status 200.
  pub get_operational_snapshot-IsAllowed :
      (reader : SnapshotReader) (now status : ℕ) (s : OperationalSnapshot)
      → (get_operational_snapshot lower_of token header reader now ≡ answer status s)
        ↔ (IsAllowed lower_of token header × (status ≡ 200) × (reader now ≡ ok s))
  unfolding get_operational_snapshot after_authorize
  get_operational_snapshot-IsAllowed reader now status s = (
    λ h.
        let (m, passed, as_200, read) =
          let_through (authorize lower_of token header) (reader now) s status h in
        (IsAllowed-only lower_of token header m passed, as_200, read),
    λ (a, as_200, read). rw (IsAllowed-if a, read, after_authorize) (ground (arith, as_200)),
  )

-- A bearer token with a character above 127, sent or configured, makes the endpoint raise `TypeError`.
pub get_operational_snapshot-non_ascii :
    (lower_of : ℕ → Text) (expected scheme supplied : Text) (reader : SnapshotReader) (now : ℕ)
    → is_empty expected ≡ false
    → lower lower_of scheme ≡ codes "bearer"
    → is_empty supplied ≡ false
    → (is_ascii supplied && is_ascii expected) ≡ false
    → get_operational_snapshot lower_of
        (some expected)
        (some (scheme ++ (32 ∷ supplied)))
        reader
        now
      ≡ crash type_error
unfolding get_operational_snapshot after_authorize authorize check_credentials compare_digest
    after_compare
get_operational_snapshot-non_ascii lower_of expected scheme supplied reader now full bearer sent
      above =
    let split =
      partition_space-append scheme supplied (lower-other lower_of scheme (rw bearer refl)) in
    rw (authorize, full, split, check_credentials, bearer, ==_refl (codes "bearer"), sent, above)
      refl
