-- ===== src/Http.antt =====
-- The HTTP API of app/main.py, with the service of app/service.py and the protocol `PaymentRepository` of
-- app/repository.py as an interface. A reply is a status with a body, a status without one, or an
-- exception that no handler catches. `lower_of` stands for what `str.lower` makes of a character above
-- 127; the environment's variables are arguments.
pub mod Authorization
pub mod Repositories
use atlas_pay.Prelude.{
  if◌then◌else◌, is_empty, Error, idempotency_error, type_error, Result, err, ok, raise_if, ◌>>=◌,
  ◌>>◌, text_eq, ◌==◌, nat_eq, Text, codes, is_ascii_char, is_ascii, is_upper_char, Unicode, ℕ, ◌+◌,
  Bool, true, false, not, ◌&&◌, ◌||◌, Option, none, some, [], ◌∷◌, ◌++◌,
}
use atlas_pay.Payments.Database.{status_eq, Payment}
use atlas_pay.Payments.Repository.{CreatePaymentRequest, make_request, used_key}
use atlas_pay.Snapshot.Sections.{OperationalSnapshot}
use atlas_pay.Snapshot.Reader.{default_outbox_max_attempts, read_unavailable}

pub data Reply {ℓ} (A : Type ℓ) : Type ℓ where
  answer : ℕ → A → Reply A
  refuse : ℕ → Reply A
  crash : Error → Reply A

-- `s.partition(" ")`: what stands before the first space, whether there is one, what follows.
unfoldable pub partition_space : Text → Text × Bool × Text
partition_space [] = ([], false, [])
partition_space (c ∷ s) =
    let (before, found, after) = partition_space s in
    if c == 32 then ([], true, s) else (c ∷ before, found, after)

module _ (lower_of : ℕ → Text) where
  abbrev pub lower_char : ℕ → Text
  lower_char c =
      if is_ascii_char c then (if is_upper_char c then (c + 32) ∷ [] else c ∷ []) else lower_of c

  -- `s.lower()`
  unfoldable pub lower : Text → Text
  lower [] = []
  lower (c ∷ s) = lower_char c ++ lower s

-- `secrets.compare_digest` on two texts
unfoldable pub compare_digest : Text → Text → Result Bool
compare_digest a b = do raise_if (not (is_ascii a && is_ascii b)) type_error; ok (a == b)

-- `authorization or ""`
abbrev pub or_blank : Option Text → Text
or_blank none = []
or_blank (some t) = t

unfoldable pub after_compare : Result Bool → Reply (Unit {0})
after_compare (err e) = crash e
after_compare (ok false) = refuse 401
after_compare (ok true) = answer 200 tt

module _ (lower_of : ℕ → Text) where
  unfoldable pub check_credentials : Text → Text × Bool × Text → Reply (Unit {0})
  check_credentials expected (scheme, found, supplied) =
      if not found || not (lower lower_of scheme == codes "bearer") || is_empty supplied
      then refuse 401
      else after_compare (compare_digest supplied expected)

  -- `authorize_operational_request`, given the variable `ATLASPAY_OPS_TOKEN`
  unfoldable pub authorize : Option Text → Option Text → Reply (Unit {0})
  authorize token authorization = elim (used_key token) [
    | none ↦ refuse 503
    | some expected ↦ check_credentials expected (partition_space (or_blank authorization))
  ]

-- A reader at the moment at which it is read; the database may make it raise.
abbrev pub SnapshotReader : Type 0
SnapshotReader = ℕ → Result OperationalSnapshot

abbrev pub unconfigured : Text
unconfigured =
    codes "DATABASE_URL is not configured; durable operational sections cannot be measured"

-- `build_operational_snapshot_reader`, given the variable `DATABASE_URL`
unfoldable pub build_reader : Option Text → (ℕ → SnapshotReader) → SnapshotReader
build_reader url durable = elim (used_key url) [
  | none ↦ λ now. ok (read_unavailable unconfigured now)
  | some dsn ↦ durable default_outbox_max_attempts
]

unfoldable pub after_authorize {ℓ} : {A : Type ℓ} → Reply (Unit {0}) → Result A → Reply A
after_authorize (answer status done) (ok body) = answer 200 body
after_authorize (answer status done) (err e) = crash e
after_authorize (refuse status) read = refuse status
after_authorize (crash e) read = crash e

-- `get_operational_snapshot`
unfoldable pub get_operational_snapshot :
    (ℕ → Text) → Option Text → Option Text → SnapshotReader → ℕ → Reply OperationalSnapshot
get_operational_snapshot lower_of token authorization reader now =
    after_authorize (authorize lower_of token authorization) (reader now)

-- `PaymentRepository`, with the states in S in which it works.
pub record PaymentRepository (S : Type 0) : Type 0 where
  pub create : CreatePaymentRequest → Option Text → Text → ℕ → S → Result (Payment × S)
  pub get : Text → S → Option Payment

module _ {S : Type 0} (u : Unicode) (repository : PaymentRepository S) where
  -- What `create_payment` makes of the service's result; an exception leaves the state as it was.
  unfoldable pub after_create : S → Result (Payment × S) → Reply Payment × S
  after_create s (ok (p, s')) = (answer 201 p, s')
  after_create s (err idempotency_error) = (refuse 409, s)
  after_create s (err e) = (crash e, s)

  -- `create_payment`; a body that the model of the request does not accept is refused before it.
  unfoldable pub create_payment :
      CreatePaymentRequest → Option Text → Text → ℕ → S → Reply Payment × S
  create_payment r key drawn now s = elim (make_request u r) [
    | err e ↦ (refuse 422, s)
    | ok request ↦ after_create s (repository.create request key drawn now s)
  ]

  -- `get_payment`
  unfoldable pub get_payment : Text → S → Reply Payment
  get_payment id s = elim (repository.get id s) [ none ↦ refuse 404 | some p ↦ answer 200 p ]
