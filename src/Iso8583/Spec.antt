-- ===== src/Iso8583/Spec.antt =====
-- `FieldSpec`, the default profile, and the message type of app/iso8583.py. Numbers and lengths are
-- natural numbers: a negative one fails the same guards as zero does. `description` is not modelled.
use atlas_pay.Prelude.{
  ltb, leb, value_error, Result, ok, ◌>>=◌, ◌>>◌, raise_if, ◌==◌, nat_eq, text_eq, Text, Bytes, ℕ,
  not, ◌&&◌, [], ◌∷◌,
}
use atlas_pay.Prelude.Dict.{Dict}

pub data DataType : Type 0 where
  numeric ans binary : DataType

pub data LengthType : Type 0 where
  fixed llvar lllvar : LengthType

pub data FieldValue : Type 0 where
  str_value : Text → FieldValue
  bytes_value : Bytes → FieldValue

pub record FieldSpec : Type 0 where
  pub number : ℕ
  pub data_type : DataType
  pub length_type : LengthType
  pub max_length : ℕ
  pub min_length : ℕ

-- The guards of `__post_init__` that depend on the kind of length.
unfoldable pub check_length_type : LengthType → FieldSpec → Result (Unit {0})
check_length_type fixed s = raise_if (not (s.min_length == 0)) value_error
check_length_type llvar s = raise_if (ltb 99 s.max_length) value_error
check_length_type lllvar s = raise_if (ltb 999 s.max_length) value_error

-- `FieldSpec(...)`, with `__post_init__`
unfoldable pub make_spec : FieldSpec → Result FieldSpec
unfolding check_length_type
make_spec s = do
  raise_if (not (leb 2 s.number && leb s.number 128)) value_error
  raise_if (s.max_length == 0) value_error
  raise_if (ltb s.max_length s.min_length) value_error
  check_length_type s.length_type s
  ok s

unfoldable pub length_prefix_width : LengthType → ℕ
length_prefix_width fixed = 0
length_prefix_width llvar = 2
length_prefix_width lllvar = 3

abbrev spec : ℕ → DataType → LengthType → ℕ → ℕ → ℕ × FieldSpec
spec k t l most least = (
  k,
  record { number = k; data_type = t; length_type = l; max_length = most; min_length = least },
)

abbrev pub default_field_specs : Dict ℕ FieldSpec
default_field_specs =
    spec 2 numeric llvar 19 1
    ∷ spec 3 numeric fixed 6 0
    ∷ spec 4 numeric fixed 12 0
    ∷ spec 7 numeric fixed 10 0
    ∷ spec 11 numeric fixed 6 0
    ∷ spec 12 numeric fixed 6 0
    ∷ spec 13 numeric fixed 4 0
    ∷ spec 37 ans fixed 12 0
    ∷ spec 38 ans fixed 6 0
    ∷ spec 39 ans fixed 2 0
    ∷ spec 41 ans fixed 8 0
    ∷ spec 42 ans fixed 15 0
    ∷ spec 49 numeric fixed 3 0
    ∷ spec 52 binary fixed 8 0
    ∷ spec 55 binary lllvar 999 1
    ∷ spec 70 numeric fixed 3 0
    ∷ []

pub record Iso8583Message : Type 0 where
  pub mti : Text
  pub fields : Dict ℕ FieldValue

-- `ISO8583Codec.__init__`: the codec keeps the profile, whose keys must be the numbers of its specs.
unfoldable pub make_codec : Dict ℕ FieldSpec → Result (Dict ℕ FieldSpec)
make_codec [] = ok []
make_codec ((k, s) ∷ d) = do
  raise_if (not (k == s.number)) value_error
  rest ← make_codec d
  ok ((k, s) ∷ rest)
