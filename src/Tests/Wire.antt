-- ===== src/Tests/Wire.antt =====
-- The codec, the adapter and the transport on one purchase.
use atlas_pay.Prelude.{
  value_error, codec_error, Result, err, ok, ◌>>=◌, list_beq, text_eq, nat_eq, Bytes, codes,
  is_ascii_digits, is_blank, ascii_only, ℕ, ◌≡◌, refl, true, some, [], ◌∷◌, ◌++◌,
}
use atlas_pay.Prelude.Dict.{is_some, lookup}
use atlas_pay.Prelude.Bits.{set_bit, to_bytes}
use atlas_pay.Prelude.Decimal.{digits_of, format_padded}
use atlas_pay.Prelude.Sorting.{insert_sorted, sorted}
use atlas_pay.Prelude.Int.{pos}
use atlas_pay.Canonical.{
  correlation_eq, AuthorizationRequest, is_stan, is_rrn, make_correlation, is_pan, make_instrument,
  is_currency, make_authorization, IsCanonical,
}
use atlas_pay.Iso8583.Spec.{
  numeric, llvar, str_value, bytes_value, FieldSpec, check_length_type, make_spec,
  length_prefix_width, default_field_specs, Iso8583Message,
}
use atlas_pay.Iso8583.Bitmap.{mark_fields, encode_bitmap}
use atlas_pay.Iso8583.Field.{validate_text_bytes, coerce_value, is_fixed, frame_value, encode_field}
use atlas_pay.Iso8583.Codec.{
  encode_mti, validate_field_number, encode_fields, join_fields, encode, decode,
}
use atlas_pay.Iso8583.Loops.{IsValidProfile}
use atlas_pay.Iso8583.RoundTrip.{decode-encode}
use atlas_pay.Iso20022.{
  icc_data_not_projected, stan_is_network_specific, make_card_authorization, Iso20022Projection,
  authorization_to_iso20022, authorization_from_iso20022,
}
use atlas_pay.Iso20022.Losses.{reports_icc, reports_stan, kept_of, from_iso20022-to_iso20022}
use atlas_pay.Adapter.{authorization_from_iso8583, format_amount, authorization_to_iso8583}
use atlas_pay.Iso8583.FieldLaws.{IsValidSpec}
use atlas_pay.Iso8583.Errors.{decode-error}
use atlas_pay.Adapter.RoundTrip.{wire_round_trip}

abbrev purchase : AuthorizationRequest
purchase = record {
  amount_minor = pos 12550;
  currency = codes "MAD";
  merchant_id = codes "ATLASMERCHANT01";
  terminal_id = codes "TERM0001";
  instrument = record {
    pan = codes "4111111111111111";
    icc_data = some (95 ∷ 42 ∷ 2 ∷ 5 ∷ 4 ∷ []);
  };
  correlation = record { stan = codes "123456"; rrn = codes "123456789012" };
}

abbrev value_of {ℓ} : {A : Type ℓ} → A → Result A → A
value_of default (ok a) = a
value_of default (err e) = default

abbrev no_message : Iso8583Message
no_message = record { mti = []; fields = [] }

abbrev message : Iso8583Message
message = record {
  mti = codes "0200";
  fields =
      (2, str_value (codes "4111111111111111"))
      ∷ (3, str_value (codes "000000"))
      ∷ (4, str_value (codes "000000012550"))
      ∷ (11, str_value (codes "123456"))
      ∷ (37, str_value (codes "123456789012"))
      ∷ (41, str_value (codes "TERM0001"))
      ∷ (42, str_value (codes "ATLASMERCHANT01"))
      ∷ (49, str_value (codes "504"))
      ∷ (55, bytes_value (95 ∷ 42 ∷ 2 ∷ 5 ∷ 4 ∷ []))
      ∷ [];
}

mapped : authorization_to_iso8583 purchase ≡ ok message
unfolding authorization_to_iso8583 format_amount format_padded digits_of lookup list_beq
mapped = refl

purchase-IsCanonical : IsCanonical purchase
unfolding make_correlation make_instrument make_authorization is_stan is_rrn is_pan is_currency
    list_beq is_ascii_digits
purchase-IsCanonical = record { correlation_ok = refl; instrument_ok = refl; request_ok = refl }

default-IsValidProfile : IsValidProfile default_field_specs
unfolding make_spec check_length_type
default-IsValidProfile = (
  refl,
  (
    refl,
    (
      refl,
      (
        refl,
        (
          refl,
          (
            refl,
            (refl, (refl, (refl, (refl, (refl, (refl, (refl, (refl, (refl, (refl, tt)))))))))),
          ),
        ),
      ),
    ),
  ),
)

-- The bytes behind the bitmap.
abbrev body : Bytes
body =
    codes "164111111111111111000000000000012550123456123456789012TERM0001ATLASMERCHANT01504005"
    ++ (95 ∷ 42 ∷ 2 ∷ 5 ∷ 4 ∷ [])

abbrev wire : Bytes
wire = codes "0200" ++ ((112 ∷ 32 ∷ 0 ∷ 0 ∷ 8 ∷ 192 ∷ 130 ∷ 0 ∷ []) ++ body)

encoded : encode default_field_specs message ≡ ok wire
unfolding encode encode_mti encode_fields validate_field_number encode_field coerce_value
    validate_text_bytes frame_value is_fixed length_prefix_width format_padded digits_of lookup
    join_fields encode_bitmap mark_fields to_bytes set_bit sorted insert_sorted is_ascii_digits
encoded = refl

decode-encode_example :
    (decoded : Iso8583Message) × (decode default_field_specs wire ≡ ok decoded)
    × (decoded.mti ≡ message.mti)
    × ((n : ℕ) → lookup n decoded.fields ≡ lookup n message.fields)
decode-encode_example =
    decode-encode default_field_specs message wire default-IsValidProfile
      (refl, (refl, (refl, (refl, (refl, (refl, (refl, (refl, (refl, tt))))))))) encoded

wire_round_trip_example :
    (decode default_field_specs wire >>= authorization_from_iso8583 (λ s. err value_error))
    ≡ ok purchase
wire_round_trip_example =
    wire_round_trip (λ s. err value_error) default_field_specs purchase message wire
      default-IsValidProfile purchase-IsCanonical mapped encoded

too_short : decode default_field_specs (codes "0200") ≡ err codec_error
unfolding decode
too_short = refl

decode-error_example : codec_error ≡ codec_error
decode-error_example = decode-error default_field_specs (codes "0200") codec_error too_short

abbrev pan_spec : FieldSpec
pan_spec = record {
  number = 2;
  data_type = numeric;
  length_type = llvar;
  max_length = 19;
  min_length = 1;
}

pan_spec-IsValidSpec : IsValidSpec pan_spec
unfolding make_spec check_length_type
pan_spec-IsValidSpec = refl

pan_encoded : encode_field pan_spec (str_value (codes "4111")) ≡ ok (codes "044111")
unfolding encode_field coerce_value validate_text_bytes frame_value is_fixed length_prefix_width
    format_padded digits_of
pan_encoded = refl

abbrev projection : Iso20022Projection
projection = record {
  authorization = record {
    message_id = codes "MSG1";
    transaction_id = codes "123456789012";
    amount_minor = pos 12550;
    currency = codes "MAD";
    merchant_id = codes "ATLASMERCHANT01";
    terminal_id = codes "TERM0001";
    pan = codes "4111111111111111";
  };
  losses = stan_is_network_specific ∷ icc_data_not_projected ∷ [];
}

projected : authorization_to_iso20022 ascii_only purchase (codes "MSG1") ≡ ok projection
unfolding authorization_to_iso20022 make_card_authorization is_blank is_currency is_pan
    is_ascii_digits
projected = refl

from_iso20022-to_iso20022_example :
    (authorization_from_iso20022 projection.authorization (codes "654321")
      ≡ ok (kept_of purchase (codes "654321")))
    × (reports_stan projection.losses ≡ true)
    × (reports_icc projection.losses ≡ is_some purchase.instrument.icc_data)
unfolding is_stan is_ascii_digits
from_iso20022-to_iso20022_example =
    from_iso20022-to_iso20022 ascii_only purchase (codes "MSG1") (codes "654321") projection
      purchase-IsCanonical refl projected
