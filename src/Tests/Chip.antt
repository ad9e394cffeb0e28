-- ===== src/Tests/Chip.antt =====
-- The BER-TLV parser and its helpers on chip data.
use atlas_pay.Prelude.{
  length, slice, tlv_error, err, ok, Text, Bytes, codes, upper, ascii_only, ◌<◌, ◌≡◌, refl, ◌↔◌,
  true, false, [], ◌∷◌, arith,
}
use atlas_pay.Prelude.Bits.{test_bit}
use atlas_pay.Emv.{
  byte_at, hex_upper, tag_tail, read_tag, long_length, read_length, ber_tlv, BerTlvs, none_left,
  item_then, children_by, parse_item, parse_items, parse_ber_tlv,
}
use atlas_pay.Emv.Names.{byte_failures, tvr_failures, decode_tvr}
use atlas_pay.Emv.Grammar.{Spells}
use atlas_pay.Emv.Grammar.Items.{parse_ber_tlv-Spells}
use atlas_pay.Emv.Total.{parse_ber_tlv-error}

-- A template 70 that holds 9F02 and 95, and then another 95.
abbrev chip_data : Bytes
chip_data = 112 ∷ 9 ∷ 159 ∷ 2 ∷ 1 ∷ 7 ∷ 149 ∷ 3 ∷ 1 ∷ 2 ∷ 3 ∷ 149 ∷ 1 ∷ 128 ∷ []

abbrev inner_items : BerTlvs
inner_items =
    item_then (ber_tlv (codes "9F02") (7 ∷ []) false none_left)
      (item_then (ber_tlv (codes "95") (1 ∷ 2 ∷ 3 ∷ []) false none_left) none_left)

abbrev chip_items : BerTlvs
chip_items =
    item_then (ber_tlv (codes "70") (159 ∷ 2 ∷ 1 ∷ 7 ∷ 149 ∷ 3 ∷ 1 ∷ 2 ∷ 3 ∷ []) true inner_items)
      (item_then (ber_tlv (codes "95") (128 ∷ []) false none_left) none_left)

parse_test : parse_ber_tlv chip_data ≡ ok chip_items
unfolding parse_ber_tlv parse_items parse_item children_by read_tag read_length tag_tail byte_at
    hex_upper slice
parse_test = refl

-- A length of 128 bytes in the long form, with a byte of zero in front, is not minimal.
padded_length_test : read_length (130 ∷ 0 ∷ 128 ∷ []) 0 3 ≡ err tlv_error
unfolding read_length long_length byte_at slice
padded_length_test = refl

tvr_test :
    decode_tvr (128 ∷ 0 ∷ 0 ∷ 0 ∷ 64 ∷ [])
    ≡ ok (record {
      raw = 128 ∷ 0 ∷ 0 ∷ 0 ∷ 64 ∷ [];
      failures =
          codes "Offline data authentication was not performed"
          ∷ codes "Issuer authentication failed"
          ∷ [];
    })
unfolding decode_tvr tvr_failures byte_failures test_bit
tvr_test = refl

empty_payload : parse_ber_tlv [] ≡ err tlv_error
unfolding parse_ber_tlv
empty_payload = refl

parse_ber_tlv-error_example : tlv_error ≡ tlv_error
parse_ber_tlv-error_example = parse_ber_tlv-error [] tlv_error empty_payload

upper_twice : (s : Text) → upper ascii_only (upper ascii_only s) ≡ upper ascii_only s
unfolding upper
upper_twice [] = refl
upper_twice (c ∷ s) = ground (arith, upper_twice s)

parse_ber_tlv-Spells_example :
    (parse_ber_tlv chip_data ≡ ok chip_items)
    ↔ ((0 < length chip_data) × Spells 0 chip_data chip_items)
parse_ber_tlv-Spells_example = parse_ber_tlv-Spells chip_data chip_items
