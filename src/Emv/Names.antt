-- ===== src/Emv/Names.antt =====
-- The tables of app/emv.py, `BerTlv.name` and the decoder of tag 95.
use atlas_pay.Prelude.{
  if◌then◌else◌, length, tlv_error, Result, ok, raise_if, ◌>>◌, text_eq, ◌==◌, nat_eq, Text, Bytes,
  codes, ℕ, not, Option, none, some, List, [], ◌∷◌, ◌++◌,
}
use atlas_pay.Prelude.Dict.{Dict, lookup}
use atlas_pay.Prelude.Bits.{test_bit}
use atlas_pay.Emv.{hex_upper, BerTlv, ber_tlv}

abbrev pub emv_tag_names : Dict Text Text
emv_tag_names =
    (codes "5F2A", codes "Transaction Currency Code")
    ∷ (codes "82", codes "Application Interchange Profile")
    ∷ (codes "84", codes "Dedicated File Name")
    ∷ (codes "95", codes "Terminal Verification Results")
    ∷ (codes "9A", codes "Transaction Date")
    ∷ (codes "9C", codes "Transaction Type")
    ∷ (codes "9F02", codes "Amount, Authorised (Numeric)")
    ∷ (codes "9F03", codes "Amount, Other (Numeric)")
    ∷ (codes "9F10", codes "Issuer Application Data")
    ∷ (codes "9F1A", codes "Terminal Country Code")
    ∷ (codes "9F26", codes "Application Cryptogram")
    ∷ (codes "9F27", codes "Cryptogram Information Data")
    ∷ (codes "9F33", codes "Terminal Capabilities")
    ∷ (codes "9F34", codes "Cardholder Verification Method Results")
    ∷ (codes "9F35", codes "Terminal Type")
    ∷ (codes "9F36", codes "Application Transaction Counter")
    ∷ (codes "9F37", codes "Unpredictable Number")
    ∷ (codes "9F41", codes "Transaction Sequence Counter")
    ∷ []

-- `BerTlv.name`
unfoldable pub name_of : BerTlv → Option Text
name_of (ber_tlv tag value constructed children) = lookup tag emv_tag_names

abbrev pub named : Text → Option Text
named s = some s

-- The eight bits of each byte, the highest first.
abbrev pub tvr_bits : List (List (Option Text))
tvr_bits =
    (named (codes "Offline data authentication was not performed")
      ∷ named (codes "Static data authentication failed")
      ∷ named (codes "ICC data missing")
      ∷ named (codes "Card appears on terminal exception file")
      ∷ named (codes "Dynamic data authentication failed")
      ∷ named (codes "Combined DDA/application cryptogram generation failed")
      ∷ none
      ∷ none
      ∷ [])
    ∷ (named (codes "ICC and terminal have different application versions")
        ∷ named (codes "Expired application")
        ∷ named (codes "Application not yet effective")
        ∷ named (codes "Requested service not allowed for card product")
        ∷ named (codes "New card")
        ∷ none
        ∷ none
        ∷ none
        ∷ [])
    ∷ (named (codes "Cardholder verification was not successful")
        ∷ named (codes "Unrecognized cardholder verification method")
        ∷ named (codes "PIN try limit exceeded")
        ∷ named (codes "PIN entry required and PIN pad not present or not working")
        ∷ named (codes "PIN entry required, PIN pad present, but PIN was not entered")
        ∷ named (codes "Online PIN entered")
        ∷ none
        ∷ none
        ∷ [])
    ∷ (named (codes "Transaction exceeds floor limit")
        ∷ named (codes "Lower consecutive offline limit exceeded")
        ∷ named (codes "Upper consecutive offline limit exceeded")
        ∷ named (codes "Transaction selected randomly for online processing")
        ∷ named (codes "Merchant forced transaction online")
        ∷ none
        ∷ none
        ∷ none
        ∷ [])
    ∷ (named (codes "Default TDOL used")
        ∷ named (codes "Issuer authentication failed")
        ∷ named (codes "Script processing failed before final GENERATE AC")
        ∷ named (codes "Script processing failed after final GENERATE AC")
        ∷ none
        ∷ none
        ∷ none
        ∷ none
        ∷ [])
    ∷ []

pub record Tvr : Type 0 where
  pub raw : Bytes
  pub failures : List Text

-- The inner loop: the names of the bits that are set, from a bit down to bit 0.
unfoldable pub byte_failures : ℕ → List (Option Text) → List Text
byte_failures byte [] = []
byte_failures byte (none ∷ names) = byte_failures byte names
byte_failures byte (some name ∷ names) =
    let rest = byte_failures byte names in
    if test_bit byte (length names) then name ∷ rest else rest

-- The outer loop, over the bytes and their rows of the table.
unfoldable pub tvr_failures : Bytes → List (List (Option Text)) → List Text
tvr_failures [] table = []
tvr_failures (b ∷ bs) [] = []
tvr_failures (b ∷ bs) (names ∷ table) = byte_failures b names ++ tvr_failures bs table

unfoldable pub decode_tvr : Bytes → Result Tvr
decode_tvr raw = do
  raise_if (not (length raw == 5)) tlv_error
  ok (record { raw = raw; failures = tvr_failures raw tvr_bits })

-- `TVR.hex`
unfoldable pub tvr_hex : Tvr → Text
tvr_hex t = hex_upper t.raw
