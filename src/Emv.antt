-- ===== src/Emv.antt =====
-- The BER-TLV parser of app/emv.py and its helpers. The texts of the TVR table and of the tag names
-- stand in Emv/Names. A payload is its list of bytes, whatever kind of buffer it came in.
pub mod Names
pub mod Reads
pub mod Total
pub mod Grammar
pub mod Search
use Prim.Native.Nat.{bit_and}
use atlas_pay.Prelude.{
  ltb, leb, if◌then◌else◌, length, slice, is_empty, tlv_error, index_error, runtime_error, Result,
  err, ok, raise_if, ◌>>=◌, ◌>>◌, text_eq, ◌==◌, nat_eq, Text, Bytes, Unicode, upper, ℕ, zero, suc,
  ◌+◌, ◌-◌, ◌/◌, ◌%◌, Bool, true, false, not, ◌&&◌, ◌||◌, List, [], ◌∷◌, ◌++◌,
}
use atlas_pay.Prelude.Bits.{from_bytes}

-- `payload[i]`
unfoldable pub byte_at : Bytes → ℕ → Result ℕ
byte_at [] i = err index_error
byte_at (b ∷ bs) zero = ok b
byte_at (b ∷ bs) (suc i) = byte_at bs i

-- A digit of `hex().upper()`
abbrev pub hex_digit : ℕ → ℕ
hex_digit n = if ltb n 10 then 48 + n else 55 + n

unfoldable pub hex_upper : Bytes → Text
hex_upper [] = []
hex_upper (b ∷ bs) = hex_digit (b / 16) ∷ hex_digit (b % 16) ∷ hex_upper bs

abbrev pub max_tag_bytes : ℕ
max_tag_bytes = 4

abbrev pub max_length_bytes : ℕ
max_length_bytes = 3

abbrev pub max_nesting_depth : ℕ
max_nesting_depth = 8

-- The loop of `_read_tag`, for the bytes that the tag has room for still; each turn but the last
-- adds one of them. The result is the tag and the offset behind it.
unfoldable pub tag_tail : ℕ → Bytes → ℕ → ℕ → Bytes → Result (Bytes × ℕ)
tag_tail zero payload limit offset tag_bytes = do
  raise_if (leb limit offset) tlv_error
  err tlv_error
tag_tail (suc room) payload limit offset tag_bytes = do
  raise_if (leb limit offset) tlv_error
  current ← byte_at payload offset
  raise_if (length tag_bytes == 1 && bit_and current 127 == 0) tlv_error
  let longer = tag_bytes ++ (current ∷ [])
  let rest = tag_tail room payload limit (suc offset) longer
  if bit_and current 128 == 0 then ok (longer, suc offset) else rest

-- The bytes of a tag that starts with this one.
abbrev pub tag_bytes_from : Bytes → ℕ → ℕ → ℕ → Result (Bytes × ℕ)
tag_bytes_from payload limit offset first =
    if bit_and first 31 == 31
    then tag_tail (max_tag_bytes - 1) payload limit (suc offset) (first ∷ [])
    else ok (first ∷ [], suc offset)

unfoldable pub read_tag : Bytes → ℕ → ℕ → Result (Text × Bool × ℕ)
read_tag payload offset limit = do
  raise_if (leb limit offset) tlv_error
  first ← byte_at payload offset
  raise_if (first == 0 || first == 255) tlv_error
  (tag_bytes, next) ← tag_bytes_from payload limit offset first
  ok (hex_upper tag_bytes, not (bit_and first 32 == 0), next)

-- The rest of `_read_length` for a first byte of 128 or more.
unfoldable pub long_length : Bytes → ℕ → ℕ → ℕ → Result (ℕ × ℕ)
long_length payload offset limit first = do
  raise_if (first == 128) tlv_error
  let width = bit_and first 127
  raise_if (width == 0 || ltb max_length_bytes width) tlv_error
  let stop = offset + width
  raise_if (ltb limit stop) tlv_error
  let encoded = slice payload offset stop
  leading ← byte_at encoded 0
  raise_if (leading == 0) tlv_error
  let size = from_bytes encoded
  raise_if (ltb size 128) tlv_error
  ok (size, stop)

unfoldable pub read_length : Bytes → ℕ → ℕ → Result (ℕ × ℕ)
read_length payload offset limit = do
  raise_if (leb limit offset) tlv_error
  first ← byte_at payload offset
  if ltb first 128 then ok (first, suc offset) else long_length payload (suc offset) limit first

mutual
  pub data BerTlv : Type 0 where
    ber_tlv : (tag : Text) (value : Bytes) (constructed : Bool) (children : BerTlvs) → BerTlv

  pub data BerTlvs : Type 0 where
    none_left : BerTlvs
    item_then : BerTlv → BerTlvs → BerTlvs

-- The children of an item, given how its value is parsed.
unfoldable pub children_by : (Bytes → Result (BerTlvs × ℕ)) → Bool → Bytes → ℕ → Result BerTlvs
children_by parse false value depth = ok none_left
children_by parse true value depth = do
  raise_if (is_empty value) tlv_error
  raise_if (ltb max_nesting_depth (suc depth)) tlv_error
  (children, child_end) ← parse value
  raise_if (not (child_end == length value)) tlv_error
  ok children

-- One turn of the loop of `_parse_items`: the item, and the offset behind it.
unfoldable pub parse_item : (Bytes → Result (BerTlvs × ℕ)) → Bytes → ℕ → ℕ → Result (BerTlv × ℕ)
parse_item parse payload offset depth = do
  (tag, constructed, at) ← read_tag payload offset (length payload)
  (size, start) ← read_length payload at (length payload)
  let stop = start + size
  raise_if (ltb (length payload) stop) tlv_error
  let value = slice payload start stop
  children ← children_by parse constructed value depth
  ok (ber_tlv tag value constructed children, stop)

-- The loop of `_parse_items` from an offset to the limit, which is the end of the payload in every
-- call: the items and the last offset. Each turn, and the call for the children in it, has one less
-- of the fuel. The test of the depth stands before each call.
unfoldable pub parse_items : ℕ → Bytes → ℕ → ℕ → Result (BerTlvs × ℕ)
parse_items zero payload offset depth = err runtime_error
parse_items (suc fuel) payload offset depth =
    if ltb offset (length payload)
    then (do
      (item, next) ← parse_item (λ value. parse_items fuel value 0 (suc depth)) payload offset depth
      (items, last) ← parse_items fuel payload next depth
      ok (item_then item items, last))
    else ok (none_left, offset)

-- `parse_ber_tlv`, and `decode_de55`, which is the same
unfoldable pub parse_ber_tlv : Bytes → Result BerTlvs
parse_ber_tlv raw = do
  raise_if (is_empty raw) tlv_error
  raise_if (ltb max_nesting_depth 0) tlv_error
  (items, offset) ← parse_items (suc (length raw)) raw 0 0
  raise_if (not (offset == length raw)) tlv_error
  ok items

-- `find_tags`
unfoldable mutual
  pub find_tags : Unicode → BerTlvs → Text → List BerTlv
  find_tags u none_left tag = []
  find_tags u (item_then item items) tag = find_in u item (upper u tag) ++ find_tags u items tag

  pub find_in : Unicode → BerTlv → Text → List BerTlv
  find_in u (ber_tlv tag value constructed children) normalized =
      let below = find_tags u children normalized in
      if tag == normalized then ber_tlv tag value constructed children ∷ below else below
