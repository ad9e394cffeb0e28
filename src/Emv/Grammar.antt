-- ===== src/Emv/Grammar.antt =====
-- The BER-TLV grammar that app/emv.py accepts, written without offsets, limits or loops: the bytes
-- that an item stands for, as the standard has them under the bounds of the program.
pub mod Cursor
pub mod Tags
pub mod Lengths
pub mod Items
use Prim.Native.Nat.{bit_and}
use atlas_pay.Prelude.{
  length, text_eq, ◌==◌, nat_eq, Bytes, ℕ, suc, ◌≤◌, ◌<◌, ◌≡◌, ◌≢◌, Bool, true, false, not, ◌&&◌,
  ◌||◌, [], ◌∷◌, ◌++◌,
}
use atlas_pay.Prelude.Bits.{from_bytes}
use atlas_pay.Emv.{hex_upper, ber_tlv, BerTlvs, none_left, item_then}

-- The bytes that complete a tag that has `n` bytes: seven bits each, the highest set in all but the
-- last. The first of them carries something in its seven bits, and a tag has four bytes at most.
pub data Continues : ℕ → Bytes → Type 0 where
  last_byte :
      {n : ℕ} (b : ℕ)
      → n < 4
      → (n == 1 && bit_and b 127 == 0) ≡ false
      → (bit_and b 128 == 0) ≡ true
      → Continues n (b ∷ [])
  one_byte :
      {n : ℕ} {bs : Bytes} (b : ℕ)
      → n < 4
      → (n == 1 && bit_and b 127 == 0) ≡ false
      → (bit_and b 128 == 0) ≡ false
      → Continues (suc n) bs
      → Continues n (b ∷ bs)

-- The bytes of a tag, and whether it is that of a template.
pub data TagBytes : Bytes → Bool → Type 0 where
  short_tag :
      (b : ℕ)
      → (b == 0 || b == 255) ≡ false
      → (bit_and b 31 == 31) ≡ false
      → TagBytes (b ∷ []) (not (bit_and b 32 == 0))
  long_tag :
      {bs : Bytes} (b : ℕ)
      → (b == 0 || b == 255) ≡ false
      → (bit_and b 31 == 31) ≡ true
      → Continues 1 bs
      → TagBytes (b ∷ bs) (not (bit_and b 32 == 0))

-- The bytes of a length: itself where it is below 128, and otherwise the number of bytes that it
-- takes, three at most, and those, with no zero in front.
pub data LengthBytes : Bytes → ℕ → Type 0 where
  short_form : (n : ℕ) → n < 128 → LengthBytes (n ∷ []) n
  long_form :
      (width b : ℕ) (bs : Bytes)
      → 128 < width
      → bit_and width 127 ≡ length (b ∷ bs)
      → length (b ∷ bs) ≤ 3
      → b ≢ 0
      → 128 ≤ from_bytes (b ∷ bs)
      → LengthBytes (width ∷ b ∷ bs) (from_bytes (b ∷ bs))

-- The items that bytes spell at a nesting depth: one after the other, with nothing between them
-- and nothing left over. The value of a template spells its children, one level deeper.
pub data Spells : ℕ → Bytes → BerTlvs → Type 0 where
  no_items : {d : ℕ} → Spells d [] none_left
  primitive :
      {d : ℕ} {tag size value rest : Bytes} {items : BerTlvs}
      → TagBytes tag false
      → LengthBytes size (length value)
      → Spells d rest items
      → Spells d
          (tag ++ (size ++ (value ++ rest)))
          (item_then (ber_tlv (hex_upper tag) value false none_left) items)
  template :
      {d : ℕ} {tag size value rest : Bytes} {children items : BerTlvs}
      → TagBytes tag true
      → LengthBytes size (length value)
      → 0 < length value
      → d < 8
      → Spells (suc d) value children
      → Spells d rest items
      → Spells d
          (tag ++ (size ++ (value ++ rest)))
          (item_then (ber_tlv (hex_upper tag) value true children) items)
