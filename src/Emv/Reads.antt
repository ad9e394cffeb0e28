-- ===== src/Emv/Reads.antt =====
-- Lemmas on `_read_tag` and `_read_length` of app/emv.py: what they raise, and that they move on.
use atlas_pay.Prelude.{
  ltb, leb, Bool-cases, length, drop, slice, length-take-le, length-drop, tlv_error, ok, raise_if,
  >>=-eq-ok, Result-cases, text_eq, ◌==◌, nat_eq, Text, Bytes, ℕ, zero, suc, ◌+◌, ◌-◌, ◌≤◌, ◌<◌,
  ◌≡◌, refl, inl, inr, Bool, not, ◌&&◌, ◌||◌, [], ◌∷◌, ◌++◌, arith,
}
use atlas_pay.Prelude.Raises.{
  RaisesOnly, returns, raises, raises_bind, raises_after, raises_either, raises_if,
}
use atlas_pay.Prelude.Bits.{from_bytes}
use atlas_pay.Emv.{byte_at, hex_upper, tag_tail, tag_bytes_from, read_tag, long_length, read_length}
use Prim.Native.Nat.{bit_and}

inside : (payload : Bytes) (i : ℕ) → i < length payload → (b : ℕ) × (byte_at payload i ≡ ok b)
unfolding byte_at
inside [] i h = absurd (omega arith)
inside (b ∷ bs) zero h = (b, refl)
inside (b ∷ bs) (suc i) h = inside bs i (omega arith)

byte_raises :
    (payload : Bytes) (i : ℕ) → i < length payload → RaisesOnly tlv_error (byte_at payload i)
byte_raises payload i h = let (b, e) = inside payload i h in rw e (returns b)

not_past : (limit offset : ℕ) → raise_if (leb limit offset) tlv_error ≡ ok tt → offset < limit
not_past limit offset h = ground arith

tail_raises :
    (room : ℕ) (payload : Bytes) (offset : ℕ) (tag_bytes : Bytes)
    → RaisesOnly tlv_error (tag_tail room payload (length payload) offset tag_bytes)
unfolding tag_tail
tail_raises zero payload offset tag_bytes =
    raises_bind (raises_if (leb (length payload) offset)) (λ _. raises)
tail_raises (suc room) payload offset tag_bytes =
    let later =
      λ (current : ℕ). tail_raises room payload (suc offset) (tag_bytes ++ (current ∷ [])) in
    raises_after (raise_if (leb (length payload) offset) tlv_error)
      (raises_if (leb (length payload) offset))
      λ _ h.
        raises_bind (byte_raises payload offset (not_past (length payload) offset h)) λ current.
          raises_bind (raises_if (length tag_bytes == 1 && bit_and current 127 == 0)) λ _.
            raises_either (bit_and current 128 == 0)
              (returns (tag_bytes ++ (current ∷ []), suc offset)) (later current)

pub tag_raises :
    (payload : Bytes) (offset : ℕ) → RaisesOnly tlv_error (read_tag payload offset (length payload))
unfolding read_tag
tag_raises payload offset =
    raises_after (raise_if (leb (length payload) offset) tlv_error)
      (raises_if (leb (length payload) offset))
      λ _ h. raises_bind (byte_raises payload offset (not_past (length payload) offset h)) λ first.
        raises_bind (raises_if (first == 0 || first == 255)) λ _.
          raises_bind
            (raises_either (bit_and first 31 == 31)
              (tail_raises 3 payload (suc offset) (first ∷ [])) (returns (first ∷ [], suc offset)))
            λ next. returns (hex_upper next.0, not (bit_and first 32 == 0), next.1)

pub length-slice : (xs : Bytes) (a b : ℕ) → b ≤ length xs → length (slice xs a b) ≡ b - a
unfolding slice
length-slice xs a b h = length-take-le (b - a) (drop a xs) (omega (arith, length-drop a xs))

long_raises :
    (payload : Bytes) (offset first : ℕ)
    → RaisesOnly tlv_error (long_length payload offset (length payload) first)
unfolding long_length
long_raises payload offset first =
    let width = bit_and first 127 in
    let stop = offset + width in
    let encoded = slice payload offset stop in
    raises_bind (raises_if (first == 128)) λ _.
      raises_after (raise_if (width == 0 || ltb 3 width) tlv_error)
        (raises_if (width == 0 || ltb 3 width))
        λ _ h.
          raises_after (raise_if (ltb (length payload) stop) tlv_error)
            (raises_if (ltb (length payload) stop))
            λ _ k.
              raises_bind
                (byte_raises encoded 0 (
                  omega (
                    arith,
                    length-slice payload offset stop (ground (arith, k)),
                    some_width width h,
                  )))
                λ leading. raises_bind (raises_if (leading == 0)) λ _.
                  raises_bind (raises_if (ltb (from_bytes encoded) 128))
                    λ _. returns (from_bytes encoded, stop)
  where
    some_width : (width : ℕ) → raise_if (width == 0 || ltb 3 width) tlv_error ≡ ok tt → 0 < width
    some_width width h = ground (arith, h)

pub length_raises :
    (payload : Bytes) (offset : ℕ)
    → RaisesOnly tlv_error (read_length payload offset (length payload))
unfolding read_length
length_raises payload offset =
    raises_after (raise_if (leb (length payload) offset) tlv_error)
      (raises_if (leb (length payload) offset))
      λ _ h. raises_bind (byte_raises payload offset (not_past (length payload) offset h)) λ first.
        raises_either (ltb first 128) (returns (first, suc offset))
          (long_raises payload (suc offset) first)

tail_moves :
    (room : ℕ) (payload : Bytes) (limit offset : ℕ) (tag_bytes tag : Bytes) (next : ℕ)
    → tag_tail room payload limit offset tag_bytes ≡ ok (tag, next)
    → offset < next
unfolding tag_tail
tail_moves zero payload limit offset tag_bytes tag next h = absurd (ground arith)
tail_moves (suc room) payload limit offset tag_bytes tag next h =
    elim (Result-cases (byte_at payload offset)) [
      | inr (x, e) ↦ absurd (ground (arith, e))
      | inl (current, e) ↦ elim (Bool-cases (bit_and current 128 == 0)) [
        | inl f ↦ ground (arith, e, f)
        | inr f ↦ ground (
          arith,
          e,
          f,
          tail_moves room payload limit (suc offset) (tag_bytes ++ (current ∷ [])) tag next,
        )
      ]
    ]

pub tag_moves :
    (payload : Bytes) (offset limit : ℕ) (tag : Text) (constructed : Bool) (next : ℕ)
    → read_tag payload offset limit ≡ ok (tag, constructed, next)
    → offset < next
unfolding read_tag
tag_moves payload offset limit tag constructed next h =
    let (a, h₁, k₁) = >>=-eq-ok (raise_if (leb limit offset) tlv_error) _ h in
    let (first, h₂, k₂) = >>=-eq-ok (byte_at payload offset) _ k₁ in
    let (b, h₃, k₃) = >>=-eq-ok (raise_if (first == 0 || first == 255) tlv_error) _ k₂ in
    let (found, h₄, k₄) = >>=-eq-ok (tag_bytes_from payload limit offset first) _ k₃ in
    let same : next ≡ found.1 = ground (arith, k₄) in rw same (from_first first found.0 found.1 h₄)
  where
    from_first :
        (first : ℕ) (bytes : Bytes) (next : ℕ)
        → tag_bytes_from payload limit offset first ≡ ok (bytes, next)
        → offset < next
    from_first first bytes next h = elim (Bool-cases (bit_and first 31 == 31)) [
      | inl e ↦
          let m = tail_moves 3 payload limit (suc offset) (first ∷ []) bytes next (rw e at h) in
          omega (arith, m)
      | inr e ↦ ground (arith, rw e at h)
    ]

pub length_moves :
    (payload : Bytes) (offset limit size next : ℕ)
    → read_length payload offset limit ≡ ok (size, next)
    → offset < next
unfolding read_length long_length
length_moves payload offset limit size next h = ground arith
