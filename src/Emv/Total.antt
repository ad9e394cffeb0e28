-- ===== src/Emv/Total.antt =====
-- Lemmas on the errors and the fuel of the parser of app/emv.py.
use atlas_pay.Prelude.{
  ltb, Bool-cases, length, slice, is_empty, Error, tlv_error, Result, err, ok, raise_if, >>=-eq-ok,
  text_eq, ◌==◌, nat_eq, Bytes, ℕ, zero, suc, ◌+◌, ◌-◌, ◌≤◌, ◌<◌, ◌≡◌, inl, inr, Bool, true, false,
  not, arith,
}
use atlas_pay.Prelude.Raises.{RaisesOnly, returns, raises_bind, raises_after, error_of, raises_if}
use atlas_pay.Emv.{
  read_tag, read_length, BerTlv, ber_tlv, BerTlvs, none_left, item_then, children_by, parse_item,
  parse_items, parse_ber_tlv,
}
use atlas_pay.Emv.Reads.{tag_raises, length-slice, length_raises, tag_moves, length_moves}

module _ (parse : Bytes → Result (BerTlvs × ℕ)) (payload : Bytes) (offset depth : ℕ)
    (parses : (value : Bytes)
      → length value + offset < length payload
      → RaisesOnly tlv_error (parse value)) where
  children_raise :
      (constructed : Bool) (value : Bytes)
      → length value + offset < length payload
      → RaisesOnly tlv_error (children_by parse constructed value depth)
  unfolding children_by
  children_raise false value small = returns none_left
  children_raise true value small = raises_bind (raises_if (is_empty value)) λ _.
      raises_bind (raises_if (ltb 8 (suc depth))) λ _.
        raises_bind (parses value small)
          λ found. raises_bind (raises_if (not (found.1 == length value))) λ _. returns found.0

  item_raises : RaisesOnly tlv_error (parse_item parse payload offset depth)
  unfolding parse_item
  item_raises =
      raises_after (read_tag payload offset (length payload)) (tag_raises payload offset)
        λ t tag_read.
          raises_after (read_length payload t.2 (length payload)) (length_raises payload t.2)
            λ l length_read.
              let stop = l.1 + l.0 in
              raises_after (raise_if (ltb (length payload) stop) tlv_error)
                (raises_if (ltb (length payload) stop))
                λ _ fits.
                  raises_bind
                    (children_raise t.1 (slice payload l.1 stop) (
                      small t.2 l.1 l.0
                        (tag_moves payload offset (length payload) t.0 t.1 t.2 tag_read)
                        (length_moves payload t.2 (length payload) l.0 l.1 length_read) fits))
                    λ children. returns (ber_tlv t.0 (slice payload l.1 stop) t.1 children, stop)
    where
      small :
          (after_tag start size : ℕ)
          → offset < after_tag
          → after_tag < start
          → raise_if (ltb (length payload) (start + size)) tlv_error ≡ ok tt
          → length (slice payload start (start + size)) + offset < length payload
      small after_tag start size p q fits =
          let inside_payload : start + size ≤ length payload = ground (arith, fits) in
          omega (arith, length-slice payload start (start + size) inside_payload)

  item_moves :
      (item : BerTlv) (next : ℕ)
      → parse_item parse payload offset depth ≡ ok (item, next)
      → offset < next
  unfolding parse_item
  item_moves item next h =
      let (t, h₁, k₁) = >>=-eq-ok (read_tag payload offset (length payload)) _ h in
      let (l, h₂, k₂) = >>=-eq-ok (read_length payload t.2 (length payload)) _ k₁ in
      let (a, h₃, k₃) = >>=-eq-ok (raise_if (ltb (length payload) (l.1 + l.0)) tlv_error) _ k₂ in
      let (c, h₄, k₄) =
        >>=-eq-ok (children_by parse t.1 (slice payload l.1 (l.1 + l.0)) depth) _ k₃ in
      let p = tag_moves payload offset (length payload) t.0 t.1 t.2 h₁ in
      let q = length_moves payload t.2 (length payload) l.0 l.1 h₂ in
      let same : next ≡ l.1 + l.0 = ground (arith, k₄) in omega (arith, p, q, same)

items_raise :
    (fuel : ℕ) (payload : Bytes) (offset depth : ℕ)
    → length payload - offset < fuel
    → RaisesOnly tlv_error (parse_items fuel payload offset depth)
unfolding parse_items
items_raise zero payload offset depth enough = absurd (omega arith)
items_raise (suc fuel) payload offset depth enough =
    let parse = λ (value : Bytes). parse_items fuel value 0 (suc depth) in
    let parses = λ (value : Bytes) (small : length value + offset < length payload).
      items_raise fuel value 0 (suc depth) (omega arith) in
    let later =
      λ (next : ℕ) (h : length payload - next < fuel). items_raise fuel payload next depth h in
    elim (Bool-cases (ltb offset (length payload))) [
      | inr done ↦ rw done (returns (none_left, offset))
      | inl more ↦ rw more (
          raises_after (parse_item parse payload offset depth)
            (item_raises parse payload offset depth parses)
            λ i made.
              raises_bind
                (later i.1
                  (left_over i.1 more (item_moves parse payload offset depth parses i.0 i.1 made)))
                λ rest. returns (item_then i.0 rest.0, rest.1))
    ]
  where
    left_over :
        (next : ℕ)
        → ltb offset (length payload) ≡ true
        → offset < next
        → length payload - next < fuel
    left_over next more moves = ground arith

-- Whatever bytes arrive, `parse_ber_tlv` returns items or raises `EMVTLVError`: no read goes past the
-- payload, and the loops and the nested calls end within the fuel that is given.
pub parse_ber_tlv-error : (raw : Bytes) (e : Error) → parse_ber_tlv raw ≡ err e → e ≡ tlv_error
unfolding parse_ber_tlv
parse_ber_tlv-error raw e h = error_of e whole h
  where
    whole : RaisesOnly tlv_error (parse_ber_tlv raw)
    whole = raises_bind (raises_if (is_empty raw)) λ _. raises_bind (raises_if (ltb 8 0)) λ _.
        raises_bind (items_raise (suc (length raw)) raw 0 0 (omega arith))
          λ found. raises_bind (raises_if (not (found.1 == length raw))) λ _. returns found.0
