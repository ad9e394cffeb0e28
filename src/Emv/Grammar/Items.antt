-- ===== src/Emv/Grammar/Items.antt =====
-- `_parse_items` and `parse_ber_tlv` of app/emv.py against the grammar, in both directions.
use atlas_pay.Prelude.{
  ltb, Bool-cases, length, slice, length-append, empty_of_length, tlv_error, Result, ok, raise_if,
  >>=-eq-ok, Result-cases, Text, Bytes, ℕ, zero, suc, ◌+◌, ◌≤◌, ◌<◌, ◌≡◌, refl, ◌↔◌, inl, inr, Bool,
  true, false, [], ◌++◌, arith,
}
use atlas_pay.Emv.{
  hex_upper, read_tag, read_length, BerTlv, ber_tlv, BerTlvs, none_left, item_then, children_by,
  parse_item, parse_items, parse_ber_tlv,
}
use atlas_pay.Emv.Grammar.{
  TagBytes, short_tag, long_tag, LengthBytes, Spells, no_items, primitive, template,
}
use atlas_pay.Emv.Grammar.Cursor.{At, At-start, At-length, At-skip, At-slice, Taken, divide}
use atlas_pay.Emv.Grammar.Tags.{read_tag-TagBytes, TagBytes-read_tag}
use atlas_pay.Emv.Grammar.Lengths.{read_length-LengthBytes, LengthBytes-read_length}

module _ (parse : Bytes → Result (BerTlvs × ℕ)) (d : ℕ)
    (parses : (value : Bytes) (children : BerTlvs) (child_end : ℕ)
      → parse value ≡ ok (children, child_end)
      → Spells (suc d) value children) where
  children_by-Spells :
      (tag size value rest : Bytes) (constructed : Bool) (children items : BerTlvs)
      → TagBytes tag constructed
      → LengthBytes size (length value)
      → children_by parse constructed value d ≡ ok children
      → Spells d rest items
      → Spells d
          (tag ++ (size ++ (value ++ rest)))
          (item_then (ber_tlv (hex_upper tag) value constructed children) items)
  unfolding children_by
  children_by-Spells tag size value rest false children items t l h after =
      let none : children ≡ none_left = ground arith in rw none (primitive t l after)
  children_by-Spells tag size value rest true children items t l h after =
      elim (Result-cases (parse value)) [
        | inr (x, e) ↦ absurd (ground (arith, h, e))
        | inl (found, e) ↦
            let same : found.0 ≡ children = ground (arith, h, e) in
            template t l (ground (arith, h)) (ground (arith, h))
              (rw same at (parses value found.0 found.1 e)) after
      ]

  -- An item of these three reads, and what it adds in front of items that follow.
  reads_spell :
      (p : Bytes) (s : Bytes) (text : Text) (constructed : Bool) (after start n : ℕ)
      (children : BerTlvs)
      (tag : Taken p s after (λ bs. (text ≡ hex_upper bs) × TagBytes bs constructed))
      (size : Taken p tag.rest start (λ bs. LengthBytes bs n))
      → start + n ≤ length p
      → children_by parse constructed (slice p start (start + n)) d ≡ ok children
      → (item : BerTlv) (next : ℕ)
      → ber_tlv text (slice p start (start + n)) constructed children ≡ item
      → start + n ≡ next
      → (rest : Bytes) × At p next rest
        × ((items : BerTlvs) → Spells d rest items → Spells d s (item_then item items))
  reads_spell p s text constructed after start n children tag size fits h item next made ends =
      let (value, rest, e, l) =
        divide n size.rest (omega (arith, At-length p start size.rest size.next_at)) in
      let there : At p start (value ++ rest) = rw e at size.next_at in
      let read : slice p start (start + n) ≡ value = rw l at (At-slice p start value rest there) in
      (
        rest,
        rw (l, ends) at (At-skip p start value rest there),
        λ items follow.
            rw (← made, tag.split, size.split, e, tag.fits.0, read)
              (children_by-Spells tag.bytes size.bytes value rest constructed children items
                tag.fits.1 (rw l size.fits) (rw read at h) follow),
      )

  parse_item-Spells :
      (p : Bytes) (i : ℕ) (s : Bytes) (item : BerTlv) (next : ℕ)
      → At p i s
      → parse_item parse p i d ≡ ok (item, next)
      → (rest : Bytes) × At p next rest
        × ((items : BerTlvs) → Spells d rest items → Spells d s (item_then item items))
  unfolding parse_item
  parse_item-Spells p i s item next at h =
      let (t, h₁, k₁) = >>=-eq-ok (read_tag p i (length p)) _ h in
      let (l, h₂, k₂) = >>=-eq-ok (read_length p t.2 (length p)) _ k₁ in
      let (a, h₃, k₃) = >>=-eq-ok (raise_if (ltb (length p) (l.1 + l.0)) tlv_error) _ k₂ in
      let (c, h₄, k₄) = >>=-eq-ok (children_by parse t.1 (slice p l.1 (l.1 + l.0)) d) _ k₃ in
      let tag = read_tag-TagBytes p i s t.0 t.1 t.2 at h₁ in
      let size = read_length-LengthBytes p t.2 tag.rest l.0 l.1 tag.next_at h₂ in
      let same : ber_tlv t.0 (slice p l.1 (l.1 + l.0)) t.1 c ≡ item = ground (arith, k₄) in
      let ends : l.1 + l.0 ≡ next = ground (arith, k₄) in
      reads_spell p s t.0 t.1 t.2 l.1 l.0 c tag size (ground (arith, h₃)) h₄ item next same ends

module _ (parse : Bytes → Result (BerTlvs × ℕ)) (p : Bytes) (i d : ℕ) (tag size value rest : Bytes)
    (at : At p i (tag ++ (size ++ (value ++ rest)))) where
  Spells-parse_item :
      (constructed : Bool) (children : BerTlvs)
      → TagBytes tag constructed
      → LengthBytes size (length value)
      → children_by parse constructed value d ≡ ok children
      → parse_item parse p i d
        ≡ ok (
          ber_tlv (hex_upper tag) value constructed children,
          i + length tag + length size + length value,
        )
  unfolding parse_item
  Spells-parse_item constructed children t l h =
      let after_tag = At-skip p i tag (size ++ (value ++ rest)) at in
      let after_size = At-skip p (i + length tag) size (value ++ rest) after_tag in
      ground (
        arith,
        TagBytes-read_tag p i tag (size ++ (value ++ rest)) constructed at t,
        LengthBytes-read_length p (i + length tag) size (value ++ rest) (length value) after_tag l,
        At-slice p (i + length tag + length size) value rest after_size,
        At-length p (i + length tag + length size) (value ++ rest) after_size,
        length-append value rest,
        h,
      )

  after_item : At p (i + length tag + length size + length value) rest
  after_item = At-skip p (i + length tag + length size) value rest (
      At-skip p (i + length tag) size (value ++ rest)
        (At-skip p i tag (size ++ (value ++ rest)) at))

parse_items-Spells :
    (fuel : ℕ) (p : Bytes) (i : ℕ) (s : Bytes) (d : ℕ) (items : BerTlvs) (last : ℕ)
    → At p i s
    → parse_items fuel p i d ≡ ok (items, last)
    → Spells d s items
unfolding parse_items
parse_items-Spells zero p i s d items last at h = absurd (ground arith)
parse_items-Spells (suc fuel) p i s d items last at h = elim (Bool-cases (ltb i (length p))) [
  | inr done ↦
      let none : none_left ≡ items = ground (arith, h, done) in rw (← none, nothing done) no_items
  | inl more ↦
      let (found, h₁, k₁) =
        >>=-eq-ok (parse_item (λ value. parse_items fuel value 0 (suc d)) p i d) _ (rw more at h) in
      let (others, h₂, k₂) = >>=-eq-ok (parse_items fuel p found.1 d) _ k₁ in
      let (rest, there, extend) =
        parse_item-Spells (λ value. parse_items fuel value 0 (suc d)) d
          (λ value children last.
            parse_items-Spells fuel value 0 value (suc d) children last (At-start value))
          p i s found.0 found.1 at h₁ in
      let same : item_then found.0 others.0 ≡ items = ground (arith, k₂) in
      rw same at
        (extend others.0 (parse_items-Spells fuel p found.1 rest d others.0 others.1 there h₂))
]
  where
    nothing : ltb i (length p) ≡ false → s ≡ []
    nothing done = empty_of_length s (ground (arith, At-length p i s at))

nonempty : (tag : Bytes) (constructed : Bool) → TagBytes tag constructed → 0 < length tag
nonempty _ _ (short_tag b f g) = omega arith
nonempty _ _ (long_tag b f g c) = omega arith

-- A turn of the loop, from its item and the turns that follow.
turn-parse_items :
    (fuel : ℕ) (p : Bytes) (i d : ℕ) (tag size value rest : Bytes) (constructed : Bool)
    (children items : BerTlvs)
    → At p i (tag ++ (size ++ (value ++ rest)))
    → TagBytes tag constructed
    → LengthBytes size (length value)
    → children_by (λ v. parse_items fuel v 0 (suc d)) constructed value d ≡ ok children
    → parse_items fuel p (i + length tag + length size + length value) d ≡ ok (items, length p)
    → parse_items (suc fuel) p i d
      ≡ ok (item_then (ber_tlv (hex_upper tag) value constructed children) items, length p)
unfolding parse_items
turn-parse_items fuel p i d tag size value rest constructed children items at t l below later =
    ground (
      arith,
      Spells-parse_item (λ v. parse_items fuel v 0 (suc d)) p i d tag size value rest at constructed
          children t l below,
      later,
      At-length p i (tag ++ (size ++ (value ++ rest))) at,
      length-append tag (size ++ (value ++ rest)),
      nonempty tag constructed t,
    )

length_fields :
    (tag size value rest : Bytes)
    → length (tag ++ (size ++ (value ++ rest)))
      ≡ length tag + length size + length value + length rest
length_fields tag size value rest = omega (
  arith,
  length-append tag (size ++ (value ++ rest)),
  length-append size (value ++ rest),
  length-append value rest,
)

Spells-parse_items :
    (fuel : ℕ) (p : Bytes) (i : ℕ) (s : Bytes) (d : ℕ) (items : BerTlvs)
    → At p i s
    → length s < fuel
    → Spells d s items
    → parse_items fuel p i d ≡ ok (items, length p)
unfolding parse_items children_by
Spells-parse_items zero p i s d items at enough g = absurd (omega arith)
Spells-parse_items (suc fuel) p i _ d _ at enough no_items = all_read
  where
    all_read : parse_items (suc fuel) p i d ≡ ok (none_left, length p)
    all_read = ground (arith, At-length p i [] at)
Spells-parse_items (suc fuel) p i _ d _ at enough
      (primitive {tag} {size} {value} {rest} {items} t l g) =
    turn-parse_items fuel p i d tag size value rest false none_left items at t l refl (
      Spells-parse_items fuel p (i + length tag + length size + length value) rest d items
        (after_item (λ v. parse_items fuel v 0 (suc d)) p i d tag size value rest at)
        (omega (arith, nonempty tag false t, length_fields tag size value rest)) g)
Spells-parse_items (suc fuel) p i _ d _ at enough
      (template {tag} {size} {value} {rest} {children} {items} t l some_value deep c g) =
    turn-parse_items fuel p i d tag size value rest true children items at t l
      (its_children value children some_value (
        Spells-parse_items fuel value 0 value (suc d) children (At-start value)
          (omega (arith, nonempty tag true t, length_fields tag size value rest)) c))
      (Spells-parse_items fuel p (i + length tag + length size + length value) rest d items
        (after_item (λ v. parse_items fuel v 0 (suc d)) p i d tag size value rest at)
        (omega (arith, nonempty tag true t, length_fields tag size value rest)) g)
  where
    its_children :
        (value : Bytes) (children : BerTlvs)
        → 0 < length value
        → parse_items fuel value 0 (suc d) ≡ ok (children, length value)
        → children_by (λ v. parse_items fuel v 0 (suc d)) true value d ≡ ok children
    its_children value children some_value e = ground (arith, some_value, deep, e)

-- `parse_ber_tlv` returns these items exactly if the payload is not empty and spells them: it
-- accepts every payload of the grammar, no other, and with no other items.
pub parse_ber_tlv-Spells :
    (raw : Bytes) (items : BerTlvs)
    → (parse_ber_tlv raw ≡ ok items) ↔ ((0 < length raw) × Spells 0 raw items)
unfolding parse_ber_tlv
parse_ber_tlv-Spells raw items = (spelled, parsed)
  where
    spelled : parse_ber_tlv raw ≡ ok items → (0 < length raw) × Spells 0 raw items
    spelled h = elim (Result-cases (parse_items (suc (length raw)) raw 0 0)) [
      | inr (x, e) ↦ absurd (ground (arith, h, e))
      | inl (found, e) ↦
          let same : found.0 ≡ items = ground (arith, h, e) in
          (
            ground (arith, h),
            rw same at (
                parse_items-Spells (suc (length raw)) raw 0 raw 0 found.0 found.1 (At-start raw) e),
          )
    ]

    parsed : (0 < length raw) × Spells 0 raw items → parse_ber_tlv raw ≡ ok items
    parsed (some_bytes, g) =
        let all =
          Spells-parse_items (suc (length raw)) raw 0 raw 0 items (At-start raw) (omega arith) g in
        ground (arith, all, some_bytes)
