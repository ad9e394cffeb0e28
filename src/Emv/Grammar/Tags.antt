-- ===== src/Emv/Grammar/Tags.antt =====
-- Lemmas on `_read_tag` of app/emv.py: it reads the tags of the grammar and no other bytes.
use mathlib.Core.List.{append_assoc}
use Prim.Native.Nat.{bit_and}
use atlas_pay.Prelude.{
  Bool-cases, length, length-append, ok, Result-cases, text_eq, ◌==◌, nat_eq, Text, Bytes, ℕ, zero,
  suc, ◌+◌, ◌≡◌, refl, ap, ◌∙◌, inl, inr, Bool, true, not, [], ◌∷◌, ◌++◌, arith,
}
use atlas_pay.Emv.{hex_upper, tag_tail, read_tag}
use atlas_pay.Emv.Grammar.{Continues, last_byte, one_byte, TagBytes, short_tag, long_tag}
use atlas_pay.Emv.Grammar.Cursor.{At, At-length, At-next, At-byte, Taken}

tag_tail-Continues :
    (room : ℕ) (p : Bytes) (i : ℕ) (s tag found : Bytes) (next : ℕ)
    → At p i s
    → room + length tag ≡ 4
    → tag_tail room p (length p) i tag ≡ ok (found, next)
    → Taken p s next (λ bs. (found ≡ tag ++ bs) × Continues (length tag) bs)
unfolding tag_tail
tag_tail-Continues zero p i s tag found next a full h = absurd (ground arith)
tag_tail-Continues (suc room) p i [] tag found next a full h =
    absurd (ground (arith, At-length p i [] a))
tag_tail-Continues (suc room) p i (b ∷ s) tag found next a full h =
    let e = At-byte p i b s a in
    elim (Bool-cases (bit_and b 128 == 0)) [
      | inl f ↦ record {
        bytes = b ∷ [];
        rest = s;
        split = refl;
        next_at = rw (← (ends f)) (At-next p i b s a);
        fits = (ground (arith, e, f), last_byte b (omega arith) (ground (arith, e, f)) f);
      }
      | inr f ↦
          let r =
            tag_tail-Continues room p (suc i) s (tag ++ (b ∷ [])) found next (At-next p i b s a)
              (omega (arith, full, length-append tag (b ∷ []))) (ground (arith, h, e, f)) in
          let longer : length (tag ++ (b ∷ [])) ≡ suc (length tag) =
            omega (arith, length-append tag (b ∷ [])) in
          record {
            bytes = b ∷ r.bytes;
            rest = r.rest;
            split = ap (λ l. b ∷ l) r.split;
            next_at = r.next_at;
            fits = (
              r.fits.0 ∙ append_assoc tag (b ∷ []) r.bytes,
              one_byte b (omega arith) (ground (arith, h, e, f)) f (rw longer at r.fits.1),
            );
          }
    ]
  where
    ends : (bit_and b 128 == 0) ≡ true → suc i ≡ next
    ends f = ground (arith, At-byte p i b s a, f)

-- The same bytes, with anything behind them, are read as that tail.
Continues-tag_tail :
    (n room : ℕ) (p : Bytes) (i : ℕ) (bs rest tag : Bytes)
    → At p i (bs ++ rest)
    → room + length tag ≡ 4
    → length tag ≡ n
    → Continues n bs
    → tag_tail room p (length p) i tag ≡ ok (tag ++ bs, i + length bs)
unfolding tag_tail
Continues-tag_tail n zero p i _ rest tag a full l (last_byte b few f g) = absurd (omega arith)
Continues-tag_tail n zero p i _ rest tag a full l (one_byte b few f g c) = absurd (omega arith)
Continues-tag_tail n (suc room) p i _ rest tag a full l (last_byte b few f g) =
    ground (arith, At-byte p i b rest a, At-length p i (b ∷ rest) a, f, g, l)
Continues-tag_tail n (suc room) p i _ rest tag a full l (one_byte {bs} b few f g c) =
    let ih =
      Continues-tag_tail (suc n) room p (suc i) bs rest (tag ++ (b ∷ []))
        (At-next p i b (bs ++ rest) a) (omega (arith, full, length-append tag (b ∷ [])))
        (omega (arith, l, length-append tag (b ∷ []))) c in
    ground (
      arith,
      At-byte p i b (bs ++ rest) a,
      At-length p i (b ∷ (bs ++ rest)) a,
      f,
      g,
      l,
      rw (append_assoc tag (b ∷ []) bs) at ih,
    )

pub read_tag-TagBytes :
    (p : Bytes) (i : ℕ) (s : Bytes) (tag : Text) (constructed : Bool) (next : ℕ)
    → At p i s
    → read_tag p i (length p) ≡ ok (tag, constructed, next)
    → Taken p s next (λ bs. (tag ≡ hex_upper bs) × TagBytes bs constructed)
unfolding read_tag
read_tag-TagBytes p i [] tag constructed next a h = absurd (ground (arith, At-length p i [] a))
read_tag-TagBytes p i (b ∷ s) tag constructed next a h =
    let e = At-byte p i b s a in
    elim (Bool-cases (bit_and b 31 == 31)) [
      | inl f ↦ elim (Result-cases (tag_tail 3 p (length p) (suc i) (b ∷ []))) [
        | inr (x, g) ↦ absurd (ground (arith, h, e, f, g))
        | inl (found, g) ↦
            let r =
              tag_tail-Continues 3 p (suc i) s (b ∷ []) found.0 found.1 (At-next p i b s a) refl
                g in
            let ends : found.1 ≡ next = ground (arith, h, e, f, g) in
            let kind : not (bit_and b 32 == 0) ≡ constructed = ground (arith, h, e, f, g) in
            let same : tag ≡ hex_upper found.0 = ground (arith, h, e, f, g) in
            record {
              bytes = b ∷ r.bytes;
              rest = r.rest;
              split = ap (λ l. b ∷ l) r.split;
              next_at = rw (← ends) r.next_at;
              fits = (
                same ∙ ap hex_upper r.fits.0,
                rw (← kind) (long_tag b (ground (arith, h, e, f, g)) f r.fits.1),
              );
            }
      ]
      | inr f ↦
          let ends : suc i ≡ next = ground (arith, e, f) in
          let kind : not (bit_and b 32 == 0) ≡ constructed = ground (arith, e, f) in
          record {
            bytes = b ∷ [];
            rest = s;
            split = refl;
            next_at = rw (← ends) (At-next p i b s a);
            fits = (ground (arith, e, f), rw (← kind) (short_tag b (ground (arith, e, f)) f));
          }
    ]

pub TagBytes-read_tag :
    (p : Bytes) (i : ℕ) (bs rest : Bytes) (constructed : Bool)
    → At p i (bs ++ rest)
    → TagBytes bs constructed
    → read_tag p i (length p) ≡ ok (hex_upper bs, constructed, i + length bs)
unfolding read_tag
TagBytes-read_tag p i _ rest _ a (short_tag b f g) =
    ground (arith, At-byte p i b rest a, At-length p i (b ∷ rest) a, f, g)
TagBytes-read_tag p i _ rest _ a (long_tag {bs} b f g c) =
    let tail =
      Continues-tag_tail 1 3 p (suc i) bs rest (b ∷ []) (At-next p i b (bs ++ rest) a) refl refl
        c in
    ground (arith, At-byte p i b (bs ++ rest) a, At-length p i (b ∷ (bs ++ rest)) a, f, g, tail)
