-- ===== src/Emv/Grammar/Lengths.antt =====
-- Lemmas on `_read_length` of app/emv.py: it reads the lengths of the grammar and no other bytes.
use Prim.Native.Nat.{bit_and}
use atlas_pay.Prelude.{
  ltb, Bool-cases, length, slice, length-append, ok, Bytes, ℕ, suc, ◌+◌, ◌≤◌, ◌<◌, ◌≡◌, refl, sym,
  ap, ◌≢◌, inl, inr, false, [], ◌∷◌, ◌++◌, arith,
}
use atlas_pay.Prelude.Bits.{from_bytes}
use atlas_pay.Emv.{byte_at, long_length, read_length}
use atlas_pay.Emv.Grammar.{LengthBytes, short_form, long_form}
use atlas_pay.Emv.Grammar.Cursor.{At, At-length, At-skip, At-next, At-byte, At-slice, Taken, divide}

module _ (p : Bytes) (i width size next : ℕ) (big : ltb width 128 ≡ false)
    (read : long_length p i (length p) width ≡ ok (size, next)) where
  -- The bytes of the length, once they are divided from what follows.
  split-LengthBytes :
      (xs rest : Bytes)
      → At p i (xs ++ rest)
      → length xs ≡ bit_and width 127
      → Taken p (xs ++ rest) next (λ bs. LengthBytes (width ∷ bs) size)
  unfolding long_length byte_at
  split-LengthBytes [] rest a l = absurd (ground arith)
  split-LengthBytes (b ∷ bs) rest a l =
      let encoded : slice p i (i + bit_and width 127) ≡ b ∷ bs =
        rw l at (At-slice p i (b ∷ bs) rest a) in
      let ends : i + length (b ∷ bs) ≡ next = ground (arith, read, encoded, big, l) in
      let same : from_bytes (b ∷ bs) ≡ size = ground (arith, read, encoded, big, l) in
      record {
        bytes = b ∷ bs;
        rest = rest;
        split = refl;
        next_at = rw (← ends) (At-skip p i (b ∷ bs) rest a);
        fits = rw (← same) (
            long_form width b bs (ground (arith, read, encoded, big, l)) (sym l)
              (ground (arith, read, encoded, big, l)) (ground (arith, read, encoded, big, l))
              (ground (arith, read, encoded, big, l)));
      }

  long_length-LengthBytes :
      (s : Bytes) → At p i s → Taken p s next (λ bs. LengthBytes (width ∷ bs) size)
  unfolding long_length
  long_length-LengthBytes s a =
      let (xs, rest, e, l) = divide (bit_and width 127) s (ground (arith, At-length p i s a)) in
      rw e (split-LengthBytes xs rest (rw e at a) l)

long_form-long_length :
    (p : Bytes) (i width b : ℕ) (bs rest : Bytes)
    → At p i (b ∷ (bs ++ rest))
    → 128 < width
    → bit_and width 127 ≡ length (b ∷ bs)
    → length (b ∷ bs) ≤ 3
    → b ≢ 0
    → 128 ≤ from_bytes (b ∷ bs)
    → long_length p i (length p) width ≡ ok (from_bytes (b ∷ bs), i + length (b ∷ bs))
unfolding long_length byte_at
long_form-long_length p i width b bs rest a big w few nonzero large =
    let encoded : slice p i (i + bit_and width 127) ≡ b ∷ bs =
      rw (← w) at (At-slice p i (b ∷ bs) rest a) in
    ground (arith, encoded, At-length p i (b ∷ (bs ++ rest)) a, length-append bs rest, w)

pub read_length-LengthBytes :
    (p : Bytes) (i : ℕ) (s : Bytes) (size next : ℕ)
    → At p i s
    → read_length p i (length p) ≡ ok (size, next)
    → Taken p s next (λ bs. LengthBytes bs size)
unfolding read_length
read_length-LengthBytes p i [] size next a h = absurd (ground (arith, At-length p i [] a))
read_length-LengthBytes p i (b ∷ s) size next a h =
    let e = At-byte p i b s a in
    elim (Bool-cases (ltb b 128)) [
      | inl f ↦
          let ends : suc i ≡ next = ground (arith, h, e, f) in
          let same : b ≡ size = ground (arith, h, e, f) in
          record {
            bytes = b ∷ [];
            rest = s;
            split = refl;
            next_at = rw (← ends) (At-next p i b s a);
            fits = rw (← same) (short_form b (ground (arith, f)));
          }
      | inr f ↦
          let r =
            long_length-LengthBytes p (suc i) b size next f (ground (arith, h, e, f)) s
              (At-next p i b s a) in
          record {
            bytes = b ∷ r.bytes;
            rest = r.rest;
            split = ap (λ l. b ∷ l) r.split;
            next_at = r.next_at;
            fits = r.fits;
          }
    ]

pub LengthBytes-read_length :
    (p : Bytes) (i : ℕ) (bs rest : Bytes) (size : ℕ)
    → At p i (bs ++ rest)
    → LengthBytes bs size
    → read_length p i (length p) ≡ ok (size, i + length bs)
unfolding read_length
LengthBytes-read_length p i _ rest _ a (short_form n small) =
    ground (arith, At-byte p i n rest a, At-length p i (n ∷ rest) a, small)
LengthBytes-read_length p i _ rest _ a (long_form width b bs big w few nonzero large) =
    let long =
      long_form-long_length p (suc i) width b bs rest (At-next p i width (b ∷ (bs ++ rest)) a) big w
        few nonzero large in
    ground (
      arith,
      At-byte p i width (b ∷ (bs ++ rest)) a,
      At-length p i (width ∷ b ∷ (bs ++ rest)) a,
      big,
      long,
    )
