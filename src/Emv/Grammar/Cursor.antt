-- ===== src/Emv/Grammar/Cursor.antt =====
-- Bytes that follow in a payload at an offset, for the reads of app/emv.py.
use mathlib.Core.List.{append_assoc}
use atlas_pay.Prelude.{
  length, slice, length-append, slice-middle, ok, Bytes, ℕ, zero, suc, ◌+◌, ◌≤◌, ◌≡◌, refl, sym, ap,
  ◌∙◌, [], ◌∷◌, ◌++◌, arith,
}
use atlas_pay.Emv.{byte_at}

-- The payload ends in these bytes, which start at the offset.
pub record At (payload : Bytes) (offset : ℕ) (suffix : Bytes) : Type 0 where
  pub prefix : Bytes
  pub whole : payload ≡ prefix ++ suffix
  pub start : offset ≡ length prefix

pub At-start : (payload : Bytes) → At payload 0 payload
At-start payload = record { prefix = []; whole = refl; start = refl }

pub At-length : (p : Bytes) (i : ℕ) (s : Bytes) → At p i s → length p ≡ i + length s
At-length p i s a = omega (arith, ap length a.whole, a.start, length-append a.prefix s)

pub At-skip : (p : Bytes) (i : ℕ) (xs s : Bytes) → At p i (xs ++ s) → At p (i + length xs) s
At-skip p i xs s a = record {
  prefix = a.prefix ++ xs;
  whole = a.whole ∙ sym (append_assoc a.prefix xs s);
  start = omega (arith, a.start, length-append a.prefix xs);
}

pub At-next : (p : Bytes) (i b : ℕ) (s : Bytes) → At p i (b ∷ s) → At p (suc i) s
At-next p i b s a = let k : i + 1 ≡ suc i = omega arith in rw k at (At-skip p i (b ∷ []) s a)

byte_after : (xs : Bytes) (b : ℕ) (s : Bytes) → byte_at (xs ++ (b ∷ s)) (length xs) ≡ ok b
unfolding byte_at
byte_after [] b s = refl
byte_after (x ∷ xs) b s = byte_after xs b s

pub At-byte : (p : Bytes) (i b : ℕ) (s : Bytes) → At p i (b ∷ s) → byte_at p i ≡ ok b
At-byte p i b s a = rw (a.whole, a.start) (byte_after a.prefix b s)

pub At-slice :
    (p : Bytes) (i : ℕ) (xs s : Bytes) → At p i (xs ++ s) → slice p i (i + length xs) ≡ xs
At-slice p i xs s a =
    rw a.whole (slice-middle a.prefix xs s i (i + length xs) a.start (omega (arith, a.start)))

-- What a read took from the bytes at an offset, and where it left off.
pub record Taken (payload suffix : Bytes) (next : ℕ) (Fits : Bytes → Type 0) : Type 0 where
  pub bytes : Bytes
  pub rest : Bytes
  pub split : suffix ≡ bytes ++ rest
  pub next_at : At payload next rest
  pub fits : Fits bytes

-- Bytes that are long enough have a front of each length.
pub divide :
    (n : ℕ) (s : Bytes)
    → n ≤ length s
    → (xs : Bytes) × (rest : Bytes) × (s ≡ xs ++ rest) × (length xs ≡ n)
divide zero s h = ([], s, refl, refl)
divide (suc n) [] h = absurd (omega arith)
divide (suc n) (b ∷ s) h =
    let (xs, rest, e, l) = divide n s (omega arith) in
    (b ∷ xs, rest, ap (λ r. b ∷ r) e, omega (arith, l))
