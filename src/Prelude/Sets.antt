-- ===== src/Prelude/Sets.antt =====
-- A Python set as the list of its members.
use mathlib.Core.Bool.{true, not, ◌&&◌, ◌||◌}
use mathlib.Core.List.{List, [], ◌∷◌}
use mathlib.Core.Path.{◌≡◌, refl}
use native.Mathlib.Omega.{arith}
use atlas_pay.Prelude.Equality.{Eq, ◌==◌, mem}
use atlas_pay.Prelude.Tests.{if◌then◌else◌}

module _ {ℓ} {A : Type ℓ} ⦃e : Eq A⦄ where
  -- `s.add(a)`
  unfoldable pub add : A → List A → List A
  add a s = if mem a s then s else a ∷ s

  -- `s.remove(a)`, for a member
  unfoldable pub discard : A → List A → List A
  discard a [] = []
  discard a (x ∷ s) = let rest = discard a s in if a == x then rest else x ∷ rest

  mem-congr : (a b : A) (s : List A) → (a == b) ≡ true → mem a s ≡ mem b s
  mem-congr a b [] h = refl
  mem-congr a b (x ∷ s) h =
      ground (arith, e.beq_iff a b, e.beq_iff a x, e.beq_iff b x, mem-congr a b s h)

  pub mem-add : (a b : A) (s : List A) → mem b (add a s) ≡ (b == a || mem b s)
  unfolding add
  mem-add a b s = ground (arith, mem-congr b a s)

  pub mem-discard : (a b : A) (s : List A) → mem b (discard a s) ≡ (not (b == a) && mem b s)
  unfolding discard
  mem-discard a b [] = ground arith
  mem-discard a b (x ∷ s) =
      ground (arith, e.beq_iff a b, e.beq_iff b a, e.beq_iff a x, e.beq_iff b x, mem-discard a b s)
