-- ===== src/Prelude/Raises.antt =====
-- Calls that raise one class of exceptions at most.
use mathlib.Core.Path.{◌≡◌, refl}
use mathlib.Core.Bool.{Bool, true, false}
use mathlib.Core.Option.{Option, none, some}
use atlas_pay.Prelude.Tests.{if◌then◌else◌}
use atlas_pay.Prelude.Results.{Error, Result, ok, err, ◌>>=◌, raise_if, or_raise}

-- A call that returns, or raises this error.
pub data RaisesOnly {ℓ} {A : Type ℓ} (e : Error) : Result A → Type ℓ where
  returns : (a : A) → RaisesOnly e (ok a)
  raises : RaisesOnly e (err e)

module _ {ℓ} {e : Error} where
  pub raises_bind :
      {A B : Type ℓ} {m : Result A} {f : A → Result B}
      → RaisesOnly e m
      → ((a : A) → RaisesOnly e (f a))
      → RaisesOnly e (m >>= f)
  raises_bind (returns a) k = k a
  raises_bind raises k = raises

  -- The same, where what follows may depend on how the call returned.
  pub raises_after :
      {A B : Type ℓ} (m : Result A) {f : A → Result B}
      → RaisesOnly e m
      → ((a : A) → m ≡ ok a → RaisesOnly e (f a))
      → RaisesOnly e (m >>= f)
  raises_after _ (returns a) k = k a refl
  raises_after _ raises k = raises

  pub raises_none : {A : Type ℓ} (o : Option A) → RaisesOnly e (or_raise o e)
  raises_none none = raises
  raises_none (some a) = returns a

  pub raises_either :
      {A : Type ℓ} (b : Bool) {m n : Result A}
      → RaisesOnly e m
      → RaisesOnly e n
      → RaisesOnly e (if b then m else n)
  raises_either true h k = h
  raises_either false h k = k

  pub error_of : {A : Type ℓ} {r : Result A} (x : Error) → RaisesOnly e r → r ≡ err x → x ≡ e
  error_of x (returns a) h = cc
  error_of x raises h = cc

pub raises_if : {e : Error} (b : Bool) → RaisesOnly e (raise_if b e)
raises_if true = raises
raises_if false = returns tt
