-- ===== src/Prelude/Raising.antt =====
-- Computations that may raise: `none` is the exception.
use mathlib.Core.Path.{◌≡◌, refl, subst}
use mathlib.Core.Option.{Option, none, some}

infixl 5 ◌>>=◌
abbrev pub ◌>>=◌ : {A B : Type 0} → Option A → (A → Option B) → Option B
none >>= f = none
some a >>= f = f a

pub some_inj : {A : Type 0} {a b : A} → some a ≡ some b → a ≡ b
some_inj h = cc

-- Every outcome of a computation satisfies `P`.
pub record Yields {A : Type 0} (P : A → Type 0) (o : Option A) : Type 0 where
  pub at : (a : A) → o ≡ some a → P a

module _ {A : Type 0} {P : A → Type 0} where
  pub Yields-some : (a : A) → P a → Yields P (some a)
  Yields-some a h = record { at = λ x e. subst P (some_inj e) h }

  pub Yields-bind :
      {B : Type 0} (o : Option B) (f : B → Option A)
      → ((x : B) → o ≡ some x → Yields P (f x))
      → Yields P (o >>= f)
  Yields-bind none f h = record { at = λ x e. cc }
  Yields-bind (some x) f h = h x refl
