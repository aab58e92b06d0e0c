-- ===== src/Prelude/Float.antt =====
-- Python's `float` as an interface: the operations that the program calls, and the documented
-- facts of IEEE 754 comparison and addition that some theorems assume. NaN is the value that is
-- not `<=` itself.
use Prim.Native.Nat.{ℕ}
use mathlib.Core.Path.{◌≡◌}
use mathlib.Core.Bool.{Bool, true, not}
use gooberberg_terminal.Prelude.Tests.{if◌then◌else◌}

pub record Float (F : Type 0) : Type 0 where
  pub of_nat : ℕ → F
  pub le : F → F → Bool
  pub lt : F → F → Bool
  pub add : F → F → F
  pub sub : F → F → F
  pub mul : F → F → F
  pub div : F → F → F
  pub neg : F → F

module _ {F : Type 0} ⦃d : Float F⦄ where
  abbrev pub nought : F
  nought = d.of_nat 0

  abbrev pub one : F
  one = d.of_nat 1

  infix 50 ◌<=◌ ◌<<◌
  infixl 65 ◌⊕◌ ◌⊖◌
  infixl 70 ◌⊗◌ ◌⊘◌
  abbrev pub ◌<=◌ : F → F → Bool
  ◌<=◌ = d.le

  abbrev pub ◌<<◌ : F → F → Bool
  ◌<<◌ = d.lt

  abbrev pub ◌⊕◌ : F → F → F
  ◌⊕◌ = d.add

  abbrev pub ◌⊖◌ : F → F → F
  ◌⊖◌ = d.sub

  abbrev pub ◌⊗◌ : F → F → F
  ◌⊗◌ = d.mul

  abbrev pub ◌⊘◌ : F → F → F
  ◌⊘◌ = d.div

  -- `max(a, b)` is `b` only if `b > a`, and `min(a, b)` is `b` only if `b < a`.
  abbrev pub fmax : F → F → F
  fmax a b = if a << b then b else a

  abbrev pub fmin : F → F → F
  fmin a b = if b << a then b else a

  abbrev pub fabs : F → F
  fabs x = if x << d.of_nat 0 then d.neg x else x

  infix 4 ◌≼◌
  abbrev pub ◌≼◌ : F → F → Type 0
  x ≼ y = d.le x y ≡ true

  abbrev pub IsNumber : F → Type 0
  IsNumber x = d.le x x ≡ true

-- What IEEE 754 says of the operations, at every value: NaN and the infinities included.
pub record IsOrdered (F : Type 0) ⦃d : Float F⦄ : Type 0 where
  pub number : (n : ℕ) → d.of_nat n ≼ d.of_nat n
  pub zero_one : d.of_nat 0 ≼ d.of_nat 1
  pub refl_left : (x y : F) → x ≼ y → x ≼ x
  pub refl_right : (x y : F) → x ≼ y → y ≼ y
  pub le_trans : (x y z : F) → x ≼ y → y ≼ z → x ≼ z
  pub lt-eq-not-le : (x y : F) → x ≼ x → y ≼ y → d.lt x y ≡ not (d.le y x)
  pub le_of_lt : (x y : F) → d.lt x y ≡ true → x ≼ y
  pub neg_nonneg : (x : F) → d.lt x (d.of_nat 0) ≡ true → d.of_nat 0 ≼ d.neg x
  pub add_grows : (x y : F) → d.of_nat 0 ≼ x → d.of_nat 0 ≼ y → x ≼ d.add x y
