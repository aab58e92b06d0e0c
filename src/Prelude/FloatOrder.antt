-- ===== src/Prelude/FloatOrder.antt =====
-- Consequences of the laws of floats.
use gooberberg_terminal.Prelude.Tests.{Bool-cases}
use mathlib.Core.Path.{◌≡◌}
use mathlib.Core.Logic.{inl, inr}
use mathlib.Core.Bool.{true, false}
use native.Mathlib.Omega.{arith}
use gooberberg_terminal.Prelude.Float.{
  Float, IsOrdered, nought, ◌<=◌, ◌<<◌, fmax, fmin, fabs, ◌≼◌, IsNumber,
}

module _ {F : Type 0} ⦃d : Float F⦄ (laws : IsOrdered F) where
  pub le_of_not_lt : (x y : F) → IsNumber x → IsNumber y → (x << y) ≡ false → y ≼ x
  le_of_not_lt x y hx hy h = ground (arith, laws.lt-eq-not-le x y hx hy)

  pub not_le_of_lt : (x y : F) → (x << y) ≡ true → (y <= x) ≡ false
  not_le_of_lt x y h =
      let le : x ≼ y = laws.le_of_lt x y h in
      ground (arith, laws.lt-eq-not-le x y (laws.refl_left x y le) (laws.refl_right x y le))

  pub lt_of_lt_of_le : (x y z : F) → (x << y) ≡ true → y ≼ z → (x << z) ≡ true
  lt_of_lt_of_le x y z h k =
      let le : x ≼ y = laws.le_of_lt x y h in
      ground (
        arith,
        laws.lt-eq-not-le x z (laws.refl_left x y le) (laws.refl_right y z k),
        not_le_of_lt x y h,
        laws.le_trans y z x k,
      )

  -- `max(x, 0.0)` is at least 0, unless `x` is NaN.
  pub fmax_nonneg : (x : F) → IsNumber x → nought ≼ fmax x nought
  fmax_nonneg x h = elim (Bool-cases (x << nought)) [
    | inl below ↦ rw below (laws.number 0)
    | inr above ↦ rw above (le_of_not_lt x nought h (laws.number 0) above)
  ]

  pub fabs_nonneg : (x : F) → IsNumber x → nought ≼ fabs x
  fabs_nonneg x h = elim (Bool-cases (x << nought)) [
    | inl below ↦ rw below (laws.neg_nonneg x below)
    | inr above ↦ rw above (le_of_not_lt x nought h (laws.number 0) above)
  ]

  pub fmin_le_left : (x y : F) → IsNumber x → IsNumber y → fmin x y ≼ x
  fmin_le_left x y hx hy = ground (arith, laws.le_of_lt y x)

  pub fmin_le_right : (x y : F) → IsNumber x → IsNumber y → fmin x y ≼ y
  fmin_le_right x y hx hy = ground (arith, le_of_not_lt y x hy hx)

  pub le_fmin : (x y z : F) → z ≼ x → z ≼ y → z ≼ fmin x y
  le_fmin x y z hx hy = ground arith

  pub le_fmax_left : (x y : F) → IsNumber x → IsNumber y → x ≼ fmax x y
  le_fmax_left x y hx hy = ground (arith, laws.le_of_lt x y)

  pub le_fmax_right : (x y : F) → IsNumber x → IsNumber y → y ≼ fmax x y
  le_fmax_right x y hx hy = ground (arith, le_of_not_lt x y hx hy)

  pub fmax_le : (x y z : F) → x ≼ z → y ≼ z → fmax x y ≼ z
  fmax_le x y z hx hy = ground arith

  -- `max(0.0, min(q, x))` grows with `x`.
  pub clamp_mono :
      (q x y : F) → IsNumber q → x ≼ y → fmax nought (fmin q x) ≼ fmax nought (fmin q y)
  clamp_mono q x y hq h =
      let hx = laws.refl_left x y h in
      let hy = laws.refl_right x y h in
      let low : fmin q x ≼ fmin q y =
        le_fmin q y (fmin q x) (fmin_le_left q x hq hx)
          (laws.le_trans _ x y (fmin_le_right q x hq hx) h) in
      let number = laws.refl_right _ _ low in
      fmax_le nought (fmin q x) _ (le_fmax_left nought (fmin q y) (laws.number 0) number)
        (laws.le_trans _ _ _ low (le_fmax_right nought (fmin q y) (laws.number 0) number))
