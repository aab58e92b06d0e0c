-- ===== src/Prelude/FixedPoint.antt =====
-- Decimal fractions of twelve digits as an instance of `Float`: sums are exact, products are cut off.
-- Tests run the definitions on it where whole numbers are too coarse.
use Prim.Native.Nat.{ℕ, ◌*◌}
use mathlib.Core.Option.{none, some}
use native.Mathlib.Omega.{arith}
use gooberberg_terminal.Prelude.Int.{ℤ, pos, ◌+ℤ◌, ◌-ℤ◌, leb_ℤ, ltb_ℤ, negate, mul_ℤ, div_ℤ}
use gooberberg_terminal.Prelude.Float.{Float, IsOrdered}
use gooberberg_terminal.Prelude.Value.{text, Builtins}

abbrev pub unit : ℤ
unit = pos 1000000000000

instance abbrev pub fixed_point : Float ℤ
fixed_point = record {
  of_nat = λ n. pos (n * 1000000000000);
  le = leb_ℤ;
  lt = ltb_ℤ;
  add = ◌+ℤ◌;
  sub = ◌-ℤ◌;
  mul = λ x y. div_ℤ (mul_ℤ x y) unit;
  div = λ x y. div_ℤ (mul_ℤ x unit) y;
  neg = negate;
}

abbrev pub fixed : ℕ → ℤ
fixed n = fixed_point.of_nat n

-- No text reads as a number.
instance abbrev pub fixed_builtins : Builtins ℤ
fixed_builtins = record {
  parse_float = λ s. none;
  parse_int = λ s. none;
  truncate = some;
  str = λ v. elim v [ text s ↦ s | _ ↦ "" ];
}

pub fixed-IsOrdered : IsOrdered ℤ
fixed-IsOrdered = ground arith
