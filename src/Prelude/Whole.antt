-- ===== src/Prelude/Whole.antt =====
-- Whole numbers as an instance of `Float`: the type on which tests run the definitions.
use native.Mathlib.Omega.{arith}
use gooberberg_terminal.Prelude.Int.{ℤ, pos, ◌+ℤ◌, ◌-ℤ◌, leb_ℤ, ltb_ℤ, negate, mul_ℤ, div_ℤ}
use gooberberg_terminal.Prelude.Float.{Float, IsOrdered}
use gooberberg_terminal.Prelude.Value.{text, Builtins}
use mathlib.Core.Option.{none, some}

instance abbrev pub int_float : Float ℤ
int_float = record {
  of_nat = pos;
  le = leb_ℤ;
  lt = ltb_ℤ;
  add = ◌+ℤ◌;
  sub = ◌-ℤ◌;
  mul = mul_ℤ;
  div = div_ℤ;
  neg = negate;
}

-- No text reads as a number, and only a text has itself as its `str`.
instance abbrev pub int_builtins : Builtins ℤ
int_builtins = record {
  parse_float = λ s. none;
  parse_int = λ s. none;
  truncate = some;
  str = λ v. elim v [ text s ↦ s | _ ↦ "" ];
}

pub int-IsOrdered : IsOrdered ℤ
int-IsOrdered = ground arith
