-- ===== src/Prelude/Value.antt =====
-- JSON values, as `dict[str, Any]` holds them, and Python's conversions of them.
use Prim.Native.Nat.{zero, suc}
use Prim.Native.String.{String}
use mathlib.Core.Bool.{Bool, true, false, not, ◌&&◌}
use mathlib.Core.Option.{Option, none, some}
use gooberberg_terminal.Prelude.Tests.{◌==◌, string_eq, if◌then◌else◌}
use gooberberg_terminal.Prelude.Int.{ℤ, pos, negsuc}
use gooberberg_terminal.Prelude.Float.{Float}

mutual
  pub data Value (F : Type 0) : Type 0 where
    null : Value F
    bool : Bool → Value F
    int : ℤ → Value F
    num : F → Value F
    text : String → Value F
    arr : Items F → Value F
    obj : Fields F → Value F

  pub data Items (F : Type 0) : Type 0 where
    nil : Items F
    cons : Value F → Items F → Items F

  pub data Fields (F : Type 0) : Type 0 where
    end : Fields F
    field : String → Value F → Fields F → Fields F

-- What the builtins do with a value whose text or fraction has to be read: `float(s)` and `int(s)`
-- of a text, `int(x)` of a float, and `str(v)`. `none` is a raised `ValueError`.
pub record Builtins (F : Type 0) : Type 0 where
  pub parse_float : String → Option F
  pub parse_int : String → Option ℤ
  pub truncate : F → Option ℤ
  pub str : Value F → String

module _ {F : Type 0} where
  -- `d.get(key)`
  unfoldable pub get : String → Fields F → Option (Value F)
  get key end = none
  get key (field name v rest) = if name == key then some v else get key rest

  -- `d.get(key, default)`
  abbrev pub get_or : String → Value F → Fields F → Value F
  get_or key default d = elim (get key d) [ none ↦ default | some v ↦ v ]

  -- `d[key] = value`
  unfoldable pub put : String → Value F → Fields F → Fields F
  put key value end = field key value end
  put key value (field name v rest) =
      let kept = put key value rest in
      if name == key then field name value rest else field name v kept

module _ {F : Type 0} ⦃d : Float F⦄ ⦃b : Builtins F⦄ where
  abbrev pub of_int : ℤ → F
  of_int (pos n) = d.of_nat n
  of_int (negsuc n) = d.neg (d.of_nat (suc n))

  -- `float(v)`
  abbrev pub to_float : Value F → Option F
  to_float (bool true) = some (d.of_nat 1)
  to_float (bool false) = some (d.of_nat 0)
  to_float (int n) = some (of_int n)
  to_float (num x) = some x
  to_float (text s) = b.parse_float s
  to_float _ = none

  -- `int(v)`
  abbrev pub to_int : Value F → Option ℤ
  to_int (bool true) = some (pos 1)
  to_int (bool false) = some (pos 0)
  to_int (int n) = some n
  to_int (num x) = b.truncate x
  to_int (text s) = b.parse_int s
  to_int _ = none

module _ {F : Type 0} ⦃d : Float F⦄ where
  -- The truth of a value, as `or`, `not` and `if` test it.
  abbrev pub is_truthy : Value F → Bool
  is_truthy null = false
  is_truthy (bool b) = b
  is_truthy (int (pos zero)) = false
  is_truthy (int _) = true
  is_truthy (num x) = not (d.le x (d.of_nat 0) && d.le (d.of_nat 0) x)
  is_truthy (text s) = not (s == "")
  is_truthy (arr nil) = false
  is_truthy (arr _) = true
  is_truthy (obj end) = false
  is_truthy (obj _) = true
