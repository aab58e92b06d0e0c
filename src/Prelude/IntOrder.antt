-- ===== src/Prelude/IntOrder.antt =====
-- Python's `int` read through its two parts, for the arithmetic of the native numbers.
use Prim.Native.Nat.{ℕ, ◌+◌, ◌≤◌, ◌<◌}
use mathlib.Core.Path.{◌≡◌}
use mathlib.Core.Logic.{◌↔◌}
use mathlib.Core.Bool.{true, false}
use native.Mathlib.Omega.{arith}
use gooberberg_terminal.Prelude.Int.{ℤ, pos_part, neg_part, sub_ℕ, ◌+ℤ◌, ◌-ℤ◌, leb_ℤ, ltb_ℤ}

pub sub_ℕ-parts : (a b : ℕ) → pos_part (sub_ℕ a b) + b ≡ neg_part (sub_ℕ a b) + a
sub_ℕ-parts a b = ground arith

pub add-parts :
    (a b : ℤ)
    → pos_part (a +ℤ b) + (neg_part a + neg_part b) ≡ neg_part (a +ℤ b) + (pos_part a + pos_part b)
add-parts a b = sub_ℕ-parts (pos_part a + pos_part b) (neg_part a + neg_part b)

pub sub-parts :
    (a b : ℤ)
    → pos_part (a -ℤ b) + (neg_part a + pos_part b) ≡ neg_part (a -ℤ b) + (pos_part a + neg_part b)
sub-parts a b = sub_ℕ-parts (pos_part a + neg_part b) (neg_part a + pos_part b)

pub leb_ℤ_iff : (a b : ℤ) → (leb_ℤ a b ≡ true) ↔ (pos_part a + neg_part b ≤ pos_part b + neg_part a)
leb_ℤ_iff a b = ground arith

pub leb_ℤ-false :
    (a b : ℤ) → (leb_ℤ a b ≡ false) ↔ (pos_part b + neg_part a < pos_part a + neg_part b)
leb_ℤ-false a b = ground arith

pub ltb_ℤ_iff : (a b : ℤ) → (ltb_ℤ a b ≡ true) ↔ (pos_part a + neg_part b < pos_part b + neg_part a)
ltb_ℤ_iff a b = ground arith

pub ltb_ℤ-false :
    (a b : ℤ) → (ltb_ℤ a b ≡ false) ↔ (pos_part b + neg_part a ≤ pos_part a + neg_part b)
ltb_ℤ-false a b = ground arith

pub leb_ℤ-total : (a b : ℤ) → leb_ℤ a b ≡ false → leb_ℤ b a ≡ true
leb_ℤ-total a b h = ground arith

pub leb_ℤ-trans : (a b c : ℤ) → leb_ℤ a b ≡ true → leb_ℤ b c ≡ true → leb_ℤ a c ≡ true
leb_ℤ-trans a b c h k = ground arith

pub leb_ℤ-refl : (a : ℤ) → leb_ℤ a a ≡ true
leb_ℤ-refl a = ground arith
