-- ===== src/Splits/Endless.antt =====
-- A step of zero in `WalkForwardSplitter`, services/worker-training/src/worker_training/data/splits.py.
use gooberberg_terminal.Prelude.{
  ℕ, zero, suc, ◌+◌, ◌≤◌, String, Bool, true, some, List, [], ◌∷◌, ◌++◌, ◌≡◌, refl, length, arith,
}
use gooberberg_terminal.Prelude.Float.{Float}
use gooberberg_terminal.Prelude.Int.{ℤ, pos, ◌+ℤ◌, leb_ℤ}
use gooberberg_terminal.Prelude.Sorting.{IsSorted}
use gooberberg_terminal.Prelude.Value.{Fields, Builtins}
use gooberberg_terminal.Splits.Rows.{TimedRow, order_rows, not_later}
use gooberberg_terminal.Splits.WalkForward.{
  WalkForwardSplitter, WalkForwardWindow, running, train_slice, window_at, walk, walk_forward_split,
}
use gooberberg_terminal.Splits.Windows.{splitter, IsTimeAt}
use gooberberg_terminal.Splits.Returns.{window_at-some, order_rows-IsSorted}

abbrev pub still_splitter : ℕ → ℕ → Bool → WalkForwardSplitter
still_splitter train test expanding = record (splitter train test 0 expanding) { step_size = pos 0 }

module _ {F : Type 0} (train test : ℕ) (expanding : Bool) (ordered : List (TimedRow F))
    (anchor : ℤ) where
  walk-endless :
      (fuel : ℕ) (windows : List WalkForwardWindow)
      → IsSorted not_later ordered
      → suc train + suc test ≤ length ordered
      → IsTimeAt ordered 0 anchor
      → walk fuel (still_splitter train test expanding) ordered anchor (pos (suc train)) windows
        ≡ running
  unfolding walk window_at train_slice
  walk-endless zero windows sorted fits first = refl
  walk-endless (suc fuel) windows sorted fits first =
      let (w, (at, window)) =
        window_at-some train test 0 expanding ordered anchor (suc train) sorted (omega arith) fits
          first in
      let test_fits : leb_ℤ (pos (suc train) +ℤ pos (suc test)) (pos (length ordered)) ≡ true =
        ground arith in
      let same : window_at (still_splitter train test expanding) ordered anchor (pos (suc train))
          ≡ some w =
        at in
      let next : pos (suc train) +ℤ pos 0 ≡ pos (suc train) = ground arith in
      rw (test_fits, same, next) (walk-endless fuel (windows ++ (w ∷ [])) sorted fits first)

module _ {F : Type 0} ⦃d : Float F⦄ ⦃b : Builtins F⦄ where
  -- With a step of zero and rows for one window the split is still in its loop after any number of
  -- turns.
  pub walk_forward_split-never_returns :
      (train test : ℕ) (expanding : Bool) (key : String) (rows : List (Fields F))
      (ordered : List (TimedRow F)) (fuel : ℕ)
      → order_rows key rows ≡ some ordered
      → suc train + suc test ≤ length ordered
      → walk_forward_split fuel (still_splitter train test expanding) key rows ≡ running
  unfolding walk_forward_split
  walk_forward_split-never_returns train test expanding key rows [] fuel h fits =
      absurd (omega arith)
  walk_forward_split-never_returns train test expanding key rows (r ∷ rest) fuel h fits =
      rw (h, walk_forward_split)
        (walk-endless train test expanding (r ∷ rest) r.ts fuel []
          (order_rows-IsSorted key rows (r ∷ rest) h) fits (r, (refl, refl)))
