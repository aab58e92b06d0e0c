-- ===== src/Splits/Purged.antt =====
-- `PurgedKFold` of services/worker-training/src/worker_training/data/splits.py.
use gooberberg_terminal.Prelude.{
  ℕ, zero, suc, ◌+◌, ◌-◌, ◌*◌, ◌/◌, String, Bool, not, ◌&&◌, ◌||◌, Option, none, some, List, [],
  ◌∷◌, nat_eq, if◌then◌else◌, ◌==◌, leb, length, filter, head?,
}
use gooberberg_terminal.Prelude.Float.{Float}
use gooberberg_terminal.Prelude.Int.{ℤ, pos, leb_ℤ, ltb_ℤ, ◌+ℤ◌, ◌-ℤ◌, pos_part}
use gooberberg_terminal.Prelude.Raising.{◌>>=◌}
use gooberberg_terminal.Prelude.Value.{Fields, Builtins}
use gooberberg_terminal.Splits.Rows.{TimedRow, slice, last?, order_rows}

pub record PurgedKFold : Type 0 where
  pub n_splits : ℤ
  pub purge_horizon : ℤ
  pub embargo_period : ℤ

-- `DatasetSplit`, whose rows keep their timestamps here; `val` is empty.
pub record Fold (F : Type 0) : Type 0 where
  pub train : List (TimedRow F)
  pub test : List (TimedRow F)

module _ {F : Type 0} where
  -- `inside_test or purge_hit or embargo_hit`
  unfoldable pub is_hit : PurgedKFold → ℤ → ℤ → TimedRow F → Bool
  is_hit k test_start_ts test_end_ts r =
      (leb_ℤ test_start_ts r.ts && leb_ℤ r.ts test_end_ts)
      || (leb_ℤ (test_start_ts -ℤ k.purge_horizon) r.ts
          && leb_ℤ r.ts (test_end_ts +ℤ k.purge_horizon))
      || (ltb_ℤ test_end_ts r.ts && leb_ℤ r.ts (test_end_ts +ℤ k.embargo_period))

  -- The fold of a test slice; `none` where the slice is empty.
  unfoldable pub fold_of : PurgedKFold → List (TimedRow F) → List (TimedRow F) → Option (Fold F)
  unfolding is_hit last?
  fold_of k ordered test = do
    first ← head? test
    last ← last? test
    some (record { train = filter (λ r. not (is_hit k first.ts last.ts r)) ordered; test = test })

  -- `ordered[start:end]` of the fold `fold_idx` of `count`.
  unfoldable pub test_slice : ℕ → ℕ → List (TimedRow F) → ℕ → List (TimedRow F)
  unfolding slice
  test_slice count fold_size ordered fold_idx =
      let n = length ordered in
      let start = fold_idx * fold_size in
      let end =
        if fold_idx == count - 1
        then n
        else if leb n (start + fold_size)
        then n
        else start + fold_size in
      slice (pos start) (pos end) ordered

  -- `for fold_idx in range(...)`, with as many folds left as the first number says.
  unfoldable pub folds_from : ℕ → PurgedKFold → ℕ → ℕ → List (TimedRow F) → ℕ → List (Fold F)
  unfolding fold_of test_slice
  folds_from zero k count fold_size ordered fold_idx = []
  folds_from (suc left) k count fold_size ordered fold_idx =
      let rest = folds_from left k count fold_size ordered (suc fold_idx) in
      elim (fold_of k ordered (test_slice count fold_size ordered fold_idx)) [
        | none ↦ rest
        | some fold ↦ fold ∷ rest
      ]

  -- From the ordered rows on; `none` is the `ValueError` of too few splits.
  unfoldable pub purged_folds : PurgedKFold → List (TimedRow F) → Option (List (Fold F))
  unfolding folds_from
  purged_folds k ordered =
      let count = pos_part k.n_splits in
      let share = length ordered / count in
      if ltb_ℤ k.n_splits (pos 2)
      then none
      else some (folds_from count k count (if leb share 1 then 1 else share) ordered 0)

module _ {F : Type 0} ⦃d : Float F⦄ ⦃b : Builtins F⦄ where
  -- `PurgedKFold.split`
  unfoldable pub purged_split : PurgedKFold → String → List (Fields F) → Option (List (Fold F))
  unfolding order_rows purged_folds
  purged_split k ts_key rows = do ordered ← order_rows ts_key rows; purged_folds k ordered
