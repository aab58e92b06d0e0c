-- ===== src/Splits/Examples.antt =====
-- Runs and witnesses for services/worker-training/src/worker_training/data/splits.py.
use gooberberg_terminal.Prelude.{
  String, true, false, none, some, List, [], ◌∷◌, ◌≡◌, refl, All, arith, map,
}
use mathlib.Core.List.{Perm}
use mathlib.Core.List.Perm
use gooberberg_terminal.Prelude.Dict.{Dict}
use gooberberg_terminal.Splits.Timing.{get_present, is_future, enforce_feature_timing}
use gooberberg_terminal.Splits.Grouped.{
  SplitConfig, DatasetSplit, Orders, add_to_group, entity_of, group_rows, are_ratios_invalid,
  split_qualified_rows,
}
use gooberberg_terminal.Splits.Partition.{IsPartition}
use gooberberg_terminal.Splits.Entities.{split_qualified_rows-IsPartition}
use gooberberg_terminal.Prelude.Int.{ℤ, pos}
use gooberberg_terminal.Prelude.Sorting.{sort_by, insert_sorted}
use gooberberg_terminal.Prelude.Value.{int, text, Fields, field, end, get}
use gooberberg_terminal.Prelude.Whole.{int_float, int_builtins}
use gooberberg_terminal.Splits.Rows.{TimedRow, read_rows, read_int_ts, order_rows, slice, last?}
use gooberberg_terminal.Splits.WalkForward.{
  WalkForwardWindow, returned, running, train_slice, make_window, window_at, walk,
  walk_forward_split,
}
use gooberberg_terminal.Splits.Purged.{
  PurgedKFold, Fold, is_hit, fold_of, test_slice, folds_from, purged_folds, purged_split,
}
use gooberberg_terminal.Splits.Windows.{splitter, IsWalk}
use gooberberg_terminal.Splits.Returns.{walk_forward_split-returns}
use gooberberg_terminal.Splits.Endless.{still_splitter, walk_forward_split-never_returns}
use gooberberg_terminal.Splits.Separate.{IsSeparate, purged_split-IsSeparate}
use gooberberg_terminal.Splits.Tested.{tested, purged_split-tests}

abbrev row_at : ℤ → Fields ℤ
row_at t = field "decision_ts" (int t) end

abbrev timed_at : ℤ → TimedRow ℤ
timed_at t = record { ts = t; row = row_at t }

abbrev rows : List (Fields ℤ)
rows = map row_at (pos 30 ∷ pos 10 ∷ pos 20 ∷ pos 50 ∷ pos 40 ∷ [])

abbrev ordered : List (TimedRow ℤ)
ordered = map timed_at (pos 10 ∷ pos 20 ∷ pos 30 ∷ pos 40 ∷ pos 50 ∷ [])

order_test : order_rows "decision_ts" rows ≡ some ordered
unfolding order_rows read_rows read_int_ts get sort_by insert_sorted
order_test = refl

abbrev k_fold : PurgedKFold
k_fold = record { n_splits = pos 2; purge_horizon = pos 5; embargo_period = pos 15 }

abbrev first_fold : Fold ℤ
first_fold = record {
  train = map timed_at (pos 40 ∷ pos 50 ∷ []);
  test = map timed_at (pos 10 ∷ pos 20 ∷ []);
}

abbrev second_fold : Fold ℤ
second_fold = record {
  train = map timed_at (pos 10 ∷ pos 20 ∷ []);
  test = map timed_at (pos 30 ∷ pos 40 ∷ pos 50 ∷ []);
}

purged_test : purged_split k_fold "decision_ts" rows ≡ some (first_fold ∷ second_fold ∷ [])
unfolding order_rows read_rows read_int_ts get sort_by insert_sorted purged_split purged_folds
    folds_from fold_of test_slice is_hit slice last?
purged_test = refl

walk_test :
    walk_forward_split 6 (splitter 1 0 0 false) "decision_ts" rows
    ≡ returned (
        record { train_start = pos 10; train_end = pos 20; test_start = pos 30; test_end = pos 30 }
        ∷ record {
          train_start = pos 20;
          train_end = pos 30;
          test_start = pos 40;
          test_end = pos 40;
        }
        ∷ record {
          train_start = pos 30;
          train_end = pos 40;
          test_start = pos 50;
          test_end = pos 50;
        }
        ∷ [])
unfolding order_rows read_rows read_int_ts get sort_by insert_sorted walk_forward_split walk
    window_at make_window train_slice slice last?
walk_test = refl

walk_forward_split-returns_example :
    (ws : List WalkForwardWindow) × ((walk_forward_split 6 (splitter 1 0 0 true) "decision_ts" rows
        ≡ returned ws)
      × IsWalk 1 0 0 true ordered 2 ws)
walk_forward_split-returns_example =
    walk_forward_split-returns 1 0 0 true "decision_ts" rows ordered 6 order_test (omega arith)

walk_forward_split-never_returns_example :
    walk_forward_split 1000 (still_splitter 1 0 true) "decision_ts" rows ≡ running
walk_forward_split-never_returns_example =
    walk_forward_split-never_returns 1 0 true "decision_ts" rows ordered 1000 order_test
      (omega arith)

purged_split-IsSeparate_example : All (IsSeparate k_fold) (first_fold ∷ second_fold ∷ [])
purged_split-IsSeparate_example =
    purged_split-IsSeparate k_fold "decision_ts" rows (first_fold ∷ second_fold ∷ []) refl
      purged_test

purged_split-tests_example :
    (timed : List (TimedRow ℤ)) × ((read_rows "decision_ts" rows ≡ some timed)
      × (order_rows "decision_ts" rows ≡ some (tested (first_fold ∷ second_fold ∷ [])))
      × Perm (tested (first_fold ∷ second_fold ∷ [])) timed)
purged_split-tests_example =
    purged_split-tests k_fold "decision_ts" rows (first_fold ∷ second_fold ∷ []) purged_test

timing_row : ℤ → ℤ → Fields ℤ
timing_row known decision =
    field "effective_from_ts" (int (pos 0))
      (field "known_at_ts" (int known) (field "decision_ts" (int decision) end))

-- A feature that is known after the decision is filtered out, and a row without metadata raises.
timing_test :
    (enforce_feature_timing (timing_row (pos 5) (pos 9) ∷ timing_row (pos 9) (pos 5) ∷ [])
      ≡ some (timing_row (pos 5) (pos 9) ∷ []))
    × (enforce_feature_timing (rows) ≡ none)
unfolding enforce_feature_timing is_future get_present get timing_row
timing_test = (refl, refl)

abbrev owned : String → ℤ → Fields ℤ
owned entity n = field "entity_id" (text entity) (field "n" (int n) end)

abbrev owned_rows : List (Fields ℤ)
owned_rows = owned "a" (pos 1) ∷ owned "b" (pos 2) ∷ owned "a" (pos 3) ∷ []

abbrev config : SplitConfig ℤ
config = record {
  train_ratio = pos 0;
  val_ratio = pos 1;
  test_ratio = pos 0;
  seed = pos 7;
  leakage_guard_key = "entity_id";
}

abbrev orders : Orders
orders = record { shuffle = λ seed xs. xs; set_order = λ xs. xs }

abbrev owned_groups : Dict String (List (Fields ℤ))
owned_groups =
    ("a", owned "a" (pos 1) ∷ owned "a" (pos 3) ∷ []) ∷ ("b", owned "b" (pos 2) ∷ []) ∷ []

group_test : group_rows "entity_id" owned_rows [] ≡ some owned_groups
unfolding group_rows entity_of add_to_group get_present get
group_test = refl

split_qualified_rows-IsPartition_example :
    (split : DatasetSplit ℤ) × ((split_qualified_rows orders config owned_rows ≡ some split)
      × IsPartition "entity_id" owned_rows split)
unfolding are_ratios_invalid
split_qualified_rows-IsPartition_example =
    split_qualified_rows-IsPartition orders config owned_rows owned_groups 0 2
      (λ seed xs. Perm.refl xs) (λ xs h. Perm.refl xs) refl group_test refl refl
