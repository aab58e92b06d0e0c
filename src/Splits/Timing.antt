-- ===== src/Splits/Timing.antt =====
-- `enforce_feature_timing` of services/worker-training/src/worker_training/data/splits.py.
use gooberberg_terminal.Prelude.{String, Bool, Option, none, some, List, [], ◌∷◌, if◌then◌else◌}
use gooberberg_terminal.Prelude.Float.{Float}
use gooberberg_terminal.Prelude.Int.{ltb_ℤ}
use gooberberg_terminal.Prelude.Raising.{◌>>=◌}
use gooberberg_terminal.Prelude.Value.{Value, null, Fields, Builtins, get, to_int}

module _ {F : Type 0} where
  -- `row.get(key)`, where `None` and a missing key are the same.
  unfoldable pub get_present : String → Fields F → Option (Value F)
  unfolding get
  get_present key row = elim (get key row) [ none ↦ none | some null ↦ none | some v ↦ some v ]

module _ {F : Type 0} ⦃d : Float F⦄ ⦃b : Builtins F⦄ where
  -- `_read_int_value(known_at) > _read_int_value(decision_ts)`, after the tests for `None`.
  unfoldable pub is_future : Fields F → Option Bool
  unfolding get_present
  is_future row = do
    effective_from ← get_present "effective_from_ts" row
    known_at ← get_present "known_at_ts" row
    decision_ts ← get_present "decision_ts" row
    known ← to_int known_at
    decision ← to_int decision_ts
    some (ltb_ℤ decision known)

  unfoldable pub enforce_feature_timing : List (Fields F) → Option (List (Fields F))
  unfolding is_future
  enforce_feature_timing [] = some []
  enforce_feature_timing (row ∷ rows) = do
    future ← is_future row
    valid ← enforce_feature_timing rows
    some (if future then valid else row ∷ valid)
