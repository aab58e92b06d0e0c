-- ===== src/Splits/WalkForward.antt =====
-- `WalkForwardSplitter` of services/worker-training/src/worker_training/data/splits.py.
use gooberberg_terminal.Prelude.{
  ℕ, zero, suc, String, Bool, Option, none, some, List, [], ◌∷◌, ◌++◌, if◌then◌else◌, length, head?,
}
use gooberberg_terminal.Prelude.Float.{Float}
use gooberberg_terminal.Prelude.Int.{ℤ, pos, leb_ℤ, ltb_ℤ, ◌+ℤ◌, ◌-ℤ◌}
use gooberberg_terminal.Prelude.Raising.{◌>>=◌}
use gooberberg_terminal.Prelude.Value.{Fields, Builtins}
use gooberberg_terminal.Splits.Rows.{TimedRow, slice, last?, order_rows}

pub record WalkForwardWindow : Type 0 where
  pub train_start : ℤ
  pub train_end : ℤ
  pub test_start : ℤ
  pub test_end : ℤ

pub record WalkForwardSplitter : Type 0 where
  pub train_size : ℤ
  pub test_size : ℤ
  pub step_size : ℤ
  pub expanding : Bool

-- What a run comes to: the windows, an exception, or still in the loop when the fuel is used up.
pub data WalkResult : Type 0 where
  returned : List WalkForwardWindow → WalkResult
  raised : WalkResult
  running : WalkResult

module _ {F : Type 0} where
  abbrev pub first_ts : List (TimedRow F) → Option ℤ
  first_ts rows = elim (head? rows) [ none ↦ none | some r ↦ some r.ts ]

  abbrev pub last_ts : List (TimedRow F) → Option ℤ
  last_ts rows = elim (last? rows) [ none ↦ none | some r ↦ some r.ts ]

  -- `ordered[:cursor]`, or `ordered[max(0, cursor - train_size):cursor]`
  unfoldable pub train_slice : WalkForwardSplitter → List (TimedRow F) → ℤ → List (TimedRow F)
  unfolding slice
  train_slice s ordered cursor =
      let first = cursor -ℤ s.train_size in
      if s.expanding
      then slice (pos 0) cursor ordered
      else slice (if ltb_ℤ (pos 0) first then first else pos 0) cursor ordered

  -- The window of two slices; an empty one has no first or last row.
  unfoldable pub make_window :
      Bool → ℤ → List (TimedRow F) → List (TimedRow F) → Option WalkForwardWindow
  unfolding last?
  make_window expanding train_anchor train test = do
    train_start ← if expanding then some train_anchor else first_ts train
    train_end ← last_ts train
    test_start ← first_ts test
    test_end ← last_ts test
    some (record {
      train_start = train_start;
      train_end = train_end;
      test_start = test_start;
      test_end = test_end;
    })

  unfoldable pub window_at :
      WalkForwardSplitter → List (TimedRow F) → ℤ → ℤ → Option WalkForwardWindow
  unfolding train_slice slice make_window
  window_at s ordered train_anchor cursor =
      make_window s.expanding train_anchor (train_slice s ordered cursor)
        (slice cursor (cursor +ℤ s.test_size) ordered)

  -- The `while` loop, on fuel.
  unfoldable pub walk :
      ℕ → WalkForwardSplitter → List (TimedRow F) → ℤ → ℤ → List WalkForwardWindow → WalkResult
  unfolding window_at
  walk zero s ordered train_anchor cursor windows = running
  walk (suc fuel) s ordered train_anchor cursor windows =
      if leb_ℤ (cursor +ℤ s.test_size) (pos (length ordered))
      then elim (window_at s ordered train_anchor cursor) [
        | none ↦ raised
        | some w ↦ walk fuel s ordered train_anchor (cursor +ℤ s.step_size) (windows ++ (w ∷ []))
      ]
      else returned windows

  abbrev pub walk_all : ℕ → WalkForwardSplitter → List (TimedRow F) → WalkResult
  unfolding walk
  walk_all fuel s [] = returned []
  walk_all fuel s (r ∷ rows) = walk fuel s (r ∷ rows) r.ts s.train_size []

module _ {F : Type 0} ⦃d : Float F⦄ ⦃b : Builtins F⦄ where
  -- `WalkForwardSplitter.split`
  unfoldable pub walk_forward_split :
      ℕ → WalkForwardSplitter → String → List (Fields F) → WalkResult
  unfolding order_rows walk
  walk_forward_split fuel s ts_key rows = elim (order_rows ts_key rows) [
    | none ↦ raised
    | some ordered ↦ walk_all fuel s ordered
  ]
