-- ===== src/Splits/Rows.antt =====
-- Rows, their timestamps and slices of lists, as the splitters of
-- services/worker-training/src/worker_training/data/splits.py use them.
use gooberberg_terminal.Prelude.{
  ℕ, ◌+◌, ◌-◌, String, Bool, Option, none, some, List, [], ◌∷◌, if◌then◌else◌, leb, length, take,
  drop,
}
use gooberberg_terminal.Prelude.Float.{Float}
use gooberberg_terminal.Prelude.Int.{ℤ, pos, negsuc, leb_ℤ}
use gooberberg_terminal.Prelude.Raising.{◌>>=◌}
use gooberberg_terminal.Prelude.Sorting.{sort_by}
use gooberberg_terminal.Prelude.Value.{null, Fields, Builtins, get, to_int}

-- A row with its timestamp, which every later reading of the same key finds again.
pub record TimedRow (F : Type 0) : Type 0 where
  pub ts : ℤ
  pub row : Fields F

-- A position of a slice: negative ones count from the end, and none is past it.
abbrev pub clamp_index : ℕ → ℤ → ℕ
clamp_index n (pos i) = if leb i n then i else n
clamp_index n (negsuc i) = n - (1 + i)

-- `xs[start:stop]`
unfoldable pub slice {ℓ} : {A : Type ℓ} → ℤ → ℤ → List A → List A
slice start stop xs =
    let n = length xs in
    let first = clamp_index n start in take (clamp_index n stop - first) (drop first xs)

-- `xs[-1]`; `none` is an `IndexError`.
unfoldable pub last? {ℓ} : {A : Type ℓ} → List A → Option A
last? [] = none
last? (x ∷ []) = some x
last? (x ∷ y ∷ xs) = last? (y ∷ xs)

module _ {F : Type 0} ⦃d : Float F⦄ ⦃b : Builtins F⦄ where
  -- `_read_int_ts`, and `_read_int_value` in it
  unfoldable pub read_int_ts : Fields F → String → Option ℤ
  read_int_ts row key = elim (get key row) [ none ↦ none | some null ↦ none | some v ↦ to_int v ]

  -- The keys that `sorted` computes first.
  unfoldable pub read_rows : String → List (Fields F) → Option (List (TimedRow F))
  unfolding read_int_ts
  read_rows key [] = some []
  read_rows key (row ∷ rows) = do
    ts ← read_int_ts row key
    rest ← read_rows key rows
    some (record { ts = ts; row = row } ∷ rest)

abbrev pub not_later : {F : Type 0} → TimedRow F → TimedRow F → Bool
not_later a b = leb_ℤ a.ts b.ts

module _ {F : Type 0} ⦃d : Float F⦄ ⦃b : Builtins F⦄ where
  -- `sorted(rows, key=lambda r: _read_int_ts(r, ts_key))`
  unfoldable pub order_rows : String → List (Fields F) → Option (List (TimedRow F))
  unfolding read_rows sort_by
  order_rows key rows = do timed ← read_rows key rows; some (sort_by not_later timed)
