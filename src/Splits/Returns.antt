-- ===== src/Splits/Returns.antt =====
-- The loop of `WalkForwardSplitter.split`, services/worker-training/src/worker_training/data/splits.py,
-- ends within as many turns as there are rows.
use gooberberg_terminal.Prelude.{
  ℕ, zero, suc, ◌+◌, ◌-◌, ◌≤◌, ◌<◌, String, Bool, true, false, some, List, [], ◌∷◌, ◌++◌, ◌≡◌, ◌∙◌,
  refl, ap, subst, inl, inr, length, arith, Bool-cases, Option-cases,
}
use mathlib.Core.List.{append_assoc, append-nil}
use gooberberg_terminal.Prelude.Float.{Float}
use gooberberg_terminal.Prelude.Int.{ℤ, pos, leb_ℤ, ◌+ℤ◌}
use gooberberg_terminal.Prelude.IntOrder.{leb_ℤ-total, leb_ℤ-trans}
use gooberberg_terminal.Prelude.Raising.{some_inj}
use gooberberg_terminal.Prelude.Sorting.{IsSorted, sort_by, sort_by-IsSorted}
use gooberberg_terminal.Prelude.Value.{Fields, Builtins}
use gooberberg_terminal.Splits.Rows.{TimedRow, order_rows, read_rows, not_later}
use gooberberg_terminal.Splits.WalkForward.{
  WalkForwardWindow, WalkResult, returned, window_at, walk, walk_forward_split,
}
use gooberberg_terminal.Splits.Slices.{get_elem?-some}
use gooberberg_terminal.Splits.Windows.{
  splitter, train_first, IsTimeAt, IsWindowAt, IsWalk, halt, advance, not_later-get, train_first-lt,
  window_at-rows,
}

-- The test of the loop.
fits_cases :
    (cursor size n : ℕ)
    → (leb_ℤ (pos cursor +ℤ pos size) (pos n) ≡ true → cursor + size ≤ n)
      × (leb_ℤ (pos cursor +ℤ pos size) (pos n) ≡ false → n < cursor + size)
fits_cases cursor size n = (λ h. ground (arith, h), λ h. ground (arith, h))

module _ {F : Type 0} (train test step : ℕ) (expanding : Bool) (ordered : List (TimedRow F))
    (anchor : ℤ) where
  -- A cursor that fits has its window.
  pub window_at-some :
      (cursor : ℕ)
      → IsSorted not_later ordered
      → suc train ≤ cursor
      → cursor + suc test ≤ length ordered
      → IsTimeAt ordered 0 anchor
      → (w : WalkForwardWindow) × ((window_at
              (splitter train test step expanding)
              ordered
              anchor
              (pos cursor)
            ≡ some w)
          × IsWindowAt train test expanding ordered cursor w)
  window_at-some cursor sorted h fits first =
      let i = train_first train expanding cursor in
      let i<c = train_first-lt train test step expanding ordered cursor h in
      let (a, ea) = get_elem?-some i ordered (omega arith) in
      let (b, eb) = get_elem?-some (cursor - 1) ordered (omega arith) in
      let (c, ec) = get_elem?-some cursor ordered (omega arith) in
      let (d, ed) = get_elem?-some (cursor + test) ordered (omega arith) in
      (
        record { train_start = a.ts; train_end = b.ts; test_start = c.ts; test_end = d.ts },
        (
          window_at-rows train test step expanding ordered cursor anchor a b c d h fits first ea eb
              ec ed,
          (
            (a, (ea, refl)),
            (b, (eb, refl)),
            (c, (ec, refl)),
            (d, (ed, refl)),
            not_later-get ordered i (cursor - 1) a b sorted (omega arith) ea eb,
            not_later-get ordered (cursor - 1) cursor b c sorted (omega arith) eb ec,
            not_later-get ordered cursor (cursor + test) c d sorted (omega arith) ec ed,
          ),
        ),
      )

  -- What a walk comes to, with the windows before it.
  abbrev IsReturned : ℕ → List WalkForwardWindow → WalkResult → Type 0
  IsReturned cursor windows result =
      (ws : List WalkForwardWindow) × ((result ≡ returned (windows ++ ws))
        × IsWalk train test step expanding ordered cursor ws)

  walk-returns :
      (fuel cursor : ℕ) (windows : List WalkForwardWindow)
      → IsSorted not_later ordered
      → suc train ≤ cursor
      → IsTimeAt ordered 0 anchor
      → 1 ≤ fuel
      → length ordered + 1 ≤ fuel + (cursor + test)
      → IsReturned cursor windows
          (walk fuel (splitter train test step expanding) ordered anchor (pos cursor) windows)
  unfolding walk
  walk-returns zero cursor windows sorted h first some_fuel enough = absurd (omega arith)
  walk-returns (suc fuel) cursor windows sorted h first some_fuel enough =
      elim (Bool-cases (leb_ℤ (pos cursor +ℤ pos (suc test)) (pos (length ordered)))) [
        | inl fits ↦
            let bound = (fits_cases cursor (suc test) (length ordered)).0 fits in
            let (w, (at, window)) = window_at-some cursor sorted h bound first in
            let (ws, (result, rest)) =
              walk-returns fuel (cursor + suc step) (windows ++ (w ∷ [])) sorted (omega arith) first
                (omega arith) (omega arith) in
            let next : pos cursor +ℤ pos (suc step) ≡ pos (cursor + suc step) = ground arith in
            (
              w ∷ ws,
              (
                rw (fits, at, next) (result ∙ ap returned (append_assoc windows (w ∷ []) ws)),
                advance bound window rest,
              ),
            )
        | inr over ↦
            let bound = (fits_cases cursor (suc test) (length ordered)).1 over in
            ([], (rw (over, append-nil windows) refl, halt bound))
      ]

module _ {F : Type 0} ⦃d : Float F⦄ ⦃b : Builtins F⦄ where
  pub order_rows-IsSorted :
      (key : String) (rows : List (Fields F)) (ordered : List (TimedRow F))
      → order_rows key rows ≡ some ordered
      → IsSorted not_later ordered
  unfolding order_rows
  order_rows-IsSorted key rows ordered h = elim (Option-cases (read_rows key rows)) [
    | inl raises ↦ absurd (ground (arith, h, raises))
    | inr (timed, read) ↦
        let sorted =
          sort_by-IsSorted not_later (λ x y. leb_ℤ-total x.ts y.ts)
            (λ x y z. leb_ℤ-trans x.ts y.ts z.ts) timed in
        let same : sort_by not_later timed ≡ ordered = some_inj (ground (arith, h, read)) in
        subst (IsSorted not_later) same sorted
  ]

  -- With sizes and a step of at least 1 the split returns within as many turns as there are rows,
  -- and returns the windows of exactly the cursors that fit, in which no training row is later than
  -- a testing row.
  pub walk_forward_split-returns :
      (train test step : ℕ) (expanding : Bool) (key : String) (rows : List (Fields F))
      (ordered : List (TimedRow F)) (fuel : ℕ)
      → order_rows key rows ≡ some ordered
      → length ordered < fuel
      → (ws : List WalkForwardWindow) × ((walk_forward_split fuel
              (splitter train test step expanding)
              key
              rows
            ≡ returned ws)
          × IsWalk train test step expanding ordered (suc train) ws)
  unfolding walk_forward_split
  walk_forward_split-returns train test step expanding key rows [] fuel h enough =
      ([], (rw (h, walk_forward_split) refl, halt (omega arith)))
  walk_forward_split-returns train test step expanding key rows (r ∷ rest) fuel h enough =
      let returns =
        walk-returns train test step expanding (r ∷ rest) r.ts fuel (suc train) []
          (order_rows-IsSorted key rows (r ∷ rest) h) (omega arith) (r, (refl, refl)) (omega arith)
          (omega arith) in
      (returns.0, (rw (h, walk_forward_split) returns.1.0, returns.1.1))
