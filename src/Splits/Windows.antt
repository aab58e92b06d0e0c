-- ===== src/Splits/Windows.antt =====
-- `WalkForwardSplitter.split` of services/worker-training/src/worker_training/data/splits.py returns,
-- and its windows are those of the cursors that fit.
use gooberberg_terminal.Prelude.{
  ℕ, suc, ◌+◌, ◌-◌, ◌≤◌, ◌<◌, Bool, true, false, some, List, [], ◌∷◌, ◌≡◌, ◌∙◌, refl, ap, subst,
  sym, ◌⊎◌, inl, inr, if◌then◌else◌, length, get_elem?, arith, Bool-cases,
}
use gooberberg_terminal.Prelude.Raising.{some_inj}
use gooberberg_terminal.Prelude.Int.{ℤ, pos, leb_ℤ, ltb_ℤ, ◌+ℤ◌, ◌-ℤ◌}
use gooberberg_terminal.Prelude.IntOrder.{leb_ℤ-refl}
use gooberberg_terminal.Prelude.Sorting.{IsSorted, IsSorted-get}
use gooberberg_terminal.Splits.Rows.{TimedRow, slice, not_later}
use gooberberg_terminal.Splits.WalkForward.{
  WalkForwardWindow, WalkForwardSplitter, first_ts, last_ts, train_slice, make_window, window_at,
}
use gooberberg_terminal.Splits.Slices.{head?-slice, last?-slice}

-- A splitter whose sizes and step are one more than the numbers.
abbrev pub splitter : ℕ → ℕ → ℕ → Bool → WalkForwardSplitter
splitter train test step expanding = record {
  train_size = pos (suc train);
  test_size = pos (suc test);
  step_size = pos (suc step);
  expanding = expanding;
}

-- The first row of the training slice that ends before the cursor.
abbrev pub train_first : ℕ → Bool → ℕ → ℕ
train_first train true cursor = 0
train_first train false cursor = cursor - suc train

le_cases : (i j : ℕ) → i ≤ j → (i < j) ⊎ (i ≡ j)
le_cases i j h = ground arith

module _ {F : Type 0} where
  -- A timestamp of the row at a position.
  abbrev pub IsTimeAt : List (TimedRow F) → ℕ → ℤ → Type 0
  IsTimeAt ordered i t = (r : TimedRow F) × ((get_elem? ordered i ≡ some r) × (r.ts ≡ t))

  -- The window of a cursor: training ends with the row before it, testing begins with its row.
  abbrev pub IsWindowAt : ℕ → ℕ → Bool → List (TimedRow F) → ℕ → WalkForwardWindow → Type 0
  IsWindowAt train test expanding ordered cursor w =
      IsTimeAt ordered (train_first train expanding cursor) w.train_start
      × IsTimeAt ordered (cursor - 1) w.train_end
      × IsTimeAt ordered cursor w.test_start
      × IsTimeAt ordered (cursor + test) w.test_end
      × (leb_ℤ w.train_start w.train_end ≡ true)
      × (leb_ℤ w.train_end w.test_start ≡ true)
      × (leb_ℤ w.test_start w.test_end ≡ true)

  -- The windows of the cursors from one on, in steps, as long as the testing rows are there.
  pub data IsWalk (train test step : ℕ) (expanding : Bool) (ordered : List (TimedRow F))
      : ℕ → List WalkForwardWindow → Type 0 where
    halt :
        {cursor : ℕ}
        → length ordered < cursor + suc test
        → IsWalk train test step expanding ordered cursor []
    advance :
        {cursor : ℕ} {w : WalkForwardWindow} {ws : List WalkForwardWindow}
        → cursor + suc test ≤ length ordered
        → IsWindowAt train test expanding ordered cursor w
        → IsWalk train test step expanding ordered (cursor + suc step) ws
        → IsWalk train test step expanding ordered cursor (w ∷ ws)

  pub not_later-get :
      (ordered : List (TimedRow F)) (i j : ℕ) (x y : TimedRow F)
      → IsSorted not_later ordered
      → i ≤ j
      → get_elem? ordered i ≡ some x
      → get_elem? ordered j ≡ some y
      → leb_ℤ x.ts y.ts ≡ true
  not_later-get ordered i j x y sorted h ex ey = elim (le_cases i j h) [
    | inl earlier ↦ IsSorted-get not_later ordered i j x y sorted earlier ex ey
    | inr same ↦
        let rows : x ≡ y = some_inj (sym ex ∙ ap (get_elem? ordered) same ∙ ey) in
        subst (λ r. leb_ℤ x.ts r.ts ≡ true) rows (leb_ℤ-refl x.ts)
  ]

module _ {F : Type 0} (train test step : ℕ) (expanding : Bool) (ordered : List (TimedRow F)) where
  abbrev start_of : ℕ → ℕ
  start_of cursor = train_first train expanding cursor

  first_position :
      (cursor : ℕ)
      → suc train ≤ cursor
      → (if ltb_ℤ (pos 0) (pos cursor -ℤ pos (suc train))
          then pos cursor -ℤ pos (suc train)
          else pos 0)
        ≡ pos (cursor - suc train)
  first_position cursor h = ground arith

  train_slice-eq :
      (cursor : ℕ)
      → suc train ≤ cursor
      → train_slice (splitter train test step expanding) ordered (pos cursor)
        ≡ slice (pos (train_first train expanding cursor)) (pos cursor) ordered
  unfolding train_slice
  train_slice-eq cursor h = elim (Bool-cases expanding) [
    | inl grows ↦ rw (grows) refl
    | inr rolls ↦ rw (rolls) (ap (λ i. slice i (pos cursor) ordered) (first_position cursor h))
  ]

  pub train_first-lt :
      (cursor : ℕ) → suc train ≤ cursor → train_first train expanding cursor < cursor
  train_first-lt cursor h = ground arith

  -- The two ends of a slice, by their positions.
  slice-times :
      (i j : ℕ)
      → i < j
      → j ≤ length ordered
      → (x : TimedRow F) (y : TimedRow F) → get_elem? ordered i ≡ some x
      → get_elem? ordered (j - 1) ≡ some y
      → (first_ts (slice (pos i) (pos j) ordered) ≡ some x.ts)
        × (last_ts (slice (pos i) (pos j) ordered) ≡ some y.ts)
  slice-times i j h k x y ex ey =
      let first = head?-slice i j ordered h k ∙ ex in
      let last = last?-slice i j ordered h k ∙ ey in
      (rw (first, first_ts) refl, rw (last, last_ts) refl)

  anchor-first :
      (cursor : ℕ) (anchor : ℤ) (a : TimedRow F)
      → IsTimeAt ordered 0 anchor
      → get_elem? ordered (train_first train expanding cursor) ≡ some a
      → expanding ≡ true
      → anchor ≡ a.ts
  anchor-first cursor anchor a (r, (at, same)) ea grows =
      let position : train_first train expanding cursor ≡ 0 =
        ap (λ e. train_first train e cursor) grows in
      let rows : r ≡ a = some_inj (sym at ∙ ap (get_elem? ordered) (sym position) ∙ ea) in
      sym same ∙ ap (λ x. x.ts) rows

  make_window-times :
      (anchor a b c d : ℤ) (trains tests : List (TimedRow F))
      → (expanding ≡ true → anchor ≡ a)
      → first_ts trains ≡ some a
      → last_ts trains ≡ some b
      → first_ts tests ≡ some c
      → last_ts tests ≡ some d
      → make_window expanding anchor trains tests
        ≡ some (record { train_start = a; train_end = b; test_start = c; test_end = d })
  unfolding make_window
  make_window-times anchor a b c d trains tests h ea eb ec ed = elim (Bool-cases expanding) [
    | inl grows ↦ rw (grows, eb, ec, ed, h grows) refl
    | inr rolls ↦ rw (rolls, ea, eb, ec, ed) refl
  ]

  -- Four rows at the positions of a window make the window.
  pub window_at-rows :
      (cursor : ℕ) (anchor : ℤ) (a b c d : TimedRow F)
      → suc train ≤ cursor
      → cursor + suc test ≤ length ordered
      → IsTimeAt ordered 0 anchor
      → get_elem? ordered (train_first train expanding cursor) ≡ some a
      → get_elem? ordered (cursor - 1) ≡ some b
      → get_elem? ordered cursor ≡ some c
      → get_elem? ordered (cursor + test) ≡ some d
      → window_at (splitter train test step expanding) ordered anchor (pos cursor)
        ≡ some (record { train_start = a.ts; train_end = b.ts; test_start = c.ts; test_end = d.ts })
  unfolding window_at
  window_at-rows cursor anchor a b c d h fits first ea eb ec ed =
      let trains =
        slice-times (train_first train expanding cursor) cursor (train_first-lt cursor h)
          (omega arith) a b ea eb in
      let same : cursor + test ≡ cursor + suc test - 1 = omega arith in
      let tests =
        slice-times cursor (cursor + suc test) (omega arith) fits c d ec
          (subst (λ i. get_elem? ordered i ≡ some d) same ed) in
      let stop : pos cursor +ℤ pos (suc test) ≡ pos (cursor + suc test) = ground arith in
      rw (stop) (
        make_window-times anchor a.ts b.ts c.ts d.ts
          (train_slice (splitter train test step expanding) ordered (pos cursor))
          (slice (pos cursor) (pos (cursor + suc test)) ordered)
          (anchor-first cursor anchor a first ea) (ap first_ts (train_slice-eq cursor h) ∙ trains.0)
          (ap last_ts (train_slice-eq cursor h) ∙ trains.1) tests.0 tests.1)
