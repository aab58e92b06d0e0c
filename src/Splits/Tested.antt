-- ===== src/Splits/Tested.antt =====
-- The folds of `PurgedKFold.split` of services/worker-training/src/worker_training/data/splits.py test every
-- row once.
use gooberberg_terminal.Prelude.{
  ℕ, zero, suc, ◌+◌, ◌-◌, ◌*◌, ◌≤◌, String, true, false, Option, none, some, List, [], ◌∷◌, ◌++◌,
  ◌≡◌, ◌∙◌, refl, ap, sym, subst, inl, inr, nat_eq, ◌==◌, drop, arith, Bool-cases, Option-cases,
}
use mathlib.Core.List.{append-nil, Perm}
use gooberberg_terminal.Prelude.Sorting.{sort_by, sort_by-Perm}
use gooberberg_terminal.Prelude.Float.{Float}
use gooberberg_terminal.Prelude.Int.{pos, ltb_ℤ, pos_part}
use gooberberg_terminal.Prelude.Raising.{Yields, Yields-some}
use gooberberg_terminal.Prelude.Value.{Fields, Builtins}
use gooberberg_terminal.Splits.Rows.{TimedRow, last?, order_rows, read_rows, not_later}
use gooberberg_terminal.Splits.Slices.{slice-rest, slice-width}
use gooberberg_terminal.Splits.Purged.{
  PurgedKFold, Fold, fold_of, test_slice, folds_from, purged_folds, purged_split,
}

mul_suc_lem : (i size : ℕ) → suc i * size ≡ i * size + size
mul_suc_lem i size = grind arith

module _ {F : Type 0} where
  -- The rows that folds test, in their order.
  abbrev pub tested : List (Fold F) → List (TimedRow F)
  tested [] = []
  tested (fold ∷ folds) = fold.test ++ tested folds

  abbrev test_of : Option (Fold F) → List (TimedRow F)
  test_of none = []
  test_of (some fold) = fold.test

  last?-some :
      (x : TimedRow F) (xs : List (TimedRow F)) → (l : TimedRow F) × (last? (x ∷ xs) ≡ some l)
  unfolding last?
  last?-some x [] = (x, refl)
  last?-some x (y ∷ xs) = last?-some y xs

  test_of-fold_of :
      (k : PurgedKFold) (ordered test : List (TimedRow F)) → test_of (fold_of k ordered test) ≡ test
  unfolding fold_of
  test_of-fold_of k ordered [] = refl
  test_of-fold_of k ordered (x ∷ xs) = let (l, found) = last?-some x xs in rw (found) refl

  tested-cons :
      (o : Option (Fold F)) (rest : List (Fold F))
      → tested (elim o [ none ↦ rest | some fold ↦ fold ∷ rest ]) ≡ test_of o ++ tested rest
  tested-cons none rest = refl
  tested-cons (some fold) rest = refl

  test_slice-last :
      (count size : ℕ) (ordered : List (TimedRow F)) (i : ℕ)
      → (i == count - 1) ≡ true
      → test_slice count size ordered i ≡ drop (i * size) ordered
  unfolding test_slice
  test_slice-last count size ordered i final = rw (final) (slice-rest (i * size) ordered)

  test_slice-inner :
      (count size : ℕ) (ordered : List (TimedRow F)) (i : ℕ)
      → (i == count - 1) ≡ false
      → test_slice count size ordered i ++ drop (suc i * size) ordered ≡ drop (i * size) ordered
  unfolding test_slice
  test_slice-inner count size ordered i inner =
      rw (inner, mul_suc_lem i size) (slice-width (i * size) size ordered)

  tested-folds_from :
      (left : ℕ) (k : PurgedKFold) (count size : ℕ) (ordered : List (TimedRow F)) (i : ℕ)
      → suc left + i ≡ count
      → tested (folds_from (suc left) k count size ordered i) ≡ drop (i * size) ordered
  unfolding folds_from
  tested-folds_from zero k count size ordered i h =
      tested-cons (fold_of k ordered (test_slice count size ordered i)) []
      ∙ append-nil (test_of (fold_of k ordered (test_slice count size ordered i)))
      ∙ test_of-fold_of k ordered (test_slice count size ordered i)
      ∙ test_slice-last count size ordered i (ground arith)
  tested-folds_from (suc left) k count size ordered i h =
      tested-cons (fold_of k ordered (test_slice count size ordered i))
        (folds_from (suc left) k count size ordered (suc i))
      ∙ ap (λ rows. rows ++ tested (folds_from (suc left) k count size ordered (suc i)))
          (test_of-fold_of k ordered (test_slice count size ordered i))
      ∙ ap (λ rows. test_slice count size ordered i ++ rows)
          (tested-folds_from left k count size ordered (suc i) (omega arith))
      ∙ test_slice-inner count size ordered i (ground arith)

  tested-folds_all :
      (count : ℕ) (k : PurgedKFold) (size : ℕ) (ordered : List (TimedRow F))
      → 1 ≤ count
      → tested (folds_from count k count size ordered 0) ≡ ordered
  tested-folds_all zero k size ordered h = absurd (omega arith)
  tested-folds_all (suc left) k size ordered h =
      let start : 0 * size ≡ 0 = omega arith in
      tested-folds_from left k (suc left) size ordered 0 (omega arith)
      ∙ ap (λ n. drop n ordered) start

  tested-purged_folds :
      (k : PurgedKFold) (ordered : List (TimedRow F))
      → Yields (λ folds. tested folds ≡ ordered) (purged_folds k ordered)
  unfolding purged_folds
  tested-purged_folds k ordered = elim (Bool-cases (ltb_ℤ k.n_splits (pos 2))) [
    | inl few ↦ record { at = λ folds e. absurd (ground (arith, few, e)) }
    | inr enough ↦ rw (enough) (
        Yields-some _ (tested-folds_all (pos_part k.n_splits) k _ ordered (ground (arith, enough))))
  ]

module _ {F : Type 0} ⦃d : Float F⦄ ⦃b : Builtins F⦄ where
  -- The rows that the folds test are, in their order, the rows ordered by time, which rearrange the
  -- rows that were read: every row is tested once.
  pub purged_split-tests :
      (k : PurgedKFold) (key : String) (rows : List (Fields F)) (folds : List (Fold F))
      → purged_split k key rows ≡ some folds
      → (timed : List (TimedRow F)) × ((read_rows key rows ≡ some timed)
          × (order_rows key rows ≡ some (tested folds))
          × Perm (tested folds) timed)
  unfolding purged_split order_rows
  purged_split-tests k key rows folds e = elim (Option-cases (read_rows key rows)) [
    | inl raises ↦ absurd (ground (arith, raises, e))
    | inr (timed, read) ↦
        let ordered = sort_by not_later timed in
        let split : purged_folds k ordered ≡ some folds = rw (read) at e in
        let same = (tested-purged_folds k ordered).at folds split in
        (
          timed,
          (
            read,
            rw (read, same) refl,
            subst (λ rows. Perm rows timed) (sym same) (sort_by-Perm not_later timed),
          ),
        )
  ]
