-- ===== src/Splits/Separate.antt =====
-- The folds of `PurgedKFold.split` of services/worker-training/src/worker_training/data/splits.py train on
-- rows apart from the rows they test.
use gooberberg_terminal.Prelude.{
  ℕ, zero, suc, String, true, false, not, some, List, [], ◌∷◌, ◌≡◌, inl, inr, filter, All, All-imp,
  arith, Bool-cases, Option-cases,
}
use gooberberg_terminal.Prelude.Pairs.{All-both}
use gooberberg_terminal.Prelude.Float.{Float}
use gooberberg_terminal.Prelude.Int.{pos, leb_ℤ, ltb_ℤ, neg_part}
use gooberberg_terminal.Prelude.Raising.{Yields, Yields-some, Yields-bind}
use gooberberg_terminal.Prelude.Sorting.{IsSorted, IsSorted-take, IsSorted-drop}
use gooberberg_terminal.Prelude.Value.{Fields, Builtins}
use gooberberg_terminal.Splits.Rows.{TimedRow, slice, last?, order_rows, not_later}
use gooberberg_terminal.Splits.Purged.{
  PurgedKFold, Fold, is_hit, fold_of, test_slice, folds_from, purged_folds, purged_split,
}
use gooberberg_terminal.Splits.Returns.{order_rows-IsSorted}
use gooberberg_terminal.Splits.Leakage.{IsApart, hit-IsApart, All-after, All-before, filter-misses}

module _ {F : Type 0} where
  -- Every training row of a fold is apart from every testing row.
  abbrev pub IsSeparate : PurgedKFold → Fold F → Type 0
  IsSeparate k fold = All (λ r. All (λ q. IsApart k r.ts q.ts) fold.test) fold.train

  trained-IsSeparate :
      (k : PurgedKFold) (ordered : List (TimedRow F)) (x last : TimedRow F) (xs : List (TimedRow F))
      → neg_part k.purge_horizon ≡ 0
      → IsSorted not_later (x ∷ xs)
      → last? (x ∷ xs) ≡ some last
      → All
          (λ r. All (λ q. IsApart k r.ts q.ts) (x ∷ xs))
          (filter (λ r. not (is_hit k x.ts last.ts r)) ordered)
  trained-IsSeparate k ordered x last xs h sorted found =
      All-imp (λ r. is_hit k x.ts last.ts r ≡ false) (λ r. All (λ q. IsApart k r.ts q.ts) (x ∷ xs))
        (filter (λ r. not (is_hit k x.ts last.ts r)) ordered)
        (λ r miss.
          All-both (λ q. leb_ℤ x.ts q.ts ≡ true) (λ q. leb_ℤ q.ts last.ts ≡ true)
            (λ q. IsApart k r.ts q.ts) (x ∷ xs) (λ q. hit-IsApart k x.ts last.ts r q h miss)
            (All-after x xs sorted) (All-before (x ∷ xs) last sorted found))
        (filter-misses (is_hit k x.ts last.ts) ordered)

  fold_of-IsSeparate :
      (k : PurgedKFold) (ordered test : List (TimedRow F))
      → neg_part k.purge_horizon ≡ 0
      → IsSorted not_later test
      → Yields (IsSeparate k) (fold_of k ordered test)
  unfolding fold_of
  fold_of-IsSeparate k ordered [] h sorted = record { at = λ fold e. cc }
  fold_of-IsSeparate k ordered (x ∷ xs) h sorted =
      Yields-bind (last? (x ∷ xs))
        (λ last.
          some
            (record { train = filter (λ r. not (is_hit k x.ts last.ts r)) ordered; test = x ∷ xs }))
        (λ last found. Yields-some _ (trained-IsSeparate k ordered x last xs h sorted found))

  test_slice-IsSorted :
      (count size : ℕ) (ordered : List (TimedRow F)) (i : ℕ)
      → IsSorted not_later ordered
      → IsSorted not_later (test_slice count size ordered i)
  unfolding test_slice slice
  test_slice-IsSorted count size ordered i h =
      IsSorted-take not_later _ _ (IsSorted-drop not_later _ ordered h)

  folds_from-IsSeparate :
      (left : ℕ) (k : PurgedKFold) (count size : ℕ) (ordered : List (TimedRow F)) (i : ℕ)
      → neg_part k.purge_horizon ≡ 0
      → IsSorted not_later ordered
      → All (IsSeparate k) (folds_from left k count size ordered i)
  unfolding folds_from
  folds_from-IsSeparate zero k count size ordered i h sorted = tt
  folds_from-IsSeparate (suc left) k count size ordered i h sorted =
      let test = test_slice count size ordered i in
      let rest = folds_from-IsSeparate left k count size ordered (suc i) h sorted in
      elim (Option-cases (fold_of k ordered test)) [
        | inl empty ↦ rw (empty, All) rest
        | inr (fold, found) ↦
            let separate =
              fold_of-IsSeparate k ordered test h
                (test_slice-IsSorted count size ordered i sorted) in
            rw (found, All) (separate.at fold found, rest)
      ]

  purged_folds-IsSeparate :
      (k : PurgedKFold) (ordered : List (TimedRow F))
      → neg_part k.purge_horizon ≡ 0
      → IsSorted not_later ordered
      → Yields (All (IsSeparate k)) (purged_folds k ordered)
  unfolding purged_folds
  purged_folds-IsSeparate k ordered h sorted = elim (Bool-cases (ltb_ℤ k.n_splits (pos 2))) [
    | inl few ↦ record { at = λ folds e. absurd (ground (arith, few, e)) }
    | inr enough ↦ rw (enough) (Yields-some _ (folds_from-IsSeparate _ k _ _ ordered 0 h sorted))
  ]

module _ {F : Type 0} ⦃d : Float F⦄ ⦃b : Builtins F⦄ where
  -- If the purge horizon is not negative, every training row of a fold is before every testing row by
  -- more than the horizon, or after it by more than the horizon and the embargo.
  pub purged_split-IsSeparate :
      (k : PurgedKFold) (key : String) (rows : List (Fields F)) (folds : List (Fold F))
      → neg_part k.purge_horizon ≡ 0
      → purged_split k key rows ≡ some folds
      → All (IsSeparate k) folds
  unfolding purged_split
  purged_split-IsSeparate k key rows folds h e =
      let separate = Yields-bind (order_rows key rows) (purged_folds k) (λ ordered sorts.
        purged_folds-IsSeparate k ordered h (order_rows-IsSorted key rows ordered sorts)) in
      separate.at folds e
