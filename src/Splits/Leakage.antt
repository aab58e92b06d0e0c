-- ===== src/Splits/Leakage.antt =====
-- The rows that `PurgedKFold.split` of services/worker-training/src/worker_training/data/splits.py trains
-- on are apart from the rows it tests.
use gooberberg_terminal.Prelude.{
  ◌+◌, Bool, true, false, not, ◌&&◌, ◌||◌, some, List, [], ◌∷◌, ◌≡◌, subst, ◌⊎◌, inl, inr, filter,
  All, arith, Bool-cases,
}
use gooberberg_terminal.Prelude.Int.{ℤ, leb_ℤ, ltb_ℤ, ◌+ℤ◌, ◌-ℤ◌, pos_part, neg_part}
use gooberberg_terminal.Prelude.IntOrder.{
  add-parts, sub-parts, leb_ℤ_iff, leb_ℤ-false, ltb_ℤ_iff, leb_ℤ-refl, leb_ℤ-trans,
}
use gooberberg_terminal.Prelude.Raising.{some_inj}
use gooberberg_terminal.Prelude.Sorting.{IsSorted}
use gooberberg_terminal.Splits.Rows.{TimedRow, last?, not_later}
use gooberberg_terminal.Splits.Purged.{PurgedKFold, is_hit}

-- One time is before the other by more than the purge horizon, or after it by more than the horizon
-- and the embargo.
abbrev pub IsApart : PurgedKFold → ℤ → ℤ → Type 0
IsApart k r q =
    (ltb_ℤ (r +ℤ k.purge_horizon) q ≡ true)
    ⊎ ((ltb_ℤ (q +ℤ k.purge_horizon) r ≡ true) × (ltb_ℤ (q +ℤ k.embargo_period) r ≡ true))

-- Sums and differences enter through their parts.
before_lem :
    (first p r q : ℤ)
    → leb_ℤ (first -ℤ p) r ≡ false
    → leb_ℤ first q ≡ true
    → ltb_ℤ (r +ℤ p) q ≡ true
before_lem first p r q miss after =
    go (first -ℤ p) (r +ℤ p) (sub-parts first p) (add-parts r p) miss
  where
    go :
        (low high : ℤ)
        → pos_part low + (neg_part first + pos_part p)
          ≡ neg_part low + (pos_part first + neg_part p)
        → pos_part high + (neg_part r + neg_part p) ≡ neg_part high + (pos_part r + pos_part p)
        → leb_ℤ low r ≡ false
        → ltb_ℤ high q ≡ true
    go low high el eh h =
        (ltb_ℤ_iff high q).1
          (omega (arith, el, eh, (leb_ℤ-false low r).0 h, (leb_ℤ_iff first q).0 after))

after_lem :
    (last p r q : ℤ) → leb_ℤ r (last +ℤ p) ≡ false → leb_ℤ q last ≡ true → ltb_ℤ (q +ℤ p) r ≡ true
after_lem last p r q miss before = go (last +ℤ p) (q +ℤ p) (add-parts last p) (add-parts q p) miss
  where
    go :
        (low high : ℤ)
        → pos_part low + (neg_part last + neg_part p) ≡ neg_part low + (pos_part last + pos_part p)
        → pos_part high + (neg_part q + neg_part p) ≡ neg_part high + (pos_part q + pos_part p)
        → leb_ℤ r low ≡ false
        → ltb_ℤ high r ≡ true
    go low high el eh h =
        (ltb_ℤ_iff high r).1
          (omega (arith, el, eh, (leb_ℤ-false r low).0 h, (leb_ℤ_iff q last).0 before))

-- Past the horizon is past the end, if the horizon is not negative.
past_lem : (last p r : ℤ) → neg_part p ≡ 0 → leb_ℤ r (last +ℤ p) ≡ false → ltb_ℤ last r ≡ true
past_lem last p r h miss = go (last +ℤ p) (add-parts last p) miss
  where
    go :
        (low : ℤ)
        → pos_part low + (neg_part last + neg_part p) ≡ neg_part low + (pos_part last + pos_part p)
        → leb_ℤ r low ≡ false
        → ltb_ℤ last r ≡ true
    go low el miss = (ltb_ℤ_iff last r).1 (omega (arith, el, h, (leb_ℤ-false r low).0 miss))

misses :
    (a b c d e f : Bool)
    → ((a && b) || (c && d) || (e && f)) ≡ false
    → (d ≡ true → c ≡ false) × (e ≡ true → f ≡ false)
misses a b c d e f h = ground arith

module _ {F : Type 0} where
  pub hit-IsApart :
      (k : PurgedKFold) (first last : ℤ) (r q : TimedRow F)
      → neg_part k.purge_horizon ≡ 0
      → is_hit k first last r ≡ false
      → leb_ℤ first q.ts ≡ true
      → leb_ℤ q.ts last ≡ true
      → IsApart k r.ts q.ts
  unfolding is_hit
  hit-IsApart k first last r q h miss after before =
      let sides =
        misses (leb_ℤ first r.ts) (leb_ℤ r.ts last) (leb_ℤ (first -ℤ k.purge_horizon) r.ts)
          (leb_ℤ r.ts (last +ℤ k.purge_horizon)) (ltb_ℤ last r.ts)
          (leb_ℤ r.ts (last +ℤ k.embargo_period)) miss in
      elim (Bool-cases (leb_ℤ r.ts (last +ℤ k.purge_horizon))) [
        | inl near ↦ inl (before_lem first k.purge_horizon r.ts q.ts (sides.0 near) after)
        | inr far ↦ inr (
          after_lem last k.purge_horizon r.ts q.ts far before,
          after_lem last k.embargo_period r.ts q.ts
              (sides.1 (past_lem last k.purge_horizon r.ts h far)) before,
        )
      ]

  -- Sorted rows lie between their ends.
  pub All-after :
      (x : TimedRow F) (xs : List (TimedRow F))
      → IsSorted not_later (x ∷ xs)
      → All (λ q. leb_ℤ x.ts q.ts ≡ true) (x ∷ xs)
  All-after x xs h = (leb_ℤ-refl x.ts, h.0)

  pub All-before :
      (xs : List (TimedRow F)) (last : TimedRow F)
      → IsSorted not_later xs
      → last? xs ≡ some last
      → All (λ q. leb_ℤ q.ts last.ts ≡ true) xs
  unfolding last?
  All-before [] last h e = tt
  All-before (x ∷ []) last h e =
      (subst (λ l. leb_ℤ x.ts l.ts ≡ true) (some_inj e) (leb_ℤ-refl x.ts), tt)
  All-before (x ∷ y ∷ xs) last h e =
      let rest = All-before (y ∷ xs) last h.1 e in
      (leb_ℤ-trans x.ts y.ts last.ts h.0.0 rest.0, rest)

  pub filter-misses :
      (hit : TimedRow F → Bool) (xs : List (TimedRow F))
      → All (λ r. hit r ≡ false) (filter (λ r. not (hit r)) xs)
  filter-misses hit [] = tt
  filter-misses hit (x ∷ xs) = elim (Bool-cases (hit x)) [
    | inl hits ↦ rw (hits) (filter-misses hit xs)
    | inr misses ↦ rw (misses) (misses, filter-misses hit xs)
  ]
