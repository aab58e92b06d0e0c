-- ===== src/Risk/Overrides.antt =====
-- Which override applies: `add_override` and `_find_override` of
-- libs/py/gb_core/src/gb_core/risk.py.
use gooberberg_terminal.Prelude.{
  ◌≡◌, refl, ap, ◌↔◌, true, false, none, some, List, [], ◌∷◌, ◌++◌, arith, All, Bool-cases, inl,
  inr, if◌then◌else◌,
}
use gooberberg_terminal.Prelude.Raising.{some_inj}
use gooberberg_terminal.Risk.Schema.{StrategyIntent, RiskOverride}
use gooberberg_terminal.Risk.Authority.{Authority, matches, find_override, add_override}

module _ {F : Type 0} where
  -- `o` is the first of the overrides that matches.
  abbrev pub IsFirstMatch : RiskOverride F → List (RiskOverride F) → StrategyIntent F → Type 0
  IsFirstMatch o overrides intent =
      (before : List (RiskOverride F)) × (after : List (RiskOverride F)) × (overrides
        ≡ before ++ o ∷ after)
      × (matches o intent ≡ true)
      × All (λ p. matches p intent ≡ false) before

  skip :
      (p o : RiskOverride F) (rest : List (RiskOverride F)) (intent : StrategyIntent F)
      → matches p intent ≡ false
      → IsFirstMatch o rest intent
      → IsFirstMatch o (p ∷ rest) intent
  skip p o rest intent miss (before, after, e, m, all) =
      (p ∷ before, after, ap (λ (l : List (RiskOverride F)). p ∷ l) e, m, (miss, all))

  find_first :
      (overrides : List (RiskOverride F)) (intent : StrategyIntent F) (o : RiskOverride F)
      → find_override overrides intent ≡ some o
      → IsFirstMatch o overrides intent
  unfolding find_override
  find_first [] intent o h = cc
  find_first (p ∷ rest) intent o h = elim (Bool-cases (matches p intent)) [
    | inl hit ↦ (
      [],
      rest,
      ap (λ (x : RiskOverride F). x ∷ rest) (some_inj (ground arith)),
      ground arith,
      tt,
    )
    | inr miss ↦ skip p o rest intent miss (find_first rest intent o (ground arith))
  ]

  find_after :
      (before after : List (RiskOverride F)) (intent : StrategyIntent F) (o : RiskOverride F)
      → matches o intent ≡ true
      → All (λ p. matches p intent ≡ false) before
      → find_override (before ++ o ∷ after) intent ≡ some o
  unfolding find_override
  find_after [] after intent o hit all = rw hit
  find_after (p ∷ before) after intent o hit all =
      rw all.0 (find_after before after intent o hit all.1)

  -- An override is found exactly when it matches and no override before it in the list does.
  pub find_override_first :
      (overrides : List (RiskOverride F)) (intent : StrategyIntent F) (o : RiskOverride F)
      → (find_override overrides intent ≡ some o) ↔ IsFirstMatch o overrides intent
  find_override_first overrides intent o = (
    find_first overrides intent o,
    λ (before, after, e, hit, all). rw e (find_after before after intent o hit all),
  )

  -- No override is found exactly when none matches.
  pub find_override-none :
      (overrides : List (RiskOverride F)) (intent : StrategyIntent F)
      → (find_override overrides intent ≡ none) ↔ All (λ p. matches p intent ≡ false) overrides
  unfolding find_override
  find_override-none [] intent = (λ h. tt, λ h. refl)
  find_override-none (p ∷ rest) intent = (
    λ h. ground (arith, (find_override-none rest intent).0),
    λ h. ground (arith, (find_override-none rest intent).1 h.1),
  )

  -- The override added last is the one that applies wherever it matches, and elsewhere the choice
  -- is unchanged.
  pub find_override-add_override :
      (o : RiskOverride F) (s : Authority F) (intent : StrategyIntent F)
      → find_override (add_override o s).1.overrides intent
        ≡ (if matches o intent then some o else find_override s.overrides intent)
  unfolding add_override find_override
  find_override-add_override o s intent = refl
