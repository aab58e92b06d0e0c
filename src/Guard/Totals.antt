-- ===== src/Guard/Totals.antt =====
-- Sequences of calls of `evaluate` of services/service-risk-exec/src/service_risk_exec/guards.py:
-- the totals only grow, so a turnover breach lasts.
use gooberberg_terminal.Prelude.{
  ℕ, ◌+◌, String, ◌≡◌, ◌≢◌, refl, ◌∙◌, ap, sym, Bool, true, false, ◌||◌, Option, some, List, [],
  ◌∷◌, arith, or_else, string_eq, eq_iff, ◌==◌, if◌then◌else◌, All, Bool-cases, Option-cases, inl,
  inr,
}
use mathlib.Core.Path.{subst}
use gooberberg_terminal.Prelude.Dict.{lookup}
use gooberberg_terminal.Prelude.Float.{Float, IsOrdered, nought, ◌<<◌, ◌≼◌, IsNumber}
use gooberberg_terminal.Prelude.FloatOrder.{lt_of_lt_of_le, fmax_nonneg}
use gooberberg_terminal.Guard.Limits.{
  none_taken, StrategyRiskLimits, StrategyGuardState, RuntimeRiskGuard, fresh_state,
}
use gooberberg_terminal.Guard.Evaluate.{Observation, accumulate, evaluate}
use gooberberg_terminal.Guard.Actions.{
  updated, drawdown_breach, action_for, evaluate_action, evaluate-unknown,
}

module _ {F : Type 0} ⦃d : Float F⦄ where
  -- What a call stores for its strategy.
  abbrev stored :
      StrategyRiskLimits F
      → Observation F
      → Option (StrategyGuardState F)
      → Option (StrategyGuardState F)
  stored limits o known =
      let st = accumulate o (or_else known fresh_state) in
      some (record st { active = if drawdown_breach limits o then false else st.active })

  -- The calls of `evaluate`, by strategy, in order.
  pub evaluate_all : List (String × Observation F) → RuntimeRiskGuard F → RuntimeRiskGuard F
  evaluate_all [] g = g
  evaluate_all ((key, o) ∷ calls) g = evaluate_all calls (evaluate key o g).1

  abbrev pub calls_of : String → List (String × Observation F) → ℕ
  calls_of key [] = 0
  calls_of key ((k, o) ∷ calls) = (if k == key then 1 else 0) + calls_of key calls

  abbrev pub total_of : Option (StrategyGuardState F) → ℕ
  total_of known = (or_else known fresh_state).total_orders

  abbrev pub orders : String → RuntimeRiskGuard F → ℕ
  orders key g = total_of (lookup key g.state_by_strategy)

  -- One call leaves all limits, and the state of every other strategy.
  limits-evaluate :
      (key : String) (o : Observation F) (g : RuntimeRiskGuard F)
      → (evaluate key o g).1.limits_by_strategy ≡ g.limits_by_strategy
  limits-evaluate key o g = elim (Option-cases (lookup key g.limits_by_strategy)) [
    | inl unknown ↦ rw (evaluate-unknown key o g unknown) refl
    | inr (limits, e) ↦ (evaluate_action key o g limits e).3
  ]

  others-evaluate :
      (key other : String) (o : Observation F) (g : RuntimeRiskGuard F)
      → key ≢ other
      → lookup other (evaluate key o g).1.state_by_strategy ≡ lookup other g.state_by_strategy
  others-evaluate key other o g ne = elim (Option-cases (lookup key g.limits_by_strategy)) [
    | inl unknown ↦ rw (evaluate-unknown key o g unknown) refl
    | inr (limits, e) ↦ (evaluate_action key o g limits e).2 other ne
  ]

  orders-evaluate_self :
      (key : String) (o : Observation F) (g : RuntimeRiskGuard F) (limits : StrategyRiskLimits F)
      → lookup key g.limits_by_strategy ≡ some limits
      → orders key (evaluate key o g).1 ≡ orders key g + 1
  unfolding accumulate
  orders-evaluate_self key o g limits e = ap total_of (evaluate_action key o g limits e).1

  orders-evaluate :
      (key k : String) (o : Observation F) (g : RuntimeRiskGuard F) (limits : StrategyRiskLimits F)
      → lookup key g.limits_by_strategy ≡ some limits
      → orders key (evaluate k o g).1 ≡ (if k == key then 1 else 0) + orders key g
  orders-evaluate key k o g limits e = elim (Bool-cases (k == key)) [
    | inl same ↦
        let eq : k ≡ key = (eq_iff k key).0 same in
        rw same (
          subst (λ x. orders key (evaluate x o g).1 ≡ 1 + orders key g) (sym eq)
            (omega (arith, orders-evaluate_self key o g limits e)))
    | inr other ↦ rw other (
        omega (arith, ap total_of (others-evaluate k key o g (λ eq. ground (arith, eq_iff k key)))))
  ]

  -- For a strategy with limits `total_orders` counts its calls.
  pub orders-evaluate_all :
      (key : String) (calls : List (String × Observation F)) (g : RuntimeRiskGuard F)
      (limits : StrategyRiskLimits F)
      → lookup key g.limits_by_strategy ≡ some limits
      → orders key (evaluate_all calls g) ≡ calls_of key calls + orders key g
  unfolding evaluate_all
  orders-evaluate_all key [] g limits e = omega arith
  orders-evaluate_all key ((k, o) ∷ calls) g limits e = omega (
    arith,
    orders-evaluate_all key calls (evaluate k o g).1 limits (rw limits-evaluate e),
    orders-evaluate key k o g limits e,
  )

acts_on_turnover :
    (drawdown concentration turnover slippage : Bool)
    → turnover ≡ true
    → action_for drawdown (concentration || turnover || slippage) ≢ none_taken
acts_on_turnover drawdown concentration turnover slippage h = ground arith

module _ {F : Type 0} ⦃d : Float F⦄ (laws : IsOrdered F) where
  -- The strategy has limits, and a turnover of at least 0 that is over them.
  abbrev pub OverTurnover : String → StrategyRiskLimits F → RuntimeRiskGuard F → Type 0
  OverTurnover key limits g =
      (st : StrategyGuardState F) × (lookup key g.limits_by_strategy ≡ some limits)
      × (lookup key g.state_by_strategy ≡ some st)
      × (nought ≼ st.cumulative_turnover)
      × ((limits.max_daily_turnover << st.cumulative_turnover) ≡ true)

  accumulate_grows :
      (o : Observation F) (st : StrategyGuardState F)
      → IsNumber o.turnover_delta
      → nought ≼ st.cumulative_turnover
      → st.cumulative_turnover ≼ (accumulate o st).cumulative_turnover
  unfolding accumulate
  accumulate_grows o st h p = laws.add_grows _ _ p (fmax_nonneg laws o.turnover_delta h)

  OverTurnover-self :
      (key : String) (o : Observation F) (limits : StrategyRiskLimits F) (g : RuntimeRiskGuard F)
      → IsNumber o.turnover_delta
      → OverTurnover key limits g
      → OverTurnover key limits (evaluate key o g).1
  unfolding accumulate
  OverTurnover-self key o limits g num (st, el, es, above, over) =
      let grown = accumulate_grows o st num above in
      let now : StrategyGuardState F = accumulate o st in
      (
        record now { active = if drawdown_breach limits o then false else now.active },
        rw limits-evaluate el,
        (evaluate_action key o g limits el).1 ∙ ap (stored limits o) es,
        laws.le_trans _ _ _ above grown,
        lt_of_lt_of_le laws _ _ _ over grown,
      )

  evaluate-OverTurnover :
      (key k : String) (o : Observation F) (limits : StrategyRiskLimits F) (g : RuntimeRiskGuard F)
      → IsNumber o.turnover_delta
      → OverTurnover key limits g
      → OverTurnover key limits (evaluate k o g).1
  evaluate-OverTurnover key k o limits g num h = elim (Bool-cases (k == key)) [
    | inl same ↦
        subst (λ x. OverTurnover key limits (evaluate x o g).1) (sym ((eq_iff k key).0 same))
          (OverTurnover-self key o limits g num h)
    | inr other ↦
        let ne : k ≢ key = λ eq. ground (arith, eq_iff k key) in
        (h.0, rw limits-evaluate h.1, others-evaluate k key o g ne ∙ h.2, h.3, h.4)
  ]

  abbrev NumberCalls : List (String × Observation F) → Type 0
  NumberCalls = All (λ call. IsNumber call.1.turnover_delta)

  evaluate_all-OverTurnover :
      (key : String) (calls : List (String × Observation F)) (limits : StrategyRiskLimits F)
      (g : RuntimeRiskGuard F)
      → NumberCalls calls
      → OverTurnover key limits g
      → OverTurnover key limits (evaluate_all calls g)
  unfolding evaluate_all
  evaluate_all-OverTurnover key [] limits g num h = h
  evaluate_all-OverTurnover key ((k, o) ∷ calls) limits g num h =
      evaluate_all-OverTurnover key calls limits (evaluate k o g).1 num.1
        (evaluate-OverTurnover key k o limits g num.0 h)

  updated_over :
      (key : String) (o : Observation F) (limits : StrategyRiskLimits F) (g : RuntimeRiskGuard F)
      → IsNumber o.turnover_delta
      → OverTurnover key limits g
      → (limits.max_daily_turnover << (updated key o g).cumulative_turnover) ≡ true
  unfolding accumulate
  updated_over key o limits g num (st, el, es, above, over) =
      rw es (lt_of_lt_of_le laws _ _ _ over (accumulate_grows o st num above))

  acts_when_over :
      (key : String) (o : Observation F) (limits : StrategyRiskLimits F) (g : RuntimeRiskGuard F)
      → IsNumber o.turnover_delta
      → OverTurnover key limits g
      → (evaluate key o g).0.action ≢ none_taken
  acts_when_over key o limits g num h e =
      acts_on_turnover (drawdown_breach limits o) _ _ _ (updated_over key o limits g num h)
        (sym (evaluate_action key o g limits h.1).0 ∙ e)

  -- Once a strategy's turnover, started at 0 or more, is over its limit, then after any further
  -- calls for any strategies every call for it takes an action, if no turnover is NaN and floats
  -- obey IEEE 754.
  pub turnover_breach_lasts :
      (key : String) (calls : List (String × Observation F)) (o : Observation F)
      (limits : StrategyRiskLimits F) (g : RuntimeRiskGuard F)
      → NumberCalls calls
      → IsNumber o.turnover_delta
      → OverTurnover key limits g
      → (evaluate key o (evaluate_all calls g)).0.action ≢ none_taken
  turnover_breach_lasts key calls o limits g nums num h =
      acts_when_over key o limits (evaluate_all calls g) num
        (evaluate_all-OverTurnover key calls limits g nums h)
