-- ===== src/Guard/Evaluate.antt =====
-- `RuntimeRiskGuard.evaluate` of services/service-risk-exec/src/service_risk_exec/guards.py.
use Prim.Native.Nat.{max}
use gooberberg_terminal.Prelude.{
  ◌+◌, String, Bool, false, Option, none, some, List, [], ◌∷◌, ◌++◌, contains, string_eq, is_empty,
  or_else, if◌then◌else◌,
}
use gooberberg_terminal.Prelude.Dict.{lookup, insert}
use gooberberg_terminal.Prelude.Float.{Float, nought, ◌<<◌, ◌⊕◌, ◌⊘◌, fmax, fabs}
use gooberberg_terminal.Guard.Limits.{
  none_taken, block_new_orders, de_risk, StrategyRiskLimits, StrategyGuardState, GuardDecision,
  RuntimeRiskGuard, fresh_state,
}

-- The keyword arguments of `evaluate`, less the strategy.
pub record Observation (F : Type 0) : Type 0 where
  pub intraday_drawdown : F
  pub position_concentration : F
  pub turnover_delta : F
  pub slippage_deviation_bps : F

abbrev pub no_action : GuardDecision
no_action = record { action = none_taken; breached_rules = [] }

-- `breaches.append(rule)` under a test.
abbrev pub breach_if : Bool → String → List String → List String
breach_if hit rule breaches = if hit then breaches ++ rule ∷ [] else breaches

module _ {F : Type 0} ⦃d : Float F⦄ where
  -- The three updates of the strategy's state.
  unfoldable pub accumulate : Observation F → StrategyGuardState F → StrategyGuardState F
  accumulate o st = record st {
    cumulative_turnover = st.cumulative_turnover ⊕ fmax o.turnover_delta nought;
    cumulative_slippage_deviation_bps =
        st.cumulative_slippage_deviation_bps ⊕ fabs o.slippage_deviation_bps;
    total_orders = st.total_orders + 1;
  }

  unfoldable pub average_slippage : StrategyGuardState F → F
  average_slippage st = st.cumulative_slippage_deviation_bps ⊘ d.of_nat (max st.total_orders 1)

  -- The four tests, after the update.
  unfoldable pub breaches_of :
      StrategyRiskLimits F → Observation F → StrategyGuardState F → List String
  unfolding average_slippage
  breaches_of limits o st =
      breach_if (limits.max_slippage_deviation_bps << average_slippage st) "MAX_SLIPPAGE_DEVIATION"
        (breach_if (limits.max_daily_turnover << st.cumulative_turnover) "MAX_DAILY_TURNOVER" (
          breach_if (limits.max_position_concentration << o.position_concentration)
            "MAX_POSITION_CONCENTRATION"
            (breach_if (limits.max_intraday_drawdown << o.intraday_drawdown) "MAX_INTRADAY_DRAWDOWN"
              [])))

  -- The decision that follows, and the state that it leaves.
  unfoldable pub resolve : List String → StrategyGuardState F → GuardDecision × StrategyGuardState F
  resolve breaches st =
      if is_empty breaches
      then (no_action, st)
      else if contains "MAX_INTRADAY_DRAWDOWN" breaches
      then (record { action = de_risk; breached_rules = breaches }, record st { active = false })
      else (record { action = block_new_orders; breached_rules = breaches }, st)

  -- `evaluate` for a strategy that has limits: `setdefault`, the update, the tests.
  unfoldable pub evaluate_state :
      StrategyRiskLimits F
      → Observation F
      → Option (StrategyGuardState F)
      → GuardDecision × StrategyGuardState F
  unfolding accumulate breaches_of resolve
  evaluate_state limits o known =
      let st = accumulate o (or_else known fresh_state) in resolve (breaches_of limits o st) st

  unfoldable pub evaluate_limits :
      Option (StrategyRiskLimits F)
      → String
      → Observation F
      → RuntimeRiskGuard F
      → GuardDecision × RuntimeRiskGuard F
  unfolding evaluate_state
  evaluate_limits none key o g = (no_action, g)
  evaluate_limits (some limits) key o g =
      let (decision, st) = evaluate_state limits o (lookup key g.state_by_strategy) in
      (decision, record g { state_by_strategy = insert key st g.state_by_strategy })

  -- `evaluate`
  unfoldable pub evaluate :
      String → Observation F → RuntimeRiskGuard F → GuardDecision × RuntimeRiskGuard F
  unfolding evaluate_limits
  evaluate key o g = evaluate_limits (lookup key g.limits_by_strategy) key o g
