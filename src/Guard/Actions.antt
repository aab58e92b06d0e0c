-- ===== src/Guard/Actions.antt =====
-- Which action `evaluate` of services/service-risk-exec/src/service_risk_exec/guards.py takes.
use gooberberg_terminal.Prelude.{
  String, ◌≡◌, ◌≢◌, refl, ◌∙◌, ap, Bool, true, false, ◌||◌, Option, none, some, [], arith, or_else,
  string_eq, if◌then◌else◌,
}
use gooberberg_terminal.Prelude.Dict.{lookup, insert, lookup-insert_self, lookup-insert_ne}
use gooberberg_terminal.Prelude.Float.{Float, ◌<<◌}
use gooberberg_terminal.Guard.Limits.{
  GuardAction, none_taken, block_new_orders, de_risk, StrategyRiskLimits, StrategyGuardState,
  RuntimeRiskGuard, fresh_state,
}
use gooberberg_terminal.Guard.Evaluate.{
  Observation, no_action, breach_if, accumulate, average_slippage, resolve, evaluate_state,
  evaluate_limits, evaluate,
}

-- A drawdown breach asks for de-risking, any other breach for a block of new orders.
abbrev pub action_for : Bool → Bool → GuardAction
action_for true other = de_risk
action_for false true = block_new_orders
action_for false false = none_taken

module _ {F : Type 0} ⦃d : Float F⦄ where
  resolve_lem :
      (slippage turnover concentration drawdown : Bool) (st : StrategyGuardState F)
      → let (decision, st') =
          resolve
            (breach_if slippage "MAX_SLIPPAGE_DEVIATION" (
              breach_if turnover "MAX_DAILY_TURNOVER" (
                breach_if concentration "MAX_POSITION_CONCENTRATION"
                  (breach_if drawdown "MAX_INTRADAY_DRAWDOWN" []))))
            st in
        (decision.action ≡ action_for drawdown (concentration || turnover || slippage))
        × (st' ≡ record st { active = if drawdown then false else st.active })
  unfolding resolve
  resolve_lem s t c true st = ground arith
  resolve_lem s t c false st = ground arith

  -- The state of a strategy after the update of one evaluation.
  abbrev pub updated : String → Observation F → RuntimeRiskGuard F → StrategyGuardState F
  updated key o g = accumulate o (or_else (lookup key g.state_by_strategy) fresh_state)

  abbrev pub drawdown_breach : StrategyRiskLimits F → Observation F → Bool
  drawdown_breach limits o = limits.max_intraday_drawdown << o.intraday_drawdown

  -- A breach of one of the three other limits, by the totals after the update.
  abbrev pub other_breach : StrategyRiskLimits F → Observation F → StrategyGuardState F → Bool
  other_breach limits o st =
      limits.max_position_concentration << o.position_concentration
      || limits.max_daily_turnover << st.cumulative_turnover
      || limits.max_slippage_deviation_bps << average_slippage st

  evaluate_state_lem :
      (limits : StrategyRiskLimits F) (o : Observation F) (known : Option (StrategyGuardState F))
      → let st = accumulate o (or_else known fresh_state) in
        let (decision, st') = evaluate_state limits o known in
        (decision.action ≡ action_for (drawdown_breach limits o) (other_breach limits o st))
        × (st' ≡ record st { active = if drawdown_breach limits o then false else st.active })
  unfolding evaluate_state
  evaluate_state_lem limits o known =
      let st = accumulate o (or_else known fresh_state) in
      resolve_lem (limits.max_slippage_deviation_bps << average_slippage st)
        (limits.max_daily_turnover << st.cumulative_turnover)
        (limits.max_position_concentration << o.position_concentration) (drawdown_breach limits o)
        st

  pub evaluate-known :
      (key : String) (o : Observation F) (g : RuntimeRiskGuard F) (limits : StrategyRiskLimits F)
      → lookup key g.limits_by_strategy ≡ some limits
      → let (decision, st) = evaluate_state limits o (lookup key g.state_by_strategy) in
        evaluate key o g
        ≡ (decision, record g { state_by_strategy = insert key st g.state_by_strategy })
  unfolding evaluate evaluate_state evaluate_limits
  evaluate-known key o g limits e = rw (e, evaluate) refl

  -- A strategy without limits is not tracked.
  pub evaluate-unknown :
      (key : String) (o : Observation F) (g : RuntimeRiskGuard F)
      → lookup key g.limits_by_strategy ≡ none
      → evaluate key o g ≡ (no_action, g)
  unfolding evaluate evaluate_limits
  evaluate-unknown key o g e = rw (e, evaluate) refl

  -- For a strategy with limits: the guard de-risks exactly on a drawdown breach, blocks new orders
  -- exactly on another breach alone, and stores the updated totals, switched off by a drawdown
  -- breach; the states of the other strategies and all limits stay.
  pub evaluate_action :
      (key : String) (o : Observation F) (g : RuntimeRiskGuard F) (limits : StrategyRiskLimits F)
      → lookup key g.limits_by_strategy ≡ some limits
      → let st = updated key o g in
        let (decision, g') = evaluate key o g in
        (decision.action ≡ action_for (drawdown_breach limits o) (other_breach limits o st))
        × (lookup key g'.state_by_strategy
            ≡ some (record st { active = if drawdown_breach limits o then false else st.active }))
        × ((other : String)
            → key ≢ other
            → lookup other g'.state_by_strategy ≡ lookup other g.state_by_strategy)
        × (g'.limits_by_strategy ≡ g.limits_by_strategy)
  evaluate_action key o g limits e =
      let known = lookup key g.state_by_strategy in
      let (action, stored) = evaluate_state_lem limits o known in
      rw (evaluate-known key o g limits e) (
        action,
        lookup-insert_self key _ g.state_by_strategy ∙ ap some stored,
        λ other ne. lookup-insert_ne key other _ g.state_by_strategy ne,
        refl,
      )
