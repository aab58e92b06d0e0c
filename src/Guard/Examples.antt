-- ===== src/Guard/Examples.antt =====
-- Tests of the runtime guard, and its theorems at concrete inputs.
use gooberberg_terminal.Prelude.{
  String, ◌≡◌, ◌≢◌, refl, true, false, some, List, [], ◌∷◌, string_eq, if◌then◌else◌,
}
use gooberberg_terminal.Prelude.Int.{ℤ, pos}
use gooberberg_terminal.Prelude.Dict.{lookup}
use gooberberg_terminal.Prelude.Whole.{int_float, int-IsOrdered}
use gooberberg_terminal.Guard.Limits.{
  none_taken, StrategyRiskLimits, StrategyGuardState, RuntimeRiskGuard,
}
use gooberberg_terminal.Guard.Evaluate.{Observation, evaluate}
use gooberberg_terminal.Guard.Actions.{
  action_for, drawdown_breach, other_breach, updated, evaluate_action,
}
use gooberberg_terminal.Guard.Totals.{evaluate_all, turnover_breach_lasts}

abbrev limits : StrategyRiskLimits ℤ
limits = record {
  max_intraday_drawdown = pos 3;
  max_position_concentration = pos 40;
  max_daily_turnover = pos 100;
  max_slippage_deviation_bps = pos 50;
}

abbrev busy : StrategyGuardState ℤ
busy = record {
  cumulative_turnover = pos 101;
  cumulative_slippage_deviation_bps = pos 0;
  total_orders = 4;
  active = true;
}

abbrev guard : RuntimeRiskGuard ℤ
guard = record {
  limits_by_strategy = ("momentum", limits) ∷ [];
  state_by_strategy = ("momentum", busy) ∷ [];
}

abbrev quiet : Observation ℤ
quiet = record {
  intraday_drawdown = pos 0;
  position_concentration = pos 0;
  turnover_delta = pos 0;
  slippage_deviation_bps = pos 0;
}

abbrev calls : List (String × Observation ℤ)
calls =
    ("momentum", quiet)
    ∷ ("other", quiet)
    ∷ ("momentum", record quiet { turnover_delta = pos 60 })
    ∷ []

limits-lookup : lookup "momentum" guard.limits_by_strategy ≡ some limits
unfolding lookup
limits-lookup = refl

state-lookup : lookup "momentum" guard.state_by_strategy ≡ some busy
unfolding lookup
state-lookup = refl

evaluate_action_example :
    let st = updated "momentum" quiet guard in
    let (decision, g') = evaluate "momentum" quiet guard in
    (decision.action ≡ action_for (drawdown_breach limits quiet) (other_breach limits quiet st))
    × (lookup "momentum" g'.state_by_strategy
        ≡ some (record st { active = if drawdown_breach limits quiet then false else st.active }))
    × ((other : String)
        → ◌≢◌ {A = String} "momentum" other
        → lookup other g'.state_by_strategy ≡ lookup other guard.state_by_strategy)
    × (g'.limits_by_strategy ≡ guard.limits_by_strategy)
evaluate_action_example = evaluate_action "momentum" quiet guard limits limits-lookup

turnover_breach_lasts_example :
    (evaluate "momentum" quiet (evaluate_all calls guard)).0.action ≢ none_taken
turnover_breach_lasts_example =
    turnover_breach_lasts int-IsOrdered "momentum" calls quiet limits guard
      (refl, (refl, (refl, tt))) refl (busy, limits-lookup, state-lookup, refl, refl)
