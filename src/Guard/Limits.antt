-- ===== src/Guard/Limits.antt =====
-- The data of services/service-risk-exec/src/service_risk_exec/guards.py, and `from_config`.
use gooberberg_terminal.Prelude.{ℕ, String, Bool, true, Option, some, List, [], string_eq}
use gooberberg_terminal.Prelude.Dict.{Dict, insert}
use gooberberg_terminal.Prelude.Float.{Float, nought, one}
use gooberberg_terminal.Prelude.Raising.{◌>>=◌}
use gooberberg_terminal.Prelude.Value.{num, obj, Fields, end, field, Builtins, get_or, to_float}

pub data GuardAction : Type 0 where
  none_taken block_new_orders de_risk : GuardAction

pub record StrategyRiskLimits (F : Type 0) : Type 0 where
  pub max_intraday_drawdown : F
  pub max_position_concentration : F
  pub max_daily_turnover : F
  pub max_slippage_deviation_bps : F

pub record StrategyGuardState (F : Type 0) : Type 0 where
  pub cumulative_turnover : F
  pub cumulative_slippage_deviation_bps : F
  pub total_orders : ℕ
  pub active : Bool

pub record GuardDecision : Type 0 where
  pub action : GuardAction
  pub breached_rules : List String

pub record RuntimeRiskGuard (F : Type 0) : Type 0 where
  pub limits_by_strategy : Dict String (StrategyRiskLimits F)
  pub state_by_strategy : Dict String (StrategyGuardState F)

module _ {F : Type 0} ⦃d : Float F⦄ where
  -- The defaults of the dataclass.
  abbrev pub fresh_state : StrategyGuardState F
  fresh_state = record {
    cumulative_turnover = nought;
    cumulative_slippage_deviation_bps = nought;
    total_orders = 0;
    active = true;
  }

  -- `__init__`
  unfoldable pub guard_init : Dict String (StrategyRiskLimits F) → RuntimeRiskGuard F
  guard_init limits = record { limits_by_strategy = limits; state_by_strategy = [] }

module _ {F : Type 0} ⦃d : Float F⦄ ⦃b : Builtins F⦄ where
  unfoldable pub limits_of_config : Fields F → Option (StrategyRiskLimits F)
  limits_of_config raw = do
    drawdown ← to_float (get_or "max_intraday_drawdown" (num one) raw)
    concentration ← to_float (get_or "max_position_concentration" (num one) raw)
    turnover ← to_float (get_or "max_daily_turnover" (num (d.of_nat 1_000_000_000)) raw)
    slippage ← to_float (get_or "max_slippage_deviation_bps" (num (d.of_nat 1_000_000_000)) raw)
    some (record {
      max_intraday_drawdown = drawdown;
      max_position_concentration = concentration;
      max_daily_turnover = turnover;
      max_slippage_deviation_bps = slippage;
    })

  -- The loop of `from_config`: an entry that is no `dict` is skipped.
  unfoldable pub parse_limits :
      Dict String (StrategyRiskLimits F) → Fields F → Option (Dict String (StrategyRiskLimits F))
  unfolding limits_of_config
  parse_limits parsed end = some parsed
  parse_limits parsed (field strategy (obj raw) rest) =
      limits_of_config raw >>= λ limits. parse_limits (insert strategy limits parsed) rest
  parse_limits parsed (field strategy _ rest) = parse_limits parsed rest

  -- `from_config`
  unfoldable pub from_config : Fields F → Option (RuntimeRiskGuard F)
  unfolding parse_limits guard_init
  from_config payload = do parsed ← parse_limits [] payload; some (guard_init parsed)
