-- ===== src/Risk/Schema.antt =====
-- `RiskConfig` of libs/py/gb_core/src/gb_core/risk.py, and the messages of schemas.py. Identifiers
-- (UUIDs) and timestamps are numbers; `params` is a JSON object.
use gooberberg_terminal.Prelude.{ℕ, String, Bool, Option, List, [], ◌∷◌}
use gooberberg_terminal.Prelude.Int.{ℤ, pos}
use gooberberg_terminal.Prelude.Float.{Float, ◌⊘◌}
use gooberberg_terminal.Prelude.Value.{Fields}

pub record RiskConfig (F : Type 0) : Type 0 where
  pub max_quantity : F
  pub max_notional : F
  pub max_symbol_position : F
  pub max_sector_position : F
  pub max_gross_exposure : F
  pub max_net_exposure : F
  pub max_trades_per_minute : ℤ
  pub allowed_instruments : List String
  pub allowed_session_windows_utc : List (ℤ × ℤ)
  pub max_daily_drawdown_pct : F
  pub max_rolling_drawdown_pct : F
  pub max_loss_per_symbol : F
  pub max_loss_per_strategy : F
  pub max_symbol_concentration_pct : F
  pub max_strategy_concentration_pct : F
  pub high_vol_regime_threshold : F
  pub vol_regime_throttle_scale : F

abbrev pub default_config : {F : Type 0} ⦃d : Float F⦄ → RiskConfig F
default_config ⦃d⦄ = record {
  max_quantity = d.of_nat 1000;
  max_notional = d.of_nat 250000;
  max_symbol_position = d.of_nat 5000;
  max_sector_position = d.of_nat 25000;
  max_gross_exposure = d.of_nat 2500000;
  max_net_exposure = d.of_nat 500000;
  max_trades_per_minute = pos 120;
  allowed_instruments = "equity" ∷ [];
  allowed_session_windows_utc = (pos 13, pos 20) ∷ [];
  max_daily_drawdown_pct = d.of_nat 5;
  max_rolling_drawdown_pct = d.of_nat 8;
  max_loss_per_symbol = d.of_nat 10000;
  max_loss_per_strategy = d.of_nat 50000;
  max_symbol_concentration_pct = d.of_nat 35;
  max_strategy_concentration_pct = d.of_nat 60;
  high_vol_regime_threshold = d.of_nat 30;
  vol_regime_throttle_scale = d.of_nat 1 ⊘ d.of_nat 2;
}

-- `created_at` is read for its hour only.
pub record StrategyIntent (F : Type 0) : Type 0 where
  pub intent_id : ℕ
  pub strategy_key : Option String
  pub symbol : Option String
  pub quantity : Option F
  pub limit_price : Option F
  pub params : Fields F
  pub created_hour : ℕ

pub record RiskOverride (F : Type 0) : Type 0 where
  pub override_id : ℕ
  pub strategy_key : Option String
  pub symbol : Option String
  pub max_quantity : Option F
  pub max_notional : Option F
  pub created_at : ℕ

pub record ExecutionDecision : Type 0 where
  pub decision_id : ℕ
  pub intent_id : ℕ
  pub approved : Bool
  pub reason_code : String
  pub failure_reason_codes : List String
  pub detail : String
  pub evaluated_at : ℕ
  pub applied_override_id : Option ℕ

-- `AlertEvent` of event_schemas.py; its message is a log text and is left out.
pub data Severity : Type 0 where
  info warning critical : Severity

pub data PolicyAction : Type 0 where
  halt throttle warn : PolicyAction

pub record AlertEvent : Type 0 where
  pub event_id : ℕ
  pub trace_id : ℕ
  pub severity : Severity
  pub event_time : ℕ

-- An entry of `policy_action_audit_trail`.
pub record PolicyActionRecord : Type 0 where
  pub alert_event_id : ℕ
  pub trace_id : ℕ
  pub rule : String
  pub policy_action : PolicyAction
  pub severity : Severity
  pub recorded_at : ℕ
