-- ===== src/Risk/Monitors.antt =====
-- `evaluate_continuous_monitors` of libs/py/gb_core/src/gb_core/risk.py. Messages and the `context`
-- of an audit entry are log texts and are left out.
use gooberberg_terminal.Prelude.{
  ℕ, String, Bool, true, false, length, Option, none, some, List, [], ◌∷◌, ◌++◌, if◌then◌else◌,
}
use gooberberg_terminal.Prelude.Float.{Float, nought, ◌<=◌, fabs}
use gooberberg_terminal.Prelude.Value.{
  Value, num, obj, Fields, end, field, Builtins, get_or, to_float,
}
use gooberberg_terminal.Risk.Schema.{
  RiskConfig, Severity, info, warning, critical, PolicyAction, halt, throttle, warn, AlertEvent,
  PolicyActionRecord,
}
use gooberberg_terminal.Risk.Authority.{Authority}

-- What one run of the monitors has emitted, beside the authority that it writes to.
pub record Monitoring (F : Type 0) : Type 0 where
  pub alerts : List AlertEvent
  pub authority : Authority F

-- The arguments `rule`, `severity` and `policy_action` of `_emit`.
pub record Breach : Type 0 where
  pub rule : String
  pub severity : Severity
  pub policy_action : PolicyAction

abbrev pub breach : String → Severity → PolicyAction → Breach
breach r s p = record { rule = r; severity = s; policy_action = p }

-- `trace_id`, the fresh event identifiers by the number of alerts so far, and the clock likewise.
pub record Source : Type 0 where
  pub trace_id : ℕ
  pub event_id : ℕ → ℕ
  pub now : ℕ → ℕ

-- A part of the body: whether it returned, and what it has written by then.
abbrev pub Part : Type 0 → Type 0
Part F = Monitoring F → Bool × Monitoring F

infixl 10 ◌then_do◌
unfoldable pub ◌then_do◌ : {F : Type 0} → Part F → Part F → Part F
◌then_do◌ p q m = let (returned, m') = p m in if returned then q m' else (false, m')

unfoldable pub alert_of : Source → ℕ → Breach → AlertEvent
alert_of src n b = record {
  event_id = src.event_id n;
  trace_id = src.trace_id;
  severity = b.severity;
  event_time = src.now n;
}

unfoldable pub policy_entry : Source → ℕ → Breach → PolicyActionRecord
policy_entry src n b = record {
  alert_event_id = src.event_id n;
  trace_id = src.trace_id;
  rule = b.rule;
  policy_action = b.policy_action;
  severity = b.severity;
  recorded_at = src.now n;
}

module _ {F : Type 0} where
  -- `_emit`
  unfoldable pub emit : Source → Breach → Monitoring F → Monitoring F
  emit src b m =
      let n = length m.alerts in
      record {
        alerts = m.alerts ++ alert_of src n b ∷ [];
        authority = record m.authority {
          alert_events = m.authority.alert_events ++ alert_of src n b ∷ [];
          policy_action_audit_trail =
              m.authority.policy_action_audit_trail ++ policy_entry src n b ∷ [];
        };
      }

module _ {F : Type 0} ⦃d : Float F⦄ where
  -- `if x >= limit: _emit(...)`, where reading `x` may have raised.
  unfoldable pub monitor : Source → Option F → F → Breach → Part F
  unfolding emit
  monitor src none limit b m = (false, m)
  monitor src (some x) limit b m = (true, if limit <= x then emit src b m else m)

module _ {F : Type 0} ⦃d : Float F⦄ ⦃b : Builtins F⦄ where
  abbrev pub magnitude : Option F → Option F
  magnitude none = none
  magnitude (some x) = some (fabs x)

  -- A loop over `d.items()`. On a value that is no `dict` it raises.
  unfoldable pub monitor_items : Source → (Option F → Option F) → F → Breach → Fields F → Part F
  unfolding monitor ◌then_do◌
  monitor_items src read limit k end m = (true, m)
  monitor_items src read limit k (field symbol v rest) m =
      (monitor src (read (to_float v)) limit k then_do monitor_items src read limit k rest) m

  unfoldable pub monitor_dict : Source → (Option F → Option F) → F → Breach → Value F → Part F
  unfolding monitor_items
  monitor_dict src read limit k (obj items) m = monitor_items src read limit k items m
  monitor_dict src read limit k _ m = (false, m)

  abbrev pub given : String → Fields F → Option F
  given key input = to_float (get_or key (num nought) input)

  -- The body of `evaluate_continuous_monitors` after its first two lines.
  unfoldable pub monitor_all : RiskConfig F → Source → Fields F → Part F
  unfolding monitor monitor_dict ◌then_do◌
  monitor_all c src input =
      monitor src (given "daily_drawdown_pct" input) c.max_daily_drawdown_pct
        (breach "daily_drawdown" critical halt)
      then_do monitor src (given "rolling_drawdown_pct" input) c.max_rolling_drawdown_pct
          (breach "rolling_drawdown" critical halt)
      then_do monitor_dict src magnitude c.max_loss_per_symbol
          (breach "max_loss_per_symbol" critical halt) (get_or "symbol_losses" (obj end) input)
      then_do monitor src (magnitude (given "strategy_loss" input)) c.max_loss_per_strategy
          (breach "max_loss_per_strategy" critical halt)
      then_do monitor_dict src (λ x. x) c.max_symbol_concentration_pct
          (breach "symbol_concentration" warning throttle)
          (get_or "symbol_concentration_pct" (obj end) input)
      then_do monitor src (given "strategy_concentration_pct" input)
          c.max_strategy_concentration_pct (breach "strategy_concentration" warning throttle)
      then_do monitor src (given "volatility_regime" input) c.high_vol_regime_threshold
          (breach "volatility_regime" info warn)

  -- `evaluate_continuous_monitors`: the returned alerts (`none` where it raised) and the new state.
  unfoldable pub evaluate_continuous_monitors :
      Source → Fields F → Authority F → Option (List AlertEvent) × Authority F
  unfolding monitor_all
  evaluate_continuous_monitors src input s =
      let (returned, m) = monitor_all s.config src input (record { alerts = []; authority = s }) in
      (if returned then some m.alerts else none, m.authority)
