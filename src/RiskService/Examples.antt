-- ===== src/RiskService/Examples.antt =====
-- Tests of the risk execution service, and its theorems at concrete inputs.
use gooberberg_terminal.Prelude.{
  String, ◌≡◌, ◌≢◌, ◌↔◌, refl, some, none, List, [], ◌∷◌, arith, string_eq,
}
use gooberberg_terminal.Prelude.Int.{ℤ, pos}
use gooberberg_terminal.Prelude.Dict.{lookup}
use gooberberg_terminal.Prelude.Float.{◌≼◌}
use gooberberg_terminal.Prelude.Value.{end, get}
use gooberberg_terminal.Prelude.Whole.{int_float, int_builtins, int-IsOrdered}
use gooberberg_terminal.Risk.Schema.{default_config, StrategyIntent}
use gooberberg_terminal.Risk.Authority.{
  Authority, Stamps, find_override, matches, join, consume_intent,
}
use gooberberg_terminal.Risk.Rules.{
  run_rules, order_rules, abs_param, instrument, notional_within, in_session,
}
use gooberberg_terminal.Risk.Decisions.{Acceptable, Approves}
use gooberberg_terminal.Guard.Limits.{none_taken, de_risk, StrategyRiskLimits}
use gooberberg_terminal.Guard.Evaluate.{evaluate}
use gooberberg_terminal.RiskService.Consume.{Service, key_of, observation_of, consume_payload}
use gooberberg_terminal.RiskService.Gate.{
  guard_action, PublishesApproval, Diverges, consume_payload_approves, guard_leaves_audit_trail,
}
use gooberberg_terminal.RiskService.Counters.{service_never_derisks}

abbrev same : List String → List String
same codes = codes

abbrev stamps : Stamps
stamps = record { received_at = 1; decision_id = 7; evaluated_at = 2 }

abbrev intent : StrategyIntent ℤ
intent = record {
  intent_id = 3;
  strategy_key = some "momentum";
  symbol = some "NVDA";
  quantity = some (pos 900);
  limit_price = none;
  params = end;
  created_hour = 14;
}

abbrev limits : StrategyRiskLimits ℤ
limits = record {
  max_intraday_drawdown = pos 1;
  max_position_concentration = pos 1;
  max_daily_turnover = pos 500;
  max_slippage_deviation_bps = pos 50;
}

abbrev authority : Authority ℤ
authority = record {
  config = default_config;
  overrides = [];
  intent_events = [];
  decision_events = [];
  override_audit_trail = [];
  decision_audit_trail = [];
  alert_events = [];
  policy_action_audit_trail = [];
}

abbrev service : Service ℤ
service = record {
  authority = authority;
  runtime_guard = record { limits_by_strategy = ("momentum", limits) ∷ []; state_by_strategy = [] };
  state = record {
    processed_intents = 0;
    approved_decisions = 0;
    blocked_by_runtime_guard = 0;
    derisk_events = 0;
  };
}

authority-Approves : Approves stamps intent authority
unfolding consume_intent find_override run_rules order_rules abs_param instrument notional_within
    in_session get matches join
authority-Approves = (_, refl, refl)

guard_acts : guard_action intent service ≢ none_taken
unfolding evaluate key_of observation_of lookup
guard_acts e = cc

consume_payload_approves_example :
    PublishesApproval (consume_payload same stamps intent service)
    ↔ (Acceptable authority.config none intent × (guard_action intent service ≡ none_taken))
unfolding find_override
consume_payload_approves_example = consume_payload_approves same stamps intent service

guard_leaves_audit_trail_example :
    Diverges same service (consume_payload same stamps intent service).1
guard_leaves_audit_trail_example =
    guard_leaves_audit_trail same stamps intent service authority-Approves guard_acts

limits_nonneg :
    (key : String) (l : StrategyRiskLimits ℤ)
    → lookup key service.runtime_guard.limits_by_strategy ≡ some l
    → pos 0 ≼ l.max_intraday_drawdown
unfolding lookup
limits_nonneg key l e = ground arith

service_never_derisks_example :
    (evaluate (key_of intent) (observation_of intent) service.runtime_guard).0.action ≢ de_risk
service_never_derisks_example = service_never_derisks int-IsOrdered intent service limits_nonneg
