-- ===== src/Risk/Examples.antt =====
-- Tests of the risk authority, and its theorems at concrete inputs.
use gooberberg_terminal.Prelude.{
  String, ◌≡◌, ◌↔◌, refl, Bool, true, false, Option, none, some, List, [], ◌∷◌, string_eq, All, ◌⊎◌,
}
use gooberberg_terminal.Prelude.Int.{ℤ, pos, negsuc}
use gooberberg_terminal.Prelude.Whole.{int_float, int_builtins}
use gooberberg_terminal.Prelude.Value.{num, obj, Fields, end, field, get}
use gooberberg_terminal.Risk.Schema.{
  RiskConfig, default_config, StrategyIntent, RiskOverride, ExecutionDecision,
}
use gooberberg_terminal.Risk.Authority.{
  Authority, Stamps, matches, find_override, consume_intent, join,
}
use gooberberg_terminal.Risk.Rules.{
  run_rules, order_rules, abs_param, instrument, notional_within, in_session,
}
use gooberberg_terminal.Risk.Decisions.{Approves, Acceptable, consume_intent-Approves}
use gooberberg_terminal.Risk.Monitors.{Source, Breach, evaluate_continuous_monitors}
use gooberberg_terminal.Risk.Alerts.{IsConsistent, alerts_from, extended, monitors_record}

abbrev config : RiskConfig ℤ
config = default_config

abbrev stamps : Stamps
stamps = record { received_at = 1; decision_id = 7; evaluated_at = 2 }

abbrev intent : StrategyIntent ℤ
intent = record {
  intent_id = 3;
  strategy_key = some "momentum";
  symbol = some "NVDA";
  quantity = some (pos 900);
  limit_price = some (pos 100);
  params = field "net_exposure_after" (num (negsuc 99)) end;
  created_hour = 14;
}

abbrev large : StrategyIntent ℤ
large = record intent { quantity = some (pos 4000); created_hour = 22 }

abbrev raised_limit : RiskOverride ℤ
raised_limit = record {
  override_id = 11;
  strategy_key = none;
  symbol = some "NVDA";
  max_quantity = some (pos 5000);
  max_notional = none;
  created_at = 0;
}

abbrev fresh : Authority ℤ
fresh = record {
  config = config;
  overrides = [];
  intent_events = [];
  decision_events = [];
  override_audit_trail = [];
  decision_audit_trail = [];
  alert_events = [];
  policy_action_audit_trail = [];
}

abbrev with_override : Authority ℤ
with_override = record fresh { overrides = raised_limit ∷ [] }

abbrev outcome : Option ExecutionDecision → Bool × List String
outcome none = (false, [])
outcome (some e) = (e.approved, e.failure_reason_codes)

consume_small : outcome (consume_intent stamps intent fresh).0 ≡ (true, [])
unfolding consume_intent find_override run_rules order_rules abs_param instrument notional_within
    in_session get matches join
consume_small = refl

consume_large :
    outcome (consume_intent stamps large fresh).0
    ≡ (false, "MAX_QUANTITY_EXCEEDED" ∷ "MAX_NOTIONAL_EXCEEDED" ∷ "OUTSIDE_SESSION_WINDOW" ∷ [])
unfolding consume_intent find_override run_rules order_rules abs_param instrument notional_within
    in_session get matches join
consume_large = refl

consume_overridden :
    outcome (consume_intent stamps large with_override).0
    ≡ (false, "MAX_NOTIONAL_EXCEEDED" ∷ "OUTSIDE_SESSION_WINDOW" ∷ [])
unfolding consume_intent find_override run_rules order_rules abs_param instrument notional_within
    in_session get matches join
consume_overridden = refl

intent_approved : Approves stamps intent fresh
unfolding consume_intent find_override run_rules order_rules abs_param instrument notional_within
    in_session get matches join
intent_approved = (_, refl, refl)

consume_intent-Approves_example :
    Approves stamps large with_override ↔ Acceptable config (some raised_limit) large
unfolding find_override matches
consume_intent-Approves_example = consume_intent-Approves stamps large with_override

abbrev source : Source
source = record { trace_id = 5; event_id = λ n. n; now = λ n. n }

abbrev stressed : Fields ℤ
stressed =
    field "daily_drawdown_pct" (num (pos 6))
      (field "symbol_losses" (obj (field "NVDA" (num (negsuc 20000)) end)) end)

monitors_record_example :
    let (returned, s') = evaluate_continuous_monitors source stressed fresh in
    (bs : List Breach) × All IsConsistent bs
    × (s' ≡ extended source bs fresh)
    × ((returned ≡ none) ⊎ (returned ≡ some (alerts_from source 0 bs)))
monitors_record_example = monitors_record source fresh stressed
