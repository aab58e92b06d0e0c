-- ===== src/Risk/Authority.antt =====
-- `RiskExecutionAuthority` of libs/py/gb_core/src/gb_core/risk.py: its state, the overrides and
-- `consume_intent`. The clock and fresh UUIDs are arguments.
use Prim.Native.String.{◌++◌ as str_append}
use gooberberg_terminal.Prelude.{
  ℕ, zero, suc, ◌-◌, String, Bool, true, false, ◌&&◌, ◌||◌, Option, none, some, List, [], ◌∷◌, ◌++◌,
  ◌==◌, string_eq, option_eq, if◌then◌else◌, length, drop, map, or_else, is_empty,
}
use mathlib.Core.List.{reverse}
use gooberberg_terminal.Prelude.Int.{ℤ, pos, negsuc}
use gooberberg_terminal.Prelude.Float.{Float}
use gooberberg_terminal.Prelude.Value.{Builtins}
use gooberberg_terminal.Risk.Schema.{
  RiskConfig, StrategyIntent, RiskOverride, ExecutionDecision, AlertEvent, PolicyActionRecord,
}
use gooberberg_terminal.Risk.Rules.{RuleResult, RuleLog, run_rules}

pub record IntentEventRecord (F : Type 0) : Type 0 where
  pub intent : StrategyIntent F
  pub received_at : ℕ

-- An entry of `decision_audit_trail`.
pub record DecisionRecord : Type 0 where
  pub decision_id : ℕ
  pub intent_id : ℕ
  pub approved : Bool
  pub reason_code : String
  pub failure_reason_codes : List String
  pub rule_results : List RuleResult
  pub recorded_at : ℕ

-- An entry of `override_audit_trail`.
pub record OverrideRecord : Type 0 where
  pub override_id : ℕ
  pub strategy_key : Option String
  pub symbol : Option String
  pub recorded_at : ℕ
  pub action : String

pub record Authority (F : Type 0) : Type 0 where
  pub config : RiskConfig F
  pub overrides : List (RiskOverride F)
  pub intent_events : List (IntentEventRecord F)
  pub decision_events : List ExecutionDecision
  pub override_audit_trail : List OverrideRecord
  pub decision_audit_trail : List DecisionRecord
  pub alert_events : List AlertEvent
  pub policy_action_audit_trail : List PolicyActionRecord

-- What the clock and `uuid4` return in one call.
pub record Stamps : Type 0 where
  pub received_at : ℕ
  pub decision_id : ℕ
  pub evaluated_at : ℕ

-- `"; ".join(codes)`
unfoldable pub join : String → List String → String
join sep [] = ""
join sep (code ∷ []) = code
join sep (code ∷ next ∷ rest) = str_append code (str_append sep (join sep (next ∷ rest)))

-- The truth of a `str | None`.
abbrev pub truthy : Option String → Bool
truthy none = false
truthy (some s) = if s == "" then false else true

abbrev pub first_or : String → List String → String
first_or default [] = default
first_or default (code ∷ rest) = code

unfoldable pub audit_entry : ExecutionDecision → List RuleResult → DecisionRecord
audit_entry decision results = record {
  decision_id = decision.decision_id;
  intent_id = decision.intent_id;
  approved = decision.approved;
  reason_code = decision.reason_code;
  failure_reason_codes = decision.failure_reason_codes;
  rule_results = results;
  recorded_at = decision.evaluated_at;
}

-- `events[-limit:]`: for a limit of 0 that is the whole list, and for -k it drops k.
unfoldable pub last_events : ℤ → List ExecutionDecision → List ExecutionDecision
last_events (pos zero) events = events
last_events (pos (suc n)) events = drop (length events - suc n) events
last_events (negsuc n) events = drop (suc n) events

-- An entry of `event_trail`.
pub data TrailEntry : Type 0 where
  intent_received : ℕ → ℕ → TrailEntry
  decision_emitted : ℕ → ℕ → ℕ → TrailEntry

abbrev pub emitted : ExecutionDecision → TrailEntry
emitted e = decision_emitted e.intent_id e.decision_id e.evaluated_at

module _ {F : Type 0} where
  -- `__init__`
  unfoldable pub authority_init : RiskConfig F → Authority F
  authority_init config = record {
    config = config;
    overrides = [];
    intent_events = [];
    decision_events = [];
    override_audit_trail = [];
    decision_audit_trail = [];
    alert_events = [];
    policy_action_audit_trail = [];
  }

  -- The two tests of the loop in `_find_override`.
  unfoldable pub matches : RiskOverride F → StrategyIntent F → Bool
  matches o intent =
      truthy o.strategy_key && o.strategy_key == intent.strategy_key
      || truthy o.symbol && o.symbol == intent.symbol

  -- `_find_override`
  unfoldable pub find_override : List (RiskOverride F) → StrategyIntent F → Option (RiskOverride F)
  find_override [] intent = none
  find_override (o ∷ rest) intent = if matches o intent then some o else find_override rest intent

  -- `override.max_quantity if override and override.max_quantity is not None else default`
  abbrev pub limit_of : (RiskOverride F → Option F) → Option (RiskOverride F) → F → F
  limit_of field none default = default
  limit_of field (some o) default = or_else (field o) default

  abbrev pub id_of : Option (RiskOverride F) → Option ℕ
  id_of none = none
  id_of (some o) = some o.override_id

  -- The `ExecutionDecision` that follows from the rules.
  unfoldable pub decide :
      Stamps → StrategyIntent F → Option (RiskOverride F) → RuleLog → ExecutionDecision
  decide stamps intent found log =
      let approved = is_empty log.failure_reason_codes in
      record {
        decision_id = stamps.decision_id;
        intent_id = intent.intent_id;
        approved = approved;
        reason_code = first_or "APPROVED" log.failure_reason_codes;
        failure_reason_codes = log.failure_reason_codes;
        detail = if approved then "intent approved" else join "; " log.failure_reason_codes;
        evaluated_at = stamps.evaluated_at;
        applied_override_id = id_of found;
      }

  -- The first line of `consume_intent`: it is done also where a rule raises afterwards.
  unfoldable pub receive : Stamps → StrategyIntent F → Authority F → Authority F
  receive stamps intent s = record s {
    intent_events =
        s.intent_events ++ record { intent = intent; received_at = stamps.received_at } ∷ [];
  }

  -- The last lines of `consume_intent`. `none` is an exception, with the state as it was then.
  unfoldable pub conclude :
      Stamps
      → StrategyIntent F
      → Option (RiskOverride F)
      → Option RuleLog
      → Authority F
      → Option ExecutionDecision × Authority F
  unfolding decide audit_entry
  conclude stamps intent found none s = (none, s)
  conclude stamps intent found (some log) s =
      let decision = decide stamps intent found log in
      (
        some decision,
        record s {
          decision_events = s.decision_events ++ decision ∷ [];
          decision_audit_trail =
              s.decision_audit_trail ++ audit_entry decision log.rule_results ∷ [];
        },
      )

  -- `add_override`
  unfoldable pub add_override : RiskOverride F → Authority F → RiskOverride F × Authority F
  add_override o s = (
    o,
    record s {
      overrides = o ∷ s.overrides;
      override_audit_trail =
          s.override_audit_trail
          ++ record {
            override_id = o.override_id;
            strategy_key = o.strategy_key;
            symbol = o.symbol;
            recorded_at = o.created_at;
            action = "upsert";
          }
            ∷ [];
    },
  )

  -- `recent_decisions`
  unfoldable pub recent_decisions : ℤ → Authority F → List ExecutionDecision
  unfolding last_events
  recent_decisions limit s = reverse (last_events limit s.decision_events)

  -- `list_overrides`
  unfoldable pub list_overrides : Authority F → List (RiskOverride F)
  list_overrides s = s.overrides

  abbrev pub received : IntentEventRecord F → TrailEntry
  received r = intent_received r.intent.intent_id r.received_at

  -- `event_trail`
  unfoldable pub event_trail : Authority F → List TrailEntry
  event_trail s = map received s.intent_events ++ map emitted s.decision_events

module _ {F : Type 0} ⦃d : Float F⦄ ⦃b : Builtins F⦄ where
  -- The limits that an override replaces, and the rules under them.
  unfoldable pub rules_of :
      RiskConfig F → Option (RiskOverride F) → StrategyIntent F → Option RuleLog
  rules_of c found intent =
      run_rules c (limit_of (λ o. o.max_quantity) found c.max_quantity)
        (limit_of (λ o. o.max_notional) found c.max_notional) intent

  -- `consume_intent`
  unfoldable pub consume_intent :
      Stamps → StrategyIntent F → Authority F → Option ExecutionDecision × Authority F
  unfolding receive conclude rules_of
  consume_intent stamps intent s =
      let found = find_override s.overrides intent in
      conclude stamps intent found (rules_of s.config found intent) (receive stamps intent s)
