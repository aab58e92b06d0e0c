-- ===== src/RiskService/Consume.antt =====
-- `_consume_intent_payload` of services/service-risk-exec/src/service_risk_exec/main.py, from the
-- parsed intent to the published payload. The `ExecutionDecision` is one object, shared by the
-- caller and the authority's `_decision_events`: an assignment to it changes both.
use Prim.Native.String.{◌++◌ as str_append}
use gooberberg_terminal.Prelude.{
  ℕ, ◌+◌, String, Bool, true, false, Option, none, some, List, [], ◌∷◌, ◌++◌, or_else,
  if◌then◌else◌,
}
use gooberberg_terminal.Prelude.Float.{Float, nought, fabs}
use gooberberg_terminal.Prelude.Value.{Builtins}
use gooberberg_terminal.Risk.Schema.{StrategyIntent, ExecutionDecision}
use gooberberg_terminal.Risk.Rules.{RuleResult}
use gooberberg_terminal.Risk.Authority.{Authority, DecisionRecord, Stamps, truthy, consume_intent}
use gooberberg_terminal.Guard.Limits.{
  GuardAction, none_taken, block_new_orders, de_risk, GuardDecision, RuntimeRiskGuard,
}
use gooberberg_terminal.Guard.Evaluate.{Observation, evaluate}

pub record ServiceState : Type 0 where
  pub processed_intents : ℕ
  pub approved_decisions : ℕ
  pub blocked_by_runtime_guard : ℕ
  pub derisk_events : ℕ

-- The module's `authority` and `runtime_guard`, and the consumer's counters.
pub record Service (F : Type 0) : Type 0 where
  pub authority : Authority F
  pub runtime_guard : RuntimeRiskGuard F
  pub state : ServiceState

-- The parts of `decision_payload` that depend on the intent.
pub record Published : Type 0 where
  pub decision : ExecutionDecision
  pub guard_decision : GuardDecision
  pub passed : Bool
  pub failure_reason_codes : List String
  pub rule_results : List RuleResult

abbrev pub action_name : GuardAction → String
action_name none_taken = "none"
action_name block_new_orders = "block_new_orders"
action_name de_risk = "de_risk"

abbrev pub acts : GuardAction → Bool
acts none_taken = false
acts _ = true

-- An assignment to the object that is last in a list.
unfoldable pub set_last {ℓ} : {A : Type ℓ} → A → List A → List A
set_last v [] = []
set_last v (x ∷ []) = v ∷ []
set_last v (x ∷ y ∷ rest) = x ∷ set_last v (y ∷ rest)

-- `decision_audit_trail[-1].get("rule_results", [])`
unfoldable pub last_results : List DecisionRecord → List RuleResult
last_results [] = []
last_results (r ∷ []) = r.rule_results
last_results (r ∷ t ∷ rest) = last_results (t ∷ rest)

module _ {F : Type 0} ⦃d : Float F⦄ where
  -- The arguments of `runtime_guard.evaluate`. `StrategyIntent` declares no `intraday_drawdown`,
  -- `position_concentration` or `slippage_deviation_bps`, so `getattr` gives its default for them.
  unfoldable pub observation_of : StrategyIntent F → Observation F
  observation_of intent = record {
    intraday_drawdown = nought;
    position_concentration = nought;
    turnover_delta = fabs (or_else intent.quantity nought);
    slippage_deviation_bps = nought;
  }

  -- `intent.strategy_key or "unknown"`
  unfoldable pub key_of : StrategyIntent F → String
  key_of intent =
      if truthy intent.strategy_key then or_else intent.strategy_key "unknown" else "unknown"

-- The counters over the whole body.
unfoldable pub count : GuardDecision → ExecutionDecision → ServiceState → ServiceState
count g decision st = record {
  processed_intents = st.processed_intents + 1;
  approved_decisions =
      (if decision.approved then st.approved_decisions + 1 else st.approved_decisions);
  blocked_by_runtime_guard = elim g.action [
    | block_new_orders ↦ st.blocked_by_runtime_guard + 1
    | _ ↦ st.blocked_by_runtime_guard
  ];
  derisk_events = elim g.action [ de_risk ↦ st.derisk_events + 1 | _ ↦ st.derisk_events ];
}

unfoldable pub publish : GuardDecision → ExecutionDecision → List DecisionRecord → Published
publish g decision trail = record {
  decision = decision;
  guard_decision = g;
  passed = decision.approved;
  failure_reason_codes = decision.failure_reason_codes;
  rule_results = last_results trail;
}

-- `as_list` is `list(set(codes))`: Python leaves the order of a set open.
module _ (as_list : List String → List String) where
  unfoldable pub amend : GuardDecision → ExecutionDecision → ExecutionDecision
  amend g decision = record decision {
    approved = false;
    failure_reason_codes = as_list (decision.failure_reason_codes ++ g.breached_rules);
    reason_code = "RUNTIME_GUARD_BREACH";
    detail = str_append "runtime guard action=" (action_name g.action);
  }

  -- The branches of `if guard_decision.action != GuardAction.NONE` on the decision.
  unfoldable pub overrule : GuardDecision → ExecutionDecision → ExecutionDecision
  unfolding amend
  overrule g decision = if acts g.action then amend g decision else decision

  module _ {F : Type 0} ⦃d : Float F⦄ where
    -- What follows `consume_strategy_intent`; where that raised, nothing does.
    unfoldable pub after_decision :
        StrategyIntent F → Option ExecutionDecision → Service F → Option Published × Service F
    unfolding overrule count publish
    after_decision intent none s = (none, s)
    after_decision intent (some decision) s =
        let (g, guard) = evaluate (key_of intent) (observation_of intent) s.runtime_guard in
        let final = overrule g decision in
        let authority = record s.authority {
          decision_events = set_last final s.authority.decision_events;
        } in
        (
          some (publish g final authority.decision_audit_trail),
          record { authority = authority; runtime_guard = guard; state = count g decision s.state },
        )

  module _ {F : Type 0} ⦃d : Float F⦄ ⦃b : Builtins F⦄ where
    unfoldable pub consume_payload :
        Stamps → StrategyIntent F → Service F → Option Published × Service F
    unfolding after_decision
    consume_payload stamps intent s =
        let (decision, authority) = consume_intent stamps intent s.authority in
        after_decision intent decision (record s { authority = authority })
