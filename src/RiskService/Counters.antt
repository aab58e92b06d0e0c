-- ===== src/RiskService/Counters.antt =====
-- The counters of the health endpoint, and what the guard can see
-- (services/service-risk-exec/src/service_risk_exec/main.py).
use gooberberg_terminal.Prelude.{
  ◌+◌, ◌≤◌, String, ◌≡◌, ◌≢◌, ◌∙◌, ap, Bool, false, Option, none, some, List, [], ◌∷◌, arith, sym,
  string_eq, Option-cases, inl, inr,
}
use gooberberg_terminal.Prelude.Dict.{lookup}
use gooberberg_terminal.Prelude.Float.{Float, IsOrdered, nought, ◌<<◌, ◌≼◌}
use gooberberg_terminal.Prelude.Value.{Builtins}
use gooberberg_terminal.Risk.Schema.{StrategyIntent, ExecutionDecision}
use gooberberg_terminal.Risk.Authority.{Stamps}
use gooberberg_terminal.Guard.Limits.{de_risk, GuardDecision, RuntimeRiskGuard, StrategyRiskLimits}
use gooberberg_terminal.Guard.Evaluate.{evaluate}
use gooberberg_terminal.Guard.Actions.{
  action_for, drawdown_breach, evaluate_action, evaluate-unknown,
}
use gooberberg_terminal.RiskService.Consume.{
  Service, ServiceState, count, key_of, observation_of, after_decision, consume_payload,
}

-- No counter passes the number of processed intents, and blocks and de-risk events exclude
-- each other.
record IsConsistent (st : ServiceState) : Type 0 where
  approvals : st.approved_decisions ≤ st.processed_intents
  actions : st.blocked_by_runtime_guard + st.derisk_events ≤ st.processed_intents

count-IsConsistent :
    (g : GuardDecision) (e : ExecutionDecision) (st : ServiceState)
    → IsConsistent st
    → IsConsistent (count g e st)
unfolding count
count-IsConsistent g e st h = ground arith

module _ (as_list : List String → List String) where
  module _ {F : Type 0} ⦃d : Float F⦄ where
    after_decision-IsConsistent :
        (intent : StrategyIntent F) (o : Option ExecutionDecision) (s : Service F)
        → IsConsistent s.state
        → IsConsistent (after_decision as_list intent o s).1.state
    unfolding after_decision
    after_decision-IsConsistent intent none s h = h
    after_decision-IsConsistent intent (some e) s h =
        count-IsConsistent (evaluate (key_of intent) (observation_of intent) s.runtime_guard).0 e
          s.state h

  module _ {F : Type 0} ⦃d : Float F⦄ ⦃b : Builtins F⦄ where
    -- Messages in order, each with what the clock and `uuid4` return for it.
    consume_all : List (Stamps × StrategyIntent F) → Service F → Service F
    consume_all [] s = s
    consume_all ((stamps, intent) ∷ rest) s =
        consume_all rest (consume_payload as_list stamps intent s).1

    -- Whatever messages arrive, a consistent set of counters stays consistent.
    consume_all-IsConsistent :
        (messages : List (Stamps × StrategyIntent F)) (s : Service F)
        → IsConsistent s.state
        → IsConsistent (consume_all messages s).state
    unfolding consume_all consume_payload
    consume_all-IsConsistent [] s h = h
    consume_all-IsConsistent ((stamps, intent) ∷ rest) s h =
        consume_all-IsConsistent rest (consume_payload as_list stamps intent s).1
          (after_decision-IsConsistent intent _ _ h)

module _ {F : Type 0} ⦃d : Float F⦄ (laws : IsOrdered F) where
  not_over_zero : (limit : F) → nought ≼ limit → (limit << nought) ≡ false
  not_over_zero limit h =
      ground
        (arith, laws.lt-eq-not-le limit nought (laws.refl_right nought limit h) (laws.number 0))

  action_for-ne-de_risk :
      (drawdown other : Bool) → drawdown ≡ false → action_for drawdown other ≢ de_risk
  action_for-ne-de_risk drawdown other h = ground arith

  -- If no strategy's drawdown limit is negative and floats obey the stated laws, the service never
  -- de-risks: the guard is shown a drawdown of zero for every intent.
  pub service_never_derisks :
      (intent : StrategyIntent F) (s : Service F)
      → ((key : String) (limits : StrategyRiskLimits F)
          → lookup key s.runtime_guard.limits_by_strategy ≡ some limits
          → nought ≼ limits.max_intraday_drawdown)
      → (evaluate (key_of intent) (observation_of intent) s.runtime_guard).0.action ≢ de_risk
  unfolding observation_of
  service_never_derisks intent s nonneg e =
      elim (Option-cases (lookup (key_of intent) s.runtime_guard.limits_by_strategy)) [
        | inl unknown ↦ cc (
          e,
          ap (λ (r : GuardDecision × RuntimeRiskGuard F). r.0.action)
              (evaluate-unknown (key_of intent) (observation_of intent) s.runtime_guard unknown),
        )
        | inr (limits, known) ↦
            action_for-ne-de_risk (drawdown_breach limits (observation_of intent)) _
              (not_over_zero limits.max_intraday_drawdown (nonneg _ limits known))
              (sym
                  (evaluate_action (key_of intent) (observation_of intent) s.runtime_guard limits
                    known).0
                ∙ e)
      ]
