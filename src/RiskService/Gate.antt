-- ===== src/RiskService/Gate.antt =====
-- What is published as approved has passed the authority and the runtime guard
-- (services/service-risk-exec/src/service_risk_exec/main.py).
use gooberberg_terminal.Prelude.{
  String, ◌≡◌, ◌≢◌, ◌↔◌, refl, ◌∙◌, ap, sym, true, false, Option, none, some, List, [], ◌∷◌, ◌++◌,
  arith,
}
use mathlib.Core.Path.{subst}
use gooberberg_terminal.Prelude.Float.{Float}
use gooberberg_terminal.Prelude.Value.{Builtins}
use gooberberg_terminal.Prelude.Raising.{some_inj}
use gooberberg_terminal.Risk.Schema.{StrategyIntent, ExecutionDecision}
use gooberberg_terminal.Risk.Authority.{
  Authority, DecisionRecord, Stamps, find_override, consume_intent, audit_entry,
}
use gooberberg_terminal.Risk.Decisions.{
  Acceptable, Approves, Consumed, consume_intent-Approves, consume_intent_records,
}
use gooberberg_terminal.Guard.Limits.{none_taken, GuardAction, GuardDecision}
use gooberberg_terminal.Guard.Evaluate.{evaluate}
use gooberberg_terminal.RiskService.Consume.{
  Service, Published, acts, set_last, key_of, observation_of, overrule, after_decision,
  consume_payload,
}

acts-none : (a : GuardAction) → (acts a ≡ false) ↔ (a ≡ none_taken)
acts-none a = ground arith

-- The action of the runtime guard on an intent.
abbrev pub guard_action : {F : Type 0} ⦃d : Float F⦄ → StrategyIntent F → Service F → GuardAction
guard_action intent s = (evaluate (key_of intent) (observation_of intent) s.runtime_guard).0.action

-- The call published a decision, and it approves.
abbrev pub PublishesApproval : {F : Type 0} → Option Published × Service F → Type 0
PublishesApproval r = (p : Published) × (r.0 ≡ some p) × (p.decision.approved ≡ true)

set_last-append {ℓ} :
    {A : Type ℓ} (v x : A) (xs : List A) → set_last v (xs ++ x ∷ []) ≡ xs ++ v ∷ []
unfolding set_last
set_last-append v x [] = refl
set_last-append v x (y ∷ []) = refl
set_last-append v x (y ∷ z ∷ xs) = rw (set_last-append v x (z ∷ xs))

module _ (as_list : List String → List String) where
  overrule-approved :
      (g : GuardDecision) (e : ExecutionDecision)
      → ((overrule as_list g e).approved ≡ true) ↔ ((e.approved ≡ true) × (g.action ≡ none_taken))
  unfolding overrule
  overrule-approved g e = ground arith

  overrule-acts :
      (g : GuardDecision) (e : ExecutionDecision)
      → g.action ≢ none_taken
      → ((overrule as_list g e).approved ≡ false)
        × ((overrule as_list g e).decision_id ≡ e.decision_id)
  unfolding overrule
  overrule-acts g e h = ground arith

  module _ {F : Type 0} ⦃d : Float F⦄ where
    after_decision-approves :
        (intent : StrategyIntent F) (o : Option ExecutionDecision) (s : Service F)
        → PublishesApproval (after_decision as_list intent o s) ↔ (
            ((e : ExecutionDecision) × (o ≡ some e) × (e.approved ≡ true))
            × (guard_action intent s ≡ none_taken))
    unfolding after_decision
    after_decision-approves intent none s = (λ (p, e, a). cc, λ h. absurd (cc (h.0.1)))
    after_decision-approves intent (some e) s =
        let g = (evaluate (key_of intent) (observation_of intent) s.runtime_guard).0 in
        (
          λ (p, h, a).
              let (ok, idle) =
                (overrule-approved g e).0
                  (subst (λ (x : Published). x.decision.approved ≡ true) (sym (some_inj h)) a) in
              ((e, refl, ok), idle),
          λ ((e', h, ok), idle). (
            _,
            refl,
            (overrule-approved g e).1
                (subst (λ (x : ExecutionDecision). x.approved ≡ true) (sym (some_inj h)) ok, idle),
          ),
        )

  module _ {F : Type 0} ⦃d : Float F⦄ ⦃b : Builtins F⦄ where
    -- An approval is published exactly when the intent keeps every limit of the authority and the
    -- runtime guard takes no action on it.
    pub consume_payload_approves :
        (stamps : Stamps) (intent : StrategyIntent F) (s : Service F)
        → PublishesApproval (consume_payload as_list stamps intent s) ↔ (
            Acceptable s.authority.config (find_override s.authority.overrides intent) intent
            × (guard_action intent s ≡ none_taken))
    unfolding consume_payload
    consume_payload_approves stamps intent s =
        let (decision, authority) = consume_intent stamps intent s.authority in
        let split = after_decision-approves intent decision (record s { authority = authority }) in
        let rules = consume_intent-Approves stamps intent s.authority in
        (
          λ p. let (approval, idle) = split.0 p in (rules.0 approval, idle),
          λ (ok, idle). split.1 (rules.1 ok, idle),
        )

    -- A refused decision event stands beside an audit entry of the same decision that approves.
    abbrev pub Diverges : Service F → Service F → Type 0
    Diverges s s' =
        (e : ExecutionDecision) × (r : DecisionRecord) × (s'.authority.decision_events
          ≡ s.authority.decision_events ++ e ∷ [])
        × (s'.authority.decision_audit_trail ≡ s.authority.decision_audit_trail ++ r ∷ [])
        × (r.decision_id ≡ e.decision_id)
        × (e.approved ≡ false)
        × (r.approved ≡ true)

    after_decision-Diverges :
        (stamps : Stamps) (intent : StrategyIntent F) (s : Service F) (o : Option ExecutionDecision)
        (a : Authority F) (e : ExecutionDecision)
        → Consumed stamps intent s.authority (o, a)
        → o ≡ some e
        → e.approved ≡ true
        → guard_action intent s ≢ none_taken
        → Diverges s (after_decision as_list intent o (record s { authority = a })).1
    unfolding after_decision audit_entry
    after_decision-Diverges stamps intent s none a e c h ok acts = cc
    after_decision-Diverges stamps intent s (some e') a e (results, x, id, eq) h ok acts =
        let g = (evaluate (key_of intent) (observation_of intent) s.runtime_guard).0 in
        let (refused, same) = overrule-acts g e' acts in
        (
          overrule as_list g e',
          audit_entry e' results,
          ap (λ (b : Authority F). set_last (overrule as_list g e') b.decision_events) eq
              ∙ set_last-append _ e' s.authority.decision_events,
          ap (λ (b : Authority F). b.decision_audit_trail) eq,
          sym same,
          refused,
          subst (λ (y : ExecutionDecision). y.approved ≡ true) (sym (some_inj h)) ok,
        )

    -- Where the guard acts on an intent that the authority approved, the stored decision is made to
    -- refuse, and the audit entry of the same decision still approves.
    pub guard_leaves_audit_trail :
        (stamps : Stamps) (intent : StrategyIntent F) (s : Service F)
        → Approves stamps intent s.authority
        → guard_action intent s ≢ none_taken
        → Diverges s (consume_payload as_list stamps intent s).1
    unfolding consume_payload
    guard_leaves_audit_trail stamps intent s (e, h, ok) acts =
        let (decision, authority) = consume_intent stamps intent s.authority in
        after_decision-Diverges stamps intent s decision authority e
          (consume_intent_records stamps intent s.authority) h ok acts
