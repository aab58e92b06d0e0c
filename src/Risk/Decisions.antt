-- ===== src/Risk/Decisions.antt =====
-- What `consume_intent` of libs/py/gb_core/src/gb_core/risk.py returns and records.
use gooberberg_terminal.Prelude.{
  sym, String, ◌≡◌, refl, ◌↔◌, true, Option, none, some, List, [], ◌∷◌, ◌++◌, arith, all, is_empty,
}
use mathlib.Core.Path.{subst}
use gooberberg_terminal.Prelude.Float.{Float}
use gooberberg_terminal.Prelude.Value.{Builtins}
use gooberberg_terminal.Prelude.Raising.{some_inj}
use gooberberg_terminal.Risk.Schema.{RiskConfig, StrategyIntent, ExecutionDecision, RiskOverride}
use gooberberg_terminal.Risk.Rules.{RuleResult, RuleLog, record_rule, rules_given, run_rules}
use gooberberg_terminal.Risk.Authority.{
  Authority, Stamps, first_or, find_override, limit_of, decide, audit_entry, receive, conclude,
  rules_of, consume_intent,
}
use gooberberg_terminal.Risk.Log.{failed, Tracks, is_empty-failed, run_rules-Tracks}
use gooberberg_terminal.Risk.Approval.{KeepsLimits, order_rules_clear}

-- What a decision and its audit entry say, when the rules gave `results`.
pub record Explains (e : ExecutionDecision) (results : List RuleResult) : Type 0 where
  pub codes : e.failure_reason_codes ≡ failed results
  pub approval : e.approved ≡ all (λ r. r.passed) results
  pub reason : e.reason_code ≡ first_or "APPROVED" (failed results)

-- The rules ran and none failed.
abbrev pub Passes : Option RuleLog → Type 0
Passes o = (log : RuleLog) × (o ≡ some log) × (is_empty log.failure_reason_codes ≡ true)

module _ {F : Type 0} ⦃d : Float F⦄ ⦃b : Builtins F⦄ where
  decide-Explains :
      (stamps : Stamps) (intent : StrategyIntent F) (found : Option (RiskOverride F))
      (log : RuleLog)
      → Tracks log
      → Explains (decide stamps intent found log) log.rule_results
  unfolding decide
  decide-Explains stamps intent found log h = record {
    codes = h;
    approval = rw h (is_empty-failed log.rule_results);
    reason = rw h refl;
  }

  -- Either a rule raised, and only the receipt of the intent is recorded, or a decision is returned,
  -- and it is recorded with the rule results that explain it.
  abbrev pub Consumed :
      Stamps → StrategyIntent F → Authority F → Option ExecutionDecision × Authority F → Type 0
  Consumed stamps intent s (none, s') = s' ≡ receive stamps intent s
  Consumed stamps intent s (some e, s') =
      (results : List RuleResult) × Explains e results
      × (e.intent_id ≡ intent.intent_id)
      × (s' ≡ record (receive stamps intent s) {
        decision_events = s.decision_events ++ e ∷ [];
        decision_audit_trail = s.decision_audit_trail ++ audit_entry e results ∷ [];
      })

  conclude-Consumed :
      (stamps : Stamps) (intent : StrategyIntent F) (found : Option (RiskOverride F))
      (o : Option RuleLog) (s : Authority F)
      → ((log : RuleLog) → o ≡ some log → Tracks log)
      → Consumed stamps intent s (conclude stamps intent found o (receive stamps intent s))
  unfolding conclude receive
  conclude-Consumed stamps intent found none s h = refl
  conclude-Consumed stamps intent found (some log) s h =
      (log.rule_results, decide-Explains stamps intent found log (h log refl), refl, refl)

  -- Every call of `consume_intent` returns a decision that its recorded rule results explain, or
  -- raises and records only the receipt.
  pub consume_intent_records :
      (stamps : Stamps) (intent : StrategyIntent F) (s : Authority F)
      → Consumed stamps intent s (consume_intent stamps intent s)
  unfolding consume_intent
  consume_intent_records stamps intent s =
      conclude-Consumed stamps intent _ _ s (run_rules-Tracks _ _ _ intent).at

  -- The call returns a decision that approves.
  abbrev pub Approves : Stamps → StrategyIntent F → Authority F → Type 0
  Approves stamps intent s =
      (e : ExecutionDecision) × ((consume_intent stamps intent s).0 ≡ some e) × (e.approved ≡ true)

  abbrev pub Acceptable : RiskConfig F → Option (RiskOverride F) → StrategyIntent F → Type 0
  Acceptable c found intent =
      (quantity : F) × (symbol : String) × (intent.quantity ≡ some quantity)
      × (intent.symbol ≡ some symbol)
      × KeepsLimits c (limit_of (λ o. o.max_quantity) found c.max_quantity)
          (limit_of (λ o. o.max_notional) found c.max_notional) intent quantity

  rules_given_iff :
      (c : RiskConfig F) (q n : F) (intent : StrategyIntent F) (x : Option F) (y : Option String)
      → Passes (rules_given c q n intent x y) ↔ (
          (quantity : F) × (symbol : String) × (x ≡ some quantity)
          × (y ≡ some symbol)
          × KeepsLimits c q n intent quantity)
  unfolding record_rule
  rules_given_iff c q n intent (some x) (some y) = (
    λ p. (x, y, refl, refl, (order_rules_clear c q n intent x).0 p),
    λ (quantity, symbol, e, e', k). (order_rules_clear c q n intent x).1 (rw (← some_inj e) at k),
  )
  rules_given_iff c q n intent (some x) none =
      (λ (log, h, e). ground (arith), λ (quantity, symbol, e, e', k). cc)
  rules_given_iff c q n intent none y =
      (λ (log, h, e). ground arith, λ (quantity, symbol, e, e', k). cc)

  conclude_iff :
      (stamps : Stamps) (intent : StrategyIntent F) (found : Option (RiskOverride F))
      (o : Option RuleLog) (s : Authority F)
      → ((e : ExecutionDecision) × ((conclude stamps intent found o s).0 ≡ some e)
          × (e.approved ≡ true))
        ↔ Passes o
  unfolding conclude
  conclude_iff stamps intent found none s = (λ (e, h, a). cc, λ (log, h, a). cc)
  conclude_iff stamps intent found (some log) s = (
    λ (e, h, a).
        (log, refl, subst (λ (x : ExecutionDecision). x.approved ≡ true) (sym (some_inj h)) a),
    λ (l, h, a). (
      decide stamps intent found log,
      refl,
      subst (λ (l : RuleLog). is_empty l.failure_reason_codes ≡ true) (sym (some_inj h)) a,
    ),
  )

  -- The authority approves an intent exactly when the intent has a symbol and a quantity and keeps
  -- every limit, those of the override that applies in place of the configured ones.
  pub consume_intent-Approves :
      (stamps : Stamps) (intent : StrategyIntent F) (s : Authority F)
      → Approves stamps intent s ↔ Acceptable s.config (find_override s.overrides intent) intent
  unfolding consume_intent rules_of run_rules
  consume_intent-Approves stamps intent s =
      let found = find_override s.overrides intent in
      let split =
        conclude_iff stamps intent found (rules_of s.config found intent)
          (receive stamps intent s) in
      let given = rules_given_iff s.config _ _ intent intent.quantity intent.symbol in
      (λ a. given.0 (split.0 a), λ k. split.1 (given.1 k))
