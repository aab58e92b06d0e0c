-- ===== src/Risk/Log.antt =====
-- What the closure `_record` keeps true of its two lists.
use gooberberg_terminal.Prelude.{
  String, ◌≡◌, refl, Bool, true, false, ◌&&◌, Option, none, some, List, [], ◌∷◌, ◌++◌, arith, all,
  is_empty, if◌then◌else◌,
}
use mathlib.Core.List.{append-nil}
use gooberberg_terminal.Prelude.Float.{Float}
use gooberberg_terminal.Prelude.Value.{Builtins}
use gooberberg_terminal.Prelude.Raising.{Yields, Yields-some, Yields-bind}
use gooberberg_terminal.Risk.Schema.{RiskConfig, StrategyIntent}
use gooberberg_terminal.Risk.Rules.{
  RuleResult, RuleLog, record_rule, order_rules, rules_given, run_rules,
}

-- The reason codes of the failed rules, in the order of the rules.
abbrev pub failed : List RuleResult → List String
failed [] = []
failed (r ∷ rs) = let rest = failed rs in if r.passed then rest else r.reason_code ∷ rest

failed-append : (rs ts : List RuleResult) → failed (rs ++ ts) ≡ failed rs ++ failed ts
failed-append [] ts = refl
failed-append (r ∷ rs) ts = ground (arith, failed-append rs ts)

-- The list of failure codes lists the failed rules.
abbrev pub Tracks : RuleLog → Type 0
Tracks log = log.failure_reason_codes ≡ failed log.rule_results

record_rule-Tracks :
    (name : String) (passed : Bool) (code : String) (log : RuleLog)
    → Tracks log
    → Tracks (record_rule name passed code log)
unfolding record_rule
record_rule-Tracks name true code log h = simp (h, failed-append, append-nil)
record_rule-Tracks name false code log h = rw (failed-append, h)

pub is_empty-failed : (rs : List RuleResult) → is_empty (failed rs) ≡ all (λ r. r.passed) rs
is_empty-failed [] = refl
is_empty-failed (r ∷ rs) = ground (arith, is_empty-failed rs)

is_empty-append_one : (xs : List String) (x : String) → is_empty (xs ++ x ∷ []) ≡ false
is_empty-append_one [] x = refl
is_empty-append_one (y ∷ ys) x = refl

pub is_empty-record_rule :
    (name : String) (passed : Bool) (code : String) (log : RuleLog)
    → is_empty (record_rule name passed code log).failure_reason_codes
      ≡ (passed && is_empty log.failure_reason_codes)
unfolding record_rule
is_empty-record_rule name true code log = refl
is_empty-record_rule name false code log = is_empty-append_one log.failure_reason_codes code

ruleset tracks_rules = (Yields-some, Yields-bind, record_rule-Tracks)

module _ {F : Type 0} ⦃d : Float F⦄ ⦃b : Builtins F⦄ where
  order_rules-Tracks :
      (c : RiskConfig F) (q n : F) (intent : StrategyIntent F) (quantity : F)
      → Yields Tracks (order_rules c q n intent quantity)
  unfolding order_rules
  order_rules-Tracks c q n intent quantity = search tracks_rules depth 20

  rules_given-Tracks :
      (c : RiskConfig F) (q n : F) (intent : StrategyIntent F) (x : Option F) (y : Option String)
      → Yields Tracks (rules_given c q n intent x y)
  rules_given-Tracks c q n intent (some x) (some y) = order_rules-Tracks c q n intent x
  rules_given-Tracks c q n intent (some x) none = search tracks_rules
  rules_given-Tracks c q n intent none y = search tracks_rules

  -- However the rules end, the failure codes are those of the failed rules.
  pub run_rules-Tracks :
      (c : RiskConfig F) (q n : F) (intent : StrategyIntent F)
      → Yields Tracks (run_rules c q n intent)
  unfolding run_rules
  run_rules-Tracks c q n intent = rules_given-Tracks c q n intent intent.quantity intent.symbol
