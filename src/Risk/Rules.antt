-- ===== src/Risk/Rules.antt =====
-- The order rules of `RiskExecutionAuthority.consume_intent`
-- (libs/py/gb_core/src/gb_core/risk.py). A rule result's `detail` is a log text and is left out.
use gooberberg_terminal.Prelude.{
  String, Bool, true, false, not, ◌&&◌, ◌||◌, Option, some, List, [], ◌∷◌, ◌++◌, any, contains,
  or_else, is_some, string_eq, if◌then◌else◌,
}
use gooberberg_terminal.Prelude.Int.{ℤ, pos, leb_ℤ, ltb_ℤ}
use gooberberg_terminal.Prelude.Float.{Float, nought, ◌<=◌, ◌⊗◌, fabs}
use gooberberg_terminal.Prelude.Value.{int, num, text, Builtins, get_or, to_float, to_int}
use gooberberg_terminal.Prelude.Raising.{◌>>=◌}
use gooberberg_terminal.Risk.Schema.{RiskConfig, StrategyIntent}

pub record RuleResult : Type 0 where
  pub rule : String
  pub passed : Bool
  pub reason_code : String

-- The lists `rule_results` and `failure_reason_codes` that the closure `_record` appends to.
pub record RuleLog : Type 0 where
  pub rule_results : List RuleResult
  pub failure_reason_codes : List String

abbrev pub empty_log : RuleLog
empty_log = record { rule_results = []; failure_reason_codes = [] }

-- `_record(name, passed, reason_code, detail)`
unfoldable pub record_rule : String → Bool → String → RuleLog → RuleLog
record_rule name passed code log = record {
  rule_results =
      log.rule_results ++ record { rule = name; passed = passed; reason_code = code } ∷ [];
  failure_reason_codes =
      if not passed then log.failure_reason_codes ++ code ∷ [] else log.failure_reason_codes;
}

-- `any(start <= hour < end for start, end in windows)`
unfoldable pub in_session : ℤ → List (ℤ × ℤ) → Bool
in_session hour = any λ w. leb_ℤ w.0 hour && ltb_ℤ hour w.1

module _ {F : Type 0} ⦃d : Float F⦄ ⦃b : Builtins F⦄ where
  -- `abs(float(intent.params.get(key, 0.0)))`
  unfoldable pub abs_param : StrategyIntent F → String → Option F
  abs_param intent key = do x ← to_float (get_or key (num nought) intent.params); some (fabs x)

  -- `str(intent.params.get("instrument", "equity"))`
  unfoldable pub instrument : StrategyIntent F → String
  instrument intent = b.str (get_or "instrument" (text "equity") intent.params)

  unfoldable pub notional_within : StrategyIntent F → F → F → Bool
  notional_within intent quantity max_notional =
      not (is_some intent.limit_price)
      || quantity ⊗ or_else intent.limit_price nought <= max_notional

  -- The rules of an intent that has a symbol and a quantity. `none` is an exception of `float` or
  -- `int`.
  unfoldable pub order_rules : RiskConfig F → F → F → StrategyIntent F → F → Option RuleLog
  unfolding record_rule
  order_rules c max_qty max_notional intent quantity = do
    let start = record_rule "required_fields" true "OK" empty_log
    let sized = record_rule "max_order_size" (quantity <= max_qty) "MAX_QUANTITY_EXCEEDED" start
    let valued =
        record_rule "max_notional" (notional_within intent quantity max_notional)
          "MAX_NOTIONAL_EXCEEDED" sized
    let named =
        record_rule "allowed_instruments" (contains (instrument intent) c.allowed_instruments)
          "INSTRUMENT_NOT_ALLOWED" valued
    let timed =
        record_rule "session_window"
          (in_session (pos intent.created_hour) c.allowed_session_windows_utc)
          "OUTSIDE_SESSION_WINDOW" named
    next_symbol_position ← abs_param intent "symbol_position_after"
    let symbols =
        record_rule "max_symbol_position" (next_symbol_position <= c.max_symbol_position)
          "MAX_SYMBOL_POSITION_EXCEEDED" timed
    next_sector_position ← abs_param intent "sector_position_after"
    let sectors =
        record_rule "max_sector_position" (next_sector_position <= c.max_sector_position)
          "MAX_SECTOR_POSITION_EXCEEDED" symbols
    gross_exposure ← abs_param intent "gross_exposure_after"
    let gross =
        record_rule "gross_exposure" (gross_exposure <= c.max_gross_exposure)
          "MAX_GROSS_EXPOSURE_EXCEEDED" sectors
    net_exposure ← abs_param intent "net_exposure_after"
    let net =
        record_rule "net_exposure" (net_exposure <= c.max_net_exposure) "MAX_NET_EXPOSURE_EXCEEDED"
          gross
    trades_last_minute ← to_int (get_or "trades_last_minute" (int (pos 0)) intent.params)
    some (
        record_rule "trade_frequency" (leb_ℤ trades_last_minute c.max_trades_per_minute)
          "TRADE_FREQUENCY_LIMIT_EXCEEDED" net)

  -- The test `intent.quantity is None or intent.symbol is None`, and both of its branches.
  abbrev pub rules_given :
      RiskConfig F → F → F → StrategyIntent F → Option F → Option String → Option RuleLog
  rules_given c max_qty max_notional intent (some quantity) (some symbol) =
      order_rules c max_qty max_notional intent quantity
  rules_given c max_qty max_notional intent _ _ =
      some (record_rule "required_fields" false "MISSING_ORDER_FIELDS" empty_log)

  unfoldable pub run_rules : RiskConfig F → F → F → StrategyIntent F → Option RuleLog
  run_rules c max_qty max_notional intent =
      rules_given c max_qty max_notional intent intent.quantity intent.symbol
