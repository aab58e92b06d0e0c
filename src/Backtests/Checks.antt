-- ===== src/Backtests/Checks.antt =====
-- The leakage checks and the estimate of the size of a run,
-- apps/api-control-plane/app/domain/backtest_runs/service.py.
use gooberberg_terminal.Prelude.{
  ℕ, ◌*◌, suc, String, Bool, true, false, not, ◌&&◌, Option, none, some, List, [], ◌∷◌, string_eq,
  ◌==◌, if◌then◌else◌, any, leb,
}
use gooberberg_terminal.Prelude.Float.{Float}
use gooberberg_terminal.Prelude.Int.{ℤ, pos, ◌-ℤ◌}
use gooberberg_terminal.Prelude.Raising.{◌>>=◌}
use gooberberg_terminal.Prelude.Value.{
  Value, bool, int, text, arr, Items, nil, cons, Fields, Builtins, get, get_or, is_truthy, to_int,
}

pub data CheckStatus : Type 0 where
  pass fail warn : CheckStatus

pub record LeakageCheck : Type 0 where
  pub name : String
  pub status : CheckStatus
  pub detail : String

-- The summary, without its time stamp; its status is "fail" where it is not valid.
pub record LeakageSummary : Type 0 where
  pub is_valid : Bool
  pub checks : List LeakageCheck

-- A time stamp, with the day of its date counted from some first day.
pub record Moment : Type 0 where
  pub day : ℤ
  pub isoformat : String

-- What `estimate_run_size` reads of a request, which a preflight and a creation share.
pub record RunBasis (F : Type 0) : Type 0 where
  pub strategy_key : String
  pub model_config_id : Option ℕ
  pub window_start : Moment
  pub window_end : Moment
  pub parameters : Fields F

-- The estimate, without the constant threshold and heuristic.
pub record SizeEstimate : Type 0 where
  pub symbol_count : ℕ
  pub date_span_days : ℕ
  pub estimated_units : ℕ
  pub requires_confirmation : Bool
  pub confirmation_token : Option String

abbrev check : String → CheckStatus → String → LeakageCheck
check name status detail = record { name = name; status = status; detail = detail }

-- `item["status"] in LEAKAGE_FAIL_CODES`; no check has the status "error".
abbrev pub is_failure : LeakageCheck → Bool
is_failure c = elim c.status [ fail ↦ true | _ ↦ false ]

-- A flag that has to be off, with the details for on and off.
abbrev pub check_off : String → String → String → Bool → LeakageCheck
check_off name on off is_on = if is_on then check name fail on else check name pass off

-- Two texts that are there, and equal.
abbrev pub are_equal : Option String → Option String → Bool
are_equal (some a) (some b) = a == b
are_equal _ _ = false

module _ {F : Type 0} where
  abbrev pub check_universe : Option (Value F) → LeakageCheck
  check_universe (some (bool false)) =
      check "survivorship_bias" fail "point_in_time_constituents must be true"
  check_universe (some (bool true)) =
      check "survivorship_bias" pass "point-in-time universe configured"
  check_universe _ = check "survivorship_bias" warn "point_in_time_constituents not supplied"

  abbrev pub as_text : Option (Value F) → Option String
  as_text (some (text s)) = some s
  as_text _ = none

  abbrev pub check_timestamps : Option (Value F) → Option (Value F) → LeakageCheck
  check_timestamps event_ts asof_ts =
      if are_equal (as_text event_ts) (as_text asof_ts)
      then check "timestamp_alignment" pass "event and as-of timestamps aligned"
      else check "timestamp_alignment" fail
          "event_timestamp_field and asof_timestamp_field must match"

module _ {F : Type 0} ⦃d : Float F⦄ where
  -- `bool(parameters.get(key, False))`
  abbrev pub flag : String → Fields F → Bool
  unfolding get
  flag key parameters = is_truthy (get_or key (bool false) parameters)

  unfoldable pub run_leakage_checks : Fields F → LeakageSummary
  unfolding get
  run_leakage_checks parameters =
      let checks =
        check_off "look_ahead" "parameters.allow_lookahead must be false" "look-ahead disabled"
          (flag "allow_lookahead" parameters)
        ∷ check_universe (get "point_in_time_constituents" parameters)
        ∷ check_timestamps (get "event_timestamp_field" parameters)
            (get "asof_timestamp_field" parameters)
        ∷ check_off "target_leakage" "target labels detected in feature inputs"
            "no target leakage markers detected" (flag "target_in_features" parameters)
        ∷ [] in
      record { is_valid = not (any is_failure checks); checks = checks }

-- `max(n, 1)`
abbrev pub at_least_one : ℤ → ℕ
at_least_one (pos (suc n)) = suc n
at_least_one _ = 1

abbrev pub oversized_threshold : ℕ
oversized_threshold = 2500

-- `bool(token) and token == expected`
abbrev pub confirms : Option String → Option String → Bool
confirms (some token) (some expected) = not (token == "") && token == expected
confirms _ _ = false

module _ {F : Type 0} where
  abbrev pub count_items : Items F → ℕ
  count_items nil = 0
  count_items (cons v items) = suc (count_items items)

module _ {F : Type 0} ⦃d : Float F⦄ ⦃b : Builtins F⦄ where
  -- The number of symbols before `max`; `none` is an exception of `int`.
  abbrev pub symbol_count_of : Option (Value F) → Fields F → Option ℤ
  unfolding get
  symbol_count_of (some (arr (cons v items))) parameters = some (pos (suc (count_items items)))
  symbol_count_of _ parameters = to_int (get_or "symbol_count" (int (pos 1)) parameters)

  unfoldable pub estimate_of : (RunBasis F → ℕ → String) → RunBasis F → ℤ → SizeEstimate
  estimate_of token_of basis symbols =
      let symbol_count = at_least_one symbols in
      let date_span_days = at_least_one (basis.window_end.day -ℤ basis.window_start.day) in
      let estimated_units = symbol_count * date_span_days in
      let requires_confirmation = leb oversized_threshold estimated_units in
      record {
        symbol_count = symbol_count;
        date_span_days = date_span_days;
        estimated_units = estimated_units;
        requires_confirmation = requires_confirmation;
        confirmation_token =
            if requires_confirmation then some (token_of basis estimated_units) else none;
      }

  -- `_build_confirmation_token`, which hashes the basis and the units, is an argument.
  unfoldable pub estimate_run_size : (RunBasis F → ℕ → String) → RunBasis F → Option SizeEstimate
  unfolding get estimate_of
  estimate_run_size token_of basis = do
    symbols ← symbol_count_of (get "symbols" basis.parameters) basis.parameters
    some (estimate_of token_of basis symbols)

  unfoldable pub validate_confirmation_token :
      (RunBasis F → ℕ → String) → RunBasis F → Option String → Option Bool
  unfolding estimate_run_size
  validate_confirmation_token token_of basis token = do
    estimate ← estimate_run_size token_of basis
    some (
        if not estimate.requires_confirmation
        then true
        else confirms token estimate.confirmation_token)
