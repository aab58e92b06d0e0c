-- ===== src/EventLog/Record.antt =====
-- The data of libs/py/gb_core/src/gb_core/event_log.py and the reading of a payload. A `datetime` is
-- its instant in UTC, as a number.
use gooberberg_terminal.Prelude.{ℕ, String, Option, none, some, string_eq, ◌==◌, if◌then◌else◌}
use gooberberg_terminal.Prelude.Float.{Float}
use gooberberg_terminal.Prelude.Raising.{◌>>=◌}
use gooberberg_terminal.Prelude.Value.{Value, null, text, Fields, Builtins, get, is_truthy}

pub record EventRecord (F : Type 0) : Type 0 where
  pub offset : ℕ
  pub event_type : String
  pub symbol : Option String
  pub event_time : ℕ
  pub trace_id : Option String
  pub decision_id : Option String
  pub order_id : Option String
  pub run_id : Option String
  pub strategy_id : Option String
  pub payload : Fields F

-- What the standard library reads from a text: `datetime.fromisoformat` taken to UTC, a text
-- without a zone being in UTC. `none` is a `ValueError`.
pub record Clock : Type 0 where
  pub from_iso : String → Option ℕ

-- `_coerce_utc_datetime` of a JSON value. A value that is neither absent nor a text has no `tzinfo`.
unfoldable pub coerce_utc_datetime : {F : Type 0} → Clock → ℕ → Option (Value F) → Option ℕ
coerce_utc_datetime clock now none = some now
coerce_utc_datetime clock now (some null) = some now
coerce_utc_datetime clock now (some (text s)) = clock.from_iso s
coerce_utc_datetime clock now (some _) = none

module _ {F : Type 0} ⦃d : Float F⦄ ⦃b : Builtins F⦄ where
  -- `_to_optional_str`
  unfoldable pub to_optional_str : Option (Value F) → Option String
  to_optional_str none = none
  to_optional_str (some null) = none
  to_optional_str (some v) = let s = b.str v in if s == "" then none else some s

  -- `str(payload.get("event_type") or "UnknownEvent")`
  unfoldable pub event_type_of : Option (Value F) → String
  event_type_of none = "UnknownEvent"
  event_type_of (some v) = if is_truthy v then b.str v else "UnknownEvent"

  -- The `EventRecord` that `append` builds.
  unfoldable pub make_record : Clock → ℕ → ℕ → Fields F → Option (EventRecord F)
  unfolding event_type_of to_optional_str coerce_utc_datetime
  make_record clock now offset payload = do
    time ← coerce_utc_datetime clock now (get "event_time" payload)
    some (record {
      offset = offset;
      event_type = event_type_of (get "event_type" payload);
      symbol = to_optional_str (get "symbol" payload);
      event_time = time;
      trace_id = to_optional_str (get "trace_id" payload);
      decision_id = to_optional_str (get "decision_id" payload);
      order_id = to_optional_str (get "order_id" payload);
      run_id = to_optional_str (get "run_id" payload);
      strategy_id = to_optional_str (get "strategy_id" payload);
      payload = payload;
    })
