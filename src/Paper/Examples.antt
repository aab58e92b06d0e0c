-- ===== src/Paper/Examples.antt =====
-- Tests of the paper execution engine, and its theorems at concrete inputs.
use gooberberg_terminal.Prelude.{ℕ, ◌+◌, ◌≡◌, refl, false, some, [], ◌∷◌, string_eq}
use gooberberg_terminal.Prelude.Int.{ℤ, pos}
use gooberberg_terminal.Prelude.Dict.{lookup}
use gooberberg_terminal.Prelude.Float.{nought}
use gooberberg_terminal.Prelude.Whole.{int_float}
use gooberberg_terminal.Paper.Events.{
  PaperExecutionConfig, OrderIntentEvent, Platform, buy, fill_event, order_event, submitted, ack,
  canceled,
}
use gooberberg_terminal.Paper.Slices.{Call, fill_slices, emit_fill, run_slices}
use gooberberg_terminal.Paper.Engine.{PaperExecutionEngine, execute, fill_result}
use gooberberg_terminal.Paper.Fills.{filled_from}
use gooberberg_terminal.Paper.Results.{IsResult, IsSound, statuses, execute-IsResult}

abbrev config : PaperExecutionConfig ℤ
config = record {
  base_latency_ms = pos 5;
  jitter_latency_ms = pos 0;
  slippage_bps = pos 2;
  queue_ahead_qty = pos 50;
  max_fill_slices = pos 4;
  reject_if_missing_limit = false;
}

abbrev platform : Platform ℤ
platform = record {
  after_ms = λ at ms. elim ms [ pos n ↦ at + n | _ ↦ at ];
  digest_of = λ key. [];
  fill_digest = λ key. [];
}

abbrev call : Call ℤ
call = record { platform = platform; now = 1000; order_id = 7 }

abbrev intent_of : ℕ → OrderIntentEvent ℤ
intent_of quantity = record {
  intent_id = 1;
  symbol = "SPY";
  side = buy;
  quantity = pos quantity;
  limit_price = some (pos 20);
}

abbrev engine : PaperExecutionEngine ℤ
engine = record { config = config; intent_results = []; progress = [] }

engine-IsSound : IsSound engine
unfolding lookup
engine-IsSound = record { kept = λ key r e. cc }

execute-IsResult_example :
    IsResult call config (intent_of 100) "k" (execute call config (intent_of 100) "k").0
execute-IsResult_example = execute-IsResult call config (intent_of 100) "k"

-- The queue of 50 limits each slice, not the order: all of the 100 is filled, and the order is not
-- canceled.
queue_test :
    let r = (execute call config (intent_of 100) "k").0 in
    (filled_from nought r.fill_events ≡ pos 100) × (statuses r.order_events ≡ submitted ∷ ack ∷ [])
unfolding execute fill_slices emit_fill run_slices fill_result fill_event order_event
queue_test = (refl, refl)

-- A queue of 90 leaves slices of 10, and the rest is canceled.
cancel_test :
    let r = (execute call (record config { queue_ahead_qty = pos 90 }) (intent_of 100) "k").0 in
    (filled_from nought r.fill_events ≡ pos 40)
    × (statuses r.order_events ≡ submitted ∷ ack ∷ canceled ∷ [])
unfolding execute fill_slices emit_fill run_slices fill_result fill_event order_event
cancel_test = (refl, refl)
