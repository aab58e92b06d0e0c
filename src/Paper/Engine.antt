-- ===== src/Paper/Engine.antt =====
-- `PaperExecutionEngine` of libs/py/gb_core/src/gb_core/paper_execution.py. The clock, the fresh
-- order identifier and the standard library are arguments.
use gooberberg_terminal.Prelude.{
  ℕ, ◌+◌, String, Bool, not, ◌&&◌, ◌||◌, Option, none, some, List, [], ◌∷◌, ◌++◌, nat_eq, string_eq,
  is_some, if◌then◌else◌,
}
use gooberberg_terminal.Prelude.Dict.{Dict, lookup, insert}
use gooberberg_terminal.Prelude.Float.{Float, nought, ◌<=◌, ◌<<◌}
use gooberberg_terminal.Paper.Events.{
  PaperExecutionConfig, OrderIntentEvent, OrderEvent, FillEvent, submitted, ack, rejected, canceled,
  order_event, latency_ms,
}
use gooberberg_terminal.Paper.Slices.{
  OrderProgress, FillLoop, Call, slice_count, fresh_progress, available_qty, run_slices,
}

pub record PaperExecutionResult (F : Type 0) : Type 0 where
  pub order_events : List (OrderEvent F)
  pub fill_events : List (FillEvent F)

pub record PaperExecutionEngine (F : Type 0) : Type 0 where
  pub config : PaperExecutionConfig F
  pub intent_results : Dict String (PaperExecutionResult F)
  pub progress : Dict String (OrderProgress F)

module _ {F : Type 0} ⦃d : Float F⦄ where
  -- `__init__`
  unfoldable pub engine_init : PaperExecutionConfig F → PaperExecutionEngine F
  engine_init config = record { config = config; intent_results = []; progress = [] }

  -- The result and the progress of an intent that is new.
  abbrev pub ack_time : Call F → PaperExecutionConfig F → String → ℕ
  ack_time call config key = call.platform.after_ms call.now (latency_ms call.platform config key)

  abbrev pub opening :
      Call F → PaperExecutionConfig F → OrderIntentEvent F → String → List (OrderEvent F)
  opening call config intent key =
      order_event intent call.order_id submitted call.now
      ∷ order_event intent call.order_id ack (ack_time call config key)
      ∷ []

  -- The order ends with no fill.
  abbrev pub unfilled :
      Call F → PaperExecutionConfig F → OrderIntentEvent F → String → PaperExecutionResult F
  unfilled call config intent key = record {
    order_events =
        opening call config intent key
        ++ order_event intent call.order_id canceled
            (call.platform.after_ms (ack_time call config key) (d.of_nat 1))
          ∷ [];
    fill_events = [];
  }

  unfoldable pub fill_result :
      Call F
      → PaperExecutionConfig F
      → OrderIntentEvent F
      → String
      → FillLoop F
      → PaperExecutionResult F
  fill_result call config intent key l = record {
    order_events =
        if l.progress.emitted_qty << intent.quantity
        then opening call config intent key
          ++ order_event intent call.order_id canceled (
              call.platform.after_ms (ack_time call config key) (d.of_nat (slice_count config + 1)))
            ∷ []
        else opening call config intent key;
    fill_events = l.fill_events;
  }

  unfoldable pub rejection : Call F → OrderIntentEvent F → PaperExecutionResult F
  rejection call intent = record {
    order_events =
        order_event intent call.order_id submitted call.now
        ∷ order_event intent call.order_id rejected (call.platform.after_ms call.now (d.of_nat 1))
        ∷ [];
    fill_events = [];
  }

  abbrev pub is_rejected : PaperExecutionConfig F → OrderIntentEvent F → Bool
  is_rejected config intent = config.reject_if_missing_limit && not (is_some intent.limit_price)

  -- The order has no quantity, or all of it stands behind the queue.
  abbrev pub is_blocked : PaperExecutionConfig F → OrderIntentEvent F → Bool
  is_blocked config intent = intent.quantity <= nought || available_qty config intent <= nought

  -- The outcome, and the progress that is kept (none for a rejection).
  unfoldable pub execute :
      Call F
      → PaperExecutionConfig F
      → OrderIntentEvent F
      → String
      → PaperExecutionResult F × Option (OrderProgress F)
  unfolding run_slices fill_result rejection
  execute call config intent key =
      let l = run_slices call config intent key (ack_time call config key) in
      if is_rejected config intent
      then (rejection call intent, none)
      else if is_blocked config intent
      then (unfilled call config intent key, some (fresh_progress call.order_id))
      else (fill_result call config intent key l, some l.progress)

  abbrev pub keep_progress :
      String
      → Option (OrderProgress F)
      → Dict String (OrderProgress F)
      → Dict String (OrderProgress F)
  keep_progress key none all = all
  keep_progress key (some p) all = insert key p all

  unfoldable pub process_known :
      Option (PaperExecutionResult F)
      → Call F
      → OrderIntentEvent F
      → String
      → PaperExecutionEngine F
      → PaperExecutionResult F × PaperExecutionEngine F
  unfolding execute
  process_known (some result) call intent key e = (result, e)
  process_known none call intent key e =
      let (result, progress) = execute call e.config intent key in
      (
        result,
        record e {
          intent_results = insert key result e.intent_results;
          progress = keep_progress key progress e.progress;
        },
      )

  -- `process_intent`
  unfoldable pub process_intent :
      Call F
      → OrderIntentEvent F
      → String
      → PaperExecutionEngine F
      → PaperExecutionResult F × PaperExecutionEngine F
  unfolding process_known
  process_intent call intent key e = process_known (lookup key e.intent_results) call intent key e
