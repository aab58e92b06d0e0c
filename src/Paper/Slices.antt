-- ===== src/Paper/Slices.antt =====
-- The loop over the slices in `process_intent` of libs/py/gb_core/src/gb_core/paper_execution.py.
use gooberberg_terminal.Prelude.{
  ℕ, zero, suc, ◌+◌, String, List, [], ◌∷◌, ◌++◌, nat_eq, string_eq, contains, if◌then◌else◌,
}
use Prim.Native.Nat.{max}
use gooberberg_terminal.Prelude.Int.{pos_part}
use gooberberg_terminal.Prelude.Float.{Float, nought, ◌<=◌, ◌⊕◌, ◌⊖◌, ◌⊘◌, fmax, fmin}
use gooberberg_terminal.Paper.Events.{
  PaperExecutionConfig, OrderIntentEvent, FillEvent, Platform, fill_event,
}

-- `_OrderProgress`. The keys of one progress differ only in their index, which stands for them.
pub record OrderProgress (F : Type 0) : Type 0 where
  pub order_id : ℕ
  pub emitted_fill_keys : List ℕ
  pub emitted_qty : F

-- The variables of the loop over the slices.
pub record FillLoop (F : Type 0) : Type 0 where
  pub remaining : F
  pub progress : OrderProgress F
  pub fill_events : List (FillEvent F)

-- One call: the standard library, the clock reading and the fresh `order_id`.
pub record Call (F : Type 0) : Type 0 where
  pub platform : Platform F
  pub now : ℕ
  pub order_id : ℕ

module _ {F : Type 0} ⦃d : Float F⦄ where
  -- The body of the loop after the two tests.
  unfoldable pub emit_fill :
      Call F
      → PaperExecutionConfig F
      → OrderIntentEvent F
      → String
      → ℕ
      → F
      → ℕ
      → FillLoop F
      → FillLoop F
  emit_fill call config intent key ack_at fill_qty idx l = record {
    remaining = l.remaining ⊖ fill_qty;
    progress = record l.progress {
      emitted_fill_keys = idx ∷ l.progress.emitted_fill_keys;
      emitted_qty = l.progress.emitted_qty ⊕ fill_qty;
    };
    fill_events =
        l.fill_events
        ++ fill_event call.platform config intent l.progress.order_id fill_qty
            (call.platform.after_ms ack_at (d.of_nat (idx + 1)))
            (record { idempotency_key = key; index = idx })
          ∷ [];
  }

  -- The loop, with the number of slices that are left: `break` ends it, `continue` skips a slice.
  unfoldable pub fill_slices :
      Call F
      → PaperExecutionConfig F
      → OrderIntentEvent F
      → String
      → ℕ
      → F
      → ℕ
      → ℕ
      → FillLoop F
      → FillLoop F
  unfolding emit_fill
  fill_slices call config intent key ack_at slice_qty zero idx l = l
  fill_slices call config intent key ack_at slice_qty (suc left) idx l =
      let fill_qty = fmin slice_qty l.remaining in
      let skipped = fill_slices call config intent key ack_at slice_qty left (suc idx) l in
      let filled =
        fill_slices call config intent key ack_at slice_qty left (suc idx)
          (emit_fill call config intent key ack_at fill_qty idx l) in
      if fill_qty <= nought
      then l
      else if contains idx l.progress.emitted_fill_keys
      then skipped
      else filled

  abbrev pub slice_count : PaperExecutionConfig F → ℕ
  slice_count config = max 1 (pos_part config.max_fill_slices)

  abbrev pub fresh_progress : ℕ → OrderProgress F
  fresh_progress order_id = record {
    order_id = order_id;
    emitted_fill_keys = [];
    emitted_qty = nought;
  }

  abbrev pub available_qty : PaperExecutionConfig F → OrderIntentEvent F → F
  available_qty config intent = fmax (intent.quantity ⊖ config.queue_ahead_qty) nought

  abbrev pub slice_qty_of : PaperExecutionConfig F → OrderIntentEvent F → F
  slice_qty_of config intent =
      fmin (intent.quantity ⊘ d.of_nat (slice_count config)) (available_qty config intent)

  -- The loop as `process_intent` runs it.
  unfoldable pub run_slices :
      Call F → PaperExecutionConfig F → OrderIntentEvent F → String → ℕ → FillLoop F
  unfolding fill_slices
  run_slices call config intent key ack_at =
      fill_slices call config intent key ack_at (slice_qty_of config intent) (slice_count config) 0
        (record {
          remaining = intent.quantity;
          progress = fresh_progress call.order_id;
          fill_events = [];
        })
