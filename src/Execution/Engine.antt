-- ===== src/Execution/Engine.antt =====
-- `ExecutionEngine` of services/service-risk-exec/src/service_risk_exec/main.py.
use gooberberg_terminal.Prelude.{Bool, false, ◌&&◌, Option, none, some, if◌then◌else◌}
use gooberberg_terminal.Prelude.Int.{pos, ltb_ℤ}
use gooberberg_terminal.Prelude.Float.{Float, nought, ◌<=◌, ◌<<◌, ◌⊕◌, ◌⊖◌, ◌⊗◌, ◌⊘◌, fmax, fmin}
use gooberberg_terminal.Execution.Orders.{
  OrderState, acknowledged, partially_filled, filled, expired, MarketEvent, OrderRequest,
  FillResult,
}
use gooberberg_terminal.Execution.Models.{
  FeeModel, SlippageModel, SpreadModel, LatencyModel, FillModel, RouterPolicy, from_bps, leaving,
}

pub record ExecutionEngine (F : Type 0) : Type 0 where
  pub fee_model : FeeModel F
  pub slippage_model : SlippageModel F
  pub spread_model : SpreadModel F
  pub latency_model : LatencyModel F
  pub fill_model : FillModel F
  pub router_policy : Option (RouterPolicy F)

module _ {F : Type 0} ⦃d : Float F⦄ where
  -- The schedule starts after its end.
  abbrev pub is_expired : OrderRequest F → Bool
  is_expired order = elim order.schedule_start_ts [
    | none ↦ false
    | some start ↦ elim order.schedule_end_ts [ none ↦ false | some stop ↦ stop << start ]
  ]

  abbrev pub is_cooling : OrderRequest F → MarketEvent F → Bool
  is_cooling order event = nought << order.anti_gaming_cooldown_ms && ltb_ℤ (pos 3) event.book_level

  abbrev pub is_unrouted : Option (RouterPolicy F) → OrderRequest F → MarketEvent F → Bool
  is_unrouted none order event = false
  is_unrouted (some score) order event = score order event << nought

  -- The result without a fill.
  abbrev pub no_fill : OrderState → F → MarketEvent F → FillResult F
  no_fill state queue event = record {
    fill_qty = nought;
    state = state;
    fee_amt = nought;
    spread_cost = nought;
    impact_cost = nought;
    delay_cost = nought;
    venue_id = event.venue_id;
    book_level = event.book_level;
    queue_remaining = queue;
    implementation_shortfall = nought;
    timing_cost = nought;
    spread_capture = nought;
  }

  -- `fill_qty`
  abbrev pub fill_qty_of : ExecutionEngine F → OrderRequest F → MarketEvent F → F
  fill_qty_of e order event = fmax nought (fmin order.qty (e.fill_model order event))

  -- The result of a fill.
  unfoldable pub fill_costs : ExecutionEngine F → OrderRequest F → MarketEvent F → F → FillResult F
  fill_costs e order event fill_qty =
      let spread = e.spread_model event in
      let impact_bps = e.slippage_model order.participation in
      let delay = fill_qty ⊗ (e.latency_model ⊘ d.of_nat 1000) in
      record {
        fill_qty = fill_qty;
        state = if order.qty <= fill_qty then filled else partially_filled;
        fee_amt = e.fee_model order fill_qty;
        spread_cost = fill_qty ⊗ spread;
        impact_cost = fill_qty ⊗ from_bps impact_bps;
        delay_cost = delay;
        venue_id = event.venue_id;
        book_level = event.book_level;
        queue_remaining = fmax (event.queue_estimate ⊖ leaving event) nought;
        implementation_shortfall = fill_qty ⊗ (from_bps impact_bps ⊕ spread);
        timing_cost = delay;
        spread_capture = fill_qty ⊗ fmax (spread ⊖ impact_bps ⊘ d.of_nat 20000) nought;
      }

  -- `process_fill`
  unfoldable pub process_fill : ExecutionEngine F → OrderRequest F → MarketEvent F → FillResult F
  unfolding fill_costs
  process_fill e order event =
      let fill_qty = fill_qty_of e order event in
      if is_expired order
      then no_fill expired event.queue_estimate event
      else if is_cooling order event
      then no_fill acknowledged event.queue_estimate event
      else if is_unrouted e.router_policy order event
      then no_fill acknowledged event.queue_estimate event
      else if fill_qty <= nought
      then no_fill acknowledged (fmax event.queue_estimate nought) event
      else fill_costs e order event fill_qty
