-- ===== src/Execution/Examples.antt =====
-- Tests of the execution engine, and its theorems at concrete inputs.
use gooberberg_terminal.Prelude.{◌≡◌, refl, false, none, some, [], string_eq}
use gooberberg_terminal.Prelude.Int.{ℤ, pos}
use gooberberg_terminal.Prelude.Dict.{lookup}
use gooberberg_terminal.Prelude.Float.{fmax, ◌≼◌}
use gooberberg_terminal.Prelude.Whole.{int_float, int-IsOrdered}
use gooberberg_terminal.Execution.Orders.{MarketEvent, OrderRequest, partially_filled}
use gooberberg_terminal.Execution.Models.{
  fixed_bps_fee, power_law_slippage, observed_or_fallback_spread, base_plus_jitter_latency,
  participation_cap_fill, queue_advancement_fill, venue_aware_score,
}
use gooberberg_terminal.Execution.Engine.{ExecutionEngine, fill_costs, process_fill}
use gooberberg_terminal.Execution.Fills.{process_fill_bounds}
use gooberberg_terminal.Execution.Queue.{with_fills}

abbrev order : OrderRequest ℤ
order = record {
  symbol = "SPY";
  qty = pos 100;
  aggressive = false;
  participation = pos 1;
  parent_order_id = none;
  child_order_id = none;
  schedule_start_ts = none;
  schedule_end_ts = none;
  min_slice_qty = pos 0;
  anti_gaming_cooldown_ms = pos 0;
}

abbrev event : MarketEvent ℤ
event = record {
  symbol = "SPY";
  displayed_qty = pos 60;
  venue_id = "lit-default";
  book_level = pos 1;
  queue_estimate = pos 20;
  traded_qty_at_level = pos 30;
  canceled_qty_at_level = pos 15;
  observed_spread = some (pos 2);
}

abbrev engine : ExecutionEngine ℤ
engine = record {
  fee_model = fixed_bps_fee (pos 1) (pos 0) (pos 10000);
  slippage_model = power_law_slippage (λ x y. x) (pos 0) (pos 10000) (pos 1);
  spread_model = observed_or_fallback_spread [] (pos 1);
  latency_model = base_plus_jitter_latency (λ a b. b) (pos 0) (pos 1000);
  fill_model = participation_cap_fill (pos 1);
  router_policy = some (venue_aware_score [] [] []);
}

-- 60 of the 100 are displayed, and 25 left the queue in front of the order.
fill_test :
    ((process_fill engine order event).fill_qty ≡ pos 60)
    × ((process_fill (with_fills (queue_advancement_fill (pos 1)) engine) order event).fill_qty
        ≡ pos 25)
    × ((process_fill engine order event).state ≡ partially_filled)
unfolding process_fill fill_costs fixed_bps_fee power_law_slippage observed_or_fallback_spread
    base_plus_jitter_latency participation_cap_fill queue_advancement_fill venue_aware_score lookup
fill_test = (refl, refl, refl)

process_fill_bounds_example :
    let r = process_fill engine order event in
    (pos 0 ≼ r.fill_qty)
    × (r.fill_qty ≼ pos 100)
    × (r.fill_qty ≼ fmax (pos 0) (engine.fill_model order event))
unfolding participation_cap_fill
process_fill_bounds_example = process_fill_bounds int-IsOrdered engine order event refl refl
