-- ===== src/Execution/Queue.antt =====
-- The two fill models of services/service-risk-exec/src/service_risk_exec/main.py in the engine.
use gooberberg_terminal.Prelude.{◌≡◌, if◌then◌else◌, Bool, ◌||◌, arith}
use gooberberg_terminal.Prelude.Float.{
  Float, IsOrdered, nought, ◌<=◌, ◌⊖◌, fmax, fmin, ◌≼◌, IsNumber,
}
use gooberberg_terminal.Prelude.FloatOrder.{fmin_le_left, le_fmax_left, fmax_nonneg, clamp_mono}
use gooberberg_terminal.Execution.Orders.{MarketEvent, OrderRequest}
use gooberberg_terminal.Execution.Models.{
  FillModel, leaving, participation_cap_fill, queue_advancement_fill,
}
use gooberberg_terminal.Execution.Engine.{
  ExecutionEngine, is_expired, is_cooling, is_unrouted, fill_qty_of, fill_costs, process_fill,
}

module _ {F : Type 0} ⦃d : Float F⦄ where
  -- The engine with another fill model.
  abbrev pub with_fills : FillModel F → ExecutionEngine F → ExecutionEngine F
  with_fills model e = record e { fill_model = model }

  abbrev is_stopped : ExecutionEngine F → OrderRequest F → MarketEvent F → Bool
  is_stopped e order event =
      is_expired order || is_cooling order event || is_unrouted e.router_policy order event

  -- The quantity that a result reports.
  abbrev settle : F → F
  settle q = if q <= nought then nought else q

  reported :
      (e : ExecutionEngine F) (order : OrderRequest F) (event : MarketEvent F)
      → (process_fill e order event).fill_qty
        ≡ (if is_stopped e order event then nought else settle (fill_qty_of e order event))
  unfolding process_fill fill_costs
  reported e order event = ground arith

  settle_mono : IsOrdered F → (p q : F) → p ≼ q → nought ≼ q → settle p ≼ settle q
  settle_mono laws p q h hq = ground (arith, laws.number 0, laws.le_trans p q nought h)

  advancement_le_participation :
      IsOrdered F
      → (cap : F) (order : OrderRequest F) (event : MarketEvent F)
      → IsNumber (participation_cap_fill cap order event)
      → IsNumber (leaving event ⊖ event.queue_estimate)
      → queue_advancement_fill cap order event ≼ participation_cap_fill cap order event
  unfolding queue_advancement_fill participation_cap_fill
  advancement_le_participation laws cap order event hp hq =
      let advanced = fmax (leaving event ⊖ event.queue_estimate) nought in
      let ha = laws.refl_right nought advanced (fmax_nonneg laws _ hq) in
      fmin_le_left laws _ _ hp (ground (arith, hp, ha))

  -- The queue model never lets the engine fill more than the participation model of the same cap,
  -- where the quantities that enter are no NaN and floats obey the stated laws.
  queue_fills_less :
      IsOrdered F
      → (e : ExecutionEngine F) (cap : F) (order : OrderRequest F) (event : MarketEvent F)
      → IsNumber order.qty
      → IsNumber (participation_cap_fill cap order event)
      → IsNumber (leaving event ⊖ event.queue_estimate)
      → (process_fill (with_fills (queue_advancement_fill cap) e) order event).fill_qty
        ≼ (process_fill (with_fills (participation_cap_fill cap) e) order event).fill_qty
  queue_fills_less laws e cap order event hqty hp hq =
      let less = advancement_le_participation laws cap order event hp hq in
      let clamped = clamp_mono laws order.qty _ _ hqty less in
      let number = laws.refl_left _ _ (fmin_le_left laws order.qty _ hqty hp) in
      let nonneg =
        le_fmax_left laws nought (fmin order.qty (participation_cap_fill cap order event))
          (laws.number 0) number in
      let settled = settle_mono laws _ _ clamped nonneg in
      ground (
        arith,
        laws.number 0,
        reported (with_fills (queue_advancement_fill cap) e) order event,
        reported (with_fills (participation_cap_fill cap) e) order event,
      )
