-- ===== src/Execution/Fills.antt =====
-- What `process_fill` of services/service-risk-exec/src/service_risk_exec/main.py may return.
use gooberberg_terminal.Prelude.{
  ◌≡◌, ◌⊎◌, ◌||◌, refl, true, false, arith, Bool-cases, inl, inr, if◌then◌else◌,
}
use gooberberg_terminal.Prelude.Float.{Float, IsOrdered, nought, ◌<=◌, fmax, fmin, ◌≼◌, IsNumber}
use gooberberg_terminal.Prelude.FloatOrder.{
  fmin_le_left, fmin_le_right, le_fmax_left, le_fmax_right, fmax_le,
}
use gooberberg_terminal.Execution.Orders.{
  MarketEvent, OrderRequest, FillResult, acknowledged, expired, filled, partially_filled,
}
use gooberberg_terminal.Execution.Engine.{
  ExecutionEngine, no_fill, is_expired, is_cooling, is_unrouted, fill_qty_of, fill_costs,
  process_fill,
}

module _ {F : Type 0} ⦃d : Float F⦄ where
  abbrev pub CostsNothing : FillResult F → Type 0
  CostsNothing r =
      (r.fill_qty ≡ nought)
      × (r.fee_amt ≡ nought)
      × (r.spread_cost ≡ nought)
      × (r.impact_cost ≡ nought)
      × (r.delay_cost ≡ nought)
      × (r.implementation_shortfall ≡ nought)
      × (r.timing_cost ≡ nought)
      × (r.spread_capture ≡ nought)

  -- What the state of a result says of it.
  pub record IsOutcome (order : OrderRequest F) (r : FillResult F) : Type 0 where
    pub no_fill :
        (r.fill_qty <= nought) ≡ true
        → CostsNothing r × (r.state ≡ (if is_expired order then expired else acknowledged))
    pub some_fill :
        (r.fill_qty <= nought) ≡ false
        → (is_expired order ≡ false)
          × (r.state ≡ (if order.qty <= r.fill_qty then filled else partially_filled))

  stop_or_fill :
      (e : ExecutionEngine F) (order : OrderRequest F) (event : MarketEvent F)
      → ((queue : F) × (process_fill e order event
            ≡ no_fill (if is_expired order then expired else acknowledged) queue event))
        ⊎ ((is_expired order ≡ false)
            × ((fill_qty_of e order event <= nought) ≡ false)
            × (process_fill e order event ≡ fill_costs e order event (fill_qty_of e order event)))
  unfolding process_fill
  stop_or_fill e order event = elim (Bool-cases (is_expired order)) [
    | inl late ↦ inl (event.queue_estimate, rw late refl)
    | inr timely ↦
        elim (Bool-cases (is_cooling order event || is_unrouted e.router_policy order event)) [
          | inl held ↦ inl (event.queue_estimate, ground (arith, timely, held))
          | inr free ↦ elim (Bool-cases (fill_qty_of e order event <= nought)) [
            | inl empty ↦
                inl (fmax event.queue_estimate nought, ground (arith, timely, free, empty))
            | inr fills ↦ inr (timely, fills, ground (arith, timely, free, fills))
          ]
        ]
  ]

  -- If floats obey the stated laws, a result without a fill costs nothing and is of an order that
  -- expired or stays open, and one with a fill is of an order that did not expire, filled exactly
  -- if all of it was.
  process_fill-IsOutcome :
      IsOrdered F
      → (e : ExecutionEngine F) (order : OrderRequest F) (event : MarketEvent F)
      → IsOutcome order (process_fill e order event)
  unfolding fill_costs
  process_fill-IsOutcome laws e order event = elim (stop_or_fill e order event) [
    | inl (queue, stop) ↦ rw stop (record {
      no_fill = λ h. ((refl, refl, refl, refl, refl, refl, refl, refl), refl);
      some_fill = λ h. absurd (ground (arith, laws.number 0, h));
    })
    | inr (timely, fills, fill) ↦ rw fill (record {
      no_fill = λ h. absurd (ground (arith, fills, h));
      some_fill = λ h. (timely, refl);
    })
  ]

  -- If floats obey the stated laws, a fill is never negative, and neither more than the order nor
  -- than the fill model allows, for an order of at least 0 and a fill model that gives no NaN.
  pub process_fill_bounds :
      IsOrdered F
      → (e : ExecutionEngine F) (order : OrderRequest F) (event : MarketEvent F)
      → nought ≼ order.qty
      → IsNumber (e.fill_model order event)
      → let r = process_fill e order event in
        (nought ≼ r.fill_qty)
        × (r.fill_qty ≼ order.qty)
        × (r.fill_qty ≼ fmax nought (e.fill_model order event))
  unfolding fill_costs
  process_fill_bounds laws e order event h hm =
      let m = e.fill_model order event in
      let hq = laws.refl_right nought order.qty h in
      let hf = laws.refl_left _ _ (fmin_le_left laws order.qty m hq hm) in
      let above = le_fmax_left laws nought m (laws.number 0) hm in
      elim (stop_or_fill e order event) [
        | inl (queue, stop) ↦ rw stop (laws.number 0, h, above)
        | inr (timely, fills, fill) ↦ rw fill (
          le_fmax_left laws nought (fmin order.qty m) (laws.number 0) hf,
          fmax_le laws nought (fmin order.qty m) order.qty h (fmin_le_left laws order.qty m hq hm),
          fmax_le laws nought (fmin order.qty m) _ above (
              laws.le_trans _ m _ (fmin_le_right laws order.qty m hq hm)
                (le_fmax_right laws nought m (laws.number 0) hm)),
        )
      ]
