-- ===== src/Execution/Models.antt =====
-- The models of fees, slippage, spread, latency, fills and routing of
-- services/service-risk-exec/src/service_risk_exec/main.py: an abstract class is the type of its one
-- method, and each dataclass that implements it a definition of the method from its fields.
use gooberberg_terminal.Prelude.{String, not, string_eq, if◌then◌else◌, or_else}
use gooberberg_terminal.Prelude.Dict.{Dict, lookup}
use gooberberg_terminal.Prelude.Float.{Float, nought, one, ◌⊕◌, ◌⊖◌, ◌⊗◌, ◌⊘◌, fmax, fmin}
use gooberberg_terminal.Execution.Orders.{MarketEvent, OrderRequest}

module _ (F : Type 0) where
  abbrev pub FeeModel : Type 0
  FeeModel = OrderRequest F → F → F

  abbrev pub SlippageModel : Type 0
  SlippageModel = F → F

  abbrev pub SpreadModel : Type 0
  SpreadModel = MarketEvent F → F

  abbrev pub LatencyModel : Type 0
  LatencyModel = F

  abbrev pub FillModel : Type 0
  FillModel = OrderRequest F → MarketEvent F → F

  abbrev pub RouterPolicy : Type 0
  RouterPolicy = OrderRequest F → MarketEvent F → F

module _ {F : Type 0} ⦃d : Float F⦄ where
  -- `x / 10_000`
  abbrev pub from_bps : F → F
  from_bps x = x ⊘ d.of_nat 10000

  -- `min(max(x, 0.0), 1.0)`
  abbrev pub to_unit : F → F
  to_unit x = fmin (fmax x nought) one

  -- `FixedBpsFeeModel.fee_amount`
  unfoldable pub fixed_bps_fee : F → F → F → FeeModel F
  fixed_bps_fee fixed_fee maker_bps taker_bps order fill_qty =
      fixed_fee ⊕ fill_qty ⊗ from_bps (if order.aggressive then taker_bps else maker_bps)

  -- `PowerLawSlippageModel.slippage_bps`: `pow` is `**` on floats.
  unfoldable pub power_law_slippage : (F → F → F) → F → F → F → SlippageModel F
  power_law_slippage pow a b gamma participation = a ⊕ b ⊗ pow (to_unit participation) gamma

  -- `ObservedOrFallbackSpreadModel.spread`
  unfoldable pub observed_or_fallback_spread : Dict String F → F → SpreadModel F
  observed_or_fallback_spread fallback_by_symbol default_spread event =
      or_else event.observed_spread
        (or_else (lookup event.symbol fallback_by_symbol) default_spread)

  -- `BasePlusJitterLatencyModel.latency_ms`: `uniform` is the draw of the generator.
  unfoldable pub base_plus_jitter_latency : (F → F → F) → F → F → LatencyModel F
  base_plus_jitter_latency uniform base_ms jitter_ms = base_ms ⊕ uniform nought jitter_ms

  -- `ParticipationCapFillModel.max_fill_qty`
  unfoldable pub participation_cap_fill : F → FillModel F
  participation_cap_fill participation_cap order event =
      let cap = fmax participation_cap nought in fmin order.qty (event.displayed_qty ⊗ cap)

  -- The quantity that leaves the level: `canceled_qty_at_level + traded_qty_at_level`.
  abbrev pub leaving : MarketEvent F → F
  leaving event = event.canceled_qty_at_level ⊕ event.traded_qty_at_level

  -- `VenueAwareRouterPolicy.score`
  unfoldable pub venue_aware_score : Dict String F → Dict String F → Dict String F → RouterPolicy F
  venue_aware_score fee_bps_by_venue rebate_bps_by_venue baseline_fill_prob_by_venue order event =
      let fee_bps = or_else (lookup event.venue_id fee_bps_by_venue) nought in
      let rebate_bps = or_else (lookup event.venue_id rebate_bps_by_venue) nought in
      let fill_prob =
        to_unit (or_else (lookup event.venue_id baseline_fill_prob_by_venue) (one ⊘ d.of_nat 2)) in
      let queue_penalty = fmax (event.queue_estimate ⊖ leaving event) nought in
      fill_prob
      ⊖ from_bps (fee_bps ⊖ rebate_bps)
      ⊖ fmin (queue_penalty ⊘ fmax event.displayed_qty one) one

  -- `QueueAdvancementFillModel.max_fill_qty`
  unfoldable pub queue_advancement_fill : F → FillModel F
  queue_advancement_fill participation_cap order event =
      let cap = fmax participation_cap nought in
      let max_participation_fill = fmin order.qty (event.displayed_qty ⊗ cap) in
      let advanced_qty = fmax (leaving event ⊖ event.queue_estimate) nought in
      fmin max_participation_fill
        (if not order.aggressive then advanced_qty else max_participation_fill)
