-- ===== src/Strategy/Valid.antt =====
-- The bounds of the events, services/service-inference-live/src/service_inference_live/strategy_runner.py
-- and libs/py/gb_core/src/gb_core/event_schemas.py.
use gooberberg_terminal.Prelude.{
  String, Bool, [], ◌∷◌, ◌&&◌, true, false, ◌≡◌, refl, arith, is_some, string_eq, ◌==◌, inl, inr,
  Bool-cases,
}
use gooberberg_terminal.Prelude.Texts.{join}
use gooberberg_terminal.Prelude.Float.{
  Float, IsOrdered, IsNumber, nought, one, fmin, fabs, ◌≼◌, ◌<=◌,
}
use gooberberg_terminal.Prelude.FloatOrder.{
  fmin_le_right, fmax_le, le_fmax_right, le_fmin, fabs_nonneg,
}
use gooberberg_terminal.Strategy.Events.{
  Runtime, Stamps, MarketDataEvent, SignalEvent, StrategyRunner,
}
use gooberberg_terminal.Strategy.Runner.{
  features_of, raw_strength, clamped, in_range, signal_of, decision_of, build_signal_event,
  build_decision_event, run, are_filled, is_valid_signal, is_valid_decision, threshold, decide,
}

-- Rounding to five digits keeps the order, and 1, 0 and -1; a number is not below its own sign.
pub record IsRounding (F : Type 0) ⦃d : Float F⦄ (rt : Runtime F) : Type 0 where
  pub mono : (x y : F) → x ≼ y → rt.round_5 x ≼ rt.round_5 y
  pub at_one : rt.round_5 one ≡ one
  pub at_nought : rt.round_5 nought ≡ nought
  pub at_neg : rt.round_5 (d.neg one) ≡ d.neg one
  pub neg_le : d.neg one ≼ one

signal_valid :
    (version producer strategy hash symbol : String) (range : Bool)
    → are_filled (version ∷ producer ∷ strategy ∷ hash ∷ symbol ∷ []) ≡ true
    → range ≡ true
    → (are_filled (version ∷ producer ∷ strategy ∷ hash ∷ "micro-momentum" ∷ symbol ∷ []) && range)
      ≡ true
signal_valid version producer strategy hash symbol range h k = ground arith

decision_valid :
    (version producer strategy hash symbol rationale : String) (range : Bool)
    → are_filled (version ∷ producer ∷ strategy ∷ hash ∷ symbol ∷ []) ≡ true
    → (rationale == "") ≡ false
    → range ≡ true
    → (are_filled (version ∷ producer ∷ strategy ∷ hash ∷ symbol ∷ rationale ∷ []) && range) ≡ true
decision_valid version producer strategy hash symbol rationale range h k l = ground arith

module _ {F : Type 0} ⦃d : Float F⦄ {rt : Runtime F} (laws : IsOrdered F)
    (rounding : IsRounding F rt) where
  clamped_bounds : (x : F) → IsNumber x → (d.neg one ≼ clamped x) × (clamped x ≼ one)
  clamped_bounds x h =
      let below = fmin_le_right laws x one h (laws.number 1) in
      (
        le_fmax_right laws (fmin x one) (d.neg one) (laws.refl_left _ _ below)
            (laws.refl_left _ _ rounding.neg_le),
        fmax_le laws (fmin x one) (d.neg one) one below rounding.neg_le,
      )

  -- A lower and an upper bound that rounding fixes are kept.
  rounded_in_range :
      (low high x : F)
      → rt.round_5 low ≡ low
      → rt.round_5 high ≡ high
      → low ≼ x
      → x ≼ high
      → in_range low high (rt.round_5 x) ≡ true
  rounded_in_range low high x hl hh below above =
      let l : low ≼ rt.round_5 x = rw (hl) at (rounding.mono low x below) in
      let h : rt.round_5 x ≼ high = rw (hh) at (rounding.mono x high above) in ground (arith, l, h)

  signal_lem :
      (stamps : Stamps) (market_data : MarketDataEvent F) (r : StrategyRunner F)
      → IsNumber (raw_strength (features_of market_data))
      → in_range (d.neg one) one (signal_of rt stamps market_data r).strength ≡ true
  unfolding signal_of
  signal_lem stamps market_data r h =
      let b = clamped_bounds (raw_strength (features_of market_data)) h in
      rounded_in_range (d.neg one) one _ rounding.at_neg rounding.at_one b.0 b.1

  rationale_lem :
      (stamps : Stamps) (signal : SignalEvent F) (r : StrategyRunner F)
      → ((decision_of rt stamps signal r).rationale == "") ≡ false
  unfolding decision_of decide join
  rationale_lem stamps signal r = elim (Bool-cases (threshold {F = F} <= signal.strength)) [
    | inl above ↦ rw (decide, above) refl
    | inr below ↦ elim (Bool-cases (signal.strength <= d.neg threshold)) [
      | inl under ↦ rw (decide, below, under) refl
      | inr inside ↦ rw (decide, below, inside) refl
    ]
  ]

  decision_lem :
      (stamps : Stamps) (signal : SignalEvent F) (r : StrategyRunner F)
      → signal.strength ≼ one
      → in_range nought one (decision_of rt stamps signal r).confidence ≡ true
  unfolding decision_of
  decision_lem stamps signal r h =
      let size = fabs signal.strength in
      let a = fabs_nonneg laws signal.strength (laws.refl_left _ _ h) in
      rounded_in_range nought one (fmin size one) rounding.at_nought rounding.at_one
        (le_fmin laws size one nought a laws.zero_one)
        (fmin_le_right laws size one (laws.refl_right _ _ a) (laws.number 1))

  -- Where the strength before clamping is no NaN and no text that an event requires is empty, the events
  -- of a run satisfy their constraints, so that the run returns, if floats obey the stated laws and
  -- rounding keeps the order, 0, 1 and -1.
  pub run_returns :
      (stamps : Stamps) (market_data : MarketDataEvent F) (r : StrategyRunner F)
      → IsNumber (raw_strength (features_of market_data))
      → are_filled (
          market_data.schema_version ∷ r.producer ∷ r.strategy_version ∷ r.config_hash
          ∷ market_data.symbol ∷ [])
        ≡ true
      → is_some (run rt stamps market_data r) ≡ true
  unfolding run build_signal_event build_decision_event
  run_returns stamps market_data r h filled =
      let signal = signal_of rt stamps market_data r in
      let range = signal_lem stamps market_data r h in
      let confident = decision_lem stamps signal r (ground (arith, range)) in
      let rationale = rationale_lem stamps signal r in
      let valid : is_valid_signal signal ≡ true =
        signal_valid market_data.schema_version r.producer r.strategy_version r.config_hash
          market_data.symbol _ filled range in
      let valid' : is_valid_decision (decision_of rt stamps signal r) ≡ true =
        decision_valid market_data.schema_version r.producer r.strategy_version r.config_hash
          market_data.symbol _ _ filled rationale confident in
      rw (run, build_signal_event, valid, valid') refl
