-- ===== src/Strategy/Runner.antt =====
-- `StrategyRunner` and `InMemoryRationaleStore`,
-- services/service-inference-live/src/service_inference_live/strategy_runner.py, with the constraints that
-- libs/py/gb_core/src/gb_core/event_schemas.py puts on the events.
use gooberberg_terminal.Prelude.{
  ℕ, String, Bool, true, not, ◌&&◌, Option, none, some, List, [], ◌∷◌, ◌++◌, nat_eq, string_eq,
  ◌==◌, if◌then◌else◌,
}
use gooberberg_terminal.Prelude.Float.{
  Float, nought, one, fmax, fmin, fabs, ◌⊕◌, ◌⊖◌, ◌⊗◌, ◌⊘◌, ◌<=◌,
}
use gooberberg_terminal.Prelude.Raising.{◌>>=◌}
use gooberberg_terminal.Prelude.Texts.{join, ◌<>◌}
use gooberberg_terminal.Strategy.Events.{
  Runtime, Stamps, MarketDataEvent, Features, SignalEvent, DecisionEvent, RationaleMetadata,
  StrategyRunner,
}

-- Pydantic's validation of an event.
abbrev pub validated : {A : Type 0} → Bool → A → Option A
validated is_valid event = if is_valid then some event else none

-- `Field(min_length=1)` of each of the texts
abbrev pub are_filled : List String → Bool
are_filled [] = true
are_filled (t ∷ texts) = not (t == "") && are_filled texts

module _ {F : Type 0} where
  abbrev pub persist : RationaleMetadata F → StrategyRunner F → StrategyRunner F
  persist metadata r = record r { records = r.records ++ (metadata ∷ []) }

  -- The first record of the decision.
  unfoldable pub by_decision_event_id :
      ℕ → List (RationaleMetadata F) → Option (RationaleMetadata F)
  by_decision_event_id id [] = none
  by_decision_event_id id (r ∷ records) =
      if r.decision_event_id == id then some r else by_decision_event_id id records

module _ {F : Type 0} ⦃d : Float F⦄ where
  -- `if mid`
  abbrev pub is_zero : F → Bool
  is_zero x = (x <= nought) && (nought <= x)

  unfoldable pub features_of : MarketDataEvent F → Features F
  features_of market_data =
      let mid = (market_data.ask ⊕ market_data.bid) ⊘ d.of_nat 2 in
      record {
        spread = market_data.ask ⊖ market_data.bid;
        mid = mid;
        momentum = if is_zero mid then nought else (market_data.last ⊖ mid) ⊘ mid;
        liquidity = fmin (market_data.volume ⊘ d.of_nat 1000000) one;
      }

  abbrev pub raw_strength : Features F → F
  raw_strength f = (f.momentum ⊗ d.of_nat 8) ⊕ (f.liquidity ⊖ (d.of_nat 9 ⊘ d.of_nat 10))

  abbrev pub clamped : F → F
  clamped x = fmax (fmin x one) (d.neg one)

  -- `Field(ge=low, le=high)`
  abbrev pub in_range : F → F → F → Bool
  in_range low high x = (low <= x) && (x <= high)

  -- The fields of a signal and of a decision that have constraints, and are no constants.
  abbrev pub is_valid_signal : SignalEvent F → Bool
  is_valid_signal e =
      are_filled (
        e.schema_version ∷ e.producer ∷ e.strategy_version ∷ e.config_hash ∷ e.signal_name
        ∷ e.symbol ∷ [])
      && in_range (d.neg one) one e.strength

  abbrev pub is_valid_decision : DecisionEvent F → Bool
  is_valid_decision e =
      are_filled (
        e.schema_version ∷ e.producer ∷ e.strategy_version ∷ e.config_hash ∷ e.symbol ∷ e.rationale
        ∷ [])
      && in_range nought one e.confidence

  unfoldable pub signal_of :
      Runtime F → Stamps → MarketDataEvent F → StrategyRunner F → SignalEvent F
  unfolding features_of
  signal_of rt stamps market_data r =
      let features = features_of market_data in
      record {
        event_id = stamps.signal_id;
        trace_id = market_data.trace_id;
        schema_version = market_data.schema_version;
        event_time = market_data.event_time;
        ingest_time = market_data.ingest_time;
        process_time = stamps.signal_time;
        producer = r.producer;
        strategy_version = r.strategy_version;
        config_hash = r.config_hash;
        run_id = r.run_id;
        strategy_id = r.strategy_id;
        signal_name = "micro-momentum";
        symbol = market_data.symbol;
        strength = rt.round_5 (clamped (raw_strength features));
        features = features;
      }

  unfoldable pub build_signal_event :
      Runtime F → Stamps → MarketDataEvent F → StrategyRunner F → Option (SignalEvent F)
  unfolding signal_of
  build_signal_event rt stamps market_data r =
      let signal = signal_of rt stamps market_data r in validated (is_valid_signal signal) signal

  abbrev pub threshold : F
  threshold = d.of_nat 2 ⊘ d.of_nat 100

  -- The decision and its reason.
  unfoldable pub decide : F → String × String
  decide strength =
      if threshold <= strength
      then ("buy", "strength_above_buy_threshold")
      else if strength <= d.neg threshold
      then ("sell", "strength_below_sell_threshold")
      else ("hold", "strength_inside_no_trade_band")

  unfoldable pub decision_of :
      Runtime F → Stamps → SignalEvent F → StrategyRunner F → DecisionEvent F
  unfolding decide join
  decision_of rt stamps signal r =
      let (decision, reason) = decide signal.strength in
      let reasons = reason ∷ [] in
      record {
        event_id = stamps.decision_id;
        trace_id = signal.trace_id;
        schema_version = signal.schema_version;
        event_time = signal.event_time;
        ingest_time = signal.ingest_time;
        process_time = stamps.decision_time;
        producer = r.producer;
        strategy_version = r.strategy_version;
        config_hash = r.config_hash;
        run_id = r.run_id;
        strategy_id = r.strategy_id;
        decision = decision;
        symbol = signal.symbol;
        rationale = join "," reasons;
        go_no_go = not (decision == "hold");
        reasons = reasons;
        confidence = rt.round_5 (fmin (fabs signal.strength) one);
        feature_snapshot_ref = "signal:" <> (rt.show_id signal.event_id <> ":features");
        rationale_kind = "rule";
        rationale_metadata = record {
          signal_strength = signal.strength;
          threshold = threshold;
          signal_name = signal.signal_name;
        };
      }

  unfoldable pub build_decision_event :
      Runtime F → Stamps → SignalEvent F → StrategyRunner F → Option (DecisionEvent F)
  unfolding decision_of
  build_decision_event rt stamps signal r =
      let decision = decision_of rt stamps signal r in
      validated (is_valid_decision decision) decision

  -- `none` is a raised `ValidationError`.
  unfoldable pub run :
      Runtime F
      → Stamps
      → MarketDataEvent F
      → StrategyRunner F
      → Option ((SignalEvent F × DecisionEvent F) × StrategyRunner F)
  unfolding build_signal_event build_decision_event
  run rt stamps market_data r = do
    signal ← build_signal_event rt stamps market_data r
    decision ← build_decision_event rt stamps signal r
    some (
      (signal, decision),
      persist
          (record {
            decision_event_id = decision.event_id;
            trace_id = decision.trace_id;
            strategy_version = decision.strategy_version;
            config_hash = decision.config_hash;
            rationale_kind = decision.rationale_kind;
            rationale_payload = decision.rationale_metadata;
            feature_snapshot = signal.features;
          })
          r,
    )
