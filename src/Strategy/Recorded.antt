-- ===== src/Strategy/Recorded.antt =====
-- The rationale of a decision, services/service-inference-live/src/service_inference_live/strategy_runner.py.
use gooberberg_terminal.Prelude.{
  ℕ, Bool, true, false, not, string_eq, Option, none, some, List, [], ◌∷◌, ◌++◌, ◌≡◌, ◌↔◌, ◌⊎◌, inl,
  inr, refl, nat_eq, ◌==◌, if◌then◌else◌, Bool-cases,
}
use gooberberg_terminal.Prelude.Float.{Float, ◌≼◌, ◌<=◌}
use gooberberg_terminal.Prelude.Raising.{Yields, Yields-some, Yields-bind}
use gooberberg_terminal.Strategy.Events.{
  Runtime, Stamps, MarketDataEvent, SignalEvent, DecisionEvent, RationaleMetadata, StrategyRunner,
}
use gooberberg_terminal.Strategy.Runner.{
  validated, by_decision_event_id, threshold, decide, decision_of, build_signal_event,
  build_decision_event, run,
}

validated-Yields :
    {A : Type 0} {P : A → Type 0} (is_valid : Bool) (event : A)
    → P event
    → Yields P (validated is_valid event)
validated-Yields true event h = Yields-some event h
validated-Yields false event h = record { at = λ a e. cc }

module _ {F : Type 0} where
  -- The rationale that explains a decision by the signal that led to it.
  abbrev pub rationale_of : SignalEvent F → DecisionEvent F → RationaleMetadata F
  rationale_of signal decision = record {
    decision_event_id = decision.event_id;
    trace_id = decision.trace_id;
    strategy_version = decision.strategy_version;
    config_hash = decision.config_hash;
    rationale_kind = decision.rationale_kind;
    rationale_payload = decision.rationale_metadata;
    feature_snapshot = signal.features;
  }

  -- What a lookup finds where a record is added behind others.
  abbrev pub found_with :
      ℕ → RationaleMetadata F → Option (RationaleMetadata F) → Option (RationaleMetadata F)
  found_with id added none = if added.decision_event_id == id then some added else none
  found_with id added (some record_found) = some record_found

  by_decision_event_id-append :
      (id : ℕ) (records : List (RationaleMetadata F)) (added : RationaleMetadata F)
      → by_decision_event_id id (records ++ (added ∷ []))
        ≡ found_with id added (by_decision_event_id id records)
  unfolding by_decision_event_id
  by_decision_event_id-append id [] added = refl
  by_decision_event_id-append id (r ∷ records) added =
      elim (Bool-cases (r.decision_event_id == id)) [
        | inl same ↦ rw (same) refl
        | inr other ↦ rw (other) (by_decision_event_id-append id records added)
      ]

module _ {F : Type 0} ⦃d : Float F⦄ where
  -- The decision acts exactly outside the band, and every lookup finds what it found before, or
  -- otherwise the new rationale under its identifier.
  abbrev pub IsExplained :
      StrategyRunner F → (SignalEvent F × DecisionEvent F) × StrategyRunner F → Type 0
  IsExplained before ((signal, decision), after) =
      ((decision.go_no_go ≡ true)
        ↔ ((threshold ≼ signal.strength) ⊎ (signal.strength ≼ d.neg threshold)))
      × (decision.trace_id ≡ signal.trace_id)
      × ((id : ℕ)
          → by_decision_event_id id after.records
            ≡ found_with id (rationale_of signal decision) (by_decision_event_id id before.records))

  acts_lem :
      (strength : F)
      → ((not ((decide strength).0 == "hold")) ≡ true)
        ↔ ((threshold ≼ strength) ⊎ (strength ≼ d.neg threshold))
  unfolding decide
  acts_lem strength = elim (Bool-cases (threshold {F = F} <= strength)) [
    | inl above ↦ rw (decide, above) (λ e. inl refl, λ h. refl)
    | inr below ↦ elim (Bool-cases (strength <= d.neg threshold)) [
      | inl under ↦ rw (decide, below, under) (λ e. inr refl, λ h. refl)
      | inr inside ↦ rw (decide, below, inside) (λ e. cc, λ h. elim h [ inl x ↦ cc | inr y ↦ cc ])
    ]
  ]

  decision_lem :
      (rt : Runtime F) (stamps : Stamps) (signal : SignalEvent F) (r : StrategyRunner F)
      → Yields
          (λ decision.
            ((decision.go_no_go ≡ true)
              ↔ ((threshold ≼ signal.strength) ⊎ (signal.strength ≼ d.neg threshold)))
            × (decision.trace_id ≡ signal.trace_id))
          (build_decision_event rt stamps signal r)
  unfolding build_decision_event decision_of
  decision_lem rt stamps signal r =
      validated-Yields _ (decision_of rt stamps signal r) (acts_lem signal.strength, refl)

  -- A run that returns decides to act exactly if the strength of its signal is at a threshold or
  -- beyond it, for the trace of the signal; afterwards a lookup of a rationale finds what it found
  -- before, or else, under the identifier of the decision, that of the decision with the features of
  -- the signal.
  pub run-IsExplained :
      (rt : Runtime F) (stamps : Stamps) (market_data : MarketDataEvent F) (r : StrategyRunner F)
      (result : (SignalEvent F × DecisionEvent F) × StrategyRunner F)
      → run rt stamps market_data r ≡ some result
      → IsExplained r result
  unfolding run
  run-IsExplained rt stamps market_data r result e =
      let explained : Yields (IsExplained r) (run rt stamps market_data r) =
        Yields-bind (build_signal_event rt stamps market_data r) _ (λ signal es.
          Yields-bind (build_decision_event rt stamps signal r) _ (λ decision ed.
            let (acts, traced) = (decision_lem rt stamps signal r).at decision ed in
            Yields-some _ (acts, traced, λ id. by_decision_event_id-append id r.records _))) in
      explained.at result e
