-- ===== src/Replay/Losses.antt =====
-- The realized profit of `replay_backtest`, apps/api-control-plane/app/domain/backtest_runs/replay.py.
use gooberberg_terminal.Prelude.{
  List, [], ◌∷◌, Bool, true, false, not, ◌&&◌, ◌≡◌, none, some, string_eq, ◌==◌, inl, inr,
  Bool-cases, Option-cases, String, all, arith,
}
use gooberberg_terminal.Prelude.Dict.{lookup}
use gooberberg_terminal.Prelude.Float.{Float, nought, fabs, ◌⊕◌, ◌⊖◌, ◌⊗◌, ◌<<◌}
use gooberberg_terminal.Prelude.Raising.{Yields, Yields-some, Yields-bind}
use gooberberg_terminal.Prelude.Value.{Fields, Builtins, get}
use gooberberg_terminal.Replay.State.{Runtime, ReplayOrder, ReplayState, initial_state}
use gooberberg_terminal.Replay.Steps.{
  number_at, text_or, add_order, apply_fill, report, fill_known, add_fill, replay_event,
  replay_events,
}
use gooberberg_terminal.Replay.Bookings.{event_type}

-- What IEEE 754 says of signs, at every value: NaN is neither below nor above 0.
pub record IsSigned (F : Type 0) ⦃d : Float F⦄ : Type 0 where
  pub zero : (nought {F = F} << nought) ≡ false
  pub neg : (x : F) → (x << nought) ≡ true → (d.neg x << nought) ≡ false
  pub add : (x y : F) → (x << nought) ≡ false → (y << nought) ≡ false → (x ⊕ y << nought) ≡ false
  pub mul : (x y : F) → (x << nought) ≡ false → (y << nought) ≡ false → (x ⊗ y << nought) ≡ false
  pub sub : (x y : F) → (nought << x) ≡ false → (y << nought) ≡ false → (nought << x ⊖ y) ≡ false

module _ {F : Type 0} ⦃d : Float F⦄ ⦃b : Builtins F⦄ where
  -- The fee of an event, where it reads as a number, is not negative.
  abbrev pub charges_fee : Fields F → Bool
  charges_fee event = elim (number_at "fee" event) [ none ↦ true | some fee ↦ not (fee << nought) ]

  abbrev pub HasNoGain : ReplayState F → Type 0
  HasNoGain s = (nought << s.realized_pnl) ≡ false

both_lem : (x y : Bool) → (x && y) ≡ true → (x ≡ true) × (y ≡ true)
both_lem x y h = ground arith

module _ {F : Type 0} ⦃d : Float F⦄ (laws : IsSigned F) where
  fabs_lem : (x : F) → (fabs x << nought) ≡ false
  fabs_lem x = elim (Bool-cases (x << nought)) [
    | inl below ↦ rw (below) (laws.neg x below)
    | inr above ↦ rw (above) above
  ]

module _ {F : Type 0} ⦃d : Float F⦄ ⦃b : Builtins F⦄ (laws : IsSigned F) (rt : Runtime F) where
  fill_known-HasNoGain :
      (event : Fields F) (order_id : String) (order : ReplayOrder F) (s : ReplayState F)
      → charges_fee event ≡ true
      → HasNoGain s
      → Yields HasNoGain (fill_known rt event order_id order s)
  unfolding fill_known apply_fill report
  fill_known-HasNoGain event order_id order s charged h =
      Yields-bind (number_at "quantity" event) _ (λ quantity eq.
        Yields-bind (number_at "price" event) _ (λ price ep.
          Yields-bind (number_at "fee" event) _ (λ fee ef.
            let paid : (fee << nought) ≡ false = ground (arith, rw (charges_fee, ef) at charged) in
            Yields-some _ (
              laws.sub s.realized_pnl _ h
                (laws.add fee _ paid (laws.mul _ _ (fabs_lem laws quantity) (fabs_lem laws _)))))))

  replay_event-HasNoGain :
      (event : Fields F) (s : ReplayState F)
      → charges_fee event ≡ true
      → HasNoGain s
      → Yields HasNoGain (replay_event rt event s)
  unfolding replay_event add_order add_fill
  replay_event-HasNoGain event s charged h = elim (Bool-cases (event_type rt event == "decision")) [
    | inl decision ↦ rw (decision) (Yields-some _ h)
    | inr other ↦ elim (Bool-cases (event_type rt event == "order")) [
      | inl order ↦
          rw (other, order)
            (Yields-bind (number_at "quantity" event) _
              (λ qty eq. Yields-bind (number_at "price" event) _ (λ price ep. Yields-some _ h)))
      | inr unlike ↦ elim (Bool-cases (event_type rt event == "fill")) [
        | inl fill ↦
            rw (other, unlike, fill)
              (elim (Option-cases (lookup (text_or (get "order_id" event) "") s.orders)) [
                | inl unknown ↦ rw (add_fill, unknown) (Yields-some s h)
                | inr (order, known) ↦
                    rw (add_fill, known) (fill_known-HasNoGain event _ order s charged h)
              ])
        | inr ignored ↦ rw (other, unlike, ignored) (Yields-some s h)
      ]
    ]
  ]

  replay_events-HasNoGain :
      (events : List (Fields F)) (s : ReplayState F)
      → all charges_fee events ≡ true
      → HasNoGain s
      → Yields HasNoGain (replay_events rt events s)
  unfolding replay_events
  replay_events-HasNoGain [] s charged h = Yields-some s h
  replay_events-HasNoGain (event ∷ events) s charged h =
      let parts = both_lem (charges_fee event) (all charges_fee events) charged in
      Yields-bind (replay_event rt event s) (replay_events rt events) (λ t step.
        replay_events-HasNoGain events t parts.1
          ((replay_event-HasNoGain event s parts.0 h).at t step))

  -- If no event has a fee below 0 and floats obey the stated laws on signs, the realized profit after a
  -- replay that does not raise is not above 0, at whatever prices the positions were bought and sold.
  pub replay_events-never_gains :
      (events : List (Fields F)) (s : ReplayState F)
      → all charges_fee events ≡ true
      → replay_events rt events initial_state ≡ some s
      → (nought << s.realized_pnl) ≡ false
  replay_events-never_gains events s charged run =
      (replay_events-HasNoGain events initial_state charged laws.zero).at s run
