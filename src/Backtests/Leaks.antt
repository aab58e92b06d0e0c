-- ===== src/Backtests/Leaks.antt =====
-- When the leakage checks succeed, apps/api-control-plane/app/domain/backtest_runs/service.py.
use gooberberg_terminal.Prelude.{
  String, Bool, true, false, not, ◌||◌, Option, none, some, ◌≡◌, ◌≢◌, ◌↔◌, ◌∙◌, refl, ap, sym, inl,
  inr, string_eq, Bool-cases, arith,
}
use gooberberg_terminal.Prelude.Float.{Float}
use gooberberg_terminal.Prelude.Raising.{some_inj}
use gooberberg_terminal.Prelude.Value.{Value, bool, text, Fields, get}
use gooberberg_terminal.Backtests.Checks.{
  is_failure, check_universe, check_timestamps, check_off, are_equal, as_text, flag,
  run_leakage_checks,
}

-- The parameters show no leakage: the flags are off, the universe is not known to be one of today, and
-- the two time stamps are the same field.
pub record IsLeakFree {F : Type 0} ⦃d : Float F⦄ (parameters : Fields F) : Type 0 where
  pub lookahead : flag "allow_lookahead" parameters ≡ false
  pub universe : get "point_in_time_constituents" parameters ≢ some (bool false)
  pub timestamps :
      (name : String) × (get "event_timestamp_field" parameters ≡ some (text name))
      × (get "asof_timestamp_field" parameters ≡ some (text name))
  pub target : flag "target_in_features" parameters ≡ false

equal_lem :
    (a b : Option String)
    → (are_equal a b ≡ true) ↔ ((name : String) × (a ≡ some name) × (b ≡ some name))
equal_lem none b = (λ e. cc, λ (n, p, q). cc)
equal_lem (some x) none = (λ e. cc, λ (n, p, q). cc)
equal_lem (some x) (some y) = (
  λ e. (x, refl, ap some (sym ((string_eq.beq_iff x y).0 e))),
  λ (n, p, q). (string_eq.beq_iff x y).1 (some_inj p ∙ sym (some_inj q)),
)

module _ {F : Type 0} where
  as_text_iff :
      (v : Option (Value F)) (name : String) → (as_text v ≡ some name) ↔ (v ≡ some (text name))
  as_text_iff v name = ground arith

  aligned_lem :
      (a b : Option (Value F))
      → (are_equal (as_text a) (as_text b) ≡ true)
        ↔ ((name : String) × (a ≡ some (text name)) × (b ≡ some (text name)))
  aligned_lem a b =
      let both = equal_lem (as_text a) (as_text b) in
      (
        λ e. let (n, p, q) = both.0 e in (n, (as_text_iff a n).0 p, (as_text_iff b n).0 q),
        λ (n, p, q). both.1 (n, (as_text_iff a n).1 p, (as_text_iff b n).1 q),
      )

  universe_lem :
      (v : Option (Value F)) → (is_failure (check_universe v) ≡ false) ↔ (v ≢ some (bool false))
  universe_lem v = ground arith

check_off-failure :
    (name on off : String) (is_on : Bool) → is_failure (check_off name on off is_on) ≡ is_on
check_off-failure name on off true = refl
check_off-failure name on off false = refl

module _ {F : Type 0} where
  check_timestamps-failure :
      (a b : Option (Value F))
      → is_failure (check_timestamps a b) ≡ not (are_equal (as_text a) (as_text b))
  check_timestamps-failure a b = elim (Bool-cases (are_equal (as_text a) (as_text b))) [
    | inl same ↦ rw (same) refl
    | inr other ↦ rw (other) refl
  ]

-- The four failures, in their order.
valid_lem :
    (a u t f : Bool)
    → (not (a || (u || (not t || (f || false)))) ≡ true)
      ↔ ((a ≡ false) × ((u ≡ false) × ((t ≡ true) × (f ≡ false))))
valid_lem a u t f = ground arith

module _ {F : Type 0} ⦃d : Float F⦄ where
  pub leakage_lem :
      (parameters : Fields F)
      → ((run_leakage_checks parameters).is_valid ≡ true) ↔ IsLeakFree parameters
  unfolding run_leakage_checks
  leakage_lem parameters =
      let constituents = get "point_in_time_constituents" parameters in
      let event_ts = get "event_timestamp_field" parameters in
      let asof_ts = get "asof_timestamp_field" parameters in
      let universe = universe_lem constituents in
      let aligned = aligned_lem event_ts asof_ts in
      let split =
        valid_lem (flag "allow_lookahead" parameters) (is_failure (check_universe constituents))
          (are_equal (as_text event_ts) (as_text asof_ts)) (flag "target_in_features" parameters) in
      rw
        (
          run_leakage_checks,
          check_off-failure _ _ _ (flag "allow_lookahead" parameters),
          check_off-failure _ _ _ (flag "target_in_features" parameters),
          check_timestamps-failure event_ts asof_ts,
        )
        (
          λ e.
              let (a, (u, (t, f))) = split.0 e in
              record {
                lookahead = a;
                universe = universe.0 u;
                timestamps = aligned.0 t;
                target = f;
              },
          λ h. split.1 (h.lookahead, (universe.1 h.universe, (aligned.1 h.timestamps, h.target))),
        )
