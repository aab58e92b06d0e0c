-- ===== src/Backtests/Tokens.antt =====
-- The token of a preflight, apps/api-control-plane/app/domain/backtest_runs/service.py.
use gooberberg_terminal.Prelude.{ℕ, String, true, some, none, ◌≡◌, ◌≢◌, ap, if◌then◌else◌}
use gooberberg_terminal.Prelude.Float.{Float}
use gooberberg_terminal.Prelude.Raising.{Yields, Yields-some, Yields-bind}
use gooberberg_terminal.Prelude.Value.{Builtins, get}
use gooberberg_terminal.Backtests.Checks.{
  RunBasis, SizeEstimate, estimate_of, symbol_count_of, estimate_run_size,
  validate_confirmation_token,
}
use gooberberg_terminal.Backtests.Conditions.{confirmed_lem}

module _ {F : Type 0} ⦃d : Float F⦄ ⦃b : Builtins F⦄ where
  estimate_token :
      (token_of : RunBasis F → ℕ → String) (basis : RunBasis F)
      → Yields
          (λ e.
            e.requires_confirmation ≡ true
            → (units : ℕ) × (e.confirmation_token ≡ some (token_of basis units)))
          (estimate_run_size token_of basis)
  unfolding estimate_run_size estimate_of
  estimate_token token_of basis =
      Yields-bind (symbol_count_of (get "symbols" basis.parameters) basis.parameters) _
        (λ symbols e.
          let estimate = estimate_of token_of basis symbols in
          Yields-some estimate (λ requires. (
            estimate.estimated_units,
            ap (λ r. if r then some (token_of basis estimate.estimated_units) else none) requires,
          )))

  -- The token of a preflight confirms the run that it was for, if no token is the empty text.
  preflight_confirms :
      (token_of : RunBasis F → ℕ → String) (basis : RunBasis F) (estimate : SizeEstimate)
      → ((given : RunBasis F) (units : ℕ) → token_of given units ≢ "")
      → estimate_run_size token_of basis ≡ some estimate
      → validate_confirmation_token token_of basis estimate.confirmation_token ≡ some true
  preflight_confirms token_of basis estimate nonempty e =
      (confirmed_lem token_of basis estimate.confirmation_token).1 (
        estimate,
        e,
        λ requires.
            let (units, token) = (estimate_token token_of basis).at estimate e requires in
            (token_of basis units, nonempty basis units, token, token),
      )
