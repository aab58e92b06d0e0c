-- ===== src/Portfolio/Windows.antt =====
-- What `_build_snapshot_prod`, services/service-portfolio-state/src/service_portfolio_state/main.py, sees of a
-- long stream.
use gooberberg_terminal.Prelude.{
  ℕ, zero, suc, ◌≤◌, String, string_eq, List, [], ◌∷◌, ◌++◌, ◌≡◌, ◌∙◌, refl, ap, inl, inr, length,
  take, arith, Option-cases, Option,
}
use gooberberg_terminal.Prelude.Dict.{Dict, lookup}
use gooberberg_terminal.Prelude.Float.{Float, nought, ◌⊕◌}
use gooberberg_terminal.Prelude.Value.{Builtins}
use gooberberg_terminal.Portfolio.Snapshot.{Entry, PortfolioSnapshot, read_float, parse_float}
use gooberberg_terminal.Portfolio.Legacy.{sum_realized}
use gooberberg_terminal.Portfolio.Snapshot.{to_float_or}
use gooberberg_terminal.Portfolio.Prod.{
  PortfolioConfig, RedisClient, last_id_of, realize, unhashed_snapshot, build_snapshot_prod,
}

take-append : {A : Type 0} (n : ℕ) (xs ys : List A) → n ≤ length xs → take n (xs ++ ys) ≡ take n xs
take-append zero xs ys h = refl
take-append (suc n) [] ys h = absurd (omega arith)
take-append (suc n) (x ∷ xs) ys h = ap (λ rest. x ∷ rest) (take-append n xs ys (omega arith))

module _ {F : Type 0} ⦃d : Float F⦄ ⦃b : Builtins F⦄ where
  parse_float-value :
      (field : String) (default : F) (value : Option String) (counters : Dict String ℕ)
      → (parse_float field default value counters).0 ≡ to_float_or default value
  unfolding parse_float to_float_or
  parse_float-value field default value counters = elim (Option-cases (read_float {F = F} value)) [
    | inl bad ↦ ground (arith, bad)
    | inr (x, good) ↦ ground (arith, good)
  ]

  -- The sum of the fills is that of `_build_snapshot`.
  realize-sum :
      (fills : List Entry) (realized : F) (counters : Dict String ℕ)
      → (realize fills realized counters).0 ≡ sum_realized fills realized
  unfolding realize
  realize-sum [] realized counters = refl
  realize-sum ((id, payload) ∷ fills) realized counters =
      realize-sum fills _ _
      ∙ ap (λ x. sum_realized fills (realized ⊕ x))
          (parse_float-value "fill_realized_pnl" nought (lookup "realized_pnl" payload) counters)

  -- If a range from the start with a count answers the first entries of the stream, then from 500
  -- fills on the realized profit is the sum of the first 500 of them: later fills change nothing.
  pub build_snapshot_prod-ignores_later_fills :
      (hash_of : PortfolioSnapshot F → String) (cfg : PortfolioConfig) (now : ℕ)
      (client : RedisClient) (stream later : List Entry)
      → 500 ≤ length stream
      → client.xrange cfg.fill_stream (last_id_of (client.xrevrange cfg.fill_stream 1)) 500
        ≡ take 500 (stream ++ later)
      → (build_snapshot_prod hash_of cfg now client).realized_pnl
        ≡ sum_realized (take 500 stream) nought
  unfolding build_snapshot_prod unhashed_snapshot
  build_snapshot_prod-ignores_later_fills hash_of cfg now client stream later h range =
      realize-sum
        (client.xrange cfg.fill_stream (last_id_of (client.xrevrange cfg.fill_stream 1)) 500) nought
        _
      ∙ ap (λ fills. sum_realized fills nought) (range ∙ take-append 500 stream later h)
