-- ===== src/Portfolio/Counts.antt =====
-- The error counters of `_build_snapshot_prod`,
-- services/service-portfolio-state/src/service_portfolio_state/main.py, count the malformed numbers.
use gooberberg_terminal.Prelude.{
  ℕ, suc, ◌+◌, String, Option, none, some, List, [], ◌∷◌, ◌++◌, map, ◌≡◌, ◌∙◌, refl, ap, sym, inl,
  inr, string_eq, if◌then◌else◌, arith, Bool-cases, Option-cases,
}
use mathlib.Core.List.{append-nil, append_assoc}
use gooberberg_terminal.Prelude.Dict.{Dict, lookup, insert}
use gooberberg_terminal.Prelude.Float.{Float, nought, ◌⊕◌}
use gooberberg_terminal.Prelude.Sorting.{sort_by, insert_sorted, text_le}
use gooberberg_terminal.Prelude.Texts.{◌<>◌}
use gooberberg_terminal.Prelude.Value.{Builtins}
use gooberberg_terminal.Portfolio.Snapshot.{
  Hash, Entry, PortfolioSnapshot, Exposure, is_working, no_exposure, add_position, count_error,
  read_float, parse_float,
}
use gooberberg_terminal.Portfolio.Prod.{
  PortfolioConfig, RedisClient, last_id_of, symbols_of, price_positions, realize, reserve,
  unhashed_snapshot, build_snapshot_prod,
}

map-append : {A B : Type 0} (f : A → B) (xs ys : List A) → map f (xs ++ ys) ≡ map f xs ++ map f ys
map-append f [] ys = refl
map-append f (x ∷ xs) ys = ap (λ rest. f x ∷ rest) (map-append f xs ys)

-- All errors that counters count.
abbrev pub total : Dict String ℕ → ℕ
total [] = 0
total ((k, n) ∷ counters) = n + total counters

count_error-total :
    (key : String) (counters : Dict String ℕ)
    → total (count_error key counters) ≡ suc (total counters)
unfolding count_error lookup insert
count_error-total key [] = refl
count_error-total key ((k, n) ∷ counters) = ground (arith, count_error-total key counters)

module _ (F : Type 0) ⦃d : Float F⦄ ⦃b : Builtins F⦄ where
  -- 1 for a value that is no number.
  abbrev pub malformed : Option String → ℕ
  malformed value = elim (read_float {F = F} value) [ none ↦ 1 | some x ↦ 0 ]

  abbrev pub malformed_position : Hash → Hash → Hash → String → ℕ
  malformed_position raw prices avgs symbol =
      malformed (lookup symbol raw)
      + malformed (lookup symbol avgs)
      + malformed (lookup symbol prices)

  abbrev pub malformed_positions : Hash → Hash → Hash → List String → ℕ
  malformed_positions raw prices avgs [] = 0
  malformed_positions raw prices avgs (symbol ∷ symbols) =
      malformed_position raw prices avgs symbol + malformed_positions raw prices avgs symbols

  abbrev pub malformed_fills : List Entry → ℕ
  malformed_fills [] = 0
  malformed_fills ((id, payload) ∷ fills) =
      malformed (lookup "realized_pnl" payload) + malformed_fills fills

  abbrev pub malformed_orders : List Entry → ℕ
  malformed_orders [] = 0
  malformed_orders ((id, payload) ∷ orders) =
      (if is_working payload then malformed (lookup "notional" payload) else 0)
      + malformed_orders orders

  parse_float-total :
      (field : String) (default : F) (value : Option String) (counters : Dict String ℕ)
      → total (parse_float field default value counters).1 ≡ total counters + malformed value
  unfolding parse_float
  parse_float-total field default value counters = elim (Option-cases (read_float {F = F} value)) [
    | inl bad ↦ ground (arith, bad, count_error-total ("malformed_numeric:" <> field) counters)
    | inr (x, good) ↦ ground (arith, good)
  ]

  realize-total :
      (fills : List Entry) (realized : F) (counters : Dict String ℕ)
      → total (realize fills realized counters).1 ≡ total counters + malformed_fills fills
  unfolding realize
  realize-total [] realized counters = omega arith
  realize-total ((id, payload) ∷ fills) realized counters = omega (
    arith,
    realize-total fills _ _,
    parse_float-total "fill_realized_pnl" nought (lookup "realized_pnl" payload) counters,
  )

  reserve-total :
      (orders : List Entry) (reserved : F) (counters : Dict String ℕ)
      → total (reserve orders reserved counters).1 ≡ total counters + malformed_orders orders
  unfolding reserve
  reserve-total [] reserved counters = omega arith
  reserve-total ((id, payload) ∷ orders) reserved counters =
      elim (Bool-cases (is_working payload)) [
        | inl works ↦
            let notional : F × Dict String ℕ =
              parse_float "order_notional" nought (lookup "notional" payload) counters in
            ground (
              arith,
              works,
              reserve-total orders (reserved ⊕ notional.0) notional.1,
              parse_float-total "order_notional" nought (lookup "notional" payload) counters,
            )
        | inr other ↦ ground (arith, other, reserve-total orders reserved counters)
      ]

  price_positions-total :
      (raw prices avgs : Hash) (symbols : List String) (e : Exposure F) (counters : Dict String ℕ)
      → total (price_positions raw prices avgs symbols e counters).1
        ≡ total counters + malformed_positions raw prices avgs symbols
  unfolding price_positions
  price_positions-total raw prices avgs [] e counters = omega arith
  price_positions-total raw prices avgs (symbol ∷ symbols) e counters =
      let qty : F × Dict String ℕ =
        parse_float ("position_qty:" <> symbol) nought (lookup symbol raw) counters in
      let avg : F × Dict String ℕ =
        parse_float ("avg_price:" <> symbol) nought (lookup symbol avgs) qty.1 in
      omega (
        arith,
        price_positions-total raw prices avgs symbols _ _,
        parse_float-total ("position_qty:" <> symbol) nought (lookup symbol raw) counters,
        parse_float-total ("avg_price:" <> symbol) nought (lookup symbol avgs) qty.1,
        parse_float-total ("market_price:" <> symbol) avg.0 (lookup symbol prices) avg.1,
      )

  -- The number of errors does not depend on the order of the symbols.
  malformed-insert_sorted :
      (raw prices avgs : Hash) (symbol : String) (symbols : List String)
      → malformed_positions raw prices avgs (insert_sorted text_le symbol symbols)
        ≡ malformed_position raw prices avgs symbol + malformed_positions raw prices avgs symbols
  unfolding insert_sorted
  malformed-insert_sorted raw prices avgs symbol [] = omega arith
  malformed-insert_sorted raw prices avgs symbol (s ∷ symbols) =
      elim (Bool-cases (text_le symbol s)) [
        | inl before ↦ rw (before) refl
        | inr after ↦
            rw (after) (omega (arith, malformed-insert_sorted raw prices avgs symbol symbols))
      ]

  malformed-sort_by :
      (raw prices avgs : Hash) (symbols : List String)
      → malformed_positions raw prices avgs (sort_by text_le symbols)
        ≡ malformed_positions raw prices avgs symbols
  unfolding sort_by
  malformed-sort_by raw prices avgs [] = refl
  malformed-sort_by raw prices avgs (symbol ∷ symbols) = omega (
    arith,
    malformed-insert_sorted raw prices avgs symbol (sort_by text_le symbols),
    malformed-sort_by raw prices avgs symbols,
  )

  price_positions-names :
      (raw prices avgs : Hash) (symbols : List String) (e : Exposure F) (counters : Dict String ℕ)
      → map (λ p. p.symbol) (price_positions raw prices avgs symbols e counters).0.positions
        ≡ map (λ p. p.symbol) e.positions ++ symbols
  unfolding price_positions add_position
  price_positions-names raw prices avgs [] e counters = sym (append-nil _)
  price_positions-names raw prices avgs (symbol ∷ symbols) e counters =
      price_positions-names raw prices avgs symbols _ _
      ∙ ap (λ names. names ++ symbols) (map-append (λ p. p.symbol) e.positions _)
      ∙ append_assoc (map (λ p. p.symbol) e.positions) (symbol ∷ []) symbols

  -- The snapshot has one position for each symbol, in the order of the texts, and its counters count
  -- the values that were read and are no numbers: the cash, those of the positions and of the fills, and
  -- the notional values of the working orders.
  pub build_snapshot_prod-counts :
      (hash_of : PortfolioSnapshot F → String) (cfg : PortfolioConfig) (now : ℕ)
      (client : RedisClient)
      → let snapshot = build_snapshot_prod hash_of cfg now client in
        let symbols = symbols_of (client.hgetall cfg.position_hash) in
        (map (λ p. p.symbol) snapshot.positions ≡ sort_by text_le symbols)
        × (total snapshot.error_counters
            ≡ malformed (client.read cfg.cash_key)
              + malformed_positions
                  (client.hgetall cfg.position_hash)
                  (client.hgetall (cfg.position_hash <> ":prices"))
                  (client.hgetall (cfg.position_hash <> ":avg"))
                  symbols
              + malformed_fills (
                  client.xrange cfg.fill_stream
                    (last_id_of (client.xrevrange cfg.fill_stream 1))
                    500)
              + malformed_orders (
                  client.xrange cfg.order_stream
                    (last_id_of (client.xrevrange cfg.order_stream 1))
                    500))
  unfolding build_snapshot_prod unhashed_snapshot
  build_snapshot_prod-counts hash_of cfg now client =
      let raw = client.hgetall cfg.position_hash in
      let prices = client.hgetall (cfg.position_hash <> ":prices") in
      let avgs = client.hgetall (cfg.position_hash <> ":avg") in
      let symbols = sort_by text_le (symbols_of raw) in
      let fills =
        client.xrange cfg.fill_stream (last_id_of (client.xrevrange cfg.fill_stream 1)) 500 in
      let cash : F × Dict String ℕ =
        parse_float "cash" (d.of_nat 100000) (client.read cfg.cash_key) [] in
      let priced : Exposure F × Dict String ℕ =
        price_positions raw prices avgs symbols no_exposure cash.1 in
      let realized : F × Dict String ℕ = realize fills nought priced.1 in
      (
        price_positions-names raw prices avgs symbols no_exposure cash.1,
        omega (
          arith,
          parse_float-total "cash" (d.of_nat 100000) (client.read cfg.cash_key) [],
          price_positions-total raw prices avgs symbols no_exposure cash.1,
          malformed-sort_by raw prices avgs (symbols_of raw),
          realize-total fills nought priced.1,
          reserve-total
              (client.xrange cfg.order_stream (last_id_of (client.xrevrange cfg.order_stream 1))
                500)
              nought realized.1,
        ),
      )
