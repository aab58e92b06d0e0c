-- ===== src/Portfolio/Prod.antt =====
-- `_build_snapshot_prod` of services/service-portfolio-state/src/service_portfolio_state/main.py.
use gooberberg_terminal.Prelude.{
  ℕ, String, Option, none, some, List, [], ◌∷◌, string_eq, if◌then◌else◌,
}
use gooberberg_terminal.Prelude.Dict.{Dict, lookup}
use gooberberg_terminal.Prelude.Float.{Float, nought, ◌⊕◌}
use gooberberg_terminal.Prelude.Sorting.{sort_by, insert_sorted, text_le}
use gooberberg_terminal.Prelude.Texts.{◌<>◌}
use gooberberg_terminal.Prelude.Value.{Builtins}
use gooberberg_terminal.Portfolio.Snapshot.{
  Hash, Entry, PortfolioSnapshot, Exposure, is_working, no_exposure, add_position, buying_power_of,
  parse_float,
}

-- The names that the environment sets.
pub record PortfolioConfig : Type 0 where
  pub fill_stream : String
  pub order_stream : String
  pub position_hash : String
  pub cash_key : String
  pub snapshot_version : String

-- What Redis answers in the course of one snapshot, where no question is asked twice: the last
-- entries of a stream, those up to an identifier, a hash, and a value.
pub record RedisClient : Type 0 where
  pub xrevrange : String → ℕ → List Entry
  pub xrange : String → String → ℕ → List Entry
  pub hgetall : String → Hash
  pub read : String → Option String

-- `_stream_last_id`
abbrev pub last_id_of : List Entry → String
last_id_of [] = "+"
last_id_of ((id, payload) ∷ entries) = id

abbrev pub symbols_of : Hash → List String
symbols_of [] = []
symbols_of ((symbol, quantity) ∷ rest) = symbol ∷ symbols_of rest

-- A sum, and the error counters after it.
abbrev pub Counted : Type 0 → Type 0
Counted A = A × Dict String ℕ

module _ {F : Type 0} ⦃d : Float F⦄ ⦃b : Builtins F⦄ where
  -- The loop over `sorted(raw_positions)`.
  unfoldable pub price_positions :
      Hash → Hash → Hash → List String → Exposure F → Dict String ℕ → Counted (Exposure F)
  unfolding parse_float add_position lookup
  price_positions raw prices avgs [] e counters = (e, counters)
  price_positions raw prices avgs (symbol ∷ symbols) e counters =
      let qty = parse_float ("position_qty:" <> symbol) nought (lookup symbol raw) counters in
      let avg = parse_float ("avg_price:" <> symbol) nought (lookup symbol avgs) qty.1 in
      let px = parse_float ("market_price:" <> symbol) avg.0 (lookup symbol prices) avg.1 in
      price_positions raw prices avgs symbols (add_position symbol qty.0 avg.0 px.0 e) px.1

  -- The loop over the fills.
  unfoldable pub realize : List Entry → F → Dict String ℕ → Counted F
  unfolding parse_float lookup
  realize [] realized counters = (realized, counters)
  realize ((id, payload) ∷ fills) realized counters =
      let pnl = parse_float "fill_realized_pnl" nought (lookup "realized_pnl" payload) counters in
      realize fills (realized ⊕ pnl.0) pnl.1

  -- The loop over the orders.
  unfoldable pub reserve : List Entry → F → Dict String ℕ → Counted F
  unfolding parse_float lookup is_working
  reserve [] reserved counters = (reserved, counters)
  reserve ((id, payload) ∷ orders) reserved counters =
      let notional = parse_float "order_notional" nought (lookup "notional" payload) counters in
      if is_working payload
      then reserve orders (reserved ⊕ notional.0) notional.1
      else reserve orders reserved counters

  -- The snapshot before its hash.
  unfoldable pub unhashed_snapshot : PortfolioConfig → ℕ → RedisClient → PortfolioSnapshot F
  unfolding price_positions realize reserve parse_float sort_by insert_sorted
  unhashed_snapshot cfg now client =
      let fill_last_id = last_id_of (client.xrevrange cfg.fill_stream 1) in
      let order_last_id = last_id_of (client.xrevrange cfg.order_stream 1) in
      let raw = client.hgetall cfg.position_hash in
      let prices = client.hgetall (cfg.position_hash <> ":prices") in
      let avgs = client.hgetall (cfg.position_hash <> ":avg") in
      let cash : Counted F = parse_float "cash" (d.of_nat 100000) (client.read cfg.cash_key) [] in
      let priced : Counted (Exposure F) =
        price_positions raw prices avgs (sort_by text_le (symbols_of raw)) no_exposure cash.1 in
      let realized : Counted F =
        realize (client.xrange cfg.fill_stream fill_last_id 500) nought priced.1 in
      let reserved : Counted F =
        reserve (client.xrange cfg.order_stream order_last_id 500) nought realized.1 in
      record {
        account_id = "paper-main";
        timestamp = now;
        equity = cash.0 ⊕ priced.0.net;
        cash = cash.0;
        buying_power = buying_power_of cash.0 reserved.0;
        gross_exposure = priced.0.gross;
        net_exposure = priced.0.net;
        unrealized_pnl = priced.0.unrealized;
        realized_pnl = realized.0;
        positions = priced.0.positions;
        snapshot_version = cfg.snapshot_version;
        source_offsets = ("fill_stream_id", fill_last_id) ∷ ("order_stream_id", order_last_id) ∷ [];
        computation_timestamp = now;
        state_hash = none;
        error_counters = reserved.1;
      }

  -- `_build_snapshot_prod`, where `hash_of` is `_compute_state_hash` of the dumped snapshot.
  unfoldable pub build_snapshot_prod :
      (PortfolioSnapshot F → String) → PortfolioConfig → ℕ → RedisClient → PortfolioSnapshot F
  unfolding unhashed_snapshot
  build_snapshot_prod hash_of cfg now client =
      let snapshot = unhashed_snapshot cfg now client in
      record snapshot { state_hash = some (hash_of snapshot) }
