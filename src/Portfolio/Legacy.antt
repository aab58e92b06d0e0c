-- ===== src/Portfolio/Legacy.antt =====
-- `_build_snapshot` of services/service-portfolio-state/src/service_portfolio_state/main.py.
use gooberberg_terminal.Prelude.{
  ℕ, String, Option, none, some, List, [], ◌∷◌, string_eq, if◌then◌else◌,
}
use gooberberg_terminal.Prelude.Dict.{lookup}
use gooberberg_terminal.Prelude.Float.{Float, nought, ◌⊕◌}
use gooberberg_terminal.Prelude.Value.{Builtins}
use gooberberg_terminal.Portfolio.Snapshot.{
  Hash, Entry, PortfolioSnapshot, Exposure, is_working, no_exposure, add_position, buying_power_of,
  to_float_or,
}

-- What Redis answers to the reads, with its average prices by symbol.
pub record Reads : Type 0 where
  pub raw_positions : Hash
  pub prices : Hash
  pub avg_prices : Hash
  pub cash_raw : Option String
  pub fills : List Entry
  pub open_orders : List Entry

module _ {F : Type 0} ⦃d : Float F⦄ ⦃b : Builtins F⦄ where
  abbrev pub sum_realized : List Entry → F → F
  unfolding lookup
  sum_realized [] realized = realized
  sum_realized ((id, payload) ∷ fills) realized =
      sum_realized fills (realized ⊕ to_float_or nought (lookup "realized_pnl" payload))

  -- The notional values of the working orders.
  abbrev pub working_notionals : List Entry → List F
  unfolding lookup
  working_notionals [] = []
  working_notionals ((id, payload) ∷ orders) =
      let rest : List F = working_notionals orders in
      if is_working payload then to_float_or nought (lookup "notional" payload) ∷ rest else rest

  unfoldable pub value_positions : Reads → Hash → Exposure F → Exposure F
  unfolding to_float_or add_position lookup
  value_positions reads [] e = e
  value_positions reads ((symbol, qty_raw) ∷ rest) e =
      let avg = to_float_or nought (lookup symbol reads.avg_prices) in
      value_positions reads rest (
        add_position symbol (to_float_or nought (some qty_raw)) avg
          (to_float_or avg (lookup symbol reads.prices)) e)

  -- `sum` is Python's, which may correct rounding, and `later` the time at which the snapshot is made.
  unfoldable pub build_snapshot : (List F → F) → ℕ → ℕ → Reads → PortfolioSnapshot F
  unfolding value_positions is_working to_float_or
  build_snapshot sum now later reads =
      let cash = to_float_or (d.of_nat 100000) reads.cash_raw in
      let realized = sum_realized reads.fills nought in
      let e : Exposure F = value_positions reads reads.raw_positions no_exposure in
      let reserved = sum (working_notionals reads.open_orders) in
      record {
        account_id = "paper-main";
        timestamp = now;
        equity = cash ⊕ e.net;
        cash = cash;
        buying_power = buying_power_of cash reserved;
        gross_exposure = e.gross;
        net_exposure = e.net;
        unrealized_pnl = e.unrealized;
        realized_pnl = realized;
        positions = e.positions;
        snapshot_version = "v2";
        source_offsets = [];
        computation_timestamp = later;
        state_hash = none;
        error_counters = [];
      }
