-- ===== src/Portfolio/Examples.antt =====
-- Runs and witnesses for services/service-portfolio-state/src/service_portfolio_state/main.py.
use gooberberg_terminal.Prelude.{
  ℕ, zero, suc, ◌+◌, String, string_eq, some, none, List, [], ◌∷◌, ◌++◌, map, ◌≡◌, refl, ap, length,
  take, arith, if◌then◌else◌, ◌==◌,
}
use gooberberg_terminal.Prelude.Dict.{lookup, insert}
use gooberberg_terminal.Prelude.Int.{ℤ, pos, ◌+ℤ◌}
use gooberberg_terminal.Prelude.Float.{nought}
use gooberberg_terminal.Prelude.Sorting.{sort_by, insert_sorted, text_le}
use gooberberg_terminal.Prelude.Whole.{int_float}
use gooberberg_terminal.Prelude.Value.{Builtins}
use gooberberg_terminal.Portfolio.Snapshot.{
  Entry, PortfolioSnapshot, is_working, add_position, count_error, parse_float, to_float_or,
}
use gooberberg_terminal.Portfolio.Legacy.{value_positions, build_snapshot, sum_realized}
use gooberberg_terminal.Portfolio.Prod.{
  PortfolioConfig, RedisClient, price_positions, realize, reserve, unhashed_snapshot,
  build_snapshot_prod,
}
use gooberberg_terminal.Portfolio.Counts.{
  total, malformed, malformed_positions, malformed_fills, malformed_orders,
  build_snapshot_prod-counts,
}
use gooberberg_terminal.Portfolio.Windows.{build_snapshot_prod-ignores_later_fills}

-- Three texts read as numbers.
instance abbrev text_builtins : Builtins ℤ
text_builtins = record {
  parse_float = λ s.
      if s == "2"
      then some (pos 2)
      else if s == "3"
      then some (pos 3)
      else if s == "10"
      then some (pos 10)
      else none;
  parse_int = λ s. none;
  truncate = some;
  str = λ v. "";
}

abbrev config : PortfolioConfig
config = record {
  fill_stream = "fills";
  order_stream = "orders";
  position_hash = "positions";
  cash_key = "cash";
  snapshot_version = "v2";
}

abbrev copies : {A : Type 0} → ℕ → A → List A
copies zero x = []
copies (suc n) x = x ∷ copies n x

length-copies : {A : Type 0} (n : ℕ) (x : A) → length (copies n x) ≡ n
length-copies zero x = refl
length-copies (suc n) x = ap suc (length-copies n x)

abbrev fill : Entry
fill = ("1-0", ("realized_pnl", "2") ∷ [])

-- The range answers the first entries of the fills that Redis holds.
abbrev client : List Entry → RedisClient
client fills = record {
  xrevrange = λ stream count. [];
  xrange = λ stream last count. if stream == "fills" then take 500 fills else [];
  hgetall = λ key. if key == "positions" then ("MSFT", "x") ∷ ("AAPL", "3") ∷ [] else [];
  read = λ key. some "10";
}

abbrev hash_of : PortfolioSnapshot ℤ → String
hash_of snapshot = "hash"

build_snapshot_prod-counts_example :
    let snapshot = build_snapshot_prod hash_of config 7 (client (fill ∷ [])) in
    (map (λ p. p.symbol) snapshot.positions ≡ sort_by text_le ("MSFT" ∷ "AAPL" ∷ []))
    × (total snapshot.error_counters
        ≡ malformed ℤ (some "10")
          + malformed_positions ℤ (("MSFT", "x") ∷ ("AAPL", "3") ∷ []) [] [] ("MSFT" ∷ "AAPL" ∷ [])
          + malformed_fills ℤ (fill ∷ [])
          + malformed_orders ℤ [])
build_snapshot_prod-counts_example =
    build_snapshot_prod-counts ℤ hash_of config 7 (client (fill ∷ []))

build_snapshot_prod-ignores_later_fills_example :
    (build_snapshot_prod hash_of config 7 (client (copies 500 fill ++ copies 3 fill))).realized_pnl
    ≡ sum_realized (take 500 (copies 500 fill)) nought
build_snapshot_prod-ignores_later_fills_example =
    build_snapshot_prod-ignores_later_fills hash_of config 7
      (client (copies 500 fill ++ copies 3 fill)) (copies 500 fill) (copies 3 fill)
      (omega (arith, length-copies 500 fill)) refl

-- A malformed quantity and three missing prices are counted, and the equity is that of the cash and of
-- the one position that has no price.
snapshot_test :
    let snapshot = build_snapshot_prod hash_of config 7 (client (fill ∷ fill ∷ [])) in
    (snapshot.realized_pnl ≡ pos 4)
    × (snapshot.equity ≡ pos 10)
    × (snapshot.buying_power ≡ pos 20)
    × (total snapshot.error_counters ≡ 5)
unfolding build_snapshot_prod unhashed_snapshot price_positions realize reserve parse_float
    count_error add_position lookup insert is_working sort_by insert_sorted
snapshot_test = (refl, refl, refl, refl)

abbrev add_all : List ℤ → ℤ
add_all [] = pos 0
add_all (x ∷ xs) = x +ℤ add_all xs

legacy_test :
    (build_snapshot add_all 7 8 (record {
      raw_positions = ("AAPL", "3") ∷ [];
      prices = ("AAPL", "10") ∷ [];
      avg_prices = ("AAPL", "2") ∷ [];
      cash_raw = some "10";
      fills = fill ∷ [];
      open_orders = ("2-0", ("status", "open") ∷ ("notional", "3") ∷ []) ∷ [];
    })).buying_power
    ≡ pos 17
unfolding build_snapshot value_positions add_position to_float_or lookup is_working
legacy_test = refl
