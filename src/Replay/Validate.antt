-- ===== src/Replay/Validate.antt =====
-- The result of `replay_backtest` and `validate_replay`,
-- apps/api-control-plane/app/domain/backtest_runs/replay.py.
use gooberberg_terminal.Prelude.{
  ℕ, String, Bool, ◌&&◌, Option, some, List, [], ◌∷◌, string_eq, Eq, ◌==◌, if◌then◌else◌, length,
  all, is_empty,
}
use gooberberg_terminal.Prelude.Dict.{Dict}
use gooberberg_terminal.Prelude.Float.{Float, nought, ◌⊕◌}
use gooberberg_terminal.Prelude.Raising.{◌>>=◌}
use gooberberg_terminal.Prelude.Sorting.{sort_by, insert_sorted, text_le}
use gooberberg_terminal.Prelude.Value.{Fields, Builtins}
use gooberberg_terminal.Replay.State.{
  Runtime, ReplayOrder, PositionEvent, PnlEvent, ReplayState, initial_state,
}
use gooberberg_terminal.Replay.Steps.{replay_events}

pub record PnlState (F : Type 0) : Type 0 where
  pub cash : F
  pub realized : F
  pub unrealized : F
  pub total : F
  pub fees : F
  pub slippage : F

pub record ReplayResult (F : Type 0) : Type 0 where
  pub decisions : List (Fields F)
  pub orders : List (ReplayOrder F)
  pub positions : List (String × F)
  pub position_events : List (PositionEvent F)
  pub pnl_events : List (PnlEvent F)
  pub pnl_state : PnlState F
  pub inventory_conservation_ok : Bool
  pub cash_consistency_ok : Bool

module _ {F : Type 0} where
  abbrev pub orders_of : Dict String (ReplayOrder F) → List (ReplayOrder F)
  orders_of [] = []
  orders_of ((k, o) ∷ orders) = o ∷ orders_of orders

module _ {F : Type 0} ⦃d : Float F⦄ where
  -- The dictionary that `replay_backtest` returns.
  unfoldable pub result_of : Runtime F → ReplayState F → ReplayResult F
  unfolding sort_by insert_sorted
  result_of rt s = record {
    decisions = s.decisions;
    orders = orders_of s.orders;
    positions = sort_by (λ p q. text_le p.0 q.0) s.positions;
    position_events = s.position_events;
    pnl_events = s.pnl_events;
    pnl_state = record {
      cash = rt.round_8 s.cash;
      realized = rt.round_8 s.realized_pnl;
      unrealized = rt.round_8 nought;
      total = rt.round_8 (s.cash ⊕ s.realized_pnl ⊕ nought);
      fees = rt.round_8 s.fees_total;
      slippage = rt.round_8 s.slippage_total;
    };
    inventory_conservation_ok = all (λ e. e.inventory_conservation_ok) s.pnl_events;
    cash_consistency_ok = all (λ e. e.cash_consistency_ok) s.pnl_events;
  }

module _ {F : Type 0} ⦃d : Float F⦄ ⦃b : Builtins F⦄ where
  unfoldable pub replay_backtest : Runtime F → List (Fields F) → Option (ReplayResult F)
  unfolding replay_events result_of
  replay_backtest rt events = do s ← replay_events rt events initial_state; some (result_of rt s)

-- The versions and hashes that are compared.
pub record Pinning : Type 0 where
  pub strategy_version : String
  pub config_hash : String

pub record Mismatch (V : Type 0) : Type 0 where
  pub component : String
  pub expected : V
  pub actual : V

pub record Validation (V : Type 0) : Type 0 where
  pub matches : Bool
  pub status : String
  pub mismatch_count : ℕ
  pub mismatches : List (Mismatch V)

-- `("decisions", "orders", "positions", "pnl_state")`
abbrev pub components : List String
components = "decisions" ∷ "orders" ∷ "positions" ∷ "pnl_state" ∷ []

module _ {V : Type 0} ⦃e : Eq V⦄ where
  unfoldable pub mismatches_of : (String → V) → (String → V) → List String → List (Mismatch V)
  mismatches_of expected actual [] = []
  mismatches_of expected actual (key ∷ keys) =
      let rest = mismatches_of expected actual keys in
      if expected key == actual key
      then rest
      else record { component = key; expected = expected key; actual = actual key } ∷ rest

  -- `validate_replay`, where both replays are read by `get`.
  unfoldable pub validate_replay : (String → V) → (String → V) → Pinning → Pinning → Validation V
  unfolding mismatches_of
  validate_replay replay expected run requested =
      let matches =
        run.strategy_version == requested.strategy_version
        && run.config_hash == requested.config_hash in
      let mismatches = mismatches_of expected replay components in
      record {
        matches = matches;
        status = if matches && is_empty mismatches then "ok" else "diverged";
        mismatch_count = length mismatches;
        mismatches = mismatches;
      }
