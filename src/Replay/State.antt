-- ===== src/Replay/State.antt =====
-- The state of `replay_backtest`, apps/api-control-plane/app/domain/backtest_runs/replay.py, and what it
-- computes of the orders.
use gooberberg_terminal.Prelude.{
  ℕ, String, Bool, Option, List, [], ◌∷◌, ◌++◌, string_eq, ◌==◌, if◌then◌else◌,
}
use gooberberg_terminal.Prelude.Dict.{Dict}
use gooberberg_terminal.Prelude.Float.{Float, nought, one, fabs, ◌⊕◌, ◌⊖◌, ◌⊗◌, ◌⊘◌, ◌<<◌}
use gooberberg_terminal.Prelude.Value.{Value, Fields}

-- What the language does: `str.lower`, the decimal text of a number, `round(x, 8)` and `sum`, which
-- may correct rounding.
pub record Runtime (F : Type 0) : Type 0 where
  pub lower : String → String
  pub decimal : ℕ → String
  pub round_8 : F → F
  pub sum : List F → F

pub record Fill (F : Type 0) : Type 0 where
  pub quantity : F
  pub price : F
  pub fee : F

-- The dictionary of an order.
pub record ReplayOrder (F : Type 0) : Type 0 where
  pub order_id : String
  pub symbol : Option (Value F)
  pub side : String
  pub quantity : F
  pub limit_price : F
  pub status : String
  pub filled_quantity : F
  pub avg_fill_price : F
  pub fills : List (Fill F)
  pub signed_quantity : F

-- The three `source_` fields that an event takes from its fill.
pub record Source (F : Type 0) : Type 0 where
  pub order_id : Option (Value F)
  pub fill_id : Option (Value F)
  pub event_ts : Option (Value F)

pub record PositionEvent (F : Type 0) : Type 0 where
  pub symbol : String
  pub quantity : F
  pub average_price : F
  pub source : Source F

pub record PnlEvent (F : Type 0) : Type 0 where
  pub realized_pnl : F
  pub unrealized_pnl : F
  pub cash : F
  pub fees_total : F
  pub slippage_total : F
  pub inventory_conservation_ok : Bool
  pub cash_consistency_ok : Bool
  pub source : Source F

-- The local variables of the loop; `unrealized_pnl` stays 0.
pub record ReplayState (F : Type 0) : Type 0 where
  pub decisions : List (Fields F)
  pub orders : Dict String (ReplayOrder F)
  pub positions : Dict String F
  pub avg_price_by_symbol : Dict String F
  pub cash : F
  pub realized_pnl : F
  pub fees_total : F
  pub slippage_total : F
  pub position_events : List (PositionEvent F)
  pub pnl_events : List (PnlEvent F)

module _ {F : Type 0} ⦃d : Float F⦄ where
  abbrev pub initial_state : ReplayState F
  initial_state = record {
    decisions = [];
    orders = [];
    positions = [];
    avg_price_by_symbol = [];
    cash = nought;
    realized_pnl = nought;
    fees_total = nought;
    slippage_total = nought;
    position_events = [];
    pnl_events = [];
  }

  -- `abs(x) < 1e-9`
  abbrev pub is_tiny : F → Bool
  is_tiny x = fabs x << (one ⊘ d.of_nat 1000000000)

  -- `qty if side == "buy" else -qty`
  abbrev pub signed : String → F → F
  signed side qty = if side == "buy" then qty else d.neg qty

  -- The signed quantities of an order's fills, and what each costs with its fee.
  abbrev pub fill_quantities : String → List (Fill F) → List F
  fill_quantities side [] = []
  fill_quantities side (f ∷ fills) = signed side f.quantity ∷ fill_quantities side fills

  abbrev pub fill_costs : String → List (Fill F) → List F
  fill_costs side [] = []
  fill_costs side (f ∷ fills) = ((signed side f.quantity ⊗ f.price) ⊕ f.fee) ∷ fill_costs side fills

  -- `... for o in orders.values() for f in o["fills"]`
  abbrev pub all_of : (String → List (Fill F) → List F) → Dict String (ReplayOrder F) → List F
  all_of per_fill [] = []
  all_of per_fill ((k, o) ∷ orders) = per_fill o.side o.fills ++ all_of per_fill orders

  -- `positions.values()`
  abbrev pub values : Dict String F → List F
  values [] = []
  values ((k, x) ∷ rest) = x ∷ values rest

  unfoldable pub is_inventory_ok : Runtime F → ReplayState F → Bool
  is_inventory_ok rt s =
      is_tiny (rt.sum (values s.positions) ⊖ rt.sum (all_of fill_quantities s.orders))

  unfoldable pub is_cash_ok : Runtime F → ReplayState F → Bool
  is_cash_ok rt s = is_tiny (s.cash ⊖ d.neg (rt.sum (all_of fill_costs s.orders)))
