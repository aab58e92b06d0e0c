-- ===== src/Replay/Steps.antt =====
-- The loop of `replay_backtest`, apps/api-control-plane/app/domain/backtest_runs/replay.py.
use gooberberg_terminal.Prelude.{
  ℕ, suc, String, Bool, true, false, not, ◌&&◌, ◌||◌, Option, none, some, List, [], ◌∷◌, ◌++◌,
  string_eq, ◌==◌, if◌then◌else◌, length,
}
use gooberberg_terminal.Prelude.Dict.{Dict, lookup, insert}
use gooberberg_terminal.Prelude.Float.{Float, nought, one, fabs, ◌⊕◌, ◌⊖◌, ◌⊗◌, ◌⊘◌, ◌<<◌, ◌<=◌}
use gooberberg_terminal.Prelude.Raising.{◌>>=◌}
use gooberberg_terminal.Prelude.Texts.{◌<>◌}
use gooberberg_terminal.Prelude.Value.{
  Value, text, num, Fields, Builtins, get, get_or, to_float, is_truthy,
}
use gooberberg_terminal.Replay.State.{
  Runtime, Fill, ReplayOrder, Source, PositionEvent, PnlEvent, ReplayState, is_tiny, signed,
  is_inventory_ok, is_cash_ok,
}

abbrev pub same_truth : Bool → Bool → Bool
same_truth true b = b
same_truth false b = not b

module _ {F : Type 0} where
  -- `orders[order_id] = ...`
  abbrev pub put_order : ReplayOrder F → ReplayState F → ReplayState F
  put_order order s = record s { orders = insert order.order_id order s.orders }

module _ {F : Type 0} ⦃d : Float F⦄ where
  abbrev pub notionals : List (Fill F) → List F
  notionals [] = []
  notionals (f ∷ fills) = (f.quantity ⊗ f.price) ∷ notionals fills

  -- What a fill does to its order.
  unfoldable pub fill_order : Runtime F → Fill F → ReplayOrder F → ReplayOrder F
  fill_order rt f order =
      let filled = order.filled_quantity ⊕ f.quantity in
      let fills = order.fills ++ (f ∷ []) in
      record order {
        filled_quantity = filled;
        fills = fills;
        avg_fill_price =
            if nought << filled then rt.sum (notionals fills) ⊘ filled else order.avg_fill_price;
        status = if is_tiny (filled ⊖ order.quantity) then "filled" else "partial";
      }

  -- `x` is a zero.
  abbrev pub is_zero : F → Bool
  is_zero x = (x <= nought) && (nought <= x)

  -- The average price after a fill of a position.
  unfoldable pub average_price : F → F → F → F → F
  average_price prior_position prior_avg signed_fill_qty fill_px =
      let new_position = prior_position ⊕ signed_fill_qty in
      if fabs new_position << (one ⊘ d.of_nat 1000000000000)
      then nought
      else if is_zero prior_position
          || same_truth (nought << prior_position) (nought << signed_fill_qty)
      then ((fabs prior_position ⊗ prior_avg) ⊕ (fabs signed_fill_qty ⊗ fill_px))
        ⊘ (fabs prior_position ⊕ fabs signed_fill_qty)
      else prior_avg

  -- `positions[symbol]` of a `defaultdict(float)`
  abbrev pub number_of : String → Dict String F → F
  unfolding lookup
  number_of symbol numbers = elim (lookup symbol numbers) [ none ↦ nought | some x ↦ x ]

  -- The accounts after a fill of an order that is known.
  unfoldable pub apply_fill :
      Runtime F → String → String → ReplayOrder F → Fill F → ReplayState F → ReplayState F
  unfolding insert fill_order average_price
  apply_fill rt order_id symbol order f s =
      let signed_fill_qty = signed order.side f.quantity in
      let prior_position = number_of symbol s.positions in
      let prior_avg = number_of symbol s.avg_price_by_symbol in
      let expected_px = if is_zero order.limit_price then f.price else order.limit_price in
      let slippage = fabs f.quantity ⊗ fabs (f.price ⊖ expected_px) in
      record s {
        orders = insert order_id (fill_order rt f order) s.orders;
        positions = insert symbol (prior_position ⊕ signed_fill_qty) s.positions;
        avg_price_by_symbol =
            insert symbol (average_price prior_position prior_avg signed_fill_qty f.price)
              s.avg_price_by_symbol;
        cash = s.cash ⊕ (d.neg (signed_fill_qty ⊗ f.price) ⊖ f.fee);
        realized_pnl = s.realized_pnl ⊖ (f.fee ⊕ slippage);
        fees_total = s.fees_total ⊕ f.fee;
        slippage_total = s.slippage_total ⊕ slippage;
      }

  -- The two events of a fill.
  unfoldable pub report : Runtime F → Fields F → String → ReplayState F → ReplayState F
  unfolding is_inventory_ok is_cash_ok get
  report rt event symbol s =
      let source : Source F = record {
        order_id = get "order_id" event;
        fill_id = get "fill_id" event;
        event_ts = get "timestamp" event;
      } in
      let position : PositionEvent F = record {
        symbol = symbol;
        quantity = rt.round_8 (number_of symbol s.positions);
        average_price = rt.round_8 (number_of symbol s.avg_price_by_symbol);
        source = source;
      } in
      let pnl : PnlEvent F = record {
        realized_pnl = rt.round_8 s.realized_pnl;
        unrealized_pnl = rt.round_8 nought;
        cash = rt.round_8 s.cash;
        fees_total = rt.round_8 s.fees_total;
        slippage_total = rt.round_8 s.slippage_total;
        inventory_conservation_ok = is_inventory_ok rt s;
        cash_consistency_ok = is_cash_ok rt s;
        source = source;
      } in
      record s {
        position_events = s.position_events ++ (position ∷ []);
        pnl_events = s.pnl_events ++ (pnl ∷ []);
      }

module _ {F : Type 0} ⦃d : Float F⦄ ⦃b : Builtins F⦄ where
  -- `float(event.get(key, 0.0))`
  abbrev pub number_at : String → Fields F → Option F
  unfolding get
  number_at key event = to_float (get_or key (num nought) event)

  -- `str(value or default)` of a value that may be missing.
  abbrev pub text_or : Option (Value F) → String → String
  text_or none default = default
  text_or (some v) default = if is_truthy v then b.str v else default

  -- The order of an event, where `count` orders are known.
  unfoldable pub new_order : Runtime F → Fields F → ℕ → F → F → ReplayOrder F
  unfolding get
  new_order rt event count qty price =
      let side = rt.lower (b.str (get_or "side" (text "buy") event)) in
      record {
        order_id = text_or (get "order_id" event) ("order-" <> rt.decimal (suc count));
        symbol = get "symbol" event;
        side = side;
        quantity = qty;
        limit_price = price;
        status = "accepted";
        filled_quantity = nought;
        avg_fill_price = nought;
        fills = [];
        signed_quantity = signed side qty;
      }

  -- An event of type "order".
  unfoldable pub add_order : Runtime F → Fields F → ReplayState F → Option (ReplayState F)
  unfolding new_order
  add_order rt event s = do
    qty ← number_at "quantity" event
    price ← number_at "price" event
    some (put_order (new_order rt event (length s.orders) qty price) s)

  -- `order["symbol"] or event["symbol"] or "UNKNOWN"`
  unfoldable pub symbol_of : ReplayOrder F → Fields F → String
  unfolding get
  symbol_of order event = text_or order.symbol (text_or (get "symbol" event) "UNKNOWN")

  -- A fill of a known order.
  unfoldable pub fill_known :
      Runtime F → Fields F → String → ReplayOrder F → ReplayState F → Option (ReplayState F)
  unfolding apply_fill report symbol_of
  fill_known rt event order_id order s = do
    quantity ← number_at "quantity" event
    price ← number_at "price" event
    fee ← number_at "fee" event
    some (
        report rt event (symbol_of order event) (
          apply_fill rt order_id (symbol_of order event) order
            (record { quantity = quantity; price = price; fee = fee }) s))

  -- An event of type "fill"; one of an unknown order is left out.
  unfoldable pub add_fill : Runtime F → Fields F → ReplayState F → Option (ReplayState F)
  unfolding lookup get fill_known
  add_fill rt event s =
      let order_id = text_or (get "order_id" event) "" in
      elim (lookup order_id s.orders) [
        | none ↦ some s
        | some order ↦ fill_known rt event order_id order s
      ]

  -- One turn of the loop.
  unfoldable pub replay_event : Runtime F → Fields F → ReplayState F → Option (ReplayState F)
  unfolding add_order add_fill get
  replay_event rt event s =
      let event_type = rt.lower (b.str (get_or "type" (text "") event)) in
      if event_type == "decision"
      then some (record s { decisions = s.decisions ++ (event ∷ []) })
      else if event_type == "order"
      then add_order rt event s
      else if event_type == "fill"
      then add_fill rt event s
      else some s

  unfoldable pub replay_events :
      Runtime F → List (Fields F) → ReplayState F → Option (ReplayState F)
  unfolding replay_event
  replay_events rt [] s = some s
  replay_events rt (event ∷ events) s = replay_event rt event s >>= replay_events rt events
