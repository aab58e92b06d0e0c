-- ===== src/Replay/Examples.antt =====
-- Runs and witnesses for apps/api-control-plane/app/domain/backtest_runs/replay.py.
use native.Mathlib.Omega.{arith}
use gooberberg_terminal.Prelude.{
  false, all, List, [], ◌∷◌, some, none, ◌≡◌, refl, true, length, string_eq,
}
use gooberberg_terminal.Prelude.Dict.{lookup, insert}
use gooberberg_terminal.Prelude.Int.{ℤ, pos, negsuc, ltb_ℤ, mul_ℤ, div_ℤ, ◌+ℤ◌, negate}
use gooberberg_terminal.Prelude.FixedPoint.{unit, fixed_point, fixed, fixed_builtins}
use gooberberg_terminal.Prelude.Sorting.{sort_by, insert_sorted}
use gooberberg_terminal.Prelude.Value.{text, num, Fields, field, end, get}
use gooberberg_terminal.Replay.State.{
  Runtime, ReplayState, initial_state, is_inventory_ok, is_cash_ok,
}
use gooberberg_terminal.Replay.Steps.{
  fill_order, average_price, apply_fill, report, new_order, add_order, symbol_of, fill_known,
  add_fill, replay_event, replay_events,
}
use gooberberg_terminal.Replay.Validate.{ReplayResult, result_of, replay_backtest}
use gooberberg_terminal.Replay.Bookings.{Booking, announced, book, bookings_from}
use gooberberg_terminal.Replay.Accounts.{IsAfter}
use gooberberg_terminal.Replay.Booked.{replay_events-IsBooked}
use gooberberg_terminal.Replay.Losses.{IsSigned, charges_fee, replay_events-never_gains}

abbrev total : List ℤ → ℤ
total [] = pos 0
total (x ∷ xs) = x +ℤ total xs

abbrev runtime : Runtime ℤ
runtime = record { lower = λ s. s; decimal = λ n. "1"; round_8 = λ x. x; sum = total }

mul_lem :
    (x y : ℤ)
    → ltb_ℤ x (pos 0) ≡ false
    → ltb_ℤ y (pos 0) ≡ false
    → ltb_ℤ (div_ℤ (mul_ℤ x y) unit) (pos 0) ≡ false
mul_lem (pos n) (pos m) h k = ground arith
mul_lem (negsuc n) y h k = ground (arith, h)
mul_lem (pos n) (negsuc m) h k = ground (arith, k)

runtime-IsSigned : IsSigned ℤ
runtime-IsSigned = record {
  zero = refl;
  neg = λ x h. ground (arith, h);
  add = λ x y h k. ground (arith, h, k);
  mul = mul_lem;
  sub = λ x y h k. ground (arith, h, k);
}

-- An order to buy 3 at 10 and two fills of it, the second at 12 with a fee; a fill of an unknown order.
abbrev events : List (Fields ℤ)
events =
    field "type" (text "order") (
      field "order_id" (text "a") (
        field "symbol" (text "AAPL")
          (field "quantity" (num (fixed 3)) (field "price" (num (fixed 10)) end))))
    ∷ field "type" (text "fill") (
        field "order_id" (text "a")
          (field "quantity" (num (fixed 1)) (field "price" (num (fixed 10)) end)))
    ∷ field "type" (text "fill") (
        field "order_id" (text "a") (
          field "quantity" (num (fixed 2))
            (field "price" (num (fixed 12)) (field "fee" (num (fixed 1)) end))))
    ∷ field "type" (text "fill") (field "order_id" (text "b") end)
    ∷ []

abbrev final_state : ReplayState ℤ
final_state = elim (replay_events runtime events initial_state) [
  | none ↦ initial_state
  | some s ↦ s
]

abbrev outcome : ReplayResult ℤ
outcome = result_of runtime final_state

final_lem : replay_events runtime events initial_state ≡ some final_state
unfolding replay_events replay_event add_order add_fill new_order fill_known apply_fill report
    symbol_of fill_order average_price is_inventory_ok is_cash_ok lookup insert get
final_lem = refl

outcome_lem : replay_backtest runtime events ≡ some outcome
unfolding replay_backtest replay_events result_of replay_event add_order add_fill new_order
    fill_known apply_fill report symbol_of fill_order average_price is_inventory_ok is_cash_ok
    sort_by insert_sorted lookup insert get
outcome_lem = refl

-- Of the three fills, the two of the known order are bookings.
replay_events-IsBooked_example :
    (cs : List (Booking ℤ)) × (bookings_from runtime events [] ≡ some cs)
    × IsAfter initial_state cs final_state
replay_events-IsBooked_example = replay_events-IsBooked runtime events final_state final_lem

bookings_test :
    bookings_from runtime events []
    ≡ some (
        record {
          symbol = "AAPL";
          signed_quantity = fixed 1;
          price = fixed 10;
          fee = fixed 0;
          slippage = fixed 0;
        }
        ∷ record {
          symbol = "AAPL";
          signed_quantity = fixed 2;
          price = fixed 12;
          fee = fixed 1;
          slippage = fixed 4;
        }
        ∷ [])
unfolding bookings_from book announced lookup insert get
bookings_test = refl

charges_lem : all charges_fee events ≡ true
unfolding get
charges_lem = refl

replay_events-never_gains_example : ltb_ℤ (pos 0) final_state.realized_pnl ≡ false
replay_events-never_gains_example =
    replay_events-never_gains runtime-IsSigned runtime events final_state charges_lem final_lem

-- Two events of profit are reported; the cash is -10 - 24 - 1, and the slippage 2 times 2.
outcome_test :
    (length outcome.pnl_events ≡ 2)
    × (outcome.pnl_state.cash ≡ negate (fixed 35))
    × (outcome.pnl_state.realized ≡ negate (fixed 5))
    × (outcome.positions ≡ ("AAPL", fixed 3) ∷ [])
unfolding replay_backtest replay_events result_of replay_event add_order add_fill new_order
    fill_known apply_fill report symbol_of fill_order average_price is_inventory_ok is_cash_ok
    sort_by insert_sorted lookup insert get
outcome_test = (refl, refl, refl, refl)

-- A fill through zero keeps the average price of the other side.
average_price_test : average_price (fixed 1) (fixed 10) (negate (fixed 3)) (fixed 20) ≡ fixed 10
unfolding average_price
average_price_test = refl
