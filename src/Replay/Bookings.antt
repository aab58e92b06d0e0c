-- ===== src/Replay/Bookings.antt =====
-- The bookings that the events of a replay stand for, and accounts that follow them: what
-- `replay_backtest` of apps/api-control-plane/app/domain/backtest_runs/replay.py is compared with.
use gooberberg_terminal.Prelude.{
  suc, String, Option, none, some, List, [], ◌∷◌, ◌++◌, string_eq, ◌==◌, if◌then◌else◌, length,
}
use gooberberg_terminal.Prelude.Dict.{Dict, lookup, insert}
use gooberberg_terminal.Prelude.Float.{Float, fabs, ◌⊕◌, ◌⊖◌, ◌⊗◌}
use gooberberg_terminal.Prelude.Raising.{◌>>=◌}
use gooberberg_terminal.Prelude.Texts.{◌<>◌}
use gooberberg_terminal.Prelude.Value.{Value, text, Fields, Builtins, get, get_or}
use gooberberg_terminal.Replay.State.{Runtime, signed}
use gooberberg_terminal.Replay.Steps.{is_zero, number_at, text_or}

-- What of an order a fill depends on.
pub record Terms (F : Type 0) : Type 0 where
  pub symbol : Option (Value F)
  pub side : String
  pub limit_price : F

-- A fill of a known order.
pub record Booking (F : Type 0) : Type 0 where
  pub symbol : String
  pub signed_quantity : F
  pub price : F
  pub fee : F
  pub slippage : F

abbrev pub foldl : {A B : Type 0} → (A → B → A) → A → List B → A
foldl f a [] = a
foldl f a (b ∷ bs) = foldl f (f a b) bs

module _ {F : Type 0} ⦃d : Float F⦄ where
  abbrev pub slippage_of : F → F → F → F
  slippage_of quantity price limit_price =
      fabs quantity ⊗ fabs (price ⊖ (if is_zero limit_price then price else limit_price))

  -- What a booking does to the cash, the realized profit, the fees, the slippage and the position of a
  -- symbol.
  abbrev pub pay : F → Booking F → F
  pay cash c = cash ⊕ (d.neg (c.signed_quantity ⊗ c.price) ⊖ c.fee)

  abbrev pub lose : F → Booking F → F
  lose realized_pnl c = realized_pnl ⊖ (c.fee ⊕ c.slippage)

  abbrev pub charge : F → Booking F → F
  charge fees_total c = fees_total ⊕ c.fee

  abbrev pub slip : F → Booking F → F
  slip slippage_total c = slippage_total ⊕ c.slippage

  abbrev pub move : String → F → Booking F → F
  move symbol position c = if c.symbol == symbol then position ⊕ c.signed_quantity else position

module _ {F : Type 0} ⦃d : Float F⦄ ⦃b : Builtins F⦄ where
  abbrev pub event_type : Runtime F → Fields F → String
  event_type rt event = rt.lower (b.str (get_or "type" (text "") event))

  abbrev pub id_of : Runtime F → Fields F → Dict String (Terms F) → String
  id_of rt event known =
      text_or (get "order_id" event) ("order-" <> rt.decimal (suc (length known)))

  abbrev pub terms_of_event : Runtime F → Fields F → F → Terms F
  terms_of_event rt event price = record {
    symbol = get "symbol" event;
    side = rt.lower (b.str (get_or "side" (text "buy") event));
    limit_price = price;
  }

  abbrev pub booking_of : Fields F → Terms F → F → F → F → Booking F
  booking_of event terms quantity price fee = record {
    symbol = text_or terms.symbol (text_or (get "symbol" event) "UNKNOWN");
    signed_quantity = signed terms.side quantity;
    price = price;
    fee = fee;
    slippage = slippage_of quantity price terms.limit_price;
  }

  unfoldable pub announced :
      Runtime F
      → Fields F
      → Dict String (Terms F)
      → Option (List (Booking F) × Dict String (Terms F))
  unfolding insert get
  announced rt event known = do
    qty ← number_at "quantity" event
    price ← number_at "price" event
    some ([], insert (id_of rt event known) (terms_of_event rt event price) known)

  abbrev pub booked :
      Fields F
      → Option (Terms F)
      → Dict String (Terms F)
      → Option (List (Booking F) × Dict String (Terms F))
  unfolding get
  booked event none known = some ([], known)
  booked event (some terms) known = do
    quantity ← number_at "quantity" event
    price ← number_at "price" event
    fee ← number_at "fee" event
    some (booking_of event terms quantity price fee ∷ [], known)

  -- One event: the booking that it is, if any, and the orders that are known after it.
  unfoldable pub book :
      Runtime F
      → Fields F
      → Dict String (Terms F)
      → Option (List (Booking F) × Dict String (Terms F))
  unfolding lookup insert get
  book rt event known =
      if event_type rt event == "decision"
      then some ([], known)
      else if event_type rt event == "order"
      then announced rt event known
      else if event_type rt event == "fill"
      then booked event (lookup (text_or (get "order_id" event) "") known) known
      else some ([], known)

  -- The bookings of the events in their order, where orders are known by their terms.
  unfoldable pub bookings_from :
      Runtime F → List (Fields F) → Dict String (Terms F) → Option (List (Booking F))
  unfolding book
  bookings_from rt [] known = some []
  bookings_from rt (event ∷ events) known = do
    step ← book rt event known
    rest ← bookings_from rt events step.1
    some (step.0 ++ rest)
