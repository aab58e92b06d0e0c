-- ===== src/Replay/Booked.antt =====
-- The accounts of `replay_backtest`, apps/api-control-plane/app/domain/backtest_runs/replay.py, follow the
-- bookings of its events.
use gooberberg_terminal.Prelude.{
  String, Option, some, List, [], ◌∷◌, ◌++◌, ◌≡◌, ◌∙◌, refl, ap, sym, inl, inr, string_eq, ◌==◌,
  length, length-append, Bool-cases, Option-cases,
}
use gooberberg_terminal.Prelude.Dict.{Dict, lookup, insert}
use gooberberg_terminal.Prelude.Float.{Float}
use gooberberg_terminal.Prelude.Raising.{Yields, Yields-some, Yields-bind}
use gooberberg_terminal.Prelude.Value.{Fields, Builtins, get}
use gooberberg_terminal.Replay.State.{Runtime, Fill, ReplayOrder, ReplayState, initial_state}
use gooberberg_terminal.Replay.Steps.{
  number_at, text_or, fill_order, new_order, put_order, add_order, symbol_of, apply_fill, report,
  fill_known, add_fill, replay_event, replay_events,
}
use gooberberg_terminal.Replay.Bookings.{
  Terms, Booking, event_type, booking_of, id_of, terms_of_event, announced, booked, book,
  bookings_from,
}
use gooberberg_terminal.Replay.Accounts.{
  terms_of, terms_in, length-terms_in, lookup-terms_none, lookup-terms_some, insert-terms_in,
  insert-known, IsAfter, IsAfter-append, moved-IsAfter, same_accounts,
}

module _ {F : Type 0} ⦃d : Float F⦄ ⦃b : Builtins F⦄ (rt : Runtime F) where
  -- What the reference makes of an event, beside the state that the replay makes of it.
  abbrev IsBooked :
      ReplayState F → Option (List (Booking F) × Dict String (Terms F)) → ReplayState F → Type 0
  IsBooked s step t =
      (cs : List (Booking F)) × (step ≡ some (cs, terms_in t.orders)) × IsAfter s cs t

  fill-IsAfter :
      (event : Fields F) (order_id : String) (order : ReplayOrder F) (f : Fill F)
      (s : ReplayState F)
      → IsAfter s (booking_of event (terms_of order) f.quantity f.price f.fee ∷ []) (
          report rt event
            (symbol_of order event)
            (apply_fill rt order_id (symbol_of order event) order f s))
  unfolding apply_fill report symbol_of
  fill-IsAfter event order_id order f s = record {
    cash = refl;
    realized_pnl = refl;
    fees_total = refl;
    slippage_total = refl;
    position = λ other. moved-IsAfter (symbol_of order event) other _ s.positions;
    pnl_events = length-append s.pnl_events _;
    position_events = length-append s.position_events _;
  }

  fill-terms :
      (order_id : String) (order : ReplayOrder F) (f : Fill F) (s : ReplayState F)
      → lookup order_id s.orders ≡ some order
      → terms_in s.orders ≡ terms_in (insert order_id (fill_order rt f order) s.orders)
  unfolding fill_order
  fill-terms order_id order f s known = sym (
      insert-terms_in order_id (fill_order rt f order) s.orders
      ∙ insert-known order_id (terms_of order) (terms_in s.orders)
          (lookup-terms_some order_id s.orders order known))

  fill_known-IsBooked :
      (event : Fields F) (order_id : String) (order : ReplayOrder F) (s : ReplayState F)
      → lookup order_id s.orders ≡ some order
      → Yields
          (IsBooked s (booked event (some (terms_of order)) (terms_in s.orders)))
          (fill_known rt event order_id order s)
  unfolding fill_known
  fill_known-IsBooked event order_id order s known =
      Yields-bind (number_at "quantity" event) _ (λ quantity eq.
        Yields-bind (number_at "price" event) _ (λ price ep.
          Yields-bind (number_at "fee" event) _ (λ fee ef.
            let f : Fill F = record { quantity = quantity; price = price; fee = fee } in
            Yields-some _ (
              booking_of event (terms_of order) quantity price fee ∷ [],
              rw (eq, ep, ef)
                  (ap
                    (λ known.
                      some (booking_of event (terms_of order) quantity price fee ∷ [], known))
                    (fill-terms order_id order f s known)),
              fill-IsAfter event order_id order f s,
            ))))

  add_fill-IsBooked :
      (event : Fields F) (s : ReplayState F)
      → Yields
          (IsBooked s (
            booked event
              (lookup (text_or (get "order_id" event) "") (terms_in s.orders))
              (terms_in s.orders)))
          (add_fill rt event s)
  unfolding add_fill
  add_fill-IsBooked event s =
      let order_id = text_or (get "order_id" event) "" in
      elim (Option-cases (lookup order_id s.orders)) [
        | inl unknown ↦
            rw (add_fill, unknown, lookup-terms_none order_id s.orders unknown)
              (Yields-some s ([], refl, same_accounts s s.decisions s.orders))
        | inr (order, known) ↦
            rw (add_fill, known, lookup-terms_some order_id s.orders order known)
              (fill_known-IsBooked event order_id order s known)
      ]

  order-terms :
      (event : Fields F) (qty price : F) (orders : Dict String (ReplayOrder F))
      → insert (id_of rt event (terms_in orders)) (terms_of_event rt event price) (terms_in orders)
        ≡ terms_in
            (put_order
              (new_order rt event (length orders) qty price)
              (record initial_state { orders = orders })).orders
  unfolding new_order
  order-terms event qty price orders =
      rw (length-terms_in orders)
        (sym (insert-terms_in _ (new_order rt event (length orders) qty price) orders))

  announced_lem :
      (event : Fields F) (qty price : F) (known : Dict String (Terms F))
      → number_at "quantity" event ≡ some qty
      → number_at "price" event ≡ some price
      → announced rt event known
        ≡ some ([], insert (id_of rt event known) (terms_of_event rt event price) known)
  unfolding announced
  announced_lem event qty price known eq ep = rw (eq, ep) refl

  add_order-IsBooked :
      (event : Fields F) (s : ReplayState F)
      → Yields (IsBooked s (announced rt event (terms_in s.orders))) (add_order rt event s)
  unfolding add_order new_order
  add_order-IsBooked event s = Yields-bind (number_at "quantity" event) _ (λ qty eq.
      Yields-bind (number_at "price" event) _ (λ price ep.
        let order = new_order rt event (length s.orders) qty price in
        Yields-some _ (
          [],
          announced_lem event qty price (terms_in s.orders) eq ep
              ∙ ap (λ known. some ([], known)) (order-terms event qty price s.orders),
          same_accounts s s.decisions (insert order.order_id order s.orders),
        )))

  replay_event-IsBooked :
      (event : Fields F) (s : ReplayState F)
      → Yields (IsBooked s (book rt event (terms_in s.orders))) (replay_event rt event s)
  unfolding replay_event book
  replay_event-IsBooked event s = elim (Bool-cases (event_type rt event == "decision")) [
    | inl decision ↦
        rw (decision)
          (Yields-some _ ([], refl, same_accounts s (s.decisions ++ (event ∷ [])) s.orders))
    | inr other ↦ elim (Bool-cases (event_type rt event == "order")) [
      | inl order ↦ rw (other, order) (add_order-IsBooked event s)
      | inr unlike ↦ elim (Bool-cases (event_type rt event == "fill")) [
        | inl fill ↦ rw (other, unlike, fill) (add_fill-IsBooked event s)
        | inr ignored ↦
            rw (other, unlike, ignored)
              (Yields-some s ([], refl, same_accounts s s.decisions s.orders))
      ]
    ]
  ]

  replay_events-IsBooked_from :
      (events : List (Fields F)) (s : ReplayState F)
      → Yields
          (λ t.
            (cs : List (Booking F)) × (bookings_from rt events (terms_in s.orders) ≡ some cs)
            × IsAfter s cs t)
          (replay_events rt events s)
  unfolding replay_events bookings_from
  replay_events-IsBooked_from [] s = Yields-some s ([], refl, same_accounts s s.decisions s.orders)
  replay_events-IsBooked_from (event ∷ events) s =
      Yields-bind (replay_event rt event s) (replay_events rt events) (λ t step. record {
        at = λ u run.
            let (cs, made, after) = (replay_event-IsBooked event s).at t step in
            let (ds, rest, later) = (replay_events-IsBooked_from events t).at u run in
            (cs ++ ds, rw (made, rest) refl, IsAfter-append s t u cs ds after later);
      })

  -- Where the replay of the events does not raise, its accounts are those that the bookings give in
  -- their order: the fills of known orders, at the terms under which the order was last announced, an
  -- order without an identifier being named by its number. Each booking moves the cash, the realized
  -- profit, the fees, the slippage and the position of its own symbol, and is reported by one event of
  -- profit and one of position.
  pub replay_events-IsBooked :
      (events : List (Fields F)) (s : ReplayState F)
      → replay_events rt events initial_state ≡ some s
      → (cs : List (Booking F)) × (bookings_from rt events [] ≡ some cs)
        × IsAfter initial_state cs s
  replay_events-IsBooked events s run = (replay_events-IsBooked_from events initial_state).at s run
