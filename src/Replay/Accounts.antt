-- ===== src/Replay/Accounts.antt =====
-- The orders as terms and the accounts after bookings, for the proofs on `replay_backtest`,
-- apps/api-control-plane/app/domain/backtest_runs/replay.py.
use gooberberg_terminal.Prelude.{
  ◌+◌, suc, String, none, some, List, [], ◌∷◌, ◌++◌, ◌≡◌, ◌∙◌, refl, ap, sym, inl, inr, string_eq,
  ◌==◌, if◌then◌else◌, length, length-append, Bool-cases, arith,
}
use gooberberg_terminal.Prelude.Dict.{Dict, lookup, insert, lookup-insert}
use gooberberg_terminal.Prelude.Float.{Float, nought, ◌⊕◌}
use gooberberg_terminal.Prelude.Raising.{some_inj}
use gooberberg_terminal.Prelude.Value.{Fields}
use gooberberg_terminal.Replay.State.{ReplayOrder, ReplayState}
use gooberberg_terminal.Replay.Steps.{number_of}
use gooberberg_terminal.Replay.Bookings.{Terms, Booking, foldl, pay, lose, charge, slip, move}

foldl-append :
    {A B : Type 0} (f : A → B → A) (a : A) (xs ys : List B)
    → foldl f a (xs ++ ys) ≡ foldl f (foldl f a xs) ys
foldl-append f a [] ys = refl
foldl-append f a (x ∷ xs) ys = foldl-append f (f a x) xs ys

module _ {F : Type 0} where
  abbrev pub terms_of : ReplayOrder F → Terms F
  terms_of o = record { symbol = o.symbol; side = o.side; limit_price = o.limit_price }

  abbrev pub terms_in : Dict String (ReplayOrder F) → Dict String (Terms F)
  terms_in [] = []
  terms_in ((k, o) ∷ orders) = (k, terms_of o) ∷ terms_in orders

  pub length-terms_in :
      (orders : Dict String (ReplayOrder F)) → length (terms_in orders) ≡ length orders
  length-terms_in [] = refl
  length-terms_in ((k, o) ∷ orders) = ap suc (length-terms_in orders)

  pub lookup-terms_none :
      (id : String) (orders : Dict String (ReplayOrder F))
      → lookup id orders ≡ none
      → lookup id (terms_in orders) ≡ none
  unfolding lookup
  lookup-terms_none id [] h = refl
  lookup-terms_none id ((k, o) ∷ orders) h = ground (arith, h, lookup-terms_none id orders)

  pub lookup-terms_some :
      (id : String) (orders : Dict String (ReplayOrder F)) (order : ReplayOrder F)
      → lookup id orders ≡ some order
      → lookup id (terms_in orders) ≡ some (terms_of order)
  unfolding lookup
  lookup-terms_some id [] order h = cc
  lookup-terms_some id ((k, o) ∷ orders) order h = elim (Bool-cases (k == id)) [
    | inl same ↦
        let own : o ≡ order = some_inj (rw (same, lookup) at h) in
        rw (same, lookup) (ap (λ x. some (terms_of x)) own)
    | inr other ↦ rw (other, lookup) (lookup-terms_some id orders order (rw (other, lookup) at h))
  ]

  pub insert-terms_in :
      (id : String) (order : ReplayOrder F) (orders : Dict String (ReplayOrder F))
      → terms_in (insert id order orders) ≡ insert id (terms_of order) (terms_in orders)
  unfolding insert
  insert-terms_in id order [] = refl
  insert-terms_in id order ((k, o) ∷ orders) = elim (Bool-cases (k == id)) [
    | inl same ↦ rw (same) refl
    | inr other ↦ rw (other) (ap (λ rest. (k, terms_of o) ∷ rest) (insert-terms_in id order orders))
  ]

  pub insert-known :
      (id : String) (terms : Terms F) (known : Dict String (Terms F))
      → lookup id known ≡ some terms
      → insert id terms known ≡ known
  unfolding insert lookup
  insert-known id terms [] h = cc
  insert-known id terms ((k, t) ∷ known) h = elim (Bool-cases (k == id)) [
    | inl same ↦
        let own : t ≡ terms = some_inj (rw (same, lookup) at h) in
        rw (same) (ap (λ x. (k, x) ∷ known) (sym own))
    | inr other ↦
        rw (other)
          (ap (λ rest. (k, t) ∷ rest) (insert-known id terms known (rw (other, lookup) at h)))
  ]

module _ {F : Type 0} ⦃d : Float F⦄ where
  -- The accounts after some bookings, from those before; each booking is reported by two events.
  pub record IsAfter (s : ReplayState F) (cs : List (Booking F)) (t : ReplayState F) : Type 0 where
    pub cash : t.cash ≡ foldl pay s.cash cs
    pub realized_pnl : t.realized_pnl ≡ foldl lose s.realized_pnl cs
    pub fees_total : t.fees_total ≡ foldl charge s.fees_total cs
    pub slippage_total : t.slippage_total ≡ foldl slip s.slippage_total cs
    pub position :
        (symbol : String)
        → number_of symbol t.positions ≡ foldl (move symbol) (number_of symbol s.positions) cs
    pub pnl_events : length t.pnl_events ≡ length s.pnl_events + length cs
    pub position_events : length t.position_events ≡ length s.position_events + length cs

  pub IsAfter-append :
      (s t u : ReplayState F) (cs ds : List (Booking F))
      → IsAfter s cs t
      → IsAfter t ds u
      → IsAfter s (cs ++ ds) u
  IsAfter-append s t u cs ds a z = record {
    cash = z.cash ∙ ap (λ x. foldl pay x ds) a.cash ∙ sym (foldl-append pay s.cash cs ds);
    realized_pnl =
        z.realized_pnl
        ∙ ap (λ x. foldl lose x ds) a.realized_pnl
        ∙ sym (foldl-append lose s.realized_pnl cs ds);
    fees_total =
        z.fees_total
        ∙ ap (λ x. foldl charge x ds) a.fees_total
        ∙ sym (foldl-append charge s.fees_total cs ds);
    slippage_total =
        z.slippage_total
        ∙ ap (λ x. foldl slip x ds) a.slippage_total
        ∙ sym (foldl-append slip s.slippage_total cs ds);
    position = λ symbol.
        z.position symbol
        ∙ ap (λ x. foldl (move symbol) x ds) (a.position symbol)
        ∙ sym (foldl-append (move symbol) (number_of symbol s.positions) cs ds);
    pnl_events = omega (arith, a.pnl_events, z.pnl_events, length-append cs ds);
    position_events = omega (arith, a.position_events, z.position_events, length-append cs ds);
  }

  number_of-insert :
      (symbol other : String) (x : F) (positions : Dict String F)
      → number_of other (insert symbol x positions)
        ≡ (if symbol == other then x else number_of other positions)
  unfolding lookup
  number_of-insert symbol other x positions = elim (Bool-cases (symbol == other)) [
    | inl same ↦
        let found : lookup other (insert symbol x positions) ≡ some x =
          lookup-insert symbol other x positions ∙ rw (same) refl in
        rw (same) (ap (λ o. elim o [ none ↦ nought | some y ↦ y ]) found)
    | inr differs ↦
        let found : lookup other (insert symbol x positions) ≡ lookup other positions =
          lookup-insert symbol other x positions ∙ rw (differs) refl in
        rw (differs) (ap (λ o. elim o [ none ↦ nought | some y ↦ y ]) found)
  ]

  pub moved-IsAfter :
      (symbol other : String) (quantity : F) (positions : Dict String F)
      → number_of other (insert symbol (number_of symbol positions ⊕ quantity) positions) ≡ (
          if symbol == other
          then number_of other positions ⊕ quantity
          else number_of other positions)
  moved-IsAfter symbol other quantity positions =
      number_of-insert symbol other _ positions ∙ elim (Bool-cases (symbol == other)) [
        | inl same ↦
            rw (same)
              (ap (λ x. number_of x positions ⊕ quantity) ((string_eq.beq_iff symbol other).0 same))
        | inr differs ↦ rw (differs) refl
      ]

  pub same_accounts :
      (s : ReplayState F) (decisions : List (Fields F)) (orders : Dict String (ReplayOrder F))
      → IsAfter s [] (record s { decisions = decisions; orders = orders })
  same_accounts s decisions orders = record {
    cash = refl;
    realized_pnl = refl;
    fees_total = refl;
    slippage_total = refl;
    position = λ symbol. refl;
    pnl_events = omega arith;
    position_events = omega arith;
  }
