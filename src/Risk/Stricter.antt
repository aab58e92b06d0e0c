-- ===== src/Risk/Stricter.antt =====
-- Tighter limits approve no more: `RiskConfig` of libs/py/gb_core/src/gb_core/risk.py.
use gooberberg_terminal.Prelude.{
  String, ◌≡◌, true, Option, none, some, arith, contains, string_eq, or_else,
}
use gooberberg_terminal.Prelude.Int.{ℤ, leb_ℤ}
use gooberberg_terminal.Prelude.Float.{Float, IsOrdered, ◌≼◌}
use gooberberg_terminal.Prelude.Value.{Builtins}
use gooberberg_terminal.Risk.Schema.{RiskConfig, StrategyIntent, RiskOverride}
use gooberberg_terminal.Risk.Rules.{in_session}
use gooberberg_terminal.Risk.Authority.{Authority, Stamps, find_override, limit_of}
use gooberberg_terminal.Risk.Approval.{Bounded, KeepsLimits}
use gooberberg_terminal.Risk.Decisions.{Approves, consume_intent-Approves}

module _ {F : Type 0} ⦃d : Float F⦄ where
  -- Every limit on an order in `c` is at most that in `c'`.
  pub record IsTighter (c c' : RiskConfig F) : Type 0 where
    pub quantity : c.max_quantity ≼ c'.max_quantity
    pub notional : c.max_notional ≼ c'.max_notional
    pub symbol_position : c.max_symbol_position ≼ c'.max_symbol_position
    pub sector_position : c.max_sector_position ≼ c'.max_sector_position
    pub gross : c.max_gross_exposure ≼ c'.max_gross_exposure
    pub net : c.max_net_exposure ≼ c'.max_net_exposure
    pub trades : leb_ℤ c.max_trades_per_minute c'.max_trades_per_minute ≡ true
    pub instruments :
        (i : String)
        → contains i c.allowed_instruments ≡ true
        → contains i c'.allowed_instruments ≡ true
    pub sessions :
        (h : ℤ)
        → in_session h c.allowed_session_windows_utc ≡ true
        → in_session h c'.allowed_session_windows_utc ≡ true

module _ {F : Type 0} ⦃d : Float F⦄ ⦃b : Builtins F⦄ (laws : IsOrdered F) where
  Bounded-mono :
      (intent : StrategyIntent F) (key : String) (l l' : F)
      → l ≼ l'
      → Bounded intent key l
      → Bounded intent key l'
  Bounded-mono intent key l l' h (x, e, le) = (x, e, laws.le_trans x l l' le h)

  leb_ℤ_trans : (x y z : ℤ) → leb_ℤ x y ≡ true → leb_ℤ y z ≡ true → leb_ℤ x z ≡ true
  leb_ℤ_trans x y z h k = ground arith

  KeepsLimits-mono :
      (c c' : RiskConfig F) (q q' n n' : F) (intent : StrategyIntent F) (quantity : F)
      → IsTighter c c'
      → ((x : F) → x ≼ q → x ≼ q')
      → ((x : F) → x ≼ n → x ≼ n')
      → KeepsLimits c q n intent quantity
      → KeepsLimits c' q' n' intent quantity
  KeepsLimits-mono c c' q q' n n' intent quantity t hq hn k = record {
    size = hq quantity k.size;
    notional = λ price e. hn _ (k.notional price e);
    allowed = t.instruments _ k.allowed;
    session = t.sessions _ k.session;
    symbol_position = Bounded-mono intent _ _ _ t.symbol_position k.symbol_position;
    sector_position = Bounded-mono intent _ _ _ t.sector_position k.sector_position;
    gross = Bounded-mono intent _ _ _ t.gross k.gross;
    net = Bounded-mono intent _ _ _ t.net k.net;
    trades = (k.trades.0, k.trades.1, leb_ℤ_trans k.trades.0 _ _ k.trades.2 t.trades);
  }

  or_else_mono : (m : Option F) (l l' : F) → l ≼ l' → (x : F) → x ≼ or_else m l → x ≼ or_else m l'
  or_else_mono none l l' h x k = laws.le_trans x l l' k h
  or_else_mono (some m) l l' h x k = k

  -- A limit that an override sets is the same under both configurations.
  limit_of_mono :
      (field : RiskOverride F → Option F) (found : Option (RiskOverride F)) (l l' : F)
      → l ≼ l'
      → (x : F) → x ≼ limit_of field found l
      → x ≼ limit_of field found l'
  limit_of_mono field none l l' h x k = laws.le_trans x l l' k h
  limit_of_mono field (some o) l l' h x k = or_else_mono (field o) l l' h x k

  -- What the authority approves under a configuration, it approves under one with looser limits,
  -- if its overrides are the same and comparison of floats is transitive.
  Approves-looser :
      (stamps : Stamps) (intent : StrategyIntent F) (s : Authority F) (c' : RiskConfig F)
      → IsTighter s.config c'
      → Approves stamps intent s
      → Approves stamps intent (record s { config = c' })
  Approves-looser stamps intent s c' t a =
      let (quantity, symbol, eq, es, k) = (consume_intent-Approves stamps intent s).0 a in
      let found = find_override s.overrides intent in
      (consume_intent-Approves stamps intent (record s { config = c' })).1 (
        quantity,
        symbol,
        eq,
        es,
        KeepsLimits-mono s.config c' _ _ _ _ intent quantity t
            (limit_of_mono (λ o. o.max_quantity) found _ _ t.quantity)
            (limit_of_mono (λ o. o.max_notional) found _ _ t.notional) k,
      )
