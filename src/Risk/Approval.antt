-- ===== src/Risk/Approval.antt =====
-- An intent is approved exactly when it keeps every limit.
use gooberberg_terminal.Prelude.{
  String, ◌≡◌, refl, ◌↔◌, true, ◌&&◌, Option, none, some, arith, contains, is_empty, string_eq,
}
use gooberberg_terminal.Prelude.Int.{ℤ, pos, leb_ℤ}
use gooberberg_terminal.Prelude.Float.{Float, ◌≼◌, ◌⊗◌, ◌<=◌}
use gooberberg_terminal.Prelude.Value.{Builtins, int, get_or, to_int}
use gooberberg_terminal.Prelude.Raising.{◌>>=◌}
use gooberberg_terminal.Risk.Schema.{RiskConfig, StrategyIntent}
use gooberberg_terminal.Risk.Rules.{
  RuleLog, empty_log, record_rule, in_session, abs_param, instrument, notional_within, order_rules,
}
use gooberberg_terminal.Risk.Log.{is_empty-record_rule}

module _ {F : Type 0} ⦃d : Float F⦄ ⦃b : Builtins F⦄ where
  -- The parameter reads as a number whose magnitude is at most the limit.
  abbrev pub Bounded : StrategyIntent F → String → F → Type 0
  Bounded intent key limit = (x : F) × (abs_param intent key ≡ some x) × (x ≼ limit)

  -- An order of a size, with the limits on size and value that apply to it.
  pub record KeepsLimits (c : RiskConfig F) (max_qty max_notional : F) (intent : StrategyIntent F)
      (quantity : F) : Type 0 where
    pub size : quantity ≼ max_qty
    pub notional : (price : F) → intent.limit_price ≡ some price → quantity ⊗ price ≼ max_notional
    pub allowed : contains (instrument intent) c.allowed_instruments ≡ true
    pub session : in_session (pos intent.created_hour) c.allowed_session_windows_utc ≡ true
    pub symbol_position : Bounded intent "symbol_position_after" c.max_symbol_position
    pub sector_position : Bounded intent "sector_position_after" c.max_sector_position
    pub gross : Bounded intent "gross_exposure_after" c.max_gross_exposure
    pub net : Bounded intent "net_exposure_after" c.max_net_exposure
    pub trades :
        (t : ℤ) × (to_int (get_or "trades_last_minute" (int (pos 0)) intent.params) ≡ some t)
        × (leb_ℤ t c.max_trades_per_minute ≡ true)

  notional_within_iff :
      (intent : StrategyIntent F) (q m : F) (p : Option F)
      → intent.limit_price ≡ p
      → (notional_within intent q m ≡ true)
        ↔ ((price : F) → intent.limit_price ≡ some price → q ⊗ price ≼ m)
  unfolding notional_within
  notional_within_iff intent q m none h = (λ t price e. cc, λ f. rw h)
  notional_within_iff intent q m (some p) h =
      (λ t price e. ground arith, λ f. ground (arith, f p h))

  module _ (c : RiskConfig F) (q n : F) (intent : StrategyIntent F) (quantity : F) where
    -- The log that `order_rules` returns, given the five parameters that it reads.
    log_of : F → F → F → F → ℤ → RuleLog
    log_of s t g m k =
        record_rule "trade_frequency" (leb_ℤ k c.max_trades_per_minute)
          "TRADE_FREQUENCY_LIMIT_EXCEEDED"
          (record_rule "net_exposure" (m <= c.max_net_exposure) "MAX_NET_EXPOSURE_EXCEEDED" (
            record_rule "gross_exposure" (g <= c.max_gross_exposure) "MAX_GROSS_EXPOSURE_EXCEEDED" (
              record_rule "max_sector_position" (t <= c.max_sector_position)
                "MAX_SECTOR_POSITION_EXCEEDED"
                (record_rule "max_symbol_position" (s <= c.max_symbol_position)
                  "MAX_SYMBOL_POSITION_EXCEEDED"
                  (record_rule "session_window"
                    (in_session (pos intent.created_hour) c.allowed_session_windows_utc)
                    "OUTSIDE_SESSION_WINDOW"
                    (record_rule "allowed_instruments"
                      (contains (instrument intent) c.allowed_instruments) "INSTRUMENT_NOT_ALLOWED"
                      (record_rule "max_notional" (notional_within intent quantity n)
                        "MAX_NOTIONAL_EXCEEDED"
                        (record_rule "max_order_size" (quantity <= q) "MAX_QUANTITY_EXCEEDED"
                          (record_rule "required_fields" true "OK" empty_log)))))))))

    read : Option F → Option F → Option F → Option F → Option ℤ → Option RuleLog
    read o1 o2 o3 o4 o5 = do s ← o1; t ← o2; g ← o3; m ← o4; k ← o5; some (log_of s t g m k)

    order_rules-eq-read :
        order_rules c q n intent quantity
        ≡ read
            (abs_param intent "symbol_position_after")
            (abs_param intent "sector_position_after")
            (abs_param intent "gross_exposure_after")
            (abs_param intent "net_exposure_after")
            (to_int (get_or "trades_last_minute" (int (pos 0)) intent.params))
    unfolding order_rules read log_of
    order_rules-eq-read = refl

    is_empty-log_of :
        (s t g m : F) (k : ℤ)
        → is_empty (log_of s t g m k).failure_reason_codes ≡ (
            leb_ℤ k c.max_trades_per_minute
            && (m <= c.max_net_exposure
                && (g <= c.max_gross_exposure
                    && (t <= c.max_sector_position
                        && (s <= c.max_symbol_position
                            && (in_session (pos intent.created_hour) c.allowed_session_windows_utc
                                && (contains (instrument intent) c.allowed_instruments
                                    && (notional_within intent quantity n
                                        && (quantity <= q && true)))))))))
    unfolding log_of
    is_empty-log_of s t g m k = simp is_empty-record_rule

    sound :
        (o1 o2 o3 o4 : Option F) (o5 : Option ℤ) (log : RuleLog)
        → read o1 o2 o3 o4 o5 ≡ some log
        → is_empty log.failure_reason_codes ≡ true
        → abs_param intent "symbol_position_after" ≡ o1
        → abs_param intent "sector_position_after" ≡ o2
        → abs_param intent "gross_exposure_after" ≡ o3
        → abs_param intent "net_exposure_after" ≡ o4
        → to_int (get_or "trades_last_minute" (int (pos 0)) intent.params) ≡ o5
        → KeepsLimits c q n intent quantity
    unfolding read
    sound (some s) (some t) (some g) (some m) (some k) log h e h1 h2 h3 h4 h5 = record {
      size = ground (arith, is_empty-log_of s t g m k);
      notional =
          (notional_within_iff intent quantity n intent.limit_price refl).0
            (ground (arith, is_empty-log_of s t g m k));
      allowed = ground (arith, is_empty-log_of s t g m k);
      session = ground (arith, is_empty-log_of s t g m k);
      symbol_position = (s, h1, ground (arith, is_empty-log_of s t g m k));
      sector_position = (t, h2, ground (arith, is_empty-log_of s t g m k));
      gross = (g, h3, ground (arith, is_empty-log_of s t g m k));
      net = (m, h4, ground (arith, is_empty-log_of s t g m k));
      trades = (k, h5, ground (arith, is_empty-log_of s t g m k));
    }
    sound _ _ _ _ _ log h e h1 h2 h3 h4 h5 = cc

    complete :
        (k : KeepsLimits c q n intent quantity)
        → order_rules c q n intent quantity
          ≡ some (log_of k.symbol_position.0 k.sector_position.0 k.gross.0 k.net.0 k.trades.0)
    unfolding read
    complete k =
        rw
          (
            order_rules-eq-read, k.symbol_position.1, k.sector_position.1, k.gross.1, k.net.1,
            k.trades.1,
          )
          refl

    complete_clear :
        (k : KeepsLimits c q n intent quantity)
        → is_empty
            (log_of k.symbol_position.0 k.sector_position.0 k.gross.0 k.net.0
              k.trades.0).failure_reason_codes
          ≡ true
    complete_clear k =
        rw
          (
            is_empty-log_of,
            (notional_within_iff intent quantity n intent.limit_price refl).1 k.notional,
            k.size,
            k.allowed,
            k.session,
            k.symbol_position.2,
            k.sector_position.2,
            k.gross.2,
            k.net.2,
            k.trades.2,
          )
          refl

    pub order_rules_clear :
        ((log : RuleLog) × (order_rules c q n intent quantity ≡ some log)
          × (is_empty log.failure_reason_codes ≡ true))
        ↔ KeepsLimits c q n intent quantity
    order_rules_clear = (
      λ (log, h, e). sound _ _ _ _ _ log (rw order_rules-eq-read at h) e refl refl refl refl refl,
      λ k. (_, complete k, complete_clear k),
    )
