-- ===== src/Execution/Orders.antt =====
-- The orders, market events and results of services/service-risk-exec/src/service_risk_exec/main.py.
use gooberberg_terminal.Prelude.{String, Bool, Option}
use gooberberg_terminal.Prelude.Int.{ℤ}

pub data OrderState : Type 0 where
  created sent acknowledged partially_filled filled canceled expired : OrderState

pub record MarketEvent (F : Type 0) : Type 0 where
  pub symbol : String
  pub displayed_qty : F
  pub venue_id : String
  pub book_level : ℤ
  pub queue_estimate : F
  pub traded_qty_at_level : F
  pub canceled_qty_at_level : F
  pub observed_spread : Option F

pub record OrderRequest (F : Type 0) : Type 0 where
  pub symbol : String
  pub qty : F
  pub aggressive : Bool
  pub participation : F
  pub parent_order_id : Option String
  pub child_order_id : Option String
  pub schedule_start_ts : Option F
  pub schedule_end_ts : Option F
  pub min_slice_qty : F
  pub anti_gaming_cooldown_ms : F

pub record FillResult (F : Type 0) : Type 0 where
  pub fill_qty : F
  pub state : OrderState
  pub fee_amt : F
  pub spread_cost : F
  pub impact_cost : F
  pub delay_cost : F
  pub venue_id : String
  pub book_level : ℤ
  pub queue_remaining : F
  pub implementation_shortfall : F
  pub timing_cost : F
  pub spread_capture : F
