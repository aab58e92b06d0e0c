-- ===== src/Strategy/Events.antt =====
-- The events, records and the runner of
-- services/service-inference-live/src/service_inference_live/strategy_runner.py and
-- libs/py/gb_core/src/gb_core/event_schemas.py. Identifiers and instants are numbers.
use gooberberg_terminal.Prelude.{ℕ, String, Bool, List}

-- `round(x, 5)`, and the text of an identifier.
pub record Runtime (F : Type 0) : Type 0 where
  pub round_5 : F → F
  pub show_id : ℕ → String

-- What `uuid4` and `utc_now` return during one run.
pub record Stamps : Type 0 where
  pub signal_id : ℕ
  pub signal_time : ℕ
  pub decision_id : ℕ
  pub decision_time : ℕ

pub record MarketDataEvent (F : Type 0) : Type 0 where
  pub trace_id : ℕ
  pub schema_version : String
  pub event_time : ℕ
  pub ingest_time : ℕ
  pub symbol : String
  pub bid : F
  pub ask : F
  pub last : F
  pub volume : F

-- The keys of `features`.
pub record Features (F : Type 0) : Type 0 where
  pub spread : F
  pub mid : F
  pub momentum : F
  pub liquidity : F

pub record SignalEvent (F : Type 0) : Type 0 where
  pub event_id : ℕ
  pub trace_id : ℕ
  pub schema_version : String
  pub event_time : ℕ
  pub ingest_time : ℕ
  pub process_time : ℕ
  pub producer : String
  pub strategy_version : String
  pub config_hash : String
  pub run_id : String
  pub strategy_id : String
  pub signal_name : String
  pub symbol : String
  pub strength : F
  pub features : Features F

-- The keys of `rationale_metadata`.
pub record RationalePayload (F : Type 0) : Type 0 where
  pub signal_strength : F
  pub threshold : F
  pub signal_name : String

pub record DecisionEvent (F : Type 0) : Type 0 where
  pub event_id : ℕ
  pub trace_id : ℕ
  pub schema_version : String
  pub event_time : ℕ
  pub ingest_time : ℕ
  pub process_time : ℕ
  pub producer : String
  pub strategy_version : String
  pub config_hash : String
  pub run_id : String
  pub strategy_id : String
  pub decision : String
  pub symbol : String
  pub rationale : String
  pub go_no_go : Bool
  pub reasons : List String
  pub confidence : F
  pub feature_snapshot_ref : String
  pub rationale_kind : String
  pub rationale_metadata : RationalePayload F

pub record RationaleMetadata (F : Type 0) : Type 0 where
  pub decision_event_id : ℕ
  pub trace_id : ℕ
  pub strategy_version : String
  pub config_hash : String
  pub rationale_kind : String
  pub rationale_payload : RationalePayload F
  pub feature_snapshot : Features F

-- The runner, with the records of its store.
pub record StrategyRunner (F : Type 0) : Type 0 where
  pub producer : String
  pub strategy_version : String
  pub config_hash : String
  pub run_id : String
  pub strategy_id : String
  pub records : List (RationaleMetadata F)
