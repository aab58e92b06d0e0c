-- ===== src/Backtests/Create.antt =====
-- `create_backtest_run`, apps/api-control-plane/app/api/routers/backtest_runs.py.
use gooberberg_terminal.Prelude.{
  ℕ, String, Bool, true, false, not, Option, none, some, List, [], ◌∷◌, ◌++◌, nat_eq, string_eq,
  if◌then◌else◌, is_some,
}
use gooberberg_terminal.Prelude.Dict.{Dict, lookup, insert}
use gooberberg_terminal.Prelude.Float.{Float, nought}
use gooberberg_terminal.Prelude.Int.{ℤ}
use gooberberg_terminal.Prelude.Texts.{strip, is_empty_text}
use gooberberg_terminal.Prelude.Value.{Value, null, int, text, obj, Fields, end, Builtins, get, put}
use gooberberg_terminal.Datasets.Metadata.{ModelSpec, resolve_dataset_compatibility}
use gooberberg_terminal.Datasets.Compatibility.{
  Incompatibility, validate_model_dataset_compatibility,
}
use gooberberg_terminal.Jobs.Store.{
  queued, JobEnvelope, JobLifecycleEvent, Run, ControlPlane, upsert, persist_event,
  broadcast_job_event,
}
use gooberberg_terminal.Backtests.Lineage.{LineageSpec, LineageReference, resolve_lineage_spec}
use gooberberg_terminal.Backtests.Checks.{
  RunBasis, LeakageSummary, run_leakage_checks, validate_confirmation_token,
}

-- `BacktestRunCreateRequest`, without what is only stored.
pub record BacktestRunCreateRequest (F : Type 0) : Type 0 where
  pub lineage : Option LineageSpec
  pub lineage_ref : Option LineageReference
  pub basis : RunBasis F
  pub random_seed : ℤ
  pub confirmation_token : Option String

pub record Dataset (F : Type 0) : Type 0 where
  pub metadata : Fields F
  pub timeframe : Option String

-- What the handler looks up: the family of a model configuration, datasets, and model families.
pub record Services (F : Type 0) : Type 0 where
  pub model_configs : Dict ℕ String
  pub datasets : Dict String (Dataset F)
  pub model_registry : Dict String (ModelSpec F)

-- The columns of `BacktestRunRow`, and the keywords by which the handler makes one.
abbrev pub backtest_columns : List String
backtest_columns =
    "id" ∷ "job_id" ∷ "strategy_key" ∷ "model_config_id" ∷ "window_start" ∷ "window_end"
    ∷ "parameters" ∷ "deterministic_mode" ∷ "scenario_id" ∷ "status" ∷ "git_sha" ∷ "config_hash"
    ∷ "data_snapshot_id" ∷ "random_seed" ∷ "engine_version" ∷ "feature_set_version" ∷ "timezone"
    ∷ "calendar_id" ∷ "resolved_config" ∷ "environment_fingerprint" ∷ "run_checksum"
    ∷ "lineage_version" ∷ "dataset_fingerprint" ∷ "code_hash" ∷ "config_digest" ∷ "seed"
    ∷ "lineage_status" ∷ "lineage_error_code" ∷ "created_at" ∷ []

abbrev pub run_keys : List String
run_keys =
    "id" ∷ "job_id" ∷ "strategy_key" ∷ "model_config_id" ∷ "window_start" ∷ "window_end"
    ∷ "parameters" ∷ "deterministic_mode" ∷ "scenario_id" ∷ "status" ∷ "git_sha" ∷ "config_hash"
    ∷ "data_snapshot_id" ∷ "random_seed" ∷ "engine_version" ∷ "feature_set_version" ∷ "timezone"
    ∷ "calendar_id" ∷ "resolved_config" ∷ "environment_fingerprint" ∷ "run_checksum" ∷ "seed"
    ∷ "created_at" ∷ "research_qa" ∷ []

-- What hashing and dumping give, whether the constructor of a mapped class with these columns takes
-- these keywords, and the identifiers and instants of the call.
pub record Runtime (F : Type 0) : Type 0 where
  pub digest : Fields F → String
  pub token_of : RunBasis F → ℕ → String
  pub config_hash : BacktestRunCreateRequest F → String
  pub run_checksum : BacktestRunCreateRequest F → String
  pub payload_of : BacktestRunCreateRequest F → LineageSpec → LeakageSummary → Fields F
  pub show_id : ℕ → String
  pub constructs : List String → List String → Bool
  pub run_id : ℕ
  pub job_id : ℕ
  pub trace_id : String
  pub now : ℕ

-- The answers with a status code of 4xx, and an exception.
pub data Refusal : Type 0 where
  lineage_invalid : Refusal
  leakage_detected : LeakageSummary → Refusal
  confirmation_required : Refusal
  model_config_not_found : Refusal
  dataset_required : Refusal
  dataset_not_found : Refusal
  incompatible : List Incompatibility → Refusal
  server_error : Refusal

-- The run that was created, by what is computed for it.
pub record BacktestRun : Type 0 where
  pub id : ℕ
  pub job_id : ℕ
  pub config_hash : String
  pub run_checksum : String

-- The run, a refusal, or the exception of the constructor of its row.
pub data CreateReply : Type 0 where
  created : BacktestRun → CreateReply
  refused : Refusal → CreateReply
  row_rejected : CreateReply

abbrev pub judge_errors : Option (List Incompatibility) → Option Refusal
judge_errors none = some server_error
judge_errors (some []) = none
judge_errors (some (e ∷ errors)) = some (incompatible (e ∷ errors))

module _ {F : Type 0} where
  abbrev pub metadata_of : Option (Value F) → Fields F
  metadata_of (some (obj fields)) = fields
  metadata_of _ = end

  -- The metadata of the run, with its seed unless one is given.
  abbrev pub seeded : ℤ → Fields F → Fields F
  unfolding get put
  seeded seed metadata =
      if is_some (get "seed" metadata) then metadata else put "seed" (int seed) metadata

  -- The request after the handler stored the metadata in its parameters.
  unfoldable pub with_metadata : BacktestRunCreateRequest F → BacktestRunCreateRequest F
  unfolding get put
  with_metadata request =
      let metadata =
        seeded request.random_seed (metadata_of (get "run_metadata" request.basis.parameters)) in
      record request {
        basis = record request.basis {
          parameters = put "run_metadata" (obj metadata) request.basis.parameters;
        };
      }

  abbrev pub id_value : (ℕ → String) → Option ℕ → Value F
  id_value show_id none = null
  id_value show_id (some id) = text (show_id id)

  -- The row of the run, by the columns that other handlers read.
  abbrev pub run_of : Runtime F → BacktestRunCreateRequest F → Run F
  run_of rt request = record {
    status = queued;
    row = record {
      dataset_fingerprint = none;
      code_hash = none;
      config_digest = none;
      seed = some request.random_seed;
      random_seed = some request.random_seed;
      parameters = obj request.basis.parameters;
    };
    model_config_id = id_value rt.show_id request.basis.model_config_id;
    dataset_id = null;
  }

  abbrev pub add_run : ℕ → Run F → ControlPlane F → ControlPlane F
  add_run run_id run s = record s {
    runs = record s.runs { backtest = insert run_id run s.runs.backtest };
  }

  -- `parameters.get("dataset_id")` where it is a text and not blank.
  abbrev pub dataset_id_of : Option (Value F) → Option String
  dataset_id_of (some (text id)) = if is_empty_text (strip id) then none else some id
  dataset_id_of _ = none

module _ {F : Type 0} ⦃d : Float F⦄ where
  -- `compatibility_errors` of the family and the dataset; `none` is an exception, also for a family
  -- that is not registered.
  unfoldable pub errors_between : Option (ModelSpec F) → Dataset F → Option (List Incompatibility)
  unfolding validate_model_dataset_compatibility resolve_dataset_compatibility
  errors_between none dataset = none
  errors_between (some spec) dataset =
      validate_model_dataset_compatibility spec
        (resolve_dataset_compatibility dataset.metadata dataset.timeframe)

  abbrev pub check_dataset : Services F → String → Option (Dataset F) → Option Refusal
  check_dataset services family none = some dataset_not_found
  check_dataset services family (some dataset) =
      judge_errors (errors_between (lookup family services.model_registry) dataset)

  abbrev pub check_dataset_id : Services F → String → Option String → Option Refusal
  check_dataset_id services family none = some dataset_required
  check_dataset_id services family (some id) =
      check_dataset services family (lookup id services.datasets)

  abbrev pub check_family : Services F → Fields F → Option String → Option Refusal
  check_family services parameters none = some model_config_not_found
  check_family services parameters (some family) =
      check_dataset_id services family (dataset_id_of (get "dataset_id" parameters))

  -- The checks of a run with a model configuration: what refuses it, if anything does.
  unfoldable pub check_model : Services F → RunBasis F → Option Refusal
  unfolding lookup get strip errors_between
  check_model services basis = elim basis.model_config_id [
    | none ↦ none
    | some id ↦ check_family services basis.parameters (lookup id services.model_configs)
  ]

module _ {F : Type 0} ⦃d : Float F⦄ ⦃b : Builtins F⦄ where
  -- The rest of the handler, for a request that passed the checks; a keyword that is no column is an
  -- exception before anything is stored.
  unfoldable pub accept :
      Runtime F
      → BacktestRunCreateRequest F
      → LineageSpec
      → LeakageSummary
      → ControlPlane F
      → CreateReply × ControlPlane F
  unfolding with_metadata upsert persist_event broadcast_job_event
  accept rt given lineage summary s =
      let request = with_metadata given in
      let run : BacktestRun = record {
        id = rt.run_id;
        job_id = rt.job_id;
        config_hash = rt.config_hash request;
        run_checksum = rt.run_checksum request;
      } in
      let envelope : JobEnvelope F = record {
        job_id = rt.job_id;
        trace_id = rt.trace_id;
        job_type = "backtest";
        payload = rt.payload_of request lineage summary;
        run_id = some rt.run_id;
        run_type = some "backtest";
        queued_at = rt.now;
      } in
      let event : JobLifecycleEvent F = record {
        job_id = rt.job_id;
        trace_id = rt.trace_id;
        status = queued;
        run_id = some rt.run_id;
        run_type = some "backtest";
        progress_pct = nought;
        message = "queued";
        result_ref = none;
        updated_at = rt.now;
      } in
      let kept = persist_event event (upsert event (add_run rt.run_id (run_of rt request) s)) in
      if rt.constructs backtest_columns run_keys
      then (
        created run,
        broadcast_job_event event (record kept { queue = kept.queue ++ (envelope ∷ []) }),
      )
      else (row_rejected, s)

  -- The refusal of a request by its checks after those of the lineage, if any.
  unfoldable pub refusal_of : Runtime F → Services F → BacktestRunCreateRequest F → Option Refusal
  unfolding run_leakage_checks validate_confirmation_token check_model
  refusal_of rt services request =
      let summary = run_leakage_checks request.basis.parameters in
      let confirmed =
        validate_confirmation_token rt.token_of request.basis request.confirmation_token in
      let rest = check_model services request.basis in
      if not summary.is_valid then some (leakage_detected summary) else elim confirmed [
        | none ↦ some server_error
        | some false ↦ some confirmation_required
        | some true ↦ rest
      ]

  unfoldable pub create_backtest_run :
      Runtime F
      → Services F
      → BacktestRunCreateRequest F
      → ControlPlane F
      → CreateReply × ControlPlane F
  unfolding resolve_lineage_spec refusal_of accept
  create_backtest_run rt services request s =
      elim (resolve_lineage_spec rt.digest request.lineage request.lineage_ref
        request.basis.parameters) [
          | none ↦ (refused lineage_invalid, s)
          | some lineage ↦ elim (refusal_of rt services request) [
            | some refusal ↦ (refused refusal, s)
            | none ↦ accept rt request lineage (run_leakage_checks request.basis.parameters) s
          ]
        ]
