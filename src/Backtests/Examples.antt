-- ===== src/Backtests/Examples.antt =====
-- Runs and witnesses for apps/api-control-plane/app/domain/backtest_runs/service.py and
-- apps/api-control-plane/app/api/routers/backtest_runs.py.
use gooberberg_terminal.Prelude.{
  ℕ, String, true, false, Option, some, none, List, [], ◌∷◌, ◌≡◌, ◌↔◌, refl, nat_eq, string_eq, all,
  contains, arith,
}
use gooberberg_terminal.Prelude.Dict.{lookup}
use gooberberg_terminal.Prelude.Int.{ℤ, pos}
use gooberberg_terminal.Prelude.Whole.{int_float, int_builtins}
use gooberberg_terminal.Prelude.Texts.{lstrip, rstrip, strip}
use gooberberg_terminal.Prelude.Value.{text, int, obj, Fields, field, end, get, put}
use gooberberg_terminal.Datasets.Metadata.{
  other, resolve_dataset_compatibility, resolve_dataset_requirement, stripped,
}
use gooberberg_terminal.Datasets.Compatibility.{errors_for, validate_model_dataset_compatibility}
use gooberberg_terminal.Jobs.Store.{ControlPlane}
use gooberberg_terminal.Backtests.Lineage.{full_match, resolve_lineage_spec}
use gooberberg_terminal.Backtests.Checks.{
  RunBasis, SizeEstimate, run_leakage_checks, estimate_of, estimate_run_size,
  validate_confirmation_token,
}
use gooberberg_terminal.Backtests.Create.{
  BacktestRunCreateRequest, Services, Runtime, refused, confirmation_required, lineage_invalid,
  dataset_not_found, row_rejected, backtest_columns, run_keys, with_metadata, errors_between,
  check_model, accept, refusal_of, create_backtest_run,
}
use gooberberg_terminal.Backtests.Pages.{paginate}
use gooberberg_terminal.Backtests.Admitted.{
  is_created, reaches_row, IsAdmissible, Leaves, IsStrict, create_backtest_run_iff,
  create_backtest_run-creates_nothing,
}

abbrev runtime : Runtime ℤ
runtime = record {
  digest = λ config. "digest";
  token_of = λ basis units. "token";
  config_hash = λ request. "config";
  run_checksum = λ request. "checksum";
  payload_of = λ request lineage summary. request.basis.parameters;
  show_id = λ n. "id";
  constructs = λ columns keys. all (λ key. contains key columns) keys;
  run_id = 5;
  job_id = 6;
  trace_id = "t1";
  now = 100;
}

-- A constructor that takes every keyword.
abbrev lenient : Runtime ℤ
lenient = record runtime { constructs = λ columns keys. true }

runtime-IsStrict : IsStrict runtime.constructs
runtime-IsStrict columns [] e = tt
runtime-IsStrict columns (key ∷ keys) e = ground (arith, e, runtime-IsStrict columns keys)

abbrev services : Services ℤ
services = record {
  model_configs = (1, "arima") ∷ [];
  datasets =
      ("d1", record { metadata = end; timeframe = some "1d" })
      ∷ ("d2", record { metadata = field "data_kind" (text "image") end; timeframe = none })
      ∷ [];
  model_registry =
      (
        "arima",
        record {
          model_family = "arima";
          supported_data_kinds = "time_series" ∷ [];
          required_index = some "datetime";
          target_type = none;
          dataset_requirement = other;
        },
      )
      ∷ [];
}

abbrev parameters : String → Fields ℤ
parameters dataset_id = field "event_timestamp_field" (text "ts") (
    field "asof_timestamp_field" (text "ts")
      (field "symbol_count" (int (pos 100)) (field "dataset_id" (text dataset_id) end)))

abbrev basis : String → RunBasis ℤ
basis dataset_id = record {
  strategy_key = "momentum";
  model_config_id = some 1;
  window_start = record { day = pos 0; isoformat = "2026-01-01" };
  window_end = record { day = pos 30; isoformat = "2026-01-31" };
  parameters = parameters dataset_id;
}

abbrev request : String → Option String → BacktestRunCreateRequest ℤ
request dataset_id token = record {
  lineage = none;
  lineage_ref = some (record {
    dataset_fingerprint_hash = "0123456789abcdef0123456789abcdef0123456789abcdef0123456789abcdef";
    code_git_commit_sha = "0123456789abcdef0123456789abcdef01234567";
    code_dirty = false;
    seed = pos 7;
  });
  basis = basis dataset_id;
  random_seed = pos 7;
  confirmation_token = token;
}

abbrev plane : ControlPlane ℤ
plane = record {
  job_state_store = [];
  job_submission_store = [];
  persisted = [];
  queue = [];
  runs = record { training = []; parameter_sweep = []; backtest = []; testing = [] };
  broadcasts = [];
}

-- 100 symbols on 30 days need a token; a dataset has to be known and compatible.
create_test :
    (is_created (create_backtest_run lenient services (request "d1" (some "token")) plane).0 ≡ true)
    × ((create_backtest_run lenient services (request "d1" none) plane).0
        ≡ refused confirmation_required)
    × ((create_backtest_run lenient services (request "d3" (some "token")) plane).0
        ≡ refused dataset_not_found)
    × (is_created (create_backtest_run lenient services (request "d2" (some "token")) plane).0
        ≡ false)
    × ((create_backtest_run lenient services
          (record (request "d1" (some "token")) { lineage_ref = none })
          plane).0
        ≡ refused lineage_invalid)
    × ((create_backtest_run runtime services (request "d1" (some "token")) plane).0 ≡ row_rejected)
unfolding create_backtest_run resolve_lineage_spec full_match refusal_of run_leakage_checks
    validate_confirmation_token estimate_run_size estimate_of check_model errors_between lookup get
    strip lstrip rstrip stripped validate_model_dataset_compatibility errors_for
    resolve_dataset_compatibility resolve_dataset_requirement accept
create_test = (refl, refl, refl, refl, refl, refl)

-- With a constructor that takes columns only, a request that passes the checks reaches its row.
create_backtest_run_iff_example :
    let (reply, s') = create_backtest_run runtime services (request "d1" (some "token")) plane in
    ((reaches_row reply ≡ true) ↔ IsAdmissible runtime services (request "d1" (some "token")))
    × ((is_created reply ≡ true) ↔ (
        IsAdmissible runtime services (request "d1" (some "token"))
        × (runtime.constructs backtest_columns run_keys ≡ true)))
    × Leaves runtime plane s' reply
create_backtest_run_iff_example =
    create_backtest_run_iff runtime services (request "d1" (some "token")) plane

create_backtest_run-creates_nothing_example :
    let (reply, s') = create_backtest_run runtime services (request "d1" (some "token")) plane in
    (is_created reply ≡ false) × (s' ≡ plane)
create_backtest_run-creates_nothing_example =
    create_backtest_run-creates_nothing runtime services (request "d1" (some "token")) plane
      runtime-IsStrict

abbrev estimate : SizeEstimate
estimate = estimate_of runtime.token_of (basis "d1") (pos 100)

estimate_lem : estimate_run_size runtime.token_of (basis "d1") ≡ some estimate
unfolding estimate_run_size estimate_of get
estimate_lem = refl

-- The seed of the run goes into its metadata, unless one is there.
seed_test :
    ((with_metadata (request "d1" none)).basis.parameters
      ≡ put "run_metadata" (obj (field "seed" (int (pos 7)) end)) (parameters "d1"))
    × (get "run_metadata"
          (with_metadata (record (request "d1" none) {
            basis = record (basis "d1") {
              parameters = field "run_metadata" (obj (field "seed" (int (pos 8)) end)) end;
            };
          })).basis.parameters
        ≡ some (obj (field "seed" (int (pos 8)) end)))
unfolding with_metadata put get
seed_test = (refl, refl)

abbrev rows : List ℕ
rows = 1 ∷ 2 ∷ 3 ∷ 4 ∷ 5 ∷ []

page_test :
    ((paginate rows (pos 2) (pos 2)).items ≡ 3 ∷ 4 ∷ [])
    × ((paginate rows (pos 2) (pos 2)).next_offset ≡ some 4)
    × ((paginate rows (pos 4) (pos 0)).next_offset ≡ none)
unfolding paginate
page_test = (refl, refl, refl)
