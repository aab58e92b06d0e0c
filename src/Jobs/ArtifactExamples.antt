-- ===== src/Jobs/ArtifactExamples.antt =====
-- Runs and witnesses for the artifact summaries of
-- apps/api-control-plane/app/persistence/repositories.py.
use gooberberg_terminal.Prelude.{
  ℕ, ◌+◌, ◌<◌, String, Option, none, some, List, [], ◌∷◌, ◌≡◌, refl, nat_eq, string_eq, head?,
  get_elem?, length, map, All, All-imp, arith,
}
use gooberberg_terminal.Prelude.Dict.{lookup, insert}
use gooberberg_terminal.Prelude.Int.{ℤ, pos}
use gooberberg_terminal.Prelude.Sorting.{sort_by}
use gooberberg_terminal.Prelude.Texts.{strip, lstrip, rstrip}
use gooberberg_terminal.Prelude.Whole.{int_float, int_builtins}
use gooberberg_terminal.Prelude.Value.{null, int, text, num, obj, field, end, get, put}
use gooberberg_terminal.Jobs.Store.{
  failed, JobLifecycleEvent, find_event, upsert, persist_event, broadcast_job_event, record_event,
  update_status,
}
use gooberberg_terminal.Jobs.Router.{replied, server_error, JobLifecycleUpdateRequest, sync_run}
use gooberberg_terminal.Jobs.Updates.{updated_event, publish_job_event, publish_known, after_gate}
use gooberberg_terminal.Jobs.Constraints.{
  RunConstraints, Schema, are_unique, extract_constraints_from_parameters, resolve_slippage_bps,
  apply_constraints_to_metrics,
}
use gooberberg_terminal.Jobs.Completion.{
  ArtifactUpdate, Storage, Clock, Outcome, row_parameters, response_of, resolve_run_constraints,
  summary_of, publish_and_store,
}
use gooberberg_terminal.Jobs.Completed.{IsStored, publish_and_store-IsStored}
use gooberberg_terminal.Jobs.Examples.{call, event, plane, finished}
use gooberberg_terminal.Prelude.Pairs.{Any}
use gooberberg_terminal.Jobs.Artifacts.{
  RunArtifact, Summary, Database, day, add_summary, prune_old_intermediates, best_metric,
  to_summary, list_for_job, get_for_job,
}
use gooberberg_terminal.Jobs.Stored.{IsDatabase, IsSound}
use gooberberg_terminal.Jobs.Repeated.{listed_ids, add_summary-listed_ids}
use gooberberg_terminal.Jobs.Reached.{Reaches, start, adds, Reaches-IsSound}

-- More than the identifier of each row.
abbrev above : List (RunArtifact ℤ) → ℕ
above [] = 1
above (r ∷ rows) = r.id + above rows

abbrev database : Database ℤ
database = record { sha256 = λ s. "sha256 of a text"; first = head?; fresh_id = above }

above_lem : (rows : List (RunArtifact ℤ)) → (0 < above rows) × All (λ r. r.id < above rows) rows
above_lem [] = (omega arith, tt)
above_lem (r ∷ rows) =
    let (some_room, rest) = above_lem rows in
    (
      omega arith,
      (
        omega (arith, some_room),
        All-imp (λ x. x.id < above rows) (λ x. x.id < r.id + above rows) rows
            (λ x h. omega (arith, h)) rest,
      ),
    )

head_lem :
    (rows : List (RunArtifact ℤ)) (r : RunArtifact ℤ)
    → head? rows ≡ some r
    → get_elem? rows 0 ≡ some r
head_lem [] r e = cc
head_lem (x ∷ rows) r e = e

empty_lem : (rows : List (RunArtifact ℤ)) → head? rows ≡ none → rows ≡ []
empty_lem [] e = refl
empty_lem (x ∷ rows) e = cc

database-IsDatabase : IsDatabase database
database-IsDatabase = record {
  chosen = λ rows r e. (0, head_lem rows r e);
  complete = empty_lem;
  fresh = λ rows.
      All-imp (λ r. r.id < above rows) _ rows (λ r h e. omega (arith, h, e)) (above_lem rows).1;
}

abbrev summary : ℕ → Option String → String → Summary ℤ
summary run_id checksum artifact_ref = record {
  run_id = run_id;
  run_type = "training";
  job_id = 1;
  artifact_ref = artifact_ref;
  checksum = checksum;
  size_bytes = none;
  metrics = field "loss" (int (pos 3)) (field "f1" (int (pos 2)) end);
  notes = none;
  retention_class = "intermediate";
}

abbrev rows : List (RunArtifact ℤ)
rows =
    add_summary database 20 (summary 7 (some " abc12345") "s3://b")
      (add_summary database 10 (summary 5 (some "abc12345") "s3://a") [])

rows-reached : Reaches database rows
rows-reached = adds 20 _ (adds 10 _ start)

Reaches-IsSound_example : IsSound rows
Reaches-IsSound_example = Reaches-IsSound database rows database-IsDatabase rows-reached

-- The second run shares the artifact of the first; a repeated summary makes no row; the period keeps
-- and then ends what was accessed.
artifacts_test :
    (map (λ r. r.artifact_ref) rows ≡ "s3://a" ∷ "s3://a" ∷ [])
    × (length (add_summary database 30 (summary 7 (some "abc12345") "s3://c") rows) ≡ 2)
    × (map (λ s. s.row.run_id) (list_for_job 1 rows) ≡ 7 ∷ 5 ∷ [])
    × (map (λ s. s.best_metric) (list_for_job 1 rows) ≡ some (pos 2) ∷ some (pos 2) ∷ [])
    × ((prune_old_intermediates (day + 20) 0 rows).0 ≡ 1)
    × ((prune_old_intermediates (day + 20) 0 (get_for_job database 15 1 1 rows).1).0 ≡ 1)
    × ((prune_old_intermediates (day + 20) 0 (get_for_job database 20 1 1 rows).1).0 ≡ 0)
unfolding add_summary strip lstrip rstrip list_for_job sort_by to_summary best_metric get
    prune_old_intermediates get_for_job
artifacts_test = (refl, refl, refl, refl, refl, refl, refl)

-- The second job of run 7 reports the artifact that the first one stored.
abbrev repeated : Summary ℤ
repeated = record (summary 7 (some "abc12345") "s3://c") { job_id = 2 }

add_summary-listed_ids_example :
    listed_ids 2 (add_summary database 30 repeated rows) ≡ listed_ids 2 rows
unfolding strip lstrip rstrip add_summary
add_summary-listed_ids_example =
    add_summary-listed_ids database 30 repeated rows 2 database-IsDatabase refl

repeated_test : listed_ids 2 (add_summary database 30 repeated rows) ≡ []
unfolding add_summary strip lstrip rstrip list_for_job sort_by to_summary best_metric get
repeated_test = refl

abbrev constraints : RunConstraints ℤ
constraints = record {
  transaction_cost = record { bps = pos 10000; per_contract_fee = pos 0 };
  slippage_buckets =
      record { liquidity_bucket = "low"; volatility_bucket = "high"; slippage_bps = pos 20000 }
      ∷ record { liquidity_bucket = "high"; volatility_bucket = "low"; slippage_bps = pos 30000 }
      ∷ [];
  signal_to_fill_lag_steps = 0;
  limits = record { max_turnover = some (pos 5); max_position_abs = none; leverage_cap = none };
}

abbrev schema : Schema ℤ
schema = record { read = λ raw. some constraints; dump = λ k. null }

abbrev storage : Storage ℤ
storage = record { database = database; schema = schema; retention_days = 30 }

-- A job that fails with a result.
abbrev failing : JobLifecycleUpdateRequest ℤ
failing = record finished { status = failed; result_ref = some "s3://a" }

abbrev details : ArtifactUpdate ℤ
details = record {
  metrics = field "objective_raw" (int (pos 9)) end;
  notes = none;
  artifact_checksum = some "abc12345";
  artifact_size_bytes = some 10;
  artifact_retention_class = "intermediate";
}

abbrev failed_event : JobLifecycleEvent ℤ
failed_event = updated_event call 1 failing event

abbrev outcome : Outcome
outcome = record { run_id = 5; run_type = "training"; result_ref = "s3://a" }

failing_answer : (publish_job_event call 1 failing plane).0 ≡ replied failed_event
unfolding publish_job_event publish_known after_gate find_event lookup
failing_answer = refl

failing_constraints :
    resolve_run_constraints schema outcome (publish_job_event call 1 failing plane).1.runs
    ≡ some none
unfolding resolve_run_constraints row_parameters extract_constraints_from_parameters
    publish_job_event publish_known after_gate find_event record_event sync_run update_status upsert
    persist_event broadcast_job_event lookup insert get
failing_constraints = refl

-- The retention reads the clock after the summary.
abbrev clock : Clock
clock = record { stored_at = 51; pruned_at = 53 }

publish_and_store-IsStored_example :
    let (reply, s'', rows') = publish_and_store storage clock call 1 failing details plane rows in
    (reply ≡ response_of failed_event)
    × (s'' ≡ (publish_job_event call 1 failing plane).1)
    × Any (IsStored database 51 (summary_of storage 1 outcome details none)) rows'
publish_and_store-IsStored_example =
    publish_and_store-IsStored storage clock call 1 failing details plane rows failed_event outcome
      none database-IsDatabase (omega arith) failing_answer refl failing_constraints

-- A testing run has constraints too, but the response for its job raises.
testing_test :
    (resolve_run_constraints schema
        (record outcome { run_type = "testing" })
        (record plane.runs {
          testing =
              (5, obj (field "run_metadata" (obj (field "constraints" (obj end) end)) end)) ∷ [];
        })
      ≡ some (some constraints))
    × (response_of (record failed_event { run_type = some "testing" }) ≡ server_error)
unfolding resolve_run_constraints row_parameters extract_constraints_from_parameters are_unique
    response_of lookup get
testing_test = (refl, refl)

-- The bucket of the metrics, the first one where there is none, and the objective under the penalty.
constraints_test :
    (resolve_slippage_bps
        (field "liquidity_bucket" (text "high") (field "volatility_bucket" (text "low") end))
        constraints
      ≡ pos 30000)
    × (resolve_slippage_bps end constraints ≡ pos 20000)
    × (get "objective_constrained"
          (apply_constraints_to_metrics schema details.metrics (some constraints))
        ≡ some (num (pos 6)))
    × (extract_constraints_from_parameters schema
          (field "run_metadata" (obj (field "constraints" (obj end) end)) end)
        ≡ some (some constraints))
unfolding resolve_slippage_bps apply_constraints_to_metrics extract_constraints_from_parameters
    are_unique get put
constraints_test = (refl, refl, refl, refl)
