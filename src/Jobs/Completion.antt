-- ===== src/Jobs/Completion.antt =====
-- The end of `publish_job_event` of apps/api-control-plane/app/api/routers/jobs.py, which stores a
-- summary of the artifact.
use gooberberg_terminal.Prelude.{
  ℕ, String, Bool, true, false, not, nat_eq, ◌&&◌, ◌||◌, Option, none, some, List, string_eq, ◌==◌,
  if◌then◌else◌,
}
use gooberberg_terminal.Prelude.Dict.{lookup}
use gooberberg_terminal.Prelude.Float.{Float}
use gooberberg_terminal.Prelude.Value.{Value, obj, Fields, end, Builtins}
use gooberberg_terminal.Jobs.Store.{
  JobStatus, success, failed, JobLifecycleEvent, Run, RunTables, ControlPlane,
}
use gooberberg_terminal.Jobs.Router.{Reply, replied, server_error, Call, JobLifecycleUpdateRequest}
use gooberberg_terminal.Jobs.Updates.{publish_job_event}
use gooberberg_terminal.Jobs.Artifacts.{
  RunArtifact, Summary, Database, add_summary, prune_old_intermediates,
}
use gooberberg_terminal.Jobs.Constraints.{
  RunConstraints, Schema, extract_constraints_from_parameters, apply_constraints_to_metrics,
}

-- The fields of a `JobLifecycleUpdateRequest` that only the summary reads.
pub record ArtifactUpdate (F : Type 0) : Type 0 where
  pub metrics : Fields F
  pub notes : Option String
  pub artifact_checksum : Option String
  pub artifact_size_bytes : Option ℕ
  pub artifact_retention_class : String

-- What is outside, and the setting `artifact_intermediate_retention_days`.
pub record Storage (F : Type 0) : Type 0 where
  pub database : Database F
  pub schema : Schema F
  pub retention_days : ℕ

-- The instants at which `add_summary` and the retention read the clock, after that of the event.
pub record Clock : Type 0 where
  pub stored_at : ℕ
  pub pruned_at : ℕ

-- The run, its type and the reference of an event that ends in `success` or `failed` and has them.
pub record Outcome : Type 0 where
  pub run_id : ℕ
  pub run_type : String
  pub result_ref : String

abbrev pub is_ended : JobStatus → Bool
is_ended success = true
is_ended failed = true
is_ended _ = false

module _ {F : Type 0} where
  abbrev pub outcome_of : JobLifecycleEvent F → Option Outcome
  outcome_of e = elim e.run_id [
    | none ↦ none
    | some run_id ↦ elim e.run_type [
      | none ↦ none
      | some run_type ↦ elim e.result_ref [
        | none ↦ none
        | some result_ref ↦
            if is_ended e.status && not (run_type == "") && not (result_ref == "")
            then some (record { run_id = run_id; run_type = run_type; result_ref = result_ref })
            else none
      ]
    ]
  ]

  -- `dict(row.parameters or {})`
  abbrev pub parameters_of : Value F → Fields F
  parameters_of (obj fields) = fields
  parameters_of _ = end

  abbrev pub constraints_of : Schema F → Option (Value F) → Option (Option (RunConstraints F))
  unfolding extract_constraints_from_parameters
  constraints_of schema none = some none
  constraints_of schema (some parameters) =
      extract_constraints_from_parameters schema (parameters_of parameters)

  abbrev pub run_parameters : Option (Run F) → Option (Value F)
  run_parameters none = none
  run_parameters (some run) = some run.row.parameters

  -- The parameters of the row of a run; a type that is not in the mapping has none.
  unfoldable pub row_parameters : Outcome → RunTables F → Option (Value F)
  unfolding lookup
  row_parameters o tables =
      if o.run_type == "training"
      then run_parameters (lookup o.run_id tables.training)
      else if o.run_type == "backtest"
      then run_parameters (lookup o.run_id tables.backtest)
      else if o.run_type == "testing"
      then lookup o.run_id tables.testing
      else none

  -- `_resolve_run_constraints`
  unfoldable pub resolve_run_constraints :
      Schema F → Outcome → RunTables F → Option (Option (RunConstraints F))
  unfolding extract_constraints_from_parameters row_parameters
  resolve_run_constraints schema o tables = constraints_of schema (row_parameters o tables)

  -- `JobStatusResponse(...)`, which raises for a type that `RunType` does not have.
  unfoldable pub response_of : JobLifecycleEvent F → Reply (JobLifecycleEvent F)
  response_of e = elim e.run_type [
    | none ↦ replied e
    | some run_type ↦
        if run_type == "training" || run_type == "parameter_sweep" || run_type == "backtest"
        then replied e
        else server_error
  ]

module _ {F : Type 0} ⦃d : Float F⦄ ⦃b : Builtins F⦄ where
  abbrev pub summary_of :
      Storage F → ℕ → Outcome → ArtifactUpdate F → Option (RunConstraints F) → Summary F
  unfolding apply_constraints_to_metrics
  summary_of storage job_id o u constraints = record {
    run_id = o.run_id;
    run_type = o.run_type;
    job_id = job_id;
    artifact_ref = o.result_ref;
    checksum = u.artifact_checksum;
    size_bytes = u.artifact_size_bytes;
    metrics = apply_constraints_to_metrics storage.schema u.metrics constraints;
    notes = u.notes;
    retention_class = u.artifact_retention_class;
  }

  -- The rows after the summary, and the retention at its own instant.
  unfoldable pub store_summary :
      Storage F → Clock → Summary F → List (RunArtifact F) → List (RunArtifact F)
  unfolding add_summary prune_old_intermediates
  store_summary storage clock summary rows =
      (prune_old_intermediates clock.pruned_at storage.retention_days
        (add_summary storage.database clock.stored_at summary rows)).1

  abbrev pub store_constrained :
      Storage F
      → Clock
      → ℕ
      → ArtifactUpdate F
      → JobLifecycleEvent F
      → Outcome
      → Option (Option (RunConstraints F))
      → List (RunArtifact F)
      → Reply (JobLifecycleEvent F) × List (RunArtifact F)
  unfolding store_summary apply_constraints_to_metrics response_of
  store_constrained storage clock job_id u e o none rows = (server_error, rows)
  store_constrained storage clock job_id u e o (some constraints) rows =
      (response_of e, store_summary storage clock (summary_of storage job_id o u constraints) rows)

  -- What follows the gate and the status of the run, for an event with an outcome or without.
  abbrev pub store_outcome :
      Storage F
      → Clock
      → ℕ
      → ArtifactUpdate F
      → JobLifecycleEvent F
      → Option Outcome
      → ControlPlane F
      → List (RunArtifact F)
      → Reply (JobLifecycleEvent F) × List (RunArtifact F)
  unfolding resolve_run_constraints store_summary apply_constraints_to_metrics response_of
  store_outcome storage clock job_id u e none s rows = (response_of e, rows)
  store_outcome storage clock job_id u e (some o) s rows =
      store_constrained storage clock job_id u e o (resolve_run_constraints storage.schema o s.runs)
        rows

  abbrev pub complete :
      Storage F
      → Clock
      → ℕ
      → ArtifactUpdate F
      → Reply (JobLifecycleEvent F)
      → ControlPlane F
      → List (RunArtifact F)
      → Reply (JobLifecycleEvent F) × ControlPlane F × List (RunArtifact F)
  unfolding resolve_run_constraints store_summary apply_constraints_to_metrics response_of
  complete storage clock job_id u (replied e) s rows =
      let (answer, rows') = store_outcome storage clock job_id u e (outcome_of e) s rows in
      (answer, s, rows')
  complete storage clock job_id u other s rows = (other, s, rows)

  -- `publish_job_event`, with the table of artifact summaries.
  unfoldable pub publish_and_store :
      Storage F
      → Clock
      → Call F
      → ℕ
      → JobLifecycleUpdateRequest F
      → ArtifactUpdate F
      → ControlPlane F
      → List (RunArtifact F)
      → Reply (JobLifecycleEvent F) × ControlPlane F × List (RunArtifact F)
  unfolding publish_job_event resolve_run_constraints store_summary apply_constraints_to_metrics
      response_of
  publish_and_store storage clock c job_id update u s rows =
      let (reply, s') = publish_job_event c job_id update s in
      complete storage clock job_id u reply s' rows
