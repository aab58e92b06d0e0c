-- ===== src/Jobs/Updates.antt =====
-- `publish_job_event` of apps/api-control-plane/app/api/routers/jobs.py, up to the artifact summaries, which Completion adds.
use gooberberg_terminal.Prelude.{
  ℕ, String, Bool, true, false, ◌&&◌, ◌||◌, Option, none, some, nat_eq, string_eq, ◌==◌,
  if◌then◌else◌,
}
use gooberberg_terminal.Prelude.Float.{Float}
use gooberberg_terminal.Prelude.Dict.{lookup}
use gooberberg_terminal.Prelude.Value.{Builtins}
use gooberberg_terminal.SuccessGate.Checks.{
  GateFailure, lineage_missing, lineage_inconsistent, runtime_mismatch,
  final_candidate_metadata_missing, artifact_manifest_missing, artifact_hash_invalid,
  artifact_size_invalid, seed_missing, seed_inconsistent,
}
use gooberberg_terminal.SuccessGate.Gate.{Outcome, evaluate_success_gate}
use gooberberg_terminal.Jobs.Store.{
  JobStatus, success, failed, JobLifecycleEvent, Run, ControlPlane, table_of, find_event,
  record_event,
}
use gooberberg_terminal.Jobs.Router.{
  Reply, replied, not_found, server_error, Call, JobLifecycleUpdateRequest, sync_run,
}

-- The `remediation` of a failure.
abbrev pub remediation : GateFailure → String
remediation (lineage_missing keys) =
    "Include complete lineage payload from the worker completion event."
remediation (lineage_inconsistent key) =
    "Regenerate lineage from the same immutable inputs used when scheduling the run."
remediation (runtime_mismatch keys) =
    "Either align runtime-observed values with expectations or publish mismatch_policy=allow/warn."
remediation (final_candidate_metadata_missing keys) =
    "Populate run_metadata with the governance-required metadata fields before final candidate promotion."
remediation (artifact_manifest_missing roles) =
    "Publish a complete artifact_manifest with every mandatory artifact role."
remediation (artifact_hash_invalid role) =
    "Populate each mandatory manifest item with a valid sha256 hash."
remediation (artifact_size_invalid role) =
    "Ensure artifact sizes are recorded after upload and are greater than zero."
remediation seed_missing =
    "Propagate the deterministic seed through scheduling payload, run row seed column, and run_metadata.seed."
remediation seed_inconsistent =
    "Use a single seed source of truth and copy it to all required locations."

abbrev pub is_success : JobStatus → Bool
is_success success = true
is_success _ = false

-- `a or b` of two optional fields.
abbrev pub given_or : {A : Type 0} → Option A → Option A → Option A
given_or (some a) o = some a
given_or none o = o

module _ {F : Type 0} ⦃d : Float F⦄ ⦃b : Builtins F⦄ where
  -- The event that the worker's update makes of the known one.
  abbrev pub updated_event :
      Call F → ℕ → JobLifecycleUpdateRequest F → JobLifecycleEvent F → JobLifecycleEvent F
  updated_event c job_id u existing = record {
    job_id = job_id;
    trace_id = existing.trace_id;
    status = u.status;
    run_id = given_or u.run_id existing.run_id;
    run_type = given_or u.run_type existing.run_type;
    progress_pct = u.progress_pct;
    message = u.message;
    result_ref = u.result_ref;
    updated_at = c.now;
  }

  abbrev pub failed_event : Call F → GateFailure → JobLifecycleEvent F → JobLifecycleEvent F
  failed_event c failure e = record e {
    status = failed;
    message = remediation failure;
    updated_at = c.now;
  }

  -- The run that the gate has to judge, with its type: that of a success of a training or a backtest
  -- which is in its table.
  abbrev pub judged_run : JobLifecycleEvent F → ControlPlane F → Option (String × Run F)
  judged_run e s = elim e.run_id [
    | none ↦ none
    | some run_id ↦ elim e.run_type [
      | none ↦ none
      | some run_type ↦
          if is_success e.status && (run_type == "training" || run_type == "backtest")
          then (elim (lookup run_id (table_of run_type s.runs)) [
            | none ↦ none
            | some run ↦ some (run_type, run)
          ])
          else none
    ]
  ]

  abbrev pub judge : Call F → JobLifecycleUpdateRequest F → Option (String × Run F) → Outcome
  judge c u none = some none
  judge c u (some (run_type, run)) =
      evaluate_success_gate c.language c.role_order run_type run.row u.gate

  -- What follows the gate: an exception, the status of the event, or a failure in its place.
  unfoldable pub after_gate :
      Call F
      → JobLifecycleEvent F
      → Outcome
      → ControlPlane F
      → Reply (JobLifecycleEvent F) × ControlPlane F
  unfolding record_event sync_run
  after_gate c e none s = (server_error, s)
  after_gate c e (some none) s = (replied e, sync_run e e.status s)
  after_gate c e (some (some failure)) s =
      let e' = failed_event c failure e in (replied e', sync_run e' failed (record_event e' s))

  unfoldable pub publish_known :
      Call F
      → ℕ
      → JobLifecycleUpdateRequest F
      → Option (JobLifecycleEvent F)
      → ControlPlane F
      → Reply (JobLifecycleEvent F) × ControlPlane F
  unfolding after_gate
  publish_known c job_id u none s = (not_found, s)
  publish_known c job_id u (some existing) s =
      let e = updated_event c job_id u existing in
      let recorded = record_event e s in after_gate c e (judge c u (judged_run e recorded)) recorded

  -- `publish_job_event`
  unfoldable pub publish_job_event :
      Call F
      → ℕ
      → JobLifecycleUpdateRequest F
      → ControlPlane F
      → Reply (JobLifecycleEvent F) × ControlPlane F
  unfolding publish_known find_event
  publish_job_event c job_id u s = publish_known c job_id u (find_event job_id s) s
