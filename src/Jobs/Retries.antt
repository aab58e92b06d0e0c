-- ===== src/Jobs/Retries.antt =====
-- `retry_job` of apps/api-control-plane/app/api/routers/jobs.py.
use gooberberg_terminal.Prelude.{
  ℕ, Option, none, some, nat_eq, string_eq, option_eq, ◌==◌, contains, if◌then◌else◌,
}
use gooberberg_terminal.Prelude.Float.{Float}
use gooberberg_terminal.Prelude.Dict.{lookup}
use gooberberg_terminal.Prelude.Value.{text, obj, field, end, Builtins}
use gooberberg_terminal.SuccessGate.Checks.{dict_or_empty}
use gooberberg_terminal.Jobs.Store.{
  queued, is_retryable, JobEnvelope, JobLifecycleEvent, ControlPlane, find_event,
}
use gooberberg_terminal.Jobs.Router.{
  Reply, replied, not_found, conflict, bad_request, Call, enqueue_job, queued_event, load_event,
  sync_run,
}

module _ {F : Type 0} ⦃d : Float F⦄ ⦃b : Builtins F⦄ where
  -- The envelope of a training whose submission is gone, from its run.
  abbrev pub rebuilt_envelope :
      Call F → ℕ → JobLifecycleEvent F → ControlPlane F → Option (JobEnvelope F)
  rebuilt_envelope c job_id e s = elim e.run_id [
    | none ↦ none
    | some run_id ↦
        elim (if e.run_type == some "training" then lookup run_id s.runs.training else none) [
          | none ↦ none
          | some run ↦ some (record {
            job_id = job_id;
            trace_id = e.trace_id;
            job_type = "training";
            payload = field "run_id" (text (c.uuid_text run_id)) (
                field "model_config_id" run.model_config_id (
                  field "dataset_id" run.dataset_id
                    (field "parameters" (obj (dict_or_empty (some run.row.parameters))) end)));
            run_id = some run_id;
            run_type = some "training";
            queued_at = c.now;
          })
        ]
  ]

  -- `_resolve_retry_envelope`
  unfoldable pub resolve_retry_envelope : Call F → ℕ → ControlPlane F → Option (JobEnvelope F)
  unfolding find_event
  resolve_retry_envelope c job_id s = elim (lookup job_id s.job_submission_store) [
    | some envelope ↦ some envelope
    | none ↦ elim (find_event job_id s) [ none ↦ none | some e ↦ rebuilt_envelope c job_id e s ]
  ]

  -- The rest of `retry_job`, with the prior envelope.
  unfoldable pub resubmit :
      Call F
      → Option (JobEnvelope F)
      → ControlPlane F
      → Reply (JobLifecycleEvent F) × ControlPlane F
  unfolding enqueue_job sync_run
  resubmit c none s = (conflict, s)
  resubmit c (some prior) s =
      let event = queued_event c prior.run_id prior.run_type in
      let envelope = record prior {
        job_id = c.fresh_id;
        trace_id = c.trace_id;
        queued_at = c.now;
      } in
      if contains prior.job_type c.runners
      then (replied event, sync_run event queued (enqueue_job event envelope s))
      else (bad_request, s)

  unfoldable pub retry_known :
      Call F
      → ℕ
      → Option (JobLifecycleEvent F)
      → ControlPlane F
      → Reply (JobLifecycleEvent F) × ControlPlane F
  unfolding resolve_retry_envelope resubmit
  retry_known c job_id none s = (not_found, s)
  retry_known c job_id (some existing) s =
      let resubmitted = resubmit c (resolve_retry_envelope c job_id s) s in
      if is_retryable existing.status then resubmitted else (conflict, s)

  -- `retry_job`
  unfoldable pub retry_job :
      Call F → ℕ → ControlPlane F → Reply (JobLifecycleEvent F) × ControlPlane F
  unfolding retry_known load_event
  retry_job c job_id s = let (found, s') = load_event job_id s in retry_known c job_id found s'
