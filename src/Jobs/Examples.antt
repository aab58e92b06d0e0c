-- ===== src/Jobs/Examples.antt =====
-- Tests of the jobs API, and its theorems at concrete inputs.
use gooberberg_terminal.Prelude.{◌≡◌, refl, ◌∙◌, ap, none, some, [], ◌∷◌, nat_eq, string_eq, length}
use gooberberg_terminal.Prelude.Int.{ℤ, pos}
use gooberberg_terminal.Prelude.Dict.{lookup, insert}
use gooberberg_terminal.Prelude.Value.{null}
use gooberberg_terminal.Prelude.Whole.{int_float, int_builtins}
use gooberberg_terminal.SuccessGate.Sample.{language, row, update, sample_passes}
use gooberberg_terminal.SuccessGate.Passes.{IsComplete}
use gooberberg_terminal.Jobs.Store.{
  running, success, failed, cancelled, JobLifecycleEvent, Run, ControlPlane, find_event, upsert,
  persist_event, broadcast_job_event, record_event, update_status,
}
use gooberberg_terminal.Jobs.Router.{
  Call, JobLifecycleUpdateRequest, cancel_job, load_event, enqueue_job, sync_run, cancel_known,
}
use gooberberg_terminal.Jobs.Updates.{publish_job_event, publish_known, after_gate}
use gooberberg_terminal.Jobs.Retries.{retry_job, retry_known, resolve_retry_envelope, resubmit}
use gooberberg_terminal.Jobs.Retry.{IsResubmission, retry_job-IsResubmission}
use gooberberg_terminal.Jobs.Cancel.{Cancels, cancel_job-Cancels}
use gooberberg_terminal.Jobs.Publish.{
  run_of, verdict, gate_of, publish_job_event-verdict, publish_job_event-IsComplete,
}

abbrev pub call : Call ℤ
call = record {
  now = 50;
  fresh_id = 9;
  trace_id = "t2";
  runners = "training" ∷ [];
  language = language;
  role_order = λ roles. roles;
  uuid_text = λ n. "";
}

abbrev pub event : JobLifecycleEvent ℤ
event = record {
  job_id = 1;
  trace_id = "t1";
  status = running;
  run_id = some 5;
  run_type = some "training";
  progress_pct = pos 40;
  message = "";
  result_ref = none;
  updated_at = 10;
}

abbrev pub run : Run ℤ
run = record { status = running; row = row; model_config_id = null; dataset_id = null }

abbrev pub plane : ControlPlane ℤ
plane = record {
  job_state_store = (1, event) ∷ [];
  job_submission_store = [];
  persisted = event ∷ [];
  queue = [];
  runs = record { training = (5, run) ∷ []; parameter_sweep = []; backtest = []; testing = [] };
  broadcasts = [];
}

abbrev pub finished : JobLifecycleUpdateRequest ℤ
finished = record {
  status = success;
  run_id = none;
  run_type = none;
  progress_pct = pos 100;
  message = "done";
  result_ref = none;
  gate = update (pos 7) (pos 9);
}

event-found : find_event 1 plane ≡ some event
unfolding find_event lookup
event-found = refl

run-found : run_of "training" 5 plane ≡ some run
unfolding lookup
run-found = refl

cancel_job-Cancels_example :
    let (reply, s') = cancel_job call 1 plane in Cancels call 1 plane (find_event 1 plane) reply s'
cancel_job-Cancels_example = cancel_job-Cancels call 1 plane

publish_job_event-verdict_example :
    run_of "training" 5 (publish_job_event call 1 finished plane).1
    ≡ some (record run { status = verdict running success (gate_of call finished "training" run) })
publish_job_event-verdict_example =
    publish_job_event-verdict call 1 finished plane event "training" 5 run event-found refl refl
      refl run-found

gate_passes : gate_of call finished "training" run ≡ some none
gate_passes = sample_passes

run_succeeds :
    run_of "training" 5 (publish_job_event call 1 finished plane).1
    ≡ some (record run { status = success })
run_succeeds =
    publish_job_event-verdict call 1 finished plane event "training" 5 run event-found refl refl
      refl run-found
    ∙ ap (λ o. some (record run { status = verdict running success o })) gate_passes

publish_job_event-IsComplete_example : IsComplete language "training" row (update (pos 7) (pos 9))
publish_job_event-IsComplete_example =
    publish_job_event-IsComplete call 1 finished plane event "training" 5 run
      (record run { status = success }) (λ roles role. refl) event-found refl refl refl run-found
      run_succeeds (λ e. cc) refl

-- The job has failed, and its submission is gone: the envelope comes from the training run.
abbrev failed_plane : ControlPlane ℤ
failed_plane = record plane { job_state_store = (1, record event { status = failed }) ∷ [] }

retry_test :
    (length (retry_job call 1 failed_plane).1.queue ≡ 1)
    × (length (retry_job call 1 plane).1.queue ≡ 0)
unfolding retry_job load_event retry_known resolve_retry_envelope find_event resubmit enqueue_job
    sync_run upsert persist_event broadcast_job_event update_status lookup insert
retry_test = (refl, refl)

retry_job-IsResubmission_example :
    let (reply, s') = retry_job call 1 failed_plane in
    IsResubmission call 1 failed_plane (find_event 1 failed_plane) reply s'
retry_job-IsResubmission_example = retry_job-IsResubmission call 1 failed_plane

-- A worker's update sets a job going again that was cancelled.
revival_test :
    let s = (cancel_job call 1 plane).1 in
    (run_of "training" 5 s ≡ some (record run { status = cancelled }))
    × (run_of "training" 5 (publish_job_event call 1 (record finished { status = running }) s).1
        ≡ some run)
unfolding cancel_job load_event cancel_known record_event upsert persist_event broadcast_job_event
    sync_run update_status lookup insert find_event publish_job_event publish_known after_gate
revival_test = (refl, refl)
