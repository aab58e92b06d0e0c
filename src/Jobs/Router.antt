-- ===== src/Jobs/Router.antt =====
-- The handlers of apps/api-control-plane/app/api/routers/jobs.py that create,
-- read and cancel a job, and what all its handlers share.
use gooberberg_terminal.Prelude.{
  ℕ, String, Option, none, some, List, [], ◌∷◌, ◌++◌, nat_eq, string_eq, contains, if◌then◌else◌,
}
use gooberberg_terminal.Prelude.Float.{Float, nought}
use gooberberg_terminal.Prelude.Dict.{lookup, insert}
use gooberberg_terminal.Prelude.Value.{Fields, Builtins}
use gooberberg_terminal.SuccessGate.Checks.{EventUpdate, Language}
use gooberberg_terminal.Jobs.Store.{
  JobStatus, queued, cancelled, is_cancelable, JobEnvelope, JobLifecycleEvent, ControlPlane,
  update_status, find_event, upsert, persist_event, broadcast_job_event, record_event,
}

-- What a handler answers: a value, or the status code 404, 409, 400 or 500.
pub data Reply (A : Type 0) : Type 0 where
  replied : A → Reply A
  not_found conflict bad_request server_error : Reply A

-- One request: the clock, a fresh identifier, the trace, the registered task types, and what the
-- success gate takes from the language.
pub record Call (F : Type 0) : Type 0 where
  pub now : ℕ
  pub fresh_id : ℕ
  pub trace_id : String
  pub runners : List String
  pub language : Language F
  pub role_order : List String → List String
  pub uuid_text : ℕ → String

pub record JobCreateRequest (F : Type 0) : Type 0 where
  pub job_type : String
  pub payload : Fields F
  pub run_id : Option ℕ
  pub run_type : Option String

-- `JobLifecycleUpdateRequest`, with the part that the success gate reads.
pub record JobLifecycleUpdateRequest (F : Type 0) : Type 0 where
  pub status : JobStatus
  pub run_id : Option ℕ
  pub run_type : Option String
  pub progress_pct : F
  pub message : String
  pub result_ref : Option String
  pub gate : EventUpdate F

module _ {F : Type 0} ⦃d : Float F⦄ ⦃b : Builtins F⦄ where
  -- The end of `create_job` and of `retry_job`: the stores, the repository, the queue and the broadcast.
  unfoldable pub enqueue_job : JobLifecycleEvent F → JobEnvelope F → ControlPlane F → ControlPlane F
  unfolding upsert persist_event broadcast_job_event
  enqueue_job event envelope s =
      let stored = upsert event s in
      let submitted : ControlPlane F = record stored {
        job_submission_store = insert envelope.job_id envelope stored.job_submission_store;
      } in
      let kept = persist_event event submitted in
      broadcast_job_event event (record kept { queue = kept.queue ++ envelope ∷ [] })

  abbrev pub queued_event : Call F → Option ℕ → Option String → JobLifecycleEvent F
  queued_event c run_id run_type = record {
    job_id = c.fresh_id;
    trace_id = c.trace_id;
    status = queued;
    run_id = run_id;
    run_type = run_type;
    progress_pct = nought;
    message = "queued";
    result_ref = none;
    updated_at = c.now;
  }

  abbrev pub envelope_of : Call F → JobCreateRequest F → JobEnvelope F
  envelope_of c r = record {
    job_id = c.fresh_id;
    trace_id = c.trace_id;
    job_type = r.job_type;
    payload = r.payload;
    run_id = r.run_id;
    run_type = r.run_type;
    queued_at = c.now;
  }

  -- `create_job`: `submit` knows the registered task types only.
  unfoldable pub create_job :
      Call F → JobCreateRequest F → ControlPlane F → Reply (JobLifecycleEvent F) × ControlPlane F
  unfolding enqueue_job
  create_job c r s =
      let event = queued_event c r.run_id r.run_type in
      if contains r.job_type c.runners
      then (replied event, enqueue_job event (envelope_of c r) s)
      else (bad_request, s)

  -- `job_state_store.get`, else the repository, whose event is put into the store.
  abbrev pub remember : Option (JobLifecycleEvent F) → ControlPlane F → ControlPlane F
  remember none s = s
  remember (some e) s = upsert e s

  unfoldable pub load_event : ℕ → ControlPlane F → Option (JobLifecycleEvent F) × ControlPlane F
  unfolding find_event upsert
  load_event job_id s = elim (lookup job_id s.job_state_store) [
    | some e ↦ (some e, s)
    | none ↦ (find_event job_id s, remember (find_event job_id s) s)
  ]

  -- `get_job`
  unfoldable pub get_job : ℕ → ControlPlane F → Reply (JobLifecycleEvent F) × ControlPlane F
  unfolding load_event
  get_job job_id s =
      let (found, s') = load_event job_id s in
      elim found [ none ↦ (not_found, s') | some e ↦ (replied e, s') ]

  -- `if event.run_id and event.run_type`: the status of the run follows that of the job.
  unfoldable pub sync_run : JobLifecycleEvent F → JobStatus → ControlPlane F → ControlPlane F
  unfolding update_status
  sync_run e status s = elim e.run_id [
    | none ↦ s
    | some run_id ↦ elim e.run_type [
      | none ↦ s
      | some run_type ↦ record s { runs = update_status run_type run_id status s.runs }
    ]
  ]

  abbrev pub cancelled_event : Call F → JobLifecycleEvent F → JobLifecycleEvent F
  cancelled_event c existing = record existing {
    status = cancelled;
    message = "cancelled";
    updated_at = c.now;
  }

  -- The rest of `cancel_job`, with the event that is known.
  unfoldable pub cancel_known :
      Call F
      → ℕ
      → Option (JobLifecycleEvent F)
      → ControlPlane F
      → Reply (JobLifecycleEvent F) × ControlPlane F
  unfolding record_event sync_run
  cancel_known c job_id none s = (not_found, s)
  cancel_known c job_id (some existing) s =
      let event = record (cancelled_event c existing) { job_id = job_id } in
      if is_cancelable existing.status
      then (replied event, sync_run event cancelled (record_event event s))
      else (conflict, s)

  -- `cancel_job`
  unfoldable pub cancel_job :
      Call F → ℕ → ControlPlane F → Reply (JobLifecycleEvent F) × ControlPlane F
  unfolding cancel_known load_event
  cancel_job c job_id s = let (found, s') = load_event job_id s in cancel_known c job_id found s'
