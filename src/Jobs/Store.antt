-- ===== src/Jobs/Store.antt =====
-- Jobs and where they are kept: apps/api-control-plane/app/jobs/models.py and store.py, and what
-- persistence/repositories.py of the same application does with events and runs.
use gooberberg_terminal.Prelude.{
  ℕ, String, Bool, true, false, Option, none, some, List, [], ◌∷◌, ◌++◌, nat_eq, string_eq, ◌==◌,
  leb, if◌then◌else◌,
}
use gooberberg_terminal.Prelude.Float.{Float}
use gooberberg_terminal.Prelude.Dict.{Dict, lookup, insert}
use gooberberg_terminal.Prelude.Value.{Value, Fields, Builtins, of_int}
use gooberberg_terminal.SuccessGate.Checks.{RunRow}

pub data JobStatus : Type 0 where
  queued waiting_for_data running success failed cancelled : JobStatus

-- `JOB_CANCELABLE_STATES` and `JOB_RETRYABLE_STATES` of schemas/jobs.py.
abbrev pub is_cancelable : JobStatus → Bool
is_cancelable queued = true
is_cancelable waiting_for_data = true
is_cancelable running = true
is_cancelable _ = false

abbrev pub is_retryable : JobStatus → Bool
is_retryable failed = true
is_retryable cancelled = true
is_retryable _ = false

pub record JobEnvelope (F : Type 0) : Type 0 where
  pub job_id : ℕ
  pub trace_id : String
  pub job_type : String
  pub payload : Fields F
  pub run_id : Option ℕ
  pub run_type : Option String
  pub queued_at : ℕ

-- `JobLifecycleEvent`, without its `detail`.
pub record JobLifecycleEvent (F : Type 0) : Type 0 where
  pub job_id : ℕ
  pub trace_id : String
  pub status : JobStatus
  pub run_id : Option ℕ
  pub run_type : Option String
  pub progress_pct : F
  pub message : String
  pub result_ref : Option String
  pub updated_at : ℕ

-- A row of the tables of runs: its status, what the success gate reads, and what a retry reads.
pub record Run (F : Type 0) : Type 0 where
  pub status : JobStatus
  pub row : RunRow F
  pub model_config_id : Value F
  pub dataset_id : Value F

pub record RunTables (F : Type 0) : Type 0 where
  pub training : Dict ℕ (Run F)
  pub parameter_sweep : Dict ℕ (Run F)
  pub backtest : Dict ℕ (Run F)
  -- The parameters of testing runs, whose status no handler of jobs changes.
  pub testing : Dict ℕ (Value F)

-- The two stores of the process, the persisted events, the queue, the runs, and the events that were
-- broadcast, with their topics.
pub record ControlPlane (F : Type 0) : Type 0 where
  pub job_state_store : Dict ℕ (JobLifecycleEvent F)
  pub job_submission_store : Dict ℕ (JobEnvelope F)
  pub persisted : List (JobLifecycleEvent F)
  pub queue : List (JobEnvelope F)
  pub runs : RunTables F
  pub broadcasts : List (String × JobLifecycleEvent F)

-- The topics of `_broadcast_job_event`.
abbrev pub topics_of : Option String → List String
topics_of none = "jobs" ∷ "logs" ∷ []
topics_of (some run_type) =
    if run_type == "backtest" then "jobs" ∷ "logs" ∷ "backtests" ∷ [] else "jobs" ∷ "logs" ∷ []

module _ {F : Type 0} where
  -- `session.get(mapping[run_type], run_id)`, where a type that is not in the mapping has no table.
  abbrev pub table_of : String → RunTables F → Dict ℕ (Run F)
  table_of run_type t =
      if run_type == "training"
      then t.training
      else if run_type == "parameter_sweep"
      then t.parameter_sweep
      else if run_type == "backtest"
      then t.backtest
      else []

  abbrev pub set_table : String → Dict ℕ (Run F) → RunTables F → RunTables F
  set_table run_type rows t =
      if run_type == "training"
      then record t { training = rows }
      else if run_type == "parameter_sweep"
      then record t { parameter_sweep = rows }
      else if run_type == "backtest"
      then record t { backtest = rows }
      else t

  abbrev pub set_status : ℕ → JobStatus → Option (Run F) → Dict ℕ (Run F) → Dict ℕ (Run F)
  set_status run_id status none rows = rows
  set_status run_id status (some run) rows = insert run_id (record run { status = status }) rows

  -- `RunSqlRepository.update_status`: a run that is not there is left alone.
  unfoldable pub update_status : String → ℕ → JobStatus → RunTables F → RunTables F
  update_status run_type run_id status t =
      let rows = table_of run_type t in
      set_table run_type (set_status run_id status (lookup run_id rows) rows) t

  -- The row of `a` or a later one: newer, or as new and inserted after it.
  abbrev pub newer : Option (JobLifecycleEvent F) → JobLifecycleEvent F → JobLifecycleEvent F
  newer none e = e
  newer (some a) e = if leb a.updated_at e.updated_at then e else a

  -- `get_latest_event`
  unfoldable pub latest_from :
      ℕ → Option (JobLifecycleEvent F) → List (JobLifecycleEvent F) → Option (JobLifecycleEvent F)
  latest_from job_id best [] = best
  latest_from job_id best (e ∷ es) =
      latest_from job_id (if e.job_id == job_id then some (newer best e) else best) es

  -- The first of the state store and the repository that knows a job.
  unfoldable pub find_event : ℕ → ControlPlane F → Option (JobLifecycleEvent F)
  unfolding latest_from
  find_event job_id s = elim (lookup job_id s.job_state_store) [
    | some e ↦ some e
    | none ↦ latest_from job_id none s.persisted
  ]

  -- `job_state_store.upsert`
  unfoldable pub upsert : JobLifecycleEvent F → ControlPlane F → ControlPlane F
  upsert e s = record s { job_state_store = insert e.job_id e s.job_state_store }

  abbrev pub on_topics : List String → JobLifecycleEvent F → List (String × JobLifecycleEvent F)
  on_topics [] e = []
  on_topics (topic ∷ topics) e = (topic, e) ∷ on_topics topics e

  -- `_broadcast_job_event`
  unfoldable pub broadcast_job_event : JobLifecycleEvent F → ControlPlane F → ControlPlane F
  broadcast_job_event e s = record s {
    broadcasts = s.broadcasts ++ on_topics (topics_of e.run_type) e;
  }

module _ {F : Type 0} ⦃d : Float F⦄ ⦃b : Builtins F⦄ where
  -- `persist_event`, which keeps the progress as an integer.
  unfoldable pub persist_event : JobLifecycleEvent F → ControlPlane F → ControlPlane F
  persist_event e s = record s {
    persisted =
        s.persisted
        ++ record e {
          progress_pct = elim (b.truncate e.progress_pct) [
            | none ↦ e.progress_pct
            | some n ↦ of_int n
          ];
        }
          ∷ [];
  }

  -- `job_state_store.upsert`, `persist_event` and `_broadcast_job_event`, as the handlers call them.
  unfoldable pub record_event : JobLifecycleEvent F → ControlPlane F → ControlPlane F
  unfolding upsert persist_event broadcast_job_event
  record_event e s = broadcast_job_event e (persist_event e (upsert e s))
