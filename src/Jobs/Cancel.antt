-- ===== src/Jobs/Cancel.antt =====
-- Cancelling a job: apps/api-control-plane/app/api/routers/jobs.py.
use gooberberg_terminal.Prelude.{
  ℕ, ◌≡◌, ◌≢◌, refl, ◌∙◌, false, Option, none, some, arith, nat_eq, if◌then◌else◌, Bool-cases, inl,
  inr,
}
use gooberberg_terminal.Prelude.Float.{Float}
use gooberberg_terminal.Prelude.Dict.{insert, lookup-insert_self, lookup-insert_ne}
use gooberberg_terminal.Prelude.Value.{Builtins}
use gooberberg_terminal.Jobs.Store.{
  is_cancelable, JobLifecycleEvent, ControlPlane, find_event, upsert, persist_event,
  broadcast_job_event, record_event,
}
use gooberberg_terminal.Jobs.Router.{
  Call, Reply, replied, not_found, conflict, load_event, cancelled_event, cancel_known, cancel_job,
}
use gooberberg_terminal.Jobs.Loading.{stored, Loaded, load_event-Loaded, sync_run-stored}

module _ {F : Type 0} ⦃d : Float F⦄ ⦃b : Builtins F⦄ where
  -- What cancelling a job must do, by the event that is known of it.
  abbrev pub Cancels :
      Call F
      → ℕ
      → ControlPlane F
      → Option (JobLifecycleEvent F)
      → Reply (JobLifecycleEvent F)
      → ControlPlane F
      → Type 0
  Cancels c job_id s none reply s' = (reply ≡ not_found) × (s' ≡ s)
  Cancels c job_id s (some e) reply s' =
      let event = record (cancelled_event c e) { job_id = job_id } in
      (reply ≡ (if is_cancelable e.status then replied event else conflict))
      × (stored job_id s' ≡ some (if is_cancelable e.status then event else e))
      × ((other : ℕ) → job_id ≢ other → stored other s' ≡ stored other s)
      × (is_cancelable e.status ≡ false
          → (s'.persisted ≡ s.persisted)
            × (s'.runs ≡ s.runs)
            × (s'.queue ≡ s.queue)
            × (s'.broadcasts ≡ s.broadcasts))

  record_event-stored :
      (e : JobLifecycleEvent F) (s : ControlPlane F)
      → (record_event e s).job_state_store ≡ insert e.job_id e s.job_state_store
  unfolding record_event upsert persist_event broadcast_job_event
  record_event-stored e s = refl

  cancel_known-Cancels :
      (c : Call F) (job_id : ℕ) (s s' : ControlPlane F) (o : Option (JobLifecycleEvent F))
      → Loaded job_id s o s'
      → let (reply, s'') = cancel_known c job_id o s' in Cancels c job_id s o reply s''
  unfolding cancel_known
  cancel_known-Cancels c job_id s s' none h = (refl, h)
  cancel_known-Cancels c job_id s s' (some e) (here, others, p, r, q, w, sub) =
      let event = record (cancelled_event c e) { job_id = job_id } in
      elim (Bool-cases (is_cancelable e.status)) [
        | inl yes_cancel ↦ rw yes_cancel (
          refl,
          rw (sync_run-stored, record_event-stored)
              (lookup-insert_self job_id event s'.job_state_store),
          λ other ne.
              rw (sync_run-stored, record_event-stored)
                (lookup-insert_ne job_id other event s'.job_state_store ne ∙ others other ne),
          λ k. absurd (ground (arith, yes_cancel, k)),
        )
        | inr not_cancel ↦ rw not_cancel (refl, here, others, λ k. (p, r, q, w))
      ]

  -- A job that is unknown is not found and changes nothing; one that can be cancelled is known as
  -- cancelled afterwards; any other keeps its event and the request is refused with no event, run,
  -- queue or broadcast changed. No other job's event changes.
  pub cancel_job-Cancels :
      (c : Call F) (job_id : ℕ) (s : ControlPlane F)
      → let (reply, s') = cancel_job c job_id s in Cancels c job_id s (find_event job_id s) reply s'
  unfolding cancel_job
  cancel_job-Cancels c job_id s =
      let (found, loaded) = load_event-Loaded job_id s in
      rw found
        (cancel_known-Cancels c job_id s (load_event job_id s).1 (find_event job_id s) loaded)
