-- ===== src/Jobs/Retry.antt =====
-- Retrying a job: apps/api-control-plane/app/api/routers/jobs.py.
use gooberberg_terminal.Prelude.{
  ℕ, ◌≡◌, ◌≢◌, refl, ◌∙◌, sym, ap, false, true, contains, ◌++◌, string_eq, Option, none, some, [],
  ◌∷◌, arith, nat_eq, Bool-cases, inl, inr,
}
use gooberberg_terminal.Prelude.Float.{Float}
use mathlib.Core.Path.{subst}
use gooberberg_terminal.Prelude.Raising.{some_inj}
use gooberberg_terminal.Prelude.Dict.{lookup, insert, lookup-insert_self, lookup-insert_ne}
use gooberberg_terminal.Prelude.Value.{Builtins}
use gooberberg_terminal.Jobs.Store.{
  queued, is_retryable, JobEnvelope, JobLifecycleEvent, ControlPlane, find_event, upsert,
  persist_event, broadcast_job_event,
}
use gooberberg_terminal.Jobs.Router.{
  enqueue_job, queued_event, Call, Reply, replied, not_found, conflict, load_event, sync_run,
}
use gooberberg_terminal.Jobs.Loading.{
  stored, Loaded, load_event-Loaded, sync_run-stored, sync_run-queue,
}
use gooberberg_terminal.Jobs.Retries.{resolve_retry_envelope, resubmit, retry_known, retry_job}

replied_inj : {A : Type 0} {a b : A} → Path (Reply A) (replied a) (replied b) → a ≡ b
replied_inj h = cc

module _ {F : Type 0} ⦃d : Float F⦄ ⦃b : Builtins F⦄ where
  -- The envelope that goes into the queue for a prior one.
  abbrev pub requeued : Call F → JobEnvelope F → JobEnvelope F
  requeued c prior = record prior { job_id = c.fresh_id; trace_id = c.trace_id; queued_at = c.now }

  -- What an accepted retry must have done.
  abbrev pub Requeues : Call F → ℕ → ControlPlane F → JobLifecycleEvent F → ControlPlane F → Type 0
  Requeues c job_id s event s' =
      (prior : JobEnvelope F) × (contains prior.job_type c.runners ≡ true)
      × ((known : JobEnvelope F)
          → lookup job_id s.job_submission_store ≡ some known
          → prior ≡ known)
      × (s'.queue ≡ s.queue ++ requeued c prior ∷ [])
      × (stored c.fresh_id s' ≡ some event)
      × (event ≡ queued_event c prior.run_id prior.run_type)

  -- What retrying a job must do, by the event that is known of it.
  abbrev pub IsResubmission :
      Call F
      → ℕ
      → ControlPlane F
      → Option (JobLifecycleEvent F)
      → Reply (JobLifecycleEvent F)
      → ControlPlane F
      → Type 0
  IsResubmission c job_id s none reply s' = (reply ≡ not_found) × (s' ≡ s)
  IsResubmission c job_id s (some e) reply s' =
      (is_retryable e.status ≡ false → (reply ≡ conflict) × (s'.queue ≡ s.queue))
      × ((event : JobLifecycleEvent F) → reply ≡ replied event → Requeues c job_id s event s')
      × (job_id ≢ c.fresh_id → stored job_id s' ≡ some e)

  enqueue_job-stored :
      (event : JobLifecycleEvent F) (envelope : JobEnvelope F) (s : ControlPlane F)
      → ((enqueue_job event envelope s).job_state_store
          ≡ insert event.job_id event s.job_state_store)
        × ((enqueue_job event envelope s).queue ≡ s.queue ++ envelope ∷ [])
  unfolding enqueue_job upsert persist_event broadcast_job_event
  enqueue_job-stored event envelope s = (refl, refl)

  resubmit-IsResubmission :
      (c : Call F) (job_id : ℕ) (s s' : ControlPlane F) (e : JobLifecycleEvent F)
      (o : Option (JobEnvelope F))
      → is_retryable e.status ≡ true
      → Loaded job_id s (some e) s'
      → ((known : JobEnvelope F)
          → lookup job_id s.job_submission_store ≡ some known
          → o ≡ some known)
      → let (reply, s'') = resubmit c o s' in IsResubmission c job_id s (some e) reply s''
  unfolding resubmit
  resubmit-IsResubmission c job_id s s' e none retryable (here, others, p, r, q, w, sub) prior =
      (λ k. absurd (ground (arith, retryable, k)), λ event eq. cc, λ ne. here)
  resubmit-IsResubmission c job_id s s' e (some envelope) retryable (here, others, p, r, q, w, sub)
        prior =
      let event = queued_event c envelope.run_id envelope.run_type in
      let (kept, queue) = enqueue_job-stored event (requeued c envelope) s' in
      let final : ControlPlane F =
        sync_run event queued (enqueue_job event (requeued c envelope) s') in
      elim (Bool-cases (contains envelope.job_type c.runners)) [
        | inl known ↦
            let done : Requeues c job_id s event final = (
              envelope,
              known,
              λ k h. some_inj (prior k h),
              sync_run-queue event queued (enqueue_job event (requeued c envelope) s')
                  ∙ queue
                  ∙ ap (λ l. l ++ requeued c envelope ∷ []) q,
              rw (sync_run-stored, kept) (lookup-insert_self c.fresh_id event s'.job_state_store),
              refl,
            ) in
            rw known (
              λ k. absurd (ground (arith, retryable, k)),
              λ ev eq. subst (λ x. Requeues c job_id s x final) (replied_inj eq) done,
              λ ne.
                  rw (sync_run-stored, kept)
                    (lookup-insert_ne c.fresh_id job_id event s'.job_state_store (λ x. ne (sym x))
                      ∙ here),
            )
        | inr unknown ↦
            rw unknown (λ k. absurd (ground (arith, retryable, k)), λ ev eq. cc, λ ne. here)
      ]

  resolve-submitted :
      (c : Call F) (job_id : ℕ) (s : ControlPlane F) (known : JobEnvelope F)
      → lookup job_id s.job_submission_store ≡ some known
      → resolve_retry_envelope c job_id s ≡ some known
  unfolding resolve_retry_envelope
  resolve-submitted c job_id s known h = rw (h, resolve_retry_envelope) refl

  retry_known-IsResubmission :
      (c : Call F) (job_id : ℕ) (s s' : ControlPlane F) (o : Option (JobLifecycleEvent F))
      → Loaded job_id s o s'
      → let (reply, s'') = retry_known c job_id o s' in IsResubmission c job_id s o reply s''
  unfolding retry_known
  retry_known-IsResubmission c job_id s s' none h = (refl, h)
  retry_known-IsResubmission c job_id s s' (some e) (here, others, p, r, q, w, sub) =
      elim (Bool-cases (is_retryable e.status)) [
        | inl retryable ↦
            let (refused, accepted, kept) =
              resubmit-IsResubmission c job_id s s' e (resolve_retry_envelope c job_id s') retryable
                (here, others, p, r, q, w, sub)
                (λ known h. resolve-submitted c job_id s' known (rw sub h)) in
            rw retryable (λ k. cc, accepted, kept)
        | inr final ↦ rw final (λ k. (refl, q), λ event eq. cc, λ ne. here)
      ]

  -- Retrying an unknown job is not found and changes nothing, and a job that cannot be retried is
  -- refused without touching the queue. An accepted retry puts one envelope of a registered type, the
  -- submission of the job if it is there, into the queue under a fresh identifier, with a new queued
  -- event. The event of the job itself never changes, unless the fresh identifier is its own.
  pub retry_job-IsResubmission :
      (c : Call F) (job_id : ℕ) (s : ControlPlane F)
      → let (reply, s') = retry_job c job_id s in
        IsResubmission c job_id s (find_event job_id s) reply s'
  unfolding retry_job
  retry_job-IsResubmission c job_id s =
      let (found, loaded) = load_event-Loaded job_id s in
      rw found
        (retry_known-IsResubmission c job_id s (load_event job_id s).1 (find_event job_id s) loaded)
