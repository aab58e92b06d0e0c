-- ===== src/Jobs/Loading.antt =====
-- What loading the event of a job does to the state store, and what the handlers share of the run's
-- status: apps/api-control-plane/app/api/routers/jobs.py.
use gooberberg_terminal.Prelude.{
  ℕ, ◌≡◌, ◌≢◌, refl, ◌∙◌, sym, ap, Option, none, some, List, [], ◌∷◌, arith, nat_eq, ◌==◌, leb,
  if◌then◌else◌, Bool-cases, Option-cases, inl, inr,
}
use gooberberg_terminal.Prelude.Float.{Float}
use mathlib.Core.Path.{subst}
use gooberberg_terminal.Prelude.Raising.{some_inj}
use gooberberg_terminal.Prelude.Dict.{lookup, insert, lookup-insert_self, lookup-insert_ne}
use gooberberg_terminal.Prelude.Value.{Builtins}
use gooberberg_terminal.Jobs.Store.{
  JobStatus, JobLifecycleEvent, ControlPlane, latest_from, newer, find_event, upsert,
}
use gooberberg_terminal.Jobs.Router.{load_event, remember, sync_run}

module _ {F : Type 0} where
  -- The event under which the state store knows a job.
  abbrev pub stored : ℕ → ControlPlane F → Option (JobLifecycleEvent F)
  stored job_id s = lookup job_id s.job_state_store

  newer-job_id :
      (job_id : ℕ) (best : Option (JobLifecycleEvent F)) (x : JobLifecycleEvent F)
      → ((z : JobLifecycleEvent F) → best ≡ some z → z.job_id ≡ job_id)
      → x.job_id ≡ job_id
      → (newer best x).job_id ≡ job_id
  newer-job_id job_id none x h k = k
  newer-job_id job_id (some z) x h k = elim (Bool-cases (leb z.updated_at x.updated_at)) [
    | inl later ↦ rw later k
    | inr earlier ↦ rw earlier (h z refl)
  ]

  picked :
      (job_id : ℕ) (best : Option (JobLifecycleEvent F)) (x y : JobLifecycleEvent F)
      → ((z : JobLifecycleEvent F) → best ≡ some z → z.job_id ≡ job_id)
      → (if x.job_id == job_id then some (newer best x) else best) ≡ some y
      → y.job_id ≡ job_id
  picked job_id best x y h k = elim (Bool-cases (x.job_id == job_id)) [
    | inl same ↦
        let here : newer best x ≡ y = some_inj (ground (arith, same, k)) in
        sym (ap (λ (i : JobLifecycleEvent F). i.job_id) here)
        ∙ newer-job_id job_id best x h ((nat_eq.beq_iff x.job_id job_id).0 same)
    | inr other ↦ h y (ground (arith, other, k))
  ]

  latest_from-job_id :
      (job_id : ℕ) (best : Option (JobLifecycleEvent F)) (es : List (JobLifecycleEvent F))
      (e : JobLifecycleEvent F)
      → ((x : JobLifecycleEvent F) → best ≡ some x → x.job_id ≡ job_id)
      → latest_from job_id best es ≡ some e
      → e.job_id ≡ job_id
  unfolding latest_from
  latest_from-job_id job_id best [] e h eq = h e eq
  latest_from-job_id job_id best (x ∷ es) e h eq =
      latest_from-job_id job_id (if x.job_id == job_id then some (newer best x) else best) es e
        (λ y k. picked job_id best x y h k) eq

  -- What loading the event of a job changes: at most the state store, at that job.
  abbrev pub Loaded : ℕ → ControlPlane F → Option (JobLifecycleEvent F) → ControlPlane F → Type 0
  Loaded job_id s none s' = s' ≡ s
  Loaded job_id s (some e) s' =
      (stored job_id s' ≡ some e)
      × ((other : ℕ) → job_id ≢ other → stored other s' ≡ stored other s)
      × (s'.persisted ≡ s.persisted)
      × (s'.runs ≡ s.runs)
      × (s'.queue ≡ s.queue)
      × (s'.broadcasts ≡ s.broadcasts)
      × (s'.job_submission_store ≡ s.job_submission_store)

module _ {F : Type 0} ⦃d : Float F⦄ ⦃b : Builtins F⦄ where
  remember-Loaded :
      (job_id : ℕ) (s : ControlPlane F) (o : Option (JobLifecycleEvent F))
      → ((e : JobLifecycleEvent F) → o ≡ some e → e.job_id ≡ job_id)
      → Loaded job_id s o (remember o s)
  unfolding upsert
  remember-Loaded job_id s none h = refl
  remember-Loaded job_id s (some e) h =
      let id = h e refl in
      (
        subst (λ i. lookup job_id (insert i e s.job_state_store) ≡ some e) (sym id)
            (lookup-insert_self job_id e s.job_state_store),
        λ other ne.
            subst (λ i. lookup other (insert i e s.job_state_store) ≡ stored other s) (sym id)
              (lookup-insert_ne job_id other e s.job_state_store ne),
        refl,
        refl,
        refl,
        refl,
        refl,
      )

  pub load_event-Loaded :
      (job_id : ℕ) (s : ControlPlane F)
      → let (found, s') = load_event job_id s in
        (found ≡ find_event job_id s) × Loaded job_id s (find_event job_id s) s'
  unfolding load_event find_event
  load_event-Loaded job_id s = elim (Option-cases (lookup job_id s.job_state_store)) [
    | inl unknown ↦
        let same : find_event job_id s ≡ latest_from job_id none s.persisted =
          rw (unknown, find_event) refl in
        rw (unknown, load_event)
          (
            refl,
            remember-Loaded job_id s (find_event job_id s)
                (λ e eq. latest_from-job_id job_id none s.persisted e (λ x k. cc) (sym same ∙ eq)),
          )
    | inr (e, known) ↦
        rw (known, load_event, find_event)
          (refl, (known, λ other ne. refl, refl, refl, refl, refl, refl))
  ]

  pub sync_run-stored :
      (e : JobLifecycleEvent F) (status : JobStatus) (s : ControlPlane F)
      → (sync_run e status s).job_state_store ≡ s.job_state_store
  unfolding sync_run
  sync_run-stored e status s = elim (Option-cases e.run_id) [
    | inl no_run ↦ rw no_run refl
    | inr (run_id, run) ↦ elim (Option-cases e.run_type) [
      | inl no_type ↦ rw (run, no_type) refl
      | inr (run_type, type) ↦ rw (run, type) refl
    ]
  ]

  pub sync_run-queue :
      (e : JobLifecycleEvent F) (status : JobStatus) (s : ControlPlane F)
      → (sync_run e status s).queue ≡ s.queue
  unfolding sync_run
  sync_run-queue e status s = elim (Option-cases e.run_id) [
    | inl no_run ↦ rw no_run refl
    | inr (run_id, run) ↦ elim (Option-cases e.run_type) [
      | inl no_type ↦ rw (run, no_type) refl
      | inr (run_type, type) ↦ rw (run, type) refl
    ]
  ]
