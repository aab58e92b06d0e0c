-- ===== src/Jobs/Publish.antt =====
-- What an update of a job does to its run: apps/api-control-plane/app/api/routers/jobs.py with the success
-- gate of apps/api-control-plane/app/domain/run_success_gate.py.
use gooberberg_terminal.Prelude.{
  ℕ, String, ◌≡◌, ◌≢◌, refl, ◌∙◌, sym, ap, Bool, true, ◌||◌, Option, none, some, List, arith,
  nat_eq, string_eq, ◌==◌, contains, if◌then◌else◌, Bool-cases, inl, inr,
}
use mathlib.Core.Path.{subst}
use gooberberg_terminal.Prelude.Float.{Float}
use gooberberg_terminal.Prelude.Raising.{some_inj}
use gooberberg_terminal.Prelude.Dict.{Dict, lookup, lookup-insert_self}
use gooberberg_terminal.Prelude.Value.{Builtins}
use gooberberg_terminal.SuccessGate.Gate.{Outcome, evaluate_success_gate}
use gooberberg_terminal.SuccessGate.Passes.{IsComplete, evaluate_success_gate_passes}
use gooberberg_terminal.Jobs.Store.{
  JobStatus, queued, waiting_for_data, running, success, failed, cancelled, JobLifecycleEvent, Run,
  RunTables, ControlPlane, table_of, set_table, update_status, upsert, persist_event,
  broadcast_job_event, record_event, find_event,
}
use gooberberg_terminal.Jobs.Router.{Call, JobLifecycleUpdateRequest, sync_run}
use gooberberg_terminal.Jobs.Updates.{
  is_success, given_or, updated_event, failed_event, judged_run, judge, after_gate, publish_known,
  publish_job_event,
}

-- The types of runs that the gate judges.
abbrev pub is_judged : String → Bool
is_judged run_type = run_type == "training" || run_type == "backtest"

-- The status of a run after an update, by what the gate says of it.
abbrev pub verdict : JobStatus → JobStatus → Outcome → JobStatus
verdict before wanted none = before
verdict before wanted (some none) = wanted
verdict before wanted (some (some failure)) = failed

gate_passed :
    (before wanted : JobStatus) (o : Outcome)
    → before ≢ success
    → verdict before wanted (if is_success wanted then o else some none) ≡ success
    → o ≡ some none
gate_passed before success none h e = absurd (h e)
gate_passed before success (some none) h e = refl
gate_passed before success (some (some failure)) h e = cc
gate_passed before queued o h e = cc
gate_passed before waiting_for_data o h e = cc
gate_passed before running o h e = cc
gate_passed before failed o h e = cc
gate_passed before cancelled o h e = cc

module _ {F : Type 0} where
  -- The run of a type and an identifier.
  abbrev pub run_of : String → ℕ → ControlPlane F → Option (Run F)
  run_of run_type run_id s = lookup run_id (table_of run_type s.runs)

  table_of-set_table :
      (run_type : String) (rows : Dict ℕ (Run F)) (t : RunTables F)
      → is_judged run_type ≡ true
      → table_of run_type (set_table run_type rows t) ≡ rows
  table_of-set_table run_type rows t judged = elim (Bool-cases (run_type == "training")) [
    | inl training ↦
        subst (λ r. table_of r (set_table r rows t) ≡ rows)
          (sym ((string_eq.beq_iff run_type "training").0 training)) refl
    | inr other ↦
        let backtest : (run_type == "backtest") ≡ true = ground (arith, other, judged) in
        subst (λ r. table_of r (set_table r rows t) ≡ rows)
          (sym ((string_eq.beq_iff run_type "backtest").0 backtest)) refl
  ]

  update_status-lookup :
      (run_type : String) (run_id : ℕ) (status : JobStatus) (t : RunTables F) (run : Run F)
      → is_judged run_type ≡ true
      → lookup run_id (table_of run_type t) ≡ some run
      → lookup run_id (table_of run_type (update_status run_type run_id status t))
        ≡ some (record run { status = status })
  unfolding update_status
  update_status-lookup run_type run_id status t run judged found =
      rw (found, table_of-set_table run_type _ t judged)
        (lookup-insert_self run_id _ (table_of run_type t))

module _ {F : Type 0} ⦃d : Float F⦄ ⦃b : Builtins F⦄ where
  sync_run-run_of :
      (e : JobLifecycleEvent F) (status : JobStatus) (s : ControlPlane F) (run_type : String)
      (run_id : ℕ) (run : Run F)
      → is_judged run_type ≡ true
      → e.run_id ≡ some run_id
      → e.run_type ≡ some run_type
      → run_of run_type run_id s ≡ some run
      → run_of run_type run_id (sync_run e status s) ≡ some (record run { status = status })
  unfolding sync_run
  sync_run-run_of e status s run_type run_id run judged id type found =
      rw (id, type) (update_status-lookup run_type run_id status s.runs run judged found)

  record_event-runs :
      (e : JobLifecycleEvent F) (s : ControlPlane F) → (record_event e s).runs ≡ s.runs
  unfolding record_event upsert persist_event broadcast_job_event
  record_event-runs e s = refl

  after_gate-run_of :
      (c : Call F) (e : JobLifecycleEvent F) (o : Outcome) (s : ControlPlane F) (run_type : String)
      (run_id : ℕ) (run : Run F)
      → is_judged run_type ≡ true
      → e.run_id ≡ some run_id
      → e.run_type ≡ some run_type
      → run_of run_type run_id s ≡ some run
      → run_of run_type run_id (after_gate c e o s).1
        ≡ some (record run { status = verdict run.status e.status o })
  unfolding after_gate
  after_gate-run_of c e none s run_type run_id run judged id type found = found
  after_gate-run_of c e (some none) s run_type run_id run judged id type found =
      sync_run-run_of e e.status s run_type run_id run judged id type found
  after_gate-run_of c e (some (some failure)) s run_type run_id run judged id type found =
      let e' = failed_event c failure e in
      sync_run-run_of e' failed (record_event e' s) run_type run_id run judged id type
        (rw (record_event-runs e' s) found)

  -- The gate's answer to an update.
  abbrev pub gate_of : Call F → JobLifecycleUpdateRequest F → String → Run F → Outcome
  gate_of c u run_type run =
      if is_success u.status
      then evaluate_success_gate c.language c.role_order run_type run.row u.gate
      else some none

  judge-gate_of :
      (c : Call F) (u : JobLifecycleUpdateRequest F) (e : JobLifecycleEvent F) (s : ControlPlane F)
      (run_type : String) (run_id : ℕ) (run : Run F)
      → e.status ≡ u.status
      → e.run_id ≡ some run_id
      → e.run_type ≡ some run_type
      → is_judged run_type ≡ true
      → run_of run_type run_id s ≡ some run
      → judge c u (judged_run e s) ≡ gate_of c u run_type run
  judge-gate_of c u e s run_type run_id run status id type judged found =
      elim (Bool-cases (is_success u.status)) [
        | inl wanted ↦ rw (id, type, status, wanted, judged, found) refl
        | inr other ↦ rw (id, type, status, other) refl
      ]

  -- An update of a job whose run is a training or a backtest in its table leaves that run with the
  -- wanted status, but with the failed one where the gate refuses a success, and as it was where
  -- the gate raises.
  pub publish_job_event-verdict :
      (c : Call F) (job_id : ℕ) (u : JobLifecycleUpdateRequest F) (s : ControlPlane F)
      (existing : JobLifecycleEvent F) (run_type : String) (run_id : ℕ) (run : Run F)
      → find_event job_id s ≡ some existing
      → given_or u.run_id existing.run_id ≡ some run_id
      → given_or u.run_type existing.run_type ≡ some run_type
      → is_judged run_type ≡ true
      → run_of run_type run_id s ≡ some run
      → run_of run_type run_id (publish_job_event c job_id u s).1
        ≡ some (record run { status = verdict run.status u.status (gate_of c u run_type run) })
  unfolding publish_job_event publish_known
  publish_job_event-verdict c job_id u s existing run_type run_id run known id type judged found =
      let e = updated_event c job_id u existing in
      let recorded = record_event e s in
      let kept : run_of run_type run_id recorded ≡ some run = rw (record_event-runs e s) found in
      rw known (
        after_gate-run_of c e (judge c u (judged_run e recorded)) recorded run_type run_id run
          judged id type kept
        ∙ ap (λ o. some (record run { status = verdict run.status u.status o }))
            (judge-gate_of c u e recorded run_type run_id run refl id type judged kept))

  -- If a run was not a success before an update of its job and is one after it, then the run is
  -- complete as the success gate demands, whatever order the set of roles is walked in.
  pub publish_job_event-IsComplete :
      (c : Call F) (job_id : ℕ) (u : JobLifecycleUpdateRequest F) (s : ControlPlane F)
      (existing : JobLifecycleEvent F) (run_type : String) (run_id : ℕ) (run run' : Run F)
      → ((roles : List String) (role : String)
          → contains role (c.role_order roles) ≡ contains role roles)
      → find_event job_id s ≡ some existing
      → given_or u.run_id existing.run_id ≡ some run_id
      → given_or u.run_type existing.run_type ≡ some run_type
      → is_judged run_type ≡ true
      → run_of run_type run_id s ≡ some run
      → run_of run_type run_id (publish_job_event c job_id u s).1 ≡ some run'
      → run.status ≢ success
      → run'.status ≡ success
      → IsComplete c.language run_type run.row u.gate
  publish_job_event-IsComplete c job_id u s existing run_type run_id run run' order known id type
        judged found after before now =
      let result =
        publish_job_event-verdict c job_id u s existing run_type run_id run known id type judged
          found in
      let status : verdict run.status u.status (gate_of c u run_type run) ≡ success =
        ap (λ (r : Run F). r.status) (some_inj (sym result ∙ after)) ∙ now in
      (evaluate_success_gate_passes c.language c.role_order run_type run.row u.gate order).0 (
        gate_passed run.status u.status
          (evaluate_success_gate c.language c.role_order run_type run.row u.gate) before status)
