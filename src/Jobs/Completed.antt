-- ===== src/Jobs/Completed.antt =====
-- What the end of a job leaves in the table of artifact summaries,
-- apps/api-control-plane/app/api/routers/jobs.py and persistence/repositories.py.
use gooberberg_terminal.Prelude.{
  ℕ, ◌+◌, ◌≤◌, String, true, not, Option, some, List, ◌≡◌, refl, sym, subst, inl, inr, nat_eq,
  string_eq, ◌==◌, filter, if◌then◌else◌, Option-cases, arith,
}
use gooberberg_terminal.Prelude.Pairs.{
  Any, Any-get, Any-map, Any-last, Any-of-filter, Any-filter, All-get, filter-passes,
}
use gooberberg_terminal.Prelude.Float.{Float}
use gooberberg_terminal.Prelude.Value.{Builtins}
use gooberberg_terminal.Jobs.Store.{JobLifecycleEvent, ControlPlane}
use gooberberg_terminal.Jobs.Router.{replied, Call, JobLifecycleUpdateRequest}
use gooberberg_terminal.Jobs.Updates.{publish_job_event}
use gooberberg_terminal.Jobs.Artifacts.{
  RunArtifact, Summary, Database, resolved_checksum, is_of_run, refreshed, add_summary, is_outdated,
  day, prune_old_intermediates,
}
use gooberberg_terminal.Jobs.Stored.{IsDatabase}
use gooberberg_terminal.Jobs.Constraints.{RunConstraints}
use gooberberg_terminal.Jobs.Completion.{
  ArtifactUpdate, Storage, Clock, Outcome, response_of, outcome_of, resolve_run_constraints,
  summary_of, store_summary, publish_and_store,
}

module _ {F : Type 0} where
  -- A row that has what the summary says, accessed at an instant.
  pub record IsStored (db : Database F) (now : ℕ) (a : Summary F) (r : RunArtifact F) : Type 0 where
    pub run_id : r.run_id ≡ a.run_id
    pub run_type : r.run_type ≡ a.run_type
    pub checksum : r.checksum ≡ resolved_checksum db.sha256 a.checksum a.artifact_ref
    pub metrics : r.metrics ≡ a.metrics
    pub notes : r.notes ≡ a.notes
    pub retention_class : r.retention_class ≡ a.retention_class
    pub last_accessed_at : r.last_accessed_at ≡ now

  of_run_keys :
      (run_id : ℕ) (run_type checksum : String) (r : RunArtifact F)
      → is_of_run run_id run_type checksum r ≡ true
      → (r.run_id ≡ run_id) × (r.run_type ≡ run_type) × (r.checksum ≡ checksum)
  of_run_keys run_id run_type checksum r h = (
    (nat_eq.beq_iff r.run_id run_id).0 (ground (arith, h)),
    (string_eq.beq_iff r.run_type run_type).0 (ground (arith, h)),
    (string_eq.beq_iff r.checksum checksum).0 (ground (arith, h)),
  )

  refreshed-IsStored :
      (db : Database F) (now : ℕ) (a : Summary F) (r : RunArtifact F)
      → (r.run_id ≡ a.run_id)
        × (r.run_type ≡ a.run_type)
        × (r.checksum ≡ resolved_checksum db.sha256 a.checksum a.artifact_ref)
      → IsStored db now a (if r.id == r.id then refreshed now a r else r)
  refreshed-IsStored db now a r keys = rw ((nat_eq.beq_iff r.id r.id).1 refl) record {
    run_id = keys.0;
    run_type = keys.1;
    checksum = keys.2;
    metrics = refl;
    notes = refl;
    retention_class = refl;
    last_accessed_at = refl;
  }

  add_summary-IsStored :
      (db : Database F) (now : ℕ) (a : Summary F) (rows : List (RunArtifact F))
      → IsDatabase db
      → Any (IsStored db now a) (add_summary db now a rows)
  unfolding add_summary
  add_summary-IsStored db now a rows isdb =
      let checksum = resolved_checksum db.sha256 a.checksum a.artifact_ref in
      let test = is_of_run a.run_id a.run_type checksum in
      elim (Option-cases (db.first (filter test rows))) [
        | inl absent ↦
            rw (add_summary, absent)
              (Any-last (IsStored db now a) rows _ (record {
                run_id = refl;
                run_type = refl;
                checksum = refl;
                metrics = refl;
                notes = refl;
                retention_class = refl;
                last_accessed_at = refl;
              }))
        | inr (existing, found) ↦
            let (i, at) = isdb.chosen (filter test rows) existing found in
            let there : Any (λ r. r ≡ existing) rows =
              Any-of-filter (λ r. r ≡ existing) test rows
                (Any-get (λ r. r ≡ existing) (filter test rows) i existing at refl) in
            let passes =
              All-get (λ r. test r ≡ true) (filter test rows) i existing (filter-passes test rows)
                at in
            let refreshes =
              refreshed-IsStored db now a existing
                (of_run_keys a.run_id a.run_type checksum existing passes) in
            rw (add_summary, found)
              (Any-map (λ r. r ≡ existing) (IsStored db now a) _ rows
                (λ r same.
                  subst
                    (λ x. IsStored db now a (if x.id == existing.id then refreshed now a x else x))
                    (sym same) refreshes)
                there)
      ]

  -- A day after an access no period is over.
  is_outdated-recent :
      (now days : ℕ) (r : RunArtifact F)
      → now ≤ r.last_accessed_at + day
      → not (is_outdated now days r) ≡ true
  is_outdated-recent now days r h = ground (arith, h)

  store_summary-IsStored :
      ⦃d : Float F⦄ ⦃b : Builtins F⦄ (storage : Storage F) (clock : Clock) (a : Summary F)
      (rows : List (RunArtifact F))
      → IsDatabase storage.database
      → clock.pruned_at ≤ clock.stored_at + day
      → Any (IsStored storage.database clock.stored_at a) (store_summary storage clock a rows)
  unfolding store_summary prune_old_intermediates
  store_summary-IsStored storage clock a rows isdb soon =
      Any-filter (IsStored storage.database clock.stored_at a) _
        (add_summary storage.database clock.stored_at a rows)
        (λ r stored.
          is_outdated-recent clock.pruned_at storage.retention_days r
            (subst (λ t. clock.pruned_at ≤ t + day) (sym stored.last_accessed_at) soon))
        (add_summary-IsStored storage.database clock.stored_at a rows isdb)

module _ {F : Type 0} ⦃d : Float F⦄ ⦃b : Builtins F⦄ where
  -- Where an update is taken, its event ends the job with a result, and the constraints of the run can be
  -- read, the answer is the response for that event, and the table has a summary for the run and the
  -- checksum, with the metrics under the constraints and the time at which it was stored, which the
  -- retention of the same call keeps, if it reads the clock no more than a day later.
  pub publish_and_store-IsStored :
      (storage : Storage F) (clock : Clock) (c : Call F) (job_id : ℕ)
      (update : JobLifecycleUpdateRequest F) (u : ArtifactUpdate F) (s : ControlPlane F)
      (rows : List (RunArtifact F)) (e : JobLifecycleEvent F) (o : Outcome)
      (constraints : Option (RunConstraints F))
      → IsDatabase storage.database
      → clock.pruned_at ≤ clock.stored_at + day
      → let (answer, s') = publish_job_event c job_id update s in
        answer ≡ replied e
        → outcome_of e ≡ some o
        → resolve_run_constraints storage.schema o s'.runs ≡ some constraints
        → let (reply, s'', rows') = publish_and_store storage clock c job_id update u s rows in
          (reply ≡ response_of e)
          × (s'' ≡ s')
          × Any
              (IsStored storage.database clock.stored_at
                (summary_of storage job_id o u constraints))
              rows'
  unfolding publish_and_store
  publish_and_store-IsStored storage clock c job_id update u s rows e o constraints isdb soon
        answers ends reads =
      rw (publish_and_store, answers, ends, reads)
        (
          refl,
          refl,
          store_summary-IsStored storage clock (summary_of storage job_id o u constraints) rows isdb
              soon,
        )
