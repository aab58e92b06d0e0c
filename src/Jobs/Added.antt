-- ===== src/Jobs/Added.antt =====
-- The artifact summaries stay sound when one is added or read,
-- apps/api-control-plane/app/persistence/repositories.py.
use gooberberg_terminal.Prelude.{
  ℕ, String, true, false, true-false, ◌&&◌, Option, none, some, List, [], ◌∷◌, ◌++◌, ◌≡◌, ◌≢◌, ◌∙◌,
  refl, sym, ap, inl, inr, nat_eq, string_eq, ◌==◌, filter, if◌then◌else◌, All, All-append,
  Option-cases,
}
use gooberberg_terminal.Prelude.Pairs.{All-both, AllPairs-append, filter-empty}
use gooberberg_terminal.Prelude.Float.{Float}
use gooberberg_terminal.Prelude.Value.{Builtins}
use gooberberg_terminal.Jobs.Artifacts.{
  RunArtifact, Summary, Database, resolved_checksum, is_of_run, has_checksum, refreshed, ref_of,
  new_row, add_summary, get_for_job,
}
use gooberberg_terminal.Jobs.Stored.{
  IsDatabase, Differ, IsAt, IsSound, map-IsSound, update-IsMinor, first-All,
}

module _ {F : Type 0} where
  is_of_run_lem :
      (run_id : ℕ) (run_type checksum : String) (r : RunArtifact F)
      → r.run_id ≡ run_id
      → r.run_type ≡ run_type
      → r.checksum ≡ checksum
      → is_of_run run_id run_type checksum r ≡ true
  is_of_run_lem run_id run_type checksum r e f g =
      rw
        (
          (nat_eq.beq_iff r.run_id run_id).1 e,
          (string_eq.beq_iff r.run_type run_type).1 f,
          (string_eq.beq_iff r.checksum checksum).1 g,
        )
        refl

  -- An address for a checksum that has none.
  extended :
      (checksum ref : String) (address : String → String) (rows : List (RunArtifact F))
      → All (λ r. has_checksum checksum r ≡ false) rows
      → All (IsAt address) rows
      → All (IsAt (λ k. if k == checksum then ref else address k)) rows
  extended checksum ref address rows =
      All-both (λ r. has_checksum checksum r ≡ false) (IsAt address)
        (IsAt (λ k. if k == checksum then ref else address k)) rows (λ r other at. rw (other) at)

  -- A summary that is not there yet, of an artifact that was stored for another run or not at all.
  new-IsSound :
      (db : Database F) (now : ℕ) (a : Summary F) (checksum : String) (rows : List (RunArtifact F))
      (source : Option (RunArtifact F))
      → IsDatabase db
      → All (λ r. is_of_run a.run_id a.run_type checksum r ≡ false) rows
      → db.first (filter (has_checksum checksum) rows) ≡ source
      → IsSound rows
      → IsSound (rows ++ new_row (db.fresh_id rows) now checksum source a ∷ [])
  new-IsSound db now a checksum rows source isdb other found s =
      let row = new_row (db.fresh_id rows) now checksum source a in
      let differ : All (λ r. Differ r row) rows =
        All-both (λ r. r.id ≢ db.fresh_id rows)
          (λ r. is_of_run a.run_id a.run_type checksum r ≡ false) (λ r. Differ r row) rows
          (λ r apart miss. (
            apart,
            λ e f g. true-false (sym (is_of_run_lem a.run_id a.run_type checksum r e f g) ∙ miss),
          ))
          (isdb.fresh rows) other in
      let (address, rest, at) = addressed source found in
      record {
        distinct = AllPairs-append Differ rows row s.distinct differ;
        address = address;
        addressed = All-append (IsAt address) rows (row ∷ []) rest (at, tt);
      }
    where
      addressed :
          (source : Option (RunArtifact F))
          → db.first (filter (has_checksum checksum) rows) ≡ source
          → (address : String → String) × All (IsAt address) rows
            × (ref_of source a.artifact_ref ≡ address checksum)
      addressed none e = (
        λ k. if k == checksum then a.artifact_ref else s.address k,
        extended checksum a.artifact_ref s.address rows
            (filter-empty (has_checksum checksum) rows (isdb.complete _ e)) s.addressed,
        rw ((string_eq.beq_iff checksum checksum).1 refl) refl,
      )
      addressed (some r) e =
          let (at, same) =
            first-All db (IsAt s.address) (has_checksum checksum) rows r isdb s.addressed e in
          (
            s.address,
            s.addressed,
            at ∙ ap s.address ((string_eq.beq_iff r.checksum checksum).0 same),
          )

  pub add_summary-IsSound :
      (db : Database F) (now : ℕ) (a : Summary F) (rows : List (RunArtifact F))
      → IsDatabase db
      → IsSound rows
      → IsSound (add_summary db now a rows)
  unfolding add_summary
  add_summary-IsSound db now a rows isdb s =
      let checksum = resolved_checksum db.sha256 a.checksum a.artifact_ref in
      let test = is_of_run a.run_id a.run_type checksum in
      elim (Option-cases (db.first (filter test rows))) [
        | inr (existing, found) ↦
            rw (add_summary, found)
              (map-IsSound _ rows
                (update-IsMinor existing.id (refreshed now a) (record {
                  id = λ r. refl;
                  run_id = λ r. refl;
                  run_type = λ r. refl;
                  checksum = λ r. refl;
                  artifact_ref = λ r. refl;
                }))
                s)
        | inl absent ↦
            rw (add_summary, absent)
              (new-IsSound db now a checksum rows _ isdb
                (filter-empty test rows (isdb.complete _ absent)) refl s)
      ]

module _ {F : Type 0} ⦃d : Float F⦄ ⦃b : Builtins F⦄ where
  pub get_for_job-IsSound :
      (db : Database F) (now job_id artifact_id : ℕ) (rows : List (RunArtifact F))
      → IsSound rows
      → IsSound (get_for_job db now job_id artifact_id rows).1
  unfolding get_for_job
  get_for_job-IsSound db now job_id artifact_id rows s =
      elim (Option-cases
        (db.first (filter (λ r. r.job_id == job_id && r.id == artifact_id) rows))) [
          | inl absent ↦ rw (get_for_job, absent) s
          | inr (r, found) ↦
              rw (get_for_job, found)
                (map-IsSound _ rows
                  (update-IsMinor r.id (λ x. record x { last_accessed_at = now })
                    (record {
                      id = λ r. refl;
                      run_id = λ r. refl;
                      run_type = λ r. refl;
                      checksum = λ r. refl;
                      artifact_ref = λ r. refl;
                    }))
                  s)
        ]
