-- ===== src/Jobs/Repeated.antt =====
-- What a repeated summary of an artifact does not do,
-- apps/api-control-plane/app/persistence/repositories.py.
use gooberberg_terminal.Prelude.{
  ℕ, Bool, true, false, true-false, some, List, [], ◌∷◌, map, ◌≡◌, ◌∙◌, refl, sym, ap, inl, inr,
  nat_eq, ◌==◌, filter, any, if◌then◌else◌, All, Bool-cases, Option-cases,
}
use gooberberg_terminal.Prelude.Pairs.{filter-empty}
use gooberberg_terminal.Prelude.Float.{Float}
use gooberberg_terminal.Prelude.Sorting.{insert_sorted, sort_by}
use gooberberg_terminal.Prelude.Value.{Builtins}
use gooberberg_terminal.Jobs.Artifacts.{
  RunArtifact, Summary, Database, resolved_checksum, is_of_run, refreshed, add_summary, is_of_job,
  is_listed_before, to_summary, list_for_job,
}
use gooberberg_terminal.Jobs.Stored.{IsDatabase}

module _ {A : Type 0} where
  any-All : (test : A → Bool) (xs : List A) → All (λ x. test x ≡ false) xs → any test xs ≡ false
  any-All test [] h = refl
  any-All test (x ∷ xs) h = rw (h.0) (any-All test xs h.1)

  filter-map :
      (test : A → Bool) (f : A → A)
      → ((x : A) → test (f x) ≡ test x)
      → (xs : List A) → filter test (map f xs) ≡ map f (filter test xs)
  filter-map test f same [] = refl
  filter-map test f same (x ∷ xs) = elim (Bool-cases (test x)) [
    | inl keeps ↦ rw (same x, keeps) (ap (λ ys. f x ∷ ys) (filter-map test f same xs))
    | inr drops ↦ rw (same x, drops) (filter-map test f same xs)
  ]

  insert_sorted-map :
      (before : A → A → Bool) (f : A → A)
      → ((x y : A) → before (f x) (f y) ≡ before x y)
      → (x : A) (xs : List A)
      → insert_sorted before (f x) (map f xs) ≡ map f (insert_sorted before x xs)
  unfolding insert_sorted
  insert_sorted-map before f same x [] = refl
  insert_sorted-map before f same x (y ∷ ys) = elim (Bool-cases (before x y)) [
    | inl first ↦ rw (same x y, first) refl
    | inr later ↦ rw (same x y, later) (ap (λ zs. f y ∷ zs) (insert_sorted-map before f same x ys))
  ]

  sort_by-map :
      (before : A → A → Bool) (f : A → A)
      → ((x y : A) → before (f x) (f y) ≡ before x y)
      → (xs : List A) → sort_by before (map f xs) ≡ map f (sort_by before xs)
  unfolding sort_by
  sort_by-map before f same [] = refl
  sort_by-map before f same (x ∷ xs) =
      ap (insert_sorted before (f x)) (sort_by-map before f same xs)
      ∙ insert_sorted-map before f same x (sort_by before xs)

module _ {F : Type 0} where
  -- The change of one row does not change where it is listed.
  abbrev IsUnlisted : (RunArtifact F → RunArtifact F) → Type 0
  IsUnlisted change =
      (r : RunArtifact F)
      → ((change r).id ≡ r.id)
        × ((change r).job_id ≡ r.job_id)
        × ((change r).created_at ≡ r.created_at)

  update-IsUnlisted :
      (id : ℕ) (now : ℕ) (a : Summary F)
      → IsUnlisted (λ r. if r.id == id then refreshed now a r else r)
  update-IsUnlisted id now a r = elim (Bool-cases (r.id == id)) [
    | inl hit ↦ rw (hit) (refl, refl, refl)
    | inr other ↦ rw (other) (refl, refl, refl)
  ]

  some_found :
      (db : Database F) (test : RunArtifact F → Bool) (rows : List (RunArtifact F))
      → IsDatabase db
      → any test rows ≡ true
      → (r : RunArtifact F) × (db.first (filter test rows) ≡ some r)
  some_found db test rows isdb h = elim (Option-cases (db.first (filter test rows))) [
    | inr found ↦ found
    | inl absent ↦
        let misses = filter-empty test rows (isdb.complete (filter test rows) absent) in
        absurd (true-false (sym h ∙ any-All test rows misses))
  ]

module _ {F : Type 0} ⦃d : Float F⦄ ⦃b : Builtins F⦄ where
  -- The identifiers that `list_for_job` lists.
  abbrev pub listed_ids : ℕ → List (RunArtifact F) → List ℕ
  unfolding list_for_job
  listed_ids job_id rows = map (λ s. s.row.id) (list_for_job job_id rows)

  summary_ids :
      (change : RunArtifact F → RunArtifact F)
      → IsUnlisted change
      → (rows : List (RunArtifact F))
      → map (λ s. s.row.id) (map to_summary (map change rows))
        ≡ map (λ s. s.row.id) (map to_summary rows)
  unfolding to_summary
  summary_ids change same [] = refl
  summary_ids change same (r ∷ rows) =
      rw ((same r).0) (ap (λ ids. r.id ∷ ids) (summary_ids change same rows))

  listed_ids-map :
      (change : RunArtifact F → RunArtifact F) (job_id : ℕ) (rows : List (RunArtifact F))
      → IsUnlisted change
      → listed_ids job_id (map change rows) ≡ listed_ids job_id rows
  unfolding list_for_job
  listed_ids-map change job_id rows same =
      let of_job : (r : RunArtifact F) → is_of_job job_id (change r) ≡ is_of_job job_id r =
        λ r. rw ((same r).1) refl in
      let before : (x y : RunArtifact F)
          → is_listed_before (change x) (change y) ≡ is_listed_before x y =
        λ x y. rw ((same x).0, (same y).0, (same x).2, (same y).2) refl in
      let kept = filter (is_of_job job_id) rows in
      ap (λ rs. map (λ s. s.row.id) (map to_summary (sort_by is_listed_before rs)))
        (filter-map (is_of_job job_id) change of_job rows)
      ∙ ap (λ rs. map (λ s. s.row.id) (map to_summary rs))
          (sort_by-map is_listed_before change before kept)
      ∙ summary_ids change same (sort_by is_listed_before kept)

  -- A summary for a run and a checksum that are stored changes for no job which summaries it lists, not
  -- even for the job that reports it.
  pub add_summary-listed_ids :
      (db : Database F) (now : ℕ) (a : Summary F) (rows : List (RunArtifact F)) (job_id : ℕ)
      → IsDatabase db
      → any
          (is_of_run a.run_id a.run_type (resolved_checksum db.sha256 a.checksum a.artifact_ref))
          rows
        ≡ true
      → listed_ids job_id (add_summary db now a rows) ≡ listed_ids job_id rows
  unfolding add_summary
  add_summary-listed_ids db now a rows job_id isdb stored =
      let test =
        is_of_run a.run_id a.run_type (resolved_checksum db.sha256 a.checksum a.artifact_ref) in
      let (existing, found) = some_found db test rows isdb stored in
      rw (add_summary, found) (listed_ids-map _ job_id rows (update-IsUnlisted existing.id now a))
