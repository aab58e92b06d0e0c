-- ===== src/Jobs/Artifacts.antt =====
-- The summaries of artifacts: `RunArtifactSqlRepository` of
-- apps/api-control-plane/app/persistence/repositories.py.
use gooberberg_terminal.Prelude.{
  ℕ, ◌+◌, ◌*◌, zero, suc, String, Bool, true, false, not, ◌&&◌, ◌||◌, Option, none, some, List, [],
  ◌∷◌, ◌++◌, map, nat_eq, string_eq, ◌==◌, ltb, leb, if◌then◌else◌, filter, length, or_else,
}
use gooberberg_terminal.Prelude.Float.{Float}
use gooberberg_terminal.Prelude.Sorting.{sort_by}
use gooberberg_terminal.Prelude.Texts.{strip, is_empty_text}
use gooberberg_terminal.Prelude.Value.{Value, bool, int, num, Fields, Builtins, get, of_int}

-- `RunArtifactRow`, without the columns that keep their defaults.
pub record RunArtifact (F : Type 0) : Type 0 where
  pub id : ℕ
  pub run_id : ℕ
  pub run_type : String
  pub job_id : ℕ
  pub artifact_ref : String
  pub checksum : String
  pub size_bytes : ℕ
  pub metrics : Fields F
  pub notes : Option String
  pub last_accessed_at : ℕ
  pub retention_class : String
  pub created_at : ℕ

-- The arguments of `add_summary`.
pub record Summary (F : Type 0) : Type 0 where
  pub run_id : ℕ
  pub run_type : String
  pub job_id : ℕ
  pub artifact_ref : String
  pub checksum : Option String
  pub size_bytes : Option ℕ
  pub metrics : Fields F
  pub notes : Option String
  pub retention_class : String

-- The answer of `_to_summary`, with the row for the columns that it copies.
pub record ArtifactSummary (F : Type 0) : Type 0 where
  pub row : RunArtifact F
  pub best_metric : Option F

-- What is outside: `sha256` of a text, the row that the database gives first where no order is asked
-- for, and the identifier of a new row.
pub record Database (F : Type 0) : Type 0 where
  pub sha256 : String → String
  pub first : List (RunArtifact F) → Option (RunArtifact F)
  pub fresh_id : List (RunArtifact F) → ℕ

abbrev pub day : ℕ
day = 86400

-- `(checksum or "").strip() or sha256(artifact_ref)`
abbrev pub resolved_checksum : (String → String) → Option String → String → String
resolved_checksum sha256 checksum artifact_ref =
    let given = strip (or_else checksum "") in
    if is_empty_text given then sha256 artifact_ref else given

-- `size_bytes or existing`
abbrev pub size_or : Option ℕ → ℕ → ℕ
size_or none n = n
size_or (some zero) n = n
size_or (some (suc m)) n = suc m

module _ {F : Type 0} where
  abbrev pub is_of_run : ℕ → String → String → RunArtifact F → Bool
  is_of_run run_id run_type checksum r =
      r.run_id == run_id && r.run_type == run_type && r.checksum == checksum

  abbrev pub has_checksum : String → RunArtifact F → Bool
  has_checksum checksum r = r.checksum == checksum

  -- The change of a row, by its primary key.
  abbrev pub update_row :
      ℕ → (RunArtifact F → RunArtifact F) → List (RunArtifact F) → List (RunArtifact F)
  update_row id change rows = map (λ r. if r.id == id then change r else r) rows

  -- What a repeated summary changes of the row of its run.
  abbrev pub refreshed : ℕ → Summary F → RunArtifact F → RunArtifact F
  refreshed now a r = record r {
    last_accessed_at = now;
    metrics = a.metrics;
    notes = a.notes;
    size_bytes = size_or a.size_bytes r.size_bytes;
    retention_class = a.retention_class;
  }

  abbrev pub ref_of : Option (RunArtifact F) → String → String
  ref_of none artifact_ref = artifact_ref
  ref_of (some r) artifact_ref = r.artifact_ref

  abbrev pub new_row : ℕ → ℕ → String → Option (RunArtifact F) → Summary F → RunArtifact F
  new_row id now checksum dedup_source a = record {
    id = id;
    run_id = a.run_id;
    run_type = a.run_type;
    job_id = a.job_id;
    artifact_ref = ref_of dedup_source a.artifact_ref;
    checksum = checksum;
    size_bytes = size_or a.size_bytes 0;
    metrics = a.metrics;
    notes = a.notes;
    last_accessed_at = now;
    retention_class = a.retention_class;
    created_at = now;
  }

  -- `add_summary`
  unfoldable pub add_summary :
      Database F → ℕ → Summary F → List (RunArtifact F) → List (RunArtifact F)
  unfolding strip
  add_summary db now a rows =
      let checksum = resolved_checksum db.sha256 a.checksum a.artifact_ref in
      elim (db.first (filter (is_of_run a.run_id a.run_type checksum) rows)) [
        | some existing ↦ update_row existing.id (refreshed now a) rows
        | none ↦
            let dedup_source = db.first (filter (has_checksum checksum) rows) in
            rows ++ new_row (db.fresh_id rows) now checksum dedup_source a ∷ []
      ]

  -- `prune_old_intermediates`; accessed before the cut-off is accessed more than the period ago.
  abbrev pub is_outdated : ℕ → ℕ → RunArtifact F → Bool
  is_outdated now retention_days r =
      let days = if ltb retention_days 1 then 1 else retention_days in
      r.retention_class == "intermediate" && ltb (r.last_accessed_at + days * day) now

  unfoldable pub prune_old_intermediates : ℕ → ℕ → List (RunArtifact F) → ℕ × List (RunArtifact F)
  prune_old_intermediates now retention_days rows = (
    length (filter (is_outdated now retention_days) rows),
    filter (λ r. not (is_outdated now retention_days r)) rows,
  )

  abbrev pub is_of_job : ℕ → RunArtifact F → Bool
  is_of_job job_id r = r.job_id == job_id

  -- `order_by(created_at.desc(), id.desc())`
  abbrev pub is_listed_before : RunArtifact F → RunArtifact F → Bool
  is_listed_before a b =
      ltb b.created_at a.created_at || (b.created_at == a.created_at && leb b.id a.id)

module _ {F : Type 0} ⦃d : Float F⦄ ⦃b : Builtins F⦄ where
  -- `float(v)` of a value that is a `float` or an `int`.
  abbrev pub as_float : Option (Value F) → Option F
  as_float (some (bool true)) = some (d.of_nat 1)
  as_float (some (bool false)) = some (d.of_nat 0)
  as_float (some (int n)) = some (of_int n)
  as_float (some (num x)) = some x
  as_float _ = none

  abbrev pub first_metric : List String → Fields F → Option F
  unfolding get
  first_metric [] metrics = none
  first_metric (key ∷ keys) metrics = elim (as_float (get key metrics)) [
    | some x ↦ some x
    | none ↦ first_metric keys metrics
  ]

  -- `_best_metric`
  unfoldable pub best_metric : Fields F → Option F
  unfolding get
  best_metric metrics =
      first_metric ("best_metric" ∷ "score" ∷ "accuracy" ∷ "f1" ∷ "auc" ∷ []) metrics

  unfoldable pub to_summary : RunArtifact F → ArtifactSummary F
  unfolding best_metric
  to_summary r = record { row = r; best_metric = best_metric r.metrics }

  -- `list_for_job`
  unfoldable pub list_for_job : ℕ → List (RunArtifact F) → List (ArtifactSummary F)
  unfolding to_summary sort_by
  list_for_job job_id rows =
      map to_summary (sort_by is_listed_before (filter (is_of_job job_id) rows))

  -- `get_for_job`, which notes the access.
  unfoldable pub get_for_job :
      Database F
      → ℕ
      → ℕ
      → ℕ
      → List (RunArtifact F)
      → Option (ArtifactSummary F) × List (RunArtifact F)
  unfolding to_summary
  get_for_job db now job_id artifact_id rows =
      elim (db.first (filter (λ r. r.job_id == job_id && r.id == artifact_id) rows)) [
        | none ↦ (none, rows)
        | some r ↦ (
          some (to_summary (record r { last_accessed_at = now })),
          update_row r.id (λ x. record x { last_accessed_at = now }) rows,
        )
      ]
