-- ===== src/Jobs/Stored.antt =====
-- What the artifact summaries of apps/api-control-plane/app/persistence/repositories.py keep, through
-- any calls of the repository.
use gooberberg_terminal.Prelude.{
  ℕ, String, Bool, true, none, some, List, [], map, ◌≡◌, ◌≢◌, ◌∙◌, refl, sym, ap, inl, inr, nat_eq,
  string_eq, ◌==◌, filter, get_elem?, if◌then◌else◌, All, All-filter, Bool-cases,
}
use gooberberg_terminal.Prelude.Pairs.{
  AllPairs, All-map, AllPairs-map, AllPairs-filter, All-get, filter-passes,
}
use gooberberg_terminal.Jobs.Artifacts.{RunArtifact, Database, prune_old_intermediates}

module _ {F : Type 0} where
  -- A database: a row that comes first is one of the rows, some row does unless there is none, and the
  -- identifier of a new row is not taken.
  pub record IsDatabase (db : Database F) : Type 0 where
    pub chosen :
        (rows : List (RunArtifact F)) (r : RunArtifact F)
        → db.first rows ≡ some r
        → (i : ℕ) × (get_elem? rows i ≡ some r)
    pub complete : (rows : List (RunArtifact F)) → db.first rows ≡ none → rows ≡ []
    pub fresh : (rows : List (RunArtifact F)) → All (λ r. r.id ≢ db.fresh_id rows) rows

  -- Two rows with different identifiers, not of one run with one checksum.
  abbrev pub Differ : RunArtifact F → RunArtifact F → Type 0
  Differ x y =
      (x.id ≢ y.id) × (x.run_id ≡ y.run_id → x.run_type ≡ y.run_type → x.checksum ≡ y.checksum → ⊥)

  abbrev pub IsAt : (String → String) → RunArtifact F → Type 0
  IsAt address r = r.artifact_ref ≡ address r.checksum

  -- Rows differ, and the checksum of an artifact says where it is.
  pub record IsSound (rows : List (RunArtifact F)) : Type 0 where
    pub distinct : AllPairs Differ rows
    pub address : String → String
    pub addressed : All (IsAt address) rows

  -- A change of a row that leaves what identifies it.
  pub record IsMinor (change : RunArtifact F → RunArtifact F) : Type 0 where
    pub id : (r : RunArtifact F) → (change r).id ≡ r.id
    pub run_id : (r : RunArtifact F) → (change r).run_id ≡ r.run_id
    pub run_type : (r : RunArtifact F) → (change r).run_type ≡ r.run_type
    pub checksum : (r : RunArtifact F) → (change r).checksum ≡ r.checksum
    pub artifact_ref : (r : RunArtifact F) → (change r).artifact_ref ≡ r.artifact_ref

  pub map-IsSound :
      (change : RunArtifact F → RunArtifact F) (rows : List (RunArtifact F))
      → IsMinor change
      → IsSound rows
      → IsSound (map change rows)
  map-IsSound change rows m s = record {
    distinct =
        AllPairs-map Differ change rows
          (λ x y differ. (
            λ e. differ.0 (sym (m.id x) ∙ e ∙ m.id y),
            λ e f g.
                differ.1 (sym (m.run_id x) ∙ e ∙ m.run_id y) (sym (m.run_type x) ∙ f ∙ m.run_type y)
                  (sym (m.checksum x) ∙ g ∙ m.checksum y),
          ))
          s.distinct;
    address = s.address;
    addressed =
        All-map (IsAt s.address) change rows
          (λ x at. m.artifact_ref x ∙ at ∙ ap s.address (sym (m.checksum x))) s.addressed;
  }

  pub update-IsMinor :
      (id : ℕ) (change : RunArtifact F → RunArtifact F)
      → IsMinor change
      → IsMinor (λ r. if r.id == id then change r else r)
  update-IsMinor id change m = record {
    id = λ r. at r (λ x. x.id) (m.id r);
    run_id = λ r. at r (λ x. x.run_id) (m.run_id r);
    run_type = λ r. at r (λ x. x.run_type) (m.run_type r);
    checksum = λ r. at r (λ x. x.checksum) (m.checksum r);
    artifact_ref = λ r. at r (λ x. x.artifact_ref) (m.artifact_ref r);
  }
    where
      at :
          (r : RunArtifact F) {A : Type 0} (column : RunArtifact F → A)
          → column (change r) ≡ column r
          → column (if r.id == id then change r else r) ≡ column r
      at r column same = elim (Bool-cases (r.id == id)) [
        | inl hit ↦ rw (hit) same
        | inr other ↦ rw (other) refl
      ]

  pub prune-IsSound :
      (now days : ℕ) (rows : List (RunArtifact F))
      → IsSound rows
      → IsSound (prune_old_intermediates now days rows).1
  unfolding prune_old_intermediates
  prune-IsSound now days rows s = record {
    distinct = AllPairs-filter Differ _ rows s.distinct;
    address = s.address;
    addressed = All-filter (IsAt s.address) _ rows s.addressed;
  }

  -- The first of the rows that pass a test is one of them.
  pub first-All :
      (db : Database F) (P : RunArtifact F → Type 0) (test : RunArtifact F → Bool)
      (rows : List (RunArtifact F)) (r : RunArtifact F)
      → IsDatabase db
      → All P rows
      → db.first (filter test rows) ≡ some r
      → P r × (test r ≡ true)
  first-All db P test rows r isdb h e =
      let (i, at) = isdb.chosen (filter test rows) r e in
      (
        All-get P (filter test rows) i r (All-filter P test rows h) at,
        All-get (λ x. test x ≡ true) (filter test rows) i r (filter-passes test rows) at,
      )
