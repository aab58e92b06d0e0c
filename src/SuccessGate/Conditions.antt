-- ===== src/SuccessGate/Conditions.antt =====
-- When each check of apps/api-control-plane/app/domain/run_success_gate.py finds nothing wrong.
use gooberberg_terminal.Prelude.{
  String, ◌≡◌, ◌↔◌, refl, ap, ◌∙◌, sym, Bool, true, false, ◌||◌, ◌⊎◌, Option, none, some, List, [],
  ◌∷◌, arith, string_eq, ◌==◌, any, if◌then◌else◌, filter, All, Bool-cases, inl, inr,
}
use mathlib.Core.Path.{subst}
use gooberberg_terminal.Prelude.Int.{ℤ}
use gooberberg_terminal.Prelude.Float.{Float}
use gooberberg_terminal.Prelude.Dict.{Dict, lookup}
use gooberberg_terminal.Prelude.Raising.{◌>>=◌, some_inj}
use gooberberg_terminal.Prelude.Value.{Value, Fields, Builtins, get, to_int}
use gooberberg_terminal.SuccessGate.Checks.{
  GateFailure, final_candidate_metadata_missing, runtime_mismatch, seed_inconsistent, RunRow,
  EventUpdate, Language, required_metadata, unless_empty, is_absent, missing_required_metadata,
  run_metadata_of, is_positive_int, contradicts, inconsistency, mismatches, runtime_failure,
  is_final_candidate, metadata_failure, role_entries, checksum_of, artifact_failure,
}
use gooberberg_terminal.SuccessGate.Texts.{sha_match}
use gooberberg_terminal.SuccessGate.Gate.{
  Outcome, first_of, all_equal, check_artifacts, check_given, persisted_seed, given, check_seeds,
}

pub first_of-none :
    (o : Option GateFailure) (rest : Outcome)
    → (first_of o rest ≡ some none) ↔ ((o ≡ none) × (rest ≡ some none))
first_of-none none rest = (λ e. (refl, e), λ h. h.1)
first_of-none (some f) rest = (λ e. cc, λ h. cc)

pub unless_empty-none :
    (failure : List String → GateFailure) (ks : List String)
    → (unless_empty failure ks ≡ none) ↔ (ks ≡ [])
unless_empty-none failure [] = (λ e. refl, λ e. refl)
unless_empty-none failure (k ∷ ks) = (λ e. cc, λ e. cc)

pub filter-none :
    (test : String → Bool) (ks : List String) → (filter test ks ≡ []) ↔ All (λ k. test k ≡ false) ks
filter-none test [] = (λ e. tt, λ h. refl)
filter-none test (k ∷ ks) = ground (arith, filter-none test ks)

present-none :
    (o p : Option ℤ) (kept : ℤ)
    → (o >>= (λ a. p >>= (λ m. some (if all_equal a m kept then none else some seed_inconsistent)))
        ≡ some none)
      ↔ ((a : ℤ) × (m : ℤ) × (o ≡ some a) × (p ≡ some m) × (all_equal a m kept ≡ true))
present-none none p kept = (λ e. cc, λ (a, m, x, y, z). cc)
present-none (some a) none kept = (λ e. cc, λ (a, m, x, y, z). cc)
present-none (some a) (some m) kept = (
  λ e. (a, m, refl, refl, ground arith),
  λ (a', m', x, y, z). rw (some_inj x, some_inj y, z) refl,
)

module _ {F : Type 0} ⦃d : Float F⦄ ⦃b : Builtins F⦄ where
  -- The artifact of a role is in the manifest with a checksum that is one and a positive size.
  abbrev pub HasArtifact : EventUpdate F → String → Type 0
  HasArtifact u role =
      (entry : Fields F) × (lookup role (role_entries u.artifact_manifest []) ≡ some entry)
      × (sha_match (checksum_of entry) ≡ true)
      × (is_positive_int (get "size_bytes" entry) ≡ true)

  -- The three seeds are there and read as one integer.
  abbrev pub SeedsAgree : RunRow F → EventUpdate F → Type 0
  SeedsAgree row u =
      (seed : Value F) × (metadata_seed : Value F) × (a : ℤ) × (m : ℤ) × (kept : ℤ) × (given
          (get "seed" u.lineage)
        ≡ some seed)
      × (given (get "seed" (run_metadata_of row)) ≡ some metadata_seed)
      × (persisted_seed row ≡ some kept)
      × (to_int seed ≡ some a)
      × (to_int metadata_seed ≡ some m)
      × (all_equal a m kept ≡ true)

  pub inconsistency-none :
      (lineage : Fields F) (fields : List (String × Option String))
      → (inconsistency lineage fields ≡ none)
        ↔ All (λ f. contradicts f.1 (get f.0 lineage) ≡ false) fields
  unfolding inconsistency
  inconsistency-none lineage [] = (λ e. tt, λ h. refl)
  inconsistency-none lineage ((key, kept) ∷ fields) =
      ground (arith, inconsistency-none lineage fields)

  pub runtime-none :
      (l : Language F) (u : EventUpdate F)
      → (runtime_failure l u ≡ none) ↔ (
          ((l.lower u.mismatch_policy == "allow" || l.lower u.mismatch_policy == "warn") ≡ true)
          ⊎ (mismatches l u.expected_runtime u.runtime_observed ≡ []))
  unfolding runtime_failure
  runtime-none l u = ground (
    arith,
    unless_empty-none runtime_mismatch (mismatches l u.expected_runtime u.runtime_observed),
  )

  pub metadata-none :
      (l : Language F) (row : RunRow F) (u : EventUpdate F)
      → (metadata_failure l row u ≡ none) ↔ (
          any (is_final_candidate l) u.artifact_manifest ≡ true
          → All (λ key. is_absent (get key (run_metadata_of row)) ≡ false) required_metadata)
  unfolding metadata_failure missing_required_metadata
  metadata-none l row u =
      let missing = missing_required_metadata (run_metadata_of row) in
      elim (Bool-cases (any (is_final_candidate l) u.artifact_manifest)) [
        | inl final ↦ ground (
          arith,
          final,
          unless_empty-none final_candidate_metadata_missing missing,
          filter-none (λ key. is_absent (get key (run_metadata_of row))) required_metadata,
        )
        | inr other ↦ (λ e h. absurd (ground (arith, other, h)), λ h. ground (arith, other))
      ]

  artifact-none :
      (role : String) (entry : Fields F)
      → (artifact_failure role entry ≡ none) ↔ (
          (sha_match (checksum_of entry) ≡ true)
          × (is_positive_int (get "size_bytes" entry) ≡ true))
  unfolding artifact_failure
  artifact-none role entry = ground arith

  -- The seeds as the gate finds them.
  abbrev Agree : Option (Value F) → Option (Value F) → Option ℤ → Type 0
  Agree o p k =
      (seed : Value F) × (metadata_seed : Value F) × (a : ℤ) × (m : ℤ) × (kept : ℤ) × (o
        ≡ some seed)
      × (p ≡ some metadata_seed)
      × (k ≡ some kept)
      × (to_int seed ≡ some a)
      × (to_int metadata_seed ≡ some m)
      × (all_equal a m kept ≡ true)

  given-none :
      (o p : Option (Value F)) (k : Option ℤ) → (check_given o p k ≡ some none) ↔ Agree o p k
  given-none none p k = (λ e. cc, λ (s, t, a, m, z, es, et, ek, ea, em, same). cc)
  given-none (some x) none k = (λ e. cc, λ (s, t, a, m, z, es, et, ek, ea, em, same). cc)
  given-none (some x) (some y) none = (λ e. cc, λ (s, t, a, m, z, es, et, ek, ea, em, same). cc)
  given-none (some x) (some y) (some kept) = (
    λ e.
        let (a, m, ea, em, same) = (present-none (to_int x) (to_int y) kept).0 e in
        (x, y, a, m, kept, refl, refl, refl, ea, em, same),
    λ (s, t, a, m, z, es, et, ek, ea, em, same). (present-none (to_int x) (to_int y) kept).1 (
      a,
      m,
      ap to_int (some_inj es) ∙ ea,
      ap to_int (some_inj et) ∙ em,
      subst (λ i. all_equal a m i ≡ true) (sym (some_inj ek)) same,
    ),
  )

  pub seeds-none :
      (row : RunRow F) (u : EventUpdate F) → (check_seeds row u ≡ some none) ↔ SeedsAgree row u
  unfolding check_seeds
  seeds-none row u = given-none _ _ _

  -- What the loop over the roles finds, from a table of entries.
  abbrev pub HasEntry : Dict String (Fields F) → String → Type 0
  HasEntry entries role =
      (entry : Fields F) × (lookup role entries ≡ some entry)
      × (sha_match (checksum_of entry) ≡ true)
      × (is_positive_int (get "size_bytes" entry) ≡ true)

  entry-none :
      (o : Option (Fields F)) (role : String) (rest : Outcome)
      → ((elim o [ none ↦ none | some entry ↦ first_of (artifact_failure role entry) rest ])
          ≡ some none)
        ↔ (((entry : Fields F) × (o ≡ some entry)
              × (sha_match (checksum_of entry) ≡ true)
              × (is_positive_int (get "size_bytes" entry) ≡ true))
            × (rest ≡ some none))
  entry-none none role rest = (λ e. cc, λ ((entry, eq, h, k), after). cc)
  entry-none (some x) role rest = (
    λ e.
        let (passed, after) = (first_of-none (artifact_failure role x) rest).0 e in
        let (hash, size) = (artifact-none role x).0 passed in ((x, refl, hash, size), after),
    λ ((entry, eq, hash, size), after).
        (first_of-none (artifact_failure role x) rest).1
          ((artifact-none role x).1 (rw (some_inj eq) hash, rw (some_inj eq) size), after),
  )

  pub artifacts-none :
      (entries : Dict String (Fields F)) (roles : List String) (rest : Outcome)
      → (check_artifacts entries roles rest ≡ some none)
        ↔ (All (HasEntry entries) roles × (rest ≡ some none))
  unfolding check_artifacts
  artifacts-none entries [] rest = (λ e. (tt, e), λ h. h.1)
  artifacts-none entries (role ∷ roles) rest =
      let here = entry-none (lookup role entries) role (check_artifacts entries roles rest) in
      let later = artifacts-none entries roles rest in
      (
        λ e. let (x, after) = here.0 e in let (xs, last) = later.0 after in ((x, xs), last),
        λ ((x, xs), last). here.1 (x, later.1 (xs, last)),
      )
