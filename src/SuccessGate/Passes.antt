-- ===== src/SuccessGate/Passes.antt =====
-- What a passed gate of apps/api-control-plane/app/domain/run_success_gate.py guarantees.
use gooberberg_terminal.Prelude.{
  String, ◌≡◌, ◌↔◌, refl, ◌∙◌, sym, true, false, not, ◌||◌, ◌⊎◌, Option, none, some, List, [], ◌∷◌,
  arith, string_eq, ◌==◌, any, filter, contains, All, Bool-cases, inl, inr,
}
use mathlib.Core.Path.{subst}
use gooberberg_terminal.Prelude.Float.{Float}
use gooberberg_terminal.Prelude.Dict.{Dict, contains_key, contains_key-some}
use gooberberg_terminal.Prelude.Value.{Fields, Builtins, get}
use gooberberg_terminal.SuccessGate.Checks.{
  GateFailure, lineage_missing, artifact_manifest_missing, RunRow, EventUpdate, Language,
  required_lineage, required_metadata, mandatory_roles, unless_empty, is_falsy, lineage_failure,
  is_absent, run_metadata_of, contradicts, kept_lineage, mismatches, is_final_candidate,
  role_entries,
}
use gooberberg_terminal.SuccessGate.Gate.{
  Outcome, first_of, check_artifacts, missing_roles, check_seeds, evaluate_success_gate,
}
use gooberberg_terminal.SuccessGate.Conditions.{
  first_of-none, unless_empty-none, filter-none, inconsistency-none, runtime-none, metadata-none,
  seeds-none, artifacts-none, HasArtifact, SeedsAgree, HasEntry,
}

first_of-then :
    {P Q : Type 0} {o : Option GateFailure} {rest : Outcome}
    → (o ≡ none) ↔ P
    → (rest ≡ some none) ↔ Q
    → (first_of o rest ≡ some none) ↔ (P × Q)
first_of-then {o = o} {rest} p q = (
  λ e. let (x, y) = (first_of-none o rest).0 e in (p.0 x, q.0 y),
  λ (x, y). (first_of-none o rest).1 (p.1 x, q.1 y),
)

All_iff :
    (P : String → Type 0) (xs : List String)
    → All P xs ↔ ((x : String) → contains x xs ≡ true → P x)
All_iff P [] = (λ h x e. cc, λ h. tt)
All_iff P (x ∷ xs) = (
  λ h y e. elim (Bool-cases (y == x)) [
    | inl same ↦ subst P (sym ((string_eq.beq_iff y x).0 same)) h.0
    | inr other ↦ (All_iff P xs).0 h.1 y (ground (arith, other, e))
  ],
  λ h. (
    h x (ground (arith, (string_eq.beq_iff x x).1 refl)),
    (All_iff P xs).1 (λ y e. h y (ground (arith, e))),
  ),
)

module _ {F : Type 0} ⦃d : Float F⦄ ⦃b : Builtins F⦄ where
  -- What the gate demands of a run.
  pub record IsComplete (l : Language F) (run_type : String) (row : RunRow F) (u : EventUpdate F)
      : Type 0 where
    pub lineage : All (λ key. is_falsy (get key u.lineage) ≡ false) required_lineage
    pub consistent : All (λ f. contradicts f.1 (get f.0 u.lineage) ≡ false) (kept_lineage row)
    pub runtime :
        ((l.lower u.mismatch_policy == "allow" || l.lower u.mismatch_policy == "warn") ≡ true)
        ⊎ (mismatches l u.expected_runtime u.runtime_observed ≡ [])
    pub metadata :
        any (is_final_candidate l) u.artifact_manifest ≡ true
        → All (λ key. is_absent (get key (run_metadata_of row)) ≡ false) required_metadata
    pub artifacts :
        (role : String) → contains role (mandatory_roles run_type) ≡ true → HasArtifact u role
    pub seeds : SeedsAgree row u

  lineage-none :
      (lineage : Fields F)
      → (lineage_failure lineage ≡ none)
        ↔ All (λ key. is_falsy (get key lineage) ≡ false) required_lineage
  unfolding lineage_failure
  lineage-none lineage =
      let missing = filter (λ key. is_falsy (get key lineage)) required_lineage in
      ground (
        arith,
        unless_empty-none lineage_missing missing,
        filter-none (λ key. is_falsy (get key lineage)) required_lineage,
      )

  present_roles :
      (entries : Dict String (Fields F)) (roles : List String)
      → All (HasEntry entries) roles
      → filter (λ role. not (contains_key role entries)) roles ≡ []
  present_roles entries [] h = refl
  present_roles entries (role ∷ roles) ((entry, eq, hash, size), h) =
      rw (present_roles entries roles h, contains_key-some role entries entry eq) refl

  manifest-none :
      (table : Dict String (Fields F)) (order : List String → List String) (run_type : String)
      (row : RunRow F) (u : EventUpdate F)
      → ((roles : List String) (role : String) → contains role (order roles) ≡ contains role roles)
      → let roles = mandatory_roles run_type in
        (first_of
            (unless_empty artifact_manifest_missing (missing_roles table run_type))
            (check_artifacts table (order roles) (check_seeds row u))
          ≡ some none)
        ↔ (((role : String) → contains role roles ≡ true → HasEntry table role) × SeedsAgree row u)
  manifest-none table order run_type row u same =
      let roles = mandatory_roles run_type in
      let loop = artifacts-none table (order roles) (check_seeds row u) in
      let early =
        first_of-none (unless_empty artifact_manifest_missing (missing_roles table run_type)) _ in
      let seeds = seeds-none row u in
      let walked = All_iff (HasEntry table) (order roles) in
      (
        λ e.
            let (arts, after) = loop.0 (early.0 e).1 in
            (λ role h. walked.0 arts role (same roles role ∙ h), seeds.0 after),
        λ (arts, agree).
            let all = (All_iff (HasEntry table) roles).1 arts in
            early.1 (
              (unless_empty-none artifact_manifest_missing _).1 (present_roles table roles all),
              loop.1 (walked.1 (λ role h. arts role (sym (same roles role) ∙ h)), seeds.1 agree),
            ),
      )

  -- In whatever order the roles are walked, the gate lets a run pass exactly if it is complete.
  pub evaluate_success_gate_passes :
      (l : Language F) (order : List String → List String) (run_type : String) (row : RunRow F)
      (u : EventUpdate F)
      → ((roles : List String) (role : String) → contains role (order roles) ≡ contains role roles)
      → (evaluate_success_gate l order run_type row u ≡ some none) ↔ IsComplete l run_type row u
  unfolding evaluate_success_gate
  evaluate_success_gate_passes l order run_type row u same =
      let table = role_entries u.artifact_manifest [] in
      let (passes, completes) = first_of-then (lineage-none u.lineage) (
        first_of-then (inconsistency-none u.lineage (kept_lineage row)) (
          first_of-then (runtime-none l u) (
            first_of-then (metadata-none l row u)
              (manifest-none table order run_type row u same)))) in
      (
        λ e.
            let (lin, (con, (run, (meta, (arts, agree))))) = passes e in
            record {
              lineage = lin;
              consistent = con;
              runtime = run;
              metadata = meta;
              artifacts = arts;
              seeds = agree;
            },
        λ c.
            completes
              (c.lineage, (c.consistent, (c.runtime, (c.metadata, (c.artifacts, c.seeds))))),
      )
