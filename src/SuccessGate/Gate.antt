-- ===== src/SuccessGate/Gate.antt =====
-- `evaluate_success_gate` of apps/api-control-plane/app/domain/run_success_gate.py: its checks one after
-- another, the first failure ending it. `none` is an exception, `some none` the passed gate.
use gooberberg_terminal.Prelude.{
  String, Bool, not, ◌&&◌, Option, none, some, List, [], ◌∷◌, nat_eq, string_eq, filter,
  if◌then◌else◌,
}
use gooberberg_terminal.Prelude.Int.{ℤ, leb_ℤ}
use gooberberg_terminal.Prelude.Float.{Float}
use gooberberg_terminal.Prelude.Dict.{Dict, lookup, contains_key}
use gooberberg_terminal.Prelude.Raising.{◌>>=◌}
use gooberberg_terminal.Prelude.Value.{Value, null, Fields, Builtins, get, to_int}
use gooberberg_terminal.SuccessGate.Checks.{
  GateFailure, artifact_manifest_missing, seed_missing, seed_inconsistent, RunRow, EventUpdate,
  Language, mandatory_roles, unless_empty, lineage_failure, run_metadata_of, inconsistency,
  kept_lineage, runtime_failure, metadata_failure, role_entries, artifact_failure,
}

abbrev pub Outcome : Type 0
Outcome = Option (Option GateFailure)

-- An early return, or what follows.
abbrev pub first_of : Option GateFailure → Outcome → Outcome
first_of (some failure) rest = some (some failure)
first_of none rest = rest

abbrev pub same_int : ℤ → ℤ → Bool
same_int x y = leb_ℤ x y && leb_ℤ y x

-- `a == b == c` on integers.
abbrev pub all_equal : ℤ → ℤ → ℤ → Bool
all_equal a b c = same_int a b && same_int b c

module _ {F : Type 0} ⦃d : Float F⦄ ⦃b : Builtins F⦄ where
  -- The loop over the roles; a role without an entry is a `KeyError`.
  unfoldable pub check_artifacts : Dict String (Fields F) → List String → Outcome → Outcome
  check_artifacts entries [] rest = rest
  check_artifacts entries (role ∷ roles) rest =
      let others = check_artifacts entries roles rest in
      elim (lookup role entries) [
        | none ↦ none
        | some entry ↦ first_of (artifact_failure role entry) others
      ]

  abbrev pub missing_roles : Dict String (Fields F) → String → List String
  missing_roles entries run_type =
      filter (λ role. not (contains_key role entries)) (mandatory_roles run_type)

  -- `persisted_seed`
  abbrev pub persisted_seed : RunRow F → Option ℤ
  persisted_seed row = elim row.seed [ none ↦ row.random_seed | some s ↦ some s ]

  -- The test of three seeds that are there.
  abbrev pub check_present : Value F → Value F → ℤ → Outcome
  check_present seed metadata_seed kept = to_int seed >>= (λ a.
      to_int metadata_seed
      >>= (λ m. some (if all_equal a m kept then none else some seed_inconsistent)))

  -- A JSON `null` is `None`.
  abbrev pub given : Option (Value F) → Option (Value F)
  given (some null) = none
  given o = o

  abbrev pub check_given : Option (Value F) → Option (Value F) → Option ℤ → Outcome
  check_given (some seed) (some metadata_seed) (some kept) = check_present seed metadata_seed kept
  check_given _ _ _ = some (some seed_missing)

  unfoldable pub check_seeds : RunRow F → EventUpdate F → Outcome
  check_seeds row u =
      check_given (given (get "seed" u.lineage)) (given (get "seed" (run_metadata_of row)))
        (persisted_seed row)

  -- `evaluate_success_gate`. `order` is the order in which Python walks the set of mandatory roles.
  unfoldable pub evaluate_success_gate :
      Language F → (List String → List String) → String → RunRow F → EventUpdate F → Outcome
  unfolding check_artifacts check_seeds
  evaluate_success_gate l order run_type row u =
      let entries = role_entries u.artifact_manifest [] in
      first_of (lineage_failure u.lineage) (
        first_of (inconsistency u.lineage (kept_lineage row)) (
          first_of (runtime_failure l u) (
            first_of (metadata_failure l row u) (
              first_of (unless_empty artifact_manifest_missing (missing_roles entries run_type))
                (check_artifacts entries (order (mandatory_roles run_type)) (check_seeds row u))))))
