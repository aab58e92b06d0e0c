-- ===== src/SuccessGate/Checks.antt =====
-- The data and the single checks of apps/api-control-plane/app/domain/run_success_gate.py, in their
-- order. What Python does with texts beyond reading them (`lower`) and `==` on JSON values are
-- arguments.
use gooberberg_terminal.Prelude.{
  suc, String, Bool, true, false, not, ◌&&◌, ◌||◌, Option, none, some, List, [], ◌∷◌, string_eq,
  option_eq, ◌==◌, any, filter, if◌then◌else◌,
}
use gooberberg_terminal.Prelude.Int.{ℤ, pos}
use gooberberg_terminal.Prelude.Float.{Float}
use gooberberg_terminal.Prelude.Dict.{Dict, insert}
use gooberberg_terminal.Prelude.Value.{
  Value, null, bool, int, text, obj, Fields, field, end, Builtins, get, get_or, is_truthy,
}
use gooberberg_terminal.SuccessGate.Texts.{is_blank, sha_match}

-- `GateFailure` by its category, with the keys or the role that its reason names.
pub data GateFailure : Type 0 where
  lineage_missing : List String → GateFailure
  lineage_inconsistent : String → GateFailure
  runtime_mismatch : List String → GateFailure
  final_candidate_metadata_missing : List String → GateFailure
  artifact_manifest_missing : List String → GateFailure
  artifact_hash_invalid : String → GateFailure
  artifact_size_invalid : String → GateFailure
  seed_missing : GateFailure
  seed_inconsistent : GateFailure

-- The columns of a run that the gate reads. `random_seed` is `none` for a table without it.
pub record RunRow (F : Type 0) : Type 0 where
  pub dataset_fingerprint : Option String
  pub code_hash : Option String
  pub config_digest : Option String
  pub seed : Option ℤ
  pub random_seed : Option ℤ
  pub parameters : Value F

-- The fields of `JobLifecycleUpdateRequest` that the gate reads.
pub record EventUpdate (F : Type 0) : Type 0 where
  pub lineage : Fields F
  pub expected_runtime : Fields F
  pub runtime_observed : Fields F
  pub mismatch_policy : String
  pub artifact_manifest : List (Fields F)

-- What the language does with texts and values.
pub record Language (F : Type 0) : Type 0 where
  pub lower : String → String
  pub equal : Value F → Value F → Bool

abbrev pub required_lineage : List String
required_lineage = "lineage_id" ∷ "dataset_fingerprint" ∷ "code_hash" ∷ "config_digest" ∷ []

-- `REQUIRED_METADATA_FIELDS` of run_metadata_governance.py
abbrev pub required_metadata : List String
required_metadata =
    "hypothesis_id" ∷ "dataset_snapshot_id" ∷ "code_commit_hash" ∷ "parameter_set_id"
    ∷ "random_seed" ∷ "cost_model_version" ∷ []

-- The set `mandatory_roles`, in the order of `sorted`.
abbrev pub mandatory_roles : String → List String
mandatory_roles run_type =
    if run_type == "training"
    then "run_metadata" ∷ "trained_model" ∷ "training_metrics" ∷ []
    else if run_type == "backtest"
    then "backtest_metrics" ∷ "run_metadata" ∷ "trade_log" ∷ []
    else []

-- A list of keys as a failure, if there are any.
abbrev pub unless_empty : (List String → GateFailure) → List String → Option GateFailure
unless_empty failure [] = none
unless_empty failure (k ∷ ks) = some (failure (k ∷ ks))

module _ {F : Type 0} ⦃d : Float F⦄ where
  -- `not d.get(key)` of a dictionary's entry.
  abbrev pub is_falsy : Option (Value F) → Bool
  is_falsy none = true
  is_falsy (some v) = not (is_truthy v)

  unfoldable pub lineage_failure : Fields F → Option GateFailure
  lineage_failure lineage =
      unless_empty lineage_missing (filter (λ key. is_falsy (get key lineage)) required_lineage)

  -- `value is None or (isinstance(value, str) and not value.strip())`
  abbrev pub is_absent : Option (Value F) → Bool
  is_absent none = true
  is_absent (some null) = true
  is_absent (some (text s)) = is_blank s
  is_absent (some _) = false

  -- `missing_required_metadata`
  unfoldable pub missing_required_metadata : Fields F → List String
  missing_required_metadata metadata =
      filter (λ key. is_absent (get key metadata)) required_metadata

  abbrev pub dict_or_empty : Option (Value F) → Fields F
  dict_or_empty (some (obj d)) = d
  dict_or_empty _ = end

  -- `run_metadata`
  abbrev pub run_metadata_of : RunRow F → Fields F
  run_metadata_of row = dict_or_empty (get "run_metadata" (dict_or_empty (some row.parameters)))

  -- `isinstance(size_bytes, int) and size_bytes > 0`: a `bool` is an `int`.
  abbrev pub is_positive_int : Option (Value F) → Bool
  is_positive_int (some (bool b)) = b
  is_positive_int (some (int (pos (suc n)))) = true
  is_positive_int _ = false

module _ {F : Type 0} ⦃d : Float F⦄ ⦃b : Builtins F⦄ where
  -- The body of the loop over the three fields: it ends with a failure where both texts are given
  -- and differ.
  abbrev pub contradicts : Option String → Option (Value F) → Bool
  contradicts none incoming = false
  contradicts (some kept) none = false
  contradicts (some kept) (some v) = not (kept == "") && is_truthy v && not (kept == b.str v)

  unfoldable pub inconsistency : Fields F → List (String × Option String) → Option GateFailure
  inconsistency lineage [] = none
  inconsistency lineage ((key, kept) ∷ fields) =
      let rest = inconsistency lineage fields in
      if contradicts kept (get key lineage) then some (lineage_inconsistent key) else rest

  abbrev pub kept_lineage : RunRow F → List (String × Option String)
  kept_lineage row =
      ("dataset_fingerprint", row.dataset_fingerprint)
      ∷ ("code_hash", row.code_hash)
      ∷ ("config_digest", row.config_digest)
      ∷ []

  -- `mismatches`
  unfoldable pub mismatches : Language F → Fields F → Fields F → List String
  mismatches l end observed = []
  mismatches l (field key v rest) observed =
      let others = mismatches l rest observed in
      let differs : Bool = elim (get key observed) [ none ↦ false | some w ↦ not (l.equal w v) ] in
      if differs then key ∷ others else others

  unfoldable pub runtime_failure : Language F → EventUpdate F → Option GateFailure
  unfolding mismatches
  runtime_failure l u =
      let policy = l.lower u.mismatch_policy in
      if policy == "allow" || policy == "warn"
      then none
      else unless_empty runtime_mismatch (mismatches l u.expected_runtime u.runtime_observed)

  abbrev pub is_final_candidate : Language F → Fields F → Bool
  is_final_candidate l item =
      l.lower (b.str (get_or "promotion_status" (text "") item)) == "final_candidate"

  unfoldable pub metadata_failure : Language F → RunRow F → EventUpdate F → Option GateFailure
  unfolding missing_required_metadata
  metadata_failure l row u =
      if any (is_final_candidate l) u.artifact_manifest
      then unless_empty final_candidate_metadata_missing
          (missing_required_metadata (run_metadata_of row))
      else none

  -- `role_to_entry`: of two items with one role, the later one.
  unfoldable pub role_entries : List (Fields F) → Dict String (Fields F) → Dict String (Fields F)
  role_entries [] entries = entries
  role_entries (item ∷ items) entries =
      role_entries items (insert (b.str (get_or "role" null item)) item entries)

  -- `entry.get("sha256") or entry.get("checksum") or ""`, as a text.
  abbrev pub checksum_of : Fields F → String
  checksum_of entry =
      let fallback : String = elim (get "checksum" entry) [
        | none ↦ ""
        | some w ↦ if is_truthy w then b.str w else ""
      ] in
      elim (get "sha256" entry) [
        | none ↦ fallback
        | some v ↦ if is_truthy v then b.str v else fallback
      ]

  unfoldable pub artifact_failure : String → Fields F → Option GateFailure
  artifact_failure role entry =
      if not (sha_match (checksum_of entry))
      then some (artifact_hash_invalid role)
      else if not (is_positive_int (get "size_bytes" entry))
      then some (artifact_size_invalid role)
      else none
