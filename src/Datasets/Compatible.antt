-- ===== src/Datasets/Compatible.antt =====
-- When `validate_model_dataset_compatibility` finds no error,
-- apps/api-control-plane/app/domain/model_configs/compatibility.py.
use gooberberg_terminal.Prelude.{
  String, Bool, true, false, Option, none, some, List, [], ◌∷◌, ◌++◌, ◌≡◌, ◌↔◌, refl, string_eq,
  contains, arith, if◌then◌else◌, ap, sym, subst, is_empty, Option-cases, inl, inr,
}
use gooberberg_terminal.Prelude.Float.{Float}
use gooberberg_terminal.Prelude.Raising.{some_inj}
use gooberberg_terminal.Datasets.Metadata.{
  DatasetCompatibilityMetadata, DatasetRequirement, ModelSpec, resolve_dataset_requirement,
}
use gooberberg_terminal.Datasets.Compatibility.{
  Incompatibility, index_type_missing, index_type_differs, frequency_missing, frequency_differs,
  fields_unknown, fields_missing, is_ready, check_data_kind, check_required, check_target_type,
  check_fields, check_point_in_time, errors_for, validate_model_dataset_compatibility,
}
use gooberberg_terminal.Datasets.Fields.{AreAvailable, filter-AreAvailable}

-- What is required has to be given, and equal.
abbrev pub Meets : Option String → Option String → Type 0
Meets none actual = Unit
Meets (some required) actual = actual ≡ some required

-- What is required must not differ where it is given.
abbrev pub DoesNotClash : Option String → Option String → Type 0
DoesNotClash (some required) (some actual) = actual ≡ required
DoesNotClash _ _ = Unit

pub record IsCompatible {F : Type 0} (spec : ModelSpec F) (dataset : DatasetCompatibilityMetadata)
    (requirement : DatasetRequirement) : Type 0 where
  pub data_kind :
      (kind : String) × (dataset.data_kind ≡ some kind)
      × (contains kind spec.supported_data_kinds ≡ true)
  pub index : Meets spec.required_index dataset.index_type
  pub target : DoesNotClash spec.target_type dataset.target_type
  pub fields : AreAvailable dataset.available_fields requirement.required_fields
  pub frequency : Meets requirement.required_frequency dataset.frequency
  pub point_in_time :
      requirement.require_point_in_time_data ≡ true → dataset.point_in_time_ready ≡ some true

append-empty : (xs ys : List Incompatibility) → (xs ++ ys ≡ []) ↔ ((xs ≡ []) × (ys ≡ []))
append-empty [] ys = (λ e. (refl, e), λ h. h.1)
append-empty (x ∷ xs) ys = (λ e. cc, λ h. cc)

data_kind_lem :
    (supported : List String) (kind : Option String)
    → (check_data_kind supported kind ≡ [])
      ↔ ((k : String) × (kind ≡ some k) × (contains k supported ≡ true))
data_kind_lem supported none = (λ e. cc, λ (k, e, h). cc)
data_kind_lem supported (some kind) =
    (λ e. (kind, refl, ground (arith, e)), λ (k, e, h). rw (some_inj e, h) refl)

required_lem :
    (missing : String → Incompatibility) (differs : String → String → Incompatibility)
    (required actual : Option String)
    → (check_required missing differs required actual ≡ []) ↔ Meets required actual
required_lem missing differs none actual = (λ e. tt, λ h. refl)
required_lem missing differs (some required) none = (λ e. cc, λ h. cc)
required_lem missing differs (some required) (some actual) = (
  λ e. ap some ((string_eq.beq_iff actual required).0 (ground (arith, e))),
  λ h. rw ((string_eq.beq_iff actual required).1 (some_inj h)) refl,
)

target_lem :
    (required actual : Option String)
    → (check_target_type required actual ≡ []) ↔ DoesNotClash required actual
target_lem none actual = (λ e. tt, λ h. refl)
target_lem (some required) none = (λ e. tt, λ h. refl)
target_lem (some required) (some actual) = (
  λ e. (string_eq.beq_iff actual required).0 (ground (arith, e)),
  λ h. rw ((string_eq.beq_iff actual required).1 h) refl,
)

missing_lem :
    (missing available : List String)
    → (if is_empty missing
        then []
        else if is_empty available
        then fields_unknown missing ∷ []
        else fields_missing missing ∷ [])
      ≡ []
    → missing ≡ []
missing_lem [] available e = refl
missing_lem (x ∷ xs) [] e = cc
missing_lem (x ∷ xs) (y ∷ ys) e = cc

fields_lem :
    (required available : List String)
    → (check_fields required available ≡ []) ↔ AreAvailable available required
fields_lem required available =
    let kept = filter-AreAvailable available required in
    (λ e. kept.0 (missing_lem _ available e), λ h. rw (kept.1 h) refl)

pub is_ready_iff : (ready : Option Bool) → (is_ready ready ≡ true) ↔ (ready ≡ some true)
is_ready_iff none = (λ e. cc, λ e. cc)
is_ready_iff (some true) = (λ e. refl, λ e. refl)
is_ready_iff (some false) = (λ e. cc, λ e. cc)

point_in_time_lem :
    (required : Bool) (ready : Option Bool)
    → (check_point_in_time required ready ≡ []) ↔ (required ≡ true → ready ≡ some true)
point_in_time_lem false ready = (λ e k. cc, λ h. refl)
point_in_time_lem true ready = (
  λ e k. (is_ready_iff ready).0 (ground (arith, e)),
  λ h. rw ((is_ready_iff ready).1 (h refl)) refl,
)

module _ {F : Type 0} where
  errors_for-IsCompatible :
      (spec : ModelSpec F) (dataset : DatasetCompatibilityMetadata) (r : DatasetRequirement)
      → (errors_for spec dataset r ≡ []) ↔ IsCompatible spec dataset r
  unfolding errors_for
  errors_for-IsCompatible spec dataset r =
      let k = data_kind_lem spec.supported_data_kinds dataset.data_kind in
      let i =
        required_lem index_type_missing index_type_differs spec.required_index dataset.index_type in
      let t = target_lem spec.target_type dataset.target_type in
      let f = fields_lem r.required_fields dataset.available_fields in
      let q =
        required_lem frequency_missing frequency_differs r.required_frequency dataset.frequency in
      let p = point_in_time_lem r.require_point_in_time_data dataset.point_in_time_ready in
      (
        λ e.
            let e4 = (append-empty _ _).0 e in
            let e3 = (append-empty _ _).0 e4.0 in
            let e2 = (append-empty _ _).0 e3.0 in
            let e1 = (append-empty _ _).0 e2.0 in
            let e0 = (append-empty _ _).0 e1.0 in
            record {
              data_kind = k.0 e0.0;
              index = i.0 e0.1;
              target = t.0 e1.1;
              fields = f.0 e2.1;
              frequency = q.0 e3.1;
              point_in_time = p.0 e4.1;
            },
        λ h.
            rw
              (
                k.1 h.data_kind,
                i.1 h.index,
                t.1 h.target,
                f.1 h.fields,
                q.1 h.frequency,
                p.1 h.point_in_time,
              )
              refl,
      )

module _ {F : Type 0} ⦃d : Float F⦄ where
  -- The check of a dataset returns no error exactly if the requirement of the model can be read and
  -- the dataset meets it: a supported kind, the index, the target type where both are given, every
  -- field, the frequency, and point-in-time data.
  pub validate_model_dataset_compatibility_iff :
      (spec : ModelSpec F) (dataset : DatasetCompatibilityMetadata)
      → (validate_model_dataset_compatibility spec dataset ≡ some []) ↔ (
          (r : DatasetRequirement) × (resolve_dataset_requirement spec ≡ some r)
          × IsCompatible spec dataset r)
  unfolding validate_model_dataset_compatibility
  validate_model_dataset_compatibility_iff spec dataset =
      elim (Option-cases (resolve_dataset_requirement spec)) [
        | inl raised ↦ rw (validate_model_dataset_compatibility, raised) (λ e. cc, λ (r, e, h). cc)
        | inr (r, read) ↦
            rw (validate_model_dataset_compatibility, read)
              (
                λ e. (r, refl, (errors_for-IsCompatible spec dataset r).0 (some_inj e)),
                λ (x, e, h). ap some (
                    (errors_for-IsCompatible spec dataset r).1
                      (subst (IsCompatible spec dataset) (sym (some_inj e)) h)),
              )
      ]
