-- ===== src/Datasets/Compatibility.antt =====
-- `validate_model_dataset_compatibility`, apps/api-control-plane/app/domain/model_configs/compatibility.py.
use gooberberg_terminal.Prelude.{
  String, Bool, true, false, not, ◌&&◌, Option, none, some, List, [], ◌∷◌, ◌++◌, string_eq, ◌==◌,
  if◌then◌else◌, contains, filter, is_empty,
}
use gooberberg_terminal.Prelude.Float.{Float}
use gooberberg_terminal.Prelude.Raising.{◌>>=◌}
use gooberberg_terminal.Datasets.Metadata.{
  DatasetCompatibilityMetadata, DatasetRequirement, ModelSpec, resolve_dataset_requirement,
}

-- The messages, with the values that they name besides those of the model and the dataset.
pub data Incompatibility : Type 0 where
  data_kind_missing : Incompatibility
  data_kind_unsupported : String → Incompatibility
  index_type_missing : String → Incompatibility
  index_type_differs : String → String → Incompatibility
  target_type_differs : String → String → Incompatibility
  fields_missing : List String → Incompatibility
  fields_unknown : List String → Incompatibility
  frequency_missing : String → Incompatibility
  frequency_differs : String → String → Incompatibility
  point_in_time_required : Incompatibility

abbrev pub check_data_kind : List String → Option String → List Incompatibility
check_data_kind supported none = data_kind_missing ∷ []
check_data_kind supported (some kind) =
    if contains kind supported then [] else data_kind_unsupported kind ∷ []

-- A value that has to be the required one, with the messages for a missing and for another one.
abbrev pub check_required :
    (String → Incompatibility)
    → (String → String → Incompatibility)
    → Option String
    → Option String
    → List Incompatibility
check_required missing differs none actual = []
check_required missing differs (some required) none = missing required ∷ []
check_required missing differs (some required) (some actual) =
    if actual == required then [] else differs required actual ∷ []

abbrev pub check_target_type : Option String → Option String → List Incompatibility
check_target_type (some required) (some actual) =
    if actual == required then [] else target_type_differs required actual ∷ []
check_target_type _ _ = []

abbrev pub check_fields : List String → List String → List Incompatibility
check_fields required available =
    let missing = filter (λ name. not (contains name available)) required in
    if is_empty missing
    then []
    else if is_empty available
    then fields_unknown missing ∷ []
    else fields_missing missing ∷ []

abbrev pub is_ready : Option Bool → Bool
is_ready (some true) = true
is_ready _ = false

abbrev pub check_point_in_time : Bool → Option Bool → List Incompatibility
check_point_in_time required ready =
    if required && not (is_ready ready) then point_in_time_required ∷ [] else []

module _ {F : Type 0} where
  unfoldable pub errors_for :
      ModelSpec F → DatasetCompatibilityMetadata → DatasetRequirement → List Incompatibility
  errors_for spec dataset requirement =
      check_data_kind spec.supported_data_kinds dataset.data_kind
      ++ check_required index_type_missing index_type_differs spec.required_index dataset.index_type
      ++ check_target_type spec.target_type dataset.target_type
      ++ check_fields requirement.required_fields dataset.available_fields
      ++ check_required frequency_missing frequency_differs requirement.required_frequency
          dataset.frequency
      ++ check_point_in_time requirement.require_point_in_time_data dataset.point_in_time_ready

module _ {F : Type 0} ⦃d : Float F⦄ where
  unfoldable pub validate_model_dataset_compatibility :
      ModelSpec F → DatasetCompatibilityMetadata → Option (List Incompatibility)
  unfolding resolve_dataset_requirement errors_for
  validate_model_dataset_compatibility spec dataset = do
    requirement ← resolve_dataset_requirement spec
    some (errors_for spec dataset requirement)
