-- ===== src/Datasets/Examples.antt =====
-- Runs and witnesses for apps/api-control-plane/app/domain/model_configs/compatibility.py and
-- apps/api-control-plane/app/domain/training_runs/dataset_qualification.py.
use gooberberg_terminal.Prelude.{true, none, some, [], ◌∷◌, ◌≡◌, ◌↔◌, refl, string_eq, option_eq}
use gooberberg_terminal.Prelude.Int.{ℤ, pos}
use gooberberg_terminal.Prelude.Whole.{int_float}
use gooberberg_terminal.Prelude.Sorting.{sort_by, insert_sorted}
use gooberberg_terminal.Prelude.Texts.{lstrip, rstrip, strip}
use gooberberg_terminal.Prelude.Value.{text, bool, int, arr, cons, nil, Fields, field, end, get}
use gooberberg_terminal.Datasets.Metadata.{
  DatasetCompatibilityMetadata, DatasetRequirement, given, mapping, ModelSpec, stripped,
  resolve_dataset_compatibility, resolve_dataset_requirement,
}
use gooberberg_terminal.Datasets.Compatibility.{
  frequency_differs, fields_missing, errors_for, validate_model_dataset_compatibility,
}
use gooberberg_terminal.Datasets.Qualification.{
  QualificationContext, missing_fields, insufficient_history_window, insufficient_asset_universe,
  task_requirement, fields_left, model_minimum_history_steps, universe_count, minimum_history,
  verdicts, qualify_dataset_for_training,
}
use gooberberg_terminal.Datasets.Compatible.{IsCompatible, validate_model_dataset_compatibility_iff}
use gooberberg_terminal.Datasets.Qualified.{IsClear, IsQualified, qualify_dataset_for_training_iff}

-- `HmmRegimeSwitchingModelSpec`
abbrev requirement : DatasetRequirement
requirement = record {
  required_fields = "returns.log" ∷ [];
  required_frequency = some "1d";
  require_point_in_time_data = true;
}

abbrev hmm : ModelSpec ℤ
hmm = record {
  model_family = "hmm_regime_switching";
  supported_data_kinds = "time_series" ∷ [];
  required_index = some "datetime";
  target_type = some "classification";
  dataset_requirement = given requirement;
}

-- The same requirement as a mapping.
abbrev mapped : ModelSpec ℤ
mapped = record hmm {
  dataset_requirement = mapping (
      field "required_fields" (arr (cons (text " returns.log ") (cons (int (pos 1)) nil))) (
        field "required_frequency" (text "1d")
          (field "require_point_in_time_data" (int (pos 1)) end)));
}

abbrev metadata : Fields ℤ
metadata =
    field "fields"
      (arr (cons (text "returns.log") (cons (text " timestamp") (cons (text "timestamp") nil))))
      (field "pit_ready" (bool true) (
        field "history_window_steps" (int (pos 200))
          (field "universe_members" (arr (cons (text "AAPL") (cons (text "") nil))) end)))

abbrev dataset : DatasetCompatibilityMetadata
dataset = record {
  data_kind = some "time_series";
  index_type = some "datetime";
  target_type = none;
  available_fields = "returns.log" ∷ "timestamp" ∷ [];
  frequency = some "1d";
  point_in_time_ready = some true;
}

resolve_test : resolve_dataset_compatibility metadata (some "1d") ≡ dataset
unfolding resolve_dataset_compatibility get stripped strip lstrip rstrip
resolve_test = refl

mapping_test : resolve_dataset_requirement mapped ≡ some requirement
unfolding resolve_dataset_requirement get stripped strip lstrip rstrip
mapping_test = refl

compatible_test :
    (validate_model_dataset_compatibility hmm dataset ≡ some [])
    × (validate_model_dataset_compatibility hmm
          (record dataset { frequency = some "1h"; available_fields = "close" ∷ [] })
        ≡ some (fields_missing ("returns.log" ∷ []) ∷ frequency_differs "1d" "1h" ∷ []))
unfolding validate_model_dataset_compatibility resolve_dataset_requirement errors_for
compatible_test = (refl, refl)

validate_model_dataset_compatibility_iff_example :
    (validate_model_dataset_compatibility hmm dataset ≡ some []) ↔ (
      (r : DatasetRequirement) × (resolve_dataset_requirement hmm ≡ some r)
      × IsCompatible hmm dataset r)
validate_model_dataset_compatibility_iff_example =
    validate_model_dataset_compatibility_iff hmm dataset

abbrev regime : QualificationContext ℤ
regime = record {
  task_type = "regime_switching";
  subtask_type = "regime_state";
  model_family = "hmm_regime_switching";
  model_config = field "lookback_window" (int (pos 0)) end;
}

abbrev ranking : QualificationContext ℤ
ranking = record {
  task_type = "cross_sectional";
  subtask_type = "ranking";
  model_family = "torch_nn_timeseries";
  model_config = field "lookback_window" (int (pos 200)) (field "horizon_steps" (int (pos 5)) end);
}

qualified_test :
    IsClear (qualify_dataset_for_training regime dataset requirement metadata)
    × ((qualify_dataset_for_training ranking dataset requirement metadata).errors
        ≡ missing_fields ("entity_id" ∷ [])
          ∷ insufficient_history_window 200 205
          ∷ insufficient_asset_universe 1
          ∷ [])
unfolding qualify_dataset_for_training verdicts task_requirement fields_left minimum_history
    model_minimum_history_steps universe_count get sort_by insert_sorted
qualified_test = ((refl, refl), refl)

qualify_dataset_for_training_iff_example :
    IsClear (qualify_dataset_for_training regime dataset requirement metadata)
    ↔ IsQualified regime dataset requirement metadata
qualify_dataset_for_training_iff_example =
    qualify_dataset_for_training_iff regime dataset requirement metadata
