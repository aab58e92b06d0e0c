-- ===== src/Datasets/Qualification.antt =====
-- `qualify_dataset_for_training`,
-- apps/api-control-plane/app/domain/training_runs/dataset_qualification.py.
use gooberberg_terminal.Prelude.{
  ℕ, ◌+◌, String, Bool, true, false, not, ◌&&◌, ◌||◌, Option, none, some, List, [], ◌∷◌, string_eq,
  ◌==◌, if◌then◌else◌, contains, filter, is_empty, is_some, or_else, ltb,
}
use gooberberg_terminal.Prelude.Int.{pos}
use gooberberg_terminal.Prelude.Sorting.{sort_by, insert_sorted, text_le}
use gooberberg_terminal.Prelude.Texts.{is_empty_text}
use gooberberg_terminal.Prelude.Value.{Value, int, text, arr, Items, nil, cons, Fields, get}
use gooberberg_terminal.Datasets.Metadata.{
  DatasetCompatibilityMetadata, DatasetRequirement, add_all,
}
use gooberberg_terminal.Datasets.Compatibility.{is_ready}

-- By its code, with the values that its message names besides those of the context.
pub data QualificationIssue : Type 0 where
  missing_fields : List String → QualificationIssue
  missing_history_window : ℕ → QualificationIssue
  insufficient_history_window : ℕ → ℕ → QualificationIssue
  point_in_time_required : QualificationIssue
  missing_asset_universe : QualificationIssue
  insufficient_asset_universe : ℕ → QualificationIssue

pub record DatasetQualificationResult : Type 0 where
  pub errors : List QualificationIssue
  pub warnings : List QualificationIssue

pub record QualificationContext (F : Type 0) : Type 0 where
  pub task_type : String
  pub subtask_type : String
  pub model_family : String
  pub model_config : Fields F

-- An entry of `_TASK_SUBTASK_REQUIREMENTS`; `{}` has no fields, no steps and no flag.
pub record TaskRequirement : Type 0 where
  pub required_fields : List String
  pub minimum_history_steps : ℕ
  pub requires_multi_asset_universe : Bool
  pub require_point_in_time_data : Bool

abbrev task : List String → ℕ → Bool → Bool → TaskRequirement
task fields steps multi pit = record {
  required_fields = fields;
  minimum_history_steps = steps;
  requires_multi_asset_universe = multi;
  require_point_in_time_data = pit;
}

abbrev by_entity : List String
by_entity = "entity_id" ∷ "timestamp" ∷ []

abbrev by_return : List String
by_return = "returns.log" ∷ "timestamp" ∷ []

-- `_TASK_SUBTASK_REQUIREMENTS.get(task_key, {})`
unfoldable pub task_requirement : String → String → TaskRequirement
task_requirement task_type subtask_type =
    if task_type == "time_series_momentum" && subtask_type == "ranking"
    then task by_entity 60 true false
    else if task_type == "time_series_momentum" && subtask_type == "entry_signal"
    then task by_entity 30 false false
    else if task_type == "time_series_momentum" && subtask_type == "exit_signal"
    then task by_entity 30 false false
    else if task_type == "cross_sectional" && subtask_type == "ranking"
    then task by_entity 120 true false
    else if task_type == "cross_sectional" && subtask_type == "return_forecast"
    then task by_entity 90 true false
    else if task_type == "cross_sectional" && subtask_type == "allocation"
    then task by_entity 120 true false
    else if task_type == "volatility" && subtask_type == "vol_forecast"
    then task by_return 120 false false
    else if task_type == "regime_switching" && subtask_type == "regime_state"
    then task by_return 180 false true
    else task [] 0 false false

abbrev pub max : ℕ → ℕ → ℕ
max a b = if ltb a b then b else a

-- What a check adds to the result.
pub data Verdict : Type 0 where
  passed : Verdict
  error : QualificationIssue → Verdict
  warning : QualificationIssue → Verdict

abbrev pub errors_of : List Verdict → List QualificationIssue
errors_of [] = []
errors_of (error issue ∷ rest) = issue ∷ errors_of rest
errors_of (_ ∷ rest) = errors_of rest

abbrev pub warnings_of : List Verdict → List QualificationIssue
warnings_of [] = []
warnings_of (warning issue ∷ rest) = issue ∷ warnings_of rest
warnings_of (_ ∷ rest) = warnings_of rest

-- The names that are missing, in the order of `sorted`.
unfoldable pub fields_left : List String → List String → List String → List String
unfolding sort_by insert_sorted
fields_left required task_fields available =
    sort_by text_le
      (filter (λ name. not (contains name available)) (add_all task_fields (add_all required [])))

abbrev pub fields_verdict : List String → Verdict
fields_verdict missing = if is_empty missing then passed else error (missing_fields missing)

abbrev pub history_verdict : ℕ → Option ℕ → Verdict
history_verdict minimum none =
    if ltb 0 minimum then warning (missing_history_window minimum) else passed
history_verdict minimum (some steps) =
    if ltb 0 minimum && ltb steps minimum
    then error (insufficient_history_window steps minimum)
    else passed

abbrev pub point_in_time_verdict : Bool → Option Bool → Verdict
point_in_time_verdict required ready =
    if required && not (is_ready ready) then error point_in_time_required else passed

abbrev pub universe_verdict : Bool → Option ℕ → Verdict
universe_verdict false count = passed
universe_verdict true none = warning missing_asset_universe
universe_verdict true (some count) =
    if ltb count 2 then error (insufficient_asset_universe count) else passed

module _ {F : Type 0} where
  -- `_read_positive_int`: a Boolean, a negative number and every other value give None.
  abbrev pub read_positive_int : Option (Value F) → Option ℕ
  read_positive_int (some (int (pos n))) = some n
  read_positive_int _ = none

  -- `_read_positive_int(...) or default`, where 0 counts as None.
  abbrev pub positive_or : ℕ → Option (Value F) → ℕ
  positive_or default v = let n = or_else (read_positive_int v) 0 in if ltb 0 n then n else default

  unfoldable pub model_minimum_history_steps : String → Fields F → ℕ
  unfolding get
  model_minimum_history_steps model_family config =
      if model_family == "torch_nn_timeseries"
      then positive_or 0 (get "lookback_window" config) + positive_or 0 (get "horizon_steps" config)
      else if model_family == "hmm_regime_switching"
      then positive_or 120 (get "lookback_window" config)
      else if model_family == "arima"
      then max 30 (
          positive_or 0 (get "p" config)
          + positive_or 0 (get "d" config)
          + positive_or 0 (get "q" config)
          + 10)
      else 0

  -- The members that are texts and not empty.
  abbrev pub count_members : Items F → ℕ
  count_members nil = 0
  count_members (cons (text s) items) =
      let rest = count_members items in if is_empty_text s then rest else rest + 1
  count_members (cons _ items) = count_members items

  abbrev pub members_of : Option (Value F) → Option ℕ
  members_of (some (arr items)) = some (count_members items)
  members_of _ = none

  unfoldable pub universe_count : Fields F → Option ℕ
  unfolding get
  universe_count metadata =
      let size = read_positive_int (get "asset_universe_size" metadata) in
      if is_some size then size else members_of (get "universe_members" metadata)

  unfoldable pub minimum_history : QualificationContext F → ℕ
  unfolding task_requirement model_minimum_history_steps
  minimum_history context =
      max (task_requirement context.task_type context.subtask_type).minimum_history_steps
        (model_minimum_history_steps context.model_family context.model_config)

  -- The four checks, in their order.
  unfoldable pub verdicts :
      QualificationContext F
      → DatasetCompatibilityMetadata
      → DatasetRequirement
      → Fields F
      → List Verdict
  unfolding task_requirement fields_left minimum_history universe_count get
  verdicts context dataset requirement raw =
      let task = task_requirement context.task_type context.subtask_type in
      fields_verdict
        (fields_left requirement.required_fields task.required_fields dataset.available_fields)
      ∷ history_verdict (minimum_history context)
          (read_positive_int (get "history_window_steps" raw))
      ∷ point_in_time_verdict
          (requirement.require_point_in_time_data || task.require_point_in_time_data)
          dataset.point_in_time_ready
      ∷ universe_verdict task.requires_multi_asset_universe (universe_count raw)
      ∷ []

  unfoldable pub qualify_dataset_for_training :
      QualificationContext F
      → DatasetCompatibilityMetadata
      → DatasetRequirement
      → Fields F
      → DatasetQualificationResult
  unfolding verdicts
  qualify_dataset_for_training context dataset requirement raw =
      let given = verdicts context dataset requirement raw in
      record { errors = errors_of given; warnings = warnings_of given }
