-- ===== src/Datasets/Qualified.antt =====
-- When `qualify_dataset_for_training` has nothing to report,
-- apps/api-control-plane/app/domain/training_runs/dataset_qualification.py.
use gooberberg_terminal.Prelude.{
  ℕ, ◌≤◌, ◌<◌, String, Bool, true, false, ◌||◌, Option, none, some, List, [], ◌∷◌, ◌≡◌, ◌↔◌, refl,
  ltb, arith, Bool-cases, ltb→lt, inl, inr,
}
use gooberberg_terminal.Prelude.Raising.{some_inj}
use gooberberg_terminal.Prelude.Value.{Fields, get}
use gooberberg_terminal.Datasets.Metadata.{DatasetCompatibilityMetadata, DatasetRequirement}
use gooberberg_terminal.Datasets.Qualification.{
  QualificationContext, DatasetQualificationResult, task_requirement, Verdict, passed, error,
  warning, errors_of, warnings_of, fields_left, fields_verdict, history_verdict,
  point_in_time_verdict, universe_verdict, read_positive_int, universe_count, minimum_history,
  verdicts, qualify_dataset_for_training,
}
use gooberberg_terminal.Datasets.Fields.{AreAvailable, fields_left-AreAvailable}
use gooberberg_terminal.Datasets.Compatible.{is_ready_iff}

-- A count is there and large enough.
abbrev pub HasAtLeast : ℕ → Option ℕ → Type 0
HasAtLeast least count = (n : ℕ) × (count ≡ some n) × (least ≤ n)

pub record IsQualified {F : Type 0} (context : QualificationContext F)
    (dataset : DatasetCompatibilityMetadata) (requirement : DatasetRequirement) (raw : Fields F)
    : Type 0 where
  pub model_fields : AreAvailable dataset.available_fields requirement.required_fields
  pub task_fields :
      AreAvailable dataset.available_fields
        (task_requirement context.task_type context.subtask_type).required_fields
  pub history :
      0 < minimum_history context
      → HasAtLeast (minimum_history context) (read_positive_int (get "history_window_steps" raw))
  pub point_in_time :
      (requirement.require_point_in_time_data
          || (task_requirement context.task_type context.subtask_type).require_point_in_time_data)
        ≡ true
      → dataset.point_in_time_ready ≡ some true
  pub universe :
      (task_requirement context.task_type context.subtask_type).requires_multi_asset_universe ≡ true
      → HasAtLeast 2 (universe_count raw)

-- Neither an error nor a warning.
abbrev pub IsClear : DatasetQualificationResult → Type 0
IsClear r = (r.errors ≡ []) × (r.warnings ≡ [])

none_lem : {least : ℕ} → HasAtLeast least none → ⊥
none_lem (n, e, h) = cc

clear_cons :
    (v : Verdict) (rest : List Verdict)
    → ((errors_of (v ∷ rest) ≡ []) × (warnings_of (v ∷ rest) ≡ []))
      ↔ ((v ≡ passed) × ((errors_of rest ≡ []) × (warnings_of rest ≡ [])))
clear_cons passed rest = (λ h. (refl, h), λ h. h.1)
clear_cons (error issue) rest = (λ h. cc, λ h. cc)
clear_cons (warning issue) rest = (λ h. cc, λ h. cc)

fields_lem : (missing : List String) → (fields_verdict missing ≡ passed) ↔ (missing ≡ [])
fields_lem [] = (λ e. refl, λ e. refl)
fields_lem (x ∷ xs) = (λ e. cc, λ e. cc)

history_lem :
    (minimum : ℕ) (steps : Option ℕ)
    → (history_verdict minimum steps ≡ passed) ↔ (0 < minimum → HasAtLeast minimum steps)
history_lem minimum none = (
  λ e h. absurd (ground (arith, e, h)),
  λ h. elim (Bool-cases (ltb 0 minimum)) [
    | inl positive ↦ absurd (none_lem (h (ltb→lt 0 minimum positive)))
    | inr zero ↦ rw (zero) refl
  ],
)
history_lem minimum (some n) = (
  λ e h. (n, refl, ground (arith, e, h)),
  λ h. elim (Bool-cases (ltb 0 minimum)) [
    | inl positive ↦
        let (m, e, le) = h (ltb→lt 0 minimum positive) in ground (arith, positive, le, some_inj e)
    | inr zero ↦ rw (zero) refl
  ],
)

point_in_time_lem :
    (required : Bool) (ready : Option Bool)
    → (point_in_time_verdict required ready ≡ passed) ↔ (required ≡ true → ready ≡ some true)
point_in_time_lem false ready = (λ e k. cc, λ h. refl)
point_in_time_lem true ready = (
  λ e k. (is_ready_iff ready).0 (ground (arith, e)),
  λ h. rw ((is_ready_iff ready).1 (h refl)) refl,
)

universe_lem :
    (required : Bool) (count : Option ℕ)
    → (universe_verdict required count ≡ passed) ↔ (required ≡ true → HasAtLeast 2 count)
universe_lem false count = (λ e k. cc, λ h. refl)
universe_lem true none = (λ e k. cc, λ h. absurd (none_lem (h refl)))
universe_lem true (some n) = (
  λ e k. (n, refl, ground (arith, e)),
  λ h. let (m, e, le) = h refl in ground (arith, le, some_inj e),
)

module _ {F : Type 0} where
  -- The qualification of a dataset has neither an error nor a warning exactly if all fields of the model
  -- and the task are available, a positive minimum of history is stated and reached, point-in-time
  -- data are ready where the model or the task needs them, and a task over many assets has at least two.
  pub qualify_dataset_for_training_iff :
      (context : QualificationContext F) (dataset : DatasetCompatibilityMetadata)
      (requirement : DatasetRequirement) (raw : Fields F)
      → IsClear (qualify_dataset_for_training context dataset requirement raw)
        ↔ IsQualified context dataset requirement raw
  unfolding qualify_dataset_for_training verdicts
  qualify_dataset_for_training_iff context dataset requirement raw =
      let task = task_requirement context.task_type context.subtask_type in
      let left =
        fields_left requirement.required_fields task.required_fields dataset.available_fields in
      let f = fields_lem left in
      let a =
        fields_left-AreAvailable requirement.required_fields task.required_fields
          dataset.available_fields in
      let h =
        history_lem (minimum_history context)
          (read_positive_int (get "history_window_steps" raw)) in
      let p =
        point_in_time_lem
          (requirement.require_point_in_time_data || task.require_point_in_time_data)
          dataset.point_in_time_ready in
      let u = universe_lem task.requires_multi_asset_universe (universe_count raw) in
      (
        λ e.
            let e0 = (clear_cons _ _).0 e in
            let e1 = (clear_cons _ _).0 e0.1 in
            let e2 = (clear_cons _ _).0 e1.1 in
            let e3 = (clear_cons _ _).0 e2.1 in
            let fields = a.0 (f.0 e0.0) in
            record {
              model_fields = fields.0;
              task_fields = fields.1;
              history = h.0 e1.0;
              point_in_time = p.0 e2.0;
              universe = u.0 e3.0;
            },
        λ q. (clear_cons _ _).1 (
          f.1 (a.1 (q.model_fields, q.task_fields)),
          (clear_cons _ _).1 (
            h.1 q.history,
            (clear_cons _ _).1
                (p.1 q.point_in_time, (clear_cons _ _).1 (u.1 q.universe, (refl, refl))),
          ),
        ),
      )
