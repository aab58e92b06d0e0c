-- ===== src/Backtests/Conditions.antt =====
-- When the size of a run is confirmed and its model fits,
-- apps/api-control-plane/app/api/routers/backtest_runs.py and domain/backtest_runs/service.py.
use gooberberg_terminal.Prelude.{
  ℕ, String, Bool, true, false, not, Option, none, some, List, [], ◌≡◌, ◌≢◌, ◌↔◌, ◌∙◌, refl, ap,
  sym, subst, inl, inr, nat_eq, string_eq, ◌==◌, if◌then◌else◌, Bool-cases, Option-cases, arith,
}
use gooberberg_terminal.Prelude.Dict.{lookup}
use gooberberg_terminal.Prelude.Float.{Float}
use gooberberg_terminal.Prelude.Raising.{some_inj}
use gooberberg_terminal.Prelude.Value.{Fields, Builtins, get}
use gooberberg_terminal.Datasets.Metadata.{
  ModelSpec, DatasetRequirement, resolve_dataset_compatibility, resolve_dataset_requirement,
}
use gooberberg_terminal.Datasets.Compatibility.{Incompatibility}
use gooberberg_terminal.Datasets.Compatible.{IsCompatible, validate_model_dataset_compatibility_iff}
use gooberberg_terminal.Backtests.Checks.{
  RunBasis, SizeEstimate, confirms, estimate_run_size, validate_confirmation_token,
}
use gooberberg_terminal.Backtests.Create.{
  Dataset, Services, dataset_id_of, errors_between, judge_errors, check_dataset, check_dataset_id,
  check_family, check_model,
}

-- The size of the run can be estimated, and a run that requires a confirmation comes with the token of
-- the estimate.
abbrev pub IsConfirmed :
    {F : Type 0} ⦃d : Float F⦄ ⦃b : Builtins F⦄
    → (RunBasis F → ℕ → String)
    → RunBasis F
    → Option String
    → Type 0
IsConfirmed token_of basis token =
    (e : SizeEstimate) × (estimate_run_size token_of basis ≡ some e)
    × (e.requires_confirmation ≡ true
        → (t : String) × (t ≢ "") × (token ≡ some t) × (e.confirmation_token ≡ some t))

-- The model configuration, the dataset of the parameters and the model family are known, and the
-- dataset is compatible with the family.
pub record IsFit {F : Type 0} ⦃d : Float F⦄ (services : Services F) (parameters : Fields F) (id : ℕ)
    : Type 0 where
  pub family : String
  pub dataset_id : String
  pub dataset : Dataset F
  pub spec : ModelSpec F
  pub requirement : DatasetRequirement
  pub family_known : lookup id services.model_configs ≡ some family
  pub id_given : dataset_id_of (get "dataset_id" parameters) ≡ some dataset_id
  pub dataset_known : lookup dataset_id services.datasets ≡ some dataset
  pub spec_known : lookup family services.model_registry ≡ some spec
  pub readable : resolve_dataset_requirement spec ≡ some requirement
  pub compatible :
      IsCompatible spec
        (resolve_dataset_compatibility dataset.metadata dataset.timeframe)
        requirement

confirms_lem :
    (token expected : Option String)
    → (confirms token expected ≡ true)
      ↔ ((t : String) × (t ≢ "") × (token ≡ some t) × (expected ≡ some t))
confirms_lem none expected = (λ e. cc, λ (t, n, p, q). cc)
confirms_lem (some t) none = (λ e. cc, λ (u, n, p, q). cc)
confirms_lem (some t) (some u) = (
  λ e. (
    t,
    λ blank. ground (arith, e, (string_eq.beq_iff t "").1 blank),
    refl,
    ap some (sym ((string_eq.beq_iff t u).0 (ground (arith, e)))),
  ),
  λ (v, n, p, q).
      let same : t ≡ u = some_inj p ∙ sym (some_inj q) in
      let filled : (t == "") ≡ false = elim (Bool-cases (t == "")) [
        | inl blank ↦ absurd (n (sym (some_inj p) ∙ (string_eq.beq_iff t "").0 blank))
        | inr filled ↦ filled
      ] in
      rw ((string_eq.beq_iff t u).1 same, filled) refl,
)

gate_lem :
    (requires : Bool) (token expected : Option String)
    → ((if not requires then true else confirms token expected) ≡ true)
      ↔ (requires ≡ true → (t : String) × (t ≢ "") × (token ≡ some t) × (expected ≡ some t))
gate_lem true token expected =
    let both = confirms_lem token expected in (λ e k. both.0 e, λ h. both.1 (h refl))
gate_lem false token expected = (λ e k. cc, λ h. refl)

module _ {F : Type 0} ⦃d : Float F⦄ ⦃b : Builtins F⦄ where
  pub confirmed_lem :
      (token_of : RunBasis F → ℕ → String) (basis : RunBasis F) (token : Option String)
      → (validate_confirmation_token token_of basis token ≡ some true)
        ↔ IsConfirmed token_of basis token
  unfolding validate_confirmation_token
  confirmed_lem token_of basis token = elim (Option-cases (estimate_run_size token_of basis)) [
    | inl raised ↦ rw (validate_confirmation_token, raised) (λ e. cc, λ (x, e, h). cc)
    | inr (x, known) ↦
        let gate = gate_lem x.requires_confirmation token x.confirmation_token in
        rw (validate_confirmation_token, known)
          (
            λ e. (x, refl, gate.0 (some_inj e)),
            λ (y, e, h).
                let same : y ≡ x = sym (some_inj e) in
                ap some (
                  gate.1 (
                    subst
                      (λ z.
                        z.requires_confirmation ≡ true
                        → (t : String) × (t ≢ "")
                          × (token ≡ some t)
                          × (z.confirmation_token ≡ some t))
                      same h)),
          )
  ]

judge_lem : (o : Option (List Incompatibility)) → (judge_errors o ≡ none) ↔ (o ≡ some [])
judge_lem o = ground arith

module _ {F : Type 0} ⦃d : Float F⦄ (services : Services F) (parameters : Fields F) (id : ℕ) where
  spec-IsFit :
      (family dataset_id : String) (dataset : Dataset F) (o : Option (ModelSpec F))
      → lookup id services.model_configs ≡ some family
      → dataset_id_of (get "dataset_id" parameters) ≡ some dataset_id
      → lookup dataset_id services.datasets ≡ some dataset
      → lookup family services.model_registry ≡ o
      → errors_between o dataset ≡ some []
      → IsFit services parameters id
  unfolding errors_between
  spec-IsFit family dataset_id dataset none f i k s e = cc
  spec-IsFit family dataset_id dataset (some spec) f i k s e =
      let (r, read, compatible) = (validate_model_dataset_compatibility_iff spec _).0 e in
      record {
        family = family;
        dataset_id = dataset_id;
        dataset = dataset;
        spec = spec;
        requirement = r;
        family_known = f;
        id_given = i;
        dataset_known = k;
        spec_known = s;
        readable = read;
        compatible = compatible;
      }

  dataset-IsFit :
      (family dataset_id : String) (o : Option (Dataset F))
      → lookup id services.model_configs ≡ some family
      → dataset_id_of (get "dataset_id" parameters) ≡ some dataset_id
      → lookup dataset_id services.datasets ≡ o
      → check_dataset services family o ≡ none
      → IsFit services parameters id
  dataset-IsFit family dataset_id none f i k e = cc
  dataset-IsFit family dataset_id (some dataset) f i k e =
      spec-IsFit family dataset_id dataset (lookup family services.model_registry) f i k refl
        ((judge_lem _).0 e)

  dataset_id-IsFit :
      (family : String) (o : Option String)
      → lookup id services.model_configs ≡ some family
      → dataset_id_of (get "dataset_id" parameters) ≡ o
      → check_dataset_id services family o ≡ none
      → IsFit services parameters id
  dataset_id-IsFit family none f i e = cc
  dataset_id-IsFit family (some dataset_id) f i e =
      dataset-IsFit family dataset_id (lookup dataset_id services.datasets) f i refl e

  family-IsFit :
      (o : Option String)
      → lookup id services.model_configs ≡ o
      → check_family services parameters o ≡ none
      → IsFit services parameters id
  family-IsFit none f e = cc
  family-IsFit (some family) f e =
      dataset_id-IsFit family (dataset_id_of (get "dataset_id" parameters)) f refl e

  fit_passes :
      IsFit services parameters id
      → check_family services parameters (lookup id services.model_configs) ≡ none
  unfolding errors_between
  fit_passes f =
      rw (f.family_known, f.id_given, f.dataset_known, f.spec_known, errors_between)
        ((judge_lem _).1 (
          (validate_model_dataset_compatibility_iff f.spec _).1
            (f.requirement, f.readable, f.compatible)))

module _ {F : Type 0} ⦃d : Float F⦄ where
  pub model_lem :
      (services : Services F) (basis : RunBasis F)
      → (check_model services basis ≡ none)
        ↔ ((id : ℕ) → basis.model_config_id ≡ some id → IsFit services basis.parameters id)
  unfolding check_model
  model_lem services basis = elim (Option-cases basis.model_config_id) [
    | inl absent ↦ rw (check_model, absent) (λ e id k. cc, λ h. refl)
    | inr (id, given) ↦
        rw (check_model, given)
          (
            λ e n k. subst (IsFit services basis.parameters) (some_inj k) (
                family-IsFit services basis.parameters id (lookup id services.model_configs) refl
                  e),
            λ h. fit_passes services basis.parameters id (h id refl),
          )
  ]
