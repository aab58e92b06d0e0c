-- ===== src/Jobs/Constraints.antt =====
-- The constraints of a run, and the metrics under them: apps/api-control-plane/app/schemas/run_constraints.py
-- and apps/api-control-plane/app/domain/training_runs/constraints.py.
use gooberberg_terminal.Prelude.{
  ℕ, String, Bool, true, false, ◌&&◌, ◌||◌, Option, none, some, List, [], ◌∷◌, string_eq, ◌==◌,
  if◌then◌else◌,
}
use gooberberg_terminal.Prelude.Float.{Float, nought, ◌⊕◌, ◌⊖◌, ◌⊘◌, ◌<<◌}
use gooberberg_terminal.Prelude.Value.{
  Value, bool, num, obj, Fields, end, field, Builtins, get, put, is_truthy,
}
use gooberberg_terminal.Jobs.Artifacts.{as_float}

pub record TransactionCostModel (F : Type 0) : Type 0 where
  pub bps : F
  pub per_contract_fee : F

pub record SlippageBucketModel (F : Type 0) : Type 0 where
  pub liquidity_bucket : String
  pub volatility_bucket : String
  pub slippage_bps : F

pub record PositionLimitModel (F : Type 0) : Type 0 where
  pub max_turnover : Option F
  pub max_position_abs : Option F
  pub leverage_cap : Option F

pub record RunConstraints (F : Type 0) : Type 0 where
  pub transaction_cost : TransactionCostModel F
  pub slippage_buckets : List (SlippageBucketModel F)
  pub signal_to_fill_lag_steps : ℕ
  pub limits : PositionLimitModel F

-- What pydantic does with the fields of the models: it reads them, where `none` is a
-- `ValidationError`, and dumps them.
pub record Schema (F : Type 0) : Type 0 where
  pub read : Fields F → Option (RunConstraints F)
  pub dump : RunConstraints F → Value F

module _ {F : Type 0} where
  abbrev pub same_bucket : SlippageBucketModel F → SlippageBucketModel F → Bool
  same_bucket a b =
      a.liquidity_bucket == b.liquidity_bucket && a.volatility_bucket == b.volatility_bucket

  abbrev pub is_seen : SlippageBucketModel F → List (SlippageBucketModel F) → Bool
  is_seen bucket [] = false
  is_seen bucket (b ∷ seen) = same_bucket bucket b || is_seen bucket seen

  -- `ensure_unique_slippage_buckets`: whether it raises nothing.
  unfoldable pub are_unique : List (SlippageBucketModel F) → List (SlippageBucketModel F) → Bool
  are_unique seen [] = true
  are_unique seen (bucket ∷ buckets) =
      let rest = are_unique (bucket ∷ seen) buckets in if is_seen bucket seen then false else rest

  abbrev pub checked : RunConstraints F → Option (RunConstraints F)
  unfolding are_unique
  checked k = if are_unique [] k.slippage_buckets then some k else none

  abbrev pub validated : Option (RunConstraints F) → Option (Option (RunConstraints F))
  validated none = none
  validated (some k) = elim (checked k) [ none ↦ none | some k' ↦ some (some k') ]

  abbrev pub constraints_in : Schema F → Option (Value F) → Option (Option (RunConstraints F))
  constraints_in schema (some (obj raw)) = validated (schema.read raw)
  constraints_in schema _ = some none

  abbrev pub constraints_under : Schema F → Option (Value F) → Option (Option (RunConstraints F))
  unfolding get
  constraints_under schema (some (obj metadata)) =
      constraints_in schema (get "constraints" metadata)
  constraints_under schema _ = some none

  -- `extract_constraints_from_parameters`; the outer `none` is a `ValidationError`.
  unfoldable pub extract_constraints_from_parameters :
      Schema F → Fields F → Option (Option (RunConstraints F))
  unfolding get
  extract_constraints_from_parameters schema parameters =
      constraints_under schema (get "run_metadata" parameters)

module _ {F : Type 0} ⦃d : Float F⦄ ⦃b : Builtins F⦄ where
  -- `str(v or "")`
  abbrev pub text_or_empty : Option (Value F) → String
  text_or_empty none = ""
  text_or_empty (some v) = if is_truthy v then b.str v else ""

  abbrev pub bucket_bps : String → String → F → List (SlippageBucketModel F) → F
  bucket_bps liquidity_bucket volatility_bucket default [] = default
  bucket_bps liquidity_bucket volatility_bucket default (bucket ∷ buckets) =
      let rest = bucket_bps liquidity_bucket volatility_bucket default buckets in
      if bucket.liquidity_bucket == liquidity_bucket
        && bucket.volatility_bucket == volatility_bucket
      then bucket.slippage_bps
      else rest

  -- `_resolve_slippage_bps`
  unfoldable pub resolve_slippage_bps : Fields F → RunConstraints F → F
  unfolding get
  resolve_slippage_bps metrics k = elim k.slippage_buckets [
    | [] ↦ nought
    | bucket ∷ buckets ↦
        bucket_bps (text_or_empty (get "liquidity_bucket" metrics))
          (text_or_empty (get "volatility_bucket" metrics)) bucket.slippage_bps (bucket ∷ buckets)
  ]

  abbrev pub total_penalty_bps : Fields F → RunConstraints F → F
  unfolding resolve_slippage_bps
  total_penalty_bps metrics k =
      k.transaction_cost.bps ⊕ resolve_slippage_bps metrics k ⊕ d.of_nat k.signal_to_fill_lag_steps

  -- `limit is not None and value is not None and value > limit`
  abbrev pub is_breached : Option F → Option F → Bool
  is_breached (some limit) (some value) = limit << value
  is_breached _ _ = false

  abbrev pub limit_breaches : Fields F → RunConstraints F → Fields F
  unfolding get
  limit_breaches metrics k =
      field "max_turnover"
        (bool (is_breached k.limits.max_turnover (as_float (get "turnover" metrics))))
        (field "max_position_abs"
          (bool (is_breached k.limits.max_position_abs (as_float (get "max_abs_position" metrics))))
          (field "leverage_cap"
            (bool (is_breached k.limits.leverage_cap (as_float (get "realized_leverage" metrics))))
            end))

  abbrev pub penalties : Fields F → RunConstraints F → Fields F
  unfolding resolve_slippage_bps
  penalties metrics k = field "transaction_cost_bps" (num k.transaction_cost.bps) (
      field "slippage_bps" (num (resolve_slippage_bps metrics k)) (
        field "execution_delay_bps" (num (d.of_nat k.signal_to_fill_lag_steps)) (
          field "total_bps" (num (total_penalty_bps metrics k))
            (field "limit_breaches" (obj (limit_breaches metrics k)) end))))

  -- `value - (total_penalty_bps / 10_000.0)`
  abbrev pub penalized : F → F → F
  penalized total x = x ⊖ (total ⊘ d.of_nat 10000)

  abbrev pub with_objective : F → Option F → Fields F → Fields F
  unfolding put
  with_objective total none metrics = metrics
  with_objective total (some x) metrics =
      put "objective_constrained" (num (penalized total x)) metrics

  abbrev pub adjusted_value : F → Value F → Value F
  adjusted_value total v = elim (as_float (some v)) [ none ↦ v | some x ↦ num (penalized total x) ]

  abbrev pub adjusted : F → Fields F → Fields F
  adjusted total end = end
  adjusted total (field key v rest) = field key (adjusted_value total v) (adjusted total rest)

  abbrev pub with_validation : F → Option (Value F) → Fields F → Fields F
  unfolding put
  with_validation total (some (obj validation)) metrics =
      put "validation_metrics_constrained" (obj (adjusted total validation)) metrics
  with_validation total _ metrics = metrics

  -- `apply_constraints_to_metrics`
  unfoldable pub apply_constraints_to_metrics :
      Schema F → Fields F → Option (RunConstraints F) → Fields F
  unfolding get put resolve_slippage_bps
  apply_constraints_to_metrics schema metrics none = metrics
  apply_constraints_to_metrics schema metrics (some k) =
      let total = total_penalty_bps metrics k in
      let described =
        put "constraint_penalties" (obj (penalties metrics k))
          (put "constraints" (schema.dump k) metrics) in
      let scored = with_objective total (as_float (get "objective_raw" described)) described in
      with_validation total (get "validation_metrics" scored) scored
