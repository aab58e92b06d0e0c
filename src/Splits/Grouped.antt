-- ===== src/Splits/Grouped.antt =====
-- `split_qualified_rows` of services/worker-training/src/worker_training/data/splits.py.
use gooberberg_terminal.Prelude.{
  ℕ, String, Bool, Option, none, some, List, [], ◌∷◌, ◌++◌, string_eq, if◌then◌else◌, ◌==◌, length,
}
use gooberberg_terminal.Prelude.Dict.{Dict, lookup}
use gooberberg_terminal.Prelude.Float.{Float, one, fabs, ◌⊕◌, ◌⊖◌, ◌⊗◌, ◌⊘◌, ◌<<◌}
use gooberberg_terminal.Prelude.Int.{ℤ, pos, ◌+ℤ◌}
use gooberberg_terminal.Prelude.Raising.{◌>>=◌}
use gooberberg_terminal.Prelude.Value.{Fields, Builtins}
use gooberberg_terminal.Splits.Rows.{slice}
use gooberberg_terminal.Splits.Timing.{get_present}

pub record SplitConfig (F : Type 0) : Type 0 where
  pub train_ratio : F
  pub val_ratio : F
  pub test_ratio : F
  pub seed : ℤ
  pub leakage_guard_key : String

pub record DatasetSplit (F : Type 0) : Type 0 where
  pub train : List (Fields F)
  pub val : List (Fields F)
  pub test : List (Fields F)

-- `Random(seed).shuffle` of a list, and the order in which a set of a list's elements is walked.
pub record Orders : Type 0 where
  pub shuffle : ℤ → List String → List String
  pub set_order : List String → List String

module _ {F : Type 0} where
  -- `groups.setdefault(key, []).append(row)`
  unfoldable pub add_to_group :
      String → Fields F → Dict String (List (Fields F)) → Dict String (List (Fields F))
  add_to_group key row [] = (key, row ∷ []) ∷ []
  add_to_group key row ((k, rows) ∷ groups) =
      let rest = add_to_group key row groups in
      if k == key then (k, rows ++ (row ∷ [])) ∷ groups else (k, rows) ∷ rest

  -- `list(groups)`
  abbrev pub keys_of : Dict String (List (Fields F)) → List String
  keys_of [] = []
  keys_of ((k, rows) ∷ groups) = k ∷ keys_of groups

  -- `tuple(item for entity in entities for item in groups[entity])`; `none` is a `KeyError`.
  unfoldable pub gather : Dict String (List (Fields F)) → List String → Option (List (Fields F))
  unfolding lookup
  gather groups [] = some []
  gather groups (entity ∷ entities) = do
    items ← lookup entity groups
    rest ← gather groups entities
    some (items ++ rest)

module _ {F : Type 0} ⦃d : Float F⦄ ⦃b : Builtins F⦄ where
  -- The test of `_validate_ratios` that raises.
  unfoldable pub are_ratios_invalid : SplitConfig F → Bool
  are_ratios_invalid cfg =
      let total = cfg.train_ratio ⊕ cfg.val_ratio ⊕ cfg.test_ratio in
      (one ⊘ d.of_nat 1000000000) << fabs (total ⊖ one)

  -- `str(row.get(cfg.leakage_guard_key))`, which must not be `None`.
  unfoldable pub entity_of : String → Fields F → Option String
  unfolding get_present
  entity_of key row = do raw_key ← get_present key row; some (b.str raw_key)

  -- The loop over the rows.
  unfoldable pub group_rows :
      String
      → List (Fields F)
      → Dict String (List (Fields F))
      → Option (Dict String (List (Fields F)))
  unfolding entity_of add_to_group
  group_rows key [] groups = some groups
  group_rows key (row ∷ rows) groups = do
    entity ← entity_of key row
    group_rows key rows (add_to_group entity row groups)

  -- From the shuffled entities on.
  unfoldable pub split_entities :
      Orders → Dict String (List (Fields F)) → List String → ℤ → ℤ → Option (DatasetSplit F)
  unfolding gather slice
  split_entities o groups entities train_n val_n = do
    train ← gather groups (o.set_order (slice (pos 0) train_n entities))
    val ← gather groups (o.set_order (slice train_n (train_n +ℤ val_n) entities))
    test ← gather groups (o.set_order (slice (train_n +ℤ val_n) (pos (length entities)) entities))
    some (record { train = train; val = val; test = test })

  -- `int(n * ratio)`
  abbrev pub share_of : ℕ → F → Option ℤ
  share_of n ratio = b.truncate (d.of_nat n ⊗ ratio)

  unfoldable pub split_qualified_rows :
      Orders → SplitConfig F → List (Fields F) → Option (DatasetSplit F)
  unfolding are_ratios_invalid group_rows split_entities
  split_qualified_rows o cfg rows = if are_ratios_invalid cfg then none else do
    groups ← group_rows cfg.leakage_guard_key rows []
    train_n ← share_of (length (o.shuffle cfg.seed (keys_of groups))) cfg.train_ratio
    val_n ← share_of (length (o.shuffle cfg.seed (keys_of groups))) cfg.val_ratio
    split_entities o groups (o.shuffle cfg.seed (keys_of groups)) train_n val_n
