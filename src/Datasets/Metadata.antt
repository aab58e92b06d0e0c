-- ===== src/Datasets/Metadata.antt =====
-- Reading the metadata of a dataset and the requirement of a model,
-- apps/api-control-plane/app/domain/model_configs/compatibility.py.
use Prim.Native.String.{◌∷◌ as ◌:>◌, [] as empty}
use gooberberg_terminal.Prelude.{
  String, Bool, false, Option, none, some, List, [], ◌∷◌, ◌++◌, string_eq, option_eq, ◌==◌, ◌&&◌,
  not, if◌then◌else◌, is_some, contains,
}
use gooberberg_terminal.Prelude.Float.{Float}
use gooberberg_terminal.Prelude.Raising.{◌>>=◌}
use gooberberg_terminal.Prelude.Texts.{strip, is_empty_text}
use gooberberg_terminal.Prelude.Value.{
  Value, bool, text, arr, obj, Items, nil, cons, Fields, end, field, get, get_or, is_truthy,
}

-- A set of texts is the list of its elements, each once.
pub record DatasetCompatibilityMetadata : Type 0 where
  pub data_kind : Option String
  pub index_type : Option String
  pub target_type : Option String
  pub available_fields : List String
  pub frequency : Option String
  pub point_in_time_ready : Option Bool

pub record DatasetRequirement : Type 0 where
  pub required_fields : List String
  pub required_frequency : Option String
  pub require_point_in_time_data : Bool

-- The attribute `dataset_requirement` of a model: one of the class, a mapping, or anything else.
pub data RawRequirement (F : Type 0) : Type 0 where
  given : DatasetRequirement → RawRequirement F
  mapping : Fields F → RawRequirement F
  other : RawRequirement F

pub record ModelSpec (F : Type 0) : Type 0 where
  pub model_family : String
  pub supported_data_kinds : List String
  pub required_index : Option String
  pub target_type : Option String
  pub dataset_requirement : RawRequirement F

-- `a or b` of texts that are not empty.
abbrev pub or_text : Option String → Option String → Option String
or_text none b = b
or_text (some a) b = some a

-- The truth of a text that may be None.
abbrev pub is_given : Option String → Bool
is_given none = false
is_given (some t) = not (is_empty_text t)

-- `_as_string` of a text
unfoldable pub stripped : String → Option String
unfolding strip
stripped s = let normalized = strip s in if is_empty_text normalized then none else some normalized

-- `set.add` and `set.update`
abbrev pub add_new : String → List String → List String
add_new x xs = if contains x xs then xs else xs ++ (x ∷ [])

abbrev pub add_all : List String → List String → List String
add_all [] xs = xs
add_all (y ∷ ys) xs = add_all ys (add_new y xs)

abbrev chars : {F : Type 0} → String → List (Value F)
chars empty = []
chars (c :> s) = text (c :> empty) ∷ chars s

module _ {F : Type 0} where
  abbrev pub as_string : Value F → Option String
  as_string (text s) = stripped s
  as_string _ = none

  abbrev pub as_given_string : Option (Value F) → Option String
  as_given_string none = none
  as_given_string (some v) = as_string v

  abbrev pub as_bool : Option (Value F) → Option Bool
  as_bool (some (bool b)) = some b
  as_bool _ = none

  abbrev pub add_item : Value F → List String → List String
  add_item v names = elim (as_string v) [ none ↦ names | some s ↦ add_new s names ]

  abbrev pub add_items : Items F → List String → List String
  add_items nil names = names
  add_items (cons v items) names = add_items items (add_item v names)

  abbrev pub as_string_set : Option (Value F) → List String
  as_string_set (some (arr items)) = add_items items []
  as_string_set _ = []

  abbrev pub items_of : Items F → List (Value F)
  items_of nil = []
  items_of (cons v items) = v ∷ items_of items

  abbrev pub keys_of : Fields F → List (Value F)
  keys_of end = []
  keys_of (field key v rest) = text key ∷ keys_of rest

  -- What `for item in v` runs over; `none` is a raised `TypeError`.
  abbrev pub iterate : Value F → Option (List (Value F))
  iterate (arr items) = some (items_of items)
  iterate (obj fields) = some (keys_of fields)
  iterate (text s) = some (chars s)
  iterate _ = none

  abbrev pub strings_of : List (Value F) → List String
  strings_of [] = []
  strings_of (v ∷ vs) =
      let rest = strings_of vs in elim (as_string v) [ none ↦ rest | some s ↦ s ∷ rest ]

module _ {F : Type 0} ⦃d : Float F⦄ where
  -- `a or b` of values that may be missing.
  abbrev pub or_value : Option (Value F) → Option (Value F) → Option (Value F)
  or_value none b = b
  or_value (some v) b = if is_truthy v then some v else b

  -- `timeframe` is `none` for None.
  unfoldable pub resolve_dataset_compatibility :
      Fields F → Option String → DatasetCompatibilityMetadata
  unfolding get stripped
  resolve_dataset_compatibility metadata timeframe =
      let named_kind = as_given_string (get "data_kind" metadata) in
      let data_kind =
        if not (is_some named_kind) && is_given timeframe then some "time_series" else named_kind in
      let named_index = as_given_string (get "index_type" metadata) in
      record {
        data_kind = data_kind;
        index_type =
            if not (is_some named_index) && data_kind == some "time_series"
            then some "datetime"
            else named_index;
        target_type = as_given_string (get "target_type" metadata);
        available_fields = as_string_set (
            or_value (or_value (get "fields" metadata) (get "available_fields" metadata))
              (get "columns" metadata));
        frequency = or_text (as_given_string (get "frequency" metadata)) (timeframe >>= stripped);
        point_in_time_ready = as_bool (
            if is_some (get "point_in_time_ready" metadata)
            then get "point_in_time_ready" metadata
            else get "pit_ready" metadata);
      }

  unfoldable pub resolve_dataset_requirement : ModelSpec F → Option DatasetRequirement
  unfolding get
  resolve_dataset_requirement spec = elim spec.dataset_requirement [
    | given requirement ↦ some requirement
    | mapping raw ↦ iterate (get_or "required_fields" (arr nil) raw) >>= (λ items. some (record {
      required_fields = strings_of items;
      required_frequency = as_given_string (get "required_frequency" raw);
      require_point_in_time_data = is_truthy (get_or "require_point_in_time_data" (bool false) raw);
    }))
    | other ↦ some (record {
      required_fields = [];
      required_frequency = none;
      require_point_in_time_data = false;
    })
  ]
