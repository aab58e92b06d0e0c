-- ===== src/Splits/Groups.antt =====
-- Rows by entity, in `split_qualified_rows` of
-- services/worker-training/src/worker_training/data/splits.py.
use gooberberg_terminal.Prelude.{
  String, true, ◌||◌, some, List, [], ◌∷◌, ◌++◌, ◌≡◌, ◌∙◌, refl, ap, sym, subst, inl, inr,
  string_eq, eq_iff, ◌==◌, contains, are_distinct, All, All-append, arith, Bool-cases,
}
use mathlib.Core.List.{append_assoc, append-nil, Perm, perm_middle}
use mathlib.Core.List.Perm
use gooberberg_terminal.Prelude.Dict.{Dict}
use gooberberg_terminal.Prelude.Float.{Float}
use gooberberg_terminal.Prelude.Raising.{Yields, Yields-some, Yields-bind}
use gooberberg_terminal.Prelude.Value.{Fields, Builtins}
use gooberberg_terminal.Splits.Grouped.{add_to_group, keys_of, entity_of, group_rows}

module _ {F : Type 0} where
  -- All rows, group by group.
  abbrev pub values_of : Dict String (List (Fields F)) → List (Fields F)
  values_of [] = []
  values_of ((k, rows) ∷ groups) = rows ++ values_of groups

  add_to_group-values :
      (key : String) (row : Fields F) (groups : Dict String (List (Fields F)))
      → Perm (values_of (add_to_group key row groups)) (row ∷ values_of groups)
  unfolding add_to_group
  add_to_group-values key row [] = Perm.refl (row ∷ [])
  add_to_group-values key row ((k, rows) ∷ groups) = elim (Bool-cases (k == key)) [
    | inl same ↦
        rw (same, append_assoc rows (row ∷ []) (values_of groups))
          (perm_middle rows (values_of groups))
    | inr other ↦ rw (other) (
        Perm.trans (Perm.append_left rows (add_to_group-values key row groups))
          (perm_middle rows (values_of groups)))
  ]

  add_to_group-contains :
      (x key : String) (row : Fields F) (groups : Dict String (List (Fields F)))
      → contains x (keys_of (add_to_group key row groups))
        ≡ (contains x (keys_of groups) || x == key)
  unfolding add_to_group
  add_to_group-contains x key row [] = ground arith
  add_to_group-contains x key row ((k, rows) ∷ groups) =
      ground (arith, add_to_group-contains x key row groups, eq_iff k key, eq_iff x k, eq_iff x key)

  add_to_group-distinct :
      (key : String) (row : Fields F) (groups : Dict String (List (Fields F)))
      → are_distinct (keys_of groups) ≡ true
      → are_distinct (keys_of (add_to_group key row groups)) ≡ true
  unfolding add_to_group
  add_to_group-distinct key row [] h = refl
  add_to_group-distinct key row ((k, rows) ∷ groups) h = ground (
    arith,
    add_to_group-distinct key row groups,
    add_to_group-contains k key row groups,
    eq_iff k key,
  )

module _ {F : Type 0} ⦃d : Float F⦄ ⦃b : Builtins F⦄ where
  -- Every group holds rows of its entity only.
  abbrev pub IsSorting : String → Dict String (List (Fields F)) → Type 0
  IsSorting key groups = All (λ g. All (λ row. entity_of key row ≡ some g.0) g.1) groups

  add_to_group-IsSorting :
      (key entity : String) (row : Fields F) (groups : Dict String (List (Fields F)))
      → entity_of key row ≡ some entity
      → IsSorting key groups
      → IsSorting key (add_to_group entity row groups)
  unfolding add_to_group
  add_to_group-IsSorting key entity row [] e h = ((e, tt), tt)
  add_to_group-IsSorting key entity row ((k, rows) ∷ groups) e h = elim (Bool-cases (k == entity)) [
    | inl same ↦
        let own : entity_of key row ≡ some k = e ∙ ap some (sym ((eq_iff k entity).0 same)) in
        rw (same) (All-append (λ r. entity_of key r ≡ some k) rows (row ∷ []) h.0 (own, tt), h.1)
    | inr other ↦ rw (other) (h.0, add_to_group-IsSorting key entity row groups e h.1)
  ]

  -- What the loop over the rows builds.
  pub record IsGrouping (key : String) (rows : List (Fields F))
      (groups : Dict String (List (Fields F))) : Type 0 where
    pub values : Perm (values_of groups) rows
    pub distinct : are_distinct (keys_of groups) ≡ true
    pub sorting : IsSorting key groups

  group_rows-from :
      (key : String) (rows before : List (Fields F)) (groups : Dict String (List (Fields F)))
      → IsGrouping key before groups
      → Yields (IsGrouping key (rows ++ before)) (group_rows key rows groups)
  unfolding group_rows
  group_rows-from key [] before groups h = Yields-some groups h
  group_rows-from key (row ∷ rows) before groups h =
      Yields-bind (entity_of key row)
        (λ entity. group_rows key rows (add_to_group entity row groups))
        (λ entity found.
          let next : IsGrouping key (row ∷ before) (add_to_group entity row groups) = record {
            values = Perm.trans (add_to_group-values entity row groups) (Perm.cons row h.values);
            distinct = add_to_group-distinct entity row groups h.distinct;
            sorting = add_to_group-IsSorting key entity row groups found h.sorting;
          } in
          let rest =
            group_rows-from key rows (row ∷ before) (add_to_group entity row groups) next in
          record {
            at = λ result e.
                let grouping = rest.at result e in
                record {
                  values = Perm.trans grouping.values (perm_middle rows before);
                  distinct = grouping.distinct;
                  sorting = grouping.sorting;
                };
          })

  pub group_rows-IsGrouping :
      (key : String) (rows : List (Fields F))
      → Yields (IsGrouping key rows) (group_rows key rows [])
  group_rows-IsGrouping key rows =
      subst (λ all. Yields (IsGrouping key all) (group_rows key rows [])) (append-nil rows)
        (group_rows-from key rows [] []
          (record { values = Perm.refl []; distinct = refl; sorting = tt }))
