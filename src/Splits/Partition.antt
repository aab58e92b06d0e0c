-- ===== src/Splits/Partition.antt =====
-- `split_qualified_rows` of services/worker-training/src/worker_training/data/splits.py keeps every row
-- and puts no entity into two splits.
use gooberberg_terminal.Prelude.{
  String, true, false, some, List, [], ◌∷◌, ◌++◌, ◌≡◌, ◌∙◌, refl, ap, sym, subst, inl, inr,
  string_eq, eq_iff, ◌==◌, or_else, contains, are_distinct, All, All-append, All-imp, arith,
  Bool-cases,
}
use mathlib.Core.List.{Perm, Mem, Nodup, mem-cons_self, mem-cons_of_mem}
use mathlib.Core.List.Perm
use gooberberg_terminal.Prelude.Dict.{Dict, lookup}
use gooberberg_terminal.Prelude.Float.{Float}
use gooberberg_terminal.Prelude.Value.{Fields, Builtins}
use gooberberg_terminal.Splits.Grouped.{DatasetSplit, keys_of, gather, entity_of}
use gooberberg_terminal.Splits.Groups.{values_of, IsSorting, IsGrouping}
use gooberberg_terminal.Splits.Rearranged.{
  bind, bind-append, bind-Perm, contains-Mem, distinct-Nodup,
}

module _ {F : Type 0} where
  -- `groups[entity]` of an entity that has a group.
  abbrev pub rows_of : Dict String (List (Fields F)) → String → List (Fields F)
  rows_of groups entity = or_else (lookup entity groups) []

  lookup-some :
      (groups : Dict String (List (Fields F))) (entity : String)
      → contains entity (keys_of groups) ≡ true
      → lookup entity groups ≡ some (rows_of groups entity)
  unfolding lookup
  lookup-some [] entity h = cc
  lookup-some ((k, rows) ∷ groups) entity h =
      ground (arith, lookup-some groups entity, eq_iff k entity, eq_iff entity k)

  pub gather-some :
      (groups : Dict String (List (Fields F))) (entities : List String)
      → ((e : String) → Mem e entities → Mem e (keys_of groups))
      → gather groups entities ≡ some (bind (rows_of groups) entities)
  unfolding gather
  gather-some groups [] h = refl
  gather-some groups (e ∷ entities) h =
      let first = lookup-some groups e (contains-Mem e (keys_of groups) (h e mem-cons_self)) in
      let rest = gather-some groups entities (λ x m. h x (mem-cons_of_mem e m)) in
      rw (first, rest) refl

  rows_of-other :
      (k : String) (rows : List (Fields F)) (groups : Dict String (List (Fields F)))
      (entities : List String)
      → contains k entities ≡ false
      → bind (rows_of ((k, rows) ∷ groups)) entities ≡ bind (rows_of groups) entities
  unfolding lookup
  rows_of-other k rows groups [] h = refl
  rows_of-other k rows groups (e ∷ entities) h =
      let other : (k == e) ≡ false = ground (arith, h) in
      let rest = rows_of-other k rows groups entities (ground (arith, h)) in rw (other, rest) refl

  pub rows_of-keys :
      (groups : Dict String (List (Fields F)))
      → are_distinct (keys_of groups) ≡ true
      → bind (rows_of groups) (keys_of groups) ≡ values_of groups
  unfolding lookup
  rows_of-keys [] h = refl
  rows_of-keys ((k, rows) ∷ groups) h =
      let same : (k == k) ≡ true = (eq_iff k k).1 refl in
      let rest = rows_of-other k rows groups (keys_of groups) (ground (arith, h)) in
      let values = rows_of-keys groups (ground (arith, h)) in rw (same, rest, values) refl

module _ {F : Type 0} ⦃d : Float F⦄ ⦃b : Builtins F⦄ where
  -- The row belongs to one of the entities.
  abbrev pub HasEntity : String → List String → Fields F → Type 0
  HasEntity key entities row = (e : String) × ((entity_of key row ≡ some e) × Mem e entities)

  rows_of-entity :
      (key : String) (groups : Dict String (List (Fields F))) (entity : String)
      → IsSorting key groups
      → All (λ row. entity_of key row ≡ some entity) (rows_of groups entity)
  unfolding lookup
  rows_of-entity key [] entity h = tt
  rows_of-entity key ((k, rows) ∷ groups) entity h = elim (Bool-cases (k == entity)) [
    | inl same ↦
        rw (same)
          (subst (λ e. All (λ row. entity_of key row ≡ some e) rows) ((eq_iff k entity).0 same) h.0)
    | inr other ↦ rw (other) (rows_of-entity key groups entity h.1)
  ]

  bind-HasEntity :
      (key : String) (groups : Dict String (List (Fields F))) (all entities : List String)
      → IsSorting key groups
      → ((e : String) → Mem e entities → Mem e all)
      → All (HasEntity key all) (bind (rows_of groups) entities)
  bind-HasEntity key groups all [] h inside = tt
  bind-HasEntity key groups all (e ∷ entities) h inside =
      All-append (HasEntity key all) (rows_of groups e) (bind (rows_of groups) entities)
        (All-imp (λ row. entity_of key row ≡ some e) (HasEntity key all) (rows_of groups e)
          (λ row own. (e, (own, inside e mem-cons_self))) (rows_of-entity key groups e h))
        (bind-HasEntity key groups all entities h (λ x m. inside x (mem-cons_of_mem e m)))

  -- The splits hold every row once, and the rows of one entity are in one split.
  pub record IsPartition (key : String) (rows : List (Fields F)) (split : DatasetSplit F)
      : Type 0 where
    pub train_entities : List String
    pub val_entities : List String
    pub test_entities : List String
    pub distinct : Nodup (train_entities ++ (val_entities ++ test_entities))
    pub of_train : All (HasEntity key train_entities) split.train
    pub of_val : All (HasEntity key val_entities) split.val
    pub of_test : All (HasEntity key test_entities) split.test
    pub every_row : Perm (split.train ++ (split.val ++ split.test)) rows

  -- Three lists that make up the keys gather a partition.
  pub gather-IsPartition :
      (key : String) (rows : List (Fields F)) (groups : Dict String (List (Fields F)))
      (t v s : List String)
      → IsGrouping key rows groups
      → Perm (t ++ (v ++ s)) (keys_of groups)
      → IsPartition key rows (record {
        train = bind (rows_of groups) t;
        val = bind (rows_of groups) v;
        test = bind (rows_of groups) s;
      })
  gather-IsPartition key rows groups t v s h p =
      let together : bind (rows_of groups) (t ++ (v ++ s))
          ≡ bind (rows_of groups) t ++ (bind (rows_of groups) v ++ bind (rows_of groups) s) =
        bind-append (rows_of groups) t (v ++ s)
        ∙ ap (λ rest. bind (rows_of groups) t ++ rest) (bind-append (rows_of groups) v s) in
      record {
        train_entities = t;
        val_entities = v;
        test_entities = s;
        distinct = Perm.nodup (Perm.symm p) (distinct-Nodup (keys_of groups) h.distinct);
        of_train = bind-HasEntity key groups t t h.sorting (λ e m. m);
        of_val = bind-HasEntity key groups v v h.sorting (λ e m. m);
        of_test = bind-HasEntity key groups s s h.sorting (λ e m. m);
        every_row =
            subst (λ all. Perm all rows) together
              (Perm.trans (bind-Perm (rows_of groups) (t ++ (v ++ s)) (keys_of groups) p)
                (subst (λ all. Perm all rows) (sym (rows_of-keys groups h.distinct)) h.values));
      }
