-- ===== src/Splits/Entities.antt =====
-- `split_qualified_rows` of services/worker-training/src/worker_training/data/splits.py gives the rows
-- of the entities to three splits.
use gooberberg_terminal.Prelude.{
  drop-drop, ℕ, ◌+◌, ◌-◌, String, false, some, List, [], ◌++◌, ◌≡◌, refl, sym, subst, string_eq,
  arith, length, drop, take-append-drop,
}
use mathlib.Core.List.{Perm, Nodup, mem-append_left, mem-append_right, Nodup-append}
use mathlib.Core.List.Perm
use gooberberg_terminal.Prelude.Dict.{Dict}
use gooberberg_terminal.Prelude.Float.{Float}
use gooberberg_terminal.Prelude.Int.{ℤ, pos, ◌+ℤ◌}
use gooberberg_terminal.Prelude.Value.{Fields, Builtins}
use gooberberg_terminal.Splits.Rows.{slice}
use gooberberg_terminal.Splits.Slices.{slice-eq-take, slice-rest}
use gooberberg_terminal.Splits.Grouped.{
  SplitConfig, DatasetSplit, Orders, keys_of, are_ratios_invalid, group_rows, split_entities,
  share_of, split_qualified_rows,
}
use gooberberg_terminal.Splits.Groups.{IsGrouping, group_rows-IsGrouping}
use gooberberg_terminal.Splits.Rearranged.{bind, distinct-Nodup}
use gooberberg_terminal.Splits.Partition.{rows_of, gather-some, IsPartition, gather-IsPartition}

-- The three slices of a list.
slices_lem :
    (a c : ℕ) (es : List String)
    → slice (pos 0) (pos a) es
        ++ (slice (pos a) (pos a +ℤ pos c) es ++ slice (pos a +ℤ pos c) (pos (length es)) es)
      ≡ es
slices_lem a c es =
    let sum : pos a +ℤ pos c ≡ pos (a + c) = ground arith in
    let first : a - 0 ≡ a = omega arith in
    let width : a + c - a ≡ c = omega arith in
    rw
      (
        sum,
        slice-eq-take 0 a es,
        slice-eq-take a (a + c) es,
        slice-rest (a + c) es,
        drop-drop a c es,
        first,
        width,
        take-append-drop c (drop a es),
      )
      (take-append-drop a es)

module _ {F : Type 0} ⦃d : Float F⦄ ⦃b : Builtins F⦄ where
  split_entities-IsPartition :
      (o : Orders) (key : String) (rows : List (Fields F)) (groups : Dict String (List (Fields F)))
      (es : List String) (a c : ℕ)
      → ((xs : List String) → Nodup xs → Perm (o.set_order xs) xs)
      → IsGrouping key rows groups
      → Perm es (keys_of groups)
      → (split : DatasetSplit F) × ((split_entities o groups es (pos a) (pos c) ≡ some split)
          × IsPartition key rows split)
  unfolding split_entities
  split_entities-IsPartition o key rows groups es a c walks h p =
      let t0 = slice (pos 0) (pos a) es in
      let v0 = slice (pos a) (pos a +ℤ pos c) es in
      let s0 = slice (pos a +ℤ pos c) (pos (length es)) es in
      let distinct : Nodup es =
        Perm.nodup (Perm.symm p) (distinct-Nodup (keys_of groups) h.distinct) in
      let parts : Nodup (t0 ++ (v0 ++ s0)) = subst Nodup (sym (slices_lem a c es)) distinct in
      let (nt, nr, dr) = Nodup-append.0 parts in
      let (nv, ns, ds) = Nodup-append.0 nr in
      let t = o.set_order t0 in
      let v = o.set_order v0 in
      let s = o.set_order s0 in
      let walked : Perm (t ++ (v ++ s)) (t0 ++ (v0 ++ s0)) =
        Perm.append (walks t0 nt) (Perm.append (walks v0 nv) (walks s0 ns)) in
      let together : Perm (t ++ (v ++ s)) (keys_of groups) =
        Perm.trans (subst (λ all. Perm (t ++ (v ++ s)) all) (slices_lem a c es) walked) p in
      let inside = Perm.subset together in
      let train = gather-some groups t (λ e m. inside e (mem-append_left (v ++ s) m)) in
      let val = gather-some groups v (λ e m. inside e (mem-append_right t (mem-append_left s m))) in
      let test =
        gather-some groups s (λ e m. inside e (mem-append_right t (mem-append_right v m))) in
      (
        record {
          train = bind (rows_of groups) t;
          val = bind (rows_of groups) v;
          test = bind (rows_of groups) s;
        },
        (rw (train, val, test) refl, gather-IsPartition key rows groups t v s h together),
      )

  -- If the ratios are valid, every row has an entity and no share is negative, the split returns
  -- splits that hold every row once and have the rows of one entity in one split, if shuffling
  -- rearranges a list and walking the set of a list of distinct texts meets each of them.
  pub split_qualified_rows-IsPartition :
      (o : Orders) (cfg : SplitConfig F) (rows : List (Fields F))
      (groups : Dict String (List (Fields F))) (a c : ℕ)
      → ((seed : ℤ) (xs : List String) → Perm (o.shuffle seed xs) xs)
      → ((xs : List String) → Nodup xs → Perm (o.set_order xs) xs)
      → are_ratios_invalid cfg ≡ false
      → group_rows cfg.leakage_guard_key rows [] ≡ some groups
      → share_of (length (o.shuffle cfg.seed (keys_of groups))) cfg.train_ratio ≡ some (pos a)
      → share_of (length (o.shuffle cfg.seed (keys_of groups))) cfg.val_ratio ≡ some (pos c)
      → (split : DatasetSplit F) × ((split_qualified_rows o cfg rows ≡ some split)
          × IsPartition cfg.leakage_guard_key rows split)
  unfolding split_qualified_rows
  split_qualified_rows-IsPartition o cfg rows groups a c shuffles walks valid grouped train val =
      let grouping = (group_rows-IsGrouping cfg.leakage_guard_key rows).at groups grouped in
      let splits =
        split_entities-IsPartition o cfg.leakage_guard_key rows groups
          (o.shuffle cfg.seed (keys_of groups)) a c walks grouping
          (shuffles cfg.seed (keys_of groups)) in
      (splits.0, (rw (valid, grouped, train, val) splits.1.0, splits.1.1))
