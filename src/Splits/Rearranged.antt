-- ===== src/Splits/Rearranged.antt =====
-- Rearranged lists of entities, for `split_qualified_rows` of
-- services/worker-training/src/worker_training/data/splits.py.
use gooberberg_terminal.Prelude.{
  String, true, List, [], ◌∷◌, ◌++◌, ◌≡◌, ◌∙◌, refl, ap, sym, subst, inl, inr, string_eq, eq_iff,
  ◌==◌, contains, are_distinct, arith, Bool-cases,
}
use mathlib.Core.List.{
  append_assoc, Perm, Permᴰ, Memᴰ, Mem, Pairwise, Nodup, Nodup-cons, mem-cons_self, mem-cons_of_mem,
  Perm-prop,
}
use mathlib.Core.Logic.{∥∥₁_elim}
use mathlib.Core.List.Perm
use mathlib.Core.List.Permᴰ
use mathlib.Core.HLevel.{⊥_prop}

module _ {A : Type 0} (f : String → List A) where
  -- The lists of the elements, one after another.
  abbrev pub bind : List String → List A
  bind [] = []
  bind (x ∷ xs) = f x ++ bind xs

  pub bind-append : (xs ys : List String) → bind (xs ++ ys) ≡ bind xs ++ bind ys
  bind-append [] ys = refl
  bind-append (x ∷ xs) ys =
      ap (λ rest. f x ++ rest) (bind-append xs ys) ∙ sym (append_assoc (f x) (bind xs) (bind ys))

  append_swap : (xs ys zs : List A) → Perm (xs ++ (ys ++ zs)) (ys ++ (xs ++ zs))
  append_swap xs ys zs =
      subst (λ rows. Perm rows (ys ++ (xs ++ zs))) (append_assoc xs ys zs)
        (subst (λ rows. Perm ((xs ++ ys) ++ zs) rows) (append_assoc ys xs zs)
          (Perm.append_right zs ∣ Permᴰ.append_comm xs ys ∣₁))

  bind-Permᴰ : {xs ys : List String} → Permᴰ xs ys → Perm (bind xs) (bind ys)
  bind-Permᴰ Permᴰ.nil = Perm.refl []
  bind-Permᴰ (Permᴰ.cons {a = a} {b = b} {l₁ = xs} {l₂ = ys} e p) =
      subst (λ y. Perm (f a ++ bind xs) (f y ++ bind ys)) e (Perm.append_left (f a) (bind-Permᴰ p))
  bind-Permᴰ (Permᴰ.swap {a = a} {b = b} {a' = a'} {b' = b'} {l = l} e₁ e₂) =
      subst (λ y. Perm (f a ++ (f b ++ bind l)) (f a' ++ (f y ++ bind l))) e₁
        (subst (λ y. Perm (f a ++ (f b ++ bind l)) (f y ++ (f a ++ bind l))) e₂
          (append_swap (f a) (f b) (bind l)))
  bind-Permᴰ (Permᴰ.trans p q) = Perm.trans (bind-Permᴰ p) (bind-Permᴰ q)

  pub bind-Perm : (xs ys : List String) → Perm xs ys → Perm (bind xs) (bind ys)
  bind-Perm xs ys p = ∥∥₁_elim p Perm-prop bind-Permᴰ

contains-Memᴰ : (x : String) (xs : List String) → Memᴰ x xs → contains x xs ≡ true
contains-Memᴰ x [] m = elim m [ ]
contains-Memᴰ x (y ∷ xs) (Memᴰ.head e) = ground (arith, (eq_iff x y).1 e)
contains-Memᴰ x (y ∷ xs) (Memᴰ.tail m) = ground (arith, contains-Memᴰ x xs m)

pub contains-Mem : (x : String) (xs : List String) → Mem x xs → contains x xs ≡ true
contains-Mem x xs m = elim (Bool-cases (contains x xs)) [
  | inl has ↦ has
  | inr lacks ↦
      absurd (∥∥₁_elim m ⊥_prop (λ d. absurd (ground (arith, lacks, contains-Memᴰ x xs d))))
]

pub Mem-contains : (x : String) (xs : List String) → contains x xs ≡ true → Mem x xs
Mem-contains x [] h = cc
Mem-contains x (y ∷ xs) h = elim (Bool-cases (x == y)) [
  | inl same ↦ subst (λ z. Mem x (z ∷ xs)) ((eq_iff x y).0 same) mem-cons_self
  | inr other ↦ mem-cons_of_mem y (Mem-contains x xs (ground (arith, h, other)))
]

pub distinct-Nodup : (xs : List String) → are_distinct xs ≡ true → Nodup xs
distinct-Nodup [] h = Pairwise.nil
distinct-Nodup (x ∷ xs) h =
    Nodup-cons.1 (
      (λ m. absurd (ground (arith, h, contains-Mem x xs m))),
      distinct-Nodup xs (ground (arith, h)),
    )
