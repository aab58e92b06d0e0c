-- ===== src/Prelude/Dict.antt =====
-- A Python `dict` in insertion order, as an association list without repeated keys.
use gooberberg_terminal.Prelude.Tests.{Eq, ◌==◌, if◌then◌else◌, Bool-cases}
use gooberberg_terminal.Prelude.Raising.{some_inj}
use mathlib.Core.Path.{◌≡◌, refl, subst}
use mathlib.Core.Logic.{◌≢◌, inl, inr}
use mathlib.Core.Bool.{Bool, true, false}
use mathlib.Core.Option.{Option, none, some}
use mathlib.Core.List.{List, [], ◌∷◌}
use native.Mathlib.Omega.{arith}

abbrev pub Dict : Type 0 → Type 0 → Type 0
Dict K V = List (K × V)

module _ {K V : Type 0} ⦃e : Eq K⦄ where
  -- `d.get(k)`
  unfoldable pub lookup : K → Dict K V → Option V
  lookup k [] = none
  lookup k ((j, v) ∷ d) = if j == k then some v else lookup k d

  -- `d[k] = v`
  unfoldable pub insert : K → V → Dict K V → Dict K V
  insert k v [] = (k, v) ∷ []
  insert k v ((j, w) ∷ d) = if j == k then (j, v) ∷ d else (j, w) ∷ insert k v d

  -- `d.pop(k, None)`
  unfoldable pub erase : K → Dict K V → Dict K V
  erase k [] = []
  erase k ((j, w) ∷ d) = let rest = erase k d in if j == k then rest else (j, w) ∷ rest

  -- `k in d`
  unfoldable pub contains_key : K → Dict K V → Bool
  unfolding lookup
  contains_key k d = elim (lookup k d) [ none ↦ false | some _ ↦ true ]

  pub lookup-insert :
      (k j : K) (v : V) (d : Dict K V)
      → lookup j (insert k v d) ≡ (if k == j then some v else lookup j d)
  unfolding lookup insert
  lookup-insert k j v [] = refl
  lookup-insert k j v ((i, w) ∷ d) =
      ground (arith, e.beq_iff k j, e.beq_iff i k, e.beq_iff i j, lookup-insert k j v d)

  pub lookup-erase :
      (k j : K) (d : Dict K V) → lookup j (erase k d) ≡ (if k == j then none else lookup j d)
  unfolding lookup erase
  lookup-erase k j [] = ground arith
  lookup-erase k j ((i, w) ∷ d) =
      ground (arith, e.beq_iff k j, e.beq_iff i k, e.beq_iff i j, lookup-erase k j d)

  pub lookup-insert_self : (k : K) (v : V) (d : Dict K V) → lookup k (insert k v d) ≡ some v
  lookup-insert_self k v d = ground (arith, lookup-insert k k v d, e.beq_iff k k)

  pub lookup-insert_ne :
      (k j : K) (v : V) (d : Dict K V) → k ≢ j → lookup j (insert k v d) ≡ lookup j d
  lookup-insert_ne k j v d h = ground (arith, lookup-insert k j v d, e.beq_iff k j)

  pub contains_key-some :
      (k : K) (d : Dict K V) (v : V) → lookup k d ≡ some v → contains_key k d ≡ true
  unfolding contains_key
  contains_key-some k d v h = rw (h, contains_key) refl

  -- What is true of the new entry and of every old one is true of every entry.
  pub insert_cases :
      (P : K → V → Type 0) (k j : K) (v r : V) (d : Dict K V)
      → P k v
      → (lookup j d ≡ some r → P j r)
      → lookup j (insert k v d) ≡ some r
      → P j r
  insert_cases P k j v r d new old h = elim (Bool-cases (k == j)) [
    | inl same ↦
        let value : v ≡ r = some_inj (ground (arith, lookup-insert k j v d)) in
        subst (P j) value (subst (λ i. P i v) ((e.beq_iff k j).0 same) new)
    | inr other ↦ old (ground (arith, lookup-insert k j v d))
  ]
