-- ===== src/Prelude/Sorting.antt =====
-- Python's `sorted`: the stable order by a Boolean "not after".
use Prim.Native.String.{String, compare}
use Prim.Native.Nat.{ℕ, zero, suc, ◌<◌, Ordering}
use mathlib.Core.Path.{◌≡◌, subst}
use mathlib.Core.Logic.{inl, inr}
use mathlib.Core.Bool.{Bool, true, false}
use mathlib.Core.List.{List, [], ◌∷◌, Perm}
use mathlib.Core.List.Perm
use mathlib.Core.Option.{some}
use native.Mathlib.Omega.{arith}
use gooberberg_terminal.Prelude.Raising.{some_inj}
use gooberberg_terminal.Prelude.Tests.{if◌then◌else◌, Bool-cases}
use gooberberg_terminal.Prelude.Lists.{All, take, drop, get_elem?, All-take}

-- `a <= b` of texts
abbrev pub text_le : String → String → Bool
text_le a b = elim (compare a b) [ Ordering.gt ↦ false | _ ↦ true ]

module _ {A : Type 0} (le : A → A → Bool) where
  unfoldable pub insert_sorted : A → List A → List A
  insert_sorted a [] = a ∷ []
  insert_sorted a (b ∷ ys) =
      let rest = insert_sorted a ys in if le a b then a ∷ b ∷ ys else b ∷ rest

  -- An element goes before the later ones that compare equal.
  unfoldable pub sort_by : List A → List A
  unfolding insert_sorted
  sort_by [] = []
  sort_by (a ∷ xs) = insert_sorted a (sort_by xs)

  -- Every element is not after any later one.
  abbrev pub IsSorted : List A → Type 0
  IsSorted [] = Unit
  IsSorted (a ∷ xs) = All (λ b. le a b ≡ true) xs × IsSorted xs

  pub All-insert_sorted :
      (P : A → Type 0) (a : A) (xs : List A) → P a → All P xs → All P (insert_sorted a xs)
  unfolding insert_sorted
  All-insert_sorted P a [] h hs = (h, tt)
  All-insert_sorted P a (b ∷ ys) h hs = elim (Bool-cases (le a b)) [
    | inl before ↦ rw (before) (h, hs)
    | inr after ↦ rw (after) (hs.0, All-insert_sorted P a ys h hs.1)
  ]

  pub All-sort_by : (P : A → Type 0) (xs : List A) → All P xs → All P (sort_by xs)
  unfolding sort_by
  All-sort_by P [] h = tt
  All-sort_by P (a ∷ xs) h = All-insert_sorted P a (sort_by xs) h.0 (All-sort_by P xs h.1)

  pub insert_sorted-Perm : (a : A) (xs : List A) → Perm (insert_sorted a xs) (a ∷ xs)
  unfolding insert_sorted
  insert_sorted-Perm a [] = Perm.refl (a ∷ [])
  insert_sorted-Perm a (b ∷ ys) = elim (Bool-cases (le a b)) [
    | inl before ↦ rw (before) (Perm.refl (a ∷ b ∷ ys))
    | inr after ↦ rw (after) (Perm.trans (Perm.cons b (insert_sorted-Perm a ys)) (Perm.swap a b ys))
  ]

  -- A sorted list is a rearrangement of the list.
  pub sort_by-Perm : (xs : List A) → Perm (sort_by xs) xs
  unfolding sort_by
  sort_by-Perm [] = Perm.refl []
  sort_by-Perm (a ∷ xs) =
      Perm.trans (insert_sorted-Perm a (sort_by xs)) (Perm.cons a (sort_by-Perm xs))

module _ {A : Type 0} (le : A → A → Bool) (total : (a b : A) → le a b ≡ false → le b a ≡ true)
    (trans : (a b c : A) → le a b ≡ true → le b c ≡ true → le a c ≡ true) where
  All-le :
      (a b : A) (ys : List A)
      → le a b ≡ true
      → All (λ c. le b c ≡ true) ys
      → All (λ c. le a c ≡ true) ys
  All-le a b [] h hs = tt
  All-le a b (c ∷ cs) h hs = (trans a b c h hs.0, All-le a b cs h hs.1)

  insert_sorted-IsSorted :
      (a : A) (xs : List A) → IsSorted le xs → IsSorted le (insert_sorted le a xs)
  unfolding insert_sorted
  insert_sorted-IsSorted a [] h = (tt, tt)
  insert_sorted-IsSorted a (b ∷ ys) h = elim (Bool-cases (le a b)) [
    | inl before ↦ rw (before) ((before, All-le a b ys before h.0), h)
    | inr after ↦ rw (after) (
      All-insert_sorted le (λ c. le b c ≡ true) a ys (total a b after) h.0,
      insert_sorted-IsSorted a ys h.1,
    )
  ]

  pub sort_by-IsSorted : (xs : List A) → IsSorted le (sort_by le xs)
  unfolding sort_by
  sort_by-IsSorted [] = tt
  sort_by-IsSorted (a ∷ xs) = insert_sorted-IsSorted a (sort_by le xs) (sort_by-IsSorted xs)

module _ {A : Type 0} (le : A → A → Bool) where
  pub IsSorted-drop : (n : ℕ) (xs : List A) → IsSorted le xs → IsSorted le (drop n xs)
  IsSorted-drop zero xs h = h
  IsSorted-drop (suc n) [] h = tt
  IsSorted-drop (suc n) (x ∷ xs) h = IsSorted-drop n xs h.1

  pub IsSorted-take : (n : ℕ) (xs : List A) → IsSorted le xs → IsSorted le (take n xs)
  IsSorted-take zero xs h = tt
  IsSorted-take (suc n) [] h = tt
  IsSorted-take (suc n) (x ∷ xs) h =
      (All-take (λ b. le x b ≡ true) n xs h.0, IsSorted-take n xs h.1)

  All-get :
      (P : A → Type 0) (xs : List A) (i : ℕ) (y : A) → All P xs → get_elem? xs i ≡ some y → P y
  All-get P [] i y h e = cc
  All-get P (x ∷ xs) zero y h e = subst P (some_inj e) h.0
  All-get P (x ∷ xs) (suc i) y h e = All-get P xs i y h.1 e

  -- An earlier element is not after a later one.
  pub IsSorted-get :
      (xs : List A) (i j : ℕ) (x y : A)
      → IsSorted le xs
      → i < j
      → get_elem? xs i ≡ some x
      → get_elem? xs j ≡ some y
      → le x y ≡ true
  IsSorted-get [] i j x y h lt ei ej = cc
  IsSorted-get (z ∷ xs) i zero x y h lt ei ej = absurd (omega arith)
  IsSorted-get (z ∷ xs) zero (suc j) x y h lt ei ej =
      subst (λ a. le a y ≡ true) (some_inj ei) (All-get (λ b. le z b ≡ true) xs j y h.0 ej)
  IsSorted-get (z ∷ xs) (suc i) (suc j) x y h lt ei ej =
      IsSorted-get xs i j x y h.1 (omega arith) ei ej
