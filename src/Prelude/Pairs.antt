-- ===== src/Prelude/Pairs.antt =====
-- Predicates on the elements of a list and on their pairs: all elements, all pairs, some element.
use mathlib.Core.Path.{◌≡◌, subst}
use mathlib.Core.Bool.{Bool, true, false}
use mathlib.Core.Option.{some}
use mathlib.Core.Logic.{◌⊎◌, inl, inr}
use mathlib.Core.List.{List, [], ◌∷◌, ◌++◌, map}
use Prim.Native.Nat.{ℕ, zero, suc}
use native.Mathlib.Omega.{arith}
use gooberberg_terminal.Prelude.Tests.{if◌then◌else◌, Bool-cases}
use gooberberg_terminal.Prelude.Lists.{filter, get_elem?, All, All-append, All-filter}

module _ {A : Type 0} where
  -- Every earlier element is related to every later one.
  abbrev pub AllPairs : (A → A → Type 0) → List A → Type 0
  AllPairs R [] = Unit
  AllPairs R (x ∷ xs) = All (R x) xs × AllPairs R xs

  pub All-map :
      (P : A → Type 0) (f : A → A) (xs : List A)
      → ((x : A) → P x → P (f x))
      → All P xs
      → All P (map f xs)
  All-map P f [] k h = tt
  All-map P f (x ∷ xs) k h = (k x h.0, All-map P f xs k h.1)

  pub AllPairs-map :
      (R : A → A → Type 0) (f : A → A) (xs : List A)
      → ((x y : A) → R x y → R (f x) (f y))
      → AllPairs R xs
      → AllPairs R (map f xs)
  AllPairs-map R f [] k h = tt
  AllPairs-map R f (x ∷ xs) k h = (go xs h.0, AllPairs-map R f xs k h.1)
    where
      go : (ys : List A) → All (R x) ys → All (R (f x)) (map f ys)
      go [] g = tt
      go (y ∷ ys) g = (k x y g.0, go ys g.1)

  pub AllPairs-filter :
      (R : A → A → Type 0) (test : A → Bool) (xs : List A)
      → AllPairs R xs
      → AllPairs R (filter test xs)
  AllPairs-filter R test [] h = tt
  AllPairs-filter R test (x ∷ xs) h = elim (Bool-cases (test x)) [
    | inl keeps ↦ rw (keeps) (All-filter (R x) test xs h.0, AllPairs-filter R test xs h.1)
    | inr drops ↦ rw (drops) (AllPairs-filter R test xs h.1)
  ]

  pub AllPairs-append :
      (R : A → A → Type 0) (xs : List A) (y : A)
      → AllPairs R xs
      → All (λ x. R x y) xs
      → AllPairs R (xs ++ y ∷ [])
  AllPairs-append R [] y h g = (tt, tt)
  AllPairs-append R (x ∷ xs) y h g =
      (All-append (R x) xs (y ∷ []) h.0 (g.0, tt), AllPairs-append R xs y h.1 g.1)

  pub All-get :
      (P : A → Type 0) (xs : List A) (i : ℕ) (x : A) → All P xs → get_elem? xs i ≡ some x → P x
  All-get P [] i x h e = cc
  All-get P (y ∷ xs) zero x h e = subst P (ground (arith, e)) h.0
  All-get P (y ∷ xs) (suc i) x h e = All-get P xs i x h.1 e

  pub filter-passes : (test : A → Bool) (xs : List A) → All (λ x. test x ≡ true) (filter test xs)
  filter-passes test [] = tt
  filter-passes test (x ∷ xs) = elim (Bool-cases (test x)) [
    | inl keeps ↦ rw (keeps) (keeps, filter-passes test xs)
    | inr drops ↦ rw (drops) (filter-passes test xs)
  ]

  pub filter-empty :
      (test : A → Bool) (xs : List A) → filter test xs ≡ [] → All (λ x. test x ≡ false) xs
  filter-empty test [] e = tt
  filter-empty test (x ∷ xs) e = elim (Bool-cases (test x)) [
    | inl keeps ↦ absurd (ground (arith, keeps, e))
    | inr drops ↦ (drops, filter-empty test xs (ground (arith, drops, e)))
  ]

  pub All-both :
      (P Q R : A → Type 0) (xs : List (A))
      → ((x : A) → P x → Q x → R x)
      → All P xs
      → All Q xs
      → All R xs
  All-both P Q R [] f h g = tt
  All-both P Q R (x ∷ xs) f h g = (f x h.0 g.0, All-both P Q R xs f h.1 g.1)

module _ {A : Type 0} where
  abbrev pub Any : (A → Type 0) → List A → Type 0
  Any P [] = ⊥
  Any P (x ∷ xs) = P x ⊎ Any P xs

  pub Any-get :
      (P : A → Type 0) (xs : List A) (i : ℕ) (x : A) → get_elem? xs i ≡ some x → P x → Any P xs
  Any-get P [] i x e h = cc
  Any-get P (y ∷ xs) zero x e h = inl (subst P (ground (arith, e)) h)
  Any-get P (y ∷ xs) (suc i) x e h = inr (Any-get P xs i x e h)

  pub Any-map :
      (P Q : A → Type 0) (f : A → A) (xs : List A)
      → ((x : A) → P x → Q (f x))
      → Any P xs
      → Any Q (map f xs)
  Any-map P Q f [] k h = elim h [ ]
  Any-map P Q f (x ∷ xs) k (inl h) = inl (k x h)
  Any-map P Q f (x ∷ xs) k (inr h) = inr (Any-map P Q f xs k h)

  pub Any-last : (P : A → Type 0) (xs : List A) (y : A) → P y → Any P (xs ++ y ∷ [])
  Any-last P [] y h = inl h
  Any-last P (x ∷ xs) y h = inr (Any-last P xs y h)

  kept_lem :
      (P : A → Type 0) (keeps : Bool) (x : A) (ys xs : List A)
      → (Any P ys → Any P xs)
      → Any P (if keeps then x ∷ ys else ys)
      → Any P (x ∷ xs)
  kept_lem P true x ys xs k (inl h) = inl h
  kept_lem P true x ys xs k (inr h) = inr (k h)
  kept_lem P false x ys xs k h = inr (k h)

  pub Any-of-filter :
      (P : A → Type 0) (test : A → Bool) (xs : List A) → Any P (filter test xs) → Any P xs
  Any-of-filter P test [] h = h
  Any-of-filter P test (x ∷ xs) h =
      kept_lem P (test x) x (filter test xs) xs (Any-of-filter P test xs) h

  pub Any-filter :
      (P : A → Type 0) (test : A → Bool) (xs : List A)
      → ((x : A) → P x → test x ≡ true)
      → Any P xs
      → Any P (filter test xs)
  Any-filter P test [] k h = elim h [ ]
  Any-filter P test (x ∷ xs) k (inl h) = rw (k x h) (inl h)
  Any-filter P test (x ∷ xs) k (inr h) = elim (Bool-cases (test x)) [
    | inl keeps ↦ rw (keeps) (inr (Any-filter P test xs k h))
    | inr drops ↦ rw (drops) (Any-filter P test xs k h)
  ]
