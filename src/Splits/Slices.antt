-- ===== src/Splits/Slices.antt =====
-- Slices of ordered rows, for services/worker-training/src/worker_training/data/splits.py.
use mathlib.Core.List.{append-nil}
use gooberberg_terminal.Prelude.{
  ◌++◌, take-append-drop, if◌then◌else◌, ℕ, zero, suc, ◌+◌, ◌-◌, ◌≤◌, ◌<◌, some, List, [], ◌∷◌, ◌≡◌,
  ◌∙◌, refl, ap, sym, leb, length, take, drop, get_elem?, head?, length-drop, take-length,
  drop-length, drop-drop, Bool-cases, inl, inr, arith,
}
use gooberberg_terminal.Prelude.Int.{pos}
use gooberberg_terminal.Splits.Rows.{slice, last?}

last_gap : (i j : ℕ) → i < j → i + (j - i - 1) ≡ j - 1
last_gap i j h = omega arith

gap : (i j : ℕ) → i < j → j - i ≡ suc (j - i - 1)
gap i j h = omega arith

module _ {A : Type 0} where
  get_elem?-drop : (i m : ℕ) (xs : List A) → get_elem? (drop i xs) m ≡ get_elem? xs (i + m)
  get_elem?-drop zero m xs = let same : m ≡ zero + m = omega arith in ap (get_elem? xs) same
  get_elem?-drop (suc i) m [] = refl
  get_elem?-drop (suc i) m (x ∷ xs) =
      let same : suc (i + m) ≡ suc i + m = omega arith in
      get_elem?-drop i m xs ∙ ap (get_elem? (x ∷ xs)) same

  head?-drop : (i : ℕ) (xs : List A) → head? (drop i xs) ≡ get_elem? xs i
  head?-drop zero [] = refl
  head?-drop zero (x ∷ xs) = refl
  head?-drop (suc i) [] = refl
  head?-drop (suc i) (x ∷ xs) = head?-drop i xs

  head?-take : (m : ℕ) (xs : List A) → head? (take (suc m) xs) ≡ head? xs
  head?-take m [] = refl
  head?-take m (x ∷ xs) = refl

  last?-take : (m : ℕ) (xs : List A) → suc m ≤ length xs → last? (take (suc m) xs) ≡ get_elem? xs m
  unfolding last?
  last?-take m [] h = absurd (omega arith)
  last?-take zero (x ∷ xs) h = refl
  last?-take (suc m) (x ∷ []) h = absurd (omega arith)
  last?-take (suc m) (x ∷ y ∷ xs) h = last?-take m (y ∷ xs) (omega arith)

  pub get_elem?-some : (i : ℕ) (xs : List A) → i < length xs → (x : A) × (get_elem? xs i ≡ some x)
  get_elem?-some i [] h = absurd (omega arith)
  get_elem?-some zero (x ∷ xs) h = (x, refl)
  get_elem?-some (suc i) (x ∷ xs) h = get_elem?-some i xs (omega arith)

  take-empty : (n : ℕ) (xs : List A) → xs ≡ [] → take n xs ≡ []
  take-empty n xs e = ap (take n) e ∙ take-length [] n (omega arith)

  -- A slice between positions that are not negative is a stretch of the list.
  pub slice-eq-take : (i j : ℕ) (xs : List A) → slice (pos i) (pos j) xs ≡ take (j - i) (drop i xs)
  unfolding slice
  slice-eq-take i j xs = elim (Bool-cases (leb i (length xs))) [
    | inl inside ↦ elim (Bool-cases (leb j (length xs))) [
      | inl short ↦ rw (inside, short) refl
      | inr long ↦
          rw (inside, long)
            (take-length (drop i xs) (length xs - i) (omega (arith, length-drop i xs))
              ∙ sym (take-length (drop i xs) (j - i) (ground (arith, length-drop i xs, long))))
    ]
    | inr outside ↦
        let past : drop i xs ≡ [] = drop-length i xs (ground (arith, outside)) in
        let end : drop (length xs) xs ≡ [] = drop-length (length xs) xs (omega arith) in
        rw (outside)
          (take-empty _ (drop (length xs) xs) end ∙ sym (take-empty (j - i) (drop i xs) past))
  ]

  pub head?-slice :
      (i j : ℕ) (xs : List A)
      → i < j
      → j ≤ length xs
      → head? (slice (pos i) (pos j) xs) ≡ get_elem? xs i
  head?-slice i j xs h k =
      ap head? (slice-eq-take i j xs)
      ∙ ap (λ n. head? (take n (drop i xs))) (gap i j h)
      ∙ head?-take (j - i - 1) (drop i xs)
      ∙ head?-drop i xs

  pub last?-slice :
      (i j : ℕ) (xs : List A)
      → i < j
      → j ≤ length xs
      → last? (slice (pos i) (pos j) xs) ≡ get_elem? xs (j - 1)
  last?-slice i j xs h k =
      ap last? (slice-eq-take i j xs)
      ∙ ap (λ n. last? (take n (drop i xs))) (gap i j h)
      ∙ last?-take (j - i - 1) (drop i xs) (omega (arith, length-drop i xs))
      ∙ get_elem?-drop i (j - i - 1) xs
      ∙ ap (get_elem? xs) (last_gap i j h)

  -- A slice to the end.
  pub slice-rest : (s : ℕ) (xs : List A) → slice (pos s) (pos (length xs)) xs ≡ drop s xs
  slice-rest s xs =
      slice-eq-take s (length xs) xs
      ∙ take-length (drop s xs) (length xs - s) (omega (arith, length-drop s xs))

  -- A slice of some width, with what is behind it.
  pub slice-width :
      (s w : ℕ) (xs : List A)
      → slice (pos s) (pos (if leb (length xs) (s + w) then length xs else s + w)) xs
          ++ drop (s + w) xs
        ≡ drop s xs
  slice-width s w xs = elim (Bool-cases (leb (length xs) (s + w))) [
    | inl short ↦
        let end : drop (s + w) xs ≡ [] = drop-length (s + w) xs (ground (arith, short)) in
        rw (short, end) (append-nil (slice (pos s) (pos (length xs)) xs) ∙ slice-rest s xs)
    | inr long ↦
        let width : s + w - s ≡ w = omega arith in
        rw (long, slice-eq-take s (s + w) xs, width, drop-drop s w xs)
          (take-append-drop w (drop s xs))
  ]
