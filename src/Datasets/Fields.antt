-- ===== src/Datasets/Fields.antt =====
-- Sets of names, for apps/api-control-plane/app/domain/model_configs/compatibility.py and
-- apps/api-control-plane/app/domain/training_runs/dataset_qualification.py.
use gooberberg_terminal.Prelude.{
  String, true, not, List, [], ◌∷◌, ◌++◌, ◌≡◌, ◌↔◌, refl, sym, string_eq, ◌==◌, contains, filter,
  All, arith, inl, inr, Bool-cases, subst,
}
use gooberberg_terminal.Prelude.Sorting.{sort_by, insert_sorted, text_le}
use gooberberg_terminal.Datasets.Metadata.{add_new, add_all}
use gooberberg_terminal.Datasets.Qualification.{fields_left}

-- Every name is one of the available ones.
abbrev pub AreAvailable : List String → List String → Type 0
AreAvailable available names = All (λ name. contains name available ≡ true) names

pub filter-AreAvailable :
    (available names : List String)
    → (filter (λ name. not (contains name available)) names ≡ []) ↔ AreAvailable available names
filter-AreAvailable available [] = (λ e. tt, λ h. refl)
filter-AreAvailable available (name ∷ names) = ground (arith, filter-AreAvailable available names)

insert_sorted-nonempty : (x : String) (xs : List String) → insert_sorted text_le x xs ≡ [] → ⊥
unfolding insert_sorted
insert_sorted-nonempty x [] e = cc
insert_sorted-nonempty x (y ∷ ys) e = ground (arith, e)

sort_by-empty : (xs : List String) → (sort_by text_le xs ≡ []) ↔ (xs ≡ [])
unfolding sort_by
sort_by-empty [] = (λ e. refl, λ e. refl)
sort_by-empty (x ∷ xs) = (λ e. absurd (insert_sorted-nonempty x (sort_by text_le xs) e), λ e. cc)

pub contains-AreAvailable :
    (available : List String) (x : String) (xs : List String)
    → contains x xs ≡ true
    → AreAvailable available xs
    → contains x available ≡ true
contains-AreAvailable available x [] e h = cc
contains-AreAvailable available x (y ∷ ys) e h = elim (Bool-cases (x == y)) [
  | inl same ↦ subst (λ z. contains z available ≡ true) (sym ((string_eq.beq_iff x y).0 same)) h.0
  | inr other ↦ contains-AreAvailable available x ys (ground (arith, e, other)) h.1
]

append-AreAvailable :
    (available : List String) (x : String) (xs : List String)
    → AreAvailable available (xs ++ (x ∷ []))
      ↔ (AreAvailable available xs × (contains x available ≡ true))
append-AreAvailable available x [] = ground arith
append-AreAvailable available x (y ∷ ys) = ground (arith, append-AreAvailable available x ys)

add_new-AreAvailable :
    (available : List String) (x : String) (xs : List String)
    → AreAvailable available (add_new x xs)
      ↔ (AreAvailable available xs × (contains x available ≡ true))
add_new-AreAvailable available x xs = elim (Bool-cases (contains x xs)) [
  | inl listed ↦ rw (listed) (λ h. (h, contains-AreAvailable available x xs listed h), λ h. h.0)
  | inr new ↦ rw (new) (append-AreAvailable available x xs)
]

add_all-AreAvailable :
    (available ys xs : List String)
    → AreAvailable available (add_all ys xs)
      ↔ (AreAvailable available xs × AreAvailable available ys)
add_all-AreAvailable available [] xs = (λ h. (h, tt), λ h. h.0)
add_all-AreAvailable available (y ∷ ys) xs =
    ground
      (arith, add_all-AreAvailable available ys (add_new y xs), add_new-AreAvailable available y xs)

-- No field is left where those of the model and those of the task are available.
pub fields_left-AreAvailable :
    (required task_fields available : List String)
    → (fields_left required task_fields available ≡ [])
      ↔ (AreAvailable available required × AreAvailable available task_fields)
unfolding fields_left
fields_left-AreAvailable required task_fields available =
    let names = add_all task_fields (add_all required []) in
    let sorted = sort_by-empty (filter (λ name. not (contains name available)) names) in
    let kept = filter-AreAvailable available names in
    let both = add_all-AreAvailable available task_fields (add_all required []) in
    let own = add_all-AreAvailable available required [] in
    (
      λ e. let h = both.0 (kept.0 (sorted.0 e)) in ((own.0 h.0).1, h.1),
      λ h. sorted.1 (kept.1 (both.1 (own.1 (tt, h.0), h.1))),
    )
