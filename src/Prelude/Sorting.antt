-- ===== src/Prelude/Sorting.antt =====
-- `list.sort(key=…)`, and the same with `reverse=True`: stable, by insertion.
use mathlib.Core.Bool.{Bool, true, false}
use mathlib.Core.List.{List, [], ◌∷◌, Perm}
use mathlib.Core.List.Perm
use mathlib.Core.Logic.{inl, inr}
use containers_nix.Prelude.Tests.{Bool-cases}
use containers_nix.Prelude.Lists.{All}

module _ {ℓ} {A : Type ℓ} (before : A → A → Bool) where
  -- `before x y`: `x` may stand in front of `y`.
  insert : A → List A → List A
  insert x [] = x ∷ []
  insert x (y ∷ ys) = elim (before x y) [ true ↦ x ∷ y ∷ ys | false ↦ y ∷ insert x ys ]

  unfoldable pub sort : List A → List A
  unfolding insert
  sort [] = []
  sort (x ∷ xs) = insert x (sort xs)

  insert-perm : (x : A) (xs : List A) → Perm (insert x xs) (x ∷ xs)
  unfolding insert
  insert-perm x [] = Perm.refl (x ∷ [])
  insert-perm x (y ∷ ys) = elim (Bool-cases (before x y)) [
    | inl e ↦ rw (e, insert) (Perm.refl _)
    | inr e ↦ rw (e, insert) (Perm.trans (Perm.cons y (insert-perm x ys)) (Perm.swap x y ys))
  ]

  -- Sorting keeps every element, as often.
  pub sort-perm : (xs : List A) → Perm (sort xs) xs
  unfolding sort
  sort-perm [] = Perm.refl []
  sort-perm (x ∷ xs) = Perm.trans (insert-perm x (sort xs)) (Perm.cons x (sort-perm xs))

  module _ {κ} (P : A → Type κ) where
    insert-All : (x : A) (xs : List A) → P x → All P xs → All P (insert x xs)
    unfolding insert
    insert-All x [] p h = (p, h)
    insert-All x (y ∷ ys) p h = elim (Bool-cases (before x y)) [
      | inl e ↦ rw (e, insert) (p, h)
      | inr e ↦ rw (e, insert) (h.0, insert-All x ys p h.1)
    ]

    -- What holds of every element holds of every element in the sorted list.
    pub sort-All : (xs : List A) → All P xs → All P (sort xs)
    unfolding sort
    sort-All [] h = tt
    sort-All (x ∷ xs) h = insert-All x (sort xs) h.0 (sort-All xs h.1)
