-- ===== src/Prelude/Count.antt =====
-- How often a number stands in a list, which no rearrangement changes.
use mathlib.Core.Logic.{∥∥₁_elim, inl, inr}
use mathlib.Core.Bool.{Bool, true, false}
use native.Mathlib.Nat.{ℕ_set}
use mathlib.Core.List.{List, [], ◌∷◌, Perm, Permᴰ}
use containers_nix.Prelude.Tests.{◌==◌, if◌then◌else◌, Bool-cases}
use containers_nix.Prelude.Lists.{sum_by, select}
use Prim.Native.Nat.{ℕ, ◌+◌, ◌≤◌}
use mathlib.Core.Path.{◌≡◌, refl, ap, ap₂, ◌∙◌}
use native.Mathlib.Omega.{arith}

module _ {ℓ} {A : Type ℓ} (f : A → ℕ) where
  sum_by-Permᴰ : {xs ys : List A} → Permᴰ xs ys → sum_by f xs ≡ sum_by f ys
  sum_by-Permᴰ Permᴰ.nil = refl
  sum_by-Permᴰ (Permᴰ.cons e p) = ap₂ (◌+◌) (ap f e) (sum_by-Permᴰ p)
  sum_by-Permᴰ (Permᴰ.swap e d) = omega (arith, ap f e, ap f d)
  sum_by-Permᴰ (Permᴰ.trans p q) = sum_by-Permᴰ p ∙ sum_by-Permᴰ q

  pub sum_by-perm : (xs ys : List A) → Perm xs ys → sum_by f xs ≡ sum_by f ys
  sum_by-perm xs ys p = ∥∥₁_elim p (ℕ_set (sum_by f xs) (sum_by f ys)) sum_by-Permᴰ

  pub sum_by-select-le : (p : A → Bool) (xs : List A) → sum_by f (select p xs) ≤ sum_by f xs
  sum_by-select-le p [] = omega arith
  sum_by-select-le p (x ∷ xs) = elim (Bool-cases (p x)) [
    | inl e ↦ rw (e, select) (omega (arith, sum_by-select-le p xs))
    | inr e ↦ rw (e, select) (omega (arith, sum_by-select-le p xs))
  ]

  -- No item passes both of two tests that exclude one another.
  pub sum_by-select_disjoint :
      (p q : A → Bool)
      → ((x : A) → p x ≡ true → q x ≡ false)
      → (xs : List A) → sum_by f (select p xs) + sum_by f (select q xs) ≤ sum_by f xs
  sum_by-select_disjoint p q h [] = omega arith
  sum_by-select_disjoint p q h (x ∷ xs) = elim (Bool-cases (p x)) [
    | inl e ↦ rw (e, h x e, select) (omega (arith, sum_by-select_disjoint p q h xs))
    | inr e ↦ elim (Bool-cases (q x)) [
      | inl d ↦ rw (e, d, select) (omega (arith, sum_by-select_disjoint p q h xs))
      | inr d ↦ rw (e, d, select) (omega (arith, sum_by-select_disjoint p q h xs))
    ]
  ]

abbrev pub one_if : ℕ → ℕ → ℕ
one_if x y = if y == x then 1 else 0

abbrev pub count : ℕ → List ℕ → ℕ
count x = sum_by (one_if x)
