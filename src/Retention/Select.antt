-- ===== src/Retention/Select.antt =====
-- `_select_expired` against a plain description: walking from the oldest item, what is dropped and
-- what stays.
use mathlib.Core.List.{Perm, append_assoc, append-nil, perm_middle}
use mathlib.Core.List.Perm
use native.Mathlib.Nat.{zero-add}
use containers_nix.Prelude.{
  ℕ, ◌+◌, ◌-◌, ◌≡◌, refl, sym, ap₂, ◌∙◌, inl, inr, Bool, true, false, ◌||◌, Option, some, List, [],
  ◌∷◌, ◌++◌, map, reverse, sum_by, sum_by-map, map-reverse, All, Bool-cases, arith,
}
use containers_nix.Prelude.Int.{ℤ}
use containers_nix.Retention.{over_size, over_age, select_loop, select_expired}

module _ {ℓ} {A : Type ℓ} (max_bytes max_age : Option ℤ) (now : ℕ) (key : A → ℕ × Option ℕ) where
  abbrev pub size_of : A → ℕ
  size_of x = (key x).0

  abbrev pub is_old : A → Bool
  is_old x = over_age max_age now (key x).1

  -- Oldest first: what goes, when the items left and those newer add up to `total`.
  unfoldable pub drops : ℕ → List A → List A
  drops total [] = []
  drops total (x ∷ xs) = elim (over_size max_bytes total || is_old x) [
    | true ↦ x ∷ drops (total - size_of x) xs
    | false ↦ drops total xs
  ]

  unfoldable pub keeps : ℕ → List A → List A
  keeps total [] = []
  keeps total (x ∷ xs) = elim (over_size max_bytes total || is_old x) [
    | true ↦ keeps (total - size_of x) xs
    | false ↦ x ∷ keeps total xs
  ]

  select_loop-drops :
      (total : ℕ) (xs expired : List A) (freed : ℕ)
      → select_loop max_bytes max_age now total (map key xs) xs expired freed
        ≡ some (expired ++ drops total xs, freed + sum_by size_of (drops total xs))
  unfolding select_loop drops
  select_loop-drops total [] expired freed =
      ap₂ (λ a b. some (a, b)) (sym (append-nil expired)) (omega arith)
  select_loop-drops total (x ∷ xs) expired freed =
      elim (Bool-cases (over_size max_bytes total || is_old x)) [
        | inl e ↦
            rw (e, select_loop, drops)
              (select_loop-drops (total - size_of x) xs (expired ++ x ∷ []) (freed + size_of x)
                ∙ ap₂ (λ a b. some (a, b)) (append_assoc expired (x ∷ []) _) (omega arith))
        | inr e ↦ rw (e, select_loop, drops) (select_loop-drops total xs expired freed)
      ]

  -- The loop never meets lists of different lengths, and returns what `drops` describes.
  pub select_expired-drops :
      (items : List A)
      → select_expired max_bytes max_age now (map key items) items
        ≡ some (
          drops (sum_by size_of items) (reverse items),
          sum_by size_of (drops (sum_by size_of items) (reverse items)),
        )
  unfolding select_expired
  select_expired-drops items =
      rw (← map-reverse key items, sum_by-map key (λ k. k.0) items)
        (select_loop-drops (sum_by size_of items) (reverse items) [] 0
          ∙ ap₂ (λ a b. some (a, b)) refl (zero-add _))

  pub drops-perm : (total : ℕ) (xs : List A) → Perm (drops total xs ++ keeps total xs) xs
  unfolding drops keeps
  drops-perm total [] = Perm.refl []
  drops-perm total (x ∷ xs) = elim (Bool-cases (over_size max_bytes total || is_old x)) [
    | inl e ↦ rw (e, drops, keeps) (Perm.cons x (drops-perm (total - size_of x) xs))
    | inr e ↦
        rw (e, drops, keeps)
          (Perm.trans (perm_middle (drops total xs) (keeps total xs))
            (Perm.cons x (drops-perm total xs)))
  ]

  pub keeps-fresh : (total : ℕ) (xs : List A) → All (λ x. is_old x ≡ false) (keeps total xs)
  unfolding keeps
  keeps-fresh total [] = tt
  keeps-fresh total (x ∷ xs) = elim (Bool-cases (over_size max_bytes total || is_old x)) [
    | inl e ↦ rw (e, keeps) (keeps-fresh (total - size_of x) xs)
    | inr e ↦ rw (e, keeps) (ground arith, keeps-fresh total xs)
  ]

  pub drops-All {κ} : (P : A → Type κ) (total : ℕ) (xs : List A) → All P xs → All P (drops total xs)
  unfolding drops
  drops-All P total [] h = tt
  drops-All P total (x ∷ xs) h = elim (Bool-cases (over_size max_bytes total || is_old x)) [
    | inl e ↦ rw (e, drops) (h.0, drops-All P (total - size_of x) xs h.1)
    | inr e ↦ rw (e, drops) (drops-All P total xs h.1)
  ]
