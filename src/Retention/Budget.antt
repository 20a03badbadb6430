-- ===== src/Retention/Budget.antt =====
-- The size cap: what stays fits it, and no more goes than it asks for.
use mathlib.Core.List.{Perm, reverse_perm}
use mathlib.Core.List.Perm
use mathlib.Core.Option.{some-injective}
use containers_nix.Prelude.{
  ℕ, ◌+◌, ◌-◌, ◌≤◌, ◌<◌, ◌≡◌, refl, sym, ap, ap₂, ◌∙◌, ◌⊎◌, inl, inr, false, Option, none, some,
  List, [], ◌∷◌, ◌++◌, map, reverse, length, sum_by, sum_by-reverse, All, Bool-cases, ltb, arith,
}
use containers_nix.Prelude.Int.{ℤ, pos, negsuc}
use containers_nix.Retention.{over_size, over_age, select_expired}
use containers_nix.Retention.Select.{drops, keeps, select_expired-drops, drops-perm, keeps-fresh}

-- What stays fits a cap in bytes; a negative cap lets nothing stay.
abbrev pub Within : Option ℤ → ℕ → Type 0
Within none total = Unit
Within (some (pos m)) total = total ≤ m
Within (some (negsuc n)) total = total ≡ 0

module _ {ℓ} {A : Type ℓ} (max_age : Option ℤ) (now : ℕ) (key : A → ℕ × Option ℕ) where
  abbrev total_of : List A → ℕ
  total_of = sum_by (λ x. (key x).0)

  -- `k` is the size of what was kept so far.
  keeps_fit :
      (m k total : ℕ) (xs : List A)
      → total ≡ k + total_of xs
      → (k ≡ 0) ⊎ (total ≤ m)
      → k + total_of (keeps (some (pos m)) max_age now key total xs) ≤ m
  unfolding keeps over_size
  keeps_fit m k total [] e h = ground arith
  keeps_fit m k total (x ∷ xs) e h =
      ground (arith, keeps_fit m k (total - (key x).0) xs, keeps_fit m (k + (key x).0) total xs)

  keeps_none : (n total : ℕ) (xs : List A) → keeps (some (negsuc n)) max_age now key total xs ≡ []
  unfolding keeps over_size
  keeps_none n total [] = refl
  keeps_none n total (x ∷ xs) = keeps_none n (total - (key x).0) xs

  keeps-Within :
      (cap : Option ℤ) (xs : List A)
      → Within cap (total_of (keeps cap max_age now key (total_of xs) xs))
  keeps-Within none xs = tt
  keeps-Within (some (pos m)) xs =
      omega (arith, keeps_fit m 0 (total_of xs) xs (omega arith) (inl refl))
  keeps-Within (some (negsuc n)) xs = ap total_of (keeps_none n (total_of xs) xs)

module _ {ℓ} {A : Type ℓ} (now : ℕ) (key : A → ℕ × Option ℕ) where
  abbrev size_sum : List A → ℕ
  size_sum = sum_by (λ x. (key x).0)

  drops-none :
      (m total : ℕ) (xs : List A) → total ≤ m → drops (some (pos m)) none now key total xs ≡ []
  unfolding drops over_size over_age
  drops-none m total [] h = refl
  drops-none m total (x ∷ xs) h = ground (arith, drops-none m total xs)

  keeps_rest :
      (m total : ℕ) (xs : List A) → total ≤ m → keeps (some (pos m)) none now key total xs ≡ xs
  unfolding keeps over_size over_age
  keeps_rest m total [] h = refl
  keeps_rest m total (x ∷ xs) h = ground (arith, keeps_rest m total xs)

  -- With no age cap the oldest go, as one block.
  drops-prefix :
      (m total : ℕ) (xs : List A)
      → drops (some (pos m)) none now key total xs ++ keeps (some (pos m)) none now key total xs
        ≡ xs
  unfolding drops keeps over_size over_age
  drops-prefix m total [] = refl
  drops-prefix m total (x ∷ xs) = elim (Bool-cases (ltb m total)) [
    | inl e ↦ rw (e, drops, keeps) (ap (◌∷◌ x) (drops-prefix m (total - (key x).0) xs))
    | inr e ↦
        let fits : total ≤ m = ground arith in
        rw (e, drops, keeps, drops-none m total xs fits, keeps_rest m total xs fits)
  ]

  -- What was dropped last was still too much.
  drops_needed :
      (m : ℕ) (older newer : List A)
      → length older
        < length (drops (some (pos m)) none now key (size_sum (older ++ newer)) (older ++ newer))
      → m < size_sum newer
  unfolding drops over_size over_age
  drops_needed m [] [] h = omega arith
  drops_needed m [] (x ∷ xs) h = ground (arith, drops-none m (size_sum (x ∷ xs)) xs)
  drops_needed m (y ∷ ys) newer h =
      ground
        (arith, drops_needed m ys newer, drops-none m (size_sum ((y ∷ ys) ++ newer)) (ys ++ newer))

module _ {ℓ} {A : Type ℓ} (cap max_age : Option ℤ) (now : ℕ) (key : A → ℕ × Option ℕ)
    (items : List A) where
  abbrev gone : List A
  gone = drops cap max_age now key (sum_by (λ x. (key x).0) items) (reverse items)

  abbrev kept : List A
  kept = keeps cap max_age now key (sum_by (λ x. (key x).0) items) (reverse items)

  -- `_select_expired`, on any list paired with its own sizes and times, never raises. It splits the
  -- items into those to delete and those that stay, counts as freed exactly the bytes of the deleted
  -- ones, lets nothing over the age cap stay, and what stays fits the size cap.
  pub select_expired-split :
      (expired staying : List A) × (freed : ℕ) × (select_expired cap max_age now
          (map key items)
          items
        ≡ some (expired, freed))
      × Perm (expired ++ staying) items
      × (freed ≡ sum_by (λ x. (key x).0) expired)
      × All (λ x. over_age max_age now (key x).1 ≡ false) staying
      × Within cap (sum_by (λ x. (key x).0) staying)
  select_expired-split = (
    gone,
    kept,
    sum_by (λ x. (key x).0) gone,
    select_expired-drops cap max_age now key items,
    Perm.trans (drops-perm cap max_age now key _ (reverse items)) (reverse_perm items),
    refl,
    keeps-fresh cap max_age now key _ (reverse items),
    rw (← sum_by-reverse (λ x. (key x).0) items) (keeps-Within max_age now key cap (reverse items)),
  )

module _ {ℓ} {A : Type ℓ} (now m : ℕ) (key : A → ℕ × Option ℕ) (items older newer expired : List A)
    {freed : ℕ} where
  gone-eq :
      reverse items ≡ older ++ newer
      → select_expired (some (pos m)) none now (map key items) items ≡ some (expired, freed)
      → expired
        ≡ drops (some (pos m)) none now key (size_sum now key (older ++ newer)) (older ++ newer)
  gone-eq split run =
      ap (λ r. r.0)
        (some-injective _ _ (sym run ∙ select_expired-drops (some (pos m)) none now key items))
      ∙ ap₂ (drops (some (pos m)) none now key)
          (sym (sum_by-reverse (λ x. (key x).0) items) ∙ ap (size_sum now key) split) split

  -- With a size cap of `m` bytes and no age cap, the deleted items are the oldest ones, as one block,
  -- and the block is as short as it can be: had it stopped earlier, leaving `newer`, the cap would
  -- still be exceeded.
  pub select_expired-shortest :
      reverse items ≡ older ++ newer
      → select_expired (some (pos m)) none now (map key items) items ≡ some (expired, freed)
      → length older < length expired
      → ((staying : List A) × (reverse items ≡ expired ++ staying))
        × (m < sum_by (λ x. (key x).0) newer)
  select_expired-shortest split run shorter =
      let e = gone-eq split run in
      (
        (
          keeps (some (pos m)) none now key (size_sum now key (older ++ newer)) (older ++ newer),
          rw (split, e) (sym (drops-prefix now key m _ (older ++ newer))),
        ),
        drops_needed now key m older newer (rw e at shorter),
      )
