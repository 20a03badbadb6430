-- ===== src/Retention/Category.antt =====
-- After the sweep of a media category its caps hold.
use mathlib.Core.List.{Perm}
use containers_nix.Prelude.{
  ℕ, ◌+◌, ◌≤◌, ◌≡◌, refl, ap, ◌∙◌, inl, inr, String, str_eq, Bool, not, ◌&&◌, List, [], ◌∷◌, ◌++◌,
  sum_by, sum_by-append, select, All, Bool-cases, arith, ◌==◌, if◌then◌else◌,
}
use containers_nix.Prelude.Count.{sum_by-perm}
use containers_nix.Prelude.Sorting.{sort-perm}
use containers_nix.Retention.{Media, media_for_retention, delete_media, delete_rows, newer}

-- The rows of a category that are ready.
abbrev is_ready : String → Media → Bool
is_ready category m = str_eq m.category category && str_eq m.status "ready"

-- What a row adds to a sum over the ready rows of a category.
abbrev ready_weight : String → (Media → ℕ) → Media → ℕ
ready_weight category f m = if is_ready category m then f m else 0

sum_by-select :
    (p : Media → Bool) (f : Media → ℕ) (ms : List Media)
    → sum_by f (select p ms) ≡ sum_by (λ m. if p m then f m else 0) ms
sum_by-select p f [] = refl
sum_by-select p f (m ∷ ms) = elim (Bool-cases (p m)) [
  | inl e ↦ rw (e, select) (ap (λ n. f m + n) (sum_by-select p f ms))
  | inr e ↦ rw (e, select) (omega (arith, sum_by-select p f ms))
]

sum_by-media :
    (category : String) (f : Media → ℕ) (table : List Media)
    → sum_by f (media_for_retention category table) ≡ sum_by (ready_weight category f) table
unfolding media_for_retention
sum_by-media category f table =
    sum_by-perm f _ (select (is_ready category) table)
      (sort-perm (λ a b. newer a.created_at b.created_at) (select (is_ready category) table))
    ∙ sum_by-select (is_ready category) f table

-- What a row adds once the expired rows are deleted.
abbrev kept_weight : List Media → (Media → ℕ) → Media → ℕ
kept_weight [] f m = f m
kept_weight (r ∷ expired) f m = if not (m.id == r.id) then kept_weight expired f m else 0

sum_by-delete_rows :
    (f : Media → ℕ) (expired table : List Media)
    → sum_by f (delete_rows expired table) ≡ sum_by (kept_weight expired f) table
unfolding delete_rows delete_media
sum_by-delete_rows f [] table = refl
sum_by-delete_rows f (r ∷ expired) table =
    sum_by-delete_rows f expired (select (λ m. not (m.id == r.id)) table)
    ∙ sum_by-select (λ m. not (m.id == r.id)) (kept_weight expired f) table

kept_weight-ready :
    (category : String) (f : Media → ℕ) (expired : List Media) (m : Media)
    → kept_weight expired (ready_weight category f) m
      ≡ ready_weight category (kept_weight expired f) m
kept_weight-ready category f [] m = refl
kept_weight-ready category f (r ∷ expired) m = elim (Bool-cases (is_ready category m)) [
  | inl e ↦ rw e (ground (arith, kept_weight-ready category f expired m))
  | inr e ↦ rw e (ground (arith, kept_weight-ready category f expired m))
]

sum_by-ext :
    (f g : Media → ℕ) → ((m : Media) → f m ≡ g m) → (ms : List Media) → sum_by f ms ≡ sum_by g ms
sum_by-ext f g h [] = refl
sum_by-ext f g h (m ∷ ms) = omega (arith, h m, sum_by-ext f g h ms)

sum_by-le :
    (f g : Media → ℕ) → ((m : Media) → f m ≤ g m) → (ms : List Media) → sum_by f ms ≤ sum_by g ms
sum_by-le f g h [] = omega arith
sum_by-le f g h (m ∷ ms) = omega (arith, h m, sum_by-le f g h ms)

pub sum_by-zero :
    (f : Media → ℕ) (ms : List Media) → All (λ (m : Media). f m ≡ 0) ms → sum_by f ms ≡ 0
sum_by-zero f [] h = refl
sum_by-zero f (m ∷ ms) h = omega (arith, h.0, sum_by-zero f ms h.1)

pub zero-All : (f : Media → ℕ) (ms : List Media) → sum_by f ms ≡ 0 → All (λ (m : Media). f m ≡ 0) ms
zero-All f [] h = tt
zero-All f (m ∷ ms) h = (omega arith, zero-All f ms (omega arith))

kept_weight-le : (f : Media → ℕ) (expired : List Media) (m : Media) → kept_weight expired f m ≤ f m
kept_weight-le f [] m = omega arith
kept_weight-le f (r ∷ expired) m = ground (arith, kept_weight-le f expired m)

still_gone :
    (f : Media → ℕ) (r : Media) (expired ms : List Media)
    → All (λ (m : Media). kept_weight expired f m ≡ 0) ms
    → All (λ (m : Media). kept_weight (r ∷ expired) f m ≡ 0) ms
still_gone f r expired [] h = tt
still_gone f r expired (m ∷ ms) h = (ground arith, still_gone f r expired ms h.1)

each_gone :
    (f : Media → ℕ) (expired : List Media)
    → All (λ (m : Media). kept_weight expired f m ≡ 0) expired
each_gone f [] = tt
each_gone f (r ∷ expired) = (ground arith, still_gone f r expired expired (each_gone f expired))

-- Of the rows of a category, those that stay bound any sum over what a sweep leaves.
pub sum_by-left :
    (category : String) (f : Media → ℕ) (table expired staying : List Media)
    → Perm (expired ++ staying) (media_for_retention category table)
    → sum_by f (media_for_retention category (delete_rows expired table)) ≤ sum_by f staying
sum_by-left category f table expired staying p =
    let after = sum_by-media category f (delete_rows expired table) in
    let deleted = sum_by-delete_rows (ready_weight category f) expired table in
    let swapped = sum_by-ext _ _ (kept_weight-ready category f expired) table in
    let before = sum_by-media category (kept_weight expired f) table in
    let split = sum_by-perm (kept_weight expired f) _ _ p in
    let parts = sum_by-append (kept_weight expired f) expired staying in
    let gone = sum_by-zero (kept_weight expired f) expired (each_gone f expired) in
    let less = sum_by-le _ _ (kept_weight-le f expired) staying in omega arith
