-- ===== src/Retention/Swept.antt =====
-- What holds of a category's rows once `sweep_category` has run.
use containers_nix.Prelude.{
  ℕ, ◌≤◌, ◌≡◌, String, Bool, false, Option, none, some, List, [], ◌∷◌, sum_by, All, arith,
  if◌then◌else◌,
}
use containers_nix.Prelude.Int.{ℤ, pos, negsuc}
use containers_nix.Retention.{
  Media, Disk, Summary, RetentionConfig, max_bytes, max_age_sec, over_age, media_for_retention,
  delete_media_files, media_key, finish_category, sweep_category,
}
use containers_nix.Retention.Budget.{Within, select_expired-split}
use containers_nix.Retention.Category.{sum_by-left, sum_by-zero, zero-All}

-- The bytes of the ready rows of a category.
abbrev pub stored_bytes : String → List Media → ℕ
stored_bytes category table = sum_by (λ m. (media_key m).0) (media_for_retention category table)

-- No ready row of a category is over its age cap.
abbrev pub AllFresh : RetentionConfig → String → ℕ → List Media → Type 0
AllFresh cfg category now table =
    All (λ (m : Media). over_age (max_age_sec cfg category) now (media_key m).1 ≡ false)
      (media_for_retention category table)

Within-le : (cap : Option ℤ) (n m : ℕ) → n ≤ m → Within cap m → Within cap n
Within-le none n m h w = tt
Within-le (some (pos k)) n m h w = omega arith
Within-le (some (negsuc k)) n m h w = omega arith

module _ (age : Option ℤ) (now : ℕ) where
  abbrev one_if_old : Media → ℕ
  one_if_old m = if over_age age now (media_key m).1 then 1 else 0

  fresh-zero :
      (ms : List Media)
      → All (λ (m : Media). over_age age now (media_key m).1 ≡ false) ms
      → All (λ (m : Media). one_if_old m ≡ 0) ms
  fresh-zero [] h = tt
  fresh-zero (m ∷ ms) h = (ground (arith, h.0), fresh-zero ms h.1)

  zero-fresh :
      (ms : List Media)
      → All (λ (m : Media). one_if_old m ≡ 0) ms
      → All (λ (m : Media). over_age age now (media_key m).1 ≡ false) ms
  zero-fresh [] h = tt
  zero-fresh (m ∷ ms) h = (ground (arith, h.0), zero-fresh ms h.1)

module _ (locked : String → Bool) (cfg : RetentionConfig) (category : String) (now : ℕ)
    (table : List Media) (disk : Disk) where
  -- The sweep of a category never raises, and when it has run, whatever files it could not unlink, the
  -- ready rows of the category that the table still holds fit the size cap together, and none of them
  -- is over the age cap.
  pub sweep_category-Within :
      (table' : List Media) × (disk' : Disk) × (summary : Summary) × (sweep_category locked cfg
          category now
          (table, disk)
        ≡ some ((table', disk'), summary))
      × Within (max_bytes cfg category) (stored_bytes category table')
      × AllFresh cfg category now table'
  unfolding sweep_category delete_media_files
  sweep_category-Within =
      let age = max_age_sec cfg category in
      let media = media_for_retention category table in
      let (expired, staying, freed, run, all, counted, fresh, within) =
        select_expired-split (max_bytes cfg category) age now media_key media in
      let (state, summary) = finish_category locked (table, disk) (expired, freed) in
      (
        state.0,
        state.1,
        summary,
        rw (run, sweep_category),
        Within-le (max_bytes cfg category) _ _
            (sum_by-left category (λ m. (media_key m).0) table expired staying all) within,
        zero-fresh age now _ (
            zero-All (one_if_old age now) _ (
              omega (
                arith,
                sum_by-left category (one_if_old age now) table expired staying all,
                sum_by-zero (one_if_old age now) staying (fresh-zero age now staying fresh),
              ))),
      )
