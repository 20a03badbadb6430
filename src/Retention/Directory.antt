-- ===== src/Retention/Directory.antt =====
-- `_sweep_directory_sync` and `sweep_directory` of media/retention.py: the stores where the file is
-- the record, with the age floor that protects uploads in flight.
pub mod Floor
use containers_nix.Prelude.{
  ℕ, zero, suc, ◌+◌, String, str_eq, Bool, true, false, not, Option, none, some, List, [], ◌∷◌,
  ◌++◌, map, ltb, leb, ◌==◌, if◌then◌else◌, length, select, get_elem?,
}
use containers_nix.Prelude.Sorting.{sort}
use containers_nix.Retention.{
  RetentionConfig, Summary, Disk, max_bytes, max_age_sec, select_expired, unlink_all,
}
use containers_nix.Prelude.Int.{ℤ}

-- What `os.stat` says of a file that the walk met.
pub record File : Type 0 where
  pub size : ℕ
  pub mtime : ℕ
  pub path : String

-- `entries.sort(key=lambda e: e[1] or 0, reverse=True)` over the files that could be read
unfoldable pub newest_first : (String → Bool) → List File → List File
unfolding sort
newest_first unreadable files =
    sort (λ a b. leb b.mtime a.mtime) (select (λ f. not (unreadable f.path)) files)

abbrev indices : ℕ → List File → List ℕ
indices n [] = []
indices n (f ∷ files) = n ∷ indices (suc n) files

-- `keep_after is not None and (mtime or 0) > keep_after`, with `keep_after = now - min_age`
unfoldable pub too_young : ℕ → ℕ → File → Bool
too_young zero now f = false
too_young (suc age) now f = ltb now (f.mtime + suc age)

abbrev doom : Bool → File → List String × ℕ → List String × ℕ
doom young f (paths, freed) = if young then (paths, freed) else (f.path ∷ paths, f.size + freed)

-- The loop over the indices of what the caps want gone: the paths to unlink, and their bytes.
-- `none` is an `IndexError`.
unfoldable pub doomed_of : ℕ → ℕ → List File → List ℕ → Option (List String × ℕ)
unfolding too_young
doomed_of min_age now entries [] = some ([], 0)
doomed_of min_age now entries (i ∷ expired) = elim (get_elem? entries i) [
  | none ↦ none
  | some f ↦ elim (doomed_of min_age now entries expired) [
    | none ↦ none
    | some rest ↦ some (doom (too_young min_age now f) f rest)
  ]
]

abbrev finish_sweep : (String → Bool) → Disk → List String × ℕ → Disk × Summary
finish_sweep locked disk (paths, freed) =
    (unlink_all locked paths disk, record { deleted = length paths; freed_bytes = freed })

abbrev unlink_expired :
    (String → Bool) → ℕ → ℕ → List File → Disk → List ℕ × ℕ → Option (Disk × Summary)
unlink_expired locked min_age now entries disk (expired, _) =
    elim (doomed_of min_age now entries expired) [
      | none ↦ none
      | some doomed ↦ some (finish_sweep locked disk doomed)
    ]

-- `walk` is `none` where `os.walk` raises.
unfoldable pub sweep_directory_sync :
    (unreadable locked : String → Bool)
    → Option (List File)
    → Option ℤ
    → Option ℤ
    → (now min_age : ℕ) → Disk
    → Option (Disk × Summary)
unfolding newest_first doomed_of unlink_all select_expired
sweep_directory_sync unreadable locked none cap_bytes cap_age now min_age disk =
    some (disk, record { deleted = 0; freed_bytes = 0 })
sweep_directory_sync unreadable locked (some files) cap_bytes cap_age now min_age disk =
    let entries = newest_first unreadable files in
    elim (select_expired cap_bytes cap_age now (map (λ f. (f.size, some f.mtime)) entries)
      (indices 0 entries)) [
        | none ↦ none
        | some expired ↦ unlink_expired locked min_age now entries disk expired
      ]

-- `sweep_directory`: `is_dir` is `root and os.path.isdir(root)`
unfoldable pub sweep_directory :
    (unreadable locked : String → Bool) (is_dir : Bool)
    → Option (List File)
    → String
    → RetentionConfig
    → (now min_age : ℕ) → Disk
    → Option (Disk × Summary)
unfolding sweep_directory_sync max_bytes max_age_sec
sweep_directory unreadable locked false walk category cfg now min_age disk =
    some (disk, record { deleted = 0; freed_bytes = 0 })
sweep_directory unreadable locked true walk category cfg now min_age disk =
    sweep_directory_sync unreadable locked walk (max_bytes cfg category) (max_age_sec cfg category)
      now min_age disk
