-- ===== src/Retention/Tests.antt =====
-- The theorems of the retention sweeps at concrete inputs, and runs of the sweeps.
use mathlib.Core.List.{Perm}
use containers_nix.Prelude.{
  String, ℕ, ◌≡◌, refl, ◌<◌, inl, inr, true, false, Option, none, some, List, [], ◌∷◌, ◌++◌, map,
  reverse, sum_by, All, arith,
}
use containers_nix.Prelude.Int.{pos}
use containers_nix.Retention.Swept.{stored_bytes, AllFresh, sweep_category-Within}
use containers_nix.Retention.{
  Media, RetentionConfig, max_bytes, sweep_category, Disk, Summary, over_age, select_expired,
}
use containers_nix.Retention.Budget.{Within, select_expired-split, select_expired-shortest}
use containers_nix.Retention.Directory.{File, sweep_directory_sync}
use containers_nix.Retention.Directory.Floor.{exists, sweep_directory_sync-floor}

abbrev sized : ℕ → ℕ × Option ℕ
sized n = (n, some 0)

select_expired-split_example :
    (expired staying : List ℕ) × (freed : ℕ) × (select_expired
        (some (pos 10))
        none
        0
        (map sized (4 ∷ 5 ∷ 6 ∷ []))
        (4 ∷ 5 ∷ 6 ∷ [])
      ≡ some (expired, freed))
    × Perm (expired ++ staying) (4 ∷ 5 ∷ 6 ∷ [])
    × (freed ≡ sum_by (λ x. (sized x).0) expired)
    × All (λ x. over_age none 0 (sized x).1 ≡ false) staying
    × Within (some (pos 10)) (sum_by (λ x. (sized x).0) staying)
select_expired-split_example = select_expired-split (some (pos 10)) none 0 sized (4 ∷ 5 ∷ 6 ∷ [])

select_expired-shortest_example :
    ((staying : List ℕ) × (reverse (4 ∷ 5 ∷ 6 ∷ []) ≡ (6 ∷ []) ++ staying))
    × (10 < sum_by (λ x. (sized x).0) (6 ∷ 5 ∷ 4 ∷ []))
unfolding select_expired
select_expired-shortest_example =
    select_expired-shortest 0 10 sized (4 ∷ 5 ∷ 6 ∷ []) [] (6 ∷ 5 ∷ 4 ∷ []) (6 ∷ []) {freed = 6}
      refl refl (omega arith)

abbrev walked_files : List File
walked_files =
    record { size = 900; mtime = 9_000; path = "raw/a" }
    ∷ record { size = 900; mtime = 10; path = "raw/b" }
    ∷ []

sweep_directory_sync-floor_example :
    (disk : Disk) × (summary : Summary) × (sweep_directory_sync
        (λ _. false)
        (λ _. false)
        (some walked_files)
        (some (pos 1))
        none
        10_000
        3_600
        ("raw/a" ∷ "raw/b" ∷ [])
      ≡ some (disk, summary))
    × (exists "raw/a" disk ≡ true)
unfolding exists
sweep_directory_sync-floor_example =
    sweep_directory_sync-floor (λ _. false) (λ _. false) walked_files (some (pos 1)) none 10_000
      3_600 ("raw/a" ∷ "raw/b" ∷ []) "raw/a" (omega arith) (inr (omega arith), (inl refl, tt)) refl

abbrev clip : ℕ → String → ℕ → ℕ → Media
clip id path size created = record {
  id = id;
  category = "fullVideo";
  status = "ready";
  media_path = some path;
  size_bytes = some size;
  created_at = some created;
}

-- A cap of a thousandth of a megabyte, 1048 bytes.
abbrev small_cap : RetentionConfig
small_cap = record {
  entries = ("fullVideo", record { max_mb = some (pos 1); max_days = none }) ∷ [];
}

sweep_category-Within_example :
    (table : List Media) × (disk : Disk) × (summary : Summary) × (sweep_category
        (λ _. false)
        small_cap
        "fullVideo"
        9
        (clip 1 "a.mp4" 900 1 ∷ clip 2 "b.mp4" 900 2 ∷ [], "a.mp4" ∷ "b.mp4" ∷ [])
      ≡ some ((table, disk), summary))
    × Within (max_bytes small_cap "fullVideo") (stored_bytes "fullVideo" table)
    × AllFresh small_cap "fullVideo" 9 table
sweep_category-Within_example =
    sweep_category-Within (λ _. false) small_cap "fullVideo" 9
      (clip 1 "a.mp4" 900 1 ∷ clip 2 "b.mp4" 900 2 ∷ []) ("a.mp4" ∷ "b.mp4" ∷ [])

-- The older clip goes.
swept :
    sweep_category
      (λ _. false)
      small_cap
      "fullVideo"
      9
      (clip 1 "a.mp4" 900 1 ∷ clip 2 "b.mp4" 900 2 ∷ [], "a.mp4" ∷ "b.mp4" ∷ [])
    ≡ some ((clip 2 "b.mp4" 900 2 ∷ [], "b.mp4" ∷ []), record { deleted = 1; freed_bytes = 900 })
unfolding sweep_category
swept = refl
