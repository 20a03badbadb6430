-- ===== src/Retention/Directory/Floor.antt =====
-- The age floor of the directory sweep: no cap deletes a file that may still be in flight.
use containers_nix.Prelude.{
  ℕ, zero, suc, ◌+◌, ◌<◌, ◌≤◌, ◌≡◌, refl, sym, ap, ◌∙◌, ◌⊎◌, inl, inr, String, str_eq, eq_iff, Bool,
  true, false, not, Option, some, List, [], ◌∷◌, map, reverse, length, sum_by, select, get_or, All,
  All-select, get_elem?-All, Bool-cases, All-reverse, arith, if◌then◌else◌,
}
use containers_nix.Prelude.Int.{ℤ}
use containers_nix.Prelude.Sorting.{sort-All}
use containers_nix.Retention.{Disk, Summary, unlink_all}
use containers_nix.Retention.Select.{drops, select_expired-drops, drops-All}
use containers_nix.Retention.Directory.{
  File, newest_first, indices, too_young, doomed_of, finish_sweep, unlink_expired,
  sweep_directory_sync,
}

-- Whether a path exists.
unfoldable pub exists : String → Disk → Bool
exists path [] = false
exists path (p ∷ disk) = if str_eq p path then true else exists path disk

abbrev Other : String → String → Type 0
Other path p = str_eq p path ≡ false

exists-select :
    (path p : String) (disk : Disk)
    → Other path p
    → exists path disk ≡ true
    → exists path (select (λ q. not (str_eq q p)) disk) ≡ true
unfolding exists
exists-select path p [] o h = h
exists-select path p (q ∷ disk) o h =
    ground (arith, exists-select path p disk, eq_iff q p, eq_iff q path, eq_iff p path)

exists-unlink_all :
    (locked : String → Bool) (path : String) (paths : List String) (disk : Disk)
    → All (Other path) paths
    → exists path disk ≡ true
    → exists path (unlink_all locked paths disk) ≡ true
unfolding unlink_all
exists-unlink_all locked path [] disk o h = h
exists-unlink_all locked path (p ∷ paths) disk o h =
    exists-unlink_all locked path paths _ o.1 (ground (arith, exists-select path p disk))

-- Every walked file of that path is younger than the floor.
abbrev pub YoungAt : (path : String) (now min_age : ℕ) → File → Type 0
YoungAt path now min_age f = (str_eq f.path path ≡ false) ⊎ (now < f.mtime + min_age)

too_old_elsewhere :
    (path : String) (min_age now : ℕ) (f : File)
    → 0 < min_age
    → YoungAt path now min_age f
    → too_young min_age now f ≡ false
    → Other path f.path
unfolding too_young
too_old_elsewhere path zero now f p y e = elim p [ ]
too_old_elsewhere path (suc age) now f p (inl o) e = o
too_old_elsewhere path (suc age) now f p (inr lt) e = ground arith

doomed_spares :
    (path : String) (min_age now : ℕ) (entries : List File) (expired : List ℕ)
    → 0 < min_age
    → All (YoungAt path now min_age) entries
    → All (λ i. i < length entries) expired
    → (paths : List String) × (freed : ℕ) × (doomed_of min_age now entries expired
        ≡ some (paths, freed))
      × All (Other path) paths
unfolding doomed_of
doomed_spares path min_age now entries [] p h k = ([], 0, refl, tt)
doomed_spares path min_age now entries (i ∷ expired) p h k =
    let (f, found, young) = get_elem?-All (YoungAt path now min_age) entries i h k.0 in
    let (paths, freed, run, others) = doomed_spares path min_age now entries expired p h k.1 in
    elim (Bool-cases (too_young min_age now f)) [
      | inl e ↦ (paths, freed, rw (found, run, e, doomed_of), others)
      | inr e ↦ (
        f.path ∷ paths,
        f.size + freed,
        rw (found, run, e, doomed_of),
        (too_old_elsewhere path min_age now f p young e, others),
      )
    ]

indices-suc :
    (g : ℕ → ℕ × Option ℕ) (n : ℕ) (entries : List File)
    → map g (indices (suc n) entries) ≡ map (λ i. g (suc i)) (indices n entries)
indices-suc g n [] = refl
indices-suc g n (f ∷ entries) = ap (◌∷◌ (g (suc n))) (indices-suc g (suc n) entries)

indices-below :
    (m n : ℕ) (entries : List File) → n + length entries ≤ m → All (λ i. i < m) (indices n entries)
indices-below m n [] h = tt
indices-below m n (f ∷ entries) h = (omega arith, indices-below m (suc n) entries (omega arith))

abbrev nobody : File
nobody = record { size = 0; mtime = 0; path = "" }

abbrev key_at : List File → ℕ → ℕ × Option ℕ
key_at entries i = let f = get_or entries i nobody in (f.size, some f.mtime)

keys_by_index :
    (entries : List File)
    → map (λ (f : File). (f.size, some f.mtime)) entries ≡ map (key_at entries) (indices 0 entries)
keys_by_index [] = refl
keys_by_index (f ∷ entries) =
    ap (◌∷◌ (f.size, some f.mtime))
      (keys_by_index entries ∙ sym (indices-suc (key_at (f ∷ entries)) 0 entries))

abbrev wanted : Option ℤ → Option ℤ → ℕ → List File → List ℕ
wanted cap_bytes cap_age now entries =
    drops cap_bytes cap_age now (key_at entries)
      (sum_by (λ i. (key_at entries i).0) (indices 0 entries)) (reverse (indices 0 entries))

wanted-below :
    (cap_bytes cap_age : Option ℤ) (now : ℕ) (entries : List File)
    → All (λ i. i < length entries) (wanted cap_bytes cap_age now entries)
wanted-below cap_bytes cap_age now entries =
    drops-All cap_bytes cap_age now (key_at entries) (λ i. i < length entries) _
      (reverse (indices 0 entries))
      (All-reverse _ (indices 0 entries) (indices-below (length entries) 0 entries (omega arith)))

module _ (unreadable locked : String → Bool) (files : List File) (cap_bytes cap_age : Option ℤ)
    (now min_age : ℕ) (disk : Disk) (path : String) where
  abbrev walked : List File
  walked = newest_first unreadable files

  newest_first-All : (P : File → Type 0) → All P files → All P walked
  unfolding newest_first
  newest_first-All P h = sort-All _ P _ (All-select P _ files h)

  sweep_runs :
      (doomed : List String × ℕ)
      → doomed_of min_age now walked (wanted cap_bytes cap_age now walked) ≡ some doomed
      → sweep_directory_sync unreadable locked (some files) cap_bytes cap_age now min_age disk
        ≡ some (finish_sweep locked disk doomed)
  unfolding sweep_directory_sync
  sweep_runs doomed run = rw (
    keys_by_index walked,
    select_expired-drops cap_bytes cap_age now (key_at walked) (indices 0 walked),
    run,
    unlink_expired,
    sweep_directory_sync,
  )

  -- With an age floor, for a path that exists and whose every file that the walk found there is
  -- younger than the floor: whatever the caps and the other files, the directory sweep returns
  -- without raising, and the path still exists after it.
  pub sweep_directory_sync-floor :
      0 < min_age
      → All (YoungAt path now min_age) files
      → exists path disk ≡ true
      → (disk' : Disk) × (summary : Summary) × (sweep_directory_sync unreadable locked
            (some files)
            cap_bytes
            cap_age
            now
            min_age
            disk
          ≡ some (disk', summary))
        × (exists path disk' ≡ true)
  sweep_directory_sync-floor p young here =
      let (paths, freed, run, others) =
        doomed_spares path min_age now walked (wanted cap_bytes cap_age now walked) p
          (newest_first-All _ young) (wanted-below cap_bytes cap_age now walked) in
      (
        unlink_all locked paths disk,
        record { deleted = length paths; freed_bytes = freed },
        sweep_runs (paths, freed) run,
        exists-unlink_all locked path paths disk others here,
      )
