-- ===== src/Retention.antt =====
-- addon/petkit_local/media/retention.py: the caps, the choice of what must go, and the sweeps over
-- the media table and over a directory. Instants are milliseconds; sizes are bytes.
pub mod Select
pub mod Budget
pub mod Category
pub mod Swept
pub mod Directory
mod Tests
use containers_nix.Prelude.{
  ℕ, zero, suc, ◌+◌, ◌-◌, ◌*◌, ◌/◌, ◌≡◌, String, str_eq, Bool, true, false, ◌&&◌, ◌||◌, not, Option,
  none, some, List, [], ◌∷◌, ◌++◌, map, reverse, ltb, leb, ◌==◌, if◌then◌else◌, length, sum_by,
  select, arith,
}
use containers_nix.Prelude.Int.{ℤ, pos, negsuc, neg}
use containers_nix.Prelude.Sorting.{sort}

-- A cap as the panel stores it: a number, here a count of thousandths, or none.
pub record Caps : Type 0 where
  pub max_mb : Option ℤ
  pub max_days : Option ℤ

pub record RetentionConfig : Type 0 where
  pub entries : List (String × Caps)

abbrev no_caps : Caps
no_caps = record { max_mb = none; max_days = none }

-- `self.data.get(category, {})`
unfoldable pub caps_of : String → List (String × Caps) → Caps
caps_of category [] = no_caps
caps_of category ((k, c) ∷ rest) = if str_eq k category then c else caps_of category rest

-- `int(x * scale) if x else None`, truncated towards zero
unfoldable pub scaled : ℕ → Option ℤ → Option ℤ
scaled scale none = none
scaled scale (some (pos zero)) = none
scaled scale (some (pos (suc n))) = some (pos (suc n * scale / 1000))
scaled scale (some (negsuc n)) = some (neg (suc n * scale / 1000))

unfoldable pub max_bytes : RetentionConfig → String → Option ℤ
unfolding caps_of scaled
max_bytes cfg category = scaled (1024 * 1024) (caps_of category cfg.entries).max_mb

unfoldable pub max_age_sec : RetentionConfig → String → Option ℤ
unfolding caps_of scaled
max_age_sec cfg category = scaled 86400 (caps_of category cfg.entries).max_days

-- `max_bytes is not None and total > max_bytes`
unfoldable pub over_size : Option ℤ → ℕ → Bool
over_size none total = false
over_size (some (pos m)) total = ltb m total
over_size (some (negsuc n)) total = true

-- `max_age is not None and created is not None and (now - created) > max_age`
unfoldable pub over_age : Option ℤ → ℕ → Option ℕ → Bool
over_age none now created = false
over_age (some age) now none = false
over_age (some (pos s)) now (some created) = ltb (created + s * 1000) now
over_age (some (negsuc n)) now (some created) = ltb created (now + suc n * 1000)

module _ {ℓ} {A : Type ℓ} (max_bytes max_age : Option ℤ) (now : ℕ) where
  -- The loop of `_select_expired`, oldest first. `none` is the `ValueError` of the strict `zip`.
  unfoldable pub select_loop : ℕ → List (ℕ × Option ℕ) → List A → List A → ℕ → Option (List A × ℕ)
  unfolding over_size over_age
  select_loop total [] [] expired freed = some (expired, freed)
  select_loop total ((size, created) ∷ keys) (item ∷ items) expired freed =
      elim (over_size max_bytes total || over_age max_age now created) [
        | true ↦ select_loop (total - size) keys items (expired ++ item ∷ []) (freed + size)
        | false ↦ select_loop total keys items expired freed
      ]
  select_loop total _ _ expired freed = none

  unfoldable pub select_expired : List (ℕ × Option ℕ) → List A → Option (List A × ℕ)
  unfolding select_loop
  select_expired sizes_and_times items =
      select_loop (sum_by (λ k. k.0) sizes_and_times) (reverse sizes_and_times) (reverse items) [] 0

-- One row of the media table, with the columns that the sweep reads.
pub record Media : Type 0 where
  pub id : ℕ
  pub category : String
  pub status : String
  pub media_path : Option String
  pub size_bytes : Option ℕ
  pub created_at : Option ℕ

-- The paths that exist.
abbrev pub Disk : Type 0
Disk = List String

unfoldable pub newer : Option ℕ → Option ℕ → Bool
newer _ none = true
newer none (some b) = false
newer (some a) (some b) = leb b a

-- `EventStore.media_for_retention`: newest first, a row without a time last
unfoldable pub media_for_retention : String → List Media → List Media
unfolding sort newer
media_for_retention category rows =
    sort (λ a b. newer a.created_at b.created_at)
      (select (λ m. str_eq m.category category && str_eq m.status "ready") rows)

-- `EventStore.delete_media`
unfoldable pub delete_media : ℕ → List Media → List Media
delete_media id rows = select (λ m. not (m.id == id)) rows

-- `os.remove`, which fails on the paths that `locked` holds; the failure is logged and passed over.
unfoldable pub unlink_all : (String → Bool) → List String → Disk → Disk
unlink_all locked [] disk = disk
unlink_all locked (path ∷ paths) disk =
    unlink_all locked paths (if locked path then disk else select (λ p. not (str_eq p path)) disk)

-- `r["media_path"] for r in rows if r.get("media_path")`
unfoldable pub paths_of : List Media → List String
paths_of [] = []
paths_of (r ∷ rows) = elim r.media_path [
  | none ↦ paths_of rows
  | some path ↦ if str_eq path "" then paths_of rows else path ∷ paths_of rows
]

unfoldable pub delete_rows : List Media → List Media → List Media
unfolding delete_media
delete_rows [] table = table
delete_rows (r ∷ expired) table = delete_rows expired (delete_media r.id table)

unfoldable pub delete_media_files :
    (String → Bool) → List Media → List Media × Disk → List Media × Disk
unfolding unlink_all paths_of delete_rows
delete_media_files locked rows (table, disk) =
    (delete_rows rows table, unlink_all locked (paths_of rows) disk)

-- `(m.get("size_bytes") or 0, m.get("created_at"))`
unfoldable pub media_key : Media → ℕ × Option ℕ
media_key m = (elim m.size_bytes [ none ↦ 0 | some n ↦ n ], m.created_at)

pub record Summary : Type 0 where
  pub deleted : ℕ
  pub freed_bytes : ℕ

abbrev pub finish_category :
    (String → Bool) → List Media × Disk → List Media × ℕ → (List Media × Disk) × Summary
finish_category locked state (expired, freed) = (
  delete_media_files locked expired state,
  record { deleted = length expired; freed_bytes = freed },
)

unfoldable pub sweep_category :
    (String → Bool)
    → RetentionConfig
    → String
    → ℕ
    → List Media × Disk
    → Option ((List Media × Disk) × Summary)
unfolding max_bytes max_age_sec select_expired media_for_retention media_key delete_media_files
sweep_category locked cfg category now (table, disk) =
    let media = media_for_retention category table in
    elim (select_expired (max_bytes cfg category) (max_age_sec cfg category) now
      (map media_key media) media) [
        | none ↦ none
        | some r ↦ some (finish_category locked (table, disk) r)
      ]
