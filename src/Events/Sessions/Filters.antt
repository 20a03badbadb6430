-- ===== src/Events/Sessions/Filters.antt =====
-- `_filter_buckets`, `filter_counts` and `matches_filter` of events/sessions.py: the chips of the
-- Timeline. A `petVoice` beyond the range of a float is not represented.
pub mod Badges
use mathlib.Core.Option
use containers_nix.Prelude.{
  ℕ, zero, suc, String, str_eq, Bool, true, false, ◌||◌, Option, none, some, List, [], ◌∷◌, ◌++◌,
  leb, if◌then◌else◌, length,
}
use containers_nix.Prelude.Int.{ℤ, pos, negsuc}
use containers_nix.Prelude.Dict.{Dict}
use containers_nix.Prelude.Dict.{one_of}
use containers_nix.Events.Codes.Base.{
  kind_toilet, kind_cleaning, kind_pet, kind_motion, kind_error, kind_feeding, kind_drinking,
}
use containers_nix.Events.Sessions.Rows.{Session, Content, number_at, has_kind}

abbrev pub kind_bucket : Option String → List String
kind_bucket kind =
    if has_kind kind_toilet kind
    then "toileting" ∷ []
    else if has_kind kind_pet kind || has_kind kind_motion kind
    then "pet" ∷ []
    else if has_kind kind_error kind
    then "fault" ∷ []
    else if has_kind kind_feeding kind
    then "feeding" ∷ []
    else if has_kind kind_drinking kind
    then "drinking" ∷ []
    else if has_kind kind_cleaning kind
    then "cleaning" ∷ []
    else []

-- Whether an integer that `to_int` makes of a number is not zero.
abbrev is_nonzero : Option ℤ → Bool
is_nonzero none = false
is_nonzero (some (pos n)) = leb 1000 n
is_nonzero (some (negsuc n)) = leb 999 n

unfoldable pub has_voice : Content → Bool
unfolding number_at
has_voice content = is_nonzero (number_at "petVoice" content)

unfoldable pub filter_buckets : Session → List String
unfolding has_kind has_voice
filter_buckets s =
    kind_bucket s.event_kind ++ (if has_voice s.content then "health_alert" ∷ [] else [])

-- `counts[bucket] += 1`; `none` is a `KeyError`.
unfoldable pub bump : String → Dict ℕ → Option (Dict ℕ)
bump bucket [] = none
bump bucket ((k, n) ∷ counts) = elim (str_eq k bucket) [
  | true ↦ some ((k, suc n) ∷ counts)
  | false ↦ Option.map (λ rest. (k, n) ∷ rest) (bump bucket counts)
]

unfoldable pub bump_all : List String → Dict ℕ → Option (Dict ℕ)
unfolding bump
bump_all [] counts = some counts
bump_all (b ∷ buckets) counts = elim (bump b counts) [ none ↦ none | some c ↦ bump_all buckets c ]

unfoldable pub count_sessions : List Session → Dict ℕ → Option (Dict ℕ)
unfolding bump_all filter_buckets
count_sessions [] counts = some counts
count_sessions (s ∷ sessions) counts = elim (bump_all (filter_buckets s) counts) [
  | none ↦ none
  | some c ↦ count_sessions sessions c
]

unfoldable pub filter_counts : List Session → Option (Dict ℕ)
unfolding count_sessions
filter_counts sessions = count_sessions sessions (
    ("all", length sessions)
    ∷ ("pet", 0)
    ∷ ("toileting", 0)
    ∷ ("drinking", 0)
    ∷ ("feeding", 0)
    ∷ ("cleaning", 0)
    ∷ ("health_alert", 0)
    ∷ ("fault", 0)
    ∷ [])

unfoldable pub matches_filter : String → Session → Bool
unfolding filter_buckets one_of
matches_filter filt s =
    if str_eq filt "" || str_eq filt "all" then true else one_of filt (filter_buckets s)
