-- ===== src/Events/Tests.antt =====
-- The theorems of the Timeline at concrete inputs, and runs of the grouping.
use containers_nix.Prelude.{
  Bool, true, false, ℕ, ◌≡◌, refl, String, Option, none, some, List, [], ◌∷◌, arith,
}
use containers_nix.Prelude.Count.{count}
use containers_nix.Prelude.Dict.{one_of}
use containers_nix.Events.Codes.{anchor_codes, lookup}
use containers_nix.Events.Codes.Base.{EventCode, kind_toilet, kind_cleaning}
use containers_nix.Events.Sessions.Rows.{Session, session_from_visit, Event, has_kind}
use containers_nix.Events.Sessions.Filters.{filter_counts}
use containers_nix.Events.Sessions.Filters.Badges.{shown, filter_counts-matches_filter}
use containers_nix.Events.Sessions.Nearest.{IsOffered, attach_nearby_cleanings-IsOffered}
use containers_nix.Events.Sessions.Cards.{Grouping, is_used}
use containers_nix.Events.Sessions.Passes.{nearest, visit_distance, attach_nearby_cleanings}
use containers_nix.Events.Sessions.Placed.{placed}
use containers_nix.Events.Sessions.Conservation.{Distinct, placed-group_sessions}
use containers_nix.Events.Sessions.{group_sessions}

abbrev row : ℕ → Option String → Option String → ℕ → String → String → Event
row id related parent ts event_type kind = record {
  id = id;
  related_event = related;
  parent_event = parent;
  device_id = some 1;
  device_type = some "t5";
  ts = some ts;
  pet_id = none;
  event_type = some event_type;
  event_kind = some kind;
  content = [];
  state = [];
  media = [];
}

-- A visit, the weight taken during it, and the cleaning that followed.
abbrev one_visit : List Event
one_visit =
    row 1 (some "v") none 10_000 "10" kind_toilet
    ∷ row 2 (some "v") none 9_000 "7" kind_toilet
    ∷ row 3 (some "c") (some "v") 60_000 "5" kind_cleaning
    ∷ []

one_visit-Distinct : Distinct one_visit
one_visit-Distinct x = ground arith

placed-group_sessions_example : count 3 (placed (group_sessions one_visit)) ≡ 1
placed-group_sessions_example = placed-group_sessions one_visit one_visit-Distinct 3

one_card : placed (group_sessions one_visit) ≡ 1 ∷ 2 ∷ 3 ∷ []
unfolding group_sessions one_of anchor_codes
one_card = refl

abbrev is_anchor : Option EventCode → Bool
is_anchor none = false
is_anchor (some c) = c.anchor

-- A finished meal, code 2 of a feeder, is marked as an anchor and is not among the anchor codes.
meal_code : is_anchor (lookup (some "2") (some "d4h")) ≡ true
unfolding lookup
meal_code = refl

meal_anchor : one_of "2" anchor_codes ≡ false
unfolding one_of anchor_codes
meal_anchor = refl

abbrev step : Event
step = row 4 none none 70_000 "17" kind_cleaning

abbrev standing : Session
standing = session_from_visit (row 1 (some "v") none 10_000 "10" kind_toilet) none []

abbrev here : Grouping
here = record { sessions = standing ∷ []; by_episode = []; used = [] }

attach_nearby_cleanings-IsOffered_example :
    (g' : Grouping) × (attach_nearby_cleanings (step ∷ []) here ≡ attach_nearby_cleanings [] g')
    × IsOffered step here g'
unfolding is_used has_kind
attach_nearby_cleanings-IsOffered_example = attach_nearby_cleanings-IsOffered step [] here

-- The step goes to the visit, a minute later.
chosen : nearest (visit_distance step) (standing ∷ []) ≡ some (0, 60_000)
unfolding nearest visit_distance session_from_visit
chosen = refl

filter_counts-matches_filter_example :
    filter_counts (standing ∷ [])
    ≡ some (
        ("all", shown "all" (standing ∷ []))
        ∷ ("pet", shown "pet" (standing ∷ []))
        ∷ ("toileting", shown "toileting" (standing ∷ []))
        ∷ ("drinking", shown "drinking" (standing ∷ []))
        ∷ ("feeding", shown "feeding" (standing ∷ []))
        ∷ ("cleaning", shown "cleaning" (standing ∷ []))
        ∷ ("health_alert", shown "health_alert" (standing ∷ []))
        ∷ ("fault", shown "fault" (standing ∷ []))
        ∷ [])
filter_counts-matches_filter_example = filter_counts-matches_filter (standing ∷ [])
