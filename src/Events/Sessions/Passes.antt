-- ===== src/Events/Sessions/Passes.antt =====
-- events/sessions.py: the passes of `group_sessions` that hang further rows off the cards made so far.

use containers_nix.Prelude.{
  ℕ, suc, ◌-◌, String, str_eq, Bool, not, ◌&&◌, ◌||◌, Option, none, some, List, [], ◌∷◌, leb,
  if◌then◌else◌, get_elem?, set,
}
use containers_nix.Prelude.Dict.{Dict, lookup, insert}
use containers_nix.Events.Codes.Base.{kind_cleaning, kind_pet, kind_motion, kind_error}
use containers_nix.Events.Sessions.Cards.{Grouping, is_used}
use containers_nix.Events.Sessions.Rows.{
  Event, Session, truthy, same_text, same_id, has_kind, attach,
}

abbrev keep_first : String → String → Dict String → Dict String
keep_first rel parent parents = elim (lookup rel parents) [
  | none ↦ insert rel parent parents
  | some _ ↦ parents
]

abbrev add_parent : Option String → Option String → Dict String → Dict String
add_parent (some rel) (some parent) parents =
    if str_eq rel parent then parents else keep_first rel parent parents
add_parent _ _ parents = parents

-- `_episode_parents`
unfoldable pub episode_parents : Dict String → List Event → Dict String
unfolding truthy lookup insert
episode_parents parents [] = parents
episode_parents parents (e ∷ es) =
    episode_parents (add_parent (truthy e.related_event) (truthy e.parent_event) parents) es

-- Hang a row off the card at a place, if there is one of the row's device.
unfoldable pub attach_at : ℕ → Event → Grouping → Grouping
unfolding attach
attach_at i e g = elim (get_elem? g.sessions i) [
  | none ↦ g
  | some s ↦
      if same_id s.device_id e.device_id
      then record g { sessions = set g.sessions i (attach s e); used = e.id ∷ g.used }
      else g
]

unfoldable pub is_attachable : Event → Bool
unfolding has_kind
is_attachable e =
    has_kind kind_cleaning e.event_kind
    || has_kind kind_pet e.event_kind
    || has_kind kind_motion e.event_kind
    || has_kind kind_error e.event_kind

abbrev get_parent : Dict String → Option String → Option String
get_parent parents none = none
get_parent parents (some rel) = lookup rel parents

abbrev or_else : Option String → Option String → Option String
or_else none b = b
or_else (some a) b = some a

-- `parents.get(e.get("related_event")) or e.get("parent_event")`, where it is not empty
unfoldable pub parent_of : Dict String → Event → Option String
unfolding truthy lookup
parent_of parents e = or_else (truthy (get_parent parents e.related_event)) (truthy e.parent_event)

abbrev card_of : Dict ℕ → Option String → Option ℕ
card_of by_episode none = none
card_of by_episode (some parent) = lookup parent by_episode

abbrev pub attach_maybe : Option ℕ → Event → Grouping → Grouping
attach_maybe none e g = g
attach_maybe (some i) e g = attach_at i e g

-- A pass over the rows: each that is not used and passes a test goes to the card that is chosen.
unfoldable pub attach_pass :
    (Event → Bool) → (Grouping → Event → Option ℕ) → List Event → Grouping → Grouping
unfolding attach_at is_used
attach_pass wanted place [] g = g
attach_pass wanted place (e ∷ es) g =
    attach_pass wanted place es
      (if is_used e.id g.used || not (wanted e) then g else attach_maybe (place g e) e g)

unfoldable pub attach_linked_followups : List Event → Dict String → Grouping → Grouping
unfolding attach_pass is_attachable parent_of
attach_linked_followups events parents =
    attach_pass is_attachable (λ g e. card_of g.by_episode (parent_of parents e)) events

abbrev pub nearer : Option ℕ → Option (ℕ × ℕ) → Option (ℕ × ℕ)
nearer none none = none
nearer none (some (i, d)) = some (suc i, d)
nearer (some d) none = some (0, d)
nearer (some d) (some (i, d')) = if leb d d' then some (0, d) else some (suc i, d')

-- `min(candidates, key=…)`: the first of the nearest, as its place and its distance.
unfoldable pub nearest : (Session → Option ℕ) → List Session → Option (ℕ × ℕ)
nearest distance [] = none
nearest distance (s ∷ ss) = nearer (distance s) (nearest distance ss)

abbrev pub after_visit : Option ℕ → Option ℕ → Option ℕ
after_visit (some t) (some t0) = if leb t0 t && leb (t - t0) 600_000 then some (t - t0) else none
after_visit _ _ = none

-- How long after a visit a cleaning step came, if the visit is a candidate.
unfoldable pub visit_distance : Event → Session → Option ℕ
unfolding same_id
visit_distance e s =
    if str_eq s.kind "visit" && same_id s.device_id e.device_id then after_visit e.ts s.ts else none

abbrev pub place_of : Option (ℕ × ℕ) → Option ℕ
place_of none = none
place_of (some (i, d)) = some i

unfoldable pub attach_nearby_cleanings : List Event → Grouping → Grouping
unfolding attach_pass has_kind nearest visit_distance
attach_nearby_cleanings =
    attach_pass (λ e. has_kind kind_cleaning e.event_kind)
      (λ g e. place_of (nearest (visit_distance e) g.sessions))

abbrev apart : ℕ → ℕ → ℕ
apart a b = if leb a b then b - a else a - b

abbrev near_cycle : Option ℕ → Option ℕ → Option ℕ
near_cycle (some t) (some t0) = if leb (apart t t0) 120_000 then some (apart t t0) else none
near_cycle _ _ = none

unfoldable pub cycle_distance : Event → Session → Option ℕ
unfolding same_id same_text
cycle_distance e s =
    if str_eq s.kind kind_cleaning
      && same_id s.device_id e.device_id
      && not (same_text s.related_event e.related_event)
    then near_cycle e.ts s.ts
    else none

unfoldable pub attach_cycle_tails : List Event → Grouping → Grouping
unfolding attach_pass has_kind nearest cycle_distance
attach_cycle_tails =
    attach_pass (λ e. has_kind kind_cleaning e.event_kind)
      (λ g e. place_of (nearest (cycle_distance e) g.sessions))
