-- ===== src/Events/Sessions/Cards.antt =====
-- events/sessions.py: the cards that `group_sessions` makes of episodes, of loose visits and of
-- cleanings that no visit claimed. The mutable cards that the code shares between its list and its
-- index by episode are named here by their place in the list.
use mathlib.Core.Option
use containers_nix.Prelude.{
  ℕ, String, str_eq, Bool, true, false, not, ◌&&◌, ◌||◌, Option, none, some, List, [], ◌∷◌, ◌++◌,
  map, select, ◌==◌, if◌then◌else◌, length,
}
use containers_nix.Prelude.Dict.{Dict, lookup, insert}
use containers_nix.Events.Codes.{is_detail_event, anchor_codes, primary_done_codes, has_type}
use containers_nix.Events.Codes.Base.{
  kind_toilet, kind_cleaning, kind_pet, kind_motion, kind_error, kind_feeding, kind_drinking,
}
use containers_nix.Events.Sessions.Rows.{
  Event, Session, truthy, has_kind, session_from_visit, attach, by_time,
}

abbrev pub Groups : Type 0
Groups = Dict (List Event)

pub record Grouping : Type 0 where
  pub sessions : List Session
  pub by_episode : Dict ℕ
  pub used : List ℕ

-- `id in used_ids`
unfoldable pub is_used : ℕ → List ℕ → Bool
is_used id [] = false
is_used id (u ∷ used) = u == id || is_used id used

-- The test of `_anchor_events`.
unfoldable pub is_anchor_event : Event → Bool
unfolding has_kind is_detail_event
is_anchor_event e =
    has_kind kind_toilet e.event_kind
    || has_kind kind_feeding e.event_kind
    || has_kind kind_drinking e.event_kind
    || ((has_kind kind_pet e.event_kind
          || has_kind kind_motion e.event_kind
          || has_kind kind_error e.event_kind)
        && not (is_detail_event e.event_type e.device_type))

-- `groups.setdefault(rel, []).append(e)`
unfoldable pub add_to : String → Event → Groups → Groups
add_to rel e [] = (rel, e ∷ []) ∷ []
add_to rel e ((k, group) ∷ groups) =
    if str_eq k rel then (k, group ++ e ∷ []) ∷ groups else (k, group) ∷ add_to rel e groups

unfoldable pub groups_from : Groups → List Event → Groups
unfolding add_to truthy
groups_from groups [] = groups
groups_from groups (e ∷ es) = elim (truthy e.related_event) [
  | none ↦ groups_from groups es
  | some rel ↦ groups_from (add_to rel e groups) es
]

-- The visits of `_episodes_of` that carry no episode id.
unfoldable pub is_loose : Event → Bool
unfolding truthy has_kind
is_loose e = elim (truthy e.related_event) [
  | none ↦ has_kind kind_toilet e.event_kind
  | some _ ↦ false
]

-- The first row that passes a test, and the others in their order.
unfoldable pub pick : (Event → Bool) → List Event → Option (Event × List Event)
pick p [] = none
pick p (e ∷ es) = elim (p e) [
  | true ↦ some (e, es)
  | false ↦ Option.map (λ r. (r.0, e ∷ r.1)) (pick p es)
]

unfoldable pub split_last : Event → List Event → Event × List Event
split_last e [] = (e, [])
split_last e (f ∷ es) = let r = split_last f es in (r.0, e ∷ r.1)

unfoldable pub find_row : (Event → Bool) → List Event → Option Event
find_row p [] = none
find_row p (e ∷ es) = elim (p e) [ true ↦ some e | false ↦ find_row p es ]

unfoldable pub any_row : (Event → Bool) → List Event → Bool
any_row p [] = false
any_row p (e ∷ es) = p e || any_row p es

-- The row that heads an episode's card, and the episode's other rows.
unfoldable pub head_of : Event → List Event → Event × List Event
unfolding pick split_last
head_of e es = elim (pick (λ x. has_type anchor_codes x.event_type) (e ∷ es)) [
  | some r ↦ r
  | none ↦ split_last e es
]

abbrev kind_or_pet : Option String → String
kind_or_pet none = kind_pet
kind_or_pet (some k) = if str_eq k "" then kind_pet else k

abbrev pub plain_card : String → Session → Session
plain_card kind s = record s {
  kind = kind;
  event_kind = some kind;
  duration_sec = none;
  weight = none;
}

unfoldable pub episode_card : Event → List Event → Session
unfolding any_row find_row session_from_visit has_kind
episode_card anchor group =
    let card =
      session_from_visit anchor (find_row (λ e. has_kind "pet_in" e.event_type) group)
        anchor.media in
    if any_row (λ e. has_kind kind_toilet e.event_kind) group
    then card
    else plain_card (kind_or_pet anchor.event_kind) card

unfoldable pub attach_all : List Event → Session → Session
unfolding attach
attach_all [] s = s
attach_all (e ∷ es) s = attach_all es (attach s e)

abbrev pub ids : List Event → List ℕ
ids = map (λ e. e.id)

abbrev pub push_card : String → Session → List ℕ → Grouping → Grouping
push_card rel card used g = record {
  sessions = g.sessions ++ card ∷ [];
  by_episode = insert rel (length g.sessions) g.by_episode;
  used = used ++ g.used;
}

-- One turn of the loop of `_cards_from_episodes`, over a sorted group; a group is never empty.
unfoldable pub add_card : String → List Event → Grouping → Grouping
unfolding head_of episode_card attach_all insert
add_card rel [] g = g
add_card rel (e ∷ es) g =
    let (anchor, others) = head_of e es in
    push_card rel (attach_all others (episode_card anchor (e ∷ es))) (anchor.id ∷ ids others) g

unfoldable pub cards_from_episodes : Groups → Grouping → Grouping
unfolding add_card by_time
cards_from_episodes [] g = g
cards_from_episodes ((rel, group) ∷ groups) g =
    cards_from_episodes groups (add_card rel (by_time group) g)

unfoldable pub cards_from_loose_visits : List Event → Grouping → Grouping
unfolding session_from_visit
cards_from_loose_visits [] g = g
cards_from_loose_visits (e ∷ es) g = cards_from_loose_visits es (record g {
  sessions = g.sessions ++ session_from_visit e none e.media ∷ [];
  used = e.id ∷ g.used;
})

-- One group of `_cards_from_orphan_cleanings`, sorted.
unfoldable pub add_orphan_card : String → List Event → Grouping → Grouping
unfolding pick session_from_visit attach_all lookup insert
add_orphan_card rel group g = elim (pick (λ x. has_type primary_done_codes x.event_type) group) [
  | none ↦ g
  | some (anchor, others) ↦ record {
    sessions =
        g.sessions
        ++ attach_all others
            (plain_card kind_cleaning (session_from_visit anchor none anchor.media))
          ∷ [];
    by_episode = elim (lookup rel g.by_episode) [
      | none ↦ insert rel (length g.sessions) g.by_episode
      | some _ ↦ g.by_episode
    ];
    used = (anchor.id ∷ ids others) ++ g.used;
  }
]

unfoldable pub orphan_cards : Groups → Grouping → Grouping
unfolding add_orphan_card by_time
orphan_cards [] g = g
orphan_cards ((rel, group) ∷ groups) g = orphan_cards groups (add_orphan_card rel (by_time group) g)

unfoldable pub is_orphan : List ℕ → Event → Bool
unfolding is_used has_kind
is_orphan used e = not (is_used e.id used) && has_kind kind_cleaning e.event_kind

unfoldable pub cards_from_orphan_cleanings : List Event → Grouping → Grouping
unfolding orphan_cards groups_from is_orphan
cards_from_orphan_cleanings events g =
    orphan_cards (groups_from [] (select (is_orphan g.used) events)) g
