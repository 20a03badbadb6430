-- ===== src/Events/Sessions.antt =====
-- addon/petkit_local/events/sessions.py: stored event rows grouped into the Timeline's cards.
pub mod Rows
pub mod Cards
pub mod Passes
pub mod Media
pub mod Placed
pub mod Account
pub mod Finished
pub mod Conservation
pub mod Nearest
pub mod Filters
use containers_nix.Prelude.{
  ℕ, String, str_eq, Bool, true, false, not, ◌&&◌, ◌||◌, Option, none, some, List, [], ◌∷◌, ◌++◌,
  map, select, leb, if◌then◌else◌,
}
use containers_nix.Prelude.Sorting.{sort}
use Rows.{Event, Line, Session, or_zero, standalone}
use Cards.{
  Grouping, groups_from, is_anchor_event, is_loose, is_used, cards_from_episodes,
  cards_from_loose_visits, cards_from_orphan_cleanings,
}
use Passes.{episode_parents, attach_linked_followups, attach_nearby_cleanings, attach_cycle_tails}
use Media.{finish_card}

abbrev pub no_cards : Grouping
no_cards = record { sessions = []; by_episode = []; used = [] }

-- `_episodes_of` and the cards that its two results head
unfoldable pub anchored_cards : List Event → Grouping
unfolding cards_from_episodes cards_from_loose_visits groups_from is_anchor_event is_loose
anchored_cards events =
    let anchors = select is_anchor_event events in
    cards_from_loose_visits (select is_loose anchors)
      (cards_from_episodes (groups_from [] anchors) no_cards)

-- The cards with all their lines attached, before the standalone rows.
unfoldable pub attached_cards : List Event → Grouping
unfolding anchored_cards attach_linked_followups attach_nearby_cleanings cards_from_orphan_cleanings
    attach_cycle_tails episode_parents
attached_cards events = attach_cycle_tails events (
    cards_from_orphan_cleanings events (
      attach_nearby_cleanings events
        (attach_linked_followups events (episode_parents [] events) (anchored_cards events))))

-- The rows of `_standalone_rows`
unfoldable pub standalone_rows : List Event → List ℕ → List Session
unfolding is_used standalone
standalone_rows events used = map standalone (select (λ e. not (is_used e.id used)) events)

unfoldable pub group_sessions : List Event → List Session
unfolding attached_cards standalone_rows finish_card sort
group_sessions events =
    let g = attached_cards events in
    sort (λ a b. leb (or_zero b.ts) (or_zero a.ts))
      (map (finish_card events) g.sessions ++ standalone_rows events g.used)
