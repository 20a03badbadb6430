-- ===== src/Events/Sessions/Media.antt =====
-- `_assign_episode_media` of events/sessions.py: each sub-episode's media goes to one of its lines.
use containers_nix.Prelude.{
  ℕ, String, str_eq, Bool, true, false, ◌||◌, Option, none, some, List, [], ◌∷◌, ◌++◌, map, leb,
  ◌==◌, if◌then◌else◌,
}
use containers_nix.Prelude.Dict.{Dict}
use containers_nix.Prelude.Sorting.{sort}
use containers_nix.Events.Codes.{primary_done_codes, has_type}
use containers_nix.Events.Sessions.Rows.{Event, Line, Session, truthy, same_text, or_zero, has_kind}

unfoldable pub add_line : String → Line → Dict (List Line) → Dict (List Line)
add_line rel l [] = (rel, l ∷ []) ∷ []
add_line rel l ((k, lines) ∷ groups) =
    if str_eq k rel then (k, lines ++ l ∷ []) ∷ groups else (k, lines) ∷ add_line rel l groups

-- The lines of a card by episode, but for the card's own.
unfoldable pub line_groups : Option String → Dict (List Line) → List Line → Dict (List Line)
unfolding add_line truthy same_text
line_groups own groups [] = groups
line_groups own groups (l ∷ lines) = elim (truthy l.related_event) [
  | none ↦ line_groups own groups lines
  | some rel ↦
      line_groups own (if same_text (some rel) own then groups else add_line rel l groups) lines
]

unfoldable pub has_media : ℕ → List ℕ → Bool
has_media m [] = false
has_media m (n ∷ ns) = n == m || has_media m ns

-- `if m not in bucket: bucket.append(m)`
unfoldable pub add_media : List ℕ → List ℕ → List ℕ
unfolding has_media
add_media bucket [] = bucket
add_media bucket (m ∷ ms) = add_media (if has_media m bucket then bucket else bucket ++ m ∷ []) ms

unfoldable pub episode_media : String → List ℕ → List Event → List ℕ
unfolding add_media has_kind
episode_media rel bucket [] = bucket
episode_media rel bucket (e ∷ es) =
    episode_media rel (if has_kind rel e.related_event then add_media bucket e.media else bucket) es

abbrev last_id : ℕ → List Line → ℕ
last_id i [] = i
last_id i (l ∷ lines) = last_id l.id lines

-- The line that carries an episode's media: its first primary completion, or its last line.
unfoldable pub carrier : List Line → ℕ → List Line → ℕ
carrier all fallback [] = last_id fallback all
carrier all fallback (l ∷ lines) = elim (has_type primary_done_codes l.event_type) [
  | true ↦ l.id
  | false ↦ carrier all fallback lines
]

abbrev pub give : ℕ → List ℕ → Line → Line
give id media l = if l.id == id then record l { media = media } else l

abbrev pub give_to : List Line → List ℕ → List Line → List Line
give_to subs [] lines = lines
give_to subs (m ∷ ms) lines = map (give (carrier subs 0 subs) (m ∷ ms)) lines

unfoldable pub hand_out : List Event → Dict (List Line) → List Line → List Line
unfolding episode_media carrier
hand_out events [] lines = lines
hand_out events ((rel, subs) ∷ groups) lines =
    hand_out events groups (give_to subs (episode_media rel [] events) lines)

unfoldable pub assign_episode_media : List Event → Session → Session
unfolding line_groups hand_out
assign_episode_media events s = record s {
  sub_events = hand_out events (line_groups s.related_event [] s.sub_events) s.sub_events;
}

-- The lines in time order, then the media.
unfoldable pub finish_card : List Event → Session → Session
unfolding sort assign_episode_media
finish_card events s = assign_episode_media events (record s {
  sub_events = sort (λ (a b : Line). leb (or_zero a.ts) (or_zero b.ts)) s.sub_events;
})
