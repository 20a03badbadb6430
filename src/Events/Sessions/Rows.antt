-- ===== src/Events/Sessions/Rows.antt =====
-- events/sessions.py: the rows, the cards, and what a card takes from the row that heads it. Times
-- are milliseconds, and so are the numbers of a row's decoded `content`: thousandths, where `to_float`
-- finds a number. Rows are told apart by their `id`, the primary key.
use containers_nix.Prelude.{
  ℕ, suc, ◌+◌, ◌-◌, String, str_eq, Bool, true, false, Option, none, some, List, [], ◌∷◌, ◌++◌, leb,
  ◌==◌, if◌then◌else◌,
}
use containers_nix.Prelude.Int.{ℤ, pos, negsuc}
use containers_nix.Prelude.Dict.{Dict, lookup}
use containers_nix.Prelude.Sorting.{sort}
use containers_nix.Events.Codes.{is_detail_event}
use containers_nix.Events.Codes.Base.{kind_toilet}

-- A key that is present, with the number that `to_float` finds there.
abbrev pub Content : Type 0
Content = Dict (Option ℤ)

pub record Event : Type 0 where
  pub id : ℕ
  pub related_event : Option String
  pub parent_event : Option String
  pub device_id : Option ℕ
  pub device_type : Option String
  pub ts : Option ℕ
  pub pet_id : Option ℕ
  pub event_type : Option String
  pub event_kind : Option String
  pub content : Content
  pub state : Content
  pub media : List ℕ

-- A sub-event line of a card.
pub record Line : Type 0 where
  pub id : ℕ
  pub event_type : Option String
  pub ts : Option ℕ
  pub related_event : Option String
  pub detail : Bool
  pub content : Content
  pub state : Content
  pub media : List ℕ

pub record Session : Type 0 where
  pub kind : String
  pub id : ℕ
  pub related_event : Option String
  pub device_id : Option ℕ
  pub device_type : Option String
  pub ts : Option ℕ
  pub display_ts : Option ℕ
  pub pet_id : Option ℕ
  pub event_type : Option String
  pub event_kind : Option String
  pub duration_sec : Option ℕ
  pub weight : Option ℤ
  pub content : Content
  pub state : Content
  pub sub_events : List Line
  pub media : List ℕ

-- A text that is present and not empty.
unfoldable pub truthy : Option String → Option String
truthy none = none
truthy (some s) = if str_eq s "" then none else some s

abbrev pub or_zero : Option ℕ → ℕ
or_zero none = 0
or_zero (some n) = n

-- A number that is present and not zero.
abbrev pub nonzero : Option ℕ → Option ℕ
nonzero (some (suc n)) = some (suc n)
nonzero _ = none

unfoldable pub same_text : Option String → Option String → Bool
same_text none none = true
same_text (some a) (some b) = str_eq a b
same_text _ _ = false

unfoldable pub same_id : Option ℕ → Option ℕ → Bool
same_id none none = true
same_id (some a) (some b) = a == b
same_id _ _ = false

unfoldable pub has_kind : String → Option String → Bool
has_kind kind none = false
has_kind kind (some k) = str_eq k kind

-- `to_float(content.get(key), None)`
unfoldable pub number_at : String → Content → Option ℤ
unfolding lookup
number_at key content = elim (lookup key content) [ none ↦ none | some v ↦ v ]

-- `_weight_of`
unfoldable pub weight_of : Event → Option ℤ
unfolding number_at
weight_of e = elim (lookup "pet_weight" e.content) [
  | some v ↦ v
  | none ↦ number_at "petWeight" e.content
]

-- `max(0.0, a - b)`
unfoldable pub span : ℤ → ℤ → ℕ
span (pos a) (pos b) = a - b
span (pos a) (negsuc b) = a + suc b
span (negsuc a) (pos b) = 0
span (negsuc a) (negsuc b) = b - a

-- The `pet_in` row of an episode, unless it is the anchor itself.
abbrev other_row : Event → Option Event → Option Event
other_row anchor none = none
other_row anchor (some p) = if p.id == anchor.id then none else some p

abbrev paired : Option ℕ → Option ℕ → Option ℕ
paired (some a) (some b) = some (a - b)
paired _ _ = none

abbrev fallback_duration : Event → Option Event → Option ℕ
fallback_duration anchor pet_in = elim (other_row anchor pet_in) [
  | none ↦ none
  | some p ↦ paired (nonzero anchor.ts) (nonzero p.ts)
]

-- `_duration_of`
unfoldable pub duration_of : Event → Option Event → Option ℕ
unfolding number_at span
duration_of anchor pet_in = elim (number_at "time_in" anchor.content) [
  | none ↦ fallback_duration anchor pet_in
  | some t_in ↦ elim (number_at "time_out" anchor.content) [
    | none ↦ fallback_duration anchor pet_in
    | some t_out ↦ some (span t_out t_in)
  ]
]

abbrev positive : Option ℤ → Option ℕ
positive (some (pos (suc n))) = some (suc n)
positive _ = none

abbrev or_else {ℓ} : {A : Type ℓ} → Option A → Option A → Option A
or_else none b = b
or_else (some a) b = some a

-- `_started_at`
unfoldable pub started_at : Event → Option Event → Option ℕ
unfolding number_at
started_at anchor pet_in = or_else (positive (number_at "time_in" anchor.content)) (
    or_else (positive (number_at "start_time" anchor.content)) (
      or_else (positive (number_at "mark" anchor.content))
        (elim (other_row anchor pet_in) [ none ↦ none | some p ↦ nonzero p.ts ])))

-- `_session_from_visit`
unfoldable pub session_from_visit : Event → Option Event → List ℕ → Session
unfolding duration_of started_at weight_of
session_from_visit anchor pet_in media = record {
  kind = "visit";
  id = anchor.id;
  related_event = anchor.related_event;
  device_id = anchor.device_id;
  device_type = anchor.device_type;
  ts = anchor.ts;
  display_ts = or_else (started_at anchor pet_in) anchor.ts;
  pet_id = anchor.pet_id;
  event_type = anchor.event_type;
  event_kind = some kind_toilet;
  duration_sec = duration_of anchor pet_in;
  weight = weight_of anchor;
  content = anchor.content;
  state = anchor.state;
  sub_events = [];
  media = media;
}

-- The line that `_attach` appends for a row.
abbrev pub line_of : Event → Line
line_of e = record {
  id = e.id;
  event_type = e.event_type;
  ts = e.ts;
  related_event = e.related_event;
  detail = is_detail_event e.event_type e.device_type;
  content = e.content;
  state = e.state;
  media = [];
}

-- `_attach`, on the card; the caller marks the row as used.
unfoldable pub attach : Session → Event → Session
attach s e = record s {
  pet_id = or_else s.pet_id e.pet_id;
  sub_events = s.sub_events ++ line_of e ∷ [];
}

-- A card of `_standalone_rows`
unfoldable pub standalone : Event → Session
standalone e = record {
  kind = "event";
  id = e.id;
  related_event = e.related_event;
  device_id = e.device_id;
  device_type = e.device_type;
  ts = e.ts;
  display_ts = e.ts;
  pet_id = e.pet_id;
  event_type = e.event_type;
  event_kind = e.event_kind;
  duration_sec = none;
  weight = none;
  content = e.content;
  state = e.state;
  sub_events = [];
  media = e.media;
}

-- `group.sort(key=lambda e: e.get("ts") or 0)`
unfoldable pub by_time : List Event → List Event
unfolding sort
by_time = sort (λ a b. leb (or_zero a.ts) (or_zero b.ts))
