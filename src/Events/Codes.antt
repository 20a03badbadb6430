-- ===== src/Events/Codes.antt =====
-- addon/petkit_local/events/codes.py: the sets derived from the code tables, and `lookup`.
pub mod Base
pub mod Http
pub mod Feeder
pub mod Mqtt
use Prim.Native.String
use containers_nix.Prelude.{
  ℕ, zero, suc, ◌+◌, String, str_eq, Bool, true, false, not, ◌&&◌, ◌||◌, Option, none, some, List,
  [], ◌∷◌, ◌++◌, map, select, leb, ◌==◌, if◌then◌else◌,
}
use containers_nix.Prelude.Dict
use containers_nix.Prelude.Dict.{one_of, Dict, update}
use containers_nix.Codec.{Text, codes}
use Base.{EventCode, Role, role_done, litter, feeder, fountain, purifier}
use Http.{litter_http_codes}
use Feeder.{feeder_http_codes, fountain_http_codes}
use Mqtt.{mqtt_event_topics}

-- A character of `str.lower`, where that is an ASCII character; U+212A is the Kelvin sign.
abbrev lower_code : ℕ → ℕ
lower_code c = if leb b'A' c && leb c b'Z' then c + 32 else if c == 0x212A then b'k' else c

abbrev same_text : Text → Text → Bool
same_text [] [] = true
same_text (a ∷ s) (b ∷ t) = a == b && same_text s t
same_text _ _ = false

-- `name.lower() == known`, for a `known` in ASCII
unfoldable pub lowers_to : String → String → Bool
lowers_to name known = same_text (map lower_code (codes name)) (codes known)

unfoldable pub any_lowers_to : String → List String → Bool
unfolding lowers_to
any_lowers_to name [] = false
any_lowers_to name (k ∷ known) = lowers_to name k || any_lowers_to name known

pub data Category : Type 0 where
  litter_box feeders fountains purifiers : Category

-- `category_of`
unfoldable pub category_of : Option String → Option Category
unfolding any_lowers_to
category_of none = none
category_of (some name) =
    if str_eq name ""
    then none
    else if any_lowers_to name litter
    then some litter_box
    else if any_lowers_to name feeder
    then some feeders
    else if any_lowers_to name fountain
    then some fountains
    else if any_lowers_to name purifier
    then some purifiers
    else none

-- `HTTP_CODES_BY_CATEGORY`, with `DEFAULT_HTTP_CATEGORY` for a device of no known category
unfoldable pub http_codes : Option Category → Dict EventCode
unfolding litter_http_codes feeder_http_codes fountain_http_codes
http_codes none = litter_http_codes
http_codes (some litter_box) = litter_http_codes
http_codes (some feeders) = feeder_http_codes
http_codes (some fountains) = fountain_http_codes
http_codes (some purifiers) = []

-- `MQTT_EVENT_TOPICS.get(key.lower())`
unfoldable pub lookup_topic : String → Dict EventCode → Option EventCode
unfolding lowers_to
lookup_topic key [] = none
lookup_topic key ((k, c) ∷ rest) = if lowers_to key k then some c else lookup_topic key rest

unfoldable pub lookup : Option String → Option String → Option EventCode
unfolding category_of http_codes lookup_topic mqtt_event_topics Dict.lookup
lookup none device_type = none
lookup (some key) device_type =
    if str_eq key "" then none else elim (Dict.lookup key (http_codes (category_of device_type))) [
      | some c ↦ some c
      | none ↦ lookup_topic key mqtt_event_topics
    ]

-- `is_detail_event` of events/normalize.py
unfoldable pub is_detail_event : Option String → Option String → Bool
unfolding lookup
is_detail_event event_type device_type = elim (lookup event_type device_type) [
  | none ↦ false
  | some c ↦ c.detail
]

unfoldable pub all_event_codes : Dict EventCode
unfolding mqtt_event_topics feeder_http_codes fountain_http_codes litter_http_codes update
all_event_codes =
    update (update (update mqtt_event_topics feeder_http_codes) fountain_http_codes)
      litter_http_codes

abbrev is_done : Role → Bool
is_done role_done = true
is_done _ = false

-- `_codes_where`
unfoldable pub codes_where : (EventCode → Bool) → Dict EventCode → List String
codes_where p [] = []
codes_where p ((k, c) ∷ rest) = let found = codes_where p rest in if p c then k ∷ found else found

unfoldable pub anchor_codes : List String
unfolding codes_where all_event_codes
anchor_codes = codes_where (λ c. c.anchor) all_event_codes

unfoldable pub primary_done_codes : List String
unfolding codes_where all_event_codes
primary_done_codes = codes_where (λ c. is_done c.role && not c.detail) all_event_codes

-- A type that a row stores, tested against a set of codes.
abbrev pub has_type : List String → Option String → Bool
has_type known none = false
has_type known (some t) = one_of t known
