-- ===== src/Mqtt/Topics.antt =====
-- `mqtt/topics.py`: the topics of a device, parsed and built, and re-addressed for the relay.
pub mod Parsed
pub mod Rewrite
use containers_nix.Prelude.{
  ℕ, ◌≡◌, refl, Bool, true, false, ◌&&◌, ◌||◌, not, Option, none, some, List, [], ◌∷◌, ◌++◌, ◌==◌,
  String, str_eq, reverse, if◌then◌else◌,
}
use containers_nix.Codec.{Text, codes}
use containers_nix.Value.Equal.{text_eq}
use containers_nix.Mqtt.Pattern.{Piece, lit, some_of, Pattern, groups, strip_prefix}

-- `[^/]`
abbrev pub not_slash : ℕ → Bool
not_slash c = not (c == b'/')

-- `.`
abbrev pub not_newline : ℕ → Bool
not_newline c = not (c == 10)

abbrev pub event_pattern : Pattern
event_pattern =
    lit (codes "/sys/")
    ∷ some_of not_slash
    ∷ lit (codes "/")
    ∷ some_of not_slash
    ∷ lit (codes "/thing/event/")
    ∷ some_of not_slash
    ∷ lit (codes "/post")
    ∷ []

abbrev pub service_pattern : Pattern
service_pattern =
    lit (codes "/sys/")
    ∷ some_of not_slash
    ∷ lit (codes "/")
    ∷ some_of not_slash
    ∷ lit (codes "/thing/service/")
    ∷ some_of not_newline
    ∷ []

abbrev pub user_get_pattern : Pattern
user_get_pattern =
    lit (codes "/")
    ∷ some_of not_slash
    ∷ lit (codes "/")
    ∷ some_of not_slash
    ∷ lit (codes "/user/get")
    ∷ []

abbrev pub ota_inform_pattern : Pattern
ota_inform_pattern =
    lit (codes "/ota/device/inform/") ∷ some_of not_slash ∷ lit (codes "/") ∷ some_of not_slash ∷ []

abbrev pub ota_upgrade_pattern : Pattern
ota_upgrade_pattern =
    lit (codes "/ota/device/upgrade/")
    ∷ some_of not_slash
    ∷ lit (codes "/")
    ∷ some_of not_slash
    ∷ []

pub record ParsedTopic : Type 0 where
  pub product_key : Text
  pub device_name : Text
  pub category : String
  pub detail : Text

-- The topic of a match with groups `pk`, `dn` and the detail.
abbrev pub with_detail : String → List Text → Option ParsedTopic
with_detail cat (pk ∷ dn ∷ d ∷ []) =
    some (record { product_key = pk; device_name = dn; category = cat; detail = d })
with_detail cat _ = none

-- The same where the detail is a fixed word.
abbrev pub with_word : String → Text → List Text → Option ParsedTopic
with_word cat word (pk ∷ dn ∷ []) =
    some (record { product_key = pk; device_name = dn; category = cat; detail = word })
with_word cat word _ = none

-- `if m: return …`, and on to the next pattern otherwise.
abbrev pub if_match :
    Option (List Text) → (List Text → Option ParsedTopic) → Option ParsedTopic → Option ParsedTopic
if_match none found next = next
if_match (some gs) found next = found gs

unfoldable pub parse_topic : Text → Option ParsedTopic
unfolding groups
parse_topic topic = if_match (groups event_pattern topic) (with_detail "event") (
    if_match (groups service_pattern topic) (with_detail "service") (
      if_match (groups user_get_pattern topic) (with_word "user_get" (codes "get")) (
        if_match (groups ota_inform_pattern topic) (with_word "ota" (codes "inform"))
          (if_match (groups ota_upgrade_pattern topic) (with_word "ota" (codes "upgrade")) none))))

abbrev pub starts_with : Text → Text → Bool
starts_with l s = elim (strip_prefix l s) [ none ↦ false | some r ↦ true ]

-- `s.endswith(l)`
unfoldable pub ends_with : Text → Text → Bool
unfolding strip_prefix
ends_with l s = starts_with (reverse l) (reverse s)

-- `any(parsed.category == cat and (detail is None or parsed.detail == detail) …)`
unfoldable pub listed : List (String × Option Text) → ParsedTopic → Bool
unfolding text_eq
listed [] parsed = false
listed ((cat, none) ∷ rest) parsed = str_eq parsed.category cat || listed rest parsed
listed ((cat, some d) ∷ rest) parsed =
    (str_eq parsed.category cat && text_eq parsed.detail d) || listed rest parsed

abbrev pub server_published : List (String × Option Text)
server_published = ("service", none) ∷ ("user_get", none) ∷ ("ota", some (codes "upgrade")) ∷ []

unfoldable pub is_server_published : ParsedTopic → Bool
unfolding listed
is_server_published parsed =
    if ends_with (codes "_reply") parsed.detail then false else listed server_published parsed

unfoldable pub event_reply_topic : Text → Text → Text → Text
event_reply_topic pk dn event_type =
    codes "/sys/"
    ++ (pk ++ (codes "/" ++ (dn ++ (codes "/thing/event/" ++ (event_type ++ codes "/post_reply")))))

unfoldable pub service_topic : Text → Text → Text → Text
service_topic pk dn service_type =
    codes "/sys/" ++ (pk ++ (codes "/" ++ (dn ++ (codes "/thing/service/" ++ service_type))))

unfoldable pub user_get_topic : Text → Text → Text
user_get_topic pk dn = codes "/" ++ (pk ++ (codes "/" ++ (dn ++ codes "/user/get")))

unfoldable pub ota_upgrade_topic : Text → Text → Text
ota_upgrade_topic pk dn = codes "/ota/device/upgrade/" ++ (pk ++ (codes "/" ++ dn))

unfoldable pub event_post_topic : Text → Text → Text → Text
event_post_topic pk dn event_type =
    codes "/sys/"
    ++ (pk ++ (codes "/" ++ (dn ++ (codes "/thing/event/" ++ (event_type ++ codes "/post")))))

unfoldable pub ota_inform_topic : Text → Text → Text
ota_inform_topic pk dn = codes "/ota/device/inform/" ++ (pk ++ (codes "/" ++ dn))

unfoldable pub downstream_filters : Text → Text → List Text
unfolding service_topic event_reply_topic user_get_topic
downstream_filters pk dn =
    service_topic pk dn (codes "#")
    ∷ event_reply_topic pk dn (codes "+")
    ∷ user_get_topic pk dn
    ∷ []

-- The topic of a parsed one's kind for another identity.
unfoldable pub topic_for : ParsedTopic → Text → Text → Option Text
unfolding event_post_topic service_topic user_get_topic ota_inform_topic ota_upgrade_topic text_eq
topic_for parsed to_pk to_dn =
    if str_eq parsed.category "event"
    then some (event_post_topic to_pk to_dn parsed.detail)
    else if str_eq parsed.category "service"
    then some (service_topic to_pk to_dn parsed.detail)
    else if str_eq parsed.category "user_get"
    then some (user_get_topic to_pk to_dn)
    else if str_eq parsed.category "ota"
    then (if text_eq parsed.detail (codes "inform")
        then some (ota_inform_topic to_pk to_dn)
        else some (ota_upgrade_topic to_pk to_dn))
    else none

unfoldable pub rewrite_topic : Text → Text → Text → Option Text
unfolding parse_topic topic_for
rewrite_topic topic to_pk to_dn = elim (parse_topic topic) [
  | none ↦ none
  | some parsed ↦ topic_for parsed to_pk to_dn
]
