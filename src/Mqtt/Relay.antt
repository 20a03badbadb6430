-- ===== src/Mqtt/Relay.antt =====
-- Which frames cross between our broker and the real one: `mqtt/upstream.py`, and which of the
-- frames on our broker the bridge of `mqtt/bridge.py` takes for a device's.
pub mod Echo
pub mod Own
use containers_nix.Prelude.{
  Bool, true, false, Option, none, some, List, [], ◌∷◌, ◌++◌, String, str_eq, ◌&&◌, not,
  if◌then◌else◌,
}
use containers_nix.Codec.{Text, codes}
use containers_nix.Value.Equal.{text_eq}
use containers_nix.Mqtt.Topics.{
  ParsedTopic, parse_topic, listed, ends_with, is_server_published, rewrite_topic,
  ota_upgrade_topic, event_reply_topic, service_topic, user_get_topic,
}

abbrev pub upstream_allowed : List (String × Option Text)
upstream_allowed = ("event", none) ∷ ("ota", some (codes "inform")) ∷ []

-- `_is_from_device`
unfoldable pub is_from_device : Text → Bool
unfolding listed
is_from_device topic = elim (parse_topic topic) [
  | none ↦ false
  | some parsed ↦ listed upstream_allowed parsed
]

-- The topic that `forward_up` publishes on, for a device that is connected upstream with the
-- identity `pk`, `dn`.
unfoldable pub forward_up : Text → Text → Text → Option Text
forward_up pk dn topic = if is_from_device topic then rewrite_topic topic pk dn else none

-- What becomes of a frame from the real cloud.
pub data Outcome : Type 0 where
  -- `_block_ota`
  blocked : Outcome
  -- A device's own direction, warned of and dropped.
  refused : Outcome
  -- An acknowledgement or a topic outside the map, dropped.
  unmapped : Outcome
  -- Redacted and published on this topic of our broker.
  relayed : Text → Outcome

abbrev pub outcome_of : Option Text → Outcome
outcome_of none = unmapped
outcome_of (some t) = relayed t

abbrev pub is_upgrade : ParsedTopic → Bool
is_upgrade p = str_eq p.category "ota" && text_eq p.detail (codes "upgrade")

-- `_on_upstream`, for a device whose identity on our broker is `pk`, `dn`.
unfoldable pub on_upstream : Text → Text → Text → Outcome
unfolding text_eq
on_upstream pk dn topic = elim (parse_topic topic) [
  | none ↦ outcome_of (rewrite_topic topic pk dn)
  | some p ↦
      if is_upgrade p
      then blocked
      else if not (is_server_published p)
      then refused
      else outcome_of (rewrite_topic topic pk dn)
]

-- `_downstream_topics`
unfoldable pub downstream_topics : Text → Text → List Text
unfolding ota_upgrade_topic
downstream_topics pk dn =
    (codes "/sys/" ++ (pk ++ (codes "/" ++ (dn ++ codes "/thing/service/#"))))
    ∷ (codes "/sys/" ++ (pk ++ (codes "/" ++ (dn ++ codes "/thing/event/+/post_reply"))))
    ∷ (codes "/" ++ (pk ++ (codes "/" ++ (dn ++ codes "/user/get"))))
    ∷ ota_upgrade_topic pk dn
    ∷ (codes "/ext/rrpc/+/sys/" ++ (pk ++ (codes "/" ++ (dn ++ codes "/#"))))
    ∷ []

-- The head of `_handle_message`: the topic of a frame that the bridge takes for a device's, if its
-- payload is a JSON object.
unfoldable pub taken : Bool → Text → Option ParsedTopic
taken is_object topic = if not is_object then none else elim (parse_topic topic) [
  | none ↦ none
  | some p ↦ if is_server_published p then none else some p
]
