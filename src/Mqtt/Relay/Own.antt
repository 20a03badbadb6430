-- ===== src/Mqtt/Relay/Own.antt =====
-- Which of the frames on our broker the bridge takes for a device's: `is_server_published` of
-- `mqtt/topics.py` at the head of `_handle_message` of `mqtt/bridge.py`, for the topics that each side
-- publishes on.
use containers_nix.Prelude.{
  ◌≡◌, refl, ap, ◌∙◌, inl, inr, Bool, true, false, not, none, some, [], ◌∷◌, ◌++◌, if◌then◌else◌,
  Bool-cases,
}
use containers_nix.Codec.{Text, codes}
use containers_nix.Mqtt.Pattern.{lit, groups, capture, prepend, groups-some_of, span}
use containers_nix.Mqtt.Topics.{
  ParsedTopic, parse_topic, ends_with, is_server_published, event_reply_topic, event_post_topic,
  service_topic, user_get_topic, ota_inform_topic, not_slash, event_pattern, service_pattern,
  user_get_pattern,
}
use containers_nix.Mqtt.Topics.Parsed.{
  IsSegment, IsLine, topic, parse-event, parse-service, parse-user_get, parse-inform, groups-named,
  strip_prefix-segment, event_tail, service_tail,
}
use containers_nix.Mqtt.Relay.{taken}
use containers_nix.Mqtt.Relay.Echo.{taken-none}

module _ (pk dn : Text) (hk : IsSegment pk) (hn : IsSegment dn) where
  -- An acknowledgement is on no topic that the parser reads.
  parse-event_reply : (e : Text) → IsSegment e → parse_topic (event_reply_topic pk dn e) ≡ none
  unfolding parse_topic event_reply_topic groups span capture
  parse-event_reply e he =
      let rest = codes "/thing/event/" ++ (e ++ codes "/post_reply") in
      let no_event : groups event_pattern (event_reply_topic pk dn e) ≡ none =
        groups-named pk dn hk hn (codes "/sys/") event_tail rest refl
        ∙ ap (λ r. prepend pk (prepend dn r))
            (groups-some_of not_slash (lit (codes "/post") ∷ []) e (codes "/post_reply") he refl) in
      let no_service : groups service_pattern (event_reply_topic pk dn e) ≡ none =
        groups-named pk dn hk hn (codes "/sys/") service_tail rest refl in
      let pieces = lit (codes "/user/get") ∷ [] in
      let no_user_get : groups user_get_pattern (event_reply_topic pk dn e) ≡ none =
        ap (prepend (codes "sys"))
          (groups-some_of not_slash pieces pk (codes "/" ++ (dn ++ rest)) hk refl)
        ∙ elim (strip_prefix-segment (codes "user") (codes "get") dn
            (codes "thing/event/" ++ (e ++ codes "/post_reply")) (refl, (refl, (refl, (refl, tt))))
            hn.1) [ inl q ↦ rw (q, prepend, groups) | inr q ↦ rw (q, prepend, groups) ] in
      rw (no_event, no_service, no_user_get)

  taken_unread : (is_object : Bool) (t : Text) → parse_topic t ≡ none → taken is_object t ≡ none
  unfolding taken
  taken_unread false t h = refl
  taken_unread true t h = rw h

  taken_parsed :
      (t : Text) (p : ParsedTopic)
      → parse_topic t ≡ some p
      → is_server_published p ≡ false
      → taken true t ≡ some p
  unfolding taken
  taken_parsed t p h b = rw (h, b)

  published_service :
      (t : Text)
      → is_server_published (topic pk dn "service" t) ≡ not (ends_with (codes "_reply") t)
  unfolding is_server_published
  published_service t = elim (Bool-cases (ends_with (codes "_reply") t)) [
    | inl e ↦ rw (e, is_server_published)
    | inr e ↦ rw (e, is_server_published)
  ]

  published_event : (t : Text) → is_server_published (topic pk dn "event" t) ≡ false
  unfolding is_server_published
  published_event t = elim (Bool-cases (ends_with (codes "_reply") t)) [
    | inl e ↦ rw (e, is_server_published)
    | inr e ↦ rw (e, is_server_published)
  ]

  taken_service :
      (t : Text)
      → IsLine t
      → taken true (service_topic pk dn t)
        ≡ (if ends_with (codes "_reply") t then some (topic pk dn "service" t) else none)
  taken_service t ht = elim (Bool-cases (ends_with (codes "_reply") t)) [
    | inl r ↦ rw r (
        taken_parsed (service_topic pk dn t) (topic pk dn "service" t)
          (parse-service pk dn hk hn t ht) (published_service t ∙ ap not r))
    | inr r ↦ rw r (
        taken-none true (service_topic pk dn t) (topic pk dn "service" t)
          (parse-service pk dn hk hn t ht) (published_service t ∙ ap not r))
  ]

  -- Of the frames on our broker about a product key, a device name and an event's name that are not
  -- empty and have no slash, and a service's name that is not empty and has no newline, the bridge
  -- passes over acknowledgements and `user/get`, whatever the payload. Of a frame whose payload is a
  -- JSON object, it takes the event posts and the OTA inform, and the services exactly where their
  -- name ends in `_reply`.
  pub taken-built :
      (is_object : Bool) (e t : Text)
      → IsSegment e
      → IsLine t
      → (taken is_object (event_reply_topic pk dn e) ≡ none)
        × (taken is_object (user_get_topic pk dn) ≡ none)
        × (taken true (event_post_topic pk dn e) ≡ some (topic pk dn "event" e))
        × (taken true (service_topic pk dn t)
            ≡ (if ends_with (codes "_reply") t then some (topic pk dn "service" t) else none))
        × (taken true (ota_inform_topic pk dn) ≡ some (topic pk dn "ota" (codes "inform")))
  unfolding is_server_published ends_with
  taken-built is_object e t he ht = (
    taken_unread is_object (event_reply_topic pk dn e) (parse-event_reply e he),
    taken-none is_object (user_get_topic pk dn) (topic pk dn "user_get" (codes "get"))
        (parse-user_get pk dn hk hn) refl,
    taken_parsed (event_post_topic pk dn e) (topic pk dn "event" e) (parse-event pk dn hk hn e he)
        (published_event e),
    taken_service t ht,
    taken_parsed (ota_inform_topic pk dn) (topic pk dn "ota" (codes "inform"))
        (parse-inform pk dn hk hn) refl,
  )
