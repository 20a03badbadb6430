-- ===== src/Mqtt/Topics/Parsed.antt =====
-- What each builder of `mqtt/topics.py` makes, the parser takes apart.
use containers_nix.Prelude.{
  ℕ, ◌≡◌, refl, ap, ◌⊎◌, inl, inr, Bool, true, none, some, [], ◌∷◌, ◌++◌, ◌==◌, String, All, arith,
  Bool-cases, ◌∙◌,
}
use mathlib.Core.List.{append-nil}
use containers_nix.Codec.{Text, codes}
use containers_nix.Mqtt.Pattern.{
  lit, some_of, Pattern, groups, strip_prefix, capture, span, at_end, prepend, Passes, stops,
  groups-some_of,
}
use containers_nix.Mqtt.Topics.{
  ParsedTopic, parse_topic, not_slash, not_newline, event_pattern, service_pattern,
  user_get_pattern, event_post_topic, service_topic, user_get_topic, ota_inform_topic,
  ota_upgrade_topic,
}

-- A product key, a device name or an event's name: not empty, without a slash.
abbrev pub IsSegment : Text → Type 0
IsSegment = Passes not_slash

-- A service's name: not empty, without a newline.
abbrev pub IsLine : Text → Type 0
IsLine = Passes not_newline

-- A pattern's last group takes all that is left.
groups_last : (p : ℕ → Bool) (g : Text) → Passes p g → groups (some_of p ∷ []) g ≡ some (g ∷ [])
unfolding groups
groups_last p g h = let full = groups-some_of p [] g [] h refl in rw (append-nil g) at full

pub strip_prefix-append : (l s : Text) → strip_prefix l (l ++ s) ≡ some s
unfolding strip_prefix
strip_prefix-append [] s = refl
strip_prefix-append (c ∷ l) s = ground (arith, strip_prefix-append l s)

-- A pattern that begins with literal text, two groups and a slash between them.
abbrev pub named : Text → Pattern → Pattern
named l ps = lit l ∷ some_of not_slash ∷ lit (codes "/") ∷ some_of not_slash ∷ ps

abbrev pub event_tail : Pattern
event_tail = lit (codes "/thing/event/") ∷ some_of not_slash ∷ lit (codes "/post") ∷ []

abbrev pub service_tail : Pattern
service_tail = lit (codes "/thing/service/") ∷ some_of not_newline ∷ []

-- `l`, a slash and `m`, against a segment that is followed by a slash.
pub strip_prefix-segment :
    (l m g r : Text)
    → All (λ c. not_slash c ≡ true) l
    → All (λ c. not_slash c ≡ true) g
    → (strip_prefix (l ++ b'/' ∷ m) (g ++ b'/' ∷ r) ≡ none)
      ⊎ (strip_prefix (l ++ b'/' ∷ m) (g ++ b'/' ∷ r) ≡ strip_prefix m r)
unfolding strip_prefix
strip_prefix-segment [] m [] r h k = inr refl
strip_prefix-segment [] m (d ∷ g) r h k = inl (ground (arith, k.0))
strip_prefix-segment (c ∷ l) m [] r h k = inl (ground (arith, h.0))
strip_prefix-segment (c ∷ l) m (d ∷ g) r h k = elim (Bool-cases (c == d)) [
  | inl e ↦ rw (e, strip_prefix) (strip_prefix-segment l m g r h.1 k.1)
  | inr e ↦ inl (rw (e, strip_prefix))
]

abbrev pub topic : Text → Text → String → Text → ParsedTopic
topic pk dn cat d = record { product_key = pk; device_name = dn; category = cat; detail = d }

module _ (pk dn : Text) (hk : IsSegment pk) (hn : IsSegment dn) where
  pub groups-named :
      (l : Text) (ps : Pattern) (s : Text)
      → stops not_slash s ≡ true
      → groups (named l ps) (l ++ (pk ++ (codes "/" ++ (dn ++ s))))
        ≡ prepend pk (prepend dn (groups ps s))
  unfolding groups
  groups-named l ps s h =
      rw (strip_prefix-append l (pk ++ (codes "/" ++ (dn ++ s))), groups)
        (groups-some_of not_slash (lit (codes "/") ∷ some_of not_slash ∷ ps) pk
            (codes "/" ++ (dn ++ s)) hk refl
          ∙ ap (prepend pk) (groups-some_of not_slash ps dn s hn h))

  pub groups-event :
      (e : Text)
      → IsSegment e
      → groups event_pattern (event_post_topic pk dn e) ≡ some (pk ∷ dn ∷ e ∷ [])
  unfolding groups event_post_topic at_end
  groups-event e he =
      groups-named (codes "/sys/") event_tail (codes "/thing/event/" ++ (e ++ codes "/post")) refl
      ∙ ap (λ r. prepend pk (prepend dn r))
          (groups-some_of not_slash (lit (codes "/post") ∷ []) e (codes "/post") he refl)

  pub groups-service :
      (t : Text)
      → IsLine t
      → (groups event_pattern (service_topic pk dn t) ≡ none)
        × (groups service_pattern (service_topic pk dn t) ≡ some (pk ∷ dn ∷ t ∷ []))
  unfolding groups service_topic at_end
  groups-service t ht = (
    groups-named (codes "/sys/") event_tail (codes "/thing/service/" ++ t) refl,
    groups-named (codes "/sys/") service_tail (codes "/thing/service/" ++ t) refl
        ∙ ap (λ r. prepend pk (prepend dn r)) (groups_last not_newline t ht),
  )

  -- No pattern of an event or a service fits `/{pk}/{dn}/user/get`, also where `pk` is `sys`.
  not_sys :
      (l : Text) (ps : Pattern)
      → groups (named (codes "/sys/") (lit (codes "/thing/" ++ l) ∷ ps)) (user_get_topic pk dn)
        ≡ none
  unfolding groups user_get_topic
  not_sys l ps =
      elim (strip_prefix-segment (codes "sys") [] pk (dn ++ codes "/user/get")
        (refl, (refl, (refl, tt))) hk.1) [
          | inl e ↦ rw (e, groups)
          | inr e ↦
              rw (e, groups)
                (groups-some_of not_slash
                  (lit (codes "/") ∷ some_of not_slash ∷ lit (codes "/thing/" ++ l) ∷ ps) dn
                  (codes "/user/get") hn refl)
        ]

  pub groups-user_get :
      (groups event_pattern (user_get_topic pk dn) ≡ none)
      × (groups service_pattern (user_get_topic pk dn) ≡ none)
      × (groups user_get_pattern (user_get_topic pk dn) ≡ some (pk ∷ dn ∷ []))
  unfolding groups user_get_topic at_end
  groups-user_get = (
    not_sys (codes "event/") (some_of not_slash ∷ lit (codes "/post") ∷ []),
    not_sys (codes "service/") (some_of not_newline ∷ []),
    groups-named (codes "/") (lit (codes "/user/get") ∷ []) (codes "/user/get") refl,
  )

  groups_ota :
      (l : Text) → groups (named l []) (l ++ (pk ++ (codes "/" ++ dn))) ≡ some (pk ∷ dn ∷ [])
  unfolding groups at_end
  groups_ota l = let all = groups-named l [] [] refl in rw (append-nil dn) at all

  pub parse-event :
      (e : Text)
      → IsSegment e
      → parse_topic (event_post_topic pk dn e) ≡ some (topic pk dn "event" e)
  unfolding parse_topic
  parse-event e he = rw (groups-event e he)

  pub parse-service :
      (t : Text) → IsLine t → parse_topic (service_topic pk dn t) ≡ some (topic pk dn "service" t)
  unfolding parse_topic
  parse-service t ht = rw ((groups-service t ht).0, (groups-service t ht).1)

  pub parse-user_get :
      parse_topic (user_get_topic pk dn) ≡ some (topic pk dn "user_get" (codes "get"))
  unfolding parse_topic
  parse-user_get = rw (groups-user_get.0, groups-user_get.1, groups-user_get.2)

  pub parse-inform :
      parse_topic (ota_inform_topic pk dn) ≡ some (topic pk dn "ota" (codes "inform"))
  unfolding parse_topic groups ota_inform_topic span capture
  parse-inform = rw (groups_ota (codes "/ota/device/inform/"))

  pub parse-upgrade :
      parse_topic (ota_upgrade_topic pk dn) ≡ some (topic pk dn "ota" (codes "upgrade"))
  unfolding parse_topic groups ota_upgrade_topic span capture
  parse-upgrade = rw (groups_ota (codes "/ota/device/upgrade/"))

  -- A topic built for an identity is parsed to that identity, with the kind and the detail of the
  -- builder: every event post, service and `user/get` topic and both OTA topics, for every product
  -- key, device name and event name that are not empty and have no slash, and every service name
  -- that is not empty and has no newline.
  pub parse-built :
      (e t : Text)
      → IsSegment e
      → IsLine t
      → (parse_topic (event_post_topic pk dn e) ≡ some (topic pk dn "event" e))
        × (parse_topic (service_topic pk dn t) ≡ some (topic pk dn "service" t))
        × (parse_topic (user_get_topic pk dn) ≡ some (topic pk dn "user_get" (codes "get")))
        × (parse_topic (ota_inform_topic pk dn) ≡ some (topic pk dn "ota" (codes "inform")))
        × (parse_topic (ota_upgrade_topic pk dn) ≡ some (topic pk dn "ota" (codes "upgrade")))
  parse-built e t he ht =
      (parse-event e he, parse-service t ht, parse-user_get, parse-inform, parse-upgrade)
