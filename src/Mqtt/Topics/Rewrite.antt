-- ===== src/Mqtt/Topics/Rewrite.antt =====
-- `rewrite_topic` of `mqtt/topics.py`: what a re-addressed topic is to the parser.
use containers_nix.Prelude.{
  ◌≡◌, refl, sym, ap, ◌∙◌, inl, inr, false, Option, some, List, [], ◌∷◌, ◌++◌, Option-cases,
}
use mathlib.Core.List.{append-nil}
use containers_nix.Codec.{Text, codes}
use containers_nix.Mqtt.Pattern.{Pattern, groups, Fits}
use containers_nix.Mqtt.Pattern.Groups.{groups-Fits, groups-filled, ends_with_newline}
use containers_nix.Mqtt.Topics.{
  ParsedTopic, parse_topic, event_pattern, service_pattern, user_get_pattern, ota_inform_pattern,
  ota_upgrade_pattern, event_post_topic, service_topic, user_get_topic, ota_inform_topic,
  ota_upgrade_topic, with_detail, with_word, if_match, topic_for, rewrite_topic,
}
use containers_nix.Mqtt.Topics.Parsed.{
  IsSegment, IsLine, topic, parse-event, parse-service, parse-user_get, parse-inform, parse-upgrade,
}

-- The ways in which a text can have been parsed.
pub data Form (t : Text) (p : ParsedTopic) : Type 0 where
  event :
      (pk dn e : Text)
      → IsSegment pk
      → IsSegment dn
      → IsSegment e
      → p ≡ topic pk dn "event" e
      → (ends_with_newline t ≡ false → event_post_topic pk dn e ≡ t)
      → Form t p
  service :
      (pk dn s : Text)
      → IsSegment pk
      → IsSegment dn
      → IsLine s
      → p ≡ topic pk dn "service" s
      → (ends_with_newline t ≡ false → service_topic pk dn s ≡ t)
      → Form t p
  user_get :
      (pk dn : Text)
      → IsSegment pk
      → IsSegment dn
      → p ≡ topic pk dn "user_get" (codes "get")
      → (ends_with_newline t ≡ false → user_get_topic pk dn ≡ t)
      → Form t p
  inform :
      (pk dn : Text)
      → IsSegment pk
      → IsSegment dn
      → p ≡ topic pk dn "ota" (codes "inform")
      → (ends_with_newline t ≡ false → ota_inform_topic pk dn ≡ t)
      → Form t p
  upgrade :
      (pk dn : Text)
      → IsSegment pk
      → IsSegment dn
      → p ≡ topic pk dn "ota" (codes "upgrade")
      → (ends_with_newline t ≡ false → ota_upgrade_topic pk dn ≡ t)
      → Form t p

module _ (t : Text) (p : ParsedTopic) where
  event-Form :
      (gs : List Text)
      → groups event_pattern t ≡ some gs
      → Fits event_pattern gs
      → with_detail "event" gs ≡ some p
      → Form t p
  unfolding event_post_topic
  event-Form (pk ∷ dn ∷ e ∷ []) h f q =
      event pk dn e f.0 f.1.0 f.1.1.0 (cc)
        (λ n. groups-filled event_pattern t (pk ∷ dn ∷ e ∷ []) h n)
  event-Form [] h f q = absurd f
  event-Form (pk ∷ []) h f q = absurd f.1
  event-Form (pk ∷ dn ∷ []) h f q = absurd f.1.1
  event-Form (pk ∷ dn ∷ e ∷ x ∷ r) h f q = cc

  service-Form :
      (gs : List Text)
      → groups service_pattern t ≡ some gs
      → Fits service_pattern gs
      → with_detail "service" gs ≡ some p
      → Form t p
  unfolding service_topic
  service-Form (pk ∷ dn ∷ s ∷ []) h f q = service pk dn s f.0 f.1.0 f.1.1.0 (cc) (λ n.
      ap (λ r. codes "/sys/" ++ (pk ++ (codes "/" ++ (dn ++ (codes "/thing/service/" ++ r)))))
        (sym (append-nil s))
      ∙ groups-filled service_pattern t (pk ∷ dn ∷ s ∷ []) h n)
  service-Form [] h f q = absurd f
  service-Form (pk ∷ []) h f q = absurd f.1
  service-Form (pk ∷ dn ∷ []) h f q = absurd f.1.1
  service-Form (pk ∷ dn ∷ e ∷ x ∷ r) h f q = cc

  user_get-Form :
      (gs : List Text)
      → groups user_get_pattern t ≡ some gs
      → Fits user_get_pattern gs
      → with_word "user_get" (codes "get") gs ≡ some p
      → Form t p
  unfolding user_get_topic
  user_get-Form (pk ∷ dn ∷ []) h f q =
      user_get pk dn f.0 f.1.0 (cc) (λ n. groups-filled user_get_pattern t (pk ∷ dn ∷ []) h n)
  user_get-Form [] h f q = absurd f
  user_get-Form (pk ∷ []) h f q = absurd f.1
  user_get-Form (pk ∷ dn ∷ x ∷ r) h f q = cc

  inform-Form :
      (gs : List Text)
      → groups ota_inform_pattern t ≡ some gs
      → Fits ota_inform_pattern gs
      → with_word "ota" (codes "inform") gs ≡ some p
      → Form t p
  unfolding ota_inform_topic
  inform-Form (pk ∷ dn ∷ []) h f q = inform pk dn f.0 f.1.0 (cc) (λ n.
      ap (λ r. codes "/ota/device/inform/" ++ (pk ++ (codes "/" ++ r))) (sym (append-nil dn))
      ∙ groups-filled ota_inform_pattern t (pk ∷ dn ∷ []) h n)
  inform-Form [] h f q = absurd f
  inform-Form (pk ∷ []) h f q = absurd f.1
  inform-Form (pk ∷ dn ∷ x ∷ r) h f q = cc

  upgrade-Form :
      (gs : List Text)
      → groups ota_upgrade_pattern t ≡ some gs
      → Fits ota_upgrade_pattern gs
      → with_word "ota" (codes "upgrade") gs ≡ some p
      → Form t p
  unfolding ota_upgrade_topic
  upgrade-Form (pk ∷ dn ∷ []) h f q = upgrade pk dn f.0 f.1.0 (cc) (λ n.
      ap (λ r. codes "/ota/device/upgrade/" ++ (pk ++ (codes "/" ++ r))) (sym (append-nil dn))
      ∙ groups-filled ota_upgrade_pattern t (pk ∷ dn ∷ []) h n)
  upgrade-Form [] h f q = absurd f
  upgrade-Form (pk ∷ []) h f q = absurd f.1
  upgrade-Form (pk ∷ dn ∷ x ∷ r) h f q = cc

  -- One pattern after the other: its match, or the rest.
  if_match-Form :
      (ps : Pattern) (found : List Text → Option ParsedTopic) (next : Option ParsedTopic)
      → ((gs : List Text) → groups ps t ≡ some gs → Fits ps gs → found gs ≡ some p → Form t p)
      → (next ≡ some p → Form t p)
      → if_match (groups ps t) found next ≡ some p
      → Form t p
  if_match-Form ps found next here after q = elim (Option-cases (groups ps t)) [
    | inl e ↦ after (rw e at q)
    | inr (gs, e) ↦ here gs e (groups-Fits ps t gs e) (rw e at q)
  ]

  pub parse_topic-Form : parse_topic t ≡ some p → Form t p
  unfolding parse_topic
  parse_topic-Form = if_match-Form event_pattern _ _ event-Form (
      if_match-Form service_pattern _ _ service-Form (
        if_match-Form user_get_pattern _ _ user_get-Form (
          if_match-Form ota_inform_pattern _ _ inform-Form
            (if_match-Form ota_upgrade_pattern _ _ upgrade-Form (λ q. cc)))))

-- The same topic for another identity.
abbrev pub renamed : Text → Text → ParsedTopic → ParsedTopic
renamed pk dn p = record p { product_key = pk; device_name = dn }

-- A parsed topic has a kind that can be re-addressed, and the parser reads the new one as the old
-- one with the new identity.
topic_for-parse :
    (pk dn : Text)
    → IsSegment pk
    → IsSegment dn
    → (t : Text) (p : ParsedTopic) → Form t p
    → (t' : Text) × (topic_for p pk dn ≡ some t') × (parse_topic t' ≡ some (renamed pk dn p))
unfolding topic_for
topic_for-parse pk dn hk hn t p (event _ _ e _ _ he q _) =
    rw q (event_post_topic pk dn e, refl, parse-event pk dn hk hn e he)
topic_for-parse pk dn hk hn t p (service _ _ s _ _ hs q _) =
    rw q (service_topic pk dn s, refl, parse-service pk dn hk hn s hs)
topic_for-parse pk dn hk hn t p (user_get _ _ _ _ q _) =
    rw q (user_get_topic pk dn, refl, parse-user_get pk dn hk hn)
topic_for-parse pk dn hk hn t p (inform _ _ _ _ q _) =
    rw q (ota_inform_topic pk dn, refl, parse-inform pk dn hk hn)
topic_for-parse pk dn hk hn t p (upgrade _ _ _ _ q _) =
    rw q (ota_upgrade_topic pk dn, refl, parse-upgrade pk dn hk hn)

topic_for-back :
    (t : Text) (p : ParsedTopic)
    → Form t p
    → ends_with_newline t ≡ false
    → (pk dn : Text) → topic_for (renamed pk dn p) p.product_key p.device_name ≡ some t
unfolding topic_for
topic_for-back t p (event _ _ _ _ _ _ q b) n pk dn = rw q (ap some (b n))
topic_for-back t p (service _ _ _ _ _ _ q b) n pk dn = rw q (ap some (b n))
topic_for-back t p (user_get _ _ _ _ q b) n pk dn = rw q (ap some (b n))
topic_for-back t p (inform _ _ _ _ q b) n pk dn = rw q (ap some (b n))
topic_for-back t p (upgrade _ _ _ _ q b) n pk dn = rw q (ap some (b n))

module _ (t pk dn : Text) (p : ParsedTopic) (hk : IsSegment pk) (hn : IsSegment dn)
    (parsed : parse_topic t ≡ some p) where
  pub rewrite_topic-Form :
      (t' : Text) × (rewrite_topic t pk dn ≡ some t')
      × (parse_topic t' ≡ some (renamed pk dn p))
      × (ends_with_newline t ≡ false → rewrite_topic t' p.product_key p.device_name ≡ some t)
  unfolding rewrite_topic
  rewrite_topic-Form =
      let f = parse_topic-Form t p parsed in
      let (t', made, read) = topic_for-parse pk dn hk hn t p f in
      (t', rw parsed made, read, λ n. rw (read, rewrite_topic) (topic_for-back t p f n pk dn))

  -- Re-addressing a topic that the parser reads and that does not end in a newline, to an identity
  -- whose two parts are not empty and have no slash, gives a topic; the parser reads that one as the
  -- same category and detail with the new identity; and re-addressing the result to the identity that
  -- the topic had gives the topic back.
  pub rewrite_topic-parse :
      ends_with_newline t ≡ false
      → (t' : Text) × (rewrite_topic t pk dn ≡ some t')
        × (parse_topic t' ≡ some (renamed pk dn p))
        × (rewrite_topic t' p.product_key p.device_name ≡ some t)
  rewrite_topic-parse n =
      let (t', made, read, back) = rewrite_topic-Form in (t', made, read, back n)
