-- ===== src/Mqtt/Relay/Echo.antt =====
-- The relay does not hear itself: `_on_upstream` of `mqtt/upstream.py` with `_handle_message` of
-- `mqtt/bridge.py`.
use containers_nix.Prelude.{
  ◌≡◌, refl, sym, ap, ◌∙◌, inl, inr, Bool, true, false, none, some, arith, Option-cases, Bool-cases,
}
use mathlib.Core.Option.{some-injective}
use containers_nix.Codec.{Text, codes}
use containers_nix.Value.Equal.{text_eq}
use containers_nix.Mqtt.Topics.{
  ParsedTopic, parse_topic, listed, ends_with, is_server_published, rewrite_topic,
}
use containers_nix.Mqtt.Topics.Parsed.{IsSegment}
use containers_nix.Mqtt.Topics.Rewrite.{
  Form, event, service, user_get, inform, upgrade, parse_topic-Form, rewrite_topic-Form, renamed,
}
use containers_nix.Mqtt.Relay.{
  relayed, is_upgrade, on_upstream, is_from_device, taken, upstream_allowed,
}

relayed-injective : (a b : Text) → relayed a ≡ relayed b → a ≡ b
relayed-injective a b h = cc

-- A topic of the server, other than a firmware upgrade, is none that a device may send up.
Form-listed :
    (t : Text) (p : ParsedTopic)
    → Form t p
    → is_server_published p ≡ true
    → is_upgrade p ≡ false
    → listed upstream_allowed p ≡ false
unfolding is_server_published listed text_eq
Form-listed t p (event _ _ e _ _ _ q _) b a = elim (Bool-cases (ends_with (codes "_reply") e)) [
  | inl r ↦ let k : false ≡ true = rw (q, r, is_server_published) at b in cc
  | inr r ↦ let k : false ≡ true = rw (q, r, is_server_published) at b in cc
]
Form-listed t p (service _ _ _ _ _ _ q _) b a = rw q
Form-listed t p (user_get _ _ _ _ q _) b a = rw q
Form-listed t p (inform _ _ _ _ q _) b a =
    elim (Bool-cases (ends_with (codes "_reply") (codes "inform"))) [
      | inl r ↦ let k : false ≡ true = rw (q, r, is_server_published) at b in cc
      | inr r ↦ let k : false ≡ true = rw (q, r, is_server_published) at b in cc
    ]
Form-listed t p (upgrade _ _ _ _ q _) b a = let k : true ≡ false = rw q at a in cc

pub taken-none :
    (is_object : Bool) (t : Text) (p : ParsedTopic)
    → parse_topic t ≡ some p
    → is_server_published p ≡ true
    → taken is_object t ≡ none
unfolding taken
taken-none false t p e b = refl
taken-none true t p e b = rw (e, b)

-- The identity does not decide who publishes on a topic.
same_side :
    (pk dn : Text) (p : ParsedTopic)
    → is_server_published p ≡ true
    → is_server_published (renamed pk dn p) ≡ true
unfolding is_server_published
same_side pk dn p b = b

module _ (pk dn : Text) (hk : IsSegment pk) (hn : IsSegment dn) (t u : Text) where
  -- What was relayed had been parsed as a server's topic, other than a firmware upgrade.
  on_upstream-relayed :
      on_upstream pk dn t ≡ relayed u
      → (p : ParsedTopic) × (parse_topic t ≡ some p)
        × (is_upgrade p ≡ false)
        × (is_server_published p ≡ true)
        × (rewrite_topic t pk dn ≡ some u)
  unfolding on_upstream rewrite_topic
  on_upstream-relayed h = elim (Option-cases (parse_topic t)) [
    | inl e ↦ absurd (ground (arith, h, e))
    | inr (p, e) ↦ elim (Bool-cases (is_upgrade p)) [
      | inl a ↦ absurd (ground (arith, h, e, a))
      | inr a ↦ elim (Bool-cases (is_server_published p)) [
        | inr b ↦ absurd (ground (arith, h, e, a, b))
        | inl b ↦ elim (Option-cases (rewrite_topic t pk dn)) [
          | inl d ↦ absurd (ground (arith, h, e, a, b, d))
          | inr (v, d) ↦
              (p, e, a, b, d ∙ ap some (relayed-injective v u (ground (arith, h, e, a, b, d))))
        ]
      ]
    ]
  ]

  -- A frame of the real cloud that is relayed to our broker, to a device whose product key and name
  -- there are not empty and have no slash, does not come back: the bridge, which hears it on its own
  -- subscription, does not take it for a device's whatever its payload, and it is not one that may be
  -- sent up. It came on a topic of the server that is no firmware upgrade, and went out on the same
  -- category and detail under the device's identity.
  pub on_upstream-taken :
      (is_object : Bool)
      → on_upstream pk dn t ≡ relayed u
      → (taken is_object u ≡ none)
        × (is_from_device u ≡ false)
        × ((p : ParsedTopic) × (parse_topic t ≡ some p)
            × (parse_topic u ≡ some (renamed pk dn p))
            × (is_server_published p ≡ true)
            × (is_upgrade p ≡ false))
  unfolding taken is_from_device is_server_published listed
  on_upstream-taken is_object h =
      let (p, e, a, b, d) = on_upstream-relayed h in
      let (v, made, read, _) = rewrite_topic-Form t pk dn p hk hn e in
      let same : v ≡ u = some-injective v u (sym made ∙ d) in
      let reads : parse_topic u ≡ some (renamed pk dn p) = rw (← same) read in
      let low = Form-listed t p (parse_topic-Form t p e) b a in
      (
        taken-none is_object u (renamed pk dn p) reads (same_side pk dn p b),
        rw (reads, is_from_device) low,
        (p, e, reads, b, a),
      )
