-- ===== src/Session/Link.antt =====
-- The MQTT link of each device as the plugin of `mqtt/auth.py` and its two other writers keep it,
-- against a table of the session that each device last opened and has not lost.
pub mod Table
pub mod Refines
pub mod Trace
use containers_nix.Prelude.{
  ℕ, ◌≡◌, refl, sym, ap, ◌∙◌, ◌⊎◌, inl, inr, Bool, true, false, ◌&&◌, ◌||◌, not, Option, none, some,
  List, [], ◌∷◌, ◌==◌, map, if◌then◌else◌, arith, Bool-cases, Option-cases, ==_iff,
}
use containers_nix.Codec.{Text}
use containers_nix.Mqtt.Client.{ClientId, parse_client_id}
use containers_nix.Value.Equal.{text_eq}
use containers_nix.Session.{
  Device, Plugin, Connect, Digest, by_mqtt_name, change, live_of, set_live, pop_live, connected_now,
  mark_mqtt_connected, signed, authenticate, device_for_client, off_mqtt, superseded,
  on_broker_client_disconnected, note_subscriptions, server_subscribe, on_broker_client_connected,
  owner_of, on_mqtt_packet_received, note_iot_status, device_is_stale, watch,
}

-- What happens to the plugin and its devices.
pub data Event : Type 0 where
  connect : ℕ → Connect → Event
  connected : (Text → Bool) → Text → Event
  packet : ℕ → ℕ → List Text → Event
  ended : Text → Option ℕ → Event
  -- A heartbeat of the device with this id.
  polled : ℕ → ℕ → Option Text → Event
  swept : ℕ → ℕ → Event

unfoldable pub by_id : ℕ → List Device → Option Device
by_id i [] = none
by_id i (d ∷ ds) = if d.petkit_id == i then some d else by_id i ds

-- The registry is a dict by id: no two devices share one.
abbrev pub Keyed : List Device → Type 0
Keyed [] = Unit
Keyed (d ∷ ds) = (by_id d.petkit_id ds ≡ none) × Keyed ds

-- The session over which a device is held to be reachable.
abbrev pub link_in : List (ℕ × ℕ) → ℕ → Option Device → Option ℕ
link_in live i none = none
link_in live i (some d) = if d.mqtt_connected then live_of i live else none

unfoldable pub link : Plugin → ℕ → Option ℕ
unfolding by_id live_of
link st i = link_in st.live_sessions i (by_id i st.registry)

module _ (hexdigest : Digest → Text → Text → Text) where
  unfoldable pub step : Event → Plugin → Plugin
  step (connect now s) st = (authenticate hexdigest now s st).1
  step (connected accepts c) st = on_broker_client_connected accepts c st
  step (packet now s topics) st = on_mqtt_packet_received now s topics st
  step (ended c s) st = on_broker_client_disconnected c s st
  step (polled i now raw) st = record st {
    registry = change i (note_iot_status now raw) st.registry;
  }
  step (swept now timeout) st = record st { registry = map (watch now timeout) st.registry }

  -- The device that a CONNECT is let in as.
  unfoldable pub identified : Connect → Plugin → Option ℕ
  identified s st = elim (parse_client_id s.client_id) [
    | none ↦ none
    | some c ↦ elim (by_mqtt_name c.product_key c.device_name st.registry) [
      | none ↦ none
      | some d ↦ if signed hexdigest d c s.password || not st.strict then some d.petkit_id else none
    ]
  ]

  unfoldable pub admitted : Connect → Plugin → Option ℕ
  unfolding identified
  admitted s st = if not st.has_registry then none else identified s st

  -- The table after an event: a device that is let in gets its session, one whose own session ends
  -- loses it, and a report or a sweep may take a session away and changes nothing else.
  abbrev pub After : Event → Plugin → (ℕ → Option ℕ) → (ℕ → Option ℕ) → ℕ → Type 0
  After (connect now s) st old new i =
      new i
      ≡ (elim (admitted s st) [ none ↦ old i | some j ↦ if j == i then some s.session else old i ])
  After (connected accepts c) st old new i = new i ≡ old i
  After (packet now s topics) st old new i = new i ≡ old i
  After (ended c s) st old new i = new i ≡ (elim (device_for_client c st) [
    | none ↦ old i
    | some d ↦ if d.petkit_id == i && not (superseded s (old i)) then none else old i
  ])
  After (polled j now raw) st old new i = (new i ≡ old i) ⊎ ((new i ≡ none) × (j ≡ i))
  After (swept now timeout) st old new i = (new i ≡ old i) ⊎ (new i ≡ none)
