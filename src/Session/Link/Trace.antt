-- ===== src/Session/Link/Trace.antt =====
-- Sequences of events on the plugin of `mqtt/auth.py`: a take-over of one session by another.
use containers_nix.Prelude.{
  ℕ, ◌≡◌, refl, ◌∙◌, ◌≢◌, inl, inr, Bool, true, false, ◌||◌, not, Option, none, some, List, ◌==◌,
  if◌then◌else◌, arith, Bool-cases, Option-cases,
}
use containers_nix.Codec.{Text}
use containers_nix.Mqtt.Client.{ClientId, parse_client_id}
use containers_nix.Session.{
  Device, Plugin, Connect, Digest, by_mqtt_name, change, connected_now, mark_mqtt_connected, signed,
  authenticate, identify, admit, device_for_client, off_mqtt, on_broker_client_disconnected,
  note_subscriptions, server_subscribe, on_broker_client_connected, owner_of,
  on_mqtt_packet_received, note_iot_status, watch,
}
use containers_nix.Session.Link.{
  Keyed, Event, connect, connected, packet, ended, polled, swept, link, step, admitted, After,
}
use containers_nix.Session.Link.Table.{change-map, Keyed-map}
use containers_nix.Session.Link.Refines.{
  note_iot_status-id, watch-id, After-step, end_session-cases,
}

Keyed-change :
    (j : ℕ) (f : Device → Device)
    → ((d : Device) → (f d).petkit_id ≡ d.petkit_id)
    → (ds : List Device) → Keyed ds
    → Keyed (change j f ds)
Keyed-change j f keeps ds u =
    rw (change-map j f ds)
      (Keyed-map (λ d. if d.petkit_id == j then f d else d) (λ d. ground (arith, keeps d)) ds u)

if-Keyed :
    (b : Bool) (st st' : Plugin)
    → Keyed st.registry
    → Keyed st'.registry
    → Keyed (if b then st else st').registry
if-Keyed true st st' u v = u
if-Keyed false st st' u v = v

ended-Keyed :
    (c : Text) (s : Option ℕ) (st : Plugin)
    → Keyed st.registry
    → Keyed (on_broker_client_disconnected c s st).registry
unfolding on_broker_client_disconnected
ended-Keyed c s st u = elim (Option-cases (device_for_client c st)) [
  | inl e ↦ rw (e, on_broker_client_disconnected) u
  | inr (d, e) ↦
      rw (e, on_broker_client_disconnected)
        (elim (end_session-cases s st d) [
          | inl (_, q) ↦ rw q u
          | inr (inl (_, _, q)) ↦ rw q u
          | inr (inr (_, _, q)) ↦ rw q (Keyed-change d.petkit_id off_mqtt (λ x. refl) st.registry u)
        ])
]

connected-Keyed :
    (accepts : Text → Bool) (c : Text) (st : Plugin)
    → Keyed st.registry
    → Keyed (on_broker_client_connected accepts c st).registry
unfolding on_broker_client_connected
connected-Keyed accepts c st u = elim (Option-cases (device_for_client c st)) [
  | inl e ↦ rw (e, on_broker_client_connected) u
  | inr (d, e) ↦
      rw (e, on_broker_client_connected)
        (Keyed-change d.petkit_id (server_subscribe accepts) (λ x. refl) st.registry u)
]

packet-Keyed :
    (now s : ℕ) (topics : List Text) (st : Plugin)
    → Keyed st.registry
    → Keyed (on_mqtt_packet_received now s topics st).registry
unfolding on_mqtt_packet_received
packet-Keyed now s topics st u = elim (Option-cases (owner_of s st.live_sessions)) [
  | inl e ↦ rw (e, on_mqtt_packet_received) u
  | inr (j, e) ↦
      rw (e, on_mqtt_packet_received)
        (if-Keyed (not st.has_registry) st _ u (
          Keyed-change j (λ d. note_subscriptions topics (record d { last_mqtt = now })) (λ x. refl)
            st.registry u))
]

module _ (hexdigest : Digest → Text → Text → Text) where
  admit-Keyed :
      (now : ℕ) (s : Connect) (st : Plugin) (c : ClientId) (d : Device)
      → Keyed st.registry
      → Keyed (admit hexdigest now s st c d).1.registry
  unfolding admit mark_mqtt_connected
  admit-Keyed now s st c d u =
      elim (Bool-cases (signed hexdigest d c s.password || not st.strict)) [
        | inl b ↦
            rw (b, admit) (Keyed-change d.petkit_id (connected_now now) (λ x. refl) st.registry u)
        | inr b ↦ rw (b, admit) u
      ]

  identify-Keyed :
      (now : ℕ) (s : Connect) (st : Plugin)
      → Keyed st.registry
      → Keyed (identify hexdigest now s st).1.registry
  unfolding identify
  identify-Keyed now s st u = elim (Option-cases (parse_client_id s.client_id)) [
    | inl e ↦ rw (e, identify) u
    | inr (c, e) ↦ elim (Option-cases (by_mqtt_name c.product_key c.device_name st.registry)) [
      | inl q ↦ rw (e, q, identify) u
      | inr (d, q) ↦ rw (e, q, identify) (admit-Keyed now s st c d u)
    ]
  ]

  authenticate-Keyed :
      (now : ℕ) (s : Connect) (st : Plugin)
      → Keyed st.registry
      → Keyed (authenticate hexdigest now s st).1.registry
  unfolding authenticate
  authenticate-Keyed now s st u =
      elim st.has_registry
        as (λ b. Keyed (if not b then (true, st) else identify hexdigest now s st).1.registry) [
          | false ↦ u
          | true ↦ identify-Keyed now s st u
        ]

  step-Keyed : (e : Event) (st : Plugin) → Keyed st.registry → Keyed (step hexdigest e st).registry
  unfolding step
  step-Keyed (connect now s) st u = authenticate-Keyed now s st u
  step-Keyed (connected accepts c) st u = connected-Keyed accepts c st u
  step-Keyed (packet now s topics) st u = packet-Keyed now s topics st u
  step-Keyed (ended c s) st u = ended-Keyed c s st u
  step-Keyed (polled j now raw) st u =
      Keyed-change j (note_iot_status now raw) (note_iot_status-id now raw) st.registry u
  step-Keyed (swept now t) st u = Keyed-map (watch now t) (watch-id now t) st.registry u

  -- Every event moves the session that each device is reachable over as the abstract table does: a
  -- CONNECT that is let in as a device gives that device its session and leaves the others, the end
  -- of a session takes away a device's link unless a later session of it is the one recorded, a
  -- SUBSCRIBE or a packet changes no link, a heartbeat's report may take away the link of its own
  -- device only, and a watchdog's pass never makes a link. Where no two devices share an id, none do
  -- afterwards.
  pub step-After :
      (e : Event) (st : Plugin)
      → Keyed st.registry
      → ((i : ℕ) → After hexdigest e st (link st) (link (step hexdigest e st)) i)
        × Keyed (step hexdigest e st).registry
  step-After e st u = (λ i. After-step hexdigest e st i u, step-Keyed e st u)

  -- A take-over: a device with an id of its own is let in with a session, and a client id names it.
  -- The end of any other session of that client then leaves the link on the new session, and the end
  -- of the new session, or of one that the broker does not name, takes the link away.
  pub takeover :
      (now j old : ℕ) (s : Connect) (st : Plugin) (c : Text) (d : Device)
      → Keyed st.registry
      → admitted hexdigest s st ≡ some j
      → device_for_client c (step hexdigest (connect now s) st) ≡ some d
      → d.petkit_id ≡ j
      → old ≢ s.session
      → let after = step hexdigest (connect now s) st in
        (link after j ≡ some s.session)
        × (link (step hexdigest (ended c (some old)) after) j ≡ some s.session)
        × (link (step hexdigest (ended c (some s.session)) after) j ≡ none)
        × (link (step hexdigest (ended c none) after) j ≡ none)
  takeover now j old s st c d u a k same ne =
      let after = step hexdigest (connect now s) st in
      let v = step-Keyed (connect now s) st u in
      let here : link after j ≡ some s.session =
        After-step hexdigest (connect now s) st j u ∙ rw a (ground arith) in
      (
        here,
        After-step hexdigest (ended c (some old)) after j v
            ∙ rw (k, here) (ground (arith, same, ne)),
        After-step hexdigest (ended c (some s.session)) after j v
            ∙ rw (k, here) (ground (arith, same)),
        After-step hexdigest (ended c none) after j v ∙ rw (k, here) (ground (arith, same)),
      )
