-- ===== src/Session/Link/Refines.antt =====
-- Each event does to the plugin's table of links what the abstract table says.
use containers_nix.Prelude.{
  ℕ, ◌≡◌, refl, ap, ◌∙◌, ◌⊎◌, inl, inr, Bool, true, false, ◌&&◌, ◌||◌, not, Option, none, some,
  List, ◌-◌, ltb, ◌==◌, map, if◌then◌else◌, arith, Bool-cases, Option-cases, ==_iff,
}
use containers_nix.Codec.{Text}
use containers_nix.Mqtt.Client.{parse_client_id}
use containers_nix.Session.{
  to_bool, iot_status_grace, Device, Plugin, Connect, Digest, by_mqtt_name, change, live_of,
  pop_live, connected_now, mark_mqtt_connected, signed, authenticate, identify, admit, end_session,
  device_for_client, off_mqtt, superseded, on_broker_client_disconnected, note_subscriptions,
  server_subscribe, on_broker_client_connected, owner_of, on_mqtt_packet_received, note_iot_status,
  device_is_stale, watch,
}
use containers_nix.Session.Link.{
  Keyed, Event, connect, connected, packet, ended, polled, swept, by_id, link, step, admitted,
  identified, After,
}
use containers_nix.Session.Link.Table.{
  by_id-change, by_id-map, live_of-set_live, live_of-pop_live, by_mqtt_name-by_id, link-change,
}

-- A device that is in the registry is linked over the session that it has just opened.
link-mark :
    (now s i : ℕ) (d : Device) (st : Plugin)
    → by_id d.petkit_id st.registry ≡ some d
    → link (mark_mqtt_connected now d s st) i ≡ (if d.petkit_id == i then some s else link st i)
unfolding link mark_mqtt_connected
link-mark now s i d st h = ground (
  arith,
  by_id-change (connected_now now) (λ x. refl) i d.petkit_id st.registry,
  live_of-set_live i d.petkit_id s st.live_sessions,
  h,
)

abbrev pub torn : Plugin → Device → Plugin
torn st d = record st {
  live_sessions = pop_live d.petkit_id st.live_sessions;
  registry = change d.petkit_id off_mqtt st.registry;
}

torn-link :
    (st : Plugin) (i : ℕ) (d : Device)
    → by_id d.petkit_id st.registry ≡ some d
    → link (torn st d) i ≡ (if d.petkit_id == i then none else link st i)
unfolding link
torn-link st i d k = ground (
  arith,
  by_id-change off_mqtt (λ x. refl) i d.petkit_id st.registry,
  live_of-pop_live i d.petkit_id st.live_sessions,
  k,
)

-- The device is off already, or a later session has replaced the one that ends, or the link goes down.
pub end_session-cases :
    (s : Option ℕ) (st : Plugin) (d : Device)
    → ((d.mqtt_connected ≡ false) × (end_session s st d ≡ st))
      ⊎ (((d.mqtt_connected ≡ true)
            × (superseded s (live_of d.petkit_id st.live_sessions) ≡ true)
            × (end_session s st d ≡ st))
          ⊎ ((d.mqtt_connected ≡ true)
              × (superseded s (live_of d.petkit_id st.live_sessions) ≡ false)
              × (end_session s st d ≡ torn st d)))
unfolding end_session
end_session-cases s st d =
    let late = superseded s (live_of d.petkit_id st.live_sessions) in
    let kept = λ (c : Bool). if c then st else torn st d in
    elim (Bool-cases d.mqtt_connected) [
      | inr n ↦ inl (n, ap (λ (b : Bool). if not b then st else kept late) n)
      | inl y ↦
          let open_up : end_session s st d ≡ kept late =
            ap (λ (b : Bool). if not b then st else kept late) y in
          elim (Bool-cases late) [
            | inl b ↦ inr (inl (y, b, open_up ∙ ap kept b))
            | inr b ↦ inr (inr (y, b, open_up ∙ ap kept b))
          ]
    ]

-- The link of a device that the registry finds by its id.
pub link-found :
    (st : Plugin) (i : ℕ) (d : Device)
    → by_id i st.registry ≡ some d
    → link st i ≡ (if d.mqtt_connected then live_of i st.live_sessions else none)
unfolding link
link-found st i d k = rw k

superseded_none :
    (s : Option ℕ) → ◌≡◌ {A = Option ℕ} none (if not (superseded s none) then none else none)
superseded_none none = refl
superseded_none (some s) = refl

-- What `end_session` leaves of the link of the device itself.
end_session-own :
    (s : Option ℕ) (st : Plugin) (d : Device)
    → by_id d.petkit_id st.registry ≡ some d
    → link (end_session s st d) d.petkit_id
      ≡ (if not (superseded s (link st d.petkit_id)) then none else link st d.petkit_id)
end_session-own s st d k =
    let found = link-found st d.petkit_id d k in
    elim (end_session-cases s st d) [
      | inl (n, e) ↦
          let down : link st d.petkit_id ≡ none =
            found ∙ ap (λ (b : Bool). if b then live_of d.petkit_id st.live_sessions else none) n in
          rw (e, down) (superseded_none s)
      | inr (inl (y, b, e)) ↦
          let up : link st d.petkit_id ≡ live_of d.petkit_id st.live_sessions =
            found ∙ ap (λ (b : Bool). if b then live_of d.petkit_id st.live_sessions else none) y in
          rw (e, up, b)
      | inr (inr (y, b, e)) ↦
          let up : link st d.petkit_id ≡ live_of d.petkit_id st.live_sessions =
            found ∙ ap (λ (b : Bool). if b then live_of d.petkit_id st.live_sessions else none) y in
          rw (e, torn-link st d.petkit_id d k, up, b) (ground arith)
    ]

end_session-other :
    (s : Option ℕ) (st : Plugin) (i : ℕ) (d : Device)
    → by_id d.petkit_id st.registry ≡ some d
    → (d.petkit_id == i) ≡ false
    → link (end_session s st d) i ≡ link st i
end_session-other s st i d k n = elim (end_session-cases s st d) [
  | inl (_, e) ↦ rw e
  | inr (inl (_, _, e)) ↦ rw e
  | inr (inr (_, _, e)) ↦ rw (e, torn-link st i d k, n)
]

end_session-link :
    (s : Option ℕ) (st : Plugin) (i : ℕ) (d : Device)
    → by_id d.petkit_id st.registry ≡ some d
    → link (end_session s st d) i
      ≡ (if d.petkit_id == i && not (superseded s (link st i)) then none else link st i)
end_session-link s st i d k = elim (Bool-cases (d.petkit_id == i)) [
  | inr n ↦ rw n (end_session-other s st i d k n)
  | inl y ↦ let same = (==_iff d.petkit_id i).0 y in rw y (rw (← same) (end_session-own s st d k))
]

-- A poll's report, and a sweep, of one device.
pub note_iot_status-id :
    (now : ℕ) (raw : Option Text) (d : Device) → (note_iot_status now raw d).petkit_id ≡ d.petkit_id
unfolding note_iot_status
note_iot_status-id now none d = refl
note_iot_status-id now (some raw) d = ground arith

pub watch-id : (now t : ℕ) (d : Device) → (watch now t d).petkit_id ≡ d.petkit_id
unfolding watch
watch-id now t d = ground arith

-- Whichever of two values the rest is, the test adds only the first.
else_either :
    (b : Bool) (x y z : Device)
    → (y ≡ x) ⊎ (y ≡ z)
    → ((if b then x else y) ≡ x) ⊎ ((if b then x else y) ≡ z)
else_either true x y z h = inl refl
else_either false x y z h = h

note_iot_status-cases :
    (now : ℕ) (raw : Option Text) (d : Device)
    → (note_iot_status now raw d ≡ d) ⊎ (note_iot_status now raw d ≡ off_mqtt d)
unfolding note_iot_status
note_iot_status-cases now none d = inl refl
note_iot_status-cases now (some raw) d = else_either (not d.mqtt_connected) d _ (off_mqtt d) (
    else_either (to_bool raw true) d _ (off_mqtt d) (
      else_either (ltb (now - d.mqtt_connected_at) iot_status_grace) d (off_mqtt d) (off_mqtt d)
        (inr refl)))

abbrev offline : Device → Device
offline d = record d { online = false; mqtt_connected = false }

watch-cases : (now t : ℕ) (d : Device) → (watch now t d ≡ offline d) ⊎ (watch now t d ≡ d)
unfolding watch
watch-cases now t d = elim (Bool-cases (d.online && device_is_stale d now t)) [
  | inl b ↦ inl (ap (λ (c : Bool). if c then offline d else d) b)
  | inr b ↦ inr (ap (λ (c : Bool). if c then offline d else d) b)
]

polled-link :
    (j now i : ℕ) (raw : Option Text) (st : Plugin)
    → (link (record st { registry = change j (note_iot_status now raw) st.registry }) i ≡ link st i)
      ⊎ ((link (record st { registry = change j (note_iot_status now raw) st.registry }) i ≡ none)
          × (j ≡ i))
unfolding link
polled-link j now i raw st =
    let changed =
      by_id-change (note_iot_status now raw) (note_iot_status-id now raw) i j st.registry in
    elim (Bool-cases (j == i)) [
      | inr n ↦ inl (rw (changed, n))
      | inl y ↦ elim (Option-cases (by_id i st.registry)) [
        | inl e ↦ inl (rw (changed, y, e))
        | inr (d, e) ↦ elim (note_iot_status-cases now raw d) [
          | inl q ↦ inl (rw (changed, y, e, q))
          | inr q ↦ inr (rw (changed, y, e, q), (==_iff j i).0 y)
        ]
      ]
    ]

swept-link :
    (now t i : ℕ) (st : Plugin)
    → (link (record st { registry = map (watch now t) st.registry }) i ≡ link st i)
      ⊎ (link (record st { registry = map (watch now t) st.registry }) i ≡ none)
unfolding link
swept-link now t i st =
    let changed = by_id-map (watch now t) (watch-id now t) i st.registry in
    elim (Option-cases (by_id i st.registry)) [
      | inl e ↦ inl (rw (changed, e))
      | inr (d, e) ↦ elim (watch-cases now t d) [
        | inl q ↦ inr (rw (changed, e, q))
        | inr q ↦ inl (rw (changed, e, q))
      ]
    ]

if_not-some :
    (b : Bool) (x : Option Device) (d : Device) → (if not b then none else x) ≡ some d → x ≡ some d
if_not-some false x d h = cc
if_not-some true x d h = h

device_for_client-by_id :
    (c : Text) (st : Plugin) (d : Device)
    → Keyed st.registry
    → device_for_client c st ≡ some d
    → by_id d.petkit_id st.registry ≡ some d
unfolding device_for_client
device_for_client-by_id c st d u h = elim (Option-cases (parse_client_id c)) [
  | inl e ↦ absurd (ground (arith, if_not-some st.has_registry _ d h, e))
  | inr (p, e) ↦
      by_mqtt_name-by_id p.product_key p.device_name st.registry d u
        (rw e at (if_not-some st.has_registry _ d h))
]

ended-link :
    (c : Text) (s : Option ℕ) (st : Plugin) (i : ℕ)
    → Keyed st.registry
    → link (on_broker_client_disconnected c s st) i ≡ (elim (device_for_client c st) [
      | none ↦ link st i
      | some d ↦ if d.petkit_id == i && not (superseded s (link st i)) then none else link st i
    ])
unfolding on_broker_client_disconnected
ended-link c s st i u = elim (Option-cases (device_for_client c st)) [
  | inl e ↦ rw (e, on_broker_client_disconnected)
  | inr (d, e) ↦
      rw (e, on_broker_client_disconnected)
        (end_session-link s st i d (device_for_client-by_id c st d u e))
]

connected-link :
    (accepts : Text → Bool) (c : Text) (st : Plugin) (i : ℕ)
    → link (on_broker_client_connected accepts c st) i ≡ link st i
unfolding on_broker_client_connected
connected-link accepts c st i = elim (Option-cases (device_for_client c st)) [
  | inl e ↦ rw (e, on_broker_client_connected)
  | inr (d, e) ↦
      rw (e, on_broker_client_connected)
        (link-change (server_subscribe accepts) d.petkit_id i st (λ x. refl) (λ x. refl))
]

packet-link :
    (now s : ℕ) (topics : List Text) (st : Plugin) (i : ℕ)
    → link (on_mqtt_packet_received now s topics st) i ≡ link st i
unfolding on_mqtt_packet_received
packet-link now s topics st i = elim (Option-cases (owner_of s st.live_sessions)) [
  | inl e ↦ rw (e, on_mqtt_packet_received)
  | inr (j, e) ↦
      rw (e, on_mqtt_packet_received)
        (elim st.has_registry
          as (λ b.
            link
              (if not b then st else record st {
                registry =
                    change j (λ d. note_subscriptions topics (record d { last_mqtt = now }))
                      st.registry;
              })
              i
            ≡ link st i) [
              | false ↦ refl
              | true ↦
                  link-change (λ d. note_subscriptions topics (record d { last_mqtt = now })) j i st
                    (λ x. refl) (λ x. refl)
            ])
]

module _ (hexdigest : Digest → Text → Text → Text) where
  identify-link :
      (now : ℕ) (s : Connect) (st : Plugin) (i : ℕ)
      → Keyed st.registry
      → link (identify hexdigest now s st).1 i ≡ (elim (identified hexdigest s st) [
        | none ↦ link st i
        | some j ↦ if j == i then some s.session else link st i
      ])
  unfolding identify identified admit
  identify-link now s st i u = elim (Option-cases (parse_client_id s.client_id)) [
    | inl e ↦ rw (e, identify, identified)
    | inr (c, e) ↦ elim (Option-cases (by_mqtt_name c.product_key c.device_name st.registry)) [
      | inl q ↦ rw (e, q, identify, identified)
      | inr (d, q) ↦ elim (Bool-cases (signed hexdigest d c s.password || not st.strict)) [
        | inl b ↦
            let k = by_mqtt_name-by_id c.product_key c.device_name st.registry d u q in
            rw (e, q, b, identify, identified, admit) (link-mark now s.session i d st k)
        | inr b ↦ rw (e, q, b, identify, identified, admit)
      ]
    ]
  ]

  pub After-step :
      (e : Event) (st : Plugin) (i : ℕ)
      → Keyed st.registry
      → After hexdigest e st (link st) (link (step hexdigest e st)) i
  unfolding step authenticate admitted
  After-step (connect now s) st i u = ground (arith, identify-link now s st i u)
  After-step (connected accepts c) st i u = connected-link accepts c st i
  After-step (packet now s topics) st i u = packet-link now s topics st i
  After-step (ended c s) st i u = ended-link c s st i u
  After-step (polled j now raw) st i u = polled-link j now i raw st
  After-step (swept now t) st i u = swept-link now t i st
