-- ===== src/Session/Alive.antt =====
-- When the watchdog of `ha/publisher.py` and the heartbeat's report take a device off, and when not.
use containers_nix.Prelude.{
  refl, sym, none, some, [], ◌∷◌, All, ==_iff, ℕ, ◌+◌, ◌-◌, ◌*◌, ◌≤◌, ◌<◌, ◌≡◌, ap, ◌∙◌, Bool, true,
  false, ◌&&◌, not, List, ◌==◌, max, if◌then◌else◌, arith, ltb, leb,
}
use containers_nix.Codec.{Text}
use containers_nix.Session.{
  Device, Plugin, Digest, device_is_stale, watch, note_subscriptions, owner_of,
  on_mqtt_packet_received, change, live_of,
}
use containers_nix.Session.Link.{by_id, link, step, packet, swept}
use containers_nix.Session.Link.Table.{by_id-change, by_id-map}
use containers_nix.Session.Link.Refines.{watch-id, link-found}

-- The last contact over any channel.
abbrev pub last_contact : Device → ℕ
last_contact d = max (max (max d.last_heartbeat d.last_state_report) d.last_seen) d.last_mqtt

stale_test :
    (last now timeout : ℕ)
    → (if leb last 0 then false else ltb (timeout * 1000) (now - last))
      ≡ (not (last == 0) && ltb (last + timeout * 1000) now)
stale_test last now timeout = ground arith

device_is_stale_lem :
    (d : Device) (now timeout : ℕ)
    → device_is_stale d now timeout
      ≡ (not (last_contact d == 0) && ltb (last_contact d + timeout * 1000) now)
unfolding device_is_stale
device_is_stale_lem d now timeout = stale_test (last_contact d) now timeout

watched : ℕ → ℕ → Device → Bool
watched now timeout d =
    d.online && (not (last_contact d == 0) && ltb (last_contact d + timeout * 1000) now)

watch-if :
    (now timeout : ℕ) (d : Device)
    → watch now timeout d
      ≡ (if watched now timeout d then record d { online = false; mqtt_connected = false } else d)
unfolding watch watched
watch-if now timeout d =
    ap
      (λ (b : Bool).
        if d.online && b then record d { online = false; mqtt_connected = false } else d)
      (device_is_stale_lem d now timeout)

kept :
    (l now t : ℕ) (o : Bool)
    → now ≤ l + t * 1000
    → (o && (not (l == 0) && ltb (l + t * 1000) now)) ≡ false
kept l now t o h = ground arith

due :
    (l now t : ℕ)
    → 0 < l
    → l + t * 1000 < now
    → (true && (not (l == 0) && ltb (l + t * 1000) now)) ≡ true
due l now t h k = ground arith

-- What a packet of its live session leaves of a device.
abbrev heard : ℕ → List Text → Device → Device
heard now topics d = note_subscriptions topics (record d { last_mqtt = now })

abbrev off : Device → Device
off d = record d { online = false; mqtt_connected = false }

last_of : (a b c m h : ℕ) → max (max (max a b) c) m ≤ h → max (max (max a b) c) h ≡ h
last_of a b c m h le = omega (arith, le)

last_contact-heard :
    (now : ℕ) (topics : List Text) (d : Device)
    → last_contact d ≤ now
    → last_contact (heard now topics d) ≡ now
last_contact-heard now topics d le =
    last_of d.last_heartbeat d.last_state_report d.last_seen d.last_mqtt now le

watch-in_time :
    (now timeout at : ℕ) (d : Device)
    → last_contact d ≡ at
    → now ≤ at + timeout * 1000
    → watch now timeout d ≡ d
unfolding watched
watch-in_time now timeout at d e le =
    watch-if now timeout d
    ∙ ap (λ (b : Bool). if b then off d else d)
        (kept (last_contact d) now timeout d.online (omega (arith, e, le)))

watch-late :
    (now timeout at : ℕ) (d : Device)
    → last_contact d ≡ at
    → d.online ≡ true
    → 0 < at
    → at + timeout * 1000 < now
    → watch now timeout d ≡ off d
unfolding watched
watch-late now timeout at d e o p late =
    watch-if now timeout d
    ∙ ap (λ (b : Bool). if b then off d else d)
        (ap
            (λ (b : Bool).
              b && (not (last_contact d == 0) && ltb (last_contact d + timeout * 1000) now))
            o
          ∙ due (last_contact d) now timeout (omega (arith, e, p)) (omega (arith, e, late)))

module _ (hexdigest : Digest → Text → Text → Text) where
  -- Passes of the watchdog at these times, one after the other.
  abbrev pub passes : ℕ → List ℕ → Plugin → Plugin
  passes timeout [] st = st
  passes timeout (now ∷ times) st = passes timeout times (step hexdigest (swept now timeout) st)

  passes-live :
      (timeout : ℕ) (times : List ℕ) (st : Plugin)
      → (passes timeout times st).live_sessions ≡ st.live_sessions
  unfolding step
  passes-live timeout [] st = refl
  passes-live timeout (now ∷ times) st =
      passes-live timeout times (step hexdigest (swept now timeout) st)

  swept-by_id :
      (now timeout i : ℕ) (st : Plugin) (d : Device)
      → by_id i st.registry ≡ some d
      → by_id i (step hexdigest (swept now timeout) st).registry ≡ some (watch now timeout d)
  unfolding step
  swept-by_id now timeout i st d e =
      by_id-map (watch now timeout) (watch-id now timeout) i st.registry ∙ rw e refl

  passes-in_time :
      (timeout at i : ℕ) (times : List ℕ) (st : Plugin) (d : Device)
      → by_id i st.registry ≡ some d
      → last_contact d ≡ at
      → All (λ now. now ≤ at + timeout * 1000) times
      → by_id i (passes timeout times st).registry ≡ some d
  passes-in_time timeout at i [] st d e l h = e
  passes-in_time timeout at i (now ∷ times) st d e l h =
      passes-in_time timeout at i times (step hexdigest (swept now timeout) st) d
        (swept-by_id now timeout i st d e ∙ ap some (watch-in_time now timeout at d l h.0)) l h.1

  heard_at_all : ℕ → List Text → ℕ → Plugin → Plugin
  heard_at_all now topics i st = record st { registry = change i (heard now topics) st.registry }

  packet-heard :
      (now session i : ℕ) (topics : List Text) (st : Plugin)
      → st.has_registry ≡ true
      → owner_of session st.live_sessions ≡ some i
      → step hexdigest (packet now session topics) st ≡ heard_at_all now topics i st
  unfolding step on_mqtt_packet_received heard_at_all
  packet-heard now session i topics st r o =
      rw (o, on_mqtt_packet_received)
        (ap (λ b. if not b then st else heard_at_all now topics i st) r)

  by_id-heard :
      (now i : ℕ) (topics : List Text) (st : Plugin) (d : Device)
      → by_id i st.registry ≡ some d
      → by_id i (heard_at_all now topics i st).registry ≡ some (heard now topics d)
  unfolding heard_at_all
  by_id-heard now i topics st d e =
      by_id-change (heard now topics) (λ x. refl) i i st.registry ∙ rw ((==_iff i i).1 refl, e) refl

  link_of :
      (st st' : Plugin) (i : ℕ) (d d' : Device)
      → by_id i st.registry ≡ some d
      → by_id i st'.registry ≡ some d'
      → st'.live_sessions ≡ st.live_sessions
      → d'.mqtt_connected ≡ d.mqtt_connected
      → link st' i ≡ link st i
  link_of st st' i d d' e e' live same =
      link-found st' i d' e'
      ∙ ap (λ b. if b then live_of i st'.live_sessions else none) same
      ∙ ap (λ l. if d.mqtt_connected then live_of i l else none) live
      ∙ sym (link-found st i d e)

  -- Where the plugin has a registry: a device that is online, and whose live session then sends a
  -- packet, no earlier than its last contact and not at the time 0, stays online, and reachable over
  -- the session it was reachable over, through any passes of the watchdog up to the timeout after the
  -- packet. If nothing more is heard of it, the first pass later than that takes it offline, and it is
  -- reachable over no session.
  pub packet-watched :
      (session i heard_at timeout late : ℕ) (topics : List Text) (times : List ℕ) (st : Plugin)
      (d : Device)
      → st.has_registry ≡ true
      → owner_of session st.live_sessions ≡ some i
      → by_id i st.registry ≡ some d
      → d.online ≡ true
      → last_contact d ≤ heard_at
      → 0 < heard_at
      → All (λ now. now ≤ heard_at + timeout * 1000) times
      → heard_at + timeout * 1000 < late
      → let watched_over =
          passes timeout times (step hexdigest (packet heard_at session topics) st) in
        let after = step hexdigest (swept late timeout) watched_over in
        ((x : Device) × (by_id i watched_over.registry ≡ some x) × (x.online ≡ true))
        × (link watched_over i ≡ link st i)
        × ((x : Device) × (by_id i after.registry ≡ some x) × (x.online ≡ false))
        × (link after i ≡ none)
  unfolding heard_at_all
  packet-watched session i heard_at timeout late topics times st d r o e on le p in_time after_all =
      let x = heard heard_at topics d in
      let sent = step hexdigest (packet heard_at session topics) st in
      let over = passes timeout times sent in
      let same = packet-heard heard_at session i topics st r o in
      let at = last_contact-heard heard_at topics d le in
      let first : by_id i sent.registry ≡ some x =
        ap (λ (s : Plugin). by_id i s.registry) same ∙ by_id-heard heard_at i topics st d e in
      let found : by_id i over.registry ≡ some x =
        passes-in_time timeout heard_at i times sent x first at in_time in
      let live : over.live_sessions ≡ st.live_sessions =
        passes-live timeout times sent ∙ ap (λ (s : Plugin). s.live_sessions) same in
      let gone : by_id i (step hexdigest (swept late timeout) over).registry ≡ some (off x) =
        swept-by_id late timeout i over x found
        ∙ ap some (watch-late late timeout heard_at x at on p after_all) in
      (
        (x, found, on),
        link_of st over i d x e found live refl,
        (off x, gone, refl),
        link-found (step hexdigest (swept late timeout) over) i (off x) gone,
      )
