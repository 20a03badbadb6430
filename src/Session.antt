-- ===== src/Session.antt =====
-- Whether a device is reachable, and over which transport: the authentication plugin of
-- `mqtt/auth.py`, the heartbeat's report of `http/handlers/heartbeat.py` and the availability watchdog
-- of `ha/publisher.py`. Times are counted in milliseconds; a session object is a number.
pub mod Link
pub mod Alive
mod Tests
use containers_nix.Prelude.{
  ℕ, ◌+◌, ◌-◌, ◌*◌, Bool, true, false, ◌&&◌, ◌||◌, not, Option, none, some, List, [], ◌∷◌, ◌++◌,
  ◌==◌, map, select, max, ltb, leb, if◌then◌else◌,
}
use containers_nix.Codec.{Text, codes, strip, lower}
use containers_nix.Mqtt.Client.{ClientId, parse_client_id, param}
use containers_nix.Value.Equal.{text_eq}
use containers_nix.Mqtt.Topics.{downstream_filters}

pub record Device : Type 0 where
  pub petkit_id : ℕ
  pub mqtt_product_key : Text
  pub mqtt_device_name : Text
  pub mqtt_device_secret : Text
  pub online : Bool
  pub mqtt_connected : Bool
  pub mqtt_connected_at : ℕ
  pub mqtt_subscriptions : List Text
  pub last_mqtt : ℕ
  pub last_heartbeat : ℕ
  pub last_state_report : ℕ
  pub last_seen : ℕ

pub record Plugin : Type 0 where
  -- Whether `set_registry` has run.
  pub has_registry : Bool
  pub registry : List Device
  pub strict : Bool
  -- `_live_sessions`
  pub live_sessions : List (ℕ × ℕ)

-- A CONNECT: the session object and what it carries.
pub record Connect : Type 0 where
  pub session : ℕ
  pub client_id : Text
  pub password : Text

-- `DeviceRegistry.by_mqtt_name`
unfoldable pub by_mqtt_name : Text → Text → List Device → Option Device
unfolding text_eq
by_mqtt_name pk dn [] = none
by_mqtt_name pk dn (d ∷ ds) =
    if text_eq d.mqtt_product_key pk && text_eq d.mqtt_device_name dn
    then some d
    else by_mqtt_name pk dn ds

-- The device with this id, changed in place.
unfoldable pub change : ℕ → (Device → Device) → List Device → List Device
change petkit_id f [] = []
change petkit_id f (d ∷ ds) = (if d.petkit_id == petkit_id then f d else d) ∷ change petkit_id f ds

unfoldable pub live_of : ℕ → List (ℕ × ℕ) → Option ℕ
live_of petkit_id [] = none
live_of petkit_id ((i, s) ∷ rest) = if i == petkit_id then some s else live_of petkit_id rest

-- `self._live_sessions[petkit_id] = session`
unfoldable pub set_live : ℕ → ℕ → List (ℕ × ℕ) → List (ℕ × ℕ)
set_live petkit_id s [] = (petkit_id, s) ∷ []
set_live petkit_id s ((i, r) ∷ rest) =
    if i == petkit_id then (petkit_id, s) ∷ rest else (i, r) ∷ set_live petkit_id s rest

-- `self._live_sessions.pop(petkit_id, None)`
unfoldable pub pop_live : ℕ → List (ℕ × ℕ) → List (ℕ × ℕ)
pop_live petkit_id [] = []
pop_live petkit_id ((i, s) ∷ rest) =
    let others = pop_live petkit_id rest in if i == petkit_id then others else (i, s) ∷ others

-- The effect of `_mark_mqtt_connected` on the device, after `device.online = True`.
abbrev pub connected_now : ℕ → Device → Device
connected_now now d = record d {
  online = true;
  mqtt_connected = true;
  mqtt_connected_at = now;
  last_mqtt = now;
  mqtt_subscriptions = [];
}

unfoldable pub mark_mqtt_connected : ℕ → Device → ℕ → Plugin → Plugin
unfolding change set_live
mark_mqtt_connected now device session st = record st {
  registry = change device.petkit_id (connected_now now) st.registry;
  live_sessions = set_live device.petkit_id session st.live_sessions;
}

pub data Digest : Type 0 where
  sha256 : Digest
  sha1 : Digest
  md5 : Digest

abbrev pub digest_of : Text → Digest
digest_of method =
    if text_eq method (codes "hmacsha256")
    then sha256
    else if text_eq method (codes "hmacsha1")
    then sha1
    else if text_eq method (codes "hmacmd5")
    then md5
    else sha256

-- `hmac.new(secret, content, digest).hexdigest()` is a parameter.
module _ (hexdigest : Digest → Text → Text → Text) where
  unfoldable pub compute_aliyun_sign : Text → Text → Text → Text → Text → Text → Text
  unfolding text_eq
  compute_aliyun_sign device_secret client_id_raw device_name product_key timestamp signmethod =
      hexdigest (digest_of (map lower signmethod)) device_secret (
        codes "clientId"
        ++ (client_id_raw
            ++ (codes "deviceName"
                ++ (device_name
                    ++ (codes "productKey" ++ (product_key ++ (codes "timestamp" ++ timestamp)))))))

  -- Whether the password is the one that the device's secret gives.
  unfoldable pub signed : Device → ClientId → Text → Bool
  unfolding compute_aliyun_sign param text_eq
  signed device c password = text_eq (map lower password) (
      map lower (
        compute_aliyun_sign device.mqtt_device_secret
          (c.product_key ++ (codes "." ++ c.device_name)) c.device_name c.product_key c.timestamp
          (param (codes "signmethod") (codes "hmacsha256") c.params)))

  -- The verdict on a device of the registry.
  unfoldable pub admit : ℕ → Connect → Plugin → ClientId → Device → Bool × Plugin
  admit now s st c device =
      if signed device c s.password || not st.strict
      then (true, mark_mqtt_connected now device s.session st)
      else (false, st)

  unfoldable pub identify : ℕ → Connect → Plugin → Bool × Plugin
  identify now s st = elim (parse_client_id s.client_id) [
    | none ↦ (true, st)
    | some c ↦ elim (by_mqtt_name c.product_key c.device_name st.registry) [
      | none ↦ (not st.strict, st)
      | some device ↦ admit now s st c device
    ]
  ]

  unfoldable pub authenticate : ℕ → Connect → Plugin → Bool × Plugin
  unfolding identify admit
  authenticate now s st = if not st.has_registry then (true, st) else identify now s st

-- `_device_for_client`
unfoldable pub device_for_client : Text → Plugin → Option Device
device_for_client client_id st =
    if not st.has_registry then none else elim (parse_client_id client_id) [
      | none ↦ none
      | some c ↦ by_mqtt_name c.product_key c.device_name st.registry
    ]

abbrev pub off_mqtt : Device → Device
off_mqtt d = record d { mqtt_connected = false }

-- A take-over's teardown: a session ends that is not the one last accepted.
abbrev pub superseded : Option ℕ → Option ℕ → Bool
superseded (some s) (some live) = not (live == s)
superseded _ _ = false

unfoldable pub end_session : Option ℕ → Plugin → Device → Plugin
end_session client_session st device =
    if not device.mqtt_connected
    then st
    else if superseded client_session (live_of device.petkit_id st.live_sessions)
    then st
    else record st {
      live_sessions = pop_live device.petkit_id st.live_sessions;
      registry = change device.petkit_id off_mqtt st.registry;
    }

unfoldable pub on_broker_client_disconnected : Text → Option ℕ → Plugin → Plugin
unfolding end_session
on_broker_client_disconnected client_id client_session st = elim (device_for_client client_id st) [
  | none ↦ st
  | some device ↦ end_session client_session st device
]

abbrev pub listed_in : Text → List Text → Bool
listed_in t [] = false
listed_in t (u ∷ us) = text_eq u t || listed_in t us

abbrev pub fresh : List Text → List Text → List Text
fresh filters old = select (λ f. not (listed_in f old)) filters

-- `_note_subscriptions`: what a SUBSCRIBE asks for, or nothing where the packet has no topics.
abbrev pub note_subscriptions : List Text → Device → Device
note_subscriptions filters d = record d {
  mqtt_subscriptions = d.mqtt_subscriptions ++ fresh filters d.mqtt_subscriptions;
}

-- `_server_subscribe`, where the broker takes the filters that pass `accepts`.
abbrev pub server_subscribe : (Text → Bool) → Device → Device
server_subscribe accepts d =
    note_subscriptions (select accepts (downstream_filters d.mqtt_product_key d.mqtt_device_name)) d

-- `on_broker_client_connected`, with the broker supplied and a session
unfoldable pub on_broker_client_connected : (Text → Bool) → Text → Plugin → Plugin
unfolding change
on_broker_client_connected accepts client_id st = elim (device_for_client client_id st) [
  | none ↦ st
  | some device ↦ record st {
    registry = change device.petkit_id (server_subscribe accepts) st.registry;
  }
]

-- The device whose live session this is.
unfoldable pub owner_of : ℕ → List (ℕ × ℕ) → Option ℕ
owner_of session [] = none
owner_of session ((i, s) ∷ rest) = if s == session then some i else owner_of session rest

unfoldable pub on_mqtt_packet_received : ℕ → ℕ → List Text → Plugin → Plugin
unfolding owner_of change
on_mqtt_packet_received now session topics st = elim (owner_of session st.live_sessions) [
  | none ↦ st
  | some petkit_id ↦ if not st.has_registry then st else record st {
    registry =
        change petkit_id (λ d. note_subscriptions topics (record d { last_mqtt = now }))
          st.registry;
  }
]

-- `to_bool` of `utils/coerce.py` for a text
unfoldable pub to_bool : Text → Bool → Bool
unfolding text_eq strip
to_bool value default =
    let text = map lower (strip value) in
    if listed_in text (codes "1" ∷ codes "true" ∷ codes "on" ∷ codes "yes" ∷ [])
    then true
    else if listed_in text (codes "0" ∷ codes "false" ∷ codes "off" ∷ codes "no" ∷ [])
    then false
    else default

abbrev pub iot_status_grace : ℕ
iot_status_grace = 15000

-- `note_iot_status`: the value of `?iotStatus=`, if the request has one.
unfoldable pub note_iot_status : ℕ → Option Text → Device → Device
note_iot_status now none d = d
note_iot_status now (some raw) d =
    if not d.mqtt_connected
    then d
    else if to_bool raw true
    then d
    else if ltb (now - d.mqtt_connected_at) iot_status_grace
    then d
    else off_mqtt d

-- `device_is_stale`, with a timeout in seconds
unfoldable pub device_is_stale : Device → ℕ → ℕ → Bool
device_is_stale d now timeout =
    let last = max (max (max d.last_heartbeat d.last_state_report) d.last_seen) d.last_mqtt in
    if leb last 0 then false else ltb (timeout * 1000) (now - last)

-- One device in one pass of `availability_watchdog`
unfoldable pub watch : ℕ → ℕ → Device → Device
watch now timeout d =
    if d.online && device_is_stale d now timeout
    then record d { online = false; mqtt_connected = false }
    else d
