-- ===== src/Session/Tests.antt =====
-- The theorems of the device sessions at concrete inputs.
use containers_nix.Prelude.{ℕ, ◌≡◌, refl, true, false, none, some, [], ◌∷◌, arith}
use containers_nix.Codec.{Text, codes}
use containers_nix.Mqtt.Client.{parse_client_id}
use containers_nix.Session.{
  owner_of, Device, Plugin, Connect, Digest, device_for_client, by_mqtt_name, authenticate, signed,
  mark_mqtt_connected,
}
use containers_nix.Session.Link.{
  packet, swept, connect, ended, link, step, admitted, After, Keyed, by_id,
}
use containers_nix.Session.Link.Trace.{step-After, takeover}
use containers_nix.Session.Alive.{passes, packet-watched}

abbrev no_digest : Digest → Text → Text → Text
no_digest d secret content = codes "00ff"

abbrev camera : Device
camera = record {
  petkit_id = 7;
  mqtt_product_key = codes "pk1";
  mqtt_device_name = codes "dn";
  mqtt_device_secret = codes "s3";
  online = true;
  mqtt_connected = false;
  mqtt_connected_at = 0;
  mqtt_subscriptions = [];
  last_mqtt = 100_000;
  last_heartbeat = 0;
  last_state_report = 0;
  last_seen = 0;
}

abbrev plugin : Plugin
plugin = record {
  has_registry = true;
  registry = camera ∷ [];
  strict = true;
  live_sessions = (7, 1) ∷ [];
}

abbrev camera_id : Text
camera_id = codes "pk1.dn|timestamp=5|"

abbrev arrival : Connect
arrival = record { session = 2; client_id = camera_id; password = codes "00FF" }

plugin-Keyed : Keyed plugin.registry
unfolding by_id
plugin-Keyed = (refl, tt)

step-After_example :
    ((i : ℕ)
      → After no_digest
          (connect 9 arrival)
          plugin
          (link plugin)
          (link (step no_digest (connect 9 arrival) plugin))
          i)
    × Keyed (step no_digest (connect 9 arrival) plugin).registry
step-After_example = step-After no_digest (connect 9 arrival) plugin plugin-Keyed

admitted_here : admitted no_digest arrival plugin ≡ some 7
unfolding admitted parse_client_id by_mqtt_name signed
admitted_here = refl

device_here :
    (d : Device) × (device_for_client camera_id (step no_digest (connect 9 arrival) plugin)
      ≡ some d)
    × (d.petkit_id ≡ 7)
unfolding step device_for_client authenticate parse_client_id by_mqtt_name signed
    mark_mqtt_connected
device_here = (_, refl, refl)

takeover_example :
    (link (step no_digest (connect 9 arrival) plugin) 7 ≡ some 2)
    × (link
          (step no_digest (ended camera_id (some 1)) (step no_digest (connect 9 arrival) plugin))
          7
        ≡ some 2)
    × (link
          (step no_digest (ended camera_id (some 2)) (step no_digest (connect 9 arrival) plugin))
          7
        ≡ none)
    × (link (step no_digest (ended camera_id none) (step no_digest (connect 9 arrival) plugin)) 7
        ≡ none)
takeover_example =
    takeover no_digest 9 7 1 arrival plugin camera_id device_here.0 plugin-Keyed admitted_here
      device_here.1 device_here.2 (omega arith)

-- The camera with its session, after a packet and two passes of the watchdog.
abbrev watched_over : Plugin
watched_over =
    passes no_digest 300 (200_000 ∷ 400_000 ∷ []) (step no_digest (packet 150_000 1 []) plugin)

session_here : owner_of 1 plugin.live_sessions ≡ some 7
unfolding owner_of
session_here = refl

camera_here : by_id 7 plugin.registry ≡ some camera
unfolding by_id
camera_here = refl

packet-watched_example :
    ((x : Device) × (by_id 7 watched_over.registry ≡ some x) × (x.online ≡ true))
    × (link watched_over 7 ≡ link plugin 7)
    × ((x : Device) × (by_id 7 (step no_digest (swept 500_000 300) watched_over).registry ≡ some x)
        × (x.online ≡ false))
    × (link (step no_digest (swept 500_000 300) watched_over) 7 ≡ none)
packet-watched_example =
    packet-watched no_digest 1 7 150_000 300 500_000 [] (200_000 ∷ 400_000 ∷ []) plugin camera refl
      session_here camera_here refl (omega arith) (omega arith) (omega arith, (omega arith, tt))
      (omega arith)
