-- ===== src/Mqtt/Tests.antt =====
-- The theorems of the MQTT part at concrete inputs, and runs of the parser.
use containers_nix.Prelude.{
  ◌&&◌, ◌||◌, ◌≡◌, arith, refl, true, false, none, some, [], ◌∷◌, if◌then◌else◌,
}
use containers_nix.Codec.{Text, codes}
use containers_nix.Mqtt.Pattern.Groups.{ends_with_newline}
use containers_nix.Mqtt.Topics.{
  ParsedTopic, parse_topic, event_post_topic, service_topic, user_get_topic, ota_inform_topic,
  ota_upgrade_topic, event_reply_topic, rewrite_topic, is_server_published, ends_with,
}
use containers_nix.Mqtt.Topics.Parsed.{IsSegment, IsLine, topic, parse-built}
use containers_nix.Mqtt.Topics.Rewrite.{renamed, rewrite_topic-parse}
use containers_nix.Mqtt.Relay.{on_upstream, relayed, taken, is_from_device, is_upgrade}
use containers_nix.Mqtt.Relay.Echo.{on_upstream-taken}
use containers_nix.Mqtt.Relay.Own.{taken-built}
use containers_nix.Mqtt.Links.{Upstream, reconcile, wanted, has_task, is_known}
use containers_nix.Mqtt.Links.Running.{is_running, reconcile-running}
use containers_nix.Mqtt.Client.{ClientId, parse_client_id, build_client_id, param}
use containers_nix.Mqtt.Client.RoundTrip.{parse_client_id-build}

abbrev pk : Text
pk = codes "pk1"

abbrev dn : Text
dn = codes "d_t5_1"

abbrev cloud_pk : Text
cloud_pk = codes "a1b2"

abbrev cloud_dn : Text
cloud_dn = codes "d9"

abbrev get : Text
get = codes "property/get_reply"

pk-IsSegment : IsSegment pk
pk-IsSegment = (λ e. cc, ground arith)

dn-IsSegment : IsSegment dn
dn-IsSegment = (λ e. cc, ground arith)

e-IsSegment : IsSegment (codes "log")
e-IsSegment = (λ e. cc, ground arith)

get-IsLine : IsLine get
get-IsLine = (λ e. cc, ground arith)

parse-built_example :
    (parse_topic (event_post_topic pk dn (codes "log")) ≡ some (topic pk dn "event" (codes "log")))
    × (parse_topic (service_topic pk dn get) ≡ some (topic pk dn "service" get))
    × (parse_topic (user_get_topic pk dn) ≡ some (topic pk dn "user_get" (codes "get")))
    × (parse_topic (ota_inform_topic pk dn) ≡ some (topic pk dn "ota" (codes "inform")))
    × (parse_topic (ota_upgrade_topic pk dn) ≡ some (topic pk dn "ota" (codes "upgrade")))
parse-built_example =
    parse-built pk dn pk-IsSegment dn-IsSegment (codes "log") get e-IsSegment get-IsLine

event_here :
    parse_topic (event_post_topic pk dn (codes "log")) ≡ some (topic pk dn "event" (codes "log"))
unfolding parse_topic event_post_topic
event_here = refl

not_newline_end : ends_with_newline (event_post_topic pk dn (codes "log")) ≡ false
unfolding event_post_topic
not_newline_end = refl

rewrite_topic-parse_example :
    (t' : Text) × (rewrite_topic (event_post_topic pk dn (codes "log")) cloud_pk cloud_dn ≡ some t')
    × (parse_topic t' ≡ some (topic cloud_pk cloud_dn "event" (codes "log")))
    × (rewrite_topic t' pk dn ≡ some (event_post_topic pk dn (codes "log")))
rewrite_topic-parse_example =
    rewrite_topic-parse (event_post_topic pk dn (codes "log")) cloud_pk cloud_dn
      (topic pk dn "event" (codes "log")) (λ e. cc, ground arith) (λ e. cc, ground arith) event_here
      not_newline_end

relayed_here :
    on_upstream pk dn (service_topic cloud_pk cloud_dn (codes "property/set"))
    ≡ relayed (service_topic pk dn (codes "property/set"))
unfolding on_upstream parse_topic service_topic is_server_published ends_with rewrite_topic
relayed_here = refl

on_upstream-taken_example :
    (taken true (service_topic pk dn (codes "property/set")) ≡ none)
    × (is_from_device (service_topic pk dn (codes "property/set")) ≡ false)
    × ((p : ParsedTopic) × (parse_topic (service_topic cloud_pk cloud_dn (codes "property/set"))
          ≡ some p)
        × (parse_topic (service_topic pk dn (codes "property/set")) ≡ some (renamed pk dn p))
        × (is_server_published p ≡ true)
        × (is_upgrade p ≡ false))
on_upstream-taken_example =
    on_upstream-taken pk dn pk-IsSegment dn-IsSegment
      (service_topic cloud_pk cloud_dn (codes "property/set"))
      (service_topic pk dn (codes "property/set")) true relayed_here

taken-built_example :
    (taken true (event_reply_topic pk dn (codes "log")) ≡ none)
    × (taken true (user_get_topic pk dn) ≡ none)
    × (taken true (event_post_topic pk dn (codes "log")) ≡ some (topic pk dn "event" (codes "log")))
    × (taken true (service_topic pk dn get)
        ≡ (if ends_with (codes "_reply") get then some (topic pk dn "service" get) else none))
    × (taken true (ota_inform_topic pk dn) ≡ some (topic pk dn "ota" (codes "inform")))
taken-built_example =
    taken-built pk dn pk-IsSegment dn-IsSegment true (codes "log") get e-IsSegment get-IsLine

parse_client_id-build_example :
    (c : ClientId) × (parse_client_id (build_client_id pk dn (codes "1700000000000")) ≡ some c)
    × (c.product_key ≡ pk)
    × (c.device_name ≡ dn)
    × (c.timestamp ≡ codes "1700000000000")
    × (param (codes "timestamp") [] c.params ≡ codes "1700000000000")
    × (param (codes "signmethod") [] c.params ≡ codes "hmacsha256")
parse_client_id-build_example =
    parse_client_id-build pk dn (codes "1700000000000") (λ e. cc, ground arith)
      (λ e. cc, ground arith) (ground arith) (ground arith)

-- A client id of a device, which ends in a bar, and one without the parameters.
parses :
    parse_client_id (codes "pk1.d_t5_1|timestamp=5,signmethod=hmacsha1|")
    ≡ some (record {
      product_key = pk;
      device_name = dn;
      timestamp = codes "5";
      params = (codes "timestamp", codes "5") ∷ (codes "signmethod", codes "hmacsha1") ∷ [];
    })
unfolding parse_client_id
parses = refl

no_params : parse_client_id (codes "pk1.d_t5_1") ≡ none
unfolding parse_client_id
no_params = refl

abbrev upstream : Upstream
upstream = record {
  proxy_mode = true;
  proxy_mqtt_bridge = true;
  credentials = 7 ∷ 8 ∷ 9 ∷ [];
  registry = 7 ∷ 9 ∷ [];
  tasks = (7, true) ∷ (5, false) ∷ [];
}

reconcile-running_example : has_task 7 (reconcile upstream).tasks ≡ (
    wanted upstream
    && (is_running 7 upstream.tasks
        || (is_known 7 upstream.credentials && is_known 7 upstream.registry)))
reconcile-running_example = reconcile-running upstream 7

reconciled : (reconcile upstream).tasks ≡ (5, false) ∷ (7, false) ∷ (9, false) ∷ []
unfolding reconcile
reconciled = refl
