-- ===== src/Redact/Rules.antt =====
-- `http/redact/rules.py`: what the rules that rewrite an object match and what they substitute.
use containers_nix.Prelude.{
  ℕ, Bool, false, ◌&&◌, ◌||◌, not, Option, none, some, List, [], ◌∷◌, ◌++◌, String, if◌then◌else◌,
}
use containers_nix.Prelude.Int.{pos}
use containers_nix.Codec.{Text, codes}
use containers_nix.Value.{
  Value, null, int, str, obj, arr, Fields, field, end, cons, nil, field_of, equals_int, truthy,
  with_field, or_else,
}
use containers_nix.Value.Equal.{text_eq}
use containers_nix.Value.Equal.{same}
use containers_nix.Redact.Model.{
  Step, key, secret, server, mqtt, oss_sts, locale, Out, Ours, Policy,
}
unfoldable pub use containers_nix.Redact.Blocking.{
  has, has_any, note, fields_of, run_cmd_of, or_user_cmd, match_rce, is_http_url, ends_with_any,
  ota_suffixes, before_char, looks_like_firmware, ota_explicit_keys, ota_url_keys, ota_sibling_keys,
  first_key, ota_key, match_ota_shape,
}

-- A rewriting that needs something, the device say, and changes nothing without it.
abbrev pub on_some {ℓ} : {A : Type ℓ} → Option A → Fields × Out → (A → Fields × Out) → Fields × Out
on_some none unchanged rule = unchanged
on_some (some a) unchanged rule = rule a

-- `patched[k] = v` for a key that is there already, with the old value kept in `original`.
abbrev pub replace : String → Value → Fields × Fields → Fields × Fields
replace k v (patched, original) =
    if has k patched
    then (with_field k v patched, with_field k (or_else null (field_of k patched)) original)
    else (patched, original)

-- The loop over the values of ours.
abbrev pub replace_all : List (String × Value) → Fields × Fields → Fields × Fields
replace_all [] both = both
replace_all ((k, v) ∷ rest) both = replace_all rest (replace k v both)

abbrev pub server_keys : List String
server_keys = "apiServers" ∷ "ipServers" ∷ "dns" ∷ []

-- The three of `to_serverinfo(…)["result"]` that the rule names.
abbrev pub our_servers : Policy → List (String × Value)
our_servers policy =
    ("apiServers", arr (cons (str policy.api_url) nil))
    ∷ ("ipServers", arr nil)
    ∷ ("dns", str [])
    ∷ []

unfoldable pub match_server : Fields → List Step → Policy → Out → Fields × Out
unfolding has with_field field_of
match_server node path policy out =
    on_some policy.device (node, out)
      (λ device.
        if not (has_any server_keys node)
        then (node, out)
        else let (patched, original) = replace "dns" (str []) (
            replace "ipServers" (arr nil)
              (replace "apiServers" (arr (cons (str policy.api_url) nil)) (node, end))) in
          (patched, note server path (obj original) out))

-- One value of `found`, merged into what was captured before.
abbrev pub capture_field : String → Option Value → Fields → Fields
capture_field name found captured =
    let value = or_else (str []) found in
    if truthy value || not (has name captured) then with_field name value captured else captured

abbrev pub capture_mqtt : Fields → Fields → Fields
capture_mqtt node captured = capture_field "iot_instance_id" (field_of "iotInstanceId" node) (
    capture_field "region_id" (field_of "regionId" node) (
      capture_field "device_secret" (field_of "deviceSecret" node) (
        capture_field "device_name" (field_of "deviceName" node) (
          capture_field "product_key" (field_of "productKey" node)
            (capture_field "mqtt_host" (field_of "mqttHost" node) captured)))))

abbrev pub any_found : Fields → Bool
any_found node =
    truthy (or_else (str []) (field_of "mqttHost" node))
    || truthy (or_else (str []) (field_of "productKey" node))
    || truthy (or_else (str []) (field_of "deviceName" node))
    || truthy (or_else (str []) (field_of "deviceSecret" node))
    || truthy (or_else (str []) (field_of "regionId" node))
    || truthy (or_else (str []) (field_of "iotInstanceId" node))

abbrev pub our_broker : Ours → List (String × Value)
our_broker device =
    ("mqttHost", str device.mqtt_host)
    ∷ ("productKey", str device.mqtt_product_key)
    ∷ ("deviceName", str device.mqtt_device_name)
    ∷ ("deviceSecret", str device.mqtt_device_secret)
    ∷ ("iotInstanceId", str device.mqtt_product_key)
    ∷ []

unfoldable pub match_mqtt : Fields → List Step → Policy → Out → Fields × Out
unfolding has with_field field_of truthy
match_mqtt node path policy out =
    on_some policy.device (node, out)
      (λ device.
        if not (has "mqttHost" node)
          && not (has "productKey" node && has "deviceName" node && has "deviceSecret" node)
        then (node, out)
        else let learned =
            if any_found node
            then record out { captured_mqtt = capture_mqtt node out.captured_mqtt }
            else out in
          let (patched, original) = replace "iotInstanceId" (str device.mqtt_product_key) (
            replace "deviceSecret" (str device.mqtt_device_secret) (
              replace "deviceName" (str device.mqtt_device_name) (
                replace "productKey" (str device.mqtt_product_key)
                  (replace "mqttHost" (str device.mqtt_host) (node, end))))) in
          (patched, note mqtt path (obj original) learned))

-- The first item of a list, where it is an object.
abbrev pub sample_of : Option Value → Option Fields
sample_of (some (arr (cons (obj fs) rest))) = some fs
sample_of _ = none

unfoldable pub match_oss_sts : Fields → List Step → Policy → Out → Fields × Out
unfolding has with_field field_of
match_oss_sts node path policy out =
    on_some policy.device (node, out)
      (λ device.
        on_some (sample_of (field_of "capability" node)) (node, out)
          (λ sample.
            if not (has "cycleType" sample || has "primaryParUrl" sample)
            then (node, out)
            else let learned = record out { captured_oss_sts = field_of "capability" node } in
              if policy.media_to_real_oss then (node, learned) else (
                with_field "type" (str (codes "oci"))
                    (with_field "capability" (arr device.capability) node),
                note oss_sts (path ++ key "capability" ∷ [])
                    (or_else null (field_of "capability" node)) learned,
              )))

-- A window of ours in place of the one at `k`, where theirs has the key `mark` and ours is something.
abbrev pub our_window :
    String → String → Option Fields → Option Value → List Step → Fields × Out → Fields × Out
our_window k mark none ours path (node, out) = (node, out)
our_window k mark (some theirs) none path (node, out) = (node, out)
our_window k mark (some theirs) (some ours) path (node, out) =
    if has mark theirs && truthy ours
    then (
      with_field k ours node,
      note oss_sts (path ++ key k ∷ []) (or_else null (field_of k node)) out,
    )
    else (node, out)

unfoldable pub match_cvr_capacity : Fields → List Step → Policy → Out → Fields × Out
unfolding has with_field field_of truthy
match_cvr_capacity node path policy out =
    on_some policy.device (node, out)
      (λ device.
        if not device.is_camera || not policy.local_cvr_window
        then (node, out)
        else our_window "cloudProduct" "workIndate" (fields_of (field_of "cloudProduct" node))
            device.cloud_product path
            (our_window "capacity" "indate" (sample_of (field_of "capacity" node)) device.capacity
              path (node, out)))

abbrev pub is_text : Option Value → Option Text
is_text (some (str s)) = some s
is_text _ = none

abbrev pub is_number : Option Value → ℕ → Bool
is_number none n = false
is_number (some v) n = equals_int v n

abbrev pub is_serial : Option Value → Text → Bool
is_serial (some (str s)) serial = text_eq s serial
is_serial _ serial = false

-- An object about our device.
unfoldable pub about_us : Fields → Ours → Bool
unfolding has field_of equals_int text_eq
about_us node device =
    has "signupAt" node
    || is_number (field_of "id" node) device.petkit_id
    || (not (text_eq device.serial_number [])
        && is_serial (field_of "sn" node) device.serial_number)

unfoldable pub match_secret : Fields → List Step → Policy → Out → Fields × Out
unfolding about_us has with_field field_of equals_int
match_secret node path policy out =
    on_some policy.device (node, out)
      (λ device.
        on_some (is_text (field_of "secret" node)) (node, out)
          (λ api_secret.
            if not (about_us node device)
            then (node, out)
            else let learned = record out { captured_api_secret = some api_secret } in
              if has "id" node && not (is_number (field_of "id" node) device.petkit_id)
              then (
                with_field "id" (int (pos device.petkit_id)) node,
                note secret path (obj (field "id" (or_else null (field_of "id" node)) end)) learned,
              )
              else (node, learned)))

-- One key of the locale rule.
abbrev pub keep_ours : String → Value → List Step → Option Value → Fields × Out → Fields × Out
keep_ours k ours path none (node, out) = (node, out)
keep_ours k ours path (some theirs) (node, out) =
    if same theirs ours
    then (node, out)
    else (with_field k ours node, note locale (path ++ key k ∷ []) theirs out)

unfoldable pub match_locale : Fields → List Step → Policy → Out → Fields × Out
unfolding about_us with_field field_of same
match_locale node path policy out =
    on_some policy.device (node, out)
      (λ device.
        if not (about_us node device)
        then (node, out)
        else keep_ours "locale" device.locale path (field_of "locale" node) (
            keep_ours "timezone" device.timezone_offset path (field_of "timezone" node)
              (node, out)))
