-- ===== src/Redact/Walker/Address.antt =====
-- The addresses that the walk of `http/redact/walker.py` leaves are ours.
use containers_nix.Prelude.{
  ◌≡◌, refl, sym, subst, ◌∙◌, inl, inr, ◌⊎◌, Bool, true, false, ◌&&◌, not, Option, none, some, List,
  [], ◌∷◌, String, str_eq, All, arith, if◌then◌else◌, Bool-cases,
}
use mathlib.Core.Option.{some-injective}
use text.Mathlib.TextPositions.{eq_refl}
use containers_nix.Value.{Value, str, arr, Fields, field, end, cons, nil, field_of, with_field}
use containers_nix.Redact.Model.{Step, Out, Ours, Policy}
use containers_nix.Redact.Rules.{
  has, has_any, replace, replace_all, server_keys, match_server, match_mqtt, on_some,
}
use containers_nix.Redact.Walker.{rewrite_object, behind_server}
use containers_nix.Redact.Walker.Patched.{
  field_of-with_field, OursAll, behind_broker-keeps, behind_server-keeps,
}

-- Where the object has this key, the value is this one.
abbrev pub Only : String → Value → Fields → Type 0
Only k v fs = (u : Value) → field_of k fs ≡ some u → u ≡ v

has-field_of : (k : String) (fs : Fields) → has k fs ≡ false → field_of k fs ≡ none
unfolding has field_of
has-field_of k end h = refl
has-field_of k (field j v fs) h = ground (arith, h, has-field_of k fs)

absent-Only : (k : String) (v : Value) (fs : Fields) → has k fs ≡ false → Only k v fs
absent-Only k v fs h u e = absurd (ground (arith, has-field_of k fs h, e))

replace-Only : (k : String) (v : Value) (both : Fields × Fields) → Only k v (replace k v both).0
replace-Only k v both = elim (Bool-cases (has k both.0)) [
  | inl y ↦ rw y (λ u e.
      sym (some-injective v u (sym (field_of-with_field k k v both.0 ∙ rw (eq_refl k)) ∙ e)))
  | inr n ↦ rw n (absent-Only k v both.0 n)
]

with_field-Only :
    (k j : String) (v w : Value) (fs : Fields)
    → str_eq j k ≡ false
    → Only k v fs
    → Only k v (with_field j w fs)
with_field-Only k j v w fs n h u e = h u (sym (field_of-with_field k j w fs ∙ rw n) ∙ e)

replace-Only_other :
    (k j : String) (v w : Value) (both : Fields × Fields)
    → str_eq j k ≡ false
    → Only k v both.0
    → Only k v (replace j w both).0
replace-Only_other k j v w both n h = elim (Bool-cases (has j both.0)) [
  | inl y ↦ rw y (with_field-Only k j v w both.0 n h)
  | inr m ↦ rw m h
]

-- What is written elsewhere, or is this value.
abbrev Spares : String → Value → String → Value → Type 0
Spares k v j w = (str_eq j k ≡ false) ⊎ (w ≡ v)

Spares-Only :
    (k : String) (v : Value) (j : String) (w : Value) (fs : Fields)
    → Spares k v j w
    → Only k v fs
    → Only k v (with_field j w fs)
Spares-Only k v j w fs (inl n) h = with_field-Only k j v w fs n h
Spares-Only k v j w fs (inr e) h = elim (Bool-cases (str_eq j k)) [
  | inr n ↦ with_field-Only k j v w fs n h
  | inl y ↦ rw e (λ u q. sym (some-injective v u (sym (field_of-with_field k j v fs ∙ rw y) ∙ q)))
]

replace_all-Only_other :
    (k : String) (v : Value) (kvs : List (String × Value)) (both : Fields × Fields)
    → All (λ kv. str_eq kv.0 k ≡ false) kvs
    → Only k v both.0
    → Only k v (replace_all kvs both).0
replace_all-Only_other k v [] both n h = h
replace_all-Only_other k v ((j, w) ∷ kvs) both n h =
    replace_all-Only_other k v kvs (replace j w both) n.1 (replace-Only_other k j v w both n.0 h)

on_some-holds {ℓ κ} :
    {A : Type κ} (R : Fields → Type ℓ) (o : Option A) (a : A) (unchanged : Fields × Out)
    (rule : A → Fields × Out)
    → o ≡ some a
    → R (rule a).0
    → R (on_some o unchanged rule).0
on_some-holds R none a unchanged rule e h = cc
on_some-holds R (some b) a unchanged rule e h =
    subst (λ x. R (rule x).0) (sym (some-injective b a e)) h

if-holds {ℓ} :
    (R : Fields → Type ℓ) (b : Bool) (x y : Fields × Out)
    → (b ≡ true → R x.0)
    → (b ≡ false → R y.0)
    → R (if b then x else y).0
if-holds R true x y h k = h refl
if-holds R false x y h k = k refl

module _ (policy : Policy) (device : Ours) (known : policy.device ≡ some device) where
  abbrev pub api_servers : Value
  api_servers = arr (cons (str policy.api_url) nil)

  match_server-Only :
      (node : Fields) (path : List Step) (out : Out)
      → Only "apiServers" api_servers (match_server node path policy out).0
        × Only "ipServers" (arr nil) (match_server node path policy out).0
        × Only "dns" (str []) (match_server node path policy out).0
  unfolding match_server
  match_server-Only node path out =
      on_some-holds
        (λ fs.
          Only "apiServers" api_servers fs × Only "ipServers" (arr nil) fs × Only "dns" (str []) fs)
        policy.device device _ _ known
        (if-holds
          (λ fs.
            Only "apiServers" api_servers fs
            × Only "ipServers" (arr nil) fs
            × Only "dns" (str []) fs)
          (not (has_any server_keys node)) _ _
          (λ n. (
            absent-Only "apiServers" api_servers node (ground (arith, n)),
            absent-Only "ipServers" (arr nil) node (ground (arith, n)),
            absent-Only "dns" (str []) node (ground (arith, n)),
          ))
          (λ _.
            let one = replace "apiServers" api_servers (node, end) in
            let two = replace "ipServers" (arr nil) one in
            (
              replace-Only_other "apiServers" "dns" api_servers (str []) two refl (
                  replace-Only_other "apiServers" "ipServers" api_servers (arr nil) one refl
                    (replace-Only "apiServers" api_servers (node, end))),
              replace-Only_other "ipServers" "dns" (arr nil) (str []) two refl
                  (replace-Only "ipServers" (arr nil) one),
              replace-Only "dns" (str []) two,
            )))

  match_mqtt-Only :
      (node : Fields) (path : List Step) (out : Out)
      → Only "mqttHost" (str device.mqtt_host) (match_mqtt node path policy out).0
  unfolding match_mqtt
  match_mqtt-Only node path out =
      on_some-holds (Only "mqttHost" (str device.mqtt_host)) policy.device device _ _ known (
        if-holds (Only "mqttHost" (str device.mqtt_host))
          (not (has "mqttHost" node)
            && not (has "productKey" node && has "deviceName" node && has "deviceSecret" node))
          _ _ (λ n. absent-Only "mqttHost" (str device.mqtt_host) node (ground (arith, n)))
          (λ _.
            replace_all-Only_other "mqttHost" (str device.mqtt_host)
              (("productKey", str device.mqtt_product_key)
                ∷ ("deviceName", str device.mqtt_device_name)
                ∷ ("deviceSecret", str device.mqtt_device_secret)
                ∷ ("iotInstanceId", str device.mqtt_product_key)
                ∷ [])
              (replace "mqttHost" (str device.mqtt_host) (node, end))
              (refl, (refl, (refl, (refl, tt))))
              (replace-Only "mqttHost" (str device.mqtt_host) (node, end))))

  Spares-servers : OursAll (Spares "apiServers" api_servers) policy device
  Spares-servers = record {
    servers = inr refl;
    no_servers = inl refl;
    no_dns = inl refl;
    host = inl refl;
    product_key = inl refl;
    device_name = inl refl;
    device_secret = inl refl;
    instance_id = inl refl;
    capabilities = inl refl;
    oci = inl refl;
    capacity = λ v e. inl refl;
    cloud_product = λ v e. inl refl;
    id = inl refl;
    timezone = inl refl;
    locale = inl refl;
  }

  Spares-ip : OursAll (Spares "ipServers" (arr nil)) policy device
  Spares-ip = record {
    servers = inl refl;
    no_servers = inr refl;
    no_dns = inl refl;
    host = inl refl;
    product_key = inl refl;
    device_name = inl refl;
    device_secret = inl refl;
    instance_id = inl refl;
    capabilities = inl refl;
    oci = inl refl;
    capacity = λ v e. inl refl;
    cloud_product = λ v e. inl refl;
    id = inl refl;
    timezone = inl refl;
    locale = inl refl;
  }

  Spares-dns : OursAll (Spares "dns" (str [])) policy device
  Spares-dns = record {
    servers = inl refl;
    no_servers = inl refl;
    no_dns = inr refl;
    host = inl refl;
    product_key = inl refl;
    device_name = inl refl;
    device_secret = inl refl;
    instance_id = inl refl;
    capabilities = inl refl;
    oci = inl refl;
    capacity = λ v e. inl refl;
    cloud_product = λ v e. inl refl;
    id = inl refl;
    timezone = inl refl;
    locale = inl refl;
  }

  Spares-host : OursAll (Spares "mqttHost" (str device.mqtt_host)) policy device
  Spares-host = record {
    servers = inl refl;
    no_servers = inl refl;
    no_dns = inl refl;
    host = inr refl;
    product_key = inl refl;
    device_name = inl refl;
    device_secret = inl refl;
    instance_id = inl refl;
    capabilities = inl refl;
    oci = inl refl;
    capacity = λ v e. inl refl;
    cloud_product = λ v e. inl refl;
    id = inl refl;
    timezone = inl refl;
    locale = inl refl;
  }

  -- The same device under the policy, as the rules ask for it.
  with_known {ℓ} :
      (Q : String → Value → Type ℓ)
      → OursAll Q policy device
      → (d : Ours) → policy.device ≡ some d
      → OursAll Q policy d
  with_known Q o d e = subst (OursAll Q policy) (some-injective device d (sym known ∙ e)) o

  -- The four keys that say where the device goes next.
  abbrev pub Addressed : Fields → Type 0
  Addressed fs =
      Only "apiServers" api_servers fs
      × Only "ipServers" (arr nil) fs
      × Only "dns" (str []) fs
      × Only "mqttHost" (str device.mqtt_host) fs

  pub rewrite_object-Addressed :
      (node : Fields) (path : List Step) (out : Out)
      → Addressed (rewrite_object node path policy out).0
  unfolding rewrite_object behind_server
  rewrite_object-Addressed node path out =
      let served = match_server-Only node path out in
      let first = match_server node path policy out in
      let second = match_mqtt first.0 path policy first.1 in
      (
        behind_server-keeps (Spares "apiServers" api_servers) (Only "apiServers" api_servers)
            (Spares-Only "apiServers" api_servers) policy (with_known _ Spares-servers) first.0 path
            first.1 served.0,
        behind_server-keeps (Spares "ipServers" (arr nil)) (Only "ipServers" (arr nil))
            (Spares-Only "ipServers" (arr nil)) policy (with_known _ Spares-ip) first.0 path first.1
            served.1,
        behind_server-keeps (Spares "dns" (str [])) (Only "dns" (str []))
            (Spares-Only "dns" (str [])) policy (with_known _ Spares-dns) first.0 path first.1
            served.2,
        behind_broker-keeps (Spares "mqttHost" (str device.mqtt_host))
            (Only "mqttHost" (str device.mqtt_host)) (Spares-Only "mqttHost" (str device.mqtt_host))
            policy (with_known _ Spares-host) second.0 path second.1
            (match_mqtt-Only first.0 path first.1),
      )
