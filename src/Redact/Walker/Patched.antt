-- ===== src/Redact/Walker/Patched.antt =====
-- What the rewriting rules of `http/redact/rules.py` leave of an object's fields.
use containers_nix.Prelude.{
  ◌≡◌, refl, inl, inr, Bool, true, false, ◌&&◌, ◌||◌, not, Option, none, some, List, [], ◌∷◌,
  String, str_eq, All, arith, if◌then◌else◌, Bool-cases, eq_iff,
}
use containers_nix.Prelude.Int.{pos}
use containers_nix.Codec.{codes}
use containers_nix.Value.{
  Value, str, int, arr, Fields, field, end, cons, nil, field_of, with_field, truthy,
}
use containers_nix.Value.Equal.{same}
use containers_nix.Redact.Model.{Step, Out, Ours, Policy}
use containers_nix.Redact.Rules.{
  has, has_any, replace, replace_all, our_servers, our_broker, server_keys, match_server,
  match_mqtt, match_oss_sts, match_cvr_capacity, our_window, match_secret, match_locale, keep_ours,
  on_some, about_us, sample_of, is_text, is_number,
}
use containers_nix.Redact.Walker.{rewrite_object, behind_broker, behind_server}

pub field_of-with_field :
    (k j : String) (v : Value) (fs : Fields)
    → field_of k (with_field j v fs) ≡ (if str_eq j k then some v else field_of k fs)
unfolding field_of with_field
field_of-with_field k j v end = refl
field_of-with_field k j v (field i w fs) =
    ground (arith, eq_iff j k, eq_iff i j, eq_iff i k, field_of-with_field k j v fs)

-- What holds of every key and value that the rules write.
pub record OursAll {ℓ} (Q : String → Value → Type ℓ) (policy : Policy) (device : Ours)
    : Type ℓ where
  pub servers : Q "apiServers" (arr (cons (str policy.api_url) nil))
  pub no_servers : Q "ipServers" (arr nil)
  pub no_dns : Q "dns" (str [])
  pub host : Q "mqttHost" (str device.mqtt_host)
  pub product_key : Q "productKey" (str device.mqtt_product_key)
  pub device_name : Q "deviceName" (str device.mqtt_device_name)
  pub device_secret : Q "deviceSecret" (str device.mqtt_device_secret)
  pub instance_id : Q "iotInstanceId" (str device.mqtt_product_key)
  pub capabilities : Q "capability" (arr device.capability)
  pub oci : Q "type" (str (codes "oci"))
  pub capacity : (v : Value) → device.capacity ≡ some v → Q "capacity" v
  pub cloud_product : (v : Value) → device.cloud_product ≡ some v → Q "cloudProduct" v
  pub id : Q "id" (int (pos device.petkit_id))
  pub timezone : Q "timezone" device.timezone_offset
  pub locale : Q "locale" device.locale

-- A property of objects that no such write takes away holds of what the rules leave.
module _ {ℓ κ} (Q : String → Value → Type ℓ) (P : Fields → Type κ)
    (keeps : (k : String) (v : Value) (fs : Fields) → Q k v → P fs → P (with_field k v fs)) where
  replace-keeps :
      (k : String) (v : Value) (both : Fields × Fields) → Q k v → P both.0 → P (replace k v both).0
  replace-keeps k v both q h = elim (Bool-cases (has k both.0)) [
    | inl e ↦ rw e (keeps k v both.0 q h)
    | inr e ↦ rw e h
  ]

  replace_all-keeps :
      (kvs : List (String × Value)) (both : Fields × Fields)
      → All (λ kv. Q kv.0 kv.1) kvs
      → P both.0
      → P (replace_all kvs both).0
  replace_all-keeps [] both w h = h
  replace_all-keeps ((k, v) ∷ kvs) both w h =
      replace_all-keeps kvs (replace k v both) w.1 (replace-keeps k v both w.0 h)

  our_window-keeps :
      (k mark : String) (theirs : Option Fields) (ours : Option Value) (path : List Step)
      (both : Fields × Out)
      → ((v : Value) → ours ≡ some v → Q k v)
      → P both.0
      → P (our_window k mark theirs ours path both).0
  our_window-keeps k mark none ours path both q h = h
  our_window-keeps k mark (some theirs) none path both q h = h
  our_window-keeps k mark (some theirs) (some v) path both q h =
      elim (Bool-cases (has mark theirs && truthy v)) [
        | inl e ↦ rw e (keeps k v both.0 (q v refl) h)
        | inr e ↦ rw e h
      ]

  keep_ours-keeps :
      (k : String) (v : Value) (path : List Step) (theirs : Option Value) (both : Fields × Out)
      → Q k v
      → P both.0
      → P (keep_ours k v path theirs both).0
  keep_ours-keeps k v path none both q h = h
  keep_ours-keeps k v path (some t) both q h = elim (Bool-cases (same t v)) [
    | inl e ↦ rw e h
    | inr e ↦ rw e (keeps k v both.0 q h)
  ]

  on_some-keeps {ν} :
      {A : Type ν} (o : Option A) (unchanged : Fields × Out) (rule : A → Fields × Out)
      → P unchanged.0
      → ((a : A) → o ≡ some a → P (rule a).0)
      → P (on_some o unchanged rule).0
  on_some-keeps none unchanged rule h k = h
  on_some-keeps (some a) unchanged rule h k = k a refl

  if-keeps : (b : Bool) (x y : Fields × Out) → P x.0 → P y.0 → P (if b then x else y).0
  if-keeps true x y h k = h
  if-keeps false x y h k = k

  module _ (policy : Policy)
      (ours : (device : Ours) → policy.device ≡ some device → OursAll Q policy device) where
    match_server-keeps :
        (node : Fields) (path : List Step) (out : Out)
        → P node
        → P (match_server node path policy out).0
    unfolding match_server
    match_server-keeps node path out h = on_some-keeps policy.device _ _ h λ device known.
        let o = ours device known in
        if-keeps (not (has_any server_keys node)) (node, out) _ h
          (replace_all-keeps (our_servers policy) (node, end)
            (o.servers, (o.no_servers, (o.no_dns, tt))) h)

    match_mqtt-keeps :
        (node : Fields) (path : List Step) (out : Out)
        → P node
        → P (match_mqtt node path policy out).0
    unfolding match_mqtt
    match_mqtt-keeps node path out h = on_some-keeps policy.device _ _ h λ device known.
        let o = ours device known in
        if-keeps
          (not (has "mqttHost" node)
            && not (has "productKey" node && has "deviceName" node && has "deviceSecret" node))
          (node, out) _ h
          (replace_all-keeps (our_broker device) (node, end)
            (o.host, (o.product_key, (o.device_name, (o.device_secret, (o.instance_id, tt))))) h)

    match_oss_sts-keeps :
        (node : Fields) (path : List Step) (out : Out)
        → P node
        → P (match_oss_sts node path policy out).0
    unfolding match_oss_sts
    match_oss_sts-keeps node path out h = on_some-keeps policy.device _ _ h λ device known.
        let o = ours device known in
        on_some-keeps (sample_of (field_of "capability" node)) _ _ h λ sample _.
          if-keeps (not (has "cycleType" sample || has "primaryParUrl" sample)) (node, out) _ h
            (if-keeps policy.media_to_real_oss (node, _) _ h
              (keeps "type" (str (codes "oci")) _ o.oci
                (keeps "capability" (arr device.capability) node o.capabilities h)))

    match_cvr_capacity-keeps :
        (node : Fields) (path : List Step) (out : Out)
        → P node
        → P (match_cvr_capacity node path policy out).0
    unfolding match_cvr_capacity
    match_cvr_capacity-keeps node path out h = on_some-keeps policy.device _ _ h λ device known.
        let o = ours device known in
        if-keeps (not device.is_camera || not policy.local_cvr_window) (node, out) _ h
          (our_window-keeps "cloudProduct" "workIndate" _ device.cloud_product path _
            o.cloud_product
            (our_window-keeps "capacity" "indate" _ device.capacity path (node, out) o.capacity h))

    match_secret-keeps :
        (node : Fields) (path : List Step) (out : Out)
        → P node
        → P (match_secret node path policy out).0
    unfolding match_secret
    match_secret-keeps node path out h = on_some-keeps policy.device _ _ h λ device known.
        on_some-keeps (is_text (field_of "secret" node)) _ _ h λ api_secret _.
          if-keeps (not (about_us node device)) (node, out) _ h
            (if-keeps (has "id" node && not (is_number (field_of "id" node) device.petkit_id)) _ _
              (keeps "id" (int (pos device.petkit_id)) node (ours device known).id h) h)

    match_locale-keeps :
        (node : Fields) (path : List Step) (out : Out)
        → P node
        → P (match_locale node path policy out).0
    unfolding match_locale
    match_locale-keeps node path out h = on_some-keeps policy.device _ _ h λ device known.
        let o = ours device known in
        if-keeps (not (about_us node device)) (node, out) _ h
          (keep_ours-keeps "locale" device.locale path _ _ o.locale
            (keep_ours-keeps "timezone" device.timezone_offset path _ (node, out) o.timezone h))

    -- The rules behind the server rule, and those behind the broker's.
    pub behind_broker-keeps :
        (node : Fields) (path : List Step) (out : Out)
        → P node
        → P (behind_broker node path policy out).0
    unfolding behind_broker
    behind_broker-keeps node path out h = match_locale-keeps _ path _ (
        match_secret-keeps _ path _
          (match_cvr_capacity-keeps _ path _ (match_oss_sts-keeps node path out h)))

    pub behind_server-keeps :
        (node : Fields) (path : List Step) (out : Out)
        → P node
        → P (behind_server node path policy out).0
    unfolding behind_server
    behind_server-keeps node path out h =
        behind_broker-keeps _ path _ (match_mqtt-keeps node path out h)

    pub rewrite_object-keeps :
        (node : Fields) (path : List Step) (out : Out)
        → P node
        → P (rewrite_object node path policy out).0
    unfolding rewrite_object
    rewrite_object-keeps node path out h =
        behind_server-keeps _ path _ (match_server-keeps node path out h)
