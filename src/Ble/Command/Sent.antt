-- ===== src/Ble/Command/Sent.antt =====
-- What `ble_command_for` sends and what it refuses.
use containers_nix.Prelude.{
  ℕ, ◌≡◌, refl, inl, inr, String, str_eq, Bool, true, false, ◌&&◌, Option, none, some, [], ◌∷◌,
  if◌then◌else◌, Option-cases, List-cases, subst,
}
use containers_nix.Prelude.Int.{ℤ}
use containers_nix.Prelude.Dict.{Dict, lookup, insert}
use containers_nix.Codec.{Bytes}
use containers_nix.Ble.Framing.{is_sendable, ble_command_frame, build_ble_frame}
use containers_nix.Ble.Block.{Result, ok, err, BleDevice, not_writable, missing}
use containers_nix.Ble.Ctw3.{
  ctw3_mode_fields, ctw3_config_fields, mode_states, send_mode, send_config, ctw3_config_payload,
  ctw3_command_for,
}
use containers_nix.Ble.W5.{
  send_settings, w5_config_payload, w5_config_entity_fields, settings_for, power_payload,
  w5_command_for,
}
use containers_nix.Prelude.Dict.{one_of}
use containers_nix.Ble.Command.{
  reset_filter_keys, w5_protocol, ctw3_writable, w5_writable, w5_or_refuse, fountain_command,
  ble_command_for,
}

-- A result that sends, sends a command which has a frame.
abbrev Sends : Result (ℕ × Bytes) → Type 0
Sends (ok (cmd, payload)) = is_sendable cmd ≡ true
Sends (err e) = Unit

send_mode-Sends : (states : Dict ℤ) → Sends (send_mode states)
unfolding send_mode is_sendable
send_mode-Sends states =
    elim (List-cases (missing ("powerStatus" ∷ "suspendStatus" ∷ "mode" ∷ []) states)) [
      | inl e ↦ rw (e, send_mode) refl
      | inr (k, ks, e) ↦ rw (e, send_mode) tt
    ]

send_config-Sends : (r : Result (Option Bytes)) → Sends (send_config r)
unfolding send_config is_sendable
send_config-Sends (err e) = tt
send_config-Sends (ok none) = tt
send_config-Sends (ok (some payload)) = refl

send_settings-Sends : (r : Result (Option Bytes)) → Sends (send_settings r)
unfolding send_settings is_sendable
send_settings-Sends (err e) = tt
send_settings-Sends (ok none) = tt
send_settings-Sends (ok (some payload)) = refl

ctw3_command_for-Sends :
    (dev : BleDevice) (key : String) (value : ℤ) → Sends (ctw3_command_for dev key value)
unfolding ctw3_command_for
ctw3_command_for-Sends dev key value = elim (Option-cases (lookup key ctw3_mode_fields)) [
  | inl e ↦ elim (Option-cases (lookup key ctw3_config_fields)) [
    | inl e' ↦ rw (e, e', ctw3_command_for) tt
    | inr (name, e') ↦
        rw (e, e', ctw3_command_for)
          (send_config-Sends (ctw3_config_payload (insert name value dev.states)))
  ]
  | inr (name, e) ↦
      rw (e, ctw3_command_for) (send_mode-Sends (mode_states key name value dev.states))
]

if-Sends : (b : Bool) (r s : Result (ℕ × Bytes)) → Sends r → Sends s → Sends (if b then r else s)
if-Sends true r s h k = h
if-Sends false r s h k = k

settings-Sends :
    (dev : BleDevice) (value : ℤ) (o : Option String) → Sends (settings_for dev value o)
settings-Sends dev value none = tt
settings-Sends dev value (some name) =
    send_settings-Sends (w5_config_payload (insert name value dev.states))

w5_command_for-Sends :
    (dev : BleDevice) (key : String) (value : ℤ) → Sends (w5_command_for dev key value)
unfolding w5_command_for is_sendable
w5_command_for-Sends dev key value =
    if-Sends (str_eq key "w5_mode") _
      (if str_eq key "w5_power"
        then ok (220, power_payload dev value)
        else settings_for dev value (lookup key w5_config_entity_fields))
      refl
      (if-Sends (str_eq key "w5_power") (ok (220, power_payload dev value))
        (settings_for dev value (lookup key w5_config_entity_fields)) refl
        (settings-Sends dev value (lookup key w5_config_entity_fields)))

ble_command_for-Sends :
    (dev : BleDevice) (key : String) (value : ℤ) → Sends (ble_command_for dev key value)
unfolding ble_command_for is_sendable
ble_command_for-Sends dev key value =
    if-Sends (one_of key reset_filter_keys) (ok (222, [])) (fountain_command dev key value) refl (
      if-Sends (str_eq dev.ble_type "ctw3" && one_of key ctw3_writable)
        (ctw3_command_for dev key value) (w5_or_refuse dev key value)
        (ctw3_command_for-Sends dev key value)
        (if-Sends (one_of dev.ble_type w5_protocol && one_of key w5_writable)
          (w5_command_for dev key value) (err (not_writable key dev.ble_type))
          (w5_command_for-Sends dev key value) tt))

-- Every command that `ble_command_for` gives is one that `ble_command_frame` has a frame for.
pub ble_command_for-is_sendable :
    (dev : BleDevice) (key : String) (value : ℤ) (cmd seq : ℕ) (payload : Bytes)
    → ble_command_for dev key value ≡ ok (cmd, payload)
    → ble_command_frame cmd seq payload ≡ some (build_ble_frame cmd seq payload)
unfolding ble_command_frame
ble_command_for-is_sendable dev key value cmd seq payload h =
    rw (subst Sends h (ble_command_for-Sends dev key value), ble_command_frame)
