-- ===== src/Ble/W5.antt =====
-- addon/petkit_local/devices/ble/w5.py: the status and settings blocks of the W5, W4 and CTW2
-- fountains, and the frames that set one field. A structured report may hold any value, so the merged
-- `states` hold values; those that a command is built from are integers.
pub mod Config
use containers_nix.Prelude.{
  ℕ, zero, suc, ◌+◌, ◌*◌, String, str_eq, Bool, true, false, Option, none, some, List, [], ◌∷◌,
  ◌++◌, map, ltb, leb, ◌==◌, ◌||◌, if◌then◌else◌, get_or, take, drop, length,
}
use containers_nix.Prelude.Int.{ℤ, pos, negsuc}
use containers_nix.Prelude.Dict.{Dict, lookup, insert, update}
use containers_nix.Codec.{Bytes}
use containers_nix.Value.{Value, int, obj, Fields, field, end, field_of, equals_int}
use containers_nix.Ble.Framing.{
  cmd_get_state, cmd_get_config, cmd_set_mode, cmd_set_config, cmd_device_status, iter_ble_frames,
}
use containers_nix.Ble.Block.{
  byte_at, is_zero, Error, Result, ok, err, ◌>>=◌, BleDevice, low_byte, from_bytes, slice,
  to_bytes2, get_int, missing, is_fountain_mode, Decoded, nothing_decoded, no_settings_block,
}

abbrev pub w5_min_status_len : ℕ
w5_min_status_len = 12

abbrev pub w5_config_len : ℕ
w5_config_len = 13

abbrev long_at : ℕ → ℕ → Bytes → ℤ
long_at off width block = pos (from_bytes 0 (slice off width block))

abbrev when : Bool → String → ℤ → Dict ℤ
when b key v = if b then (key, v) ∷ [] else []

abbrev w5_states : Bytes → Dict ℤ
w5_states block =
    ("powerStatus", byte_at 0 block)
    ∷ (when (is_fountain_mode (get_or block 1 0)) "mode" (byte_at 1 block)
        ++ (("dndState", byte_at 2 block)
            ∷ ("warningBreakdown", byte_at 3 block)
            ∷ ("warningWaterMissing", byte_at 4 block)
            ∷ ("warningFilter", byte_at 5 block)
            ∷ ("runningStatus", byte_at 11 block)
            ∷ ("pumpRuntime", long_at 6 4 block)
            ∷ (when (leb 16 (length block)) "todayPumpRunTime" (long_at 12 4 block)
                ++ (when (leb 17 (length block)) "smartWorkingTime" (byte_at 16 block)
                    ++ when (leb 18 (length block)) "smartSleepTime" (byte_at 17 block)))))

unfoldable pub decode_w5_status : Bytes → Decoded
unfolding is_fountain_mode from_bytes
decode_w5_status block = if ltb (length block) w5_min_status_len then nothing_decoded else record {
  states = w5_states block;
  consumables = ("filterPercentage", byte_at 10 block) ∷ [];
}

unfoldable pub decode_w5_config : Bytes → Dict ℤ
unfolding from_bytes
decode_w5_config block =
    if ltb (length block) w5_config_len
    then []
    else ("smartWorkingTime", byte_at 0 block)
      ∷ ("smartSleepTime", byte_at 1 block)
      ∷ ("lampRingSwitch", byte_at 2 block)
      ∷ ("lampRingBrightness", byte_at 3 block)
      ∷ ("noDisturbingSwitch", byte_at 8 block)
      ∷ ("lampRingLightUpTime", long_at 4 2 block)
      ∷ ("lampRingGoOutTime", long_at 6 2 block)
      ∷ ("noDisturbingStartTime", long_at 9 2 block)
      ∷ ("noDisturbingEndTime", long_at 11 2 block)
      ∷ when (leb 14 (length block)) "isLock" (byte_at 13 block)

-- The result of `parse_w5_ble_response`; an empty section stands for one that the code drops.
pub record Sections : Type 0 where
  pub states : Dict Value
  pub consumables : Dict Value

abbrev values : Dict ℤ → Dict Value
values = map (λ e. (e.0, int e.1))

unfoldable pub dict_of : Fields → Dict Value
dict_of end = []
dict_of (field k v rest) = (k, v) ∷ dict_of rest

-- `result[section].update(content[section])` where that is a dictionary
unfoldable pub section_of : String → Fields → Dict Value
unfolding dict_of field_of
section_of name content = elim (field_of name content) [
  | some (obj fields) ↦ dict_of fields
  | _ ↦ []
]

-- The loose keys of a structured report that are present, with their values.
unfoldable pub loose_keys : List String → Fields → Dict Value
unfolding field_of
loose_keys [] content = []
loose_keys (k ∷ ks) content = elim (field_of k content) [
  | none ↦ loose_keys ks content
  | some v ↦ (k, v) ∷ loose_keys ks content
]

abbrev pub w5_state_keys : List String
w5_state_keys =
    "powerStatus" ∷ "runningStatus" ∷ "warningWaterMissing" ∷ "warningFilter" ∷ "mode" ∷ []

unfoldable pub structured : Fields → Sections
unfolding section_of loose_keys update
structured content = record {
  states = update (update [] (section_of "states" content)) (loose_keys w5_state_keys content);
  consumables =
      update (update [] (section_of "consumables" content))
        (loose_keys ("filterPercentage" ∷ []) content);
}

abbrev merge : Sections → Decoded → Sections
merge s d = record {
  states = update s.states (values d.states);
  consumables = update s.consumables (values d.consumables);
}

unfoldable pub apply_w5_frame : Sections → Value × Bytes → Sections
unfolding decode_w5_status decode_w5_config update
apply_w5_frame s (cmd, []) = s
apply_w5_frame s (cmd, b ∷ bs) =
    if equals_int cmd cmd_device_status || equals_int cmd cmd_get_state
    then merge s (decode_w5_status (b ∷ bs))
    else if equals_int cmd cmd_get_config
    then record s { states = update s.states (values (decode_w5_config (b ∷ bs))) }
    else s

unfoldable pub apply_w5_frames : Sections → List (Value × Bytes) → Sections
unfolding apply_w5_frame
apply_w5_frames s [] = s
apply_w5_frames s (f ∷ frames) = apply_w5_frames (apply_w5_frame s f) frames

unfoldable pub parse_w5_ble_response : Value → Sections
unfolding apply_w5_frames iter_ble_frames structured
parse_w5_ble_response (obj content) =
    apply_w5_frames (structured content) (iter_ble_frames (obj content))
parse_w5_ble_response _ = record { states = []; consumables = [] }

unfoldable pub w5_mode_payload : ℤ → Bytes
unfolding low_byte
w5_mode_payload mode = low_byte mode ∷ 0 ∷ []

-- `_W5_CONFIG_BYTE_FIELDS`, then `_W5_CONFIG_INT_FIELDS`
abbrev pub w5_needed : List String
w5_needed =
    "smartWorkingTime" ∷ "smartSleepTime" ∷ "lampRingSwitch" ∷ "lampRingBrightness"
    ∷ "noDisturbingSwitch" ∷ "lampRingLightUpTime" ∷ "lampRingGoOutTime" ∷ "noDisturbingStartTime"
    ∷ "noDisturbingEndTime" ∷ []

unfoldable pub w5_config_block : Dict ℤ → Result Bytes
unfolding low_byte to_bytes2 get_int
w5_config_block state = do
  light_up ← to_bytes2 (get_int "lampRingLightUpTime" state)
  go_out ← to_bytes2 (get_int "lampRingGoOutTime" state)
  start ← to_bytes2 (get_int "noDisturbingStartTime" state)
  finish ← to_bytes2 (get_int "noDisturbingEndTime" state)
  ok (
      low_byte (get_int "smartWorkingTime" state)
      ∷ low_byte (get_int "smartSleepTime" state)
      ∷ low_byte (get_int "lampRingSwitch" state)
      ∷ low_byte (get_int "lampRingBrightness" state)
      ∷ (light_up
          ++ (go_out
              ++ (low_byte (get_int "noDisturbingSwitch" state)
                  ∷ (start ++ (finish ++ (low_byte (get_int "isLock" state) ∷ [])))))))

-- `ok none` is the code's `None`.
unfoldable pub w5_config_payload : Dict ℤ → Result (Option Bytes)
unfolding w5_config_block missing
w5_config_payload state = elim (missing w5_needed state) [
  | [] ↦ do block ← w5_config_block state; ok (some block)
  | _ ∷ _ ↦ ok none
]

abbrev pub w5_config_entity_fields : Dict String
w5_config_entity_fields =
    ("w5_light", "lampRingSwitch")
    ∷ ("w5_brightness", "lampRingBrightness")
    ∷ ("w5_dnd", "noDisturbingSwitch")
    ∷ ("w5_child_lock", "isLock")
    ∷ ("w5_smart_work", "smartWorkingTime")
    ∷ ("w5_smart_sleep", "smartSleepTime")
    ∷ []

-- `states.get("mode") or 1`
unfoldable pub latched_mode : Dict ℤ → ℤ
unfolding get_int
latched_mode states = if is_zero (get_int "mode" states) then pos 1 else get_int "mode" states

unfoldable pub send_settings : Result (Option Bytes) → Result (ℕ × Bytes)
send_settings (err e) = err e
send_settings (ok none) = err no_settings_block
send_settings (ok (some payload)) = ok (cmd_set_config, payload)

abbrev pub power_payload : BleDevice → ℤ → Bytes
power_payload dev value = w5_mode_payload (if is_zero value then pos 0 else latched_mode dev.states)

-- `KeyError` on a key of neither kind cannot happen: the caller tests `W5_WRITABLE` first.
abbrev pub settings_for : BleDevice → ℤ → Option String → Result (ℕ × Bytes)
settings_for dev value (some name) =
    send_settings (w5_config_payload (insert name value dev.states))
settings_for dev value none = err no_settings_block

unfoldable pub w5_command_for : BleDevice → String → ℤ → Result (ℕ × Bytes)
unfolding w5_mode_payload
w5_command_for dev key value =
    if str_eq key "w5_mode"
    then ok (cmd_set_mode, w5_mode_payload value)
    else if str_eq key "w5_power"
    then ok (cmd_set_mode, power_payload dev value)
    else settings_for dev value (lookup key w5_config_entity_fields)
