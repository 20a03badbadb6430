-- ===== src/Ble/Ctw3.antt =====
-- addon/petkit_local/devices/ble/ctw3.py: the CTW3 fountain's status and settings blocks, and the
-- frames that set one field.
pub mod Config
pub mod Mode
pub mod Running
use containers_nix.Prelude.{
  ℕ, zero, suc, ◌+◌, ◌*◌, String, str_eq, Bool, true, false, Option, none, some, List, [], ◌∷◌,
  ◌++◌, ltb, leb, ◌==◌, ◌||◌, if◌then◌else◌, get_or, take, drop, length,
}
use containers_nix.Prelude.Int.{ℤ, pos, negsuc}
use containers_nix.Prelude.Dict.{Dict, lookup, insert, remove, update}
use containers_nix.Codec.{Bytes}
use containers_nix.Value.{Value, equals_int}
use containers_nix.Ble.Framing.{
  cmd_get_state, cmd_get_config, cmd_set_mode, cmd_set_config, cmd_device_status, iter_ble_frames,
}
use containers_nix.Ble.Block.{
  byte_at, is_zero, Error, Result, ok, err, ◌>>=◌, BleDevice, low_byte, from_bytes, slice,
  to_bytes2, get_int, missing, is_fountain_mode, Decoded, nothing_decoded, no_reading,
  no_full_status,
}

abbrev pub ctw3_min_status_len : ℕ
ctw3_min_status_len = 26

abbrev pub ctw3_config_offset : ℕ
ctw3_config_offset = 30

abbrev pub ctw3_config_len : ℕ
ctw3_config_len = 12

unfoldable pub decode_ctw3_config : Bytes → Dict ℤ
unfolding from_bytes
decode_ctw3_config tail =
    if ltb (length tail) ctw3_config_len
    then []
    else ("smartWorkingTime", byte_at 0 tail)
      ∷ ("smartSleepTime", byte_at 1 tail)
      ∷ ("energyInterval", pos (from_bytes 0 (slice 2 2 tail)))
      ∷ ("sleepTime", pos (from_bytes 0 (slice 4 2 tail)))
      ∷ ("lightSwitch", byte_at 6 tail)
      ∷ ("brightness", byte_at 7 tail)
      ∷ ("noDisturbingSwitch", byte_at 8 tail)
      ∷ ("childLock", byte_at 9 tail)
      ∷ ("smartInductiveSwitch", byte_at 10 tail)
      ∷ ("batteryInductiveSwitch", byte_at 11 tail)
      ∷ []

-- The fields of the short form but `mode` and `filterPercent`, single bytes first.
abbrev status_fields : Bytes → Dict ℤ
status_fields block =
    ("noDisturbingSwitch", byte_at 4 block)
    ∷ ("breakdownWarning", byte_at 5 block)
    ∷ ("lackWarning", byte_at 6 block)
    ∷ ("lowBattery", byte_at 7 block)
    ∷ ("filterWarning", byte_at 8 block)
    ∷ ("runStatus", byte_at 14 block)
    ∷ ("detectStatus", byte_at 19 block)
    ∷ ("batteryPercent", byte_at 24 block)
    ∷ ("moduleStatus", byte_at 25 block)
    ∷ ("waterPumpRunTime", pos (from_bytes 0 (slice 9 4 block)))
    ∷ ("todayPumpRunTime", pos (from_bytes 0 (slice 15 4 block)))
    ∷ ("supplyVoltage", pos (from_bytes 0 (slice 20 2 block)))
    ∷ ("batteryVoltage", pos (from_bytes 0 (slice 22 2 block)))
    ∷ []

abbrev with_mode : ℕ → Dict ℤ → Dict ℤ
with_mode mode rest = if is_fountain_mode mode then ("mode", pos mode) ∷ rest else rest

-- `states` before the tail is read, `mode` dropped where it is not a real one
abbrev short_states : Bytes → Dict ℤ
short_states block =
    ("powerStatus", byte_at 0 block)
    ∷ ("suspendStatus", byte_at 1 block)
    ∷ with_mode (get_or block 2 0) (("electricStatus", byte_at 3 block) ∷ status_fields block)

unfoldable pub decode_ctw3_status : Bytes → Decoded
unfolding decode_ctw3_config is_fountain_mode update
decode_ctw3_status block =
    if ltb (length block) ctw3_min_status_len then nothing_decoded else record {
      states =
          if leb (ctw3_config_offset + ctw3_config_len) (length block)
          then update (short_states block)
              (decode_ctw3_config (slice ctw3_config_offset ctw3_config_len block))
          else short_states block;
      consumables = ("filterPercent", byte_at 13 block) ∷ [];
    }

abbrev merge : Decoded → Decoded → Decoded
merge d e = record {
  states = update d.states e.states;
  consumables = update d.consumables e.consumables;
}

-- One frame of the loop in `parse_ctw3_ble_response`.
unfoldable pub apply_ctw3_frame : Decoded → Value × Bytes → Decoded
unfolding decode_ctw3_status update
apply_ctw3_frame d (cmd, []) = d
apply_ctw3_frame d (cmd, b ∷ bs) =
    if equals_int cmd cmd_device_status || equals_int cmd cmd_get_state
    then merge d (decode_ctw3_status (b ∷ bs))
    else if equals_int cmd cmd_get_config
    then record d { states = update d.states (decode_ctw3_config (b ∷ bs)) }
    else d

unfoldable pub apply_ctw3_frames : Decoded → List (Value × Bytes) → Decoded
unfolding apply_ctw3_frame
apply_ctw3_frames d [] = d
apply_ctw3_frames d (f ∷ frames) = apply_ctw3_frames (apply_ctw3_frame d f) frames

-- An empty section of the result stands for one that the code drops.
unfoldable pub parse_ctw3_ble_response : Value → Decoded
unfolding apply_ctw3_frames iter_ble_frames
parse_ctw3_ble_response content = apply_ctw3_frames nothing_decoded (iter_ble_frames content)

unfoldable pub ctw3_mode_payload : ℤ → ℤ → ℤ → Bytes
unfolding low_byte
ctw3_mode_payload power suspend mode =
    low_byte power ∷ (if is_zero power then 0 else low_byte suspend) ∷ low_byte mode ∷ []

abbrev pub ctw3_needed : List String
ctw3_needed =
    "smartWorkingTime" ∷ "smartSleepTime" ∷ "energyInterval" ∷ "sleepTime" ∷ "lightSwitch"
    ∷ "brightness" ∷ "noDisturbingSwitch" ∷ []

-- The block once nothing that it needs is missing.
unfoldable pub ctw3_config_block : Dict ℤ → Result Bytes
unfolding low_byte to_bytes2 get_int
ctw3_config_block state = do
  energy ← to_bytes2 (get_int "energyInterval" state)
  sleep ← to_bytes2 (get_int "sleepTime" state)
  ok (
      low_byte (get_int "smartWorkingTime" state)
      ∷ low_byte (get_int "smartSleepTime" state)
      ∷ (energy
          ++ (sleep
              ++ (low_byte (get_int "lightSwitch" state)
                  ∷ low_byte (get_int "brightness" state)
                  ∷ low_byte (get_int "noDisturbingSwitch" state)
                  ∷ low_byte (get_int "childLock" state)
                  ∷ low_byte (get_int "smartInductiveSwitch" state)
                  ∷ low_byte (get_int "batteryInductiveSwitch" state)
                  ∷ []))))

-- `ok none` is the code's `None`.
unfoldable pub ctw3_config_payload : Dict ℤ → Result (Option Bytes)
unfolding ctw3_config_block missing
ctw3_config_payload state = elim (missing ctw3_needed state) [
  | [] ↦ do block ← ctw3_config_block state; ok (some block)
  | _ ∷ _ ↦ ok none
]

abbrev pub ctw3_mode_fields : Dict String
ctw3_mode_fields =
    ("ctw3_power", "powerStatus") ∷ ("ctw3_working", "suspendStatus") ∷ ("ctw3_mode", "mode") ∷ []

abbrev pub ctw3_config_fields : Dict String
ctw3_config_fields =
    ("ctw3_light", "lightSwitch")
    ∷ ("ctw3_brightness", "brightness")
    ∷ ("ctw3_dnd", "noDisturbingSwitch")
    ∷ ("ctw3_child_lock", "childLock")
    ∷ ("ctw3_energy_interval", "energyInterval")
    ∷ ("ctw3_sleep_time", "sleepTime")
    ∷ ("ctw3_smart_work", "smartWorkingTime")
    ∷ ("ctw3_smart_sleep", "smartSleepTime")
    ∷ []

-- The states of a mode write: picking a mode means running in it.
abbrev pub mode_states : String → String → ℤ → Dict ℤ → Dict ℤ
mode_states key name value states =
    if str_eq key "ctw3_mode"
    then insert "suspendStatus" (pos 1) (insert "powerStatus" (pos 1) (insert name value states))
    else insert name value states

unfoldable pub send_mode : Dict ℤ → Result (ℕ × Bytes)
unfolding ctw3_mode_payload missing get_int
send_mode states = elim (missing ("powerStatus" ∷ "suspendStatus" ∷ "mode" ∷ []) states) [
  | [] ↦ ok (
    cmd_set_mode,
    ctw3_mode_payload (get_int "powerStatus" states) (get_int "suspendStatus" states)
        (get_int "mode" states),
  )
  | k ∷ ks ↦ err (no_reading (k ∷ ks))
]

unfoldable pub send_config : Result (Option Bytes) → Result (ℕ × Bytes)
send_config (err e) = err e
send_config (ok none) = err no_full_status
send_config (ok (some payload)) = ok (cmd_set_config, payload)

-- `KeyError` on a key of neither table cannot happen: the caller tests `CTW3_WRITABLE` first.
unfoldable pub ctw3_command_for : BleDevice → String → ℤ → Result (ℕ × Bytes)
ctw3_command_for dev key value = elim (lookup key ctw3_mode_fields) [
  | some name ↦ send_mode (mode_states key name value dev.states)
  | none ↦ elim (lookup key ctw3_config_fields) [
    | some name ↦ send_config (ctw3_config_payload (insert name value dev.states))
    | none ↦ err no_full_status
  ]
]
