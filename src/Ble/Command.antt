-- ===== src/Ble/Command.antt =====
-- `ble_command_for` and `parser_for` of addon/petkit_local/devices/ble/__init__.py.
pub mod Sent
use containers_nix.Prelude.{
  ℕ, zero, suc, String, str_eq, Bool, true, false, ◌&&◌, ◌||◌, Option, none, some, List, [], ◌∷◌,
  ◌++◌, map, if◌then◌else◌,
}
use containers_nix.Prelude.Dict.{one_of}
use containers_nix.Prelude.Int.{ℤ}
use containers_nix.Codec.{Bytes}
use containers_nix.Ble.Framing.{cmd_reset_filter}
use containers_nix.Ble.Block.{Result, ok, err, BleDevice, not_writable}
use containers_nix.Ble.Ctw3.{ctw3_mode_fields, ctw3_config_fields, ctw3_command_for}
use containers_nix.Ble.W5.{w5_config_entity_fields, w5_command_for}

abbrev pub reset_filter_keys : List String
reset_filter_keys = "ctw3_reset_filter" ∷ "w5_reset_filter" ∷ []

abbrev pub w5_protocol : List String
w5_protocol = "w5" ∷ "w4" ∷ "ctw2" ∷ []

abbrev pub ctw3_writable : List String
ctw3_writable =
    map (λ e. e.0) ctw3_mode_fields
    ++ (map (λ e. e.0) ctw3_config_fields ++ "ctw3_reset_filter" ∷ [])

abbrev pub w5_writable : List String
w5_writable =
    map (λ e. e.0) w5_config_entity_fields ++ ("w5_power" ∷ "w5_mode" ∷ "w5_reset_filter" ∷ [])

abbrev pub w5_or_refuse : BleDevice → String → ℤ → Result (ℕ × Bytes)
w5_or_refuse dev key value =
    if one_of dev.ble_type w5_protocol && one_of key w5_writable
    then w5_command_for dev key value
    else err (not_writable key dev.ble_type)

abbrev pub fountain_command : BleDevice → String → ℤ → Result (ℕ × Bytes)
fountain_command dev key value =
    if str_eq dev.ble_type "ctw3" && one_of key ctw3_writable
    then ctw3_command_for dev key value
    else w5_or_refuse dev key value

unfoldable pub ble_command_for : BleDevice → String → ℤ → Result (ℕ × Bytes)
ble_command_for dev key value =
    if one_of key reset_filter_keys
    then ok (cmd_reset_filter, [])
    else fountain_command dev key value

pub data Parser : Type 0 where
  w5 ctw3 : Parser

unfoldable pub parser_for : String → Option Parser
unfolding one_of
parser_for ble_type =
    if one_of ble_type w5_protocol
    then some Parser.w5
    else if str_eq ble_type "ctw3"
    then some Parser.ctw3
    else none
