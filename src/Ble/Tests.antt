-- ===== src/Ble/Tests.antt =====
-- The theorems of the accessory modules at concrete inputs, and runs of the handlers.
use containers_nix.Prelude.{◌<◌, length, ◌≡◌, ◌⊎◌, refl, none, some, List, [], ◌∷◌, arith}
use containers_nix.Prelude.Int.{ℤ, pos}
use containers_nix.Prelude.Dict.{Dict, lookup, insert}
use containers_nix.Codec.{Bytes}
use containers_nix.Value.{Value, null, int, str, obj, arr, field, end}
use containers_nix.Ble.Framing.{iter_ble_frames, build_ble_frame, ble_command_frame}
use containers_nix.Codec.Hex.Digits.{hex}
use containers_nix.Ble.Framing.Fallback.{ble_decode_data-hex, ble_decode_data-hex_even}
use containers_nix.Ble.Framing.{ble_decode_data}
use containers_nix.Ble.Framing.RoundTrip.{Sent, items_sent, iter_ble_frames-build_ble_frame}
use containers_nix.Ble.Block.{low_byte, ok, BleDevice, missing, get_int}
use containers_nix.Ble.Ctw3.{
  decode_ctw3_config, ctw3_config_payload, ctw3_command_for, send_mode, parse_ctw3_ble_response,
}
use containers_nix.Ble.Ctw3.Config.{
  ctw3_config_payload-decode_ctw3_config, ctw3_command_for-restates, settings,
}
use containers_nix.Ble.Ctw3.Running.{ctw3_command_for-picked}
use containers_nix.Ble.Ctw3.Mode.{IsRealMode, parse_ctw3_ble_response-mode}
use containers_nix.Ble.W5.{decode_w5_config, w5_config_payload}
use containers_nix.Ble.W5.Config.{w5_config_payload-decode_w5_config}
use containers_nix.Prelude.Dict.{one_of}
use containers_nix.Ble.Command.{ble_command_for}
use containers_nix.Ble.Command.Sent.{ble_command_for-is_sendable}

abbrev two_frames : List Sent
two_frames =
    record { outer = null; cmd = 230; seq = 1; payload = 1 ∷ 0 ∷ 255 ∷ [] }
    ∷ record { outer = int (pos 9); cmd = 221; seq = 300; payload = [] }
    ∷ []

iter_ble_frames-build_ble_frame_example :
    iter_ble_frames (obj (field "payload" (arr (items_sent two_frames)) end))
    ≡ (int (pos 230), 1 ∷ 0 ∷ 255 ∷ []) ∷ (int (pos 221), []) ∷ []
iter_ble_frames-build_ble_frame_example =
    iter_ble_frames-build_ble_frame two_frames
      ((omega arith, (omega arith, (omega arith, tt))), (tt, tt))

abbrev full_states : Dict ℤ
full_states = decode_ctw3_config (3 ∷ 5 ∷ 1 ∷ 4 ∷ 2 ∷ 88 ∷ 1 ∷ 3 ∷ 0 ∷ 0 ∷ 0 ∷ 0 ∷ [])

abbrev cordless : BleDevice
cordless = record { ble_type = "ctw3"; states = full_states }

ctw3_config_payload-decode_ctw3_config_example :
    ctw3_config_payload (decode_ctw3_config (3 ∷ 5 ∷ 1 ∷ 4 ∷ 2 ∷ 88 ∷ 1 ∷ 3 ∷ 0 ∷ 0 ∷ 0 ∷ 0 ∷ []))
    ≡ ok (some (3 ∷ 5 ∷ 1 ∷ 4 ∷ 2 ∷ 88 ∷ 1 ∷ 3 ∷ 0 ∷ 0 ∷ 0 ∷ 0 ∷ []))
ctw3_config_payload-decode_ctw3_config_example =
    ctw3_config_payload-decode_ctw3_config 3 5 1 4 2 88 1 3 0 0 0 0 (ground arith)

ctw3_command_for-restates_example :
    (payload : Bytes) × (ctw3_command_for cordless "ctw3_brightness" (pos 2) ≡ ok (221, payload))
    × (decode_ctw3_config payload ≡ settings (insert "brightness" (pos 2) full_states) 260 600)
unfolding decode_ctw3_config lookup missing insert get_int
ctw3_command_for-restates_example =
    ctw3_command_for-restates cordless "ctw3_brightness" "brightness" (pos 2) refl refl refl 260 600
      refl refl (omega arith) (omega arith)

abbrev status_block : Bytes
status_block =
    1 ∷ 1 ∷ 2 ∷ 2 ∷ 0 ∷ 0 ∷ 0 ∷ 0 ∷ 0 ∷ 0 ∷ 0 ∷ 1 ∷ 0 ∷ 90 ∷ 1 ∷ 0 ∷ 0 ∷ 0 ∷ 9 ∷ 0 ∷ 0 ∷ 0 ∷ 0 ∷ 0
    ∷ 80 ∷ 0 ∷ []

abbrev status_report : Value
status_report = obj (field "data" (str (build_ble_frame 230 1 status_block)) end)

parse_ctw3_ble_response-mode_example :
    (lookup "mode" (parse_ctw3_ble_response status_report).states ≡ none)
    ⊎ ((v : ℤ) × (lookup "mode" (parse_ctw3_ble_response status_report).states ≡ some v)
        × IsRealMode v)
parse_ctw3_ble_response-mode_example = parse_ctw3_ble_response-mode status_report

w5_config_payload-decode_w5_config_example :
    w5_config_payload
      (decode_w5_config (3 ∷ 5 ∷ 1 ∷ 2 ∷ 1 ∷ 104 ∷ 5 ∷ 40 ∷ 1 ∷ 5 ∷ 100 ∷ 1 ∷ 164 ∷ 1 ∷ []))
    ≡ ok (some (3 ∷ 5 ∷ 1 ∷ 2 ∷ 1 ∷ 104 ∷ 5 ∷ 40 ∷ 1 ∷ 5 ∷ 100 ∷ 1 ∷ 164 ∷ 1 ∷ []))
w5_config_payload-decode_w5_config_example =
    w5_config_payload-decode_w5_config 3 5 1 2 1 104 5 40 1 5 100 1 164 1 (ground arith)

ble_command_for-is_sendable_example :
    ble_command_frame 220 7 (1 ∷ 1 ∷ 2 ∷ []) ≡ some (build_ble_frame 220 7 (1 ∷ 1 ∷ 2 ∷ []))
unfolding ble_command_for one_of ctw3_command_for lookup send_mode insert decode_ctw3_config
ble_command_for-is_sendable_example =
    ble_command_for-is_sendable cordless "ctw3_mode" (pos 2) 220 7 (1 ∷ 1 ∷ 2 ∷ []) refl

ble_decode_data-hex_example :
    ble_decode_data (str (hex (250 ∷ 252 ∷ 253 ∷ []))) ≡ some (250 ∷ 252 ∷ 253 ∷ [])
ble_decode_data-hex_example = ble_decode_data-hex (250 ∷ 252 ∷ 253 ∷ []) (ground arith) refl

ble_decode_data-hex_even_example :
    (out : Bytes) × (ble_decode_data (str (hex (1 ∷ 2 ∷ []))) ≡ some out) × (2 < length out)
ble_decode_data-hex_even_example =
    ble_decode_data-hex_even (1 ∷ 2 ∷ []) (ground arith) refl (omega arith)

-- A fountain that has never reported.
abbrev unread : BleDevice
unread = record { ble_type = "ctw3"; states = [] }

ctw3_command_for-picked_example :
    ctw3_command_for unread "ctw3_mode" (pos 2) ≡ ok (220, 1 ∷ 1 ∷ 2 ∷ [])
unfolding low_byte
ctw3_command_for-picked_example = ctw3_command_for-picked unread (pos 2)
