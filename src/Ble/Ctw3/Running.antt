-- ===== src/Ble/Ctw3/Running.antt =====
-- Picking a mode on a CTW3 means running in it.
use containers_nix.Prelude.{◌≡◌, ◌∙◌, String, some, List, [], ◌∷◌}
use containers_nix.Prelude.Int.{ℤ, pos}
use containers_nix.Prelude.Dict.{Dict, lookup, insert, lookup-insert}
use containers_nix.Ble.Block.{ok, BleDevice, low_byte, get_int, missing}
use containers_nix.Ble.Ctw3.{ctw3_mode_payload, mode_states, send_mode, ctw3_command_for}

get_int-lookup :
    (key : String) (v : ℤ) (states : Dict ℤ) → lookup key states ≡ some v → get_int key states ≡ v
unfolding get_int
get_int-lookup key v states h = rw (h, get_int)

abbrev mode_needed : List String
mode_needed = "powerStatus" ∷ "suspendStatus" ∷ "mode" ∷ []

missing-nothing :
    (states : Dict ℤ) (p s m : ℤ)
    → lookup "powerStatus" states ≡ some p
    → lookup "suspendStatus" states ≡ some s
    → lookup "mode" states ≡ some m
    → missing mode_needed states ≡ []
unfolding missing
missing-nothing states p s m e f g = rw (e, f, g, missing)

send_mode_complete :
    (states : Dict ℤ) (p s m : ℤ)
    → lookup "powerStatus" states ≡ some p
    → lookup "suspendStatus" states ≡ some s
    → lookup "mode" states ≡ some m
    → send_mode states ≡ ok (220, ctw3_mode_payload p s m)
unfolding send_mode
send_mode_complete states p s m e f g = rw (
  missing-nothing states p s m e f g,
  get_int-lookup "powerStatus" p states e,
  get_int-lookup "suspendStatus" s states f,
  get_int-lookup "mode" m states g,
  send_mode,
)

module _ (value : ℤ) (states : Dict ℤ) where
  abbrev picked : Dict ℤ
  picked = mode_states "ctw3_mode" "mode" value states

  power_on : lookup "powerStatus" picked ≡ some (pos 1)
  power_on =
      lookup-insert "suspendStatus" "powerStatus" (pos 1)
        (insert "powerStatus" (pos 1) (insert "mode" value states))
      ∙ lookup-insert "powerStatus" "powerStatus" (pos 1) (insert "mode" value states)

  working : lookup "suspendStatus" picked ≡ some (pos 1)
  working =
      lookup-insert "suspendStatus" "suspendStatus" (pos 1)
        (insert "powerStatus" (pos 1) (insert "mode" value states))

  in_mode : lookup "mode" picked ≡ some value
  in_mode =
      lookup-insert "suspendStatus" "mode" (pos 1)
        (insert "powerStatus" (pos 1) (insert "mode" value states))
      ∙ lookup-insert "powerStatus" "mode" (pos 1) (insert "mode" value states)
      ∙ lookup-insert "mode" "mode" value states

-- Picking a mode always sends power on and working with it, whatever status was last read, and also
-- where none was: it is never refused.
pub ctw3_command_for-picked :
    (dev : BleDevice) (value : ℤ)
    → ctw3_command_for dev "ctw3_mode" value ≡ ok (220, 1 ∷ 1 ∷ low_byte value ∷ [])
unfolding ctw3_command_for lookup ctw3_mode_payload low_byte
ctw3_command_for-picked dev value =
    send_mode_complete (picked value dev.states) (pos 1) (pos 1) value (power_on value dev.states)
      (working value dev.states) (in_mode value dev.states)
