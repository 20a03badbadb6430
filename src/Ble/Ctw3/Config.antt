-- ===== src/Ble/Ctw3/Config.antt =====
-- The settings block of a CTW3, read and written: the two directions undo one another.
use containers_nix.Prelude.{
  ℕ, ◌+◌, ◌*◌, ◌/◌, ◌%◌, ◌<◌, ◌≡◌, refl, String, none, some, [], ◌∷◌, arith,
}
use containers_nix.Prelude.Int.{ℤ, pos}
use containers_nix.Prelude.Dict.{Dict, lookup, insert}
use containers_nix.Codec.{Bytes, AllBytes}
use containers_nix.Ble.Block.{
  Result, ok, ◌>>=◌, BleDevice, low_byte, to_bytes2_fits, get_int, missing,
}
use containers_nix.Ble.Ctw3.{
  decode_ctw3_config, ctw3_config_block, ctw3_config_payload, ctw3_needed, ctw3_command_for,
  ctw3_config_fields, ctw3_mode_fields, send_config,
}

abbrev block_bytes : Dict ℤ → (energy sleep : ℕ) → Bytes
block_bytes state energy sleep =
    low_byte (get_int "smartWorkingTime" state)
    ∷ low_byte (get_int "smartSleepTime" state)
    ∷ energy / 256
    ∷ energy % 256
    ∷ sleep / 256
    ∷ sleep % 256
    ∷ low_byte (get_int "lightSwitch" state)
    ∷ low_byte (get_int "brightness" state)
    ∷ low_byte (get_int "noDisturbingSwitch" state)
    ∷ low_byte (get_int "childLock" state)
    ∷ low_byte (get_int "smartInductiveSwitch" state)
    ∷ low_byte (get_int "batteryInductiveSwitch" state)
    ∷ []

ctw3_config_block-eq :
    (state : Dict ℤ) (energy sleep : ℕ)
    → get_int "energyInterval" state ≡ pos energy
    → get_int "sleepTime" state ≡ pos sleep
    → energy < 65536
    → sleep < 65536
    → ctw3_config_block state ≡ ok (block_bytes state energy sleep)
unfolding ctw3_config_block
ctw3_config_block-eq state energy sleep p q h k =
    rw (p, q, to_bytes2_fits energy h, to_bytes2_fits sleep k)

-- A settings block of twelve bytes, decoded and written again with nothing changed, is the same
-- twelve bytes.
pub ctw3_config_payload-decode_ctw3_config :
    (b0 b1 b2 b3 b4 b5 b6 b7 b8 b9 b10 b11 : ℕ)
    → AllBytes (b0 ∷ b1 ∷ b2 ∷ b3 ∷ b4 ∷ b5 ∷ b6 ∷ b7 ∷ b8 ∷ b9 ∷ b10 ∷ b11 ∷ [])
    → ctw3_config_payload
        (decode_ctw3_config (b0 ∷ b1 ∷ b2 ∷ b3 ∷ b4 ∷ b5 ∷ b6 ∷ b7 ∷ b8 ∷ b9 ∷ b10 ∷ b11 ∷ []))
      ≡ ok (some (b0 ∷ b1 ∷ b2 ∷ b3 ∷ b4 ∷ b5 ∷ b6 ∷ b7 ∷ b8 ∷ b9 ∷ b10 ∷ b11 ∷ []))
unfolding ctw3_config_payload decode_ctw3_config
ctw3_config_payload-decode_ctw3_config b0 b1 b2 b3 b4 b5 b6 b7 b8 b9 b10 b11 h =
    rw
      (ctw3_config_block-eq _ ((0 + b2) * 256 + b3) ((0 + b4) * 256 + b5) refl refl (omega arith)
        (omega arith))
      (unfold low_byte in ground arith)

-- The settings of a state, as one reads them from a written block: bytes are reduced modulo 256.
abbrev pub settings : Dict ℤ → (energy sleep : ℕ) → Dict ℤ
settings state energy sleep =
    ("smartWorkingTime", pos (low_byte (get_int "smartWorkingTime" state)))
    ∷ ("smartSleepTime", pos (low_byte (get_int "smartSleepTime" state)))
    ∷ ("energyInterval", pos energy)
    ∷ ("sleepTime", pos sleep)
    ∷ ("lightSwitch", pos (low_byte (get_int "lightSwitch" state)))
    ∷ ("brightness", pos (low_byte (get_int "brightness" state)))
    ∷ ("noDisturbingSwitch", pos (low_byte (get_int "noDisturbingSwitch" state)))
    ∷ ("childLock", pos (low_byte (get_int "childLock" state)))
    ∷ ("smartInductiveSwitch", pos (low_byte (get_int "smartInductiveSwitch" state)))
    ∷ ("batteryInductiveSwitch", pos (low_byte (get_int "batteryInductiveSwitch" state)))
    ∷ []

decode_block_bytes :
    (state : Dict ℤ) (energy sleep : ℕ)
    → decode_ctw3_config (block_bytes state energy sleep) ≡ settings state energy sleep
unfolding decode_ctw3_config
decode_block_bytes state energy sleep = ground arith

module _ (dev : BleDevice) (key name : String) (value : ℤ)
    (is_config : lookup key ctw3_config_fields ≡ some name)
    (not_mode : lookup key ctw3_mode_fields ≡ none)
    (complete : missing ctw3_needed (insert name value dev.states) ≡ []) where
  abbrev changed : Dict ℤ
  changed = insert name value dev.states

  payload_sent :
      {r : Result Bytes}
      → ctw3_config_block changed ≡ r
      → ctw3_config_payload changed ≡ (do block ← r; ok (some block))
  unfolding ctw3_config_payload
  payload_sent e = rw (complete, e, ctw3_config_payload)

  -- Setting one settings entity of a CTW3 sends one cmd-221 block, if with that field the status has
  -- all that the block needs and both intervals fit two bytes. The accessory reads the block back as
  -- the state with that one field replaced and every other field restated, single bytes modulo 256.
  pub ctw3_command_for-restates :
      (energy sleep : ℕ)
      → get_int "energyInterval" changed ≡ pos energy
      → get_int "sleepTime" changed ≡ pos sleep
      → energy < 65536
      → sleep < 65536
      → (payload : Bytes) × (ctw3_command_for dev key value ≡ ok (221, payload))
        × (decode_ctw3_config payload ≡ settings changed energy sleep)
  unfolding ctw3_command_for send_config
  ctw3_command_for-restates energy sleep p q h k = (
    block_bytes changed energy sleep,
    rw (
      not_mode,
      is_config,
      payload_sent (ctw3_config_block-eq changed energy sleep p q h k),
      send_config,
      ctw3_command_for,
    ),
    decode_block_bytes changed energy sleep,
  )
