-- ===== src/Ble/W5/Config.antt =====
-- The settings block of a W5, read and written, and the mode that a structured report stores.
use containers_nix.Prelude.{ℕ, ◌+◌, ◌*◌, ◌/◌, ◌%◌, ◌<◌, ◌≡◌, refl, some, [], ◌∷◌, arith}
use containers_nix.Prelude.Int.{ℤ, pos}
use containers_nix.Prelude.Dict.{Dict}
use containers_nix.Codec.{Bytes, AllBytes}
use containers_nix.Ble.Block.{ok, low_byte, to_bytes2_fits, get_int}
use containers_nix.Ble.W5.{decode_w5_config, w5_config_block, w5_config_payload}

abbrev block_bytes : Dict ℤ → (light_up go_out start finish : ℕ) → Bytes
block_bytes state light_up go_out start finish =
    low_byte (get_int "smartWorkingTime" state)
    ∷ low_byte (get_int "smartSleepTime" state)
    ∷ low_byte (get_int "lampRingSwitch" state)
    ∷ low_byte (get_int "lampRingBrightness" state)
    ∷ light_up / 256
    ∷ light_up % 256
    ∷ go_out / 256
    ∷ go_out % 256
    ∷ low_byte (get_int "noDisturbingSwitch" state)
    ∷ start / 256
    ∷ start % 256
    ∷ finish / 256
    ∷ finish % 256
    ∷ low_byte (get_int "isLock" state)
    ∷ []

w5_config_block-eq :
    (state : Dict ℤ) (light_up go_out start finish : ℕ)
    → get_int "lampRingLightUpTime" state ≡ pos light_up
    → get_int "lampRingGoOutTime" state ≡ pos go_out
    → get_int "noDisturbingStartTime" state ≡ pos start
    → get_int "noDisturbingEndTime" state ≡ pos finish
    → (light_up < 65536) × (go_out < 65536) × (start < 65536) × (finish < 65536)
    → w5_config_block state ≡ ok (block_bytes state light_up go_out start finish)
unfolding w5_config_block
w5_config_block-eq state light_up go_out start finish p q r s h = rw (
  p,
  q,
  r,
  s,
  to_bytes2_fits light_up h.0,
  to_bytes2_fits go_out h.1,
  to_bytes2_fits start h.2,
  to_bytes2_fits finish h.3,
)

-- A settings block of fourteen bytes, decoded and written again with nothing changed, is the same
-- fourteen bytes: both schedules and the child lock survive.
pub w5_config_payload-decode_w5_config :
    (b0 b1 b2 b3 b4 b5 b6 b7 b8 b9 b10 b11 b12 b13 : ℕ)
    → AllBytes (b0 ∷ b1 ∷ b2 ∷ b3 ∷ b4 ∷ b5 ∷ b6 ∷ b7 ∷ b8 ∷ b9 ∷ b10 ∷ b11 ∷ b12 ∷ b13 ∷ [])
    → w5_config_payload (
        decode_w5_config
          (b0 ∷ b1 ∷ b2 ∷ b3 ∷ b4 ∷ b5 ∷ b6 ∷ b7 ∷ b8 ∷ b9 ∷ b10 ∷ b11 ∷ b12 ∷ b13 ∷ []))
      ≡ ok (some (b0 ∷ b1 ∷ b2 ∷ b3 ∷ b4 ∷ b5 ∷ b6 ∷ b7 ∷ b8 ∷ b9 ∷ b10 ∷ b11 ∷ b12 ∷ b13 ∷ []))
unfolding w5_config_payload decode_w5_config
w5_config_payload-decode_w5_config b0 b1 b2 b3 b4 b5 b6 b7 b8 b9 b10 b11 b12 b13 h =
    rw
      (w5_config_block-eq _ ((0 + b4) * 256 + b5) ((0 + b6) * 256 + b7) ((0 + b9) * 256 + b10)
        ((0 + b11) * 256 + b12) refl refl refl refl
        (omega arith, omega arith, omega arith, omega arith))
      (unfold low_byte in ground arith)
