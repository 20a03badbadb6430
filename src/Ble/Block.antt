-- ===== src/Ble/Block.antt =====
-- What the two fountain families share in reading and writing their fixed blocks: bytes at offsets,
-- big-endian shorts, and the refusals.
use containers_nix.Prelude.{
  ℕ, ◌+◌, ◌-◌, ◌*◌, ◌/◌, ◌%◌, String, Bool, none, some, List, [], ◌∷◌, ltb, lt→ltb, ◌≡◌, ◌<◌, ◌==◌,
  ◌||◌, if◌then◌else◌, take, drop, false, get_or,
}
use containers_nix.Prelude.Int.{ℤ, pos, negsuc}
use containers_nix.Prelude.Dict.{Dict, lookup}
use containers_nix.Codec.{Bytes}

-- Why no frame is sent: `Refused`, or the `OverflowError` of `to_bytes`.
pub data Error : Type 0 where
  not_writable : (key ble_type : String) → Error
  no_reading : List String → Error
  no_full_status no_settings_block overflow : Error

pub data Result {ℓ} (A : Type ℓ) : Type ℓ where
  ok : A → Result A
  err : Error → Result A

-- An error ends the chain.
infixl 5 ◌>>=◌
abbrev pub ◌>>=◌ {ℓ κ} :
    {Sent : Type ℓ} {Next : Type κ} → Result Sent → (Sent → Result Next) → Result Next
err refusal >>= next = err refusal
ok value >>= next = next value

-- What an accessory's handlers read of it: its kind, and the last decoded `states`.
pub record BleDevice : Type 0 where
  pub ble_type : String
  pub states : Dict ℤ

-- `x & 0xFF`
unfoldable pub low_byte : ℤ → ℕ
low_byte (pos n) = n % 256
low_byte (negsuc n) = 255 - n % 256

-- `data[off]`; every offset used is below the length that was tested.
abbrev pub byte_at : ℕ → Bytes → ℤ
byte_at off block = pos (get_or block off 0)

abbrev pub is_zero : ℤ → Bool
is_zero (pos n) = n == 0
is_zero (negsuc n) = false

-- `int.from_bytes(bs, "big")`
unfoldable pub from_bytes : ℕ → Bytes → ℕ
from_bytes acc [] = acc
from_bytes acc (b ∷ bs) = from_bytes (acc * 256 + b) bs

-- `data[off:off + width]`
abbrev pub slice : ℕ → ℕ → Bytes → Bytes
slice off width bs = take width (drop off bs)

-- `x.to_bytes(2, "big")`
unfoldable pub to_bytes2 : ℤ → Result Bytes
to_bytes2 (pos n) = if ltb n 65536 then ok (n / 256 ∷ n % 256 ∷ []) else err overflow
to_bytes2 (negsuc n) = err overflow

-- `int(state.get(key, 0))`
unfoldable pub get_int : String → Dict ℤ → ℤ
unfolding lookup
get_int key states = elim (lookup key states) [ none ↦ pos 0 | some v ↦ v ]

-- The keys of `needed` that a state lacks.
unfoldable pub missing : List String → Dict ℤ → List String
unfolding lookup
missing [] states = []
missing (k ∷ needed) states = elim (lookup k states) [
  | none ↦ k ∷ missing needed states
  | some _ ↦ missing needed states
]

-- `FOUNTAIN_MODES`
unfoldable pub is_fountain_mode : ℕ → Bool
is_fountain_mode mode = mode == 1 || mode == 2

pub record Decoded : Type 0 where
  pub states : Dict ℤ
  pub consumables : Dict ℤ

abbrev pub nothing_decoded : Decoded
nothing_decoded = record { states = []; consumables = [] }

pub to_bytes2_fits : (n : ℕ) → n < 65536 → to_bytes2 (pos n) ≡ ok (n / 256 ∷ n % 256 ∷ [])
unfolding to_bytes2
to_bytes2_fits n h = rw (lt→ltb n 65536 h)
