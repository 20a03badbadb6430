-- ===== src/Ble/Framing.antt =====
-- addon/petkit_local/devices/ble/framing.py: the frame layer that both fountain families share.
pub mod RoundTrip
pub mod Fallback
use containers_nix.Prelude.{
  ℕ, zero, suc, ◌+◌, ◌-◌, ◌/◌, ◌%◌, ◌^◌, String, str_eq, Bool, true, false, ◌&&◌, ◌||◌, Option,
  none, some, List, [], ◌∷◌, ◌++◌, ltb, leb, ◌==◌, if◌then◌else◌, length, take, drop, get_or,
}
use containers_nix.Codec.{Text, Bytes, strip}
use containers_nix.Codec.Base64.{b64encode, b64decode}
use containers_nix.Codec.Percent.{quote, unquote}
use containers_nix.Codec.Hex.{fromhex}
use containers_nix.Value.{
  Value, null, int, str, bytes, arr, obj, bool, float, Items, nil, cons, Fields, end, field,
  field_of, items_of,
}
use containers_nix.Prelude.Int.{ℤ, pos}

abbrev pub ble_frame_header : Bytes
ble_frame_header = 0xFA ∷ 0xFC ∷ 0xFD ∷ []

abbrev pub ble_frame_trailer : ℕ
ble_frame_trailer = 0xFB

abbrev pub ble_frame_header_len : ℕ
ble_frame_header_len = 8

abbrev pub ble_type_request : ℕ
ble_type_request = 1

abbrev pub cmd_get_state : ℕ
cmd_get_state = 210

abbrev pub cmd_get_config : ℕ
cmd_get_config = 211

abbrev pub cmd_set_mode : ℕ
cmd_set_mode = 220

abbrev pub cmd_set_config : ℕ
cmd_set_config = 221

abbrev pub cmd_reset_filter : ℕ
cmd_reset_filter = 222

abbrev pub cmd_device_status : ℕ
cmd_device_status = 230

-- `cmd in BLE_SENDABLE`
unfoldable pub is_sendable : ℕ → Bool
is_sendable cmd = cmd == cmd_set_mode || cmd == cmd_set_config || cmd == cmd_reset_filter

unfoldable pub decode_text : Text → Option Bytes
decode_text s = elim (b64decode s) [ some bs ↦ some bs | none ↦ fromhex s ]

unfoldable pub ble_decode_data : Value → Option Bytes
unfolding decode_text
ble_decode_data (bytes bs) = some bs
ble_decode_data (str blob) = decode_text (strip (unquote blob))
ble_decode_data _ = none

abbrev same_bytes : Bytes → Bytes → Bool
same_bytes [] [] = true
same_bytes (a ∷ as') (b ∷ bs) = a == b && same_bytes as' bs
same_bytes _ _ = false

-- `bs[:-1]`
unfoldable pub init : Bytes → Bytes
init [] = []
init (b ∷ []) = []
init (b ∷ c ∷ bs) = b ∷ init (c ∷ bs)

unfoldable pub ble_unframe : Bytes → Option ℕ × Bytes
unfolding init
ble_unframe raw =
    if leb (ble_frame_header_len + 1) (length raw) && same_bytes (take 3 raw) ble_frame_header
    then (some (get_or raw 3 0), init (drop ble_frame_header_len raw))
    else (none, raw)

-- `items + [{"cmd": None, "data": content[alt]}]` for each `alt` that is present and not `None`
abbrev loose_item : Value → Value
loose_item v = obj (field "cmd" null (field "data" v end))

unfoldable pub loose_items : List String → Fields → List Value
loose_items [] content = []
loose_items (alt ∷ alts) content = elim (field_of alt content) [
  | none ↦ loose_items alts content
  | some null ↦ loose_items alts content
  | some v ↦ loose_item v ∷ loose_items alts content
]

unfoldable pub payload_items : Option Value → List Value
payload_items (some (arr items)) = items_of items
payload_items _ = []

abbrev pick_cmd : Option ℕ → Option Value → Value
pick_cmd (some c) v = int (pos c)
pick_cmd none (some v) = v
pick_cmd none none = null

-- One pass of the loop: the frame that an item carries, if it carries one.
unfoldable pub frame_of : Value → Option (Value × Bytes)
unfolding ble_decode_data ble_unframe
frame_of (obj item) = elim (field_of "data" item) [
  | none ↦ none
  | some blob ↦ elim (ble_decode_data blob) [
    | none ↦ none
    | some raw ↦ some (pick_cmd (ble_unframe raw).0 (field_of "cmd" item), (ble_unframe raw).1)
  ]
]
frame_of _ = none

unfoldable pub frames_of : List Value → List (Value × Bytes)
unfolding frame_of
frames_of [] = []
frames_of (item ∷ items) = elim (frame_of item) [
  | none ↦ frames_of items
  | some f ↦ f ∷ frames_of items
]

unfoldable pub iter_ble_frames : Value → List (Value × Bytes)
unfolding frames_of payload_items loose_items
iter_ble_frames (obj content) = frames_of (
    payload_items (field_of "payload" content)
    ++ loose_items ("data" ∷ "value" ∷ "frame" ∷ []) content)
iter_ble_frames _ = []

-- The bytes of an outbound frame, before they are encoded.
unfoldable pub ble_frame_body : ℕ → ℕ → Bytes → Bytes
ble_frame_body cmd seq payload =
    ble_frame_header
    ++ (cmd % 256
        ∷ ble_type_request
        ∷ seq % 256
        ∷ length payload % 256
        ∷ length payload / 256 % 256
        ∷ (payload ++ ble_frame_trailer ∷ []))

unfoldable pub build_ble_frame : ℕ → ℕ → Bytes → Text
unfolding ble_frame_body
build_ble_frame cmd seq payload = quote (b64encode (ble_frame_body cmd seq payload))

unfoldable pub ble_command_frame : ℕ → ℕ → Bytes → Option Text
unfolding is_sendable build_ble_frame
ble_command_frame cmd seq payload =
    if is_sendable cmd then some (build_ble_frame cmd seq payload) else none
