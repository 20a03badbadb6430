-- ===== src/Ble/Framing/RoundTrip.antt =====
-- What `build_ble_frame` writes, the reading side takes apart again.
use containers_nix.Prelude.{
  ℕ, ◌+◌, ◌%◌, ◌≡◌, refl, ap, true, some, List, [], ◌∷◌, ◌++◌, map, leb, le→leb, All, All-append,
  arith, length, length-append,
}
use containers_nix.Codec.{Bytes, AllBytes, strip_id}
use containers_nix.Codec.Base64.{b64encode}
use containers_nix.Codec.Base64.RoundTrip.{
  b64encode-ascii, b64encode-printable, b64decode-b64encode,
}
use containers_nix.Codec.Percent.RoundTrip.{unquote-quote}
use containers_nix.Value.{
  Value, int, str, obj, arr, Items, cons, nil, field, end, field_of, items_of,
}
use containers_nix.Prelude.Int.{pos}
use containers_nix.Ble.Framing.{
  decode_text, ble_decode_data, init, ble_unframe, iter_ble_frames, frames_of, frame_of,
  payload_items, loose_items, ble_frame_body, build_ble_frame, ble_frame_header_len,
}

init_snoc : (bs : Bytes) (b : ℕ) → init (bs ++ b ∷ []) ≡ bs
unfolding init
init_snoc [] b = refl
init_snoc (c ∷ []) b = refl
init_snoc (c ∷ d ∷ bs) b = ap (◌∷◌ c) (init_snoc (d ∷ bs) b)

ble_frame_body-AllBytes :
    (cmd seq : ℕ) (payload : Bytes) → AllBytes payload → AllBytes (ble_frame_body cmd seq payload)
unfolding ble_frame_body
ble_frame_body-AllBytes cmd seq payload h = (
  omega arith,
  (
    omega arith,
    (
      omega arith,
      (
        omega arith,
        (
          omega arith,
          (omega arith, (omega arith, (omega arith, All-append _ payload _ h (omega arith)))),
        ),
      ),
    ),
  ),
)

length_frame :
    (cmd seq : ℕ) (payload : Bytes)
    → leb (ble_frame_header_len + 1) (length (ble_frame_body cmd seq payload)) ≡ true
unfolding ble_frame_body
length_frame cmd seq payload = le→leb _ _ (omega (arith, length-append payload (0xFB ∷ [])))

-- The length test of `_ble_unframe` passes on every frame that is built.
ble_unframe-ble_frame_body :
    (cmd seq : ℕ) (payload : Bytes)
    → ble_unframe (ble_frame_body cmd seq payload) ≡ (some (cmd % 256), payload)
unfolding ble_unframe ble_frame_body
ble_unframe-ble_frame_body cmd seq payload =
    rw (length_frame cmd seq payload, ble_unframe)
      (ap (λ rest. (some (cmd % 256), rest)) (init_snoc payload 0xFB))

ble_decode_data-build_ble_frame :
    (cmd seq : ℕ) (payload : Bytes)
    → AllBytes payload
    → ble_decode_data (str (build_ble_frame cmd seq payload))
      ≡ some (ble_frame_body cmd seq payload)
unfolding ble_decode_data decode_text build_ble_frame
ble_decode_data-build_ble_frame cmd seq payload h =
    let bytes = ble_frame_body-AllBytes cmd seq payload h in
    let body = ble_frame_body cmd seq payload in
    rw (
      unquote-quote (b64encode body) (b64encode-ascii body bytes),
      strip_id (b64encode body) (b64encode-printable body bytes),
      b64decode-b64encode body bytes,
      decode_text,
    )

-- An entry of a relayed response: the outer `cmd`, whatever it says, and a frame in its encoding.
pub record Sent : Type 0 where
  pub outer : Value
  pub cmd : ℕ
  pub seq : ℕ
  pub payload : Bytes

abbrev pub item_of : Sent → Value
item_of s =
    obj (field "cmd" s.outer (field "data" (str (build_ble_frame s.cmd s.seq s.payload)) end))

abbrev pub items_sent : List Sent → Items
items_sent [] = nil
items_sent (s ∷ ss) = cons (item_of s) (items_sent ss)

frame_of-item_of :
    (s : Sent)
    → AllBytes s.payload
    → frame_of (item_of s) ≡ some (int (pos (s.cmd % 256)), s.payload)
unfolding frame_of field_of
frame_of-item_of s h = rw (
  ble_decode_data-build_ble_frame s.cmd s.seq s.payload h,
  ble_unframe-ble_frame_body s.cmd s.seq s.payload,
  frame_of,
)

frames_of-sent :
    (ss : List Sent)
    → All (λ (s : Sent). AllBytes s.payload) ss
    → frames_of (items_of (items_sent ss) ++ [])
      ≡ map (λ (s : Sent). (int (pos (s.cmd % 256)), s.payload)) ss
unfolding frames_of items_of
frames_of-sent [] h = refl
frames_of-sent (s ∷ ss) h =
    rw (frame_of-item_of s h.0, frames_of)
      (ap (◌∷◌ (int (pos (s.cmd % 256)), s.payload)) (frames_of-sent ss h.1))

-- A relayed response whose entries carry frames as `build_ble_frame` encodes them (base64, then
-- percent-encoded) is read back as those frames, in order: the command byte of each frame, whatever
-- the outer `cmd` says, and the payload as it was, of any length.
pub iter_ble_frames-build_ble_frame :
    (ss : List Sent)
    → All (λ (s : Sent). AllBytes s.payload) ss
    → iter_ble_frames (obj (field "payload" (arr (items_sent ss)) end))
      ≡ map (λ (s : Sent). (int (pos (s.cmd % 256)), s.payload)) ss
unfolding iter_ble_frames payload_items loose_items field_of
iter_ble_frames-build_ble_frame ss h = frames_of-sent ss h
