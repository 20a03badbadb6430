-- ===== src/Ble/Ctw3/Mode.antt =====
-- The mode that a CTW3's decoder stores is always a real one.
use containers_nix.Prelude.{
  ℕ, ◌≡◌, refl, ◌⊎◌, inl, inr, String, str_eq, Bool, true, false, ◌||◌, none, some, List, [], ◌∷◌,
  ltb, leb, get_or, if◌then◌else◌, All, Bool-cases, arith, length,
}
use containers_nix.Prelude.Int.{ℤ, pos}
use containers_nix.Prelude.Dict.{Dict, lookup, insert, update}
use containers_nix.Codec.{Bytes}
use containers_nix.Value.{Value, equals_int}
use containers_nix.Ble.Framing.{iter_ble_frames}
use containers_nix.Ble.Block.{Decoded, nothing_decoded, is_fountain_mode, slice}
use containers_nix.Ble.Ctw3.{
  decode_ctw3_config, decode_ctw3_status, short_states, with_mode, apply_ctw3_frame,
  apply_ctw3_frames, parse_ctw3_ble_response,
}

abbrev pub IsRealMode : ℤ → Type 0
IsRealMode v = (v ≡ pos 1) ⊎ (v ≡ pos 2)

-- An entry named `mode` holds a real mode.
abbrev ModeEntry : String × ℤ → Type 0
ModeEntry e = (str_eq e.0 "mode" ≡ false) ⊎ IsRealMode e.1

abbrev ModeSafe : Dict ℤ → Type 0
ModeSafe = All ModeEntry

insert-ModeSafe :
    (key : String) (v : ℤ) (d : Dict ℤ)
    → ModeEntry (key, v)
    → ModeSafe d
    → ModeSafe (insert key v d)
unfolding insert
insert-ModeSafe key v [] e h = (e, tt)
insert-ModeSafe key v ((k, w) ∷ d) e h = elim (Bool-cases (str_eq k key)) [
  | inl q ↦ rw (q, insert) (e, h.1)
  | inr q ↦ rw (q, insert) (h.0, insert-ModeSafe key v d e h.1)
]

update-ModeSafe : (d e : Dict ℤ) → ModeSafe d → ModeSafe e → ModeSafe (update d e)
unfolding update
update-ModeSafe d [] h k = h
update-ModeSafe d ((key, v) ∷ e) h k =
    update-ModeSafe (insert key v d) e (insert-ModeSafe key v d k.0 h) k.1

lookup-ModeSafe :
    (d : Dict ℤ)
    → ModeSafe d
    → (lookup "mode" d ≡ none) ⊎ ((v : ℤ) × (lookup "mode" d ≡ some v) × IsRealMode v)
unfolding lookup
lookup-ModeSafe [] h = inl refl
lookup-ModeSafe ((k, v) ∷ d) (here, rest) = elim (Bool-cases (str_eq k "mode")) [
  | inl q ↦ rw (q, lookup) (inr (v, refl, ground (arith, here)))
  | inr q ↦ rw (q, lookup) (lookup-ModeSafe d rest)
]

if-ModeSafe : (b : Bool) (d e : Dict ℤ) → ModeSafe d → ModeSafe e → ModeSafe (if b then d else e)
if-ModeSafe true d e h k = h
if-ModeSafe false d e h k = k

config-ModeSafe : (tail : Bytes) → ModeSafe (decode_ctw3_config tail)
unfolding decode_ctw3_config
config-ModeSafe tail = if-ModeSafe (ltb (length tail) 12) [] _ tt (
  inl refl,
  (
    inl refl,
    (
      inl refl,
      (inl refl, (inl refl, (inl refl, (inl refl, (inl refl, (inl refl, (inl refl, tt))))))),
    ),
  ),
)

with_mode-ModeSafe : (mode : ℕ) (d : Dict ℤ) → ModeSafe d → ModeSafe (with_mode mode d)
unfolding is_fountain_mode
with_mode-ModeSafe mode d h = elim (Bool-cases (is_fountain_mode mode)) [
  | inl e ↦ rw (e, is_fountain_mode) (inr (ground arith), h)
  | inr e ↦ rw (e, is_fountain_mode) h
]

short-ModeSafe : (block : Bytes) → ModeSafe (short_states block)
short-ModeSafe block = (
  inl refl,
  (
    inl refl,
    with_mode-ModeSafe (get_or block 2 0) _ (
      inl refl,
      (
        inl refl,
        (
          inl refl,
          (
            inl refl,
            (
              inl refl,
              (
                inl refl,
                (
                  inl refl,
                  (
                    inl refl,
                    (inl refl, (inl refl, (inl refl, (inl refl, (inl refl, (inl refl, tt)))))),
                  ),
                ),
              ),
            ),
          ),
        ),
      ),
    ),
  ),
)

abbrev tail_config : Bytes → Dict ℤ
tail_config block = decode_ctw3_config (slice 30 12 block)

status-ModeSafe : (block : Bytes) → ModeSafe (decode_ctw3_status block).states
unfolding decode_ctw3_status
status-ModeSafe block = elim (Bool-cases (ltb (length block) 26)) [
  | inl e ↦ rw (e, decode_ctw3_status) tt
  | inr e ↦
      rw (e, decode_ctw3_status)
        (if-ModeSafe (leb 42 (length block)) (update (short_states block) (tail_config block))
          (short_states block)
          (update-ModeSafe (short_states block) (tail_config block) (short-ModeSafe block)
            (config-ModeSafe (slice 30 12 block)))
          (short-ModeSafe block))
]

frame-ModeSafe :
    (d : Decoded) (f : Value × Bytes) → ModeSafe d.states → ModeSafe (apply_ctw3_frame d f).states
unfolding apply_ctw3_frame
frame-ModeSafe d (cmd, []) h = h
frame-ModeSafe d (cmd, b ∷ bs) h = elim (Bool-cases (equals_int cmd 230 || equals_int cmd 210)) [
  | inl e ↦
      rw (e, apply_ctw3_frame)
        (update-ModeSafe d.states (decode_ctw3_status (b ∷ bs)).states h (status-ModeSafe (b ∷ bs)))
  | inr e ↦ elim (Bool-cases (equals_int cmd 211)) [
    | inl e' ↦
        rw (e, e', apply_ctw3_frame)
          (update-ModeSafe d.states (decode_ctw3_config (b ∷ bs)) h (config-ModeSafe (b ∷ bs)))
    | inr e' ↦ rw (e, e', apply_ctw3_frame) h
  ]
]

frames-ModeSafe :
    (d : Decoded) (frames : List (Value × Bytes))
    → ModeSafe d.states
    → ModeSafe (apply_ctw3_frames d frames).states
unfolding apply_ctw3_frames
frames-ModeSafe d [] h = h
frames-ModeSafe d (f ∷ frames) h =
    frames-ModeSafe (apply_ctw3_frame d f) frames (frame-ModeSafe d f h)

-- Whatever a CTW3 response holds, the states decoded from it name no `mode`, or name 1 or 2: the 0
-- that the device reports while it sleeps is never stored.
pub parse_ctw3_ble_response-mode :
    (content : Value)
    → (lookup "mode" (parse_ctw3_ble_response content).states ≡ none)
      ⊎ ((v : ℤ) × (lookup "mode" (parse_ctw3_ble_response content).states ≡ some v) × IsRealMode v)
unfolding parse_ctw3_ble_response
parse_ctw3_ble_response-mode content =
    lookup-ModeSafe _ (frames-ModeSafe nothing_decoded (iter_ble_frames content) tt)
