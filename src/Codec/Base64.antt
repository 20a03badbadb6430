-- ===== src/Codec/Base64.antt =====
-- `base64.b64encode` and `base64.b64decode` (not validating), after CPython's `binascii`.
pub mod RoundTrip
use containers_nix.Prelude.{
  ℕ, zero, suc, ◌+◌, ◌-◌, ◌*◌, ◌/◌, ◌%◌, Bool, true, false, ◌&&◌, Option, none, some, List, [], ◌∷◌,
  ltb, leb, ◌==◌, if◌then◌else◌,
}
use mathlib.Core.Option
use containers_nix.Codec.{Text, Bytes}

-- The character of a value below 64.
unfoldable pub b64_char : ℕ → ℕ
b64_char v =
    if ltb v 26
    then v + b'A'
    else if ltb v 52
    then v + 71
    else if ltb v 62
    then v - 4
    else if v == 62
    then b'+'
    else b'/'

unfoldable pub b64encode : Bytes → Text
unfolding b64_char
b64encode [] = []
b64encode (a ∷ []) = b64_char (a / 4) ∷ b64_char (a % 4 * 16) ∷ b'=' ∷ b'=' ∷ []
b64encode (a ∷ b ∷ []) =
    b64_char (a / 4) ∷ b64_char (a % 4 * 16 + b / 16) ∷ b64_char (b % 16 * 4) ∷ b'=' ∷ []
b64encode (a ∷ b ∷ c ∷ rest) =
    b64_char (a / 4)
    ∷ b64_char (a % 4 * 16 + b / 16)
    ∷ b64_char (b % 16 * 4 + c / 64)
    ∷ b64_char (c % 64)
    ∷ b64encode rest

-- The value of a character of the alphabet.
unfoldable pub b64_value : ℕ → Option ℕ
b64_value c =
    if leb b'A' c && leb c b'Z'
    then some (c - b'A')
    else if leb b'a' c && leb c b'z'
    then some (c - 71)
    else if leb b'0' c && leb c b'9'
    then some (c + 4)
    else if c == b'+'
    then some 62
    else if c == b'/'
    then some 63
    else none

-- How many characters of the current four were read, with the bits left over.
pub data Quad : Type 0 where
  q0 : Quad
  q1 q2 q3 : ℕ → Quad

pub data Move : Type 0 where
  stop : Move
  skip : ℕ → Move
  shift : Quad → Move
  emit : ℕ → Quad → Move

unfoldable pub pad : Quad → ℕ → Move
pad q0 pads = skip pads
pad (q1 left) pads = skip pads
pad (q2 left) pads = if leb 4 (2 + suc pads) then stop else skip (suc pads)
pad (q3 left) pads = if leb 4 (3 + suc pads) then stop else skip (suc pads)

unfoldable pub take_value : Quad → ℕ → Move
take_value q0 v = shift (q1 v)
take_value (q1 left) v = emit (left * 4 + v / 16) (q2 (v % 16))
take_value (q2 left) v = emit (left * 16 + v / 4) (q3 (v % 4))
take_value (q3 left) v = emit (left * 64 + v) q0

unfoldable pub move : Quad → ℕ → ℕ → Move
unfolding pad take_value b64_value
move q pads c =
    if c == b'='
    then pad q pads
    else elim (b64_value c) [ none ↦ skip pads | some v ↦ take_value q v ]

-- `binascii.a2b_base64`, which passes over what is not in the alphabet; `none` is `binascii.Error`.
unfoldable pub a2b_base64 : Quad → ℕ → Text → Option Bytes
unfolding move
a2b_base64 q0 pads [] = some []
a2b_base64 _ pads [] = none
a2b_base64 q pads (c ∷ cs) = elim (move q pads c) [
  | stop ↦ some []
  | skip p ↦ a2b_base64 q p cs
  | shift q' ↦ a2b_base64 q' 0 cs
  | emit b q' ↦ Option.map (λ bs. b ∷ bs) (a2b_base64 q' 0 cs)
]

unfoldable pub is_ascii : Text → Bool
is_ascii [] = true
is_ascii (c ∷ cs) = ltb c 128 && is_ascii cs

-- `base64.b64decode` of a text; `none` is a `ValueError`.
unfoldable pub b64decode : Text → Option Bytes
unfolding a2b_base64 is_ascii
b64decode s = if is_ascii s then a2b_base64 q0 0 s else none
