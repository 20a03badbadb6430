-- ===== src/Ble/Framing/Fallback.antt =====
-- The hexadecimal fallback of `_ble_decode_data`: when it is reached.
use containers_nix.Prelude.{
  ℕ, ◌+◌, ◌*◌, ◌/◌, ◌%◌, ◌<◌, ◌≡◌, refl, ap, ◌∙◌, Option, none, some, [], ◌∷◌, arith, length,
}
use mathlib.Core.Option
use mathlib.Core.Option.{some-injective}
use containers_nix.Codec.{Text, Bytes, AllBytes}
use containers_nix.Codec.Base64.{q0, q1, q2, q3, Quad, take_value, move, a2b_base64, b64decode}
use containers_nix.Codec.Hex.{fromhex}
use containers_nix.Codec.Hex.Digits.{
  hex_digit, hex, IsDigit, hex-All, high, low, fromhex-hex, digits-ascii, strip-unquote,
}
use containers_nix.Value.{str}
use containers_nix.Ble.Framing.{decode_text, ble_decode_data}

value : (c : ℕ) → IsDigit c → ℕ
value c h = h.4.0

move-digit : (q : Quad) (pads c : ℕ) (h : IsDigit c) → move q pads c ≡ take_value q (value c h)
unfolding move value
move-digit q pads c h = rw (h.3, h.4.1, move)

first_digit :
    (pads c : ℕ) (cs : Text) (h : IsDigit c)
    → a2b_base64 q0 pads (c ∷ cs) ≡ a2b_base64 (q1 (value c h)) 0 cs
unfolding a2b_base64 take_value
first_digit pads c cs h = rw (move-digit q0 pads c h, a2b_base64)

second_digit :
    (left pads c : ℕ) (cs : Text) (h : IsDigit c)
    → a2b_base64 (q1 left) pads (c ∷ cs)
      ≡ Option.map (λ bs. (left * 4 + value c h / 16) ∷ bs) (a2b_base64 (q2 (value c h % 16)) 0 cs)
unfolding a2b_base64 take_value
second_digit left pads c cs h = rw (move-digit (q1 left) pads c h, a2b_base64)

third_digit :
    (left pads c : ℕ) (cs : Text) (h : IsDigit c)
    → a2b_base64 (q2 left) pads (c ∷ cs)
      ≡ Option.map (λ bs. (left * 16 + value c h / 4) ∷ bs) (a2b_base64 (q3 (value c h % 4)) 0 cs)
unfolding a2b_base64 take_value
third_digit left pads c cs h = rw (move-digit (q2 left) pads c h, a2b_base64)

last_digit :
    (left pads c : ℕ) (cs : Text) (h : IsDigit c)
    → a2b_base64 (q3 left) pads (c ∷ cs)
      ≡ Option.map (λ bs. (left * 64 + value c h) ∷ bs) (a2b_base64 q0 0 cs)
unfolding a2b_base64 take_value
last_digit left pads c cs h = rw (move-digit (q3 left) pads c h, a2b_base64)

-- Two digits at the end of a text leave a group of four unfinished.
two_digits : (b : ℕ) → b < 256 → a2b_base64 q0 0 (hex (b ∷ [])) ≡ none
unfolding a2b_base64
two_digits b h =
    first_digit 0 (hex_digit (b / 16)) (hex_digit (b % 16) ∷ []) (high b h)
    ∙ second_digit (value _ (high b h)) 0 (hex_digit (b % 16)) [] (low b)

-- Two bytes are four digits, which are three bytes of base64.
abbrev triple : (a b : ℕ) → a < 256 → b < 256 → Bytes → Bytes
triple a b h k rest =
    (value _ (high a h) * 4 + value _ (low a) / 16)
    ∷ (value _ (low a) % 16 * 16 + value _ (high b k) / 4)
    ∷ (value _ (high b k) % 4 * 64 + value _ (low b))
    ∷ rest

four_digits :
    (a b : ℕ) (bs : Bytes) (h : a < 256) (k : b < 256) (r : Option Bytes)
    → a2b_base64 q0 0 (hex bs) ≡ r
    → a2b_base64 q0 0 (hex (a ∷ b ∷ bs)) ≡ Option.map (triple a b h k) r
four_digits a b bs h k none e =
    first_digit 0 _ _ (high a h)
    ∙ second_digit _ 0 _ _ (low a)
    ∙ ap (Option.map _) (
        third_digit _ 0 _ _ (high b k)
        ∙ ap (Option.map _) (last_digit _ 0 _ _ (low b) ∙ ap (Option.map _) e))
four_digits a b bs h k (some out) e =
    first_digit 0 _ _ (high a h)
    ∙ second_digit _ 0 _ _ (low a)
    ∙ ap (Option.map _) (
        third_digit _ 0 _ _ (high b k)
        ∙ ap (Option.map _) (last_digit _ 0 _ _ (low b) ∙ ap (Option.map _) e))

-- An odd number of bytes is no base64.
odd_hex : (bs : Bytes) → AllBytes bs → length bs % 2 ≡ 1 → a2b_base64 q0 0 (hex bs) ≡ none
odd_hex [] h o = absurd (omega arith)
odd_hex (b ∷ []) h o = two_digits b h.0
odd_hex (a ∷ b ∷ bs) h o = four_digits a b bs h.0 h.1.0 none (odd_hex bs h.1.1 (omega arith))

-- An even number of bytes is base64 of half as many again.
even_hex :
    (bs : Bytes)
    → AllBytes bs
    → length bs % 2 ≡ 0
    → (out : Bytes) × (a2b_base64 q0 0 (hex bs) ≡ some out) × (2 * length out ≡ 3 * length bs)
even_hex [] h o = ([], (unfold a2b_base64 in refl), refl)
even_hex (b ∷ []) h o = absurd (omega arith)
even_hex (a ∷ b ∷ bs) h o =
    let (out, run, size) = even_hex bs h.1.1 (omega arith) in
    (triple a b h.0 h.1.0 out, four_digits a b bs h.0 h.1.0 (some out) run, omega arith)

b64decode-hex : (bs : Bytes) → AllBytes bs → b64decode (hex bs) ≡ a2b_base64 q0 0 (hex bs)
unfolding b64decode
b64decode-hex bs h = rw (digits-ascii (hex bs) (hex-All bs h), b64decode)

-- A frame that arrives as hexadecimal text is decoded to its bytes where their number is odd: then the
-- text is no base64, and the fallback is reached.
pub ble_decode_data-hex :
    (bs : Bytes) → AllBytes bs → length bs % 2 ≡ 1 → ble_decode_data (str (hex bs)) ≡ some bs
unfolding ble_decode_data decode_text fromhex
ble_decode_data-hex bs h o =
    ap decode_text (strip-unquote (hex bs) (hex-All bs h))
    ∙ rw (b64decode-hex bs h, odd_hex bs h o, decode_text) (fromhex-hex bs h)

-- A frame that arrives as hexadecimal text and has an even number of bytes, not none, is never decoded
-- to its bytes: the text is taken for base64, and other bytes, more of them, come out.
pub ble_decode_data-hex_even :
    (bs : Bytes)
    → AllBytes bs
    → length bs % 2 ≡ 0
    → 0 < length bs
    → (out : Bytes) × (ble_decode_data (str (hex bs)) ≡ some out) × (length bs < length out)
unfolding ble_decode_data decode_text
ble_decode_data-hex_even bs h o p =
    let (out, run, size) = even_hex bs h o in
    (
      out,
      ap decode_text (strip-unquote (hex bs) (hex-All bs h))
          ∙ rw (b64decode-hex bs h, run, decode_text),
      omega arith,
    )
