-- ===== src/Codec/Hex/Digits.antt =====
-- Hexadecimal text as `bytes.hex` writes it: `bytes.fromhex` reads it back, and `unquote` and `strip`
-- leave it as it is.
use containers_nix.Prelude.{
  ℕ, ◌+◌, ◌*◌, ◌/◌, ◌%◌, ◌<◌, ◌≡◌, refl, ap, ◌∙◌, true, false, none, some, [], ◌∷◌, ltb, ◌==◌, ◌||◌,
  All, arith, if◌then◌else◌,
}
use containers_nix.Codec.{Text, Bytes, AllBytes, is_space, strip, strip_id, is_between}
use containers_nix.Codec.Base64.{b64_value, is_ascii}
use containers_nix.Codec.Percent.{hex_value, utf8_decode, unquote, unquote_bytes, unquote_step}
use containers_nix.Codec.Percent.RoundTrip.{unquote_from-Ascii, utf8_decode-Ascii, Ascii}
use containers_nix.Codec.Hex.{fromhex_from}

-- `bytes.hex`
abbrev pub hex_digit : ℕ → ℕ
hex_digit n = if ltb n 10 then n + 48 else n + 87

abbrev pub hex : Bytes → Text
hex [] = []
hex (b ∷ bs) = hex_digit (b / 16) ∷ hex_digit (b % 16) ∷ hex bs

-- What the decoders need to know of a hexadecimal digit.
abbrev pub IsDigit : ℕ → Type 0
IsDigit c =
    (c < 128)
    × (is_space c ≡ false)
    × ((c == 37) ≡ false)
    × ((c == 61) ≡ false)
    × ((v : ℕ) × (b64_value c ≡ some v))

hex_digit-IsDigit : (n : ℕ) → n < 16 → IsDigit (hex_digit n)
unfolding is_space is_between b64_value
hex_digit-IsDigit n h = (
  ground arith,
  ground arith,
  ground arith,
  ground arith,
  ((if ltb n 10 then n + 52 else n + 16), ground arith),
)

pub high : (b : ℕ) → b < 256 → IsDigit (hex_digit (b / 16))
high b h = hex_digit-IsDigit (b / 16) (omega arith)

pub low : (b : ℕ) → IsDigit (hex_digit (b % 16))
low b = hex_digit-IsDigit (b % 16) (omega arith)

pub hex-All : (bs : Bytes) → AllBytes bs → All IsDigit (hex bs)
hex-All [] h = tt
hex-All (b ∷ bs) h = (high b h.0, (low b, hex-All bs h.1))

hex_value-hex_digit : (n : ℕ) → n < 16 → hex_value (hex_digit n) ≡ some n
unfolding hex_value is_between
hex_value-hex_digit n h = ground arith

no_gap : (n : ℕ) → n < 16 → (hex_digit n == 32 || is_between 9 13 (hex_digit n)) ≡ false
unfolding is_between
no_gap n h = ground arith

fromhex_high :
    (c v : ℕ) (cs : Text)
    → (c == 32 || is_between 9 13 c) ≡ false
    → hex_value c ≡ some v
    → fromhex_from none (c ∷ cs) ≡ fromhex_from (some v) cs
unfolding fromhex_from
fromhex_high c v cs g h = rw (g, h, fromhex_from)

fromhex_low :
    (high c v : ℕ) (cs : Text) (bs : Bytes)
    → hex_value c ≡ some v
    → fromhex_from none cs ≡ some bs
    → fromhex_from (some high) (c ∷ cs) ≡ some ((high * 16 + v) ∷ bs)
unfolding fromhex_from
fromhex_low high c v cs bs h k = rw (h, k, fromhex_from)

pub fromhex-hex : (bs : Bytes) → AllBytes bs → fromhex_from none (hex bs) ≡ some bs
unfolding fromhex_from
fromhex-hex [] h = refl
fromhex-hex (b ∷ bs) h =
    fromhex_high (hex_digit (b / 16)) (b / 16) (hex_digit (b % 16) ∷ hex bs)
      (no_gap (b / 16) (omega (arith, h.0))) (hex_value-hex_digit (b / 16) (omega (arith, h.0)))
    ∙ fromhex_low (b / 16) (hex_digit (b % 16)) (b % 16) (hex bs) bs
        (hex_value-hex_digit (b % 16) (omega arith)) (fromhex-hex bs h.1)
    ∙ ap (λ x. some (x ∷ bs)) (omega arith)

-- Text of digits passes `unquote` and `strip` as it is.
unquote_bytes-digits : (s : Text) → All IsDigit s → unquote_bytes 0 s ≡ s
unfolding unquote_bytes unquote_step
unquote_bytes-digits [] h = refl
unquote_bytes-digits (c ∷ cs) h =
    rw (h.0.2, unquote_bytes) (ap (◌∷◌ c) (unquote_bytes-digits cs h.1))

digits-Ascii : (s : Text) → All IsDigit s → Ascii s
digits-Ascii [] h = tt
digits-Ascii (c ∷ cs) h = (h.0.0, digits-Ascii cs h.1)

digits-solid : (s : Text) → All IsDigit s → All (λ c. is_space c ≡ false) s
digits-solid [] h = tt
digits-solid (c ∷ cs) h = (h.0.1, digits-solid cs h.1)

pub digits-ascii : (s : Text) → All IsDigit s → is_ascii s ≡ true
unfolding is_ascii
digits-ascii [] h = refl
digits-ascii (c ∷ cs) h = ground (arith, h.0.0, digits-ascii cs h.1)

pub strip-unquote : (s : Text) → All IsDigit s → strip (unquote s) ≡ s
unfolding unquote
strip-unquote s h =
    ap strip (
      unquote_from-Ascii [] s (digits-Ascii s h)
      ∙ ap (utf8_decode 0) (unquote_bytes-digits s h)
      ∙ utf8_decode-Ascii s (digits-Ascii s h))
    ∙ strip_id s (digits-solid s h)
