-- ===== src/Codec/Percent.antt =====
-- `urllib.parse.quote` and `unquote`, with the UTF-8 decoder that replaces what is malformed.
pub mod RoundTrip
use containers_nix.Prelude.{
  ℕ, zero, suc, ◌+◌, ◌-◌, ◌*◌, ◌/◌, ◌%◌, Bool, true, false, ◌&&◌, ◌||◌, Option, none, some, List,
  [], ◌∷◌, ◌++◌, ltb, leb, ◌==◌, if◌then◌else◌,
}
use containers_nix.Codec.{Text, Bytes, is_between}

-- The characters that `quote` leaves: letters, digits, `_.-~` and the default `safe`, `/`.
unfoldable pub is_safe : ℕ → Bool
unfolding is_between
is_safe c =
    is_between b'A' b'Z' c
    || is_between b'a' b'z' c
    || is_between b'0' b'9' c
    || c == b'_'
    || c == b'.'
    || c == b'-'
    || c == b'~'
    || c == b'/'

unfoldable pub hex_upper : ℕ → ℕ
hex_upper n = if ltb n 10 then n + b'0' else n + 55

-- `quote` of an ASCII text
unfoldable pub quote : Text → Text
unfolding is_safe hex_upper
quote [] = []
quote (c ∷ cs) =
    let rest = quote cs in
    if is_safe c then c ∷ rest else b'%' ∷ hex_upper (c / 16) ∷ hex_upper (c % 16) ∷ rest

unfoldable pub hex_value : ℕ → Option ℕ
unfolding is_between
hex_value c =
    if is_between b'0' b'9' c
    then some (c - b'0')
    else if is_between b'A' b'F' c
    then some (c - 55)
    else if is_between b'a' b'f' c
    then some (c - 87)
    else none

abbrev pub pair_value : Option ℕ → Option ℕ → Option ℕ
pair_value (some h) (some l) = some (h * 16 + l)
pair_value _ _ = none

unfoldable pub escaped : Text → Option ℕ
unfolding hex_value
escaped (h ∷ l ∷ rest) = pair_value (hex_value h) (hex_value l)
escaped _ = none

-- The byte that stands at the head of a text, and how many further characters it takes.
unfoldable pub unquote_step : ℕ → Text → ℕ × ℕ
unfolding escaped
unquote_step c rest =
    if c == b'%' then (elim (escaped rest) [ none ↦ (c, 0) | some b ↦ (b, 2) ]) else (c, 0)

-- `unquote_to_bytes` of an ASCII text, after passing over `skipped` characters
unfoldable pub unquote_bytes : ℕ → Text → Bytes
unfolding unquote_step
unquote_bytes skipped [] = []
unquote_bytes (suc n) (c ∷ cs) = unquote_bytes n cs
unquote_bytes zero (c ∷ cs) = let (b, n) = unquote_step c cs in b ∷ unquote_bytes n cs

abbrev is_cont : ℕ → Bool
is_cont b = leb 0x80 b && leb b 0xBF

-- The continuation bytes of a sequence of `wanted` that begins so far with the value `acc`: the code
-- point and the bytes used, or U+FFFD for the longest part that is well formed.
unfoldable pub utf8_tail : (wanted used acc : ℕ) → Bytes → ℕ × ℕ
utf8_tail zero used acc bs = (acc, used)
utf8_tail (suc w) used acc [] = (0xFFFD, used)
utf8_tail (suc w) used acc (b ∷ bs) = elim (is_cont b) [
  | true ↦ utf8_tail w (suc used) (acc * 64 + b % 64) bs
  | false ↦ (0xFFFD, used)
]

-- A sequence whose first continuation byte lies in a narrower range.
unfoldable pub utf8_lead : (wanted acc lo hi : ℕ) → Bytes → ℕ × ℕ
unfolding utf8_tail
utf8_lead wanted acc lo hi [] = (0xFFFD, 0)
utf8_lead wanted acc lo hi (b ∷ bs) =
    if leb lo b && leb b hi then utf8_tail wanted 1 (acc * 64 + b % 64) bs else (0xFFFD, 0)

unfoldable pub utf8_step : ℕ → Bytes → ℕ × ℕ
unfolding utf8_lead is_between
utf8_step b bs =
    if ltb b 0x80
    then (b, 0)
    else if is_between 0xC2 0xDF b
    then utf8_lead 0 (b - 0xC0) 0x80 0xBF bs
    else if b == 0xE0
    then utf8_lead 1 0 0xA0 0xBF bs
    else if b == 0xED
    then utf8_lead 1 13 0x80 0x9F bs
    else if is_between 0xE1 0xEF b
    then utf8_lead 1 (b - 0xE0) 0x80 0xBF bs
    else if b == 0xF0
    then utf8_lead 2 0 0x90 0xBF bs
    else if is_between 0xF1 0xF3 b
    then utf8_lead 2 (b - 0xF0) 0x80 0xBF bs
    else if b == 0xF4
    then utf8_lead 2 4 0x80 0x8F bs
    else (0xFFFD, 0)

-- `bytes.decode("utf-8", "replace")`, after passing over `skipped` bytes
unfoldable pub utf8_decode : ℕ → Bytes → Text
unfolding utf8_step
utf8_decode skipped [] = []
utf8_decode (suc n) (b ∷ bs) = utf8_decode n bs
utf8_decode zero (b ∷ bs) = let (c, n) = utf8_step b bs in c ∷ utf8_decode n bs

-- `unquote`: each run of ASCII characters is decoded by itself, and the rest is kept.
unfoldable pub unquote_from : Text → Text → Text
unfolding utf8_decode unquote_bytes
unquote_from run [] = utf8_decode 0 (unquote_bytes 0 run)
unquote_from run (c ∷ cs) = elim (ltb c 128) [
  | true ↦ unquote_from (run ++ c ∷ []) cs
  | false ↦ utf8_decode 0 (unquote_bytes 0 run) ++ c ∷ unquote_from [] cs
]

unfoldable pub unquote : Text → Text
unfolding unquote_from
unquote = unquote_from []
