-- ===== src/Codec.antt =====
-- The parts of Python's standard library that the frame layer uses: `base64`, `urllib.parse`, the
-- UTF-8 decoder, `bytes.fromhex` and `str.strip`. A text is the list of its code points.
pub mod Base64
pub mod Percent
pub mod Hex
use containers_nix.Prelude.{
  ℕ, zero, suc, ◌+◌, ◌-◌, ◌*◌, ◌/◌, ◌%◌, ◌<◌, ◌≡◌, ◌⊎◌, Bool, true, false, ◌&&◌, ◌||◌, not, Option,
  none, some, List, [], ◌∷◌, ◌++◌, reverse, ltb, leb, refl, All-reverse, ◌==◌, if◌then◌else◌, All,
}
use Prim.Native.Char.{code}
use Prim.Native.String.{String}
use Prim.Native.String
use mathlib.Core.List.{reverse-reverse}

abbrev pub Text : Type 0
Text = List ℕ

abbrev pub Bytes : Type 0
Bytes = List ℕ

-- Every item is a byte.
abbrev pub AllBytes : List ℕ → Type 0
AllBytes = All (λ b. b < 256)

-- The code points of a literal.
abbrev pub codes : String → Text
codes String.[] = []
codes (String.◌∷◌ c s) = code c ∷ codes s

unfoldable pub is_between : ℕ → ℕ → ℕ → Bool
is_between lo hi c = leb lo c && leb c hi

-- `str.isspace` of one character
unfoldable pub is_space : ℕ → Bool
unfolding is_between
is_space c =
    is_between 9 13 c
    || is_between 28 32 c
    || c == 0x85
    || c == 0xA0
    || c == 0x1680
    || is_between 0x2000 0x200A c
    || is_between 0x2028 0x2029 c
    || c == 0x202F
    || c == 0x205F
    || c == 0x3000

-- `str.lower` of one character, as far as the result is ASCII: the capitals and the Kelvin sign.
abbrev pub lower : ℕ → ℕ
lower c = if leb b'A' c && leb c b'Z' then c + 32 else if c == 0x212A then b'k' else c

unfoldable pub lstrip : Text → Text
lstrip [] = []
lstrip (c ∷ cs) = elim (is_space c) [ true ↦ lstrip cs | false ↦ c ∷ cs ]

-- `str.strip()`
unfoldable pub strip : Text → Text
unfolding lstrip is_space
strip s = reverse (lstrip (reverse (lstrip s)))

lstrip_id : (s : Text) → All (λ c. is_space c ≡ false) s → lstrip s ≡ s
unfolding lstrip
lstrip_id [] h = refl
lstrip_id (c ∷ cs) h = rw (h.0, lstrip)

-- A text with no white space in it is left as it is.
pub strip_id : (s : Text) → All (λ c. is_space c ≡ false) s → strip s ≡ s
unfolding strip
strip_id s h = rw (lstrip_id s h, lstrip_id (reverse s) (All-reverse _ s h)) (reverse-reverse s)
