-- ===== src/Codec/Hex.antt =====
-- `bytes.fromhex`: pairs of digits, with ASCII white space between the pairs.
pub mod Digits
use containers_nix.Prelude.{ℕ, ◌+◌, ◌*◌, true, false, ◌||◌, Option, none, some, [], ◌∷◌, ◌==◌}
use mathlib.Core.Option
use containers_nix.Codec.{Text, Bytes, is_between}
use containers_nix.Codec.Percent.{hex_value}

-- The high digit of a pair that was begun is `high`.
unfoldable pub fromhex_from : Option ℕ → Text → Option Bytes
unfolding hex_value is_between
fromhex_from none [] = some []
fromhex_from (some high) [] = none
fromhex_from none (c ∷ cs) = elim (c == 32 || is_between 9 13 c) [
  | true ↦ fromhex_from none cs
  | false ↦ elim (hex_value c) [ none ↦ none | some h ↦ fromhex_from (some h) cs ]
]
fromhex_from (some high) (c ∷ cs) = elim (hex_value c) [
  | none ↦ none
  | some l ↦ Option.map (λ bs. (high * 16 + l) ∷ bs) (fromhex_from none cs)
]

-- `none` is a `ValueError`.
unfoldable pub fromhex : Text → Option Bytes
unfolding fromhex_from
fromhex = fromhex_from none
