-- ===== src/Prelude/Dict.antt =====
-- A Python `dict` with text keys, in insertion order.
use Prim.Native.String.{String}
use mathlib.Core.Bool.{Bool, false, ◌||◌}
use mathlib.Core.List.{List, [], ◌∷◌}
use mathlib.Core.Option.{Option, none, some}
use mathlib.Core.Path.{◌≡◌, refl}
use native.Mathlib.Omega.{arith}
use text.Mathlib.Text.{◌==◌ as str_eq}
use text.Mathlib.TextEquality.{eq_iff}
use containers_nix.Prelude.Tests.{if◌then◌else◌}

abbrev pub Dict {ℓ} : Type ℓ → Type ℓ
Dict V = List (String × V)

-- `key in names`
unfoldable pub one_of : String → List String → Bool
one_of key [] = false
one_of key (k ∷ ks) = str_eq k key || one_of key ks

module _ {ℓ} {V : Type ℓ} where
  -- `d.get(key)`
  unfoldable pub lookup : String → Dict V → Option V
  lookup key [] = none
  lookup key ((k, v) ∷ d) = if str_eq k key then some v else lookup key d

  -- `d[key] = value`
  unfoldable pub insert : String → V → Dict V → Dict V
  insert key v [] = (key, v) ∷ []
  insert key v ((k, w) ∷ d) = if str_eq k key then (key, v) ∷ d else (k, w) ∷ insert key v d

  -- `d.pop(key, None)`
  unfoldable pub remove : String → Dict V → Dict V
  remove key [] = []
  remove key ((k, v) ∷ d) = let rest = remove key d in if str_eq k key then rest else (k, v) ∷ rest

  -- `d.update(e)`
  unfoldable pub update : Dict V → Dict V → Dict V
  unfolding insert
  update d [] = d
  update d ((k, v) ∷ e) = update (insert k v d) e

  pub lookup-insert :
      (key j : String) (v : V) (d : Dict V)
      → lookup j (insert key v d) ≡ (if str_eq key j then some v else lookup j d)
  unfolding lookup insert
  lookup-insert key j v [] = refl
  lookup-insert key j v ((i, w) ∷ d) =
      ground (arith, eq_iff key j, eq_iff i key, eq_iff i j, lookup-insert key j v d)

  pub lookup-remove :
      (key j : String) (d : Dict V)
      → lookup j (remove key d) ≡ (if str_eq key j then none else lookup j d)
  unfolding lookup remove
  lookup-remove key j [] = ground arith
  lookup-remove key j ((i, w) ∷ d) =
      ground (arith, eq_iff key j, eq_iff i key, eq_iff i j, lookup-remove key j d)
