-- ===== src/Value.antt =====
-- The values that the JSON decoder hands over, and Python dictionaries with text keys. A finite
-- float is held as an integer count of thousandths.
pub mod Equal
use containers_nix.Prelude.{
  ℕ, ◌*◌, not, String, str_eq, Bool, true, false, Option, none, some, List, [], ◌∷◌, if◌then◌else◌,
  ◌==◌,
}
use containers_nix.Prelude.Int.{ℤ, pos}
use containers_nix.Codec.{Text, Bytes}

mutual
  pub data Value : Type 0 where
    null : Value
    bool : Bool → Value
    int : ℤ → Value
    float : ℤ → Value
    str : Text → Value
    bytes : Bytes → Value
    obj : Fields → Value
    arr : Items → Value

  -- A dictionary, in insertion order.
  pub data Fields : Type 0 where
    field : String → Value → Fields → Fields
    end : Fields

  -- A list.
  pub data Items : Type 0 where
    cons : Value → Items → Items
    nil : Items

-- `d.get(key)`, or whether `key in d`
unfoldable pub field_of : String → Fields → Option Value
field_of key end = none
field_of key (field k v rest) = if str_eq k key then some v else field_of key rest

unfoldable pub items_of : Items → List Value
items_of nil = []
items_of (cons v vs) = v ∷ items_of vs

-- `v == n` for a small integer
unfoldable pub equals_int : Value → ℕ → Bool
equals_int (int (pos k)) n = k == n
equals_int (float (pos k)) n = k == n * 1000
equals_int (bool true) n = n == 1
equals_int (bool false) n = n == 0
equals_int v n = false

-- `d.pop(key, …)`, what is left
unfoldable pub without : String → Fields → Fields
without key end = end
without key (field k v rest) = if str_eq k key then rest else field k v (without key rest)

-- `d[key] = v`
unfoldable pub with_field : String → Value → Fields → Fields
with_field key v end = field key v end
with_field key v (field k w rest) =
    if str_eq k key then field k v rest else field k w (with_field key v rest)

unfoldable pub truthy : Value → Bool
truthy null = false
truthy (bool b) = b
truthy (int (pos n)) = not (n == 0)
truthy (float (pos n)) = not (n == 0)
truthy (str []) = false
truthy (bytes []) = false
truthy (obj end) = false
truthy (arr nil) = false
truthy v = true

abbrev pub or_else : Value → Option Value → Value
or_else d none = d
or_else d (some v) = v
