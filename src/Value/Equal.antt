-- ===== src/Value/Equal.antt =====
-- `==` of two JSON values, where the keys of equal objects stand in the same order.
use containers_nix.Prelude.{
  ℕ, ◌*◌, ◌+◌, Bool, true, false, ◌&&◌, Option, none, some, List, [], ◌∷◌, ◌==◌, str_eq,
}
use containers_nix.Prelude.Int.{ℤ, pos, negsuc}
use containers_nix.Value.{
  Value, null, bool, int, float, str, bytes, obj, arr, Fields, field, end, Items, cons, nil,
}

unfoldable pub text_eq : List ℕ → List ℕ → Bool
text_eq [] [] = true
text_eq [] (d ∷ t) = false
text_eq (c ∷ s) [] = false
text_eq (c ∷ s) (d ∷ t) = c == d && text_eq s t

-- A number in thousandths.
abbrev pub number_of : Value → Option ℤ
number_of (bool true) = some (pos 1000)
number_of (bool false) = some (pos 0)
number_of (int (pos n)) = some (pos (n * 1000))
number_of (int (negsuc n)) = some (negsuc (n * 1000 + 999))
number_of (float z) = some z
number_of _ = none

abbrev pub int_eq : ℤ → ℤ → Bool
int_eq (pos a) (pos b) = a == b
int_eq (negsuc a) (negsuc b) = a == b
int_eq _ _ = false

abbrev pub number_eq : Option ℤ → Option ℤ → Bool
number_eq (some a) (some b) = int_eq a b
number_eq _ _ = false

unfoldable mutual
  unfolding text_eq

  pub same : Value → Value → Bool
  same null null = true
  same (str s) (str t) = text_eq s t
  same (bytes s) (bytes t) = text_eq s t
  same (obj a) (obj b) = same_fields a b
  same (arr a) (arr b) = same_items a b
  same v w = number_eq (number_of v) (number_of w)

  pub same_fields : Fields → Fields → Bool
  same_fields end end = true
  same_fields (field k v a) (field j w b) = str_eq k j && same v w && same_fields a b
  same_fields _ _ = false

  pub same_items : Items → Items → Bool
  same_items nil nil = true
  same_items (cons v a) (cons w b) = same v w && same_items a b
  same_items _ _ = false
