-- ===== src/Redact/Walker.antt =====
-- `http/redact/walker.py`: the descent that carries the rules to every object of a body. `json.loads`
-- and `json.dumps` are parameters. Each call of `_walk` takes one unit of fuel; `none` means that the
-- fuel ran out.
pub mod Patched
pub mod Everywhere
pub mod Loop
pub mod Safe
pub mod Whole
pub mod Shell
pub mod Address
pub mod Ours
pub mod Ends
use containers_nix.Prelude.{
  ℕ, zero, suc, ◌+◌, Bool, true, false, ◌&&◌, ◌||◌, not, Option, none, some, List, [], ◌∷◌, ◌++◌,
  ◌==◌, String, str_eq, if◌then◌else◌,
}
use containers_nix.Prelude.Dict.{one_of}
use containers_nix.Codec.{Text, lstrip}
use containers_nix.Value.{Value, str, obj, arr, Fields, field, end, Items, cons, nil}
use containers_nix.Value.Equal.{same}
use containers_nix.Redact.Model.{Step, key, index, Out, Policy}
use containers_nix.Redact.Rules.{
  match_rce, match_ota_shape, match_server, match_mqtt, match_oss_sts, match_cvr_capacity,
  match_secret, match_locale,
}

-- What a node becomes: its replacement, or `_DROP`.
pub data Kept : Type 0 where
  drop : Kept
  keep : Value → Kept

abbrev pub Walked : Type 0
Walked = Option (Kept × Out)

-- The walk of a child, at its path.
abbrev pub Visit : Type 0
Visit = Value → List Step → Out → Walked

abbrev pub add_item : Kept → Items → Items
add_item drop rest = rest
add_item (keep v) rest = cons v rest

abbrev pub then_items : Kept → Option (Items × Out) → Option (Items × Out)
then_items got none = none
then_items got (some (rest, out)) = some (add_item got rest, out)

unfoldable pub walk_items : Visit → List Step → ℕ → Items → Out → Option (Items × Out)
walk_items visit path i nil out = some (nil, out)
walk_items visit path i (cons v vs) out = elim (visit v (path ++ index i ∷ []) out) [
  | none ↦ none
  | some (got, next) ↦ then_items got (walk_items visit path (i + 1) vs next)
]

-- The fields that are left, and whether one was dropped.
pub record Cleaned : Type 0 where
  pub cleaned : Fields
  pub tainted : Bool

abbrev pub add_field : String → Kept → Cleaned → Cleaned
add_field k drop rest = record rest { tainted = true }
add_field k (keep v) rest = record rest { cleaned = field k v rest.cleaned }

abbrev pub then_fields : String → Kept → Option (Cleaned × Out) → Option (Cleaned × Out)
then_fields k got none = none
then_fields k got (some (rest, out)) = some (add_field k got rest, out)

-- The loop over `node.items()`; a key comes once.
unfoldable pub walk_fields : Visit → List Step → List String → Fields → Out → Option (Cleaned × Out)
unfolding one_of
walk_fields visit path seen end out = some (record { cleaned = end; tainted = false }, out)
walk_fields visit path seen (field k v rest) out = elim (one_of k seen) [
  | true ↦ walk_fields visit path seen rest out
  | false ↦ elim (visit v (path ++ key k ∷ []) out) [
    | none ↦ none
    | some (got, next) ↦ then_fields k got (walk_fields visit path (k ∷ seen) rest next)
  ]
]

-- The rules that rewrite an object, one after the other: the last four,
unfoldable pub behind_broker : Fields → List Step → Policy → Out → Fields × Out
behind_broker node path policy out =
    let (node3, out3) = match_oss_sts node path policy out in
    let (node4, out4) = match_cvr_capacity node3 path policy out3 in
    let (node5, out5) = match_secret node4 path policy out4 in match_locale node5 path policy out5

-- with the broker's before them,
unfoldable pub behind_server : Fields → List Step → Policy → Out → Fields × Out
unfolding behind_broker
behind_server node path policy out =
    let (node2, out2) = match_mqtt node path policy out in behind_broker node2 path policy out2

-- and with the server's before those.
unfoldable pub rewrite_object : Fields → List Step → Policy → Out → Fields × Out
unfolding behind_server
rewrite_object node path policy out =
    let (node1, out1) = match_server node path policy out in behind_server node1 path policy out1

abbrev pub object_left : Bool → Option (Cleaned × Out) → Walked
object_left in_list none = none
object_left in_list (some (c, out)) =
    if c.tainted && in_list then some (drop, out) else some (keep (obj c.cleaned), out)

unfoldable pub walk_dict : Visit → Fields → List Step → Policy → Bool → Out → Walked
unfolding rewrite_object walk_fields match_rce match_ota_shape
walk_dict visit node path policy in_list out =
    let (is_command, out1) = match_rce node path policy out in
    if is_command
    then some (drop, out1)
    else let (is_firmware, out2) = match_ota_shape node path policy out1 in
      if is_firmware
      then some (drop, out2)
      else let (patched, out3) = rewrite_object node path policy out2 in
        object_left in_list (walk_fields visit path [] patched out3)

abbrev pub list_left : Option (Items × Out) → Walked
list_left none = none
list_left (some (xs, out)) = some (keep (arr xs), out)

-- The object or array that a text encodes.
abbrev pub is_container : Option Value → Option Value
is_container (some (obj fs)) = some (obj fs)
is_container (some (arr xs)) = some (arr xs)
is_container _ = none

abbrev pub opens : Text → Bool
opens [] = false
opens (c ∷ s) = c == b'{' || c == b'['

module _ (loads : Text → Option Value) where
  unfoldable pub opened : Text → Option Value
  unfolding lstrip
  opened s = if opens (lstrip s) then is_container (loads s) else none

module _ (loads : Text → Option Value) (dumps : Value → Text) where
  abbrev pub reencoded : Text → Value → Walked → Walked
  reencoded s inner none = none
  reencoded s inner (some (drop, out)) = some (drop, out)
  reencoded s inner (some (keep got, out)) =
      if same got inner then some (keep (str s), out) else some (keep (str (dumps got)), out)

  unfoldable pub walk_json_string : Visit → Text → List Step → Out → Walked
  unfolding opened same
  walk_json_string visit s path out = elim (opened loads s) [
    | none ↦ some (keep (str s), out)
    | some inner ↦ reencoded s inner (visit inner path out)
  ]

  unfoldable pub walk : ℕ → Policy → Bool → Visit
  unfolding walk_dict walk_items walk_json_string
  walk zero policy in_list node path out = none
  walk (suc n) policy in_list (obj fs) path out =
      walk_dict (walk n policy false) fs path policy in_list out
  walk (suc n) policy in_list (arr xs) path out =
      list_left (walk_items (walk n policy true) path 0 xs out)
  walk (suc n) policy in_list (str s) path out = walk_json_string (walk n policy false) s path out
  walk (suc n) policy in_list v path out = some (keep v, out)
