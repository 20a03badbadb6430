-- ===== src/Mqtt/Client.antt =====
-- The client id of a device: parsed by `mqtt/auth.py`, built by `mqtt/upstream.py`.
pub mod RoundTrip
use containers_nix.Prelude.{
  ℕ, Bool, true, false, not, Option, none, some, List, [], ◌∷◌, ◌++◌, ◌==◌, if◌then◌else◌,
}
use containers_nix.Codec.{Text, codes}
use containers_nix.Mqtt.Pattern.{Pattern, lit, some_of, any_of, groups, span, strip_prefix}
use containers_nix.Value.Equal.{text_eq}

-- `[^.]`
abbrev pub not_dot : ℕ → Bool
not_dot c = not (c == b'.')

-- `[^|]`
abbrev pub not_bar : ℕ → Bool
not_bar c = not (c == b'|')

abbrev pub client_id_pattern : Pattern
client_id_pattern =
    some_of not_dot
    ∷ lit (codes ".")
    ∷ some_of not_bar
    ∷ lit (codes "|")
    ∷ any_of not_bar
    ∷ lit (codes "|")
    ∷ []

-- `s.split(c)`: the parts, at least one.
unfoldable pub split_on : ℕ → Text → List Text
split_on c [] = [] ∷ []
split_on c (d ∷ s) =
    let rest = split_on c s in
    if d == c
    then [] ∷ rest
    else (elim rest [ [] ↦ (d ∷ []) ∷ [] | part ∷ parts ↦ (d ∷ part) ∷ parts ])

abbrev pub not_equals : ℕ → Bool
not_equals c = not (c == b'=')

-- One part of the parameters: a name and a value, or nothing if it has no `=`.
abbrev pub pair_of : Text × Text → Option (Text × Text)
pair_of (k, []) = none
pair_of (k, c ∷ v) = some (k, v)

abbrev pub with_pair : Option (Text × Text) → List (Text × Text) → List (Text × Text)
with_pair none rest = rest
with_pair (some kv) rest = kv ∷ rest

-- The names and values in order; of a name that stands twice, the later value counts.
unfoldable pub params_of : List Text → List (Text × Text)
unfolding span
params_of [] = []
params_of (part ∷ parts) = with_pair (pair_of (span not_equals part)) (params_of parts)

-- `params.get(name, default)`
unfoldable pub param : Text → Text → List (Text × Text) → Text
unfolding text_eq
param name default [] = default
param name default ((k, v) ∷ rest) = param name (if text_eq k name then v else default) rest

pub record ClientId : Type 0 where
  pub product_key : Text
  pub device_name : Text
  pub timestamp : Text
  pub params : List (Text × Text)

abbrev pub client_of : Option (List Text) → Option ClientId
client_of (some (pk ∷ dn ∷ params_str ∷ [])) =
    let params = params_of (split_on b',' params_str) in
    some (record {
      product_key = pk;
      device_name = dn;
      timestamp = param (codes "timestamp") [] params;
      params = params;
    })
client_of _ = none

unfoldable pub parse_client_id : Text → Option ClientId
unfolding groups params_of split_on param
parse_client_id client_id = client_of (groups client_id_pattern client_id)

-- The parameters behind the time stamp.
abbrev pub fixed_params : Text
fixed_params = codes ",_ss=1,_v=sdk-python-1.0,securemode=2,signmethod=hmacsha256,ext=3,"

unfoldable pub build_client_id : Text → Text → Text → Text
build_client_id product_key device_name timestamp =
    let params = codes "timestamp=" ++ (timestamp ++ fixed_params) in
    product_key ++ (codes "." ++ (device_name ++ (codes "|" ++ (params ++ codes "|"))))
