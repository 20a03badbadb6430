-- ===== src/Mqtt/Client/RoundTrip.antt =====
-- The client id that `mqtt/upstream.py` builds, to the parser of `mqtt/auth.py`.
use containers_nix.Prelude.{
  ℕ, ◌≡◌, refl, ap, ◌∙◌, Bool, true, not, some, List, [], ◌∷◌, ◌++◌, ◌==◌, All, All-append, arith,
}
use containers_nix.Codec.{Text, codes}
use containers_nix.Mqtt.Pattern.{
  lit, some_of, any_of, groups, prepend, at_end, strip_prefix, Passes, groups-some_of,
  groups-any_of,
}
use containers_nix.Mqtt.Client.{
  not_dot, not_bar, client_id_pattern, split_on, params_of, param, ClientId, parse_client_id,
  fixed_params, build_client_id,
}

abbrev not_comma : ℕ → Bool
not_comma c = not (c == b',')

-- Up to the first separator.
split_on-append :
    (a s : Text)
    → All (λ c. not_comma c ≡ true) a
    → split_on b',' (a ++ b',' ∷ s) ≡ a ∷ split_on b',' s
unfolding split_on
split_on-append [] s h = refl
split_on-append (c ∷ a) s h = rw (split_on-append a s h.1) (ground (arith, h.0))

groups-client :
    (pk dn params : Text)
    → Passes not_dot pk
    → Passes not_bar dn
    → All (λ c. not_bar c ≡ true) params
    → groups client_id_pattern (pk ++ (codes "." ++ (dn ++ (codes "|" ++ (params ++ codes "|")))))
      ≡ some (pk ∷ dn ∷ params ∷ [])
unfolding groups at_end strip_prefix
groups-client pk dn params hk hn hp =
    let last = lit (codes "|") ∷ [] in
    let middle = lit (codes "|") ∷ any_of not_bar ∷ last in
    groups-some_of not_dot (lit (codes ".") ∷ some_of not_bar ∷ middle) pk
      (codes "." ++ (dn ++ (codes "|" ++ (params ++ codes "|")))) hk refl
    ∙ ap (prepend pk)
        (groups-some_of not_bar middle dn (codes "|" ++ (params ++ codes "|")) hn refl)
    ∙ ap (λ r. prepend pk (prepend dn r)) (groups-any_of not_bar last params (codes "|") hp refl)

abbrev param_text : Text → Text
param_text ts = codes "timestamp=" ++ (ts ++ fixed_params)

abbrev built_params : Text → List (Text × Text)
built_params ts =
    (codes "timestamp", ts)
    ∷ (codes "_ss", codes "1")
    ∷ (codes "_v", codes "sdk-python-1.0")
    ∷ (codes "securemode", codes "2")
    ∷ (codes "signmethod", codes "hmacsha256")
    ∷ (codes "ext", codes "3")
    ∷ []

params_of-built :
    (ts : Text)
    → All (λ c. not_comma c ≡ true) ts
    → params_of (split_on b',' (param_text ts)) ≡ built_params ts
unfolding params_of split_on
params_of-built ts h = ap params_of (
    split_on-append (codes "timestamp=" ++ ts)
      (codes "_ss=1,_v=sdk-python-1.0,securemode=2,signmethod=hmacsha256,ext=3,")
      (All-append _ (codes "timestamp=") ts (ground arith) h))

param_text-All :
    (ts : Text) → All (λ c. not_bar c ≡ true) ts → All (λ c. not_bar c ≡ true) (param_text ts)
param_text-All ts h =
    All-append _ (codes "timestamp=") (ts ++ fixed_params) (ground arith)
      (All-append _ ts fixed_params h (ground arith))

-- A client id built for a product key with no full stop, a device name with no bar, neither of them
-- empty, and a time stamp with no comma and no bar, is parsed to the same three, and among its
-- parameters are the time stamp and the signature's method.
pub parse_client_id-build :
    (pk dn ts : Text)
    → Passes not_dot pk
    → Passes not_bar dn
    → All (λ c. not_comma c ≡ true) ts
    → All (λ c. not_bar c ≡ true) ts
    → (c : ClientId) × (parse_client_id (build_client_id pk dn ts) ≡ some c)
      × (c.product_key ≡ pk)
      × (c.device_name ≡ dn)
      × (c.timestamp ≡ ts)
      × (param (codes "timestamp") [] c.params ≡ ts)
      × (param (codes "signmethod") [] c.params ≡ codes "hmacsha256")
unfolding parse_client_id build_client_id param
parse_client_id-build pk dn ts hk hn hc hb = (
  record { product_key = pk; device_name = dn; timestamp = ts; params = built_params ts },
  rw (groups-client pk dn (param_text ts) hk hn (param_text-All ts hb), params_of-built ts hc),
  refl,
  refl,
  refl,
  refl,
  refl,
)
