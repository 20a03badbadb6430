-- ===== src/Redact/Blocking.antt =====
-- `http/redact/rules.py`: the two rules that take an object out, a shell command and a firmware image.
use containers_nix.Prelude.{
  ℕ, Bool, true, false, ◌&&◌, ◌||◌, not, Option, none, some, List, [], ◌∷◌, ◌++◌, ◌==◌, String,
  str_eq, map, if◌then◌else◌,
}
use containers_nix.Codec.{Text, codes, lower}
use containers_nix.Value.{Value, str, obj, Fields, field, end, field_of}
use containers_nix.Mqtt.Pattern.{strip_prefix, span}
use containers_nix.Mqtt.Topics.{ends_with, starts_with}
use containers_nix.Redact.Model.{Step, key, Rule, rce, ota, Out, Policy}

-- `key in node`
unfoldable pub has : String → Fields → Bool
has k end = false
has k (field j v rest) = str_eq j k || has k rest

abbrev pub has_any : List String → Fields → Bool
has_any [] node = false
has_any (k ∷ ks) node = has k node || has_any ks node

abbrev pub note : Rule → List Step → Value → Out → Out
note rule path original out = record out {
  records = out.records ++ record { rule = rule; path = path; original = original } ∷ [];
}

abbrev pub fields_of : Option Value → Option Fields
fields_of (some (obj fs)) = some fs
fields_of _ = none

-- The command of `user_cmd.run_cmd`, if there is one.
unfoldable pub run_cmd_of : Fields → Option Value
unfolding field_of
run_cmd_of node = elim (fields_of (field_of "user_cmd" node)) [
  | none ↦ none
  | some cmd ↦ field_of "run_cmd" cmd
]

abbrev pub or_user_cmd : List Step → List Step
or_user_cmd [] = key "user_cmd" ∷ []
or_user_cmd (s ∷ path) = s ∷ path

unfoldable pub match_rce : Fields → List Step → Policy → Out → Bool × Out
unfolding run_cmd_of
match_rce node path policy out =
    if not policy.block_rce then (false, out) else elim (run_cmd_of node) [
      | none ↦ (false, out)
      | some cmd ↦ (true, note rce (or_user_cmd path) cmd out)
    ]

unfoldable pub is_http_url : Option Value → Bool
unfolding strip_prefix
is_http_url (some (str s)) =
    let low = map lower s in starts_with (codes "http://") low || starts_with (codes "https://") low
is_http_url _ = false

abbrev pub ends_with_any : List Text → Text → Bool
ends_with_any [] s = false
ends_with_any (l ∷ ls) s = ends_with l s || ends_with_any ls s

abbrev pub ota_suffixes : List Text
ota_suffixes =
    codes ".bin"
    ∷ codes ".img"
    ∷ codes ".ota"
    ∷ codes ".pkg"
    ∷ codes ".fw"
    ∷ codes ".rom"
    ∷ codes ".tar"
    ∷ codes ".tar.gz"
    ∷ codes ".gz"
    ∷ codes ".zip"
    ∷ []

-- `url.split(c, 1)[0]`
abbrev pub before_char : ℕ → Text → Text
before_char c s = (span (λ d. not (d == c)) s).0

unfoldable pub looks_like_firmware : Option Value → Bool
unfolding span ends_with
looks_like_firmware (some (str url)) =
    ends_with_any ota_suffixes (map lower (before_char b'#' (before_char b'?' url)))
looks_like_firmware _ = false

abbrev pub ota_explicit_keys : List String
ota_explicit_keys = "otaUrl" ∷ "firmwareUrl" ∷ "upgradeUrl" ∷ []

abbrev pub ota_url_keys : List String
ota_url_keys = "url" ∷ "downloadUrl" ∷ "fileUrl" ∷ "packageUrl" ∷ []

abbrev pub ota_sibling_keys : List String
ota_sibling_keys = "md5" ∷ "size" ∷ "fileSize" ∷ "version" ∷ "firmwareVersion" ∷ []

-- `next((k for k in keys if …), None)`
abbrev pub first_key : (String → Bool) → List String → Option String
first_key p [] = none
first_key p (k ∷ ks) = if p k then some k else first_key p ks

unfoldable pub ota_key : Fields → Option String
unfolding has field_of is_http_url looks_like_firmware
ota_key node = elim (first_key (λ k. is_http_url (field_of k node)) ota_explicit_keys) [
  | some k ↦ some k
  | none ↦
      first_key
        (λ k.
          is_http_url (field_of k node)
          && looks_like_firmware (field_of k node)
          && has_any ota_sibling_keys node)
        ota_url_keys
]

unfoldable pub match_ota_shape : Fields → List Step → Policy → Out → Bool × Out
unfolding ota_key
match_ota_shape node path policy out =
    if not policy.block_ota then (false, out) else elim (ota_key node) [
      | none ↦ (false, out)
      | some k ↦ (true, note ota (path ++ key k ∷ []) (obj node) out)
    ]
