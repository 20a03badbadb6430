-- ===== src/Redact/Body.antt =====
-- `http/redact/__init__.py`: a whole answer of the cloud, or a whole frame, made safe for the device.
-- `json.loads` on the bytes of a body and `json.dumps(…).encode()` are parameters, as they are for texts.
pub mod Answer
use containers_nix.Prelude.{
  ℕ, Bool, true, false, ◌&&◌, ◌||◌, not, Option, none, some, List, [], ◌∷◌, ◌==◌, reverse,
  if◌then◌else◌,
}
use containers_nix.Prelude.Int.{pos}
use containers_nix.Codec.{Text, Bytes, codes}
use containers_nix.Value.{
  Value, null, int, str, obj, arr, Fields, field, end, cons, nil, field_of, with_field, truthy,
  or_else,
}
use containers_nix.Value.Equal.{text_eq, same}
use containers_nix.Mqtt.Pattern.{span}
use containers_nix.Redact.Model.{
  Redaction, ota, log_upload, server, Out, nothing_yet, Ours, Policy, is_blocking,
}
use containers_nix.Redact.Rules.{has, note, fields_of}
use containers_nix.Redact.Walker.{Kept, drop, keep, Walked, is_container, walk}

pub record RedactionResult : Type 0 where
  pub body : Bytes
  pub out : Out

-- `blocked`: the records that are worth keeping.
unfoldable pub blocked : List Redaction → List Redaction
blocked [] = []
blocked (r ∷ rs) = let rest = blocked rs in if is_blocking r.rule then r ∷ rest else rest

-- `s.rstrip("/")`, from the end
unfoldable pub after_slashes : Text → Text
after_slashes [] = []
after_slashes (c ∷ s) = let rest = after_slashes s in if c == b'/' then rest else c ∷ s

unfoldable pub last_segment : Text → Text
unfolding after_slashes span
last_segment path = reverse (span (λ c. not (c == b'/')) (after_slashes (reverse path))).0

abbrev pub is_ota_endpoint : Text → Bool
is_ota_endpoint name =
    text_eq name (codes "dev_ota_check") || text_eq name (codes "dev_ota_heartbeat")

abbrev pub is_log_upload_endpoint : Text → Bool
is_log_upload_endpoint name =
    text_eq name (codes "dev_upload_log_token") || text_eq name (codes "dev_upload_log")

abbrev pub is_serverinfo_endpoint : Text → Bool
is_serverinfo_endpoint name = text_eq name (codes "dev_serverinfo")

-- `OTA_CHECK_EMPTY`, `LOG_UPLOAD_EMPTY`, and what is left of a body that is dropped
abbrev pub empty_result : Fields
empty_result = field "result" (obj end) end

abbrev pub log_upload_done : Fields
log_upload_done = field "result" (str (codes "success")) end

abbrev pub our_token : Option Fields → Fields
our_token none = empty_result
our_token (some body) =
    if truthy (or_else null (field_of "result" body)) then body else empty_result

abbrev pub is_some : Option Ours → Bool
is_some none = false
is_some (some device) = true

abbrev pub token_of : Option Ours → Option Fields
token_of none = none
token_of (some device) = device.log_upload_token

unfoldable pub log_upload_answer : Text → Policy → Fields
unfolding text_eq field_of truthy
log_upload_answer name policy =
    if text_eq name (codes "dev_upload_log")
    then log_upload_done
    else our_token (token_of policy.device)

-- `to_serverinfo` of `devices/payloads.py`
unfoldable pub to_serverinfo : Text → Fields
to_serverinfo api_url =
    field "result"
      (obj (
        field "apiServers" (arr (cons (str api_url) nil)) (
          field "ipServers" (arr nil) (
            field "dns" (str []) (
              field "pimServers" null
                (field "linked" (int (pos 1)) (field "nextTick" (int (pos 3600)) end)))))))
      end

unfoldable pub offers_an_update : Value → Bool
unfolding truthy field_of
offers_an_update (obj fs) = truthy (or_else null (field_of "result" fs))
offers_an_update decoded = truthy decoded

-- The object of a refusal, with its code.
abbrev pub refusal : Option Fields → Option Fields
refusal none = none
refusal (some error) = if has "code" error then some error else none

module _ (loads_body : Bytes → Option Value) where
  unfoldable pub decode : Bytes → Option Value
  decode [] = none
  decode (b ∷ body) = is_container (loads_body (b ∷ body))

  unfoldable pub cloud_error : Bytes → Option Fields
  unfolding decode field_of has
  cloud_error body = elim (fields_of (decode body)) [
    | none ↦ none
    | some decoded ↦ refusal (fields_of (field_of "error" decoded))
  ]

-- The body to send in place of what the walk leaves, or of nothing.
abbrev pub left_of_body : Value → Kept → Value
left_of_body decoded drop = obj empty_result
left_of_body (obj decoded) (keep (obj cleaned)) =
    if has "result" decoded && not (has "result" cleaned)
    then obj (with_field "result" (obj end) cleaned)
    else obj cleaned
left_of_body decoded (keep cleaned) = cleaned

abbrev pub left_of_frame : Kept → Value
left_of_frame drop = obj end
left_of_frame (keep cleaned) = cleaned

module _ (loads : Text → Option Value) (dumps : Value → Text) (loads_body : Bytes → Option Value)
    (encode : Value → Bytes) where
  abbrev pub sent : (Kept → Value) → Walked → Option RedactionResult
  sent left none = none
  sent left (some (got, out)) = some (record { body = encode (left got); out = out })

  -- The branches of `redact_body` for a body that is decoded.
  unfoldable pub redact_data : ℕ → Text → Policy → Value → Option RedactionResult
  unfolding text_eq offers_an_update same has with_field
  redact_data n name policy decoded =
      if policy.block_ota && is_ota_endpoint name
      then some (record {
        body = encode (obj empty_result);
        out = if offers_an_update decoded then note ota [] decoded nothing_yet else nothing_yet;
      })
      else if policy.block_log_upload && is_log_upload_endpoint name
      then some (record {
        body = encode (obj (log_upload_answer name policy));
        out = note log_upload [] decoded nothing_yet;
      })
      else if is_some policy.device && is_serverinfo_endpoint name
      then some (record {
        body = encode (obj (to_serverinfo policy.api_url));
        out =
            if same decoded (obj (to_serverinfo policy.api_url))
            then nothing_yet
            else note server [] decoded nothing_yet;
      })
      else sent (left_of_body decoded) (walk loads dumps n policy false decoded [] nothing_yet)

  unfoldable pub redact_body : ℕ → Bytes → Text → Policy → Option RedactionResult
  unfolding decode last_segment
  redact_body n body endpoint policy = elim (decode loads_body body) [
    | none ↦ some (record { body = body; out = nothing_yet })
    | some decoded ↦ redact_data n (last_segment endpoint) policy decoded
  ]

  -- `redact_mqtt`; `encode` is the compact one here.
  unfoldable pub redact_mqtt : ℕ → Bytes → Policy → Option RedactionResult
  unfolding decode
  redact_mqtt n payload policy = elim (decode loads_body payload) [
    | none ↦ some (record { body = payload; out = nothing_yet })
    | some decoded ↦ sent left_of_frame (walk loads dumps n policy false decoded [] nothing_yet)
  ]
