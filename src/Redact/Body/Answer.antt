-- ===== src/Redact/Body/Answer.antt =====
-- What `redact_body` of `http/redact/__init__.py` sends in place of an answer of the cloud.
use containers_nix.Prelude.{
  length, ℕ, zero, suc, ◌+◌, ◌≤◌, ◌≡◌, refl, ap, ◌∙◌, inl, inr, Bool, true, false, ◌&&◌, Option,
  none, some, [], String, str_eq, if◌then◌else◌, Bool-cases, eq_iff,
}
use containers_nix.Codec.{Text, Bytes, codes}
use containers_nix.Value.{
  Value, null, obj, Fields, field, end, field_of, with_field, truthy, or_else,
}
use containers_nix.Value.Equal.{text_eq}
use containers_nix.Redact.Model.{Out, nothing_yet, Ours, Policy}
use containers_nix.Redact.Rules.{has}
use containers_nix.Redact.Walker.{Kept, drop, keep, walk}
use containers_nix.Redact.Walker.Safe.{walk_dict-keep}
use containers_nix.Redact.Walker.Patched.{OursAll}
use containers_nix.Redact.Walker.Ends.{weight, Ends, walk-Ends}
use containers_nix.Redact.Body.{
  RedactionResult, is_some, is_ota_endpoint, is_log_upload_endpoint, is_serverinfo_endpoint,
  empty_result, our_token, log_upload_answer, to_serverinfo, decode, left_of_body, sent,
  redact_data, redact_body, token_of, last_segment,
}

with_field-has : (k : String) (v : Value) (fs : Fields) → has k (with_field k v fs) ≡ true
unfolding has with_field
with_field-has k v end = rw ((eq_iff k k).1 refl)
with_field-has k v (field j w fs) = elim (Bool-cases (str_eq j k)) [
  | inl y ↦ rw (y, with_field, has, y)
  | inr n ↦ rw (n, with_field, has, n) (with_field-has k v fs)
]

found-has :
    (k : String) (fs : Fields) → truthy (or_else null (field_of k fs)) ≡ true → has k fs ≡ true
unfolding has field_of truthy
found-has k end h = cc
found-has k (field j w fs) h = elim (Bool-cases (str_eq j k)) [
  | inl y ↦ rw y
  | inr n ↦ rw n (found-has k fs (rw n at h))
]

our_token-has : (r : Option Fields) → has "result" (our_token r) ≡ true
unfolding has
our_token-has none = refl
our_token-has (some body) = elim (Bool-cases (truthy (or_else null (field_of "result" body)))) [
  | inl y ↦ rw y (found-has "result" body y)
  | inr n ↦ rw n
]

log_upload_answer-has :
    (name : Text) (policy : Policy) → has "result" (log_upload_answer name policy) ≡ true
unfolding log_upload_answer has
log_upload_answer-has name policy = elim (Bool-cases (text_eq name (codes "dev_upload_log"))) [
  | inl y ↦ rw y
  | inr n ↦ rw n (our_token-has (token_of policy.device))
]

left_of_body-has :
    (fs gs : Fields)
    → has "result" fs ≡ true
    → (hs : Fields) × (left_of_body (obj fs) (keep (obj gs)) ≡ obj hs) × (has "result" hs ≡ true)
left_of_body-has fs gs h = elim (Bool-cases (has "result" gs)) [
  | inl y ↦ (gs, rw (h, y), y)
  | inr n ↦ (with_field "result" (obj end) gs, rw (h, n), with_field-has "result" (obj end) gs)
]

-- An object that is sent and has a result.
abbrev pub Answers : (Value → Bytes) → Option RedactionResult → Type 0
Answers encode r =
    (sent_result : RedactionResult) × (answer : Fields) × (r ≡ some sent_result)
    × (sent_result.body ≡ encode (obj answer))
    × (has "result" answer ≡ true)

module _ (loads : Text → Option Value) (dumps : Value → Text) (loads_body : Bytes → Option Value)
    (encode : Value → Bytes) (policy : Policy) where
  if-Answers :
      (b : Bool) (r s : Option RedactionResult)
      → Answers encode r
      → Answers encode s
      → Answers encode (if b then r else s)
  if-Answers true r s h k = h
  if-Answers false r s h k = k

  sent-Answers :
      (n : ℕ) (fs : Fields)
      → has "result" fs ≡ true
      → ((x : Kept × Out) × (walk loads dumps n policy false (obj fs) [] nothing_yet ≡ some x))
      → Answers encode (
          sent loads dumps loads_body encode
            (left_of_body (obj fs))
            (walk loads dumps n policy false (obj fs) [] nothing_yet))
  unfolding walk has
  sent-Answers zero fs h ((got, out), e) = cc
  sent-Answers (suc n) fs h ((drop, out), e) = (
    _,
    empty_result,
    ap (sent loads dumps loads_body encode (left_of_body (obj fs))) e,
    refl,
    refl,
  )
  sent-Answers (suc n) fs h ((keep w, out), e) =
      let (_, (o, o', c, r, made)) =
        walk_dict-keep (walk loads dumps n policy false) fs [] policy false nothing_yet w out e in
      let (hs, answer, q) = left_of_body-has fs c.cleaned h in
      (
        _,
        hs,
        ap (sent loads dumps loads_body encode (left_of_body (obj fs))) e,
        ap encode (ap (λ v. left_of_body (obj fs) (keep v)) made ∙ answer),
        q,
      )

  redact_data-Answers :
      (n : ℕ) (name : Text) (fs : Fields)
      → has "result" fs ≡ true
      → ((x : Kept × Out) × (walk loads dumps n policy false (obj fs) [] nothing_yet ≡ some x))
      → Answers encode (redact_data loads dumps loads_body encode n name policy (obj fs))
  unfolding redact_data has to_serverinfo
  redact_data-Answers n name fs h ends =
      if-Answers (policy.block_ota && is_ota_endpoint name) _ _ (_, empty_result, refl, refl, refl)
        (if-Answers (policy.block_log_upload && is_log_upload_endpoint name) _ _
          (_, log_upload_answer name policy, refl, refl, log_upload_answer-has name policy)
          (if-Answers (is_some policy.device && is_serverinfo_endpoint name) _ _
            (_, to_serverinfo policy.api_url, refl, refl, refl) (sent-Answers n fs h ends)))

  module _ (shrinks : (s : Text) (v : Value) → loads s ≡ some v → weight v ≤ length s) (K : ℕ)
      (ours : (device : Ours)
        → policy.device ≡ some device
        → OursAll
            (λ k v. (n : ℕ) → K ≤ n → Ends (walk loads dumps n policy false) v)
            policy
            device) where
    -- A body that is an object with a `result` is answered, at every endpoint, with an object that has
    -- a `result`, given as much fuel as there is in the body and as what the rules write needs; if no
    -- text encodes a value with more in it than the text is long.
    pub redact_body-Answers :
        (n : ℕ) (body : Bytes) (endpoint : Text) (fs : Fields)
        → decode loads_body body ≡ some (obj fs)
        → has "result" fs ≡ true
        → weight (obj fs) + K ≤ n
        → Answers encode (redact_body loads dumps loads_body encode n body endpoint policy)
    unfolding redact_body
    redact_body-Answers n body endpoint fs decoded h enough =
        rw (decoded, redact_body)
          (redact_data-Answers n (last_segment endpoint) fs h
            (walk-Ends loads dumps shrinks policy K ours n false (obj fs) enough [] nothing_yet))
