-- ===== src/Redact/Tests.antt =====
-- The theorems of the redaction at a heartbeat answer with a shell command in it.
use containers_nix.Prelude.{
  ℕ, zero, suc, ◌≡◌, ◌≤◌, refl, sym, subst, true, false, Option, none, some, [], arith, length,
  if◌then◌else◌, inl, inr, Bool-cases, ◌⊎◌,
}
use mathlib.Core.Option.{some-injective}
use containers_nix.Codec.{Text, Bytes, codes, is_space}
use containers_nix.Prelude.Int.{pos}
use containers_nix.Value.{Value, int, str, obj, arr, Fields, field, end, cons, nil}
use containers_nix.Value.Equal.{text_eq}
use containers_nix.Redact.Model.{Out, nothing_yet, Ours, Policy}
use containers_nix.Redact.Rules.{
  has, match_locale, match_secret, match_cvr_capacity, match_oss_sts, match_mqtt, match_server,
}
use containers_nix.Redact.Walker.{keep, walk, opened}
use containers_nix.Redact.Walker.Everywhere.{Everywhere, text_eq_sound}
use containers_nix.Redact.Walker.Shell.{NoCommand, walk-NoCommand}
use containers_nix.Redact.Walker.Address.{Addressed}
use containers_nix.Redact.Walker.Ours.{walk-Addressed}
use containers_nix.Redact.Walker.Patched.{OursAll}
use containers_nix.Redact.Walker.Ends.{weight, Ends, walk-Ends}
use containers_nix.Redact.Body.{redact_body, decode}
use containers_nix.Redact.Body.Answer.{Answers, redact_body-Answers}

abbrev command : Value
command = obj (field "user_cmd" (obj (field "run_cmd" (str (codes "reboot")) end)) end)

abbrev command_text : Text
command_text = codes "{\"user_cmd\":{\"run_cmd\":\"reboot\"}}"

-- A decoder that reads two texts.
abbrev reads : Text → Option Value
reads s =
    if text_eq s command_text
    then some command
    else if text_eq s (codes "[]")
    then some (arr nil)
    else none

abbrev writes : Value → Text
writes (arr nil) = codes "[]"
writes v = []

reads_two :
    (s : Text) (v : Value)
    → reads s ≡ some v
    → ((command_text ≡ s) × (command ≡ v)) ⊎ ((codes "[]" ≡ s) × (arr nil ≡ v))
reads_two s v h = elim (Bool-cases (text_eq s command_text)) [
  | inl y ↦ inl (sym (text_eq_sound s command_text y), some-injective command v (rw y at h))
  | inr n ↦ elim (Bool-cases (text_eq s (codes "[]"))) [
    | inl y ↦
        inr (sym (text_eq_sound s (codes "[]") y), some-injective (arr nil) v (rw (n, y) at h))
    | inr m ↦ let no : ◌≡◌ {A = Option Value} none (some v) = rw (n, m) at h in cc
  ]
]

reads-writes : (v w : Value) → reads (writes v) ≡ some w → w ≡ v
unfolding text_eq
reads-writes (arr nil) w h = sym (some-injective (arr nil) w h)
reads-writes v w h = absurd (ground (arith, h))

reads-shrinks : (s : Text) (v : Value) → reads s ≡ some v → weight v ≤ length s
unfolding weight
reads-shrinks s v h = elim (reads_two s v h) [
  | inl (e, d) ↦ rw (← e, ← d) (omega arith)
  | inr (e, d) ↦ rw (← e, ← d) (omega arith)
]

abbrev ours : Ours
ours = record {
  petkit_id = 7;
  serial_number = codes "S1";
  is_camera = true;
  mqtt_host = codes "192.168.1.2";
  mqtt_product_key = codes "pk1";
  mqtt_device_name = codes "dn";
  mqtt_device_secret = codes "s3";
  timezone_offset = int (pos 2);
  locale = str (codes "Europe/Zagreb");
  capability = nil;
  capacity = none;
  cloud_product = none;
  log_upload_token = none;
}

abbrev policy : Policy
policy = record {
  device = some ours;
  api_url = codes "http://192.168.1.2/6/";
  block_rce = true;
  block_ota = true;
  block_log_upload = true;
  media_to_real_oss = false;
  local_cvr_window = false;
}

abbrev answer : Fields
answer = field "dns" (str (codes "8.8.8.8")) (
    field "mqttHost" (str (codes "iot.aliyun")) (
      field "result"
        (arr (
          cons (obj (field "time" (int (pos 5)) (field "content" (str command_text) end)))
            (cons (str (codes "ok")) nil)))
        end))

kept_here :
    (w : Value) × (out : Out) × (walk reads writes 6 policy false (obj answer) [] nothing_yet
      ≡ some (keep w, out))
unfolding walk match_locale match_secret match_cvr_capacity match_oss_sts match_mqtt match_server
    is_space
kept_here = (_, _, refl)

walk-NoCommand_example : NoCommand reads writes policy refl 5 kept_here.0
walk-NoCommand_example =
    walk-NoCommand reads writes policy refl reads-writes 5 6 false (obj answer) [] nothing_yet
      kept_here.0 kept_here.1 kept_here.2

walk-Addressed_example : Everywhere reads (Addressed policy ours refl) 5 kept_here.0
unfolding opened is_space
walk-Addressed_example =
    walk-Addressed reads writes policy ours refl refl refl reads-writes 5 6 false (obj answer) []
      nothing_yet kept_here.0 kept_here.1 kept_here.2

-- What is left is the answer without the command, and with our addresses.
kept_answer :
    kept_here.0
    ≡ obj (
        field "dns" (str []) (
          field "mqttHost"
            (str (codes "192.168.1.2"))
            (field "result" (arr (cons (str (codes "ok")) nil)) end)))
unfolding kept_here
kept_answer = refl

from_three :
    (v : Value)
    → ((m : ℕ) → Ends (walk reads writes (suc (suc (suc m))) policy false) v)
    → (n : ℕ) → 3 ≤ n
    → Ends (walk reads writes n policy false) v
from_three v ends zero h = absurd (omega (arith, h))
from_three v ends (suc zero) h = absurd (omega (arith, h))
from_three v ends (suc (suc zero)) h = absurd (omega (arith, h))
from_three v ends (suc (suc (suc m))) h = ends m

ours-Ends : OursAll (λ k v. (n : ℕ) → 3 ≤ n → Ends (walk reads writes n policy false) v) policy ours
unfolding walk is_space
ours-Ends = record {
  servers = from_three _ (λ m p o. (_, refl));
  no_servers = from_three _ (λ m p o. (_, refl));
  no_dns = from_three _ (λ m p o. (_, refl));
  host = from_three _ (λ m p o. (_, refl));
  product_key = from_three _ (λ m p o. (_, refl));
  device_name = from_three _ (λ m p o. (_, refl));
  device_secret = from_three _ (λ m p o. (_, refl));
  instance_id = from_three _ (λ m p o. (_, refl));
  capabilities = from_three _ (λ m p o. (_, refl));
  oci = from_three _ (λ m p o. (_, refl));
  capacity = λ v e. cc;
  cloud_product = λ v e. cc;
  id = from_three _ (λ m p o. (_, refl));
  timezone = from_three _ (λ m p o. (_, refl));
  locale = from_three _ (λ m p o. (_, refl));
}

device-Ends :
    (device : Ours)
    → policy.device ≡ some device
    → OursAll (λ k v. (n : ℕ) → 3 ≤ n → Ends (walk reads writes n policy false) v) policy device
device-Ends device e =
    subst (OursAll (λ k v. (n : ℕ) → 3 ≤ n → Ends (walk reads writes n policy false) v) policy)
      (some-injective ours device e) ours-Ends

walk-Ends_example : Ends (walk reads writes 100 policy false) (obj answer)
unfolding weight
walk-Ends_example =
    walk-Ends reads writes reads-shrinks policy 3 device-Ends 100 false (obj answer) (omega arith)

-- The decoder of a body that is this answer, and the encoder.
abbrev reads_body : Bytes → Option Value
reads_body body = some (obj answer)

abbrev writes_body : Value → Bytes
writes_body (obj fs) = if has "result" fs then codes "{\"result\":{}}" else codes "{}"
writes_body v = []

decoded : decode reads_body (codes "{}") ≡ some (obj answer)
unfolding decode
decoded = refl

has_result : has "result" answer ≡ true
unfolding has
has_result = refl

redact_body-Answers_example : Answers writes_body (
    redact_body reads writes reads_body writes_body 100
      (codes "{}")
      (codes "/6/t5/dev_serverinfo/")
      policy)
unfolding weight
redact_body-Answers_example =
    redact_body-Answers reads writes reads_body writes_body policy reads-shrinks 3 device-Ends 100
      (codes "{}") (codes "/6/t5/dev_serverinfo/") answer decoded has_result (omega arith)
