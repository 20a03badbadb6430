-- ===== src/Redact/Model.antt =====
-- The models of `http/redact/__init__.py`: the policy, what is recorded, and what is learned.
use containers_nix.Prelude.{ℕ, Bool, true, false, Option, none, String, List, []}
use containers_nix.Codec.{Text}
use containers_nix.Value.{Value, Fields, end, Items}

-- A path into a body: the keys and positions from the top.
pub data Step : Type 0 where
  key : String → Step
  index : ℕ → Step

pub data Rule : Type 0 where
  rce : Rule
  ota : Rule
  secret : Rule
  server : Rule
  mqtt : Rule
  oss_sts : Rule
  log_upload : Rule
  locale : Rule

-- `BLOCKING_RULES`
abbrev pub is_blocking : Rule → Bool
is_blocking rce = true
is_blocking ota = true
is_blocking _ = false

pub record Redaction : Type 0 where
  pub rule : Rule
  pub path : List Step
  pub original : Value

-- `records` and the three entries of `captured`.
pub record Out : Type 0 where
  pub records : List Redaction
  pub captured_mqtt : Fields
  pub captured_oss_sts : Option Value
  pub captured_api_secret : Option Text

abbrev pub nothing_yet : Out
nothing_yet = record {
  records = [];
  captured_mqtt = end;
  captured_oss_sts = none;
  captured_api_secret = none;
}

-- The device that a policy is for, with the values that `devices/payloads.py` gives for it.
pub record Ours : Type 0 where
  pub petkit_id : ℕ
  pub serial_number : Text
  pub is_camera : Bool
  -- `resolve_mqtt_host` and the credentials
  pub mqtt_host : Text
  pub mqtt_product_key : Text
  pub mqtt_device_name : Text
  pub mqtt_device_secret : Text
  pub timezone_offset : Value
  pub locale : Value
  -- `to_oss_sts(…)["result"]["capability"]`
  pub capability : Items
  -- `to_device_info(…)["result"]`: `capacity` and `cloudProduct`, where it has them
  pub capacity : Option Value
  pub cloud_product : Option Value
  -- `to_log_upload_token(…)`, where `log_upload_enabled` is set
  pub log_upload_token : Option Fields

pub record Policy : Type 0 where
  pub device : Option Ours
  pub api_url : Text
  pub block_rce : Bool
  pub block_ota : Bool
  pub block_log_upload : Bool
  pub media_to_real_oss : Bool
  pub local_cvr_window : Bool
