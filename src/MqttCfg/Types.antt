-- ===== src/MqttCfg/Types.antt =====
-- mqtt_cfg.h: statuses, bounds and the configuration. A function with an output returns it on success.
use Prim.Native.String.{String}
use hq_led_lamp.Common.{ℕ, Option, none, some, ◌≡◌, ◌⊎◌, refl, inl, inr}
use hq_led_lamp.Json.{Text, codes}

-- `mqtt_cfg_status_t` without MQTT_CFG_OK.
pub data CfgError : Type 0 where
  invalid_argument io not_found malformed bounds unknown_schema plaintext skip_verify : CfgError
  ca_path cert_path hostname apply connect not_applied auth_rejected : CfgError

pub data CfgResult {ℓ} (A : Type ℓ) : Type ℓ where
  ok : A → CfgResult A
  err : CfgError → CfgResult A

-- What follows a success; an error is the result at once.
abbrev pub and_then {ℓ} : {A B : Type ℓ} → CfgResult A → (A → CfgResult B) → CfgResult B
and_then (CfgResult.ok a) f = f a
and_then (CfgResult.err e) f = CfgResult.err e

-- To split on a result and keep the equation.
pub CfgResult-cases {ℓ} :
    {A : Type ℓ} (r : CfgResult A)
    → ((e : CfgError) × (r ≡ CfgResult.err e)) ⊎ ((a : A) × (r ≡ CfgResult.ok a))
CfgResult-cases (CfgResult.ok a) = inr (a, refl)
CfgResult-cases (CfgResult.err e) = inl (e, refl)

-- `mqtt_cfg_status_name`; none is MQTT_CFG_OK.
unfoldable pub status_name : Option CfgError → String
status_name none = "ok"
status_name (some CfgError.invalid_argument) = "invalid_argument"
status_name (some CfgError.io) = "io"
status_name (some CfgError.not_found) = "not_found"
status_name (some CfgError.malformed) = "malformed"
status_name (some CfgError.bounds) = "bounds"
status_name (some CfgError.unknown_schema) = "unknown_schema"
status_name (some CfgError.plaintext) = "plaintext_rejected"
status_name (some CfgError.skip_verify) = "skip_verify_rejected"
status_name (some CfgError.ca_path) = "ca_path_invalid"
status_name (some CfgError.cert_path) = "cert_path_invalid"
status_name (some CfgError.hostname) = "hostname_invalid"
status_name (some CfgError.apply) = "apply_failed"
status_name (some CfgError.connect) = "connect_failed"
status_name (some CfgError.not_applied) = "not_applied"
status_name (some CfgError.auth_rejected) = "auth_rejected"

abbrev pub cfg_schema_version : ℕ
cfg_schema_version = 1

abbrev pub cfg_max_file_bytes : ℕ
cfg_max_file_bytes = 2048

abbrev pub client_id_max_len : ℕ
client_id_max_len = 64

abbrev pub port_min : ℕ
port_min = 1

abbrev pub port_max : ℕ
port_max = 65535

abbrev pub file_path : Text
file_path = codes "/config/mqtt.json"

-- The one value of `mqtt_cfg_tls_mode_t`; a structure may hold any number.
abbrev pub tls_mode_mqtts : ℕ
tls_mode_mqtts = 1

-- `mqtt_cfg_auth_mode_t`, with the numbers that a structure may hold besides.
pub data AuthMode : Type 0 where
  no_auth access_token mtls runtime : AuthMode
  unknown : ℕ → AuthMode

-- `mqtt_cfg_t`. A text is what a character array holds up to its terminator, or the whole array.
pub record MqttCfg : Type 0 where
  pub schema_version : ℕ
  pub hostname : Text
  pub port : ℕ
  pub client_id : Text
  pub tls_mode : ℕ
  pub auth_mode : AuthMode
  pub ca_path : Text
  pub client_cert_path : Text
  pub client_key_path : Text
