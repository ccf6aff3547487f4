-- ===== src/AppConfig/Types.antt =====
-- app_config.h: statuses, bounds and the device document. A function with an output returns it on
-- success.
use hq_led_lamp.Common.{ℕ, ◌+◌, ◌≡◌, ◌⊎◌, refl, inl, inr}
use hq_led_lamp.Json.{Text}

-- `app_config_status_t` without the two codes of success, of which a validator returns APP_CONFIG_OK.
pub data ConfigError : Type 0 where
  invalid_argument io not_found malformed bounds unknown_schema migration unsupported : ConfigError

pub data Result {ℓ} (A : Type ℓ) : Type ℓ where
  ok : A → Result A
  err : ConfigError → Result A

-- What follows a success; an error is the result at once.
abbrev pub then_do {ℓ} : {A B : Type ℓ} → Result A → (A → Result B) → Result B
then_do (Result.ok a) f = f a
then_do (Result.err e) f = Result.err e

-- To split on a result and keep the equation.
pub Result-cases {ℓ} :
    {A : Type ℓ} (r : Result A)
    → ((e : ConfigError) × (r ≡ Result.err e)) ⊎ ((a : A) × (r ≡ Result.ok a))
Result-cases (Result.ok a) = inr (a, refl)
Result-cases (Result.err e) = inl (e, refl)

abbrev pub schema_version : ℕ
schema_version = 1

abbrev pub max_file_bytes : ℕ
max_file_bytes = 2048

abbrev pub product_max_len : ℕ
product_max_len = 32

abbrev pub hardware_revision_max_len : ℕ
hardware_revision_max_len = 16

abbrev pub serial_max_len : ℕ
serial_max_len = 32

abbrev pub thingsboard_name_max_len : ℕ
thingsboard_name_max_len = 64

-- `app_config_device_doc_t`.
pub record DeviceDoc : Type 0 where
  pub version : ℕ
  pub product : Text
  pub hardware_revision : Text
  pub serial : Text
  pub thingsboard_name : Text

-- `app_config_mfg_state_t` and `app_config_credential_mode_t` are numbers: their last values.
abbrev pub mfg_state_quarantined : ℕ
mfg_state_quarantined = 2

abbrev pub cred_mode_mtls : ℕ
cred_mode_mtls = 2

-- `app_config_manufacturing_doc_t`.
pub record ManufacturingDoc : Type 0 where
  pub version : ℕ
  pub manufacturing_state : ℕ
  pub credential_mode : ℕ

-- `app_config_doc_kind_t`, and a document of either kind.
pub data Kind : Type 0 where
  device manufacturing : Kind

pub data Document : Type 0 where
  device : DeviceDoc → Document
  manufacturing : ManufacturingDoc → Document

abbrev pub work_buf_bytes : ℕ
work_buf_bytes = max_file_bytes + 1
