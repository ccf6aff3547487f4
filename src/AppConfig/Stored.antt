-- ===== src/AppConfig/Stored.antt =====
-- app_config.c: stored bytes, as validated and migrated.
use hq_led_lamp.Common.{
  ℕ, Bool, false, not, ◌&&◌, ◌||◌, Option, none, some, [], ◌∷◌, ltb, ◌==◌, if◌then◌else◌, length,
}
use hq_led_lamp.Json.{Text, Doubles, CJson}
use hq_led_lamp.AppConfig.Types.{
  ConfigError, Result, Kind, Document, then_do, max_file_bytes, work_buf_bytes,
}
use hq_led_lamp.AppConfig.Fields.{get_schema_version}
use hq_led_lamp.AppConfig.Device.{validate_device_json}
use hq_led_lamp.AppConfig.Manufacturing.{validate_manufacturing_json}
use hq_led_lamp.AppConfig.Storage.{Storage, DocStatus, doc_path}

-- The text that a buffer holds: its bytes before the first NUL.
unfoldable pub c_string : Text → Text
c_string [] = []
c_string (c ∷ cs) = if c == 0 then [] else c ∷ c_string cs

-- `memchr(buf, '\0', len) != NULL`.
unfoldable pub has_nul : Text → Bool
has_nul [] = false
has_nul (c ∷ cs) = (c == 0) || has_nul cs

-- The switch of `app_config_platform_commit`: none for success.
unfoldable pub commit_error : DocStatus → Option ConfigError
commit_error DocStatus.ok = none
commit_error DocStatus.argument = some ConfigError.invalid_argument
commit_error DocStatus.not_found = some ConfigError.not_found
commit_error DocStatus.malformed = some ConfigError.malformed
commit_error DocStatus.bounds = some ConfigError.bounds
commit_error DocStatus.unsupported = some ConfigError.unsupported
commit_error DocStatus.io = some ConfigError.io

-- A migration handler of the program that uses app_config: on a text, its version and a capacity, the
-- bytes that it leaves in the buffer, or none where it reports a failure.
abbrev pub Handler : Type 0
Handler = Text → ℕ → ℕ → Option Text

module _ {d : Doubles} (j : CJson d) where
  open j use {parse_strict, is_object}

  unfoldable pub validate_kind : Kind → Option Text → Result Document
  validate_kind Kind.device json =
      then_do (validate_device_json j json) λ doc. Result.ok (Document.device doc)
  validate_kind Kind.manufacturing json =
      then_do (validate_manufacturing_json j json) λ doc. Result.ok (Document.manufacturing doc)

  -- `validate_stored_len` of a buffer that is not null.
  unfoldable pub validate_stored_len : Kind → Text → Result Document
  validate_stored_len kind buf =
      if ltb max_file_bytes (length buf)
      then Result.err ConfigError.bounds
      else if ltb 0 (length buf) && has_nul buf
      then Result.err ConfigError.malformed
      else validate_kind kind (some (c_string buf))

  -- `app_config_platform_validator`.
  unfoldable pub platform_validator : Kind → Text → DocStatus
  platform_validator kind json = elim (validate_stored_len kind json) [
    | Result.ok doc ↦ DocStatus.ok
    | Result.err ConfigError.bounds ↦ DocStatus.bounds
    | Result.err e ↦ DocStatus.malformed
  ]

  unfoldable pub extract_schema_version : Text → Result ℕ
  extract_schema_version json = elim (parse_strict json) [
    | none ↦ Result.err ConfigError.malformed
    | some root ↦
        if is_object root then get_schema_version j root else Result.err ConfigError.malformed
  ]

  -- The buffer's text, where the handler has left a valid one.
  unfoldable pub migrate_json : Option Handler → Kind → Text → ℕ → Result Text
  migrate_json none kind json from_version = Result.err ConfigError.migration
  migrate_json (some handler) kind json from_version =
      elim (handler json from_version work_buf_bytes) [
        | none ↦ Result.err ConfigError.migration
        | some out ↦
            if not (has_nul out)
            then Result.err ConfigError.migration
            else elim (validate_kind kind (some (c_string out))) [
              | Result.ok doc ↦ Result.ok (c_string out)
              | Result.err e ↦ Result.err ConfigError.migration
            ]
      ]

  module _ (st : Storage) where
    -- `app_config_platform_commit`.
    unfoldable pub platform_commit : Kind → Text → st.World → Option ConfigError × st.World
    platform_commit kind json w =
        let (status, w') =
          st.commit (doc_path kind) json max_file_bytes (platform_validator kind) w in
        (commit_error status, w')
