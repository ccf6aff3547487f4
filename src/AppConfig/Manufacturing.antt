-- ===== src/AppConfig/Manufacturing.antt =====
-- app_config.c: the validator of manufacturing.json.
use hq_led_lamp.Common.{
  ℕ, false, not, ◌||◌, Option, none, some, List, [], ◌∷◌, ltb, if◌then◌else◌, length,
}
use hq_led_lamp.Json.{Text, Doubles, CJson, codes}
use hq_led_lamp.AppConfig.Types.{
  ConfigError, Result, ManufacturingDoc, then_do, schema_version, max_file_bytes,
  mfg_state_quarantined, cred_mode_mtls,
}
use hq_led_lamp.AppConfig.Fields.{
  nul_escape_loop, get_bounded_number, get_schema_version, check_member_keys,
}

abbrev pub manufacturing_keys : List Text
manufacturing_keys =
    codes "schema_version" ∷ codes "manufacturing_state" ∷ codes "credential_mode" ∷ []

module _ {d : Doubles} (j : CJson d) where
  open j use {Item, parse_strict, is_object}

  unfoldable pub manufacturing_fields : Item → ℕ → Result ManufacturingDoc
  manufacturing_fields root version =
      then_do (get_bounded_number j root (codes "manufacturing_state") mfg_state_quarantined)
        λ state.
          then_do (get_bounded_number j root (codes "credential_mode") cred_mode_mtls) λ mode.
            Result.ok
              (record { version = version; manufacturing_state = state; credential_mode = mode })

  -- What follows the parser.
  unfoldable pub manufacturing_root : Item → Result ManufacturingDoc
  manufacturing_root root = then_do (get_schema_version j root) λ version.
      if ltb version schema_version
      then Result.err ConfigError.migration
      else then_do (check_member_keys j root manufacturing_keys)
          λ members. manufacturing_fields root version

  -- `app_config_validate_manufacturing_json`.
  unfoldable pub validate_manufacturing_json : Option Text → Result ManufacturingDoc
  validate_manufacturing_json none = Result.err ConfigError.invalid_argument
  validate_manufacturing_json (some json) =
      if ltb max_file_bytes (length json)
      then Result.err ConfigError.bounds
      else elim (parse_strict json) [
        | none ↦ Result.err ConfigError.malformed
        | some root ↦
            if not (is_object root) || nul_escape_loop json false
            then Result.err ConfigError.malformed
            else manufacturing_root root
      ]
