-- ===== src/AppConfig/Device.antt =====
-- app_config.c: the validator of device.json. A successful call with a null output differs only in that
-- nothing is written.
use hq_led_lamp.Common.{
  ℕ, ◌+◌, true, false, not, ◌||◌, Option, none, some, List, [], ◌∷◌, ltb, if◌then◌else◌, length,
}
use hq_led_lamp.Json.{Text, Doubles, CJson, codes}
use hq_led_lamp.AppConfig.Types.{
  ConfigError, Result, DeviceDoc, then_do, schema_version, max_file_bytes, product_max_len,
  hardware_revision_max_len, serial_max_len, thingsboard_name_max_len,
}
use hq_led_lamp.AppConfig.Fields.{
  nul_escape_loop, get_bounded_string, get_schema_version, check_member_keys,
}

abbrev pub device_keys : List Text
device_keys =
    codes "schema_version"
    ∷ codes "product"
    ∷ codes "hardware_revision"
    ∷ codes "serial"
    ∷ codes "thingsboard_name"
    ∷ []

module _ {d : Doubles} (j : CJson d) where
  open j use {Item, parse_strict, is_object}

  -- The members of the document.
  unfoldable pub device_fields : Item → ℕ → Result DeviceDoc
  device_fields root version =
      then_do (get_bounded_string j root (codes "product") (product_max_len + 1) false) λ product.
        then_do
          (get_bounded_string j root (codes "hardware_revision") (hardware_revision_max_len + 1)
            false)
          λ revision.
            then_do (get_bounded_string j root (codes "serial") (serial_max_len + 1) true) λ serial.
              then_do
                (get_bounded_string j root (codes "thingsboard_name") (thingsboard_name_max_len + 1)
                  false)
                λ name. Result.ok (record {
                  version = version;
                  product = product;
                  hardware_revision = revision;
                  serial = serial;
                  thingsboard_name = name;
                })

  -- What follows the parser.
  unfoldable pub device_root : Item → Result DeviceDoc
  device_root root = then_do (get_schema_version j root) λ version.
      if ltb version schema_version
      then Result.err ConfigError.migration
      else then_do (check_member_keys j root device_keys) λ members. device_fields root version

  -- `app_config_validate_device_json`.
  unfoldable pub validate_device_json : Option Text → Result DeviceDoc
  validate_device_json none = Result.err ConfigError.invalid_argument
  validate_device_json (some json) =
      if ltb max_file_bytes (length json)
      then Result.err ConfigError.bounds
      else elim (parse_strict json) [
        | none ↦ Result.err ConfigError.malformed
        | some root ↦
            if not (is_object root) || nul_escape_loop json false
            then Result.err ConfigError.malformed
            else device_root root
      ]
