-- ===== src/AppConfig/Exact.antt =====
-- app_config.c: app_config_validate_device_json accepts no document but one that has the schema's
-- members, each once and within its bounds.
use mathlib.Core.List.{Permᴰ}
use hq_led_lamp.Common.{◌≤◌, ◌≡◌, true, some, Option-cases, inl, inr, arith, length, length-map}
use hq_led_lamp.Json.{Text, Doubles, CJson}
use hq_led_lamp.AppConfig.Types.{Result, DeviceDoc}
use hq_led_lamp.AppConfig.Device.{device_root, validate_device_json}
use hq_led_lamp.AppConfig.Keys.{covering-perm}
use hq_led_lamp.AppConfig.Accepted.{
  IsDeviceDoc, FindsMembers, names, allowed_names, device_names-IsDistinct, covered, root_accepted,
}

module _ {d : Doubles} (j : CJson d) where
  open j use {Item, parse_strict, is_object}

  root_exact :
      (root : Item) (doc : DeviceDoc)
      → FindsMembers j
      → device_root j root ≡ Result.ok doc
      → IsDeviceDoc doc × Permᴰ (names j root) (allowed_names j)
  root_exact root doc finds h =
      let (fields, h1, h2, h3, h4, h5, bound) = root_accepted j root doc h in
      (
        fields,
        covering-perm (allowed_names j) (names j root) (device_names-IsDistinct j)
            (covered j finds root h1 h2 h3 h4 h5) (rw (length-map j.name (j.children root)) bound),
      )

  -- What a validated document was parsed from.
  parsed_from :
      (json : Text) (doc : DeviceDoc)
      → validate_device_json j (some json) ≡ Result.ok doc
      → (length json ≤ 2048)
        × ((root : Item) × (parse_strict json ≡ some root)
            × (is_object root ≡ true)
            × (device_root j root ≡ Result.ok doc))
  unfolding validate_device_json
  parsed_from json doc h = elim (Option-cases (parse_strict json)) [
    | inl e ↦ absurd (ground (arith, h, e))
    | inr (root, e) ↦ (ground (arith, h), (root, e, ground (arith, h, e), ground (arith, h, e)))
  ]

  -- A text that the validator accepts has at most 2048 bytes and parses, whole, to an object whose
  -- members are exactly schema_version, product, hardware_revision, serial and thingsboard_name, each
  -- once, in any order; the version is 1, and every text is printable, not empty, and within its bound,
  -- the serial number of letters, digits and dashes. For a parser that finds members by their name.
  pub validate_device_json_exact :
      (json : Text) (doc : DeviceDoc)
      → FindsMembers j
      → validate_device_json j (some json) ≡ Result.ok doc
      → (length json ≤ 2048)
        × IsDeviceDoc doc
        × ((root : Item) × (parse_strict json ≡ some root)
            × (is_object root ≡ true)
            × Permᴰ (names j root) (allowed_names j))
  validate_device_json_exact json doc finds h =
      let (fits, (root, e, o, read)) = parsed_from json doc h in
      let (fields, keys) = root_exact root doc finds read in (fits, fields, (root, e, o, keys))
