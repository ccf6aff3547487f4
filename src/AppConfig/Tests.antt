-- ===== src/AppConfig/Tests.antt =====
-- app_config on the scripted parser: runs of the validator, and the theorem on it at a document.
use mathlib.Core.List.{Memᴰ, Permᴰ}
use hq_led_lamp.Common.{
  ◌≤◌, ◌≡◌, true, false, Bool-cases, Option-cases, some, inl, inr, refl, sym, ap, List, [], ◌∷◌,
  map, arith, length,
}
use hq_led_lamp.Json.{Text, codes, text_eq}
use hq_led_lamp.Json.MockJson.{MockItem, Leaf, mock_json, lookup}
use hq_led_lamp.AppConfig.Types.{ConfigError, Result, DeviceDoc}
use hq_led_lamp.AppConfig.Fields.{
  nul_escape_loop, string_is_printable_ascii, string_is_serial_charset, bounded_text,
  get_bounded_string, version_of, get_schema_version, is_known, count_members, check_member_keys,
}
use hq_led_lamp.AppConfig.Device.{device_fields, device_root, validate_device_json}
use hq_led_lamp.AppConfig.Accepted.{IsDeviceDoc, FindsMembers, names, allowed_names}
use hq_led_lamp.AppConfig.Exact.{validate_device_json_exact}

abbrev desk_lamp : DeviceDoc
desk_lamp = record {
  version = 1;
  product = codes "lamp";
  hardware_revision = codes "B2";
  serial = codes "HQ-7";
  thingsboard_name = codes "desk";
}

desk_lamp_accepted : validate_device_json mock_json (some (codes "D")) ≡ Result.ok desk_lamp
unfolding validate_device_json nul_escape_loop device_root get_schema_version version_of
    check_member_keys count_members is_known device_fields get_bounded_string bounded_text
    string_is_printable_ascii string_is_serial_charset text_eq
desk_lamp_accepted = refl

-- The members of another document.
lamp_refused : validate_device_json mock_json (some (codes "L")) ≡ Result.err ConfigError.malformed
unfolding validate_device_json nul_escape_loop device_root get_schema_version text_eq
lamp_refused = refl

-- The escape in the text `"\u0000"` is found, and the one in `"\\u0000"` is none.
nul_escapes :
    (nul_escape_loop (codes "\"\\u0000\"") false ≡ true)
    × (nul_escape_loop (codes "\"\\\\u0000\"") false ≡ false)
unfolding nul_escape_loop
nul_escapes = (refl, refl)

text_eq_sound : (s t : Text) → text_eq s t ≡ true → s ≡ t
unfolding text_eq
text_eq_sound [] [] h = refl
text_eq_sound [] (y ∷ ys) h = absurd cc
text_eq_sound (x ∷ xs) [] h = absurd cc
text_eq_sound (x ∷ xs) (y ∷ ys) h = ground (arith, h, text_eq_sound xs ys)

lookup_finds :
    (fs : List (Text × Leaf)) (key : Text) (item : MockItem)
    → lookup fs key ≡ some item
    → Memᴰ (some key) (map mock_json.name (map (λ f. MockItem.leaf (some f.0) f.1) fs))
lookup_finds [] key item h = absurd cc
lookup_finds ((k, v) ∷ fs) key item h = elim (Bool-cases (text_eq k key)) [
  | inl e ↦ Memᴰ.head (ap (λ t. some t) (sym (text_eq_sound k key e)))
  | inr e ↦ Memᴰ.tail (lookup_finds fs key item (ground (arith, h, e)))
]

mock_json-FindsMembers : FindsMembers mock_json
mock_json-FindsMembers (MockItem.leaf k v) key h = absurd cc
mock_json-FindsMembers (MockItem.object fs) key h = elim (Option-cases (lookup fs key)) [
  | inl e ↦ absurd (ground (arith, h, e))
  | inr (item, e) ↦ lookup_finds fs key item e
]

validate_device_json_exact_example :
    (length (codes "D") ≤ 2048)
    × IsDeviceDoc desk_lamp
    × ((root : MockItem) × (mock_json.parse_strict (codes "D") ≡ some root)
        × (mock_json.is_object root ≡ true)
        × Permᴰ (names mock_json root) (allowed_names mock_json))
validate_device_json_exact_example =
    validate_device_json_exact mock_json (codes "D") desk_lamp mock_json-FindsMembers
      desk_lamp_accepted
