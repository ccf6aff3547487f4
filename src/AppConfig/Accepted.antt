-- ===== src/AppConfig/Accepted.antt =====
-- app_config.c: what holds of a device document that the validator accepts.
use mathlib.Core.List.{Memᴰ}
use mathlib.Core.List.Memᴰ
use hq_led_lamp.Common.{
  ℕ, suc, ◌+◌, ◌≤◌, ◌<◌, ◌≡◌, inl, inr, refl, Bool, true, false, Option, some, List, [], ◌∷◌, map,
  arith, length,
}
use hq_led_lamp.Json.{Text, Doubles, CJson, is_some, codes, text_eq}
use hq_led_lamp.AppConfig.Types.{
  Result, Result-cases, DeviceDoc, product_max_len, hardware_revision_max_len, serial_max_len,
  thingsboard_name_max_len,
}
use hq_led_lamp.AppConfig.Fields.{
  string_is_printable_ascii, string_is_serial_charset, bounded_text, get_bounded_string, version_of,
  get_schema_version, count_members, check_member_keys,
}
use hq_led_lamp.AppConfig.Device.{device_keys, device_fields, device_root}
use hq_led_lamp.AppConfig.Keys.{IsDistinct, distinct_lem}

-- A printable text of 1 to `limit` bytes.
abbrev pub IsField : ℕ → Text → Type 0
IsField limit value =
    (0 < length value) × (length value ≤ limit) × (string_is_printable_ascii value ≡ true)

-- A document within the schema's bounds.
abbrev pub IsDeviceDoc : DeviceDoc → Type 0
IsDeviceDoc doc =
    (doc.version ≡ 1)
    × IsField 32 doc.product
    × IsField 16 doc.hardware_revision
    × IsField 32 doc.serial
    × (string_is_serial_charset doc.serial ≡ true)
    × IsField 64 doc.thingsboard_name

module _ {d : Doubles} (j : CJson d) where
  open j use {Item, get_item, children, name}

  string_bounds :
      (root : Item) (key out : Text) (cap : ℕ) (serial : Bool)
      → get_bounded_string j root key cap serial ≡ Result.ok out
      → (0 < length out)
        × (length out < cap)
        × (string_is_printable_ascii out ≡ true)
        × (serial ≡ true → string_is_serial_charset out ≡ true)
  unfolding get_bounded_string bounded_text
  string_bounds root key out cap serial h = ground arith

  -- A member has the key.
  abbrev pub Has : Item → Text → Type 0
  Has root key = is_some (get_item root key) ≡ true

  string_found :
      (root : Item) (key out : Text) (cap : ℕ) (serial : Bool)
      → get_bounded_string j root key cap serial ≡ Result.ok out
      → Has root key
  unfolding get_bounded_string
  string_found root key out cap serial h = ground arith

  version_found :
      (root : Item) (version : ℕ)
      → get_schema_version j root ≡ Result.ok version
      → Has root (codes "schema_version")
  unfolding get_schema_version
  version_found root version h = ground arith

  pub version_bound :
      (root : Item) (version : ℕ) → get_schema_version j root ≡ Result.ok version → version ≤ 1
  unfolding get_schema_version version_of
  version_bound root version h = ground arith

  count_members_lem :
      (items : List Item) (allowed : List Text) (members n : ℕ)
      → count_members j items allowed members ≡ some n
      → n ≡ members + length items
  unfolding count_members
  count_members_lem [] allowed members n h = ground arith
  count_members_lem (item ∷ items) allowed members n h =
      grind (arith, h, count_members_lem items allowed (suc members) n)

  -- Every one of the fields was read, and makes a document within its bounds.
  fields_accepted :
      (root : Item) (version : ℕ) (doc : DeviceDoc)
      → device_fields j root version ≡ Result.ok doc
      → version ≡ 1
      → IsDeviceDoc doc
        × Has root (codes "product")
        × Has root (codes "hardware_revision")
        × Has root (codes "serial")
        × Has root (codes "thingsboard_name")
  unfolding device_fields
  fields_accepted root version doc h one = ground (
    arith,
    string_bounds root (codes "product") doc.product (product_max_len + 1) false,
    string_bounds root (codes "hardware_revision") doc.hardware_revision
        (hardware_revision_max_len + 1) false,
    string_bounds root (codes "serial") doc.serial (serial_max_len + 1) true,
    string_bounds root (codes "thingsboard_name") doc.thingsboard_name
        (thingsboard_name_max_len + 1) false,
    string_found root (codes "product") doc.product (product_max_len + 1) false,
    string_found root (codes "hardware_revision") doc.hardware_revision
        (hardware_revision_max_len + 1) false,
    string_found root (codes "serial") doc.serial (serial_max_len + 1) true,
    string_found root (codes "thingsboard_name") doc.thingsboard_name (thingsboard_name_max_len + 1)
        false,
  )

  abbrev pub names : Item → List (Option Text)
  names root = map name (children root)

  abbrev pub allowed_names : List (Option Text)
  allowed_names = map (λ key. some key) device_keys

  pub device_names-IsDistinct : IsDistinct allowed_names
  unfolding text_eq
  device_names-IsDistinct = distinct_lem allowed_names refl

  keys_bound :
      (root : Item) (n : ℕ)
      → check_member_keys j root device_keys ≡ Result.ok n
      → length (children root) ≤ 5
  unfolding check_member_keys
  keys_bound root n h = grind (arith, count_members_lem)

  pub root_accepted :
      (root : Item) (doc : DeviceDoc)
      → device_root j root ≡ Result.ok doc
      → IsDeviceDoc doc
        × Has root (codes "schema_version")
        × Has root (codes "product")
        × Has root (codes "hardware_revision")
        × Has root (codes "serial")
        × Has root (codes "thingsboard_name")
        × (length (children root) ≤ 5)
  unfolding device_root
  root_accepted root doc h = elim (Result-cases (get_schema_version j root)) [
    | inl (e, failed) ↦ absurd (ground (arith, h, failed))
    | inr (v, read) ↦ elim (Result-cases (check_member_keys j root device_keys)) [
      | inl (e, failed) ↦ absurd (ground (arith, h, read, failed))
      | inr (n, checked) ↦ ground (
        arith,
        h,
        read,
        checked,
        version_bound root v read,
        version_found root v read,
        fields_accepted root v doc,
        keys_bound root n checked,
      )
    ]
  ]

  -- cJSON_GetObjectItemCaseSensitive finds only members of the object, by their name.
  abbrev pub FindsMembers : Type 0
  FindsMembers = (root : Item) (key : Text) → Has root key → Memᴰ (some key) (names root)

  pub covered :
      (finds : FindsMembers) (root : Item)
      → Has root (codes "schema_version")
      → Has root (codes "product")
      → Has root (codes "hardware_revision")
      → Has root (codes "serial")
      → Has root (codes "thingsboard_name")
      → (a : Option Text) → Memᴰ a allowed_names
      → Memᴰ a (names root)
  covered finds root h1 h2 h3 h4 h5 a (Memᴰ.head e) =
      Memᴰ.cast e (finds root (codes "schema_version") h1)
  covered finds root h1 h2 h3 h4 h5 a (Memᴰ.tail (Memᴰ.head e)) =
      Memᴰ.cast e (finds root (codes "product") h2)
  covered finds root h1 h2 h3 h4 h5 a (Memᴰ.tail (Memᴰ.tail (Memᴰ.head e))) =
      Memᴰ.cast e (finds root (codes "hardware_revision") h3)
  covered finds root h1 h2 h3 h4 h5 a (Memᴰ.tail (Memᴰ.tail (Memᴰ.tail (Memᴰ.head e)))) =
      Memᴰ.cast e (finds root (codes "serial") h4)
  covered finds root h1 h2 h3 h4 h5 a
        (Memᴰ.tail (Memᴰ.tail (Memᴰ.tail (Memᴰ.tail (Memᴰ.head e))))) =
      Memᴰ.cast e (finds root (codes "thingsboard_name") h5)
  covered finds root h1 h2 h3 h4 h5 a
        (Memᴰ.tail (Memᴰ.tail (Memᴰ.tail (Memᴰ.tail (Memᴰ.tail m))))) =
      elim m [ ]
