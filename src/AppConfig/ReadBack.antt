-- ===== src/AppConfig/ReadBack.antt =====
-- app_config.c: what the validators read back of the members that a commit prints.
use hq_led_lamp.Common.{ℕ, ◌≡◌, inl, inr, Bool, true, false, some, List, ◌+◌, arith, All}
use hq_led_lamp.Common.Int.{pos}
use hq_led_lamp.Json.{Text, Doubles, CJson, codes}
use hq_led_lamp.AppConfig.Types.{
  Result, Result-cases, Document, DeviceDoc, ManufacturingDoc, schema_version, product_max_len,
  hardware_revision_max_len, serial_max_len, thingsboard_name_max_len, mfg_state_quarantined,
  cred_mode_mtls,
}
use hq_led_lamp.AppConfig.Fields.{
  get_bounded_string, get_bounded_number, bounded_text, bounded_double, get_schema_version,
  check_member_keys,
}
use hq_led_lamp.AppConfig.Device.{device_keys, device_fields, device_root}
use hq_led_lamp.AppConfig.Manufacturing.{
  manufacturing_keys, manufacturing_fields, manufacturing_root,
}
use hq_led_lamp.AppConfig.Stored.{c_string, has_nul}
use hq_led_lamp.AppConfig.Typed.{Value, device_members, manufacturing_members}
use hq_led_lamp.AppConfig.Accepted.{version_bound}

-- A document as the members that are stored of it say it: its texts up to their terminators, and the
-- current schema version.
abbrev pub stored : Document → Document
stored (Document.device doc) = Document.device (record {
  version = schema_version;
  product = c_string doc.product;
  hardware_revision = c_string doc.hardware_revision;
  serial = c_string doc.serial;
  thingsboard_name = c_string doc.thingsboard_name;
})
stored (Document.manufacturing doc) = Document.manufacturing (record {
  version = schema_version;
  manufacturing_state = doc.manufacturing_state;
  credential_mode = doc.credential_mode;
})

module _ {d : Doubles} (j : CJson d) where
  open j use {
    Item, parse_strict, is_object, get_item, is_string, is_number, valuestring, valuedouble,
  }

  -- An item with the value.
  abbrev pub IsValue : Value → Item → Type 0
  IsValue (Value.string s) item = (is_string item ≡ true) × (valuestring item ≡ some s)
  IsValue (Value.number n) item = (is_number item ≡ true) × (valuedouble item ≡ d.of_int (pos n))

  abbrev pub HasMember : Text × Value → Item → Type 0
  HasMember (key, value) root = (item : Item) × (get_item root key ≡ some item) × IsValue value item

  abbrev pub HasMembers : List (Text × Value) → Item → Type 0
  HasMembers members root = All (λ m. HasMember m root) members

  -- A printed text parses to an object that has the members that were printed.
  abbrev pub ReadsBack : List (Text × Value) → Text → Type 0
  ReadsBack members json =
      (has_nul json ≡ false)
      × ((root : Item) × (parse_strict json ≡ some root) × HasMembers members root)

  bounded_text_same :
      (s t : Text) (cap : ℕ) (serial : Bool) → bounded_text s cap serial ≡ Result.ok t → t ≡ s
  unfolding bounded_text
  bounded_text_same s t cap serial h = ground (arith, h)

  get_bounded_string_same :
      (root : Item) (key s t : Text) (cap : ℕ) (serial : Bool) (item : Item)
      → get_item root key ≡ some item
      → IsValue (Value.string s) item
      → get_bounded_string j root key cap serial ≡ Result.ok t
      → t ≡ s
  unfolding get_bounded_string
  get_bounded_string_same root key s t cap serial item e (f, g) h =
      grind (arith, bounded_text_same s t cap serial)

  string_same :
      (root : Item) (s t key : Text) (cap : ℕ) (serial : Bool)
      → HasMember (key, Value.string (c_string s)) root
      → get_bounded_string j root key cap serial ≡ Result.ok t
      → t ≡ c_string s
  string_same root s t key cap serial (item, e, v) h =
      get_bounded_string_same root key (c_string s) t cap serial item e v h

  bounded_double_same :
      (limit n m : ℕ)
      → d.truncate (d.of_int (pos n)) ≡ n
      → bounded_double j limit (d.of_int (pos n)) ≡ Result.ok m
      → m ≡ n
  unfolding bounded_double
  bounded_double_same limit n m exact h = ground (arith, h, exact)

  get_bounded_number_same :
      (root : Item) (key : Text) (limit n m : ℕ) (item : Item)
      → d.truncate (d.of_int (pos n)) ≡ n
      → get_item root key ≡ some item
      → IsValue (Value.number n) item
      → get_bounded_number j root key limit ≡ Result.ok m
      → m ≡ n
  unfolding get_bounded_number
  get_bounded_number_same root key limit n m item exact e (f, g) h =
      grind (arith, bounded_double_same limit n m)

  device_fields_same :
      (root : Item) (version : ℕ) (doc doc' : DeviceDoc)
      → HasMembers (device_members doc) root
      → version ≡ schema_version
      → device_fields j root version ≡ Result.ok doc'
      → Document.device doc' ≡ stored (Document.device doc)
  unfolding device_fields device_members
  device_fields_same root version doc doc' has h ok =
      let (v, has1) = has in
      let (p, has2) = has1 in
      let (r, has3) = has2 in
      let (s, has4) = has3 in
      let (n, end) = has4 in
      let product =
        string_same root doc.product doc'.product (codes "product") (product_max_len + 1) false p in
      let revision =
        string_same root doc.hardware_revision doc'.hardware_revision (codes "hardware_revision")
          (hardware_revision_max_len + 1) false r in
      let serial =
        string_same root doc.serial doc'.serial (codes "serial") (serial_max_len + 1) true s in
      let name =
        string_same root doc.thingsboard_name doc'.thingsboard_name (codes "thingsboard_name")
          (thingsboard_name_max_len + 1) false n in
      ground (arith, ok, h, product, revision, serial, name)

  pub device_root_same :
      (root : Item) (doc doc' : DeviceDoc)
      → HasMembers (device_members doc) root
      → device_root j root ≡ Result.ok doc'
      → Document.device doc' ≡ stored (Document.device doc)
  unfolding device_root
  device_root_same root doc doc' has h = elim (Result-cases (get_schema_version j root)) [
    | inl (e, failed) ↦ absurd (ground (arith, h, failed))
    | inr (v, read) ↦ elim (Result-cases (check_member_keys j root device_keys)) [
      | inl (e, failed) ↦ absurd (ground (arith, h, read, failed))
      | inr (n, checked) ↦
          let bound = version_bound j root v read in
          device_fields_same root v doc doc' has (ground (arith, h, read, bound))
            (ground (arith, h, read, checked))
    ]
  ]

  number_same :
      (root : Item) (n m : ℕ) (key : Text) (limit : ℕ)
      → d.truncate (d.of_int (pos n)) ≡ n
      → HasMember (key, Value.number n) root
      → get_bounded_number j root key limit ≡ Result.ok m
      → m ≡ n
  number_same root n m key limit exact (item, e, v) h =
      get_bounded_number_same root key limit n m item exact e v h

  -- The conversion of a document's numbers to double and back.
  abbrev pub IsExact : Document → Type 0
  IsExact (Document.device doc) = Unit
  IsExact (Document.manufacturing doc) =
      (d.truncate (d.of_int (pos doc.manufacturing_state)) ≡ doc.manufacturing_state)
      × (d.truncate (d.of_int (pos doc.credential_mode)) ≡ doc.credential_mode)

  manufacturing_fields_same :
      (root : Item) (version : ℕ) (doc doc' : ManufacturingDoc)
      → IsExact (Document.manufacturing doc)
      → HasMembers (manufacturing_members doc) root
      → version ≡ schema_version
      → manufacturing_fields j root version ≡ Result.ok doc'
      → Document.manufacturing doc' ≡ stored (Document.manufacturing doc)
  unfolding manufacturing_fields manufacturing_members
  manufacturing_fields_same root version doc doc' (exact, exact') has h ok =
      let (v, has1) = has in
      let (s, has2) = has1 in
      let (m, end) = has2 in
      let state =
        number_same root doc.manufacturing_state doc'.manufacturing_state
          (codes "manufacturing_state") mfg_state_quarantined exact s in
      let mode =
        number_same root doc.credential_mode doc'.credential_mode (codes "credential_mode")
          cred_mode_mtls exact' m in
      ground (arith, ok, h, state, mode)

  pub manufacturing_root_same :
      (root : Item) (doc doc' : ManufacturingDoc)
      → IsExact (Document.manufacturing doc)
      → HasMembers (manufacturing_members doc) root
      → manufacturing_root j root ≡ Result.ok doc'
      → Document.manufacturing doc' ≡ stored (Document.manufacturing doc)
  unfolding manufacturing_root
  manufacturing_root_same root doc doc' exact has h =
      elim (Result-cases (get_schema_version j root)) [
        | inl (e, failed) ↦ absurd (ground (arith, h, failed))
        | inr (v, read) ↦ elim (Result-cases (check_member_keys j root manufacturing_keys)) [
          | inl (e, failed) ↦ absurd (ground (arith, h, read, failed))
          | inr (n, checked) ↦
              let bound = version_bound j root v read in
              manufacturing_fields_same root v doc doc' exact has (ground (arith, h, read, bound))
                (ground (arith, h, read, checked))
        ]
      ]
