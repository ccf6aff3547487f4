-- ===== src/AppConfig/Typed.antt =====
-- app_config.c: documents that the program hands over to be stored. A character array is the list of its
-- bytes, of which none is promised to be a terminator.
use hq_led_lamp.Common.{
  ℕ, suc, ◌+◌, Bool, true, false, not, ◌&&◌, ◌||◌, Option, none, some, List, [], ◌∷◌, ltb, leb,
  ◌==◌, if◌then◌else◌, length, take,
}
use hq_led_lamp.Json.{Text, Doubles, CJson, codes}
use hq_led_lamp.AppConfig.Types.{
  ConfigError, Result, Kind, Document, DeviceDoc, ManufacturingDoc, then_do, schema_version,
  max_file_bytes, work_buf_bytes, product_max_len, hardware_revision_max_len, serial_max_len,
  thingsboard_name_max_len,
}
use hq_led_lamp.AppConfig.Fields.{is_serial_char}
use hq_led_lamp.AppConfig.Storage.{Storage}
use hq_led_lamp.AppConfig.Stored.{c_string, validate_kind, platform_commit}

-- The index that `memchr` finds.
unfoldable pub find_nul : Text → Option ℕ
find_nul [] = none
find_nul (c ∷ cs) =
    if c == 0 then some 0 else elim (find_nul cs) [ none ↦ none | some n ↦ some (suc n) ]

-- The loop of `typed_string_check`.
unfoldable pub all_allowed : Text → Bool → Bool
all_allowed [] serial = true
all_allowed (c ∷ cs) serial =
    let printable = leb 32 c && leb c 126 in
    if not (if serial then is_serial_char c else printable) then false else all_allowed cs serial

-- `typed_string_check` of an array that is not null: the length of its text.
unfoldable pub typed_string_check : Text → ℕ → ℕ → Bool → Result ℕ
typed_string_check s cap max_len serial =
    if cap == 0 then Result.err ConfigError.bounds else elim (find_nul (take cap s)) [
      | none ↦ Result.err ConfigError.bounds
      | some len ↦
          if (len == 0) || ltb max_len len
          then Result.err ConfigError.bounds
          else if all_allowed (take len s) serial
          then Result.ok len
          else Result.err ConfigError.malformed
    ]

-- `device_doc_strings_valid`, of the last field's length.
unfoldable pub device_doc_strings_valid : DeviceDoc → Result ℕ
device_doc_strings_valid doc =
    then_do (typed_string_check doc.product (product_max_len + 1) product_max_len false) λ product.
      then_do
        (typed_string_check doc.hardware_revision (hardware_revision_max_len + 1)
          hardware_revision_max_len false)
        λ revision.
          then_do (typed_string_check doc.serial (serial_max_len + 1) serial_max_len true) λ serial.
            typed_string_check doc.thingsboard_name (thingsboard_name_max_len + 1)
              thingsboard_name_max_len false

-- `check_commit_version`: none for success.
unfoldable pub check_commit_version : ℕ → Option ConfigError
check_commit_version version =
    if ltb schema_version version
    then some ConfigError.unknown_schema
    else if ltb version schema_version
    then some ConfigError.migration
    else none

-- The values that the code adds to an object.
pub data Value : Type 0 where
  number : ℕ → Value
  string : Text → Value

-- cJSON's printer: an object of the members, built and printed in one buffer of the given size, or none
-- where memory runs out.
abbrev pub Printer : Type 0 → Type 0
Printer World = List (Text × Value) → ℕ → World → Option Text × World

-- The members of a document, as they are added.
unfoldable pub device_members : DeviceDoc → List (Text × Value)
device_members doc =
    (codes "schema_version", Value.number schema_version)
    ∷ (codes "product", Value.string (c_string doc.product))
    ∷ (codes "hardware_revision", Value.string (c_string doc.hardware_revision))
    ∷ (codes "serial", Value.string (c_string doc.serial))
    ∷ (codes "thingsboard_name", Value.string (c_string doc.thingsboard_name))
    ∷ []

unfoldable pub manufacturing_members : ManufacturingDoc → List (Text × Value)
manufacturing_members doc =
    (codes "schema_version", Value.number schema_version)
    ∷ (codes "manufacturing_state", Value.number doc.manufacturing_state)
    ∷ (codes "credential_mode", Value.number doc.credential_mode)
    ∷ []

-- The printed text, where it fits the buffer and the bound on a file.
unfoldable pub fits : ℕ → Option Text → Option Text
fits cap none = none
fits cap (some printed) =
    if ltb (length printed) cap && leb (length printed) max_file_bytes then some printed else none

abbrev pub kind_of : Document → Kind
kind_of (Document.device doc) = Kind.device
kind_of (Document.manufacturing doc) = Kind.manufacturing

abbrev pub version_in : Document → ℕ
version_in (Document.device doc) = doc.version
version_in (Document.manufacturing doc) = doc.version

module _ {d : Doubles} (j : CJson d) (st : Storage) (print : Printer st.World) where
  open st use {World, alloc}

  -- `serialize_device`, `serialize_manufacturing` and `serialize_kind`.
  unfoldable pub serialize : Document → ℕ → World → Option Text × World
  serialize (Document.device doc) cap w = elim (device_doc_strings_valid doc) [
    | Result.err e ↦ (none, w)
    | Result.ok n ↦ let (printed, w') = print (device_members doc) cap w in (fits cap printed, w')
  ]
  serialize (Document.manufacturing doc) cap w =
      let (printed, w') = print (manufacturing_members doc) cap w in (fits cap printed, w')

  -- The bounded gate of `commit_kind`.
  unfoldable pub gate : Document → Option ConfigError
  gate (Document.device doc) = elim (device_doc_strings_valid doc) [
    | Result.err e ↦ some e
    | Result.ok n ↦ none
  ]
  gate (Document.manufacturing doc) = none

  -- The end of `commit_kind`, with the serialized text.
  unfoldable pub commit_text : Kind → Option Text → World → Option ConfigError × World
  commit_text kind none w = (some ConfigError.io, w)
  commit_text kind (some json) w = elim (validate_kind j kind (some json)) [
    | Result.err e ↦ (some e, w)
    | Result.ok doc ↦ platform_commit j st kind json w
  ]

  unfoldable pub commit_kind : Document → World → Option ConfigError × World
  commit_kind doc w =
      let (has_memory, w1) = alloc w in
      if not has_memory then (some ConfigError.io, w1) else elim (gate doc) [
        | some e ↦ (some e, w1)
        | none ↦
            let (json, w2) = serialize doc work_buf_bytes w1 in commit_text (kind_of doc) json w2
      ]

  -- `app_config_commit_device` and `app_config_commit_manufacturing`; none for a null pointer.
  unfoldable pub commit_document : Option Document → World → Option ConfigError × World
  commit_document none w = (some ConfigError.invalid_argument, w)
  commit_document (some doc) w = elim (check_commit_version (version_in doc)) [
    | some e ↦ (some e, w)
    | none ↦ commit_kind doc w
  ]
