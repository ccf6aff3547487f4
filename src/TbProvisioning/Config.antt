-- ===== src/TbProvisioning/Config.antt =====
-- tb_provisioning.c: the reading of provisioning.json. A successful call returns the configuration.
use Prim.Native.String.{String}
use hq_led_lamp.Common.{
  ℕ, suc, ◌+◌, Bool, true, false, not, ◌&&◌, ◌||◌, Option, none, some, List, [], ◌∷◌, ltb, leb,
  ◌==◌, if◌then◌else◌, length,
}
use hq_led_lamp.Common.Int.{pos}
use hq_led_lamp.Json.{Text, Doubles, CJson, codes, text_eq}
use hq_led_lamp.AppConfig.Storage.{Storage, StatResult}
use hq_led_lamp.AppConfig.Stored.{c_string}

-- `tb_provisioning_status_t` without TB_PROVISIONING_OK.
pub data ProvisioningError : Type 0 where
  not_found io malformed bounds unknown_schema request response persist : ProvisioningError

-- `tb_provisioning_status_name`; none is TB_PROVISIONING_OK.
unfoldable pub provisioning_status_name : Option ProvisioningError → String
provisioning_status_name none = "ok"
provisioning_status_name (some ProvisioningError.not_found) = "not_found"
provisioning_status_name (some ProvisioningError.io) = "io"
provisioning_status_name (some ProvisioningError.malformed) = "malformed"
provisioning_status_name (some ProvisioningError.bounds) = "bounds"
provisioning_status_name (some ProvisioningError.unknown_schema) = "unknown_schema"
provisioning_status_name (some ProvisioningError.request) = "request"
provisioning_status_name (some ProvisioningError.response) = "response"
provisioning_status_name (some ProvisioningError.persist) = "persist"

abbrev pub max_string_len : ℕ
max_string_len = 64

abbrev pub max_provisioning_bytes : ℕ
max_provisioning_bytes = 2048

abbrev pub provisioning_path : Text
provisioning_path = codes "/config/provisioning.json"

-- `tb_provisioning_config_t`, the texts in its arrays.
pub record ProvisioningConfig : Type 0 where
  pub device_name : Text
  pub provision_device_key : Text
  pub provision_device_secret : Text

-- A chain of tests that each give a value or stop.
infixl 5 ◌>>=◌
abbrev pub ◌>>=◌ {ℓ κ} : {A : Type ℓ} {B : Type κ} → Option A → (A → Option B) → Option B
none >>= f = none
some a >>= f = f a

-- The loop of `printable_value`.
unfoldable pub printable_chars : Text → Bool → Bool
printable_chars [] no_space = true
printable_chars (c ∷ cs) no_space =
    if ltb c 32 || ltb 126 c || (no_space && (c == b' '))
    then false
    else printable_chars cs no_space

-- `printable_value`; none is a null pointer.
unfoldable pub printable_value : Option Text → ℕ → Bool → Bool
printable_value none max_len no_space = false
printable_value (some value) max_len no_space =
    if (length value == 0) || ltb max_len (length value)
    then false
    else printable_chars value no_space

abbrev pub allowed_members : List Text
allowed_members =
    codes "schema_version"
    ∷ codes "device_name"
    ∷ codes "provision_device_key"
    ∷ codes "provision_device_secret"
    ∷ []

-- The loop over the allowed keys.
unfoldable pub member_known : Text → List Text → Bool
member_known key [] = false
member_known key (k ∷ ks) = if text_eq key k then true else member_known key ks

module _ {d : Doubles} (j : CJson d) (parse_prefix : Text → Option j.Item) where
  open j use {
    Item, get_item, children, name, is_object, is_string, is_number, valuestring, valuedouble,
  }

  -- The scan of the later members.
  unfoldable pub member_repeated : Text → List Item → Bool
  member_repeated key [] = false
  member_repeated key (next ∷ rest) = elim (name next) [
    | none ↦ member_repeated key rest
    | some k ↦ if text_eq key k then true else member_repeated key rest
  ]

  -- The loop of `exact_members`: the members counted, or none where one is refused.
  unfoldable pub exact_loop : List Item → ℕ → Option ℕ
  exact_loop [] count = some count
  exact_loop (item ∷ rest) count = elim (name item) [
    | none ↦ none
    | some key ↦
        if not (member_known key allowed_members)
        then none
        else if member_repeated key rest
        then none
        else exact_loop rest (suc count)
  ]

  unfoldable pub exact_members : Item → Bool
  exact_members root = elim (exact_loop (children root) 0) [
    | none ↦ false
    | some count ↦ count == length allowed_members
  ]

  -- A member that is a printable text.
  unfoldable pub text_member : Item → Text → Bool → Option Text
  text_member root key no_space = elim (get_item root key) [
    | none ↦ none
    | some item ↦
        if is_string item && printable_value (valuestring item) max_string_len no_space
        then valuestring item
        else none
  ]

  unfoldable pub version_matches : Item → Bool
  version_matches root = elim (get_item root (codes "schema_version")) [
    | none ↦ false
    | some item ↦ is_number item && d.eq (valuedouble item) (d.of_int (pos 1))
  ]

  -- The tests on the three texts, and their copy.
  unfoldable pub config_texts : Item → Option ProvisioningConfig
  config_texts root = do
    device_name ← text_member root (codes "device_name") false
    key ← text_member root (codes "provision_device_key") true
    secret ← text_member root (codes "provision_device_secret") true
    some (record {
      device_name = device_name;
      provision_device_key = key;
      provision_device_secret = secret;
    })

  unfoldable pub config_members : Item → Option ProvisioningConfig
  config_members root = if not (version_matches root) then none else config_texts root

  -- `parse_config`. The parser is called without the demand that it consume the whole text.
  unfoldable pub parse_config : Text → Option ProvisioningConfig
  parse_config json = elim (parse_prefix json) [
    | none ↦ none
    | some root ↦
        if not (is_object root) || not (exact_members root) then none else config_members root
  ]

  module _ (st : Storage) where
    open st use {World, Fd, stat, open_file, read, close}

    -- `read_file` from osal_open_create on: the bytes read, up to the first terminator.
    unfoldable pub read_opened : ℕ → ℕ → World → Option Text × World
    read_opened size capacity w =
        let (file, w1) = open_file provisioning_path w in
        elim file [
          | none ↦ (none, w1)
          | some f ↦
              let (got, w2) = read f size w1 in
              let (closed, w3) = close f w2 in
              elim got [
                | none ↦ (none, w3)
                | some bytes ↦
                    if (length bytes == 0) || leb capacity (length bytes)
                    then (none, w3)
                    else (some (c_string bytes), w3)
              ]
        ]

    -- `read_file` of provisioning.json.
    unfoldable pub read_provisioning : ℕ → World → Option Text × World
    read_provisioning capacity w =
        let (found, w1) = stat provisioning_path w in
        elim found [
          | StatResult.size n ↦
              if (n == 0) || leb capacity n then (none, w1) else read_opened n capacity w1
          | failed ↦ (none, w1)
        ]

    -- The end of `tb_provisioning_load`, with what was read.
    unfoldable pub parse_read : Option Text → Option ProvisioningError × Option ProvisioningConfig
    parse_read none = (some ProvisioningError.io, none)
    parse_read (some json) = elim (parse_config json) [
      | none ↦ (some ProvisioningError.malformed, none)
      | some config ↦ (none, some config)
    ]

    -- `tb_provisioning_load`, with whether `config` is not null: the status, none for success, and
    -- what is written.
    unfoldable pub provisioning_load :
        Bool → World → (Option ProvisioningError × Option ProvisioningConfig) × World
    provisioning_load false w = ((some ProvisioningError.malformed, none), w)
    provisioning_load true w =
        let (found, w1) = stat provisioning_path w in
        elim found [
          | StatResult.size n ↦
              let (json, w2) = read_provisioning (max_provisioning_bytes + 1) w1 in
              (parse_read json, w2)
          | failed ↦ ((some ProvisioningError.not_found, none), w1)
        ]
