-- ===== src/MqttCfg/Document.antt =====
-- mqtt_cfg.c: the strict reading of a parsed mqtt.json.
use hq_led_lamp.Common.{
  ℕ, suc, ◌+◌, ◌%◌, Bool, true, false, not, ◌&&◌, ◌||◌, Option, none, some, List, [], ◌∷◌, leb,
  ◌==◌, if◌then◌else◌, length,
}
use hq_led_lamp.Common.Int.{pos}
use hq_led_lamp.Json.{Text, Doubles, CJson, codes, text_eq}
use hq_led_lamp.MqttCfg.Types.{
  CfgError, CfgResult, and_then, AuthMode, MqttCfg, cfg_schema_version, client_id_max_len, port_min,
  port_max, tls_mode_mqtts,
}
use hq_led_lamp.MqttCfg.Fields.{
  hostname_max_len, path_max_len, is_printable, has_prefix, path_under_cert, hostname_valid,
}

-- `mqtt_cfg_raw_json_has_nul_escape`, with its flag.
unfoldable pub has_nul_escape : Text → Bool → Bool
has_nul_escape [] escaped = false
has_nul_escape (c ∷ cs) true =
    if (c == b'u') && has_prefix (codes "0000") cs then true else has_nul_escape cs false
has_nul_escape (c ∷ cs) false = has_nul_escape cs (c == b'\\')

abbrev pub mqtt_cfg_keys : List Text
mqtt_cfg_keys =
    codes "schema_version"
    ∷ codes "hostname"
    ∷ codes "port"
    ∷ codes "tls_mode"
    ∷ codes "ca_path"
    ∷ codes "client_cert_path"
    ∷ codes "client_key_path"
    ∷ codes "client_id"
    ∷ codes "auth_mode"
    ∷ codes "skip_verify"
    ∷ []

-- The loop over the allowed keys.
unfoldable pub key_allowed : Text → List Text → Bool
key_allowed key [] = false
key_allowed key (k ∷ ks) = if text_eq key k then true else key_allowed key ks

-- The comparison of the texts that choose `auth_mode`.
unfoldable pub auth_mode_of : Text → CfgResult AuthMode
auth_mode_of value =
    if text_eq value (codes "none")
    then CfgResult.ok AuthMode.no_auth
    else if text_eq value (codes "access_token")
    then CfgResult.ok AuthMode.access_token
    else if text_eq value (codes "runtime")
    then CfgResult.ok AuthMode.runtime
    else if text_eq value (codes "mtls")
    then CfgResult.ok AuthMode.mtls
    else CfgResult.err CfgError.malformed

module _ {d : Doubles} (j : CJson d) where
  open j use {
    Item, get_item, children, name, is_string, is_bool, is_true, is_number, valuestring,
    valuedouble,
  }

  -- The scan of the later members for a key.
  unfoldable pub repeated : Text → List Item → Bool
  repeated key [] = false
  repeated key (probe ∷ rest) = elim (name probe) [
    | none ↦ repeated key rest
    | some k ↦ if text_eq k key then true else repeated key rest
  ]

  -- The loop of `mqtt_cfg_check_member_keys`: the members counted, or none where one is refused.
  unfoldable pub member_keys : List Item → List Text → ℕ → Option ℕ
  member_keys [] allowed members = some members
  member_keys (child ∷ rest) allowed members = elim (name child) [
    | none ↦ none
    | some key ↦
        if length key == 0
        then none
        else if not (key_allowed key allowed)
        then none
        else if repeated key rest
        then none
        else member_keys rest allowed (suc members)
  ]

  unfoldable pub keys_accepted : Item → List Text → Bool
  keys_accepted object allowed = elim (member_keys (children object) allowed 0) [
    | none ↦ false
    | some members ↦ leb members (length allowed)
  ]

  -- `mqtt_cfg_get_string_member`, into an array of `cap` bytes.
  unfoldable pub get_string_member : Item → Text → ℕ → CfgResult Text
  get_string_member root key cap = elim (get_item root key) [
    | none ↦ CfgResult.ok []
    | some item ↦
        if is_string item
        then elim (valuestring item) [
          | none ↦ CfgResult.err CfgError.malformed
          | some value ↦
              if leb cap (length value) then CfgResult.err CfgError.bounds else CfgResult.ok value
        ]
        else CfgResult.err CfgError.malformed
  ]

  -- A member that must be a text.
  unfoldable pub required_string : Item → Text → CfgResult Text
  required_string root key = elim (get_item root key) [
    | none ↦ CfgResult.err CfgError.malformed
    | some item ↦
        if is_string item
        then elim (valuestring item) [
          | none ↦ CfgResult.err CfgError.malformed
          | some value ↦ CfgResult.ok value
        ]
        else CfgResult.err CfgError.malformed
  ]

  unfoldable pub parse_version : Item → CfgResult ℕ
  parse_version root = elim (get_item root (codes "schema_version")) [
    | none ↦ CfgResult.err CfgError.malformed
    | some item ↦
        if is_number item
        then if d.eq (valuedouble item) (d.of_int (pos cfg_schema_version))
          then CfgResult.ok cfg_schema_version
          else if d.lt (d.of_int (pos cfg_schema_version)) (valuedouble item)
          then CfgResult.err CfgError.unknown_schema
          else CfgResult.err CfgError.malformed
        else CfgResult.err CfgError.malformed
  ]

  unfoldable pub parse_hostname : Item → CfgResult Text
  parse_hostname root =
      and_then (get_string_member root (codes "hostname") (hostname_max_len + 1)) λ hostname.
        if not (hostname_valid hostname)
        then CfgResult.err CfgError.hostname
        else CfgResult.ok hostname

  -- The tests on the number, and its cast to uint16_t.
  unfoldable pub port_of : d.Double → CfgResult ℕ
  port_of port =
      if d.lt port (d.of_int (pos port_min))
        || d.lt (d.of_int (pos port_max)) port
        || not (d.eq port (d.of_int (pos (d.truncate port))))
      then CfgResult.err CfgError.bounds
      else CfgResult.ok (d.truncate port % 65536)

  unfoldable pub parse_port : Item → CfgResult ℕ
  parse_port root = elim (get_item root (codes "port")) [
    | none ↦ CfgResult.err CfgError.malformed
    | some item ↦
        if is_number item then port_of (valuedouble item) else CfgResult.err CfgError.malformed
  ]

  unfoldable pub parse_client_id : Item → CfgResult Text
  parse_client_id root =
      and_then (get_string_member root (codes "client_id") (client_id_max_len + 1)) λ client_id.
        if not (is_printable client_id client_id_max_len)
        then CfgResult.err CfgError.bounds
        else CfgResult.ok client_id

  unfoldable pub parse_tls_mode : Item → CfgResult ℕ
  parse_tls_mode root = and_then (required_string root (codes "tls_mode")) λ value.
      if not (text_eq value (codes "mqtts"))
      then CfgResult.err CfgError.plaintext
      else CfgResult.ok tls_mode_mqtts

  -- Absent or false only.
  unfoldable pub check_skip_verify : Item → CfgResult Bool
  check_skip_verify root = elim (get_item root (codes "skip_verify")) [
    | none ↦ CfgResult.ok false
    | some item ↦
        if not (is_bool item)
        then CfgResult.err CfgError.malformed
        else if is_true item
        then CfgResult.err CfgError.skip_verify
        else CfgResult.ok false
  ]

  unfoldable pub parse_ca_path : Item → CfgResult Text
  parse_ca_path root =
      and_then (get_string_member root (codes "ca_path") (path_max_len + 1)) λ ca_path.
        if not (path_under_cert ca_path)
        then CfgResult.err CfgError.ca_path
        else CfgResult.ok ca_path

  -- The end of `mqtt_cfg_parse_root`, after the members that name the broker and the CA.
  unfoldable pub parse_credentials : Item → MqttCfg → CfgResult MqttCfg
  parse_credentials root cfg =
      and_then (get_string_member root (codes "client_cert_path") (path_max_len + 1)) λ cert.
        and_then (get_string_member root (codes "client_key_path") (path_max_len + 1)) λ key.
          and_then (required_string root (codes "auth_mode")) λ value.
            and_then (auth_mode_of value) λ auth_mode.
              CfgResult.ok (record cfg {
                auth_mode = auth_mode;
                client_cert_path = cert;
                client_key_path = key;
              })

  -- The members of an object whose keys are allowed, in the order of the tests. `auth_mode` and the
  -- two paths keep the zeros of `memset` up to `parse_credentials`.
  unfoldable pub parse_members : Item → CfgResult MqttCfg
  parse_members root = and_then (parse_version root) λ version.
      and_then (parse_hostname root) λ hostname. and_then (parse_port root) λ port.
        and_then (parse_client_id root) λ client_id. and_then (parse_tls_mode root) λ tls_mode.
          and_then (check_skip_verify root) λ skip_verify. and_then (parse_ca_path root) λ ca_path.
            parse_credentials root (record {
              schema_version = version;
              hostname = hostname;
              port = port;
              client_id = client_id;
              tls_mode = tls_mode;
              auth_mode = AuthMode.no_auth;
              ca_path = ca_path;
              client_cert_path = [];
              client_key_path = [];
            })

  -- `mqtt_cfg_parse_root`.
  unfoldable pub parse_root : Item → CfgResult MqttCfg
  parse_root root =
      if not (keys_accepted root mqtt_cfg_keys)
      then CfgResult.err CfgError.malformed
      else parse_members root
