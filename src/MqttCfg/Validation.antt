-- ===== src/MqttCfg/Validation.antt =====
-- mqtt_cfg.c: the policy that a configuration is checked against.
use hq_led_lamp.Common.{
  Bool, true, false, not, ◌&&◌, ◌||◌, Option, none, some, [], ◌∷◌, ltb, ◌==◌, if◌then◌else◌,
}
use hq_led_lamp.Json.{Text}
use hq_led_lamp.MqttCfg.Types.{
  CfgError, AuthMode, MqttCfg, cfg_schema_version, client_id_max_len, port_min, tls_mode_mqtts,
}
use hq_led_lamp.MqttCfg.Fields.{is_printable, path_under_cert, hostname_valid}

-- `path[0] != '\0'`.
abbrev pub is_present : Text → Bool
is_present [] = false
is_present (c ∷ cs) = true

abbrev pub is_known_mode : AuthMode → Bool
is_known_mode (AuthMode.unknown n) = false
is_known_mode _ = true

abbrev pub is_mtls : AuthMode → Bool
is_mtls AuthMode.mtls = true
is_mtls _ = false

-- The tests on the client's certificate and key.
unfoldable pub cert_paths_error : MqttCfg → Option CfgError
cert_paths_error cfg =
    let cert_path_present = is_present cfg.client_cert_path in
    let key_path_present = is_present cfg.client_key_path in
    if is_mtls cfg.auth_mode && (not cert_path_present || not key_path_present)
    then some CfgError.cert_path
    else if cert_path_present && not (path_under_cert cfg.client_cert_path)
    then some CfgError.cert_path
    else if key_path_present && not (path_under_cert cfg.client_key_path)
    then some CfgError.cert_path
    else none

-- `mqtt_cfg_validate_fields` of a pointer; none for MQTT_CFG_OK.
unfoldable pub validate_fields : Option MqttCfg → Option CfgError
validate_fields none = some CfgError.invalid_argument
validate_fields (some cfg) =
    if not (cfg.schema_version == cfg_schema_version)
    then some CfgError.unknown_schema
    else if not (hostname_valid cfg.hostname)
    then some CfgError.hostname
    else if ltb cfg.port port_min
    then some CfgError.bounds
    else if not (cfg.tls_mode == tls_mode_mqtts)
    then some CfgError.plaintext
    else if not (is_printable cfg.client_id client_id_max_len)
    then some CfgError.bounds
    else if not (is_known_mode cfg.auth_mode)
    then some CfgError.malformed
    else if not (path_under_cert cfg.ca_path)
    then some CfgError.ca_path
    else cert_paths_error cfg
