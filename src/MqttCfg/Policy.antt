-- ===== src/MqttCfg/Policy.antt =====
-- mqtt_cfg.c: the configurations that mqtt_cfg_validate_fields accepts.
use hq_led_lamp.Common.{◌≤◌, ◌<◌, ◌≡◌, sym, ◌∙◌, true, none, some, All, arith, length}
use hq_led_lamp.Json.{Text}
use hq_led_lamp.MqttCfg.Types.{MqttCfg}
use hq_led_lamp.MqttCfg.Fields.{is_printable, path_under_cert, hostname_valid}
use hq_led_lamp.MqttCfg.Names.{is_name, has_non_digit, hostname_valid_lem}
use hq_led_lamp.MqttCfg.Validation.{
  is_present, is_known_mode, is_mtls, cert_paths_error, validate_fields,
}
use hq_led_lamp.MqttCfg.Paths.{IsAscii, IsCertPath, is_printable_lem, path_under_cert-IsCertPath}

-- Absent, or a path below /cert.
abbrev pub IsOptionalPath : Text → Type 0
IsOptionalPath path = is_present path ≡ true → IsCertPath path

-- The verified-TLS policy.
pub record IsPolicy (cfg : MqttCfg) : Type 0 where
  pub version : cfg.schema_version ≡ 1
  pub host_short : length cfg.hostname ≤ 128
  pub host_name : is_name cfg.hostname ≡ true
  pub host_no_ipv4 : has_non_digit cfg.hostname ≡ true
  pub port_positive : 1 ≤ cfg.port
  pub tls : cfg.tls_mode ≡ 1
  pub client_named : 0 < length cfg.client_id
  pub client_short : length cfg.client_id ≤ 64
  pub client_ascii : All IsAscii cfg.client_id
  pub known_mode : is_known_mode cfg.auth_mode ≡ true
  pub ca : IsCertPath cfg.ca_path
  pub mtls_paths :
      is_mtls cfg.auth_mode ≡ true
      → (is_present cfg.client_cert_path ≡ true) × (is_present cfg.client_key_path ≡ true)
  pub cert : IsOptionalPath cfg.client_cert_path
  pub key : IsOptionalPath cfg.client_key_path

-- The tests, each passed.
record Passed (cfg : MqttCfg) : Type 0 where
  version : cfg.schema_version ≡ 1
  host : hostname_valid cfg.hostname ≡ true
  port_positive : 1 ≤ cfg.port
  tls : cfg.tls_mode ≡ 1
  client : is_printable cfg.client_id 64 ≡ true
  known_mode : is_known_mode cfg.auth_mode ≡ true
  ca : path_under_cert cfg.ca_path ≡ true
  certs : cert_paths_error cfg ≡ none

validate_fields-Passed : (cfg : MqttCfg) → validate_fields (some cfg) ≡ none → Passed cfg
unfolding validate_fields
validate_fields-Passed cfg h = record {
  version = ground (arith, h);
  host = ground (arith, h);
  port_positive = ground (arith, h);
  tls = ground (arith, h);
  client = ground (arith, h);
  known_mode = ground (arith, h);
  ca = ground (arith, h);
  certs = ground (arith, h);
}

cert_path_passed :
    (cfg : MqttCfg)
    → cert_paths_error cfg ≡ none
    → is_present cfg.client_cert_path ≡ true
    → path_under_cert cfg.client_cert_path ≡ true
unfolding cert_paths_error
cert_path_passed cfg h present = ground (arith, h, present)

key_path_passed :
    (cfg : MqttCfg)
    → cert_paths_error cfg ≡ none
    → is_present cfg.client_key_path ≡ true
    → path_under_cert cfg.client_key_path ≡ true
unfolding cert_paths_error
key_path_passed cfg h present = ground (arith, h, present)

mtls_passed :
    (cfg : MqttCfg)
    → cert_paths_error cfg ≡ none
    → is_mtls cfg.auth_mode ≡ true
    → (is_present cfg.client_cert_path ≡ true) × (is_present cfg.client_key_path ≡ true)
unfolding cert_paths_error
mtls_passed cfg h mtls = (ground (arith, h, mtls), ground (arith, h, mtls))

-- What mqtt_cfg_validate_fields accepts meets the policy: version 1, a DNS name of at most 128 bytes that
-- is no IPv4 address, a port of at least 1, TLS, a printable client id of 1 to 64 bytes, a known mode, a CA
-- path below /cert, the client's paths below /cert where they are present, and both present for mTLS.
pub validate_fields-IsPolicy : (cfg : MqttCfg) → validate_fields (some cfg) ≡ none → IsPolicy cfg
validate_fields-IsPolicy cfg h =
    let passed = validate_fields-Passed cfg h in
    let host = sym (hostname_valid_lem cfg.hostname) ∙ passed.host in
    let (named, short, ascii) = is_printable_lem cfg.client_id 64 passed.client in
    record {
      version = passed.version;
      host_short = ground (arith, host);
      host_name = ground (arith, host);
      host_no_ipv4 = ground (arith, host);
      port_positive = passed.port_positive;
      tls = passed.tls;
      client_named = named;
      client_short = short;
      client_ascii = ascii;
      known_mode = passed.known_mode;
      ca = path_under_cert-IsCertPath cfg.ca_path passed.ca;
      mtls_paths = mtls_passed cfg passed.certs;
      cert = λ present.
          path_under_cert-IsCertPath cfg.client_cert_path
            (cert_path_passed cfg passed.certs present);
      key = λ present.
          path_under_cert-IsCertPath cfg.client_key_path (key_path_passed cfg passed.certs present);
    }
