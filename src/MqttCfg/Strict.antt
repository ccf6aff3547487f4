-- ===== src/MqttCfg/Strict.antt =====
-- mqtt_cfg.c: the second check of a document that has been parsed, and what mqtt_cfg_load accepts.
use hq_led_lamp.Common.{ℕ, ◌≤◌, ◌≡◌, true, some, arith}
use hq_led_lamp.Json.{Text, Doubles, CJson, codes}
use hq_led_lamp.MqttCfg.Types.{CfgResult, MqttCfg}
use hq_led_lamp.MqttCfg.Fields.{is_printable, path_under_cert, hostname_valid}
use hq_led_lamp.MqttCfg.Document.{
  mqtt_cfg_keys, keys_accepted, get_string_member, required_string, parse_version, parse_hostname,
  port_of, parse_port, parse_client_id, parse_tls_mode, parse_ca_path, parse_root,
}
use hq_led_lamp.MqttCfg.Validation.{cert_paths_error, validate_fields}
use hq_led_lamp.MqttCfg.Parsed.{
  and_then-ok, auth_mode_of_known, ComparesIntegers, IsRead, parse_members-IsRead,
}

module _ {d : Doubles} (j : CJson d) where
  open j use {Item, get_item, is_true, is_number, valuedouble}

  ok_same : {A : Type 0} (a b : A) → CfgResult.ok a ≡ CfgResult.ok b → a ≡ b
  ok_same a b h = cc

  parse_version_lem : (root : Item) (n : ℕ) → parse_version j root ≡ CfgResult.ok n → n ≡ 1
  unfolding parse_version
  parse_version_lem root n h = ground (arith, h)

  parse_hostname_lem :
      (root : Item) (s : Text) → parse_hostname j root ≡ CfgResult.ok s → hostname_valid s ≡ true
  unfolding parse_hostname
  parse_hostname_lem root s h =
      let (s', h1, h2) = and_then-ok (get_string_member j root (codes "hostname") 129) _ s h in
      ground (arith, h2)

  parse_client_id_lem :
      (root : Item) (s : Text) → parse_client_id j root ≡ CfgResult.ok s → is_printable s 64 ≡ true
  unfolding parse_client_id
  parse_client_id_lem root s h =
      let (s', h1, h2) = and_then-ok (get_string_member j root (codes "client_id") 65) _ s h in
      ground (arith, h2)

  parse_tls_mode_lem : (root : Item) (n : ℕ) → parse_tls_mode j root ≡ CfgResult.ok n → n ≡ 1
  unfolding parse_tls_mode
  parse_tls_mode_lem root n h =
      let (s', h1, h2) = and_then-ok (required_string j root (codes "tls_mode")) _ n h in
      ground (arith, h2)

  parse_ca_path_lem :
      (root : Item) (s : Text) → parse_ca_path j root ≡ CfgResult.ok s → path_under_cert s ≡ true
  unfolding parse_ca_path
  parse_ca_path_lem root s h =
      let (s', h1, h2) = and_then-ok (get_string_member j root (codes "ca_path") 129) _ s h in
      ground (arith, h2)

  port_of_lem :
      (v : d.Double) (n : ℕ)
      → ComparesIntegers j
      → port_of j v ≡ CfgResult.ok n
      → (1 ≤ n) × (n ≤ 65535)
  unfolding port_of
  port_of_lem v n compares h =
      let low = compares v (d.truncate v) 1 in
      let high = compares v (d.truncate v) 65535 in
      (ground (arith, h, low, high), ground (arith, h, low, high))

  parse_port_lem :
      (root : Item) (n : ℕ)
      → ComparesIntegers j
      → parse_port j root ≡ CfgResult.ok n
      → (1 ≤ n) × (n ≤ 65535)
  unfolding parse_port
  parse_port_lem root n compares h = grind (arith, port_of_lem)

  pub parse_port_bound : (root : Item) (n : ℕ) → parse_port j root ≡ CfgResult.ok n → n ≤ 65535
  unfolding parse_port port_of
  parse_port_bound root n h = ground (arith, h)

  pub parse_root_accepted :
      (root : Item) (cfg : MqttCfg)
      → parse_root j root ≡ CfgResult.ok cfg
      → (keys_accepted j root mqtt_cfg_keys ≡ true) × IsRead j root cfg
  unfolding parse_root
  parse_root_accepted root cfg h =
      (ground (arith, h), parse_members-IsRead j root cfg (ground (arith, h)))

  -- Of a configuration that mqtt_cfg_parse_root returns, mqtt_cfg_validate_fields can refuse nothing but
  -- the paths of the client's certificate and key, for a parser whose comparisons of a double with an
  -- integer are exact.
  pub parse_root-validate_fields :
      (root : Item) (cfg : MqttCfg)
      → ComparesIntegers j
      → parse_root j root ≡ CfgResult.ok cfg
      → validate_fields (some cfg) ≡ cert_paths_error cfg
  unfolding validate_fields
  parse_root-validate_fields root cfg compares h =
      let (keys, read) = parse_root_accepted root cfg h in
      let version = parse_version_lem root cfg.schema_version read.version in
      let host = parse_hostname_lem root cfg.hostname read.host in
      let (low, high) = parse_port_lem root cfg.port compares read.port in
      let client = parse_client_id_lem root cfg.client_id read.client in
      let tls = parse_tls_mode_lem root cfg.tls_mode read.tls in
      let ca = parse_ca_path_lem root cfg.ca_path read.ca in
      let (value, chosen) = read.mode in
      let mode = auth_mode_of_known value cfg.auth_mode chosen in
      ground (arith, version, host, low, client, tls, ca, mode)
