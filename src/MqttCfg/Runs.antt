-- ===== src/MqttCfg/Runs.antt =====
-- mqtt_cfg.c: the theorems on load and apply, at inputs where their hypotheses hold.
use hq_led_lamp.Common.{Option, none, ℕ, ◌≤◌, ◌≡◌, refl, true, false, some, []}
use hq_led_lamp.Json.{Text, text_eq}
use hq_led_lamp.Json.MockJson.{mock_json}
use hq_led_lamp.Lamp.Hal.{is_ok}
use hq_led_lamp.Lamp.Control.{status_is_ok, fail_off_channel, fail_off_channels, fail_off}
use hq_led_lamp.Lamp.Operations.{force_inactive}
use hq_led_lamp.AppConfig.Stored.{c_string}
use hq_led_lamp.MqttCfg.Types.{
  CfgError, CfgResult, AuthMode, MqttCfg, cfg_max_file_bytes, file_path,
}
use hq_led_lamp.MqttCfg.Fields.{
  all_printable, is_printable, has_prefix, has_dots, path_under_cert, is_alnum, hostname_loop,
  ends_with_dot, has_colon, hostname_valid,
}
use hq_led_lamp.MqttCfg.Document.{
  has_nul_escape, key_allowed, auth_mode_of, repeated, member_keys, keys_accepted,
  get_string_member, required_string, parse_version, parse_hostname, port_of, parse_port,
  parse_client_id, parse_tls_mode, check_skip_verify, parse_ca_path, parse_credentials,
  parse_members, parse_root,
}
use hq_led_lamp.MqttCfg.Validation.{cert_paths_error, validate_fields}
use hq_led_lamp.MqttCfg.Platform.{fail_off_lamp}
use hq_led_lamp.MqttCfg.Load.{
  read_sized, read_file, read_error, checked_cfg, read_document, refuse, load, validate,
}
use hq_led_lamp.MqttCfg.Apply.{
  next_generation, decimal, address_of, usable_token, verified_of, begin_state, begin_apply,
  hand_over, apply_checked, apply_values, apply, load_and_apply, get_server_url,
}
use hq_led_lamp.MqttCfg.Connect.{connect}
use hq_led_lamp.MqttCfg.Dark.{IsBlocked}
use hq_led_lamp.MqttCfg.Trace.{Op, is_session, step, run}
use hq_led_lamp.MqttCfg.Closed.{refused-connect}
use hq_led_lamp.MqttCfg.Policy.{IsPolicy}
use hq_led_lamp.MqttCfg.Accepts.{IsStrict, load-IsPolicy}
use hq_led_lamp.MqttCfg.MockBroker.{
  steady_hal, steady_laws, steady_obeys, broker, fresh, mtls_cfg, keyless_cfg,
}

-- What the document of the broker says.
abbrev token_cfg : MqttCfg
token_cfg = record mtls_cfg {
  auth_mode = AuthMode.access_token;
  client_cert_path = [];
  client_key_path = [];
}

abbrev port_of_some : Option MqttCfg → ℕ
port_of_some none = 0
port_of_some (some c) = c.port

load-IsPolicy_example :
    IsPolicy token_cfg
    × (token_cfg.port ≤ 65535)
    × ((json : Text) × ((read_file broker.files file_path cfg_max_file_bytes fresh.world).0
          ≡ some json)
        × ((root : mock_json.Item) × IsStrict mock_json json root
            × (parse_root mock_json root ≡ CfgResult.ok token_cfg)))
    × ((load mock_json steady_hal broker true fresh).1.state ≡ fresh.state)
    × ((load mock_json steady_hal broker true fresh).1.lamp ≡ fresh.lamp)
    × ((load mock_json steady_hal broker true fresh).1.hardware ≡ fresh.hardware)
unfolding text_eq has_nul_escape key_allowed auth_mode_of repeated member_keys keys_accepted
    get_string_member required_string parse_version parse_hostname port_of parse_port
    parse_client_id parse_tls_mode check_skip_verify parse_ca_path parse_credentials parse_members
    parse_root all_printable is_printable has_prefix has_dots path_under_cert is_alnum hostname_loop
    ends_with_dot has_colon hostname_valid cert_paths_error validate_fields c_string read_sized
    read_file read_error checked_cfg read_document refuse load validate fail_off_lamp fail_off
    fail_off_channels fail_off_channel is_ok status_is_ok force_inactive
load-IsPolicy_example = load-IsPolicy mock_json steady_hal broker fresh token_cfg refl

refused-connect_example :
    let (status, y') = step mock_json steady_hal broker (Op.applies (some keyless_cfg)) fresh in
    let (refused, z) = connect steady_hal broker 1000 y' in
    (refused ≡ some (some CfgError.not_applied))
    × (z.world ≡ (broker.client_deinit y'.world).1)
    × (z.state.verified_applied ≡ false)
    × (z.state.waiting_for_connection ≡ false)
    × IsBlocked steady_laws z.lamp z.hardware
unfolding all_printable is_printable has_prefix has_dots path_under_cert is_alnum hostname_loop
    ends_with_dot has_colon hostname_valid cert_paths_error validate_fields c_string read_sized
    read_file read_error checked_cfg read_document refuse load validate fail_off_lamp fail_off
    fail_off_channels fail_off_channel is_ok status_is_ok force_inactive next_generation decimal
    address_of usable_token verified_of begin_state begin_apply hand_over apply_checked apply_values
    apply load_and_apply get_server_url is_session step run
refused-connect_example =
    refused-connect steady_laws broker steady_obeys mock_json (Op.applies (some keyless_cfg)) 1000
      fresh CfgError.cert_path refl refl refl
