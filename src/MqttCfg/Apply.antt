-- ===== src/MqttCfg/Apply.antt =====
-- mqtt_cfg.c: mqtt_cfg_apply, mqtt_cfg_load_and_apply and mqtt_cfg_get_server_url.
use hq_led_lamp.Common.{
  ℕ, zero, suc, ◌+◌, ◌/◌, ◌%◌, Bool, true, false, not, Option, none, some, [], ◌∷◌, ◌++◌, ltb, leb,
  ◌==◌, if◌then◌else◌, length,
}
use hq_led_lamp.Json.{Text, Doubles, CJson, codes}
use hq_led_lamp.Lamp.Hal.{Hal}
use hq_led_lamp.MqttCfg.Types.{CfgError, CfgResult, AuthMode, MqttCfg}
use hq_led_lamp.MqttCfg.Fields.{hostname_max_len}
use hq_led_lamp.MqttCfg.Validation.{validate_fields, is_mtls}
use hq_led_lamp.MqttCfg.Platform.{
  VerifiedStatus, Verified, Platform, State, Endpoint, no_session, fail_off_lamp, during,
}
use hq_led_lamp.MqttCfg.Load.{load}

-- The next apply generation, a uint32_t that skips 0.
unfoldable pub next_generation : ℕ → ℕ
next_generation g = let gen = (g + 1) % 4294967296 in if gen == 0 then 1 else gen

-- The digits that `%u` prints of a number with at most `n` + 1 digits.
unfoldable pub decimal : ℕ → ℕ → Text
decimal zero v = (b'0' + v) ∷ []
decimal (suc n) v = if ltb v 10 then (b'0' + v) ∷ [] else decimal n (v / 10) ++ (b'0' + v % 10) ∷ []

-- MQTT_CFG_ADDRESS_FMT printed with a host name and a port: an `unsigned` has at most ten digits.
unfoldable pub address_of : Text → ℕ → Text
address_of hostname port = codes "mqtts://" ++ hostname ++ codes ":" ++ decimal 9 port

abbrev pub address_size : ℕ
address_size = hostname_max_len + 16

abbrev pub is_token_mode : AuthMode → Bool
is_token_mode AuthMode.access_token = true
is_token_mode _ = false

-- The token of a mode that needs one, where it is there and not empty.
unfoldable pub usable_token : AuthMode → Option Text → Bool
usable_token AuthMode.access_token none = false
usable_token AuthMode.access_token (some []) = false
usable_token _ token = true

-- The user name and the password that are handed over.
abbrev pub username_of : AuthMode → Option Text → Option Text
username_of AuthMode.access_token token = token
username_of AuthMode.no_auth token = some []
username_of _ token = none

abbrev pub password_of : AuthMode → Option Text
password_of AuthMode.access_token = some []
password_of AuthMode.no_auth = some []
password_of _ = none

unfoldable pub verified_of : MqttCfg → Option Text → Verified
verified_of cfg token = record {
  address = address_of cfg.hostname cfg.port;
  client_id = cfg.client_id;
  username = username_of cfg.auth_mode token;
  password = password_of cfg.auth_mode;
  ca_path = cfg.ca_path;
  client_cert_path = if is_mtls cfg.auth_mode then some cfg.client_cert_path else none;
  client_key_path = if is_mtls cfg.auth_mode then some cfg.client_key_path else none;
}

-- The statuses of the platform; none for success.
abbrev pub apply_error : VerifiedStatus → Option CfgError
apply_error VerifiedStatus.ok = none
apply_error VerifiedStatus.ca_error = some CfgError.ca_path
apply_error VerifiedStatus.client_cert_error = some CfgError.cert_path
apply_error VerifiedStatus.other = some CfgError.apply

-- The writes to the static variables before the teardown.
unfoldable pub begin_state : State → State
begin_state t = record (no_session t) {
  apply_generation = next_generation t.apply_generation;
  verified_applied = false;
}

module _ (hal : Hal) (p : Platform) where
  -- `mqtt_cfg_apply` up to the teardown of the old session.
  unfoldable pub begin_apply : Endpoint hal p → Endpoint hal p
  begin_apply y =
      let closed : Endpoint hal p = record y {
        state = begin_state y.state;
        world = p.invalidate_verified y.world;
      } in
      let off = if p.is_connected closed.world then fail_off_lamp hal p closed else closed in
      let down = during hal p p.client_deinit off in
      record down { state = record (down.state) { verified_applied = false } }

  -- The call of mqtt_config_apply_verified and what follows.
  unfoldable pub hand_over : Verified → Endpoint hal p → Option CfgError × Endpoint hal p
  hand_over v y =
      let (status, w') = p.apply_verified v y.world in
      let z : Endpoint hal p = record y { world = w' } in
      elim (apply_error status) [
        | none ↦ (none, record z { state = record (z.state) { verified_applied = true } })
        | some e ↦ (some e, fail_off_lamp hal p z)
      ]

  -- The values of a configuration that has been checked.
  unfoldable pub apply_checked : MqttCfg → Endpoint hal p → Option CfgError × Endpoint hal p
  apply_checked cfg y =
      let token = if is_token_mode cfg.auth_mode then p.identity_token y.world else none in
      if not (usable_token cfg.auth_mode token)
      then (some CfgError.apply, fail_off_lamp hal p y)
      else if leb address_size (length (address_of cfg.hostname cfg.port))
      then (some CfgError.apply, fail_off_lamp hal p y)
      else hand_over (verified_of cfg token) y

  -- `mqtt_cfg_apply` after the teardown.
  unfoldable pub apply_values : Option MqttCfg → Endpoint hal p → Option CfgError × Endpoint hal p
  apply_values none y = (some CfgError.invalid_argument, fail_off_lamp hal p y)
  apply_values (some cfg) y = elim (validate_fields (some cfg)) [
    | some e ↦ (some e, fail_off_lamp hal p y)
    | none ↦ apply_checked cfg y
  ]

  -- `mqtt_cfg_apply`; none for MQTT_CFG_OK.
  unfoldable pub apply : Option MqttCfg → Endpoint hal p → Option CfgError × Endpoint hal p
  apply cfg y = apply_values cfg (begin_apply y)

  unfoldable pub load_and_apply :
      {d : Doubles} → CJson d → Endpoint hal p → Option CfgError × Endpoint hal p
  load_and_apply j y =
      let (loaded, y') = load j hal p true y in
      elim loaded [ CfgResult.err e ↦ (some e, y') | CfgResult.ok cfg ↦ apply (some cfg) y' ]

  -- `mqtt_cfg_get_server_url` into `out_size` bytes, none for a null or empty buffer.
  unfoldable pub get_server_url : Option ℕ → Endpoint hal p → CfgResult Text
  get_server_url none y = CfgResult.err CfgError.invalid_argument
  get_server_url (some out_size) y =
      if y.state.verified_applied
      then elim (p.verified_server_url y.world) [
        | none ↦ CfgResult.err CfgError.not_applied
        | some url ↦
            if leb out_size (length url) then CfgResult.err CfgError.bounds else CfgResult.ok url
      ]
      else CfgResult.err CfgError.not_applied
