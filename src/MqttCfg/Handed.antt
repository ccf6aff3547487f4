-- ===== src/MqttCfg/Handed.antt =====
-- mqtt_cfg.c: the values that mqtt_cfg_apply hands to the platform.
use hq_led_lamp.Common.{
  List-cases, [], ◌++◌, ◌<◌, ◌≤◌, ◌≡◌, refl, true, Option, Option-cases, none, some, inl, inr,
  arith, length, if◌then◌else◌,
}
use hq_led_lamp.Json.{Text, codes}
use hq_led_lamp.MqttCfg.Types.{AuthMode, MqttCfg}
use hq_led_lamp.MqttCfg.Platform.{Verified, Platform}
use hq_led_lamp.MqttCfg.Apply.{decimal, address_of, is_token_mode, usable_token, verified_of}
use hq_led_lamp.MqttCfg.Address.{value_from, value_from-decimal, length-decimal}

module _ (p : Platform) where
  open p.files use {World}

  -- The token that a mode needs, or none.
  abbrev pub token_for : MqttCfg → World → Option Text
  token_for cfg w = if is_token_mode cfg.auth_mode then p.identity_token w else none

  -- The credentials of a mode that are handed over: the user name, the password, and the paths of the
  -- client's certificate and key. The token is the one that the device has, and is not empty.
  abbrev pub Credentials : AuthMode → MqttCfg → World → Verified → Type 0
  Credentials AuthMode.access_token cfg w v =
      ((token : Text) × (p.identity_token w ≡ some token)
        × (0 < length token)
        × (v.username ≡ some token))
      × (v.password ≡ some [])
      × (v.client_cert_path ≡ none)
      × (v.client_key_path ≡ none)
  Credentials AuthMode.mtls cfg w v =
      (v.username ≡ none)
      × (v.password ≡ none)
      × (v.client_cert_path ≡ some cfg.client_cert_path)
      × (v.client_key_path ≡ some cfg.client_key_path)
  Credentials AuthMode.no_auth cfg w v =
      (v.username ≡ some [])
      × (v.password ≡ some [])
      × (v.client_cert_path ≡ none)
      × (v.client_key_path ≡ none)
  Credentials _ cfg w v =
      (v.username ≡ none)
      × (v.password ≡ none)
      × (v.client_cert_path ≡ none)
      × (v.client_key_path ≡ none)

  -- The values that are handed over: the address mqtts://<hostname>:<port>, with at most five digits that
  -- stand for the port, the client id, the path of the CA, and the credentials of the mode.
  pub record IsHandedOver (cfg : MqttCfg) (w : World) (v : Verified) : Type 0 where
    pub digits : Text
    pub address : v.address ≡ codes "mqtts://" ++ cfg.hostname ++ codes ":" ++ digits
    pub short : length digits ≤ 5
    pub port : value_from 0 digits ≡ cfg.port
    pub client_id : v.client_id ≡ cfg.client_id
    pub ca_path : v.ca_path ≡ cfg.ca_path
    pub credentials : Credentials cfg.auth_mode cfg w v

  token_read :
      (w : World)
      → usable_token AuthMode.access_token (p.identity_token w) ≡ true
      → (token : Text) × (p.identity_token w ≡ some token) × (0 < length token)
  unfolding usable_token
  token_read w u = elim (Option-cases (p.identity_token w)) [
    | inl e ↦ absurd (ground (arith, u, e))
    | inr (token, e) ↦ elim (List-cases token) [
      | inl empty ↦ absurd (ground (arith, u, e, empty))
      | inr (c, cs, full) ↦ (token, e, ground (arith, full))
    ]
  ]

  verified_of-Credentials :
      (mode : AuthMode) (cfg : MqttCfg) (w : World)
      → usable_token mode (if is_token_mode mode then p.identity_token w else none) ≡ true
      → Credentials mode cfg w (
          verified_of
            (record cfg { auth_mode = mode })
            (if is_token_mode mode then p.identity_token w else none))
  unfolding verified_of
  verified_of-Credentials AuthMode.access_token cfg w u =
      let (token, e, full) = token_read w u in ((token, e, full, e), refl, refl, refl)
  verified_of-Credentials AuthMode.mtls cfg w u = (refl, refl, refl, refl)
  verified_of-Credentials AuthMode.no_auth cfg w u = (refl, refl, refl, refl)
  verified_of-Credentials AuthMode.runtime cfg w u = (refl, refl, refl, refl)
  verified_of-Credentials (AuthMode.unknown n) cfg w u = (refl, refl, refl, refl)

  pub verified_of-IsHandedOver :
      (cfg : MqttCfg) (w : World)
      → cfg.port ≤ 65535
      → usable_token cfg.auth_mode (token_for cfg w) ≡ true
      → IsHandedOver cfg w (verified_of cfg (token_for cfg w))
  unfolding verified_of address_of
  verified_of-IsHandedOver cfg w bound u = record {
    digits = decimal 9 cfg.port;
    address = refl;
    short = length-decimal 9 4 cfg.port (omega arith) (omega (arith, bound));
    port = value_from-decimal 9 cfg.port (omega (arith, bound));
    client_id = refl;
    ca_path = refl;
    credentials = verified_of-Credentials cfg.auth_mode cfg w u;
  }
