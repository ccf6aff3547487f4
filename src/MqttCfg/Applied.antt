-- ===== src/MqttCfg/Applied.antt =====
-- mqtt_cfg.c: what mqtt_cfg_apply has done when it returns, and the calls after it.
use hq_led_lamp.Common.{
  ℕ, ◌≤◌, ◌≡◌, refl, ap, sym, ◌∙◌, subst, Bool-cases, true, Option, Option-cases, none, some, inl,
  inr, leb, arith, length, if◌then◌else◌,
}
use hq_led_lamp.Json.{Text}
use hq_led_lamp.Lamp.Hal.{Hal}
use hq_led_lamp.MqttCfg.Types.{CfgError, CfgResult, MqttCfg}
use hq_led_lamp.MqttCfg.Validation.{validate_fields}
use hq_led_lamp.MqttCfg.Platform.{VerifiedStatus, Verified, Platform, Endpoint}
use hq_led_lamp.MqttCfg.Apply.{
  address_of, address_size, usable_token, verified_of, apply_error, begin_apply, hand_over,
  apply_checked, apply_values, apply, get_server_url,
}
use hq_led_lamp.MqttCfg.Policy.{IsPolicy, validate_fields-IsPolicy}
use hq_led_lamp.MqttCfg.Address.{length-address_of}
use hq_led_lamp.MqttCfg.Handed.{token_for, IsHandedOver}

module _ (hal : Hal) (p : Platform) where
  open p.files use {World}

  -- What has happened when an apply succeeds.
  record Applies (cfg : Option MqttCfg) (y : Endpoint hal p) : Type 0 where
    applied : MqttCfg
    given : cfg ≡ some applied
    policy : IsPolicy applied
    latched : y.state.verified_applied ≡ true
    token : Option Text
    usable : usable_token applied.auth_mode token ≡ true
    before : World
    accepted : p.apply_verified (verified_of applied token) before ≡ (VerifiedStatus.ok, y.world)
    read : token_for p applied before ≡ token

  apply_error_none :
      (status : VerifiedStatus) → apply_error status ≡ none → status ≡ VerifiedStatus.ok
  apply_error_none VerifiedStatus.ok h = refl
  apply_error_none VerifiedStatus.ca_error h = absurd cc
  apply_error_none VerifiedStatus.client_cert_error h = absurd cc
  apply_error_none VerifiedStatus.other h = absurd cc

  hand_over_ok :
      (v : Verified) (y : Endpoint hal p)
      → (hand_over hal p v y).0 ≡ none
      → ((hand_over hal p v y).1.state.verified_applied ≡ true)
        × (p.apply_verified v y.world ≡ (VerifiedStatus.ok, (hand_over hal p v y).1.world))
  unfolding hand_over
  hand_over_ok v y h = elim (Option-cases (apply_error (p.apply_verified v y.world).0)) [
    | inl e ↦
        let status = apply_error_none (p.apply_verified v y.world).0 e in
        (
          ground (arith, h, e),
          ap (λ s. (s, (p.apply_verified v y.world).1)) status ∙ ground (arith, h, e),
        )
    | inr (x, e) ↦ absurd (ground (arith, h, e))
  ]

  apply_checked_ok :
      (cfg : MqttCfg) (y : Endpoint hal p)
      → validate_fields (some cfg) ≡ none
      → (apply_checked hal p cfg y).0 ≡ none
      → Applies (some cfg) (apply_checked hal p cfg y).1
  unfolding apply_checked
  apply_checked_ok cfg y valid h =
      let token = token_for p cfg y.world in
      elim (Bool-cases (usable_token cfg.auth_mode token)) [
        | inr u ↦ absurd (ground (arith, h, u))
        | inl u ↦ elim (Bool-cases (leb address_size (length (address_of cfg.hostname cfg.port)))) [
          | inl long ↦ absurd (ground (arith, h, u, long))
          | inr fits ↦
              let same : apply_checked hal p cfg y ≡ hand_over hal p (verified_of cfg token) y =
                ground (arith, u, fits) in
              let (latch, accepted) =
                hand_over_ok (verified_of cfg token) y (ap (λ r. r.0) (sym same) ∙ h) in
              subst (λ r. Applies (some cfg) r.1) (sym same)
                (record {
                  applied = cfg;
                  given = refl;
                  policy = validate_fields-IsPolicy cfg valid;
                  latched = latch;
                  token = token;
                  usable = u;
                  before = y.world;
                  accepted = accepted;
                  read = refl;
                })
        ]
      ]

  apply_values_ok :
      (cfg : Option MqttCfg) (y : Endpoint hal p)
      → (apply_values hal p cfg y).0 ≡ none
      → Applies cfg (apply_values hal p cfg y).1
  unfolding apply_values
  apply_values_ok none y h = absurd cc
  apply_values_ok (some cfg) y h = elim (Option-cases (validate_fields (some cfg))) [
    | inl e ↦ rw (e, apply_values) (apply_checked_ok cfg y e (ground (arith, h, e)))
    | inr (x, e) ↦ absurd (ground (arith, h, e))
  ]

  apply-Applies :
      (cfg : Option MqttCfg) (y : Endpoint hal p)
      → (apply hal p cfg y).0 ≡ none
      → Applies cfg (apply hal p cfg y).1
  unfolding apply
  apply-Applies cfg y h = apply_values_ok cfg (begin_apply hal p y) h

  -- The configuration was given and meets the policy, its values were accepted by the platform, the last
  -- thing that was asked of it, and the latch is set.
  pub record IsApplied (cfg : Option MqttCfg) (y : Endpoint hal p) : Type 0 where
    pub applied : MqttCfg
    pub given : cfg ≡ some applied
    pub policy : IsPolicy applied
    pub latched : y.state.verified_applied ≡ true
    pub before : World
    pub values : Verified
    pub handed : IsHandedOver p applied before values
    pub accepted : p.apply_verified values before ≡ (VerifiedStatus.ok, y.world)

  -- Of a configuration that meets the policy, with a port of 16 bits and a usable token, the values always
  -- reach the platform: the address is never too long for its array.
  pub apply-hand_over :
      (cfg : MqttCfg) (y : Endpoint hal p)
      → validate_fields (some cfg) ≡ none
      → cfg.port ≤ 65535
      → usable_token cfg.auth_mode (token_for p cfg (begin_apply hal p y).world) ≡ true
      → apply hal p (some cfg) y
        ≡ hand_over hal p
            (verified_of cfg (token_for p cfg (begin_apply hal p y).world))
            (begin_apply hal p y)
  unfolding apply apply_values apply_checked
  apply-hand_over cfg y valid bound usable =
      let policy = validate_fields-IsPolicy cfg valid in
      let fits = length-address_of cfg.hostname cfg.port policy.host_short bound in
      ground (arith, valid, usable, fits)

  -- After a successful mqtt_cfg_apply, mqtt_cfg_get_server_url gives the address mqtts://<hostname>:<port>
  -- of the configuration to every buffer with room for it, and MQTT_CFG_ERR_BOUNDS to a smaller one that is
  -- not empty, if the platform gives back the address that it has accepted last.
  pub apply-get_server_url :
      (cfg : MqttCfg) (y : Endpoint hal p) (size : ℕ)
      → ((v : Verified) (before after : World)
          → p.apply_verified v before ≡ (VerifiedStatus.ok, after)
          → p.verified_server_url after ≡ some v.address)
      → (apply hal p (some cfg) y).0 ≡ none
      → let url = address_of cfg.hostname cfg.port in
        get_server_url hal p (some size) (apply hal p (some cfg) y).1
        ≡ (if leb size (length url) then CfgResult.err CfgError.bounds else CfgResult.ok url)
  unfolding get_server_url verified_of
  apply-get_server_url cfg y size gives h =
      let done = apply-Applies (some cfg) y h in
      let same : cfg ≡ done.applied = cc in
      let url =
        gives (verified_of done.applied done.token) done.before (apply hal p (some cfg) y).1.world
          done.accepted in
      let url' : p.verified_server_url (apply hal p (some cfg) y).1.world
          ≡ some (address_of cfg.hostname cfg.port) =
        url ∙ ap (λ c. some (address_of c.hostname c.port)) (sym same) in
      ground (arith, done.latched, url')
