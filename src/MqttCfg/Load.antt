-- ===== src/MqttCfg/Load.antt =====
-- mqtt_cfg.c: the reading of mqtt.json, mqtt_cfg_load and mqtt_cfg_validate.
use hq_led_lamp.Common.{
  ℕ, Bool, true, false, not, ◌||◌, Option, none, some, leb, ◌==◌, if◌then◌else◌, length,
}
use hq_led_lamp.Json.{Text, Doubles, CJson}
use hq_led_lamp.Lamp.Hal.{Hal}
use hq_led_lamp.AppConfig.Storage.{Storage, StatResult}
use hq_led_lamp.AppConfig.Stored.{c_string}
use hq_led_lamp.MqttCfg.Types.{
  CfgError, CfgResult, and_then, MqttCfg, cfg_max_file_bytes, file_path,
}
use hq_led_lamp.MqttCfg.Document.{has_nul_escape, parse_root}
use hq_led_lamp.MqttCfg.Validation.{validate_fields}
use hq_led_lamp.MqttCfg.Platform.{Platform, Endpoint, close_gate, fail_off_lamp}

-- What a read of `size` bytes must give.
abbrev pub whole_read : ℕ → Option Text → Option Text
whole_read size none = none
whole_read size (some got) = if length got == size then some got else none

module _ (st : Storage) where
  open st use {World, Fd, stat, open_file, alloc, read, close}

  -- `mqtt_cfg_read_file` from osal_open_create on, for a file of `size` bytes.
  unfoldable pub read_sized : Text → ℕ → World → Option Text × World
  read_sized path size w =
      let (fd, w1) = open_file path w in
      elim fd [
        | none ↦ (none, w1)
        | some f ↦
            let (has_memory, w2) = alloc w1 in
            if has_memory
            then (let (got, w3) = read f size w2 in
                let (closed, w4) = close f w3 in (whole_read size got, w4))
            else (let (closed, w3) = close f w2 in (none, w3))
      ]

  -- `mqtt_cfg_read_file`.
  unfoldable pub read_file : Text → ℕ → World → Option Text × World
  read_file path max_len w =
      let (found, w1) = stat path w in
      elim found [
        | StatResult.size n ↦ if (n == 0) || leb max_len n then (none, w1) else read_sized path n w1
        | failed ↦ (none, w1)
      ]

  -- Why nothing was read: a second osal_stat.
  unfoldable pub read_error : World → CfgError × World
  read_error w =
      let (found, w1) = stat file_path w in
      elim found [ StatResult.size n ↦ (CfgError.bounds, w1) | failed ↦ (CfgError.not_found, w1) ]

-- The parsed document against the policy.
unfoldable pub checked_cfg : MqttCfg → CfgResult MqttCfg
checked_cfg parsed = elim (validate_fields (some parsed)) [
  | none ↦ CfgResult.ok parsed
  | some e ↦ CfgResult.err e
]

module _ {d : Doubles} (j : CJson d) where
  open j use {parse_strict, is_object}

  -- `mqtt_cfg_load` from the parser on.
  unfoldable pub read_document : Text → CfgResult MqttCfg
  read_document json = elim (parse_strict json) [
    | none ↦ CfgResult.err CfgError.malformed
    | some root ↦
        if not (is_object root)
        then CfgResult.err CfgError.malformed
        else if has_nul_escape (c_string json) false
        then CfgResult.err CfgError.malformed
        else and_then (parse_root j root) checked_cfg
  ]

  module _ (hal : Hal) (p : Platform) where
    -- What follows a failure.
    unfoldable pub refuse : CfgError → Endpoint hal p → CfgResult MqttCfg × Endpoint hal p
    refuse e y = (CfgResult.err e, fail_off_lamp hal p (close_gate hal p y))

    -- `mqtt_cfg_load`, with whether `out` is not null.
    unfoldable pub load : Bool → Endpoint hal p → CfgResult MqttCfg × Endpoint hal p
    load false y = refuse CfgError.invalid_argument y
    load true y =
        let (json, w1) = read_file p.files file_path cfg_max_file_bytes y.world in
        elim json [
          | none ↦ let (e, w2) = read_error p.files w1 in refuse e (record y { world = w2 })
          | some text ↦ elim (read_document text) [
            | CfgResult.err e ↦ refuse e (record y { world = w1 })
            | CfgResult.ok cfg ↦ (CfgResult.ok cfg, record y { world = w1 })
          ]
        ]

-- `mqtt_cfg_validate`.
unfoldable pub validate :
    (hal : Hal) (p : Platform) → Option MqttCfg → Endpoint hal p → Option CfgError × Endpoint hal p
validate hal p cfg y = elim (validate_fields cfg) [
  | none ↦ (none, y)
  | some e ↦ (some e, fail_off_lamp hal p (close_gate hal p y))
]
