-- ===== src/MqttCfg/Failed.antt =====
-- mqtt_cfg.c: what a mqtt_cfg_connect that fails leaves of the lamp, and every other call that fails.
use hq_led_lamp.Common.{List, ◌≡◌, ◌⊎◌, true, false, Option, none, some}
use hq_led_lamp.Lamp.Hal.{Hal, HalLaws}
use hq_led_lamp.MqttCfg.Types.{CfgError}
use hq_led_lamp.MqttCfg.Platform.{Event, Platform, Endpoint, during, on_event}
use hq_led_lamp.MqttCfg.Connect.{reject_start}
use hq_led_lamp.MqttCfg.Callbacks.{during_keeps}
use hq_led_lamp.MqttCfg.Refused.{Obeys, Live-CallbackRules, BlockedAt, fail_off-BlockedAt}

module _ {hal : Hal} (laws : HalLaws hal) (p : Platform) (obeys : Obeys hal) where
  live_during :
      (call : p.files.World → List Event × p.files.World) (y : Endpoint hal p)
      → y.lamp.initialized ≡ true
      → (during hal p call y).lamp.initialized ≡ true
  live_during call y live = during_keeps hal p (Live-CallbackRules laws p obeys) call y live

  -- A failure of the transport is noted, and the call of mqtt_cfg_fail_off that follows will block the lamp.
  abbrev pub IsNoted : Endpoint hal p → Type 0
  IsNoted y =
      (y.state.connect_failed ≡ true) × BlockedAt laws p obeys (on_event hal p Event.forces y)

  abbrev BlockedOrNoted : Endpoint hal p → Type 0
  BlockedOrNoted y = BlockedAt laws p obeys y ⊎ IsNoted y

  -- The lamp is blocked where a status is an error, or a failure is noted.
  abbrev BlockedOnError : Option (Option CfgError) × Endpoint hal p → Type 0
  BlockedOnError (some (some e), y) = BlockedOrNoted y
  BlockedOnError (some none, y) = Unit
  BlockedOnError (none, y) = Unit

  pub reject_start-BlockedAt :
      (y : Endpoint hal p)
      → y.lamp.initialized ≡ true
      → BlockedAt laws p obeys (reject_start hal p y)
  unfolding reject_start
  reject_start-BlockedAt y live =
      let closed : Endpoint hal p = record y {
        state = record (y.state) { verified_applied = false; waiting_for_connection = false };
      } in
      fail_off-BlockedAt laws p obeys (during hal p p.client_deinit closed)
        (live_during p.client_deinit closed live)
