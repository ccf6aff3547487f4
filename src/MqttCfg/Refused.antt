-- ===== src/MqttCfg/Refused.antt =====
-- mqtt_cfg.c: what every call that returns an error leaves of the lamp.
use hq_led_lamp.Common.{
  ℕ, ◌≡◌, refl, ap, Bool, true, false, Option, none, some, inl, inr, List, [], ◌∷◌, arith,
}
use hq_led_lamp.Json.{Doubles, CJson}
use hq_led_lamp.Lamp.Types.{HalStatus, LampStatus}
use hq_led_lamp.Lamp.Hal.{Hal, HalLaws, is_ok}
use hq_led_lamp.Lamp.Control.{Lamp, tracked, fail_off_channel, fail_off_channels, fail_off}
use hq_led_lamp.Lamp.Operations.{force_inactive}
use hq_led_lamp.MqttCfg.Types.{CfgError, CfgResult-cases, MqttCfg}
use hq_led_lamp.MqttCfg.Platform.{Verified, Platform, State, Endpoint, close_gate, fail_off_lamp}
use hq_led_lamp.MqttCfg.Load.{refuse, load, validate}
use hq_led_lamp.MqttCfg.Apply.{
  begin_apply, hand_over, apply_checked, apply_values, apply, load_and_apply,
}
use hq_led_lamp.MqttCfg.Dark.{IsBlocked, forced-IsBlocked}
use hq_led_lamp.MqttCfg.Callbacks.{CallbackRules}
use hq_led_lamp.MqttCfg.Preserved.{WriteRules, load_keeps, begin_apply_keeps}
use hq_led_lamp.MqttCfg.Trace.{error_of}

-- A hardware that never refuses to force an output inactive.
abbrev pub Obeys : Hal → Type 0
Obeys hal = (pin : ℕ) (w : hal.World) → (hal.pwm_force_inactive pin w).0 ≡ HalStatus.ok

module _ {hal : Hal} (laws : HalLaws hal) (p : Platform) (obeys : Obeys hal) where
  fail_off_channel_obeys : (pin : ℕ) (w : hal.World) → is_ok (fail_off_channel hal pin w).0 ≡ true
  unfolding fail_off_channel is_ok
  fail_off_channel_obeys pin w = ground (arith, obeys pin w)

  fail_off_channels_obeys :
      (pins : List ℕ) (w : hal.World) → (fail_off_channels hal pins true w).0 ≡ true
  unfolding fail_off_channels
  fail_off_channels_obeys [] w = refl
  fail_off_channels_obeys (pin ∷ pins) w = ground (
    arith,
    fail_off_channel_obeys pin w,
    fail_off_channels_obeys pins (fail_off_channel hal pin w).1,
  )

  pub force_obeys :
      (l : Lamp) (w : hal.World) → l.initialized ≡ true → (force_inactive hal l w).0 ≡ LampStatus.ok
  unfolding force_inactive fail_off
  force_obeys l w live = ground (arith, live, fail_off_channels_obeys (tracked hal l) w)

  pub force-initialized :
      (l : Lamp) (w : hal.World)
      → l.initialized ≡ true
      → (force_inactive hal l w).1.initialized ≡ true
  unfolding force_inactive fail_off
  force-initialized l w live = ground (arith, live)

  abbrev pub Live : State → Lamp → hal.World → Type 0
  Live t l w = l.initialized ≡ true

  pub Live-CallbackRules : CallbackRules hal p Live
  Live-CallbackRules = record {
    forced = λ t l w live. force-initialized l w live;
    accessed = λ a t l w live. live;
    lost = λ t l w live. live;
  }

  pub Live-WriteRules : WriteRules hal Live
  Live-WriteRules = record {
    closes = λ t l w live. live;
    latches = λ t l w begun live. live;
    begins = λ t l w live. live;
    waits = λ t l w live. live;
    ends_wait = λ t l w live. live;
  }

  abbrev pub BlockedAt : Endpoint hal p → Type 0
  BlockedAt y = IsBlocked laws y.lamp y.hardware

  pub fail_off-BlockedAt :
      (y : Endpoint hal p) → y.lamp.initialized ≡ true → BlockedAt (fail_off_lamp hal p y)
  unfolding fail_off_lamp
  fail_off-BlockedAt y live =
      forced-IsBlocked laws y.lamp y.hardware (force_obeys y.lamp y.hardware live)

  refuse-BlockedAt :
      {d : Doubles} (j : CJson d) (e : CfgError) (y : Endpoint hal p)
      → y.lamp.initialized ≡ true
      → BlockedAt (refuse j hal p e y).1
  unfolding refuse
  refuse-BlockedAt j e y live = fail_off-BlockedAt (close_gate hal p y) live

  pub load_refused :
      {d : Doubles} (j : CJson d) (has_out : Bool) (y : Endpoint hal p) (e : CfgError)
      → y.lamp.initialized ≡ true
      → error_of (load j hal p has_out y).0 ≡ some e
      → BlockedAt (load j hal p has_out y).1
  unfolding load
  load_refused j false y e live h = refuse-BlockedAt j CfgError.invalid_argument y live
  load_refused j true y e live h = grind (arith, refuse-BlockedAt)

  pub validate_refused :
      (cfg : Option MqttCfg) (y : Endpoint hal p) (e : CfgError)
      → y.lamp.initialized ≡ true
      → (validate hal p cfg y).0 ≡ some e
      → BlockedAt (validate hal p cfg y).1
  unfolding validate
  validate_refused cfg y e live h = ground (arith, h, fail_off-BlockedAt (close_gate hal p y) live)

  hand_over_refused :
      (v : Verified) (y : Endpoint hal p) (e : CfgError)
      → y.lamp.initialized ≡ true
      → (hand_over hal p v y).0 ≡ some e
      → BlockedAt (hand_over hal p v y).1
  unfolding hand_over
  hand_over_refused v y e live h =
      let z : Endpoint hal p = record y { world = (p.apply_verified v y.world).1 } in
      ground (arith, h, fail_off-BlockedAt z live)

  apply_values_refused :
      (cfg : Option MqttCfg) (y : Endpoint hal p) (e : CfgError)
      → y.lamp.initialized ≡ true
      → (apply_values hal p cfg y).0 ≡ some e
      → BlockedAt (apply_values hal p cfg y).1
  unfolding apply_values apply_checked
  apply_values_refused none y e live h = fail_off-BlockedAt y live
  apply_values_refused (some cfg) y e live h = grind (arith, fail_off-BlockedAt, hand_over_refused)

  pub apply_refused :
      (cfg : Option MqttCfg) (y : Endpoint hal p) (e : CfgError)
      → y.lamp.initialized ≡ true
      → (apply hal p cfg y).0 ≡ some e
      → BlockedAt (apply hal p cfg y).1
  unfolding apply
  apply_refused cfg y e live h =
      apply_values_refused cfg (begin_apply hal p y) e
        (begin_apply_keeps Live-CallbackRules Live-WriteRules y live) h

  pub load_and_apply_refused :
      {d : Doubles} (j : CJson d) (y : Endpoint hal p) (e : CfgError)
      → y.lamp.initialized ≡ true
      → (load_and_apply hal p j y).0 ≡ some e
      → BlockedAt (load_and_apply hal p j y).1
  unfolding load_and_apply
  load_and_apply_refused j y e live h =
      let y' = (load j hal p true y).1 in
      let live' = load_keeps Live-CallbackRules Live-WriteRules j true y live in
      elim (CfgResult-cases (load j hal p true y).0) [
        | inl (e', c) ↦ ground (arith, c, load_refused j true y e' live (ap error_of c))
        | inr (cfg, c) ↦ ground (arith, c, h, apply_refused (some cfg) y' e live')
      ]
