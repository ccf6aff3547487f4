-- ===== src/MqttCfg/Dark.antt =====
-- mqtt_cfg.c, `mqtt_cfg_fail_off`: what lamp_control_force_inactive makes of the lamp and its outputs.
use hq_led_lamp.Common.{◌≡◌, true, arith, sym, subst}
use hq_led_lamp.Lamp.Types.{LampStatus}
use hq_led_lamp.Lamp.Hal.{Hal, HalLaws}
use hq_led_lamp.Lamp.Control.{Lamp, tracked}
use hq_led_lamp.Lamp.Operations.{force_inactive}
use hq_led_lamp.Lamp.Off.{AllOff}
use hq_led_lamp.Lamp.Quiet.{AllOff-mono}
use hq_led_lamp.Lamp.Electric.{fail_off-tracked}
use hq_led_lamp.Lamp.Barrier.{force_keeps, force_latched, force_inactive_ok}

module _ {hal : Hal} (laws : HalLaws hal) where
  -- The barrier is latched and every tracked channel is off.
  pub record IsBlocked (l : Lamp) (w : hal.World) : Type 0 where
    pub latched : l.fail_off_barrier ≡ true
    pub off : AllOff laws w (tracked hal l)

  force_inactive-tracked :
      (l : Lamp) (w : hal.World) → tracked hal (force_inactive hal l w).1 ≡ tracked hal l
  unfolding force_inactive
  force_inactive-tracked l w = ground (arith, fail_off-tracked laws l w)

  pub force_inactive-IsBlocked :
      (l : Lamp) (w : hal.World)
      → IsBlocked l w
      → let (status, l', w') = force_inactive hal l w in IsBlocked l' w'
  force_inactive-IsBlocked l w b =
      let off =
        AllOff-mono laws (tracked hal l) w (force_inactive hal l w).2 (force_keeps laws l w)
          b.off in
      record {
        latched = force_latched laws l w b.latched;
        off = subst (AllOff laws (force_inactive hal l w).2) (sym (force_inactive-tracked l w)) off;
      }

  pub forced-IsBlocked :
      (l : Lamp) (w : hal.World)
      → (force_inactive hal l w).0 ≡ LampStatus.ok
      → let (status, l', w') = force_inactive hal l w in IsBlocked l' w'
  forced-IsBlocked l w h =
      let (latched, inactive, live, off) = force_inactive_ok laws l w h in
      record {
        latched = latched;
        off = subst (AllOff laws (force_inactive hal l w).2) (sym (force_inactive-tracked l w)) off;
      }
