-- ===== src/Lamp/Start.antt =====
-- lamp_control.c, `lamp_control_init`: the outputs after an initialization, and the two ways in which
-- a failed one leaves a channel initialized.
use hq_led_lamp.Common.{
  ℕ, zero, suc, ◌+◌, ◌≤◌, ◌<◌, ◌≡◌, false, Option, none, some, List, length, take, set, arith,
  subst,
}
use native.Mathlib.Nat.{add-suc, suc-add}
use native.Mathlib.Numerals.{add-one}
use hq_led_lamp.Lamp.Types.{LampControlConfig}
use hq_led_lamp.Lamp.Hal.{Hal, HalLaws, PwmConfig, ok_of_is_ok}
use hq_led_lamp.Lamp.Control.{
  Lamp, tracked, fail_off, reset_released_state, hold_channels, config_pin, init_channels,
}
use hq_led_lamp.Lamp.Operations.{live_lamp, init_channel_count, init_finish, init_run, init_locked}
use hq_led_lamp.Lamp.Off.{AllOff}
use hq_led_lamp.Lamp.Quiet.{AllOff-mono, hold_channels_keeps}
use hq_led_lamp.Lamp.Electric.{
  IsQuiet, fail_off_keeps, fail_off-tracked, release_channels-AllOff, All-take-set,
}
use hq_led_lamp.Lamp.Valid.{IsValid, length-init_channels, live_lamp-IsValid, fail_off-IsValid}

module _ {hal : Hal} (laws : HalLaws hal) where
  open hal use {World, pwm_init, pin_none}
  open laws use {IsOff}

  -- A channel loop that ends well has switched every channel to its inactive level.
  init_channels-AllOff :
      (c : LampControlConfig) (count n index : ℕ) (pins : List ℕ) (w : World)
      → AllOff laws w (take index pins)
      → let (failure, pins', w') = init_channels hal c count n index pins w in
        failure ≡ none → AllOff laws w' (take (index + n) pins')
  unfolding init_channels
  init_channels-AllOff c count zero index pins w off h =
      subst (λ k. AllOff laws w (take k pins)) (omega arith) off
  init_channels-AllOff c count (suc n) index pins w off h =
      let pin = config_pin hal c count index in
      let p : PwmConfig = record {
        pin = pin;
        frequency_hz = c.frequency_hz;
        polarity = c.polarity;
      } in
      let (hs, w') = pwm_init p w in
      ground (
        arith,
        laws.init_off p w,
        ok_of_is_ok hs,
        init_channels-AllOff c count n (suc index) (set pins index pin) w',
        All-take-set (IsOff w') index pins pin
            (AllOff-mono laws (take index pins) w w' (laws.init_keeps p w) off),
        add-suc index n,
        add-one index,
        suc-add index n,
      )

  -- With the hold behind it, init leaves the tracked channels off, whether it succeeds or not.
  init_finish-AllOff :
      (count : ℕ) (s : Lamp) (w : World)
      → length s.pins ≡ 3
      → 0 < count
      → count ≤ 3
      → AllOff laws w (take count s.pins)
      → AllOff laws (init_finish hal count s w).2 (tracked hal (init_finish hal count s w).1)
  unfolding init_finish reset_released_state
  init_finish-AllOff count s w l pos bound off =
      let t = live_lamp count s in
      let w1 = (hold_channels hal (tracked hal t) w).1 in
      let (_, t2, w2) = fail_off hal t w1 in
      let held =
        AllOff-mono laws (tracked hal t) w w1 (hold_channels_keeps laws (tracked hal t) w) off in
      let forced = AllOff-mono laws (tracked hal t) w1 w2 (fail_off_keeps laws t w1) held in
      ground (
        arith,
        held,
        release_channels-AllOff laws t2 w2
            (fail_off-IsValid hal t w1 (live_lamp-IsValid hal count s l pos bound))
            (rw (fail_off-tracked laws t w1) forced),
      )

  init_run-IsQuiet :
      (count : ℕ) (c : LampControlConfig) (s : Lamp) (w : World)
      → IsValid s
      → s.initialized ≡ false
      → 0 < count
      → count ≤ 3
      → IsQuiet laws (init_run hal count c s w).1 (init_run hal count c s w).2
  unfolding init_run
  init_run-IsQuiet count c s w v idle pos bound =
      let (failure, pins, w') = init_channels hal c count count 0 s.pins w in
      ground (
        arith,
        length-init_channels hal c count count 0 s.pins w,
        init_channels-AllOff c count count 0 s.pins w tt,
        init_finish-AllOff count (record s { pins = pins }) w',
      )

  -- After any call of init a lamp that is not recorded as active has every tracked channel off.
  pub init_locked-IsQuiet :
      (c : Option LampControlConfig) (s : Lamp) (w : World)
      → IsValid s
      → IsQuiet laws s w
      → IsQuiet laws (init_locked hal c s w).1 (init_locked hal c s w).2
  unfolding init_locked init_channel_count
  init_locked-IsQuiet none s w v quiet = quiet
  init_locked-IsQuiet (some c) s w v quiet =
      ground (arith, quiet, init_run-IsQuiet (init_channel_count c) c s w v)
