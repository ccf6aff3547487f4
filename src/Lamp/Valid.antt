-- ===== src/Lamp/Valid.antt =====
-- lamp_control.c: what holds of the lamp's bookkeeping between two operations.
use hq_led_lamp.Common.{
  ℕ, zero, suc, ◌+◌, ◌≤◌, ◌<◌, ◌≡◌, refl, true, false, Option, none, some, List, length, length-set,
  set, get_or, arith, if◌then◌else◌,
}
use hq_led_lamp.Lamp.Types.{LampStatus, LampState, LampControlConfig}
use hq_led_lamp.Lamp.Hal.{Hal, is_ok}
use hq_led_lamp.Lamp.Control.{
  Lamp, initial_lamp, tracked, status_is_ok, fail_off, reset_released_state, release_channels,
  hold_channels, rollback, init_channels, config_pin,
}
use hq_led_lamp.Lamp.Operations.{
  live_lamp, init_channel_count, init_finish, init_run, init_locked, apply_state_locked, reject,
  apply_valid, apply_state, force_inactive, release_fail_off, deinit,
}
use hq_led_lamp.Lamp.Release.{release_channels_bounds}

pub record IsValid (s : Lamp) : Type 0 where
  pub three_pins : length s.pins ≡ 3
  pub count_bound : s.channel_count ≤ 3
  pub idle_untracked : s.initialized ≡ false → s.channel_count ≡ 0
  pub live_tracked : s.initialized ≡ true → 0 < s.channel_count
  pub idle_inactive : s.initialized ≡ false → s.applied.output_active ≡ false
  pub active_powered : s.applied.output_active ≡ true → s.applied.power ≡ true
  pub active_bright : s.applied.output_active ≡ true → 0 < s.applied.brightness_percent
  pub brightness_bound : s.applied.brightness_percent ≤ 100
  pub barrier_inactive : s.fail_off_barrier ≡ true → s.applied.output_active ≡ false

module _ (hal : Hal) where
  open hal use {World, pwm_init}

  pub initial_lamp-IsValid : IsValid (initial_lamp hal)
  initial_lamp-IsValid = ground arith

  pub fail_off-IsValid : (s : Lamp) (w : World) → IsValid s → IsValid (fail_off hal s w).1
  unfolding fail_off
  fail_off-IsValid s w v = ground arith

  fail_off-initialized : (s : Lamp) (w : World) → (fail_off hal s w).1.initialized ≡ s.initialized
  unfolding fail_off
  fail_off-initialized s w = ground arith

  pub reject-IsValid :
      (status : LampStatus) (s : Lamp) (w : World) → IsValid s → IsValid (reject hal status s w).1
  unfolding reject
  reject-IsValid status s w v = fail_off-IsValid s w v

  -- A released lamp, or one whose release failed and is tried again later.
  released-IsValid :
      (s : Lamp) (w : World)
      → IsValid s
      → s.initialized ≡ true
      → let (e, t, w') = release_channels hal s w in
        IsValid (if is_ok e then reset_released_state t else t)
  unfolding release_channels reset_released_state
  released-IsValid s w v live =
      ground (arith, release_channels_bounds hal s w v.three_pins v.count_bound)

  length-rollback :
      (n : ℕ) (pins : List ℕ) (w : World) → length (rollback hal n pins w).0 ≡ length pins
  unfolding rollback
  length-rollback zero pins w = refl
  length-rollback (suc n) pins w = omega (
    arith,
    length-rollback n (set pins n hal.pin_none) (hal.pwm_deinit (get_or pins n hal.pin_none) w).1,
    length-set pins n hal.pin_none,
  )

  pub length-init_channels :
      (c : LampControlConfig) (count n index : ℕ) (pins : List ℕ) (w : World)
      → length (init_channels hal c count n index pins w).1 ≡ length pins
  unfolding init_channels
  length-init_channels c count zero index pins w = refl
  length-init_channels c count (suc n) index pins w =
      let pin = config_pin hal c count index in
      let w' =
        (pwm_init (record { pin = pin; frequency_hz = c.frequency_hz; polarity = c.polarity })
          w).1 in
      ground (
        arith,
        length-rollback index pins w',
        length-init_channels c count n (index + 1) (set pins index pin) w',
        length-set pins index pin,
      )

  pub live_lamp-IsValid :
      (count : ℕ) (s : Lamp)
      → length s.pins ≡ 3
      → 0 < count
      → count ≤ 3
      → IsValid (live_lamp count s)
  live_lamp-IsValid count s l pos bound = ground arith

  pub init_finish-IsValid :
      (count : ℕ) (s : Lamp) (w : World)
      → length s.pins ≡ 3
      → 0 < count
      → count ≤ 3
      → IsValid (init_finish hal count s w).1
  unfolding init_finish
  init_finish-IsValid count s w l pos bound =
      let t = live_lamp count s in
      let valid = live_lamp-IsValid count s l pos bound in
      let w1 = (hold_channels hal (tracked hal t) w).1 in
      let (_, t2, w2) = fail_off hal t w1 in
      ground
        (arith, released-IsValid t2 w2 (fail_off-IsValid t w1 valid), fail_off-initialized t w1)

  init_run-IsValid :
      (count : ℕ) (c : LampControlConfig) (s : Lamp) (w : World)
      → IsValid s
      → 0 < count
      → count ≤ 3
      → IsValid (init_run hal count c s w).1
  unfolding init_run
  init_run-IsValid count c s w v pos bound =
      let (failure, pins, w') = init_channels hal c count count 0 s.pins w in
      ground (
        arith,
        length-init_channels c count count 0 s.pins w,
        init_finish-IsValid count (record s { pins = pins }) w',
      )

  -- Every call of init keeps the bookkeeping valid: refused, failed, rolled back or successful.
  pub init_locked-IsValid :
      (c : Option LampControlConfig) (s : Lamp) (w : World)
      → IsValid s
      → IsValid (init_locked hal c s w).1
  unfolding init_locked init_channel_count
  init_locked-IsValid none s w v = v
  init_locked-IsValid (some c) s w v =
      ground (arith, init_run-IsValid (init_channel_count c) c s w v)

  pub apply_valid-IsValid :
      (r : LampState) (s : Lamp) (w : World)
      → IsValid s
      → r.brightness_percent ≤ 100
      → s.fail_off_barrier ≡ false
      → s.initialized ≡ true
      → IsValid (apply_valid hal r s w).1
  unfolding apply_valid reject
  apply_valid-IsValid r s w v bound open_barrier live = grind (arith, fail_off-IsValid)

  -- Applying a state, a rejected one included, keeps the bookkeeping valid.
  pub apply_state-IsValid :
      (r : Option LampState) (s : Lamp) (w : World) → IsValid s → IsValid (apply_state hal r s w).1
  unfolding apply_state apply_state_locked
  apply_state-IsValid none s w v = grind (arith, reject-IsValid)
  apply_state-IsValid (some r) s w v = grind (arith, reject-IsValid, apply_valid-IsValid)

  pub force_inactive-IsValid :
      (s : Lamp) (w : World) → IsValid s → IsValid (force_inactive hal s w).1
  unfolding force_inactive fail_off status_is_ok
  force_inactive-IsValid s w v = ground arith

  pub release_fail_off-IsValid :
      (s : Lamp) (w : World) → IsValid s → IsValid (release_fail_off hal s w).1
  unfolding release_fail_off
  release_fail_off-IsValid s w v = ground arith

  pub deinit-IsValid : (s : Lamp) (w : World) → IsValid s → IsValid (deinit hal s w).1
  unfolding deinit
  deinit-IsValid s w v = grind (arith, released-IsValid, reject-IsValid)
