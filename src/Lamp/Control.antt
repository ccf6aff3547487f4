-- ===== src/Lamp/Control.antt =====
-- lamp_control.c: the module's state and every operation on it. Each operation takes the lamp and
-- the hardware and returns its status, the new lamp and the new hardware. The public operations
-- hold the module's lock from start to end, so one call is one step (Lamp.Lock has the lock).
use hq_led_lamp.Common.{
  ℕ, zero, suc, ◌+◌, ◌-◌, Bool, true, false, not, ◌&&◌, Option, none, some, List, [], ◌∷◌, leb,
  ◌==◌, if◌then◌else◌, get_or, set, take,
}
use hq_led_lamp.Lamp.Types.{
  HalStatus, LampStatus, LampState, LampAppliedState, LampControlConfig, lamp_brightness_min,
  lamp_brightness_max, lamp_control_max_channels,
}
use hq_led_lamp.Lamp.Hal.{Hal, is_ok}

-- `lamp_control_state_t`. `pins` is the array of `lamp_control_max_channels` pins.
pub record Lamp : Type 0 where
  pub initialized : Bool
  pub pins : List ℕ
  pub channel_count : ℕ
  pub applied : LampAppliedState
  pub fail_off_barrier : Bool

abbrev pub zero_applied : LampAppliedState
zero_applied = record {
  power = false;
  brightness_percent = lamp_brightness_min;
  output_active = false;
  red = 0;
  green = 0;
  blue = 0;
}

unfoldable pub map_hal_status : HalStatus → LampStatus
map_hal_status HalStatus.ok = LampStatus.ok
map_hal_status HalStatus.invalid_argument = LampStatus.invalid_argument
map_hal_status HalStatus.invalid_pin = LampStatus.invalid_argument
map_hal_status HalStatus.out_of_range = LampStatus.out_of_range
map_hal_status HalStatus.not_initialized = LampStatus.not_initialized
map_hal_status HalStatus.already_initialized = LampStatus.already_initialized
map_hal_status HalStatus.not_supported = LampStatus.not_supported
map_hal_status HalStatus.no_resource = LampStatus.no_resource
map_hal_status HalStatus.other = LampStatus.internal

abbrev pub state_is_valid : LampState → Bool
state_is_valid s = leb s.brightness_percent lamp_brightness_max

unfoldable pub status_is_ok : LampStatus → Bool
status_is_ok LampStatus.ok = true
status_is_ok _ = false

unfoldable pub reset_released_state : Lamp → Lamp
reset_released_state s = record s { initialized = false; channel_count = 0; applied = zero_applied }

module _ (hal : Hal) where
  open hal use {
    World, pin_none, percent, duty_min_percent, pwm_init, pwm_set_duty, pwm_force_inactive,
    pwm_deinit,
  }

  -- The initializer of `s_lamp`.
  abbrev pub initial_lamp : Lamp
  initial_lamp = record {
    initialized = false;
    pins = pin_none ∷ pin_none ∷ pin_none ∷ [];
    channel_count = 0;
    applied = zero_applied;
    fail_off_barrier = false;
  }

  -- The loop body of `lamp_fail_off`: force, force again, then 0 % duty.
  unfoldable pub fail_off_channel : ℕ → World → HalStatus × World
  fail_off_channel pin w =
      let (hs, w1) = pwm_force_inactive pin w in
      let (hs', w2) = if is_ok hs then (hs, w1) else pwm_force_inactive pin w1 in
      if is_ok hs' then (hs', w2) else pwm_set_duty pin duty_min_percent w2

  unfoldable pub fail_off_channels : List ℕ → Bool → World → Bool × World
  fail_off_channels [] all_off w = (all_off, w)
  fail_off_channels (pin ∷ pins) all_off w =
      let (hs, w') = fail_off_channel pin w in fail_off_channels pins (all_off && is_ok hs) w'

  -- The pins that the module's loops visit.
  abbrev pub tracked : Lamp → List ℕ
  tracked s = take s.channel_count s.pins

  unfoldable pub fail_off : Lamp → World → LampStatus × Lamp × World
  fail_off s w =
      let (all_off, w') = fail_off_channels (tracked s) true w in
      if all_off
      then (LampStatus.ok, record s { applied = record (s.applied) { output_active = false } }, w')
      else (LampStatus.fail_off, s, w')

  -- The release loop compacts `pins` in place: a pin whose release failed moves to place `kept`.
  unfoldable pub release_loop :
      ℕ → ℕ → ℕ → HalStatus → List ℕ → World → HalStatus × ℕ × List ℕ × World
  release_loop zero index kept first_error pins w = (first_error, kept, pins, w)
  release_loop (suc n) index kept first_error pins w =
      let pin = get_or pins index pin_none in
      let (hs, w') = pwm_deinit pin w in
      release_loop n (index + 1) (if is_ok hs then kept else kept + 1)
        (if is_ok hs then first_error else if is_ok first_error then hs else first_error)
        (if is_ok hs then pins else set pins kept pin) w'

  -- `pins[index] = HAL_PIN_NONE` for the places from `kept` on.
  unfoldable pub clear_pins : ℕ → ℕ → List ℕ → List ℕ
  clear_pins zero index pins = pins
  clear_pins (suc n) index pins = clear_pins n (index + 1) (set pins index pin_none)

  unfoldable pub release_channels : Lamp → World → HalStatus × Lamp × World
  unfolding release_loop clear_pins
  release_channels s w =
      let (first_error, kept, pins, w') = release_loop s.channel_count 0 0 HalStatus.ok s.pins w in
      let cleared = clear_pins (lamp_control_max_channels - kept) kept pins in
      (first_error, record s { pins = cleared; channel_count = kept }, w')

  -- The rollback of a failed init: release the channels below `initialized_channels`, last first.
  unfoldable pub rollback : ℕ → List ℕ → World → List ℕ × World
  rollback zero pins w = (pins, w)
  rollback (suc n) pins w =
      rollback n (set pins n pin_none) (pwm_deinit (get_or pins n pin_none) w).1

  abbrev pub config_pin : LampControlConfig → ℕ → ℕ → ℕ
  config_pin config channel_count index =
      if (channel_count == 1) && not (config.pin == pin_none)
      then config.pin
      else get_or config.pins index pin_none

  -- The channel loop of init; `none` means that every channel was initialized.
  unfoldable pub init_channels :
      LampControlConfig → ℕ → ℕ → ℕ → List ℕ → World → Option LampStatus × List ℕ × World
  init_channels config count zero index pins w = (none, pins, w)
  init_channels config count (suc n) index pins w =
      let pin = config_pin config count index in
      let (hs, w') =
        pwm_init
          (record { pin = pin; frequency_hz = config.frequency_hz; polarity = config.polarity })
          w in
      let rest = init_channels config count n (index + 1) (set pins index pin) w' in
      let (pins', w'') = rollback index pins w' in
      if pin == pin_none
      then (some LampStatus.invalid_argument, pins, w)
      else if is_ok hs
      then rest
      else (some (map_hal_status hs), pins', w'')

  -- The hold after init, which stops at the first failure.
  unfoldable pub hold_channels : List ℕ → World → HalStatus × World
  hold_channels [] w = (HalStatus.ok, w)
  hold_channels (pin ∷ pins) w =
      let (hs, w') = pwm_force_inactive pin w in
      let rest = hold_channels pins w' in if is_ok hs then rest else (hs, w')
