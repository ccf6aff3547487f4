-- ===== src/Lamp/Operations.antt =====
-- lamp_control.c: the public operations, each with its `_locked` body. `none` in place of a pointer
-- argument is a null pointer; what is written through an output pointer is returned.
use hq_led_lamp.Common.{
  ℕ, Bool, true, false, not, ◌&&◌, ◌||◌, Option, none, some, List, [], ◌∷◌, ltb, ◌==◌,
  if◌then◌else◌,
}
use hq_led_lamp.Lamp.Types.{
  HalStatus, LampStatus, Polarity, LampState, LampAppliedState, LampControlConfig,
  lamp_brightness_min, lamp_control_max_channels,
}
use hq_led_lamp.Lamp.Hal.{Hal, is_ok}
use hq_led_lamp.Lamp.Duty.{channel_duty}
use hq_led_lamp.Lamp.Control.{
  Lamp, zero_applied, map_hal_status, state_is_valid, status_is_ok, tracked, fail_off,
  release_channels, reset_released_state, init_channels, hold_channels,
}

abbrev pub polarity_is_named : Polarity → Bool
polarity_is_named (Polarity.invalid n) = false
polarity_is_named _ = true

-- `requested->power && brightness > 0 && (one channel || some colour)`.
abbrev pub is_output_active : ℕ → LampState → Bool
is_output_active channel_count r =
    r.power
    && ltb lamp_brightness_min r.brightness_percent
    && ((channel_count == 1) || not (r.red == 0) || not (r.green == 0) || not (r.blue == 0))

-- The fields that a successful channel loop of init sets.
abbrev pub live_lamp : ℕ → Lamp → Lamp
live_lamp count s = record s {
  initialized = true;
  channel_count = count;
  applied = zero_applied;
  fail_off_barrier = false;
}

-- Three channels if the configuration says three, else one.
unfoldable pub init_channel_count : LampControlConfig → ℕ
init_channel_count config =
    if config.channel_count == lamp_control_max_channels then lamp_control_max_channels else 1

module _ (hal : Hal) where
  open hal use {World, pin_none, percent, pwm_set_duty}

  -- The end of init after its channel loop: the fields, the hold, and the rollback if that fails.
  unfoldable pub init_finish : ℕ → Lamp → World → LampStatus × Lamp × World
  init_finish count s w =
      let t = live_lamp count s in
      let (hs, w1) = hold_channels hal (tracked hal t) w in
      let (_, t2, w2) = fail_off hal t w1 in
      let (released, t3, w3) = release_channels hal t2 w2 in
      if is_ok hs
      then (LampStatus.ok, t, w1)
      else (map_hal_status hs, if is_ok released then reset_released_state t3 else t3, w3)

  -- The body of init behind its guards: the channel loop, and what follows it.
  unfoldable pub init_run : ℕ → LampControlConfig → Lamp → World → LampStatus × Lamp × World
  init_run count config s w =
      let (failure, pins, w') = init_channels hal config count count 0 s.pins w in
      elim failure [
        | some status ↦ (status, record s { pins = pins }, w')
        | none ↦ init_finish count (record s { pins = pins }) w'
      ]

  unfoldable pub init_locked : Option LampControlConfig → Lamp → World → LampStatus × Lamp × World
  init_locked none s w = (LampStatus.invalid_argument, s, w)
  init_locked (some config) s w =
      let count = init_channel_count config in
      if s.initialized
      then (LampStatus.already_initialized, s, w)
      else if (count == 1) && (config.pin == pin_none)
      then (LampStatus.invalid_argument, s, w)
      else if config.frequency_hz == 0
      then (LampStatus.invalid_argument, s, w)
      else if polarity_is_named config.polarity
      then init_run count config s w
      else (LampStatus.invalid_argument, s, w)

  -- The channel loop of apply: `none` if every channel took its duty, else the failed status.
  unfoldable pub set_channels : ℕ → LampState → List ℕ → List ℕ → World → Option HalStatus × World
  set_channels count r [] colors w = (none, w)
  set_channels count r (pin ∷ pins) [] w = (none, w)
  set_channels count r (pin ∷ pins) (color ∷ colors) w =
      let (hs, w') = pwm_set_duty pin (percent (channel_duty count r color)) w in
      let rest = set_channels count r pins colors w' in if is_ok hs then rest else (some hs, w')

  -- A failure path: force off, and report `status` if that worked.
  unfoldable pub reject : LampStatus → Lamp → World → LampStatus × Lamp × World
  reject status s w =
      let (forced, s', w') = fail_off hal s w in
      (if status_is_ok forced then status else LampStatus.fail_off, s', w')

  unfoldable pub apply_valid : LampState → Lamp → World → LampStatus × Lamp × World
  apply_valid r s w =
      let (failure, w') =
        set_channels s.channel_count r (tracked hal s) (r.red ∷ r.green ∷ r.blue ∷ []) w in
      elim failure [
        | some hs ↦ reject (map_hal_status hs) s w'
        | none ↦ (
          LampStatus.ok,
          record s {
            applied = record {
              power = r.power;
              brightness_percent = r.brightness_percent;
              output_active = is_output_active s.channel_count r;
              red = r.red;
              green = r.green;
              blue = r.blue;
            };
          },
          w',
        )
      ]

  unfoldable pub apply_state_locked : Option LampState → Lamp → World → LampStatus × Lamp × World
  apply_state_locked none s w =
      if s.initialized
      then reject LampStatus.invalid_argument s w
      else (LampStatus.not_initialized, s, w)
  apply_state_locked (some r) s w =
      if s.initialized
      then (if state_is_valid r then apply_valid r s w else reject LampStatus.out_of_range s w)
      else (LampStatus.not_initialized, s, w)

  unfoldable pub apply_state : Option LampState → Lamp → World → LampStatus × Lamp × World
  apply_state requested s w =
      if not s.initialized
      then (LampStatus.not_initialized, s, w)
      else if s.fail_off_barrier
      then reject LampStatus.blocked_by_fail_off s w
      else apply_state_locked requested s w

  -- What `apply_state` writes through a given `applied_out`.
  unfoldable pub applied_out : LampStatus × Lamp × World → Option LampAppliedState
  applied_out (status, s, w) = if status_is_ok status then some s.applied else none

  unfoldable pub force_inactive : Lamp → World → LampStatus × Lamp × World
  force_inactive s w =
      let (status, s', w') = fail_off hal s w in
      if s.initialized
      then (if status_is_ok status
          then (status, record s' { fail_off_barrier = true }, w')
          else (status, s', w'))
      else (LampStatus.not_initialized, s, w)

  unfoldable pub release_fail_off : Lamp → World → LampStatus × Lamp × World
  release_fail_off s w = (LampStatus.ok, record s { fail_off_barrier = false }, w)

  unfoldable pub deinit : Lamp → World → LampStatus × Lamp × World
  deinit s w =
      let (released, s', w') = release_channels hal s w in
      if s.initialized
      then (if is_ok released
          then (LampStatus.ok, reset_released_state s', w')
          else reject (map_hal_status released) s' w')
      else (LampStatus.not_initialized, s, w)

  unfoldable pub get_applied_state : Bool → Lamp → LampStatus × Option LampAppliedState
  get_applied_state has_out s =
      if s.initialized
      then (if has_out
          then (LampStatus.ok, some s.applied)
          else (LampStatus.invalid_argument, none))
      else (LampStatus.not_initialized, none)
