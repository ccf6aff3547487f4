-- ===== src/Lamp/Outcome.antt =====
-- lamp_control.c: what each outcome of a call says about the state, and what a refused init leaves.
use hq_led_lamp.Common.{
  ℕ, ◌≤◌, ◌≡◌, refl, ◌≢◌, ◌⊎◌, true, false, Option, none, some, Option-cases, inl, inr, List, [],
  ◌∷◌, get_or, arith,
}
use hq_led_lamp.Lamp.Types.{HalStatus, LampStatus, LampState, LampAppliedState, LampControlConfig}
use hq_led_lamp.Lamp.Hal.{Hal, HalLaws, PwmConfig, is_ok}
use hq_led_lamp.Lamp.Duty.{channel_duty}
use hq_led_lamp.Lamp.Control.{Lamp, tracked, map_hal_status, fail_off, status_is_ok, init_channels}
use hq_led_lamp.Lamp.Operations.{
  is_output_active, polarity_is_named, init_channel_count, init_run, init_locked, set_channels,
  reject, apply_valid, apply_state_locked, apply_state, release_fail_off, get_applied_state, deinit,
}
use hq_led_lamp.Lamp.Off.{AllOff}
use hq_led_lamp.Lamp.Electric.{map_hal_status-ne-fail_off, reject-AllOff}

-- What apply_state records of a request on a lamp with `count` channels.
abbrev pub applied_of : ℕ → LampState → LampAppliedState
applied_of count r = record {
  power = r.power;
  brightness_percent = r.brightness_percent;
  output_active = is_output_active count r;
  red = r.red;
  green = r.green;
  blue = r.blue;
}

-- The lamp with its output recorded as off.
abbrev pub darkened : Lamp → Lamp
darkened s = record s { applied = record (s.applied) { output_active = false } }

map_hal_status-eq-ok : (hs : HalStatus) → map_hal_status hs ≡ LampStatus.ok → is_ok hs ≡ true
unfolding map_hal_status is_ok
map_hal_status-eq-ok hs h = ground arith

module _ (hal : Hal) where
  open hal use {World, pwm_init, pin_none}

  -- A rejection under a status other than LAMP_OK never reports LAMP_OK: it darkens the record, or
  -- it reports LAMP_ERR_FAIL_OFF and leaves the record alone.
  reject_outcome :
      (status : LampStatus) (s : Lamp) (w : World)
      → let (st, s', w') = reject hal status s w in
        ((st ≡ status) × (s' ≡ darkened s)) ⊎ ((st ≡ LampStatus.fail_off) × (s' ≡ s))
  unfolding reject fail_off status_is_ok
  reject_outcome status s w = ground arith

  reject_unrecorded :
      (status : LampStatus) (s : Lamp) (w : World)
      → status ≢ LampStatus.fail_off
      → (reject hal status s w).0 ≡ LampStatus.fail_off
      → (reject hal status s w).1 ≡ s
  reject_unrecorded status s w h e = ground (arith, reject_outcome status s w)

  set_channels_failed :
      (count : ℕ) (r : LampState) (pins colors : List ℕ) (w : World) (hs : HalStatus)
      → (set_channels hal count r pins colors w).0 ≡ some hs
      → map_hal_status hs ≢ LampStatus.ok
  unfolding set_channels
  set_channels_failed count r [] colors w hs h = cc
  set_channels_failed count r (p ∷ pins) [] w hs h = cc
  set_channels_failed count r (p ∷ pins) (c ∷ colors) w hs h =
      let (st, w') = hal.pwm_set_duty p (hal.percent (channel_duty count r c)) w in
      ground (arith, map_hal_status-eq-ok hs, set_channels_failed count r pins colors w' hs)

  -- A request that was accepted, and is recorded exactly; the lamp was ready for it.
  abbrev pub Accepted : LampState → Lamp → LampStatus × Lamp × World → Type 0
  Accepted r s (status, s', w') =
      (status ≡ LampStatus.ok)
      × (s.initialized ≡ true)
      × (s.fail_off_barrier ≡ false)
      × (r.brightness_percent ≤ 100)
      × (s' ≡ record s { applied = applied_of s.channel_count r })

  -- A request that was refused or failed: nothing changes but the active flag, to false.
  abbrev pub Refused : Lamp → LampStatus × Lamp × World → Type 0
  Refused s (status, s', w') = (status ≢ LampStatus.ok) × ((s' ≡ darkened s) ⊎ (s' ≡ s))

  reject-Refused :
      (status : LampStatus) (s : Lamp) (w : World)
      → status ≢ LampStatus.ok
      → Refused s (reject hal status s w)
  reject-Refused status s w h = ground (arith, reject_outcome status s w)

  apply_valid_outcome :
      (r : LampState) (s : Lamp) (w : World)
      → r.brightness_percent ≤ 100
      → s.initialized ≡ true
      → s.fail_off_barrier ≡ false
      → Accepted r s (apply_valid hal r s w) ⊎ Refused s (apply_valid hal r s w)
  unfolding apply_valid
  apply_valid_outcome r s w h live free =
      let (failure, w') =
        set_channels hal s.channel_count r (tracked hal s) (r.red ∷ r.green ∷ r.blue ∷ []) w in
      grind (
        arith,
        set_channels_failed s.channel_count r (tracked hal s) (r.red ∷ r.green ∷ r.blue ∷ []) w,
        reject-Refused,
      )

  -- A null request is refused, on every branch.
  pub apply_state_null : (s : Lamp) (w : World) → Refused s (apply_state hal none s w)
  unfolding apply_state apply_state_locked
  apply_state_null s w = grind (arith, reject-Refused)

  -- apply_state accepts only a request in range, on an initialized lamp without a barrier, and then
  -- records exactly that request; refused or failed, it changes at most the active flag, to false.
  pub apply_state_outcome :
      (r : LampState) (s : Lamp) (w : World)
      → Accepted r s (apply_state hal (some r) s w) ⊎ Refused s (apply_state hal (some r) s w)
  unfolding apply_state apply_state_locked
  apply_state_outcome r s w = grind (arith, reject-Refused, apply_valid_outcome)

  -- Where a call reports LAMP_ERR_FAIL_OFF the record stays as it was before the call, whatever the
  -- channel loop had already done to the hardware.
  pub fail_off_unrecorded :
      (r : Option LampState) (s : Lamp) (w : World)
      → (apply_state hal r s w).0 ≡ LampStatus.fail_off
      → (apply_state hal r s w).1 ≡ s
  unfolding apply_state apply_state_locked apply_valid
  fail_off_unrecorded none s w h = grind (arith, reject_unrecorded)
  fail_off_unrecorded (some r) s w h = grind (arith, reject_unrecorded, map_hal_status-ne-fail_off)

  -- The hardware configuration of channel 0 of an RGB lamp.
  abbrev pub first_channel : LampControlConfig → PwmConfig
  first_channel c = record {
    pin = get_or c.pins 0 pin_none;
    frequency_hz = c.frequency_hz;
    polarity = c.polarity;
  }

  -- An RGB init whose first pin is accepted and whose second is missing is refused, with the first
  -- channel left initialized in the hardware: the lamp does not track it, so deinit cannot release it.
  pub init_locked_leaks :
      (c : LampControlConfig) (s : Lamp) (w : World)
      → s.initialized ≡ false
      → c.channel_count ≡ 3
      → (c.frequency_hz ≢ 0)
      → polarity_is_named c.polarity ≡ true
      → get_or c.pins 0 pin_none ≢ pin_none
      → get_or c.pins 1 pin_none ≡ pin_none
      → (pwm_init (first_channel c) w).0 ≡ HalStatus.ok
      → let (status, s', w') = init_locked hal (some c) s w in
        (status ≡ LampStatus.invalid_argument)
        × (s'.initialized ≡ false)
        × (w' ≡ (pwm_init (first_channel c) w).1)
        × (deinit hal s' w' ≡ (LampStatus.not_initialized, s', w'))
  unfolding init_locked init_channel_count init_run init_channels deinit is_ok
  init_locked_leaks c s w idle three f p first missing accepted = ground arith

-- Hardware on which every duty is accepted.
abbrev pub Accepts : Hal → Type 0
Accepts hal = (p : ℕ) (d : hal.Percent) (w : hal.World) → (hal.pwm_set_duty p d w).0 ≡ HalStatus.ok

module _ (hal : Hal) where
  open hal use {World}

  set_channels_accepted :
      (count : ℕ) (r : LampState) (pins colors : List ℕ) (w : World)
      → Accepts hal
      → (set_channels hal count r pins colors w).0 ≡ none
  unfolding set_channels is_ok
  set_channels_accepted count r [] colors w h = refl
  set_channels_accepted count r (p ∷ pins) [] w h = refl
  set_channels_accepted count r (p ∷ pins) (c ∷ colors) w h =
      let d = hal.percent (channel_duty count r c) in
      ground
        (arith, h p d w, set_channels_accepted count r pins colors (hal.pwm_set_duty p d w).1 h)

  -- On hardware that accepts every duty, a request in range on an initialized lamp succeeds once the
  -- barrier has been released, and get_applied_state then reads the request back.
  pub release-apply-get :
      (r : LampState) (s : Lamp) (w : World)
      → Accepts hal
      → s.initialized ≡ true
      → r.brightness_percent ≤ 100
      → let (released, s1, w1) = release_fail_off hal s w in
        let (status, s2, w2) = apply_state hal (some r) s1 w1 in
        (status ≡ LampStatus.ok)
        × (get_applied_state hal true s2 ≡ (LampStatus.ok, some (applied_of s.channel_count r)))
  unfolding release_fail_off apply_state apply_state_locked apply_valid get_applied_state
  release-apply-get r s w h live bound = ground (
    arith,
    set_channels_accepted s.channel_count r (tracked hal s) (r.red ∷ r.green ∷ r.blue ∷ []) w h,
  )

module _ {hal : Hal} (laws : HalLaws hal) where
  open hal use {World}

  apply_valid_refused-AllOff :
      (r : LampState) (s : Lamp) (w : World)
      → (apply_valid hal r s w).0 ≢ LampStatus.ok
      → (apply_valid hal r s w).0 ≢ LampStatus.fail_off
      → AllOff laws (apply_valid hal r s w).2 (tracked hal (apply_valid hal r s w).1)
  unfolding apply_valid
  apply_valid_refused-AllOff r s w h k =
      let (failure, w') =
        set_channels hal s.channel_count r (tracked hal s) (r.red ∷ r.green ∷ r.blue ∷ []) w in
      elim (Option-cases failure) [
        | inl e ↦ absurd (h (rw (e, apply_valid)))
        | inr (hs, e) ↦
            rw (e, apply_valid)
              (reject-AllOff laws (map_hal_status hs) s w' (λ z. k (rw (e, apply_valid) z)))
      ]

  -- On an initialized lamp, a call of apply_state that is refused or fails, without reporting
  -- LAMP_ERR_FAIL_OFF, has switched every tracked channel off.
  pub apply_state_refused-AllOff :
      (r : Option LampState) (s : Lamp) (w : World)
      → s.initialized ≡ true
      → (apply_state hal r s w).0 ≢ LampStatus.ok
      → (apply_state hal r s w).0 ≢ LampStatus.fail_off
      → AllOff laws (apply_state hal r s w).2 (tracked hal (apply_state hal r s w).1)
  unfolding apply_state apply_state_locked
  apply_state_refused-AllOff none s w live h k = ground (
    arith,
    reject-AllOff laws LampStatus.blocked_by_fail_off s w,
    reject-AllOff laws LampStatus.invalid_argument s w,
  )
  apply_state_refused-AllOff (some r) s w live h k = ground (
    arith,
    reject-AllOff laws LampStatus.blocked_by_fail_off s w,
    reject-AllOff laws LampStatus.out_of_range s w,
    apply_valid_refused-AllOff r s w,
  )
