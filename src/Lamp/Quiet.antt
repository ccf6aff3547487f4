-- ===== src/Lamp/Quiet.antt =====
-- lamp_control.c: the electrical meaning of `output_active`. While it is false and no operation has
-- reported LAMP_ERR_FAIL_OFF, every channel that the module drives is off.
use hq_led_lamp.Common.{ℕ, ◌≤◌, ◌≡◌, true, false, none, List, [], ◌∷◌, length, All, arith}
use hq_led_lamp.Lamp.Types.{LampState}
use hq_led_lamp.Lamp.Hal.{Hal, HalLaws, is_ok, ok_of_is_ok}
use hq_led_lamp.Lamp.Duty.{channel_duty}
use hq_led_lamp.Lamp.Control.{hold_channels}
use hq_led_lamp.Lamp.Operations.{is_output_active, set_channels}
use hq_led_lamp.Lamp.Off.{AllOff}
use hq_led_lamp.Lamp.Release.{release_reference}

-- A single channel at zero brightness or power has no duty; with several, black has none either.
pub channel_duty-zero :
    (count : ℕ) (r : LampState)
    → is_output_active count r ≡ false
    → All (λ c. channel_duty count r c ≡ 0) (r.red ∷ r.green ∷ r.blue ∷ [])
unfolding channel_duty
channel_duty-zero count r h = (ground arith, (ground arith, (ground arith, tt)))

module _ {hal : Hal} (laws : HalLaws hal) where
  open hal use {World, percent, pwm_set_duty}
  open laws use {IsOff}

  -- A step that keeps every single output off keeps a list of them off.
  pub AllOff-mono :
      (pins : List ℕ) (w w' : World)
      → ((q : ℕ) → IsOff w q → IsOff w' q)
      → AllOff laws w pins
      → AllOff laws w' pins
  AllOff-mono [] w w' keep off = tt
  AllOff-mono (p ∷ pins) w w' keep off = (keep p off.0, AllOff-mono pins w w' keep off.1)

  set_duty_zero_keeps :
      (d p : ℕ) (w : World) (q : ℕ) → d ≡ 0 → IsOff w q → IsOff (pwm_set_duty p (percent d) w).1 q
  set_duty_zero_keeps d p w q z off = rw (z, laws.percent_zero) (laws.duty_min_keeps p w q off)

  set_duty_zero_off :
      (d p : ℕ) (w : World)
      → d ≡ 0
      → is_ok (pwm_set_duty p (percent d) w).0 ≡ true
      → IsOff (pwm_set_duty p (percent d) w).1 p
  set_duty_zero_off d p w z h =
      let e = ok_of_is_ok (pwm_set_duty p (percent d) w).0 h in
      rw (z, laws.percent_zero) (laws.duty_off p w (rw (z, laws.percent_zero) at e))

  set_channels_keeps :
      (count : ℕ) (r : LampState) (pins colors : List ℕ) (w : World) (q : ℕ)
      → All (λ c. channel_duty count r c ≡ 0) colors
      → IsOff w q
      → IsOff (set_channels hal count r pins colors w).1 q
  unfolding set_channels
  set_channels_keeps count r [] colors w q z off = off
  set_channels_keeps count r (p ∷ pins) [] w q z off = off
  set_channels_keeps count r (p ∷ pins) (c ∷ colors) w q z off =
      let d = channel_duty count r c in
      let w' = (pwm_set_duty p (percent d) w).1 in
      ground (
        arith,
        set_duty_zero_keeps d p w q z.0 off,
        set_channels_keeps count r pins colors w' q z.1,
      )

  -- With a zero duty for every colour, a loop that ends well leaves every channel off.
  pub set_channels-AllOff :
      (count : ℕ) (r : LampState) (pins colors : List ℕ) (w : World)
      → length pins ≤ length colors
      → All (λ c. channel_duty count r c ≡ 0) colors
      → (set_channels hal count r pins colors w).0 ≡ none
      → AllOff laws (set_channels hal count r pins colors w).1 pins
  unfolding set_channels
  set_channels-AllOff count r [] colors w l z h = tt
  set_channels-AllOff count r (p ∷ pins) [] w l z h = absurd (omega arith)
  set_channels-AllOff count r (p ∷ pins) (c ∷ colors) w l z h =
      let d = channel_duty count r c in
      let (hs, w') = pwm_set_duty p (percent d) w in
      ground (
        arith,
        set_duty_zero_off d p w z.0,
        set_channels_keeps count r pins colors w' p z.1,
        set_channels-AllOff count r pins colors w' (omega arith) z.1,
      )

  pub hold_channels_keeps :
      (pins : List ℕ) (w : World) (q : ℕ) → IsOff w q → IsOff (hold_channels hal pins w).1 q
  unfolding hold_channels
  hold_channels_keeps [] w q off = off
  hold_channels_keeps (p ∷ pins) w q off =
      let w' = (hal.pwm_force_inactive p w).1 in
      ground (arith, laws.force_keeps p w q off, hold_channels_keeps pins w' q)

  pub hold_channels-AllOff :
      (pins : List ℕ) (w : World)
      → is_ok (hold_channels hal pins w).0 ≡ true
      → AllOff laws (hold_channels hal pins w).1 pins
  unfolding hold_channels
  hold_channels-AllOff [] w h = tt
  hold_channels-AllOff (p ∷ pins) w h =
      let (hs, w') = hal.pwm_force_inactive p w in
      ground (
        arith,
        laws.force_off p w,
        ok_of_is_ok hs,
        hold_channels_keeps pins w' p,
        hold_channels-AllOff pins w',
      )

  pub release_reference_keeps :
      (pins : List ℕ) (w : World) (q : ℕ) → IsOff w q → IsOff (release_reference hal pins w).2 q
  unfolding release_reference
  release_reference_keeps [] w q off = off
  release_reference_keeps (p ∷ pins) w q off =
      let w' = (hal.pwm_deinit p w).1 in
      ground (arith, laws.deinit_keeps p w q off, release_reference_keeps pins w' q)

  -- The pins that a release keeps are among those that it was given.
  pub release_reference-AllOff :
      (pins : List ℕ) (w : World)
      → AllOff laws w pins
      → AllOff laws (release_reference hal pins w).2 (release_reference hal pins w).1
  unfolding release_reference
  release_reference-AllOff [] w off = tt
  release_reference-AllOff (p ∷ pins) w off =
      let w' = (hal.pwm_deinit p w).1 in
      ground (
        arith,
        release_reference_keeps pins w' p,
        laws.deinit_keeps p w p off.0,
        release_reference-AllOff pins w',
        AllOff-mono pins w w' (laws.deinit_keeps p w) off.1,
      )
