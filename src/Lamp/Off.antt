-- ===== src/Lamp/Off.antt =====
-- What the fail-off of lamp_control.c guarantees of the outputs, from the PWM layer's laws.
use hq_led_lamp.Common.{
  ℕ, ◌≡◌, refl, Bool, true, false, ◌&&◌, List, [], ◌∷◌, inl, inr, Bool-cases, All, arith, sym,
  subst, ◌∙◌, false≢true,
}
use hq_led_lamp.Lamp.Types.{LampStatus}
use hq_led_lamp.Lamp.Hal.{Hal, HalLaws, is_ok, ok_of_is_ok}
use hq_led_lamp.Lamp.Control.{Lamp, tracked, fail_off_channel, fail_off_channels, fail_off}

module _ {hal : Hal} (laws : HalLaws hal) where
  open hal use {World, pwm_force_inactive}
  open laws use {IsOff, force_off, force_keeps, duty_off, duty_min_keeps, deinit_keeps}

  -- Every pin of the list is off.
  abbrev pub AllOff : World → List ℕ → Type 0
  AllOff w pins = All (IsOff w) pins

  pub fail_off_channel_off :
      (p : ℕ) (w : World)
      → is_ok (fail_off_channel hal p w).0 ≡ true
      → IsOff (fail_off_channel hal p w).1 p
  unfolding fail_off_channel
  fail_off_channel_off p w h =
      let w1 = (pwm_force_inactive p w).1 in
      let w2 = (pwm_force_inactive p w1).1 in
      ground (
        arith,
        force_off p w,
        force_off p w1,
        duty_off p w2,
        ok_of_is_ok (pwm_force_inactive p w).0,
        ok_of_is_ok (pwm_force_inactive p w1).0,
        ok_of_is_ok (hal.pwm_set_duty p hal.duty_min_percent w2).0,
      )

  pub fail_off_channel_keeps :
      (p : ℕ) (w : World) (q : ℕ) → IsOff w q → IsOff (fail_off_channel hal p w).1 q
  unfolding fail_off_channel
  fail_off_channel_keeps p w q h =
      let w1 = (pwm_force_inactive p w).1 in
      let w2 = (pwm_force_inactive p w1).1 in
      ground (arith, force_keeps p w q, force_keeps p w1 q, duty_min_keeps p w2 q)

  pub fail_off_channels_keeps :
      (pins : List ℕ) (all_off : Bool) (w : World) (q : ℕ)
      → IsOff w q
      → IsOff (fail_off_channels hal pins all_off w).1 q
  unfolding fail_off_channels
  fail_off_channels_keeps [] all_off w q h = h
  fail_off_channels_keeps (p ∷ pins) all_off w q h =
      let (hs, w') = fail_off_channel hal p w in
      fail_off_channels_keeps pins (all_off && is_ok hs) w' q (fail_off_channel_keeps p w q h)

  -- A flag that was lowered stays low.
  fail_off_channels-false :
      (pins : List ℕ) (w : World) → (fail_off_channels hal pins false w).0 ≡ false
  unfolding fail_off_channels
  fail_off_channels-false [] w = refl
  fail_off_channels-false (p ∷ pins) w = fail_off_channels-false pins (fail_off_channel hal p w).1

  pub fail_off_channels_off :
      (pins : List ℕ) (w : World)
      → (fail_off_channels hal pins true w).0 ≡ true
      → AllOff (fail_off_channels hal pins true w).1 pins
  unfolding fail_off_channels
  fail_off_channels_off [] w h = tt
  fail_off_channels_off (p ∷ pins) w h =
      let (hs, w') = fail_off_channel hal p w in
      elim (Bool-cases (is_ok hs)) [
        | inl e ↦ (
          fail_off_channels_keeps pins (is_ok hs) w' p (fail_off_channel_off p w e),
          subst (λ b. AllOff (fail_off_channels hal pins b w').1 pins) (sym e)
              (fail_off_channels_off pins w'
                (subst (λ b. (fail_off_channels hal pins b w').0 ≡ true) e h)),
        )
        | inr e ↦ absurd (
            false≢true (
              sym (fail_off_channels-false pins w')
              ∙ subst (λ b. (fail_off_channels hal pins b w').0 ≡ true) e h))
      ]

  pub fail_off-AllOff :
      (s : Lamp) (w : World)
      → (fail_off hal s w).0 ≡ LampStatus.ok
      → AllOff (fail_off hal s w).2 (tracked hal s)
  unfolding fail_off
  fail_off-AllOff s w h = ground (arith, fail_off_channels_off (tracked hal s) w)
