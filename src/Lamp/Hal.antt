-- ===== src/Lamp/Hal.antt =====
-- The PWM layer that lamp_control drives (hal_pwm.h, in the platform submodule), as a parameter:
-- its operations, and the documented behaviour that the lamp relies on.
use hq_led_lamp.Common.{ℕ, ◌≡◌, refl, Bool, true, false}
use hq_led_lamp.Lamp.Types.{HalStatus, Polarity}

-- `hal_pwm_config_t`, as far as `lamp_control_init_locked` fills it.
pub record PwmConfig : Type 0 where
  pub pin : ℕ
  pub frequency_hz : ℕ
  pub polarity : Polarity

-- A call may change the hardware also where it fails. `percent d` is the C expression
-- `(float)d / (float)LAMP_DUTY_SCALE`, since the layer takes its duty as a float.
pub record Hal : Type 1 where
  pub World : Type 0
  pub Percent : Type 0
  pub pin_none : ℕ
  pub percent : ℕ → Percent
  pub duty_min_percent : Percent
  pub pwm_init : PwmConfig → World → HalStatus × World
  pub pwm_set_duty : ℕ → Percent → World → HalStatus × World
  pub pwm_force_inactive : ℕ → World → HalStatus × World
  pub pwm_deinit : ℕ → World → HalStatus × World

unfoldable pub is_ok : HalStatus → Bool
is_ok HalStatus.ok = true
is_ok _ = false

-- What the layer documents. `IsOff w p`: the output of pin `p` is at its inactive level.
-- A successful init starts inactive, a successful force or 0 % duty is inactive, and calls that
-- only ever switch off, or that address another pin, energize nothing.
pub record HalLaws (hal : Hal) : Type 1 where
  pub IsOff : hal.World → ℕ → Type 0
  pub percent_zero : hal.percent 0 ≡ hal.duty_min_percent
  pub init_off :
      (c : PwmConfig) (w : hal.World)
      → (hal.pwm_init c w).0 ≡ HalStatus.ok
      → IsOff (hal.pwm_init c w).1 c.pin
  pub init_keeps :
      (c : PwmConfig) (w : hal.World) (q : ℕ) → IsOff w q → IsOff (hal.pwm_init c w).1 q
  pub force_off :
      (p : ℕ) (w : hal.World)
      → (hal.pwm_force_inactive p w).0 ≡ HalStatus.ok
      → IsOff (hal.pwm_force_inactive p w).1 p
  pub force_keeps :
      (p : ℕ) (w : hal.World) (q : ℕ) → IsOff w q → IsOff (hal.pwm_force_inactive p w).1 q
  pub duty_off :
      (p : ℕ) (w : hal.World)
      → (hal.pwm_set_duty p hal.duty_min_percent w).0 ≡ HalStatus.ok
      → IsOff (hal.pwm_set_duty p hal.duty_min_percent w).1 p
  pub duty_min_keeps :
      (p : ℕ) (w : hal.World) (q : ℕ)
      → IsOff w q
      → IsOff (hal.pwm_set_duty p hal.duty_min_percent w).1 q
  pub deinit_keeps : (p : ℕ) (w : hal.World) (q : ℕ) → IsOff w q → IsOff (hal.pwm_deinit p w).1 q

pub is_ok_ok : is_ok HalStatus.ok ≡ true
unfolding is_ok
is_ok_ok = refl

pub ok_of_is_ok : (hs : HalStatus) → is_ok hs ≡ true → hs ≡ HalStatus.ok
unfolding is_ok
ok_of_is_ok HalStatus.ok h = refl
ok_of_is_ok _ h = cc
