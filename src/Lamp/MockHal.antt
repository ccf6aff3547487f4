-- ===== src/Lamp/MockHal.antt =====
-- A PWM layer to run the lamp on: a set of energized pins, and a script of the statuses that the next
-- calls return (after its end, success). A failed call changes no output.
use hq_led_lamp.Common.{
  ℕ, ◌≡◌, refl, Bool, true, false, not, List, [], ◌∷◌, ◌==◌, ◌&&◌, if◌then◌else◌, arith,
}
use hq_led_lamp.Lamp.Types.{HalStatus}
use hq_led_lamp.Lamp.Hal.{Hal, HalLaws}

pub record MockWorld : Type 0 where
  pub lit : ℕ → Bool
  pub script : List HalStatus

abbrev pub next_status : List HalStatus → HalStatus
next_status [] = HalStatus.ok
next_status (hs ∷ script) = hs

abbrev pub rest_script : List HalStatus → List HalStatus
rest_script [] = []
rest_script (hs ∷ script) = script

abbrev pub succeeds : HalStatus → Bool
succeeds HalStatus.ok = true
succeeds _ = false

-- One call that, if it succeeds, drives pin `p` to `on`.
abbrev pub drive : ℕ → Bool → MockWorld → HalStatus × MockWorld
drive p on w = (
  next_status w.script,
  record {
    lit = λ q. if succeeds (next_status w.script) && (q == p) then on else w.lit q;
    script = rest_script w.script;
  },
)

abbrev pub mock_hal : Hal
mock_hal = record {
  World = MockWorld;
  Percent = ℕ;
  pin_none = 255;
  percent = λ d. d;
  duty_min_percent = 0;
  pwm_init = λ c w. drive c.pin false w;
  pwm_set_duty = λ p d w. drive p (not (d == 0)) w;
  pwm_force_inactive = λ p w. drive p false w;
  pwm_deinit = λ p w. drive p false w;
}

abbrev pub MockOff : MockWorld → ℕ → Type 0
MockOff w q = w.lit q ≡ false

pub drive_off :
    (p : ℕ) (w : MockWorld) → (drive p false w).0 ≡ HalStatus.ok → MockOff (drive p false w).1 p
drive_off p w h = ground arith

pub drive_keeps : (p : ℕ) (w : MockWorld) (q : ℕ) → MockOff w q → MockOff (drive p false w).1 q
drive_keeps p w q h = ground arith

unfoldable pub mock_laws : HalLaws mock_hal
mock_laws = record {
  IsOff = MockOff;
  percent_zero = refl;
  init_off = λ c w h. drive_off c.pin w h;
  init_keeps = λ c w q h. drive_keeps c.pin w q h;
  force_off = drive_off;
  force_keeps = drive_keeps;
  duty_off = drive_off;
  duty_min_keeps = drive_keeps;
  deinit_keeps = drive_keeps;
}

-- A layer on which every call succeeds and nothing is kept.
abbrev pub obedient_hal : Hal
obedient_hal = record mock_hal {
  World = Unit {0};
  pwm_init = λ c w. (HalStatus.ok, w);
  pwm_set_duty = λ p d w. (HalStatus.ok, w);
  pwm_force_inactive = λ p w. (HalStatus.ok, w);
  pwm_deinit = λ p w. (HalStatus.ok, w);
}
