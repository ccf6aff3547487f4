-- ===== src/Lamp/Rounding.antt =====
-- lamp_control.c: the brightness and duty conversions lose nothing that they should keep, and no
-- intermediate value wraps.
use hq_led_lamp.Common.{ℕ, ◌+◌, ◌*◌, ◌/◌, ◌≤◌, ◌<◌, ◌≡◌, ◌≢◌, true, some, arith}
use hq_led_lamp.Lamp.Types.{LampStatus, LampState}
use hq_led_lamp.Lamp.Duty.{lamp_duty_from_brightness, lamp_brightness_from_duty, channel_duty}

-- A brightness of at most 100 converts to a duty, and that duty back to the same brightness.
pub brightness-duty-roundtrip :
    (b : ℕ)
    → b ≤ 100
    → (d : ℕ) × (lamp_duty_from_brightness b true ≡ (LampStatus.ok, some d))
      × (lamp_brightness_from_duty d true ≡ (LampStatus.ok, some b))
unfolding lamp_duty_from_brightness lamp_brightness_from_duty
brightness-duty-roundtrip b h = (b * 100, ground arith, ground arith)

-- A duty in range reads back as the nearest brightness: half a percent at most is lost, and exactly
-- half rounds up.
pub duty-brightness_nearest :
    (d : ℕ)
    → d ≤ 10000
    → (b : ℕ) × (lamp_brightness_from_duty d true ≡ (LampStatus.ok, some b))
      × (b ≤ 100)
      × (b * 100 ≤ d + 50)
      × (d < b * 100 + 50)
unfolding lamp_brightness_from_duty
duty-brightness_nearest d h = ((d + 50) / 100, ground arith, omega arith, omega arith, omega arith)

product_bound : (b c : ℕ) → b ≤ 100 → c ≤ 255 → b * 100 * c ≤ 2550000
product_bound b c h k = grind arith

-- In a lamp of several channels a powered channel gets brightness times colour, rounded to the
-- nearest duty, within range.
pub channel_duty_nearest :
    (count : ℕ) (r : LampState) (color : ℕ)
    → r.brightness_percent ≤ 100
    → color ≤ 255
    → r.power ≡ true
    → count ≢ 1
    → let d = channel_duty count r color in
      (d ≤ 10000)
      × (255 * d ≤ r.brightness_percent * 100 * color + 127)
      × (r.brightness_percent * 100 * color + 127 < 255 * d + 255)
unfolding channel_duty
channel_duty_nearest count r color h k p m =
    ground (arith, product_bound r.brightness_percent color h k)
