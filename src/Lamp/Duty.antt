-- ===== src/Lamp/Duty.antt =====
-- lamp_control.c: the two conversions between brightness and fixed-point duty, and the duty of one
-- channel. `none` as the first argument is a null output pointer.
use hq_led_lamp.Common.{ℕ, ◌+◌, ◌*◌, ◌/◌, ◌%◌, Bool, Option, none, some, ltb, ◌==◌, if◌then◌else◌}
use hq_led_lamp.Lamp.Types.{
  LampStatus, LampState, lamp_brightness_max, lamp_duty_scale, lamp_duty_min, lamp_duty_max,
}

abbrev pub u8 : ℕ → ℕ
u8 n = n % 256

abbrev pub u32 : ℕ → ℕ
u32 n = n % 4294967296

abbrev pub u64 : ℕ → ℕ
u64 n = n % 18446744073709551616

-- The status, and the value written through the output pointer if there is one.
unfoldable pub lamp_duty_from_brightness : ℕ → Bool → LampStatus × Option ℕ
lamp_duty_from_brightness brightness_percent has_out =
    let scaled = u64 (brightness_percent * lamp_duty_scale) in
    if has_out
    then (if ltb lamp_brightness_max brightness_percent
        then (LampStatus.out_of_range, none)
        else if ltb lamp_duty_max scaled
        then (LampStatus.out_of_range, none)
        else (LampStatus.ok, some (u32 scaled)))
    else (LampStatus.invalid_argument, none)

unfoldable pub lamp_brightness_from_duty : ℕ → Bool → LampStatus × Option ℕ
lamp_brightness_from_duty duty has_out =
    let rounded = u64 (duty + lamp_duty_scale / 2) / lamp_duty_scale in
    if has_out
    then (if ltb lamp_duty_max duty
        then (LampStatus.out_of_range, none)
        else (LampStatus.ok, some (u8 rounded)))
    else (LampStatus.invalid_argument, none)

-- The `channel_duty` and `duty` of the loop in `lamp_control_apply_state_locked`, in uint32_t.
unfoldable pub channel_duty : ℕ → LampState → ℕ → ℕ
channel_duty channel_count requested color =
    let scaled = u32 (requested.brightness_percent * lamp_duty_scale) in
    let duty = if channel_count == 1 then scaled else u32 (u32 (scaled * color) + 127) / 255 in
    if requested.power then duty else lamp_duty_min
