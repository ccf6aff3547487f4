-- ===== src/Lamp/Types.antt =====
-- components/lamp_control/include/lamp_control.h: status codes, states and the configuration.
-- A uint8_t or uint32_t is a number; its range stands where a statement needs it.
use hq_led_lamp.Common.{ℕ, ◌*◌, Bool, List}

-- The statuses that `lamp_map_hal_status` names; `other` is any further value of `hal_status_t`.
pub data HalStatus : Type 0 where
  ok : HalStatus
  invalid_argument invalid_pin out_of_range not_initialized : HalStatus
  already_initialized not_supported no_resource other : HalStatus

pub data LampStatus : Type 0 where
  ok : LampStatus
  invalid_argument out_of_range not_initialized already_initialized : LampStatus
  not_supported no_resource internal fail_off blocked_by_fail_off : LampStatus

-- An enum value that is neither of the two named ones is `invalid`.
pub data Polarity : Type 0 where
  active_high active_low : Polarity
  invalid : ℕ → Polarity

abbrev pub lamp_brightness_min : ℕ
lamp_brightness_min = 0

abbrev pub lamp_brightness_max : ℕ
lamp_brightness_max = 100

abbrev pub lamp_duty_scale : ℕ
lamp_duty_scale = 100

abbrev pub lamp_duty_min : ℕ
lamp_duty_min = 0

abbrev pub lamp_duty_max : ℕ
lamp_duty_max = lamp_brightness_max * lamp_duty_scale

abbrev pub lamp_control_max_channels : ℕ
lamp_control_max_channels = 3

pub record LampState : Type 0 where
  pub power : Bool
  pub brightness_percent : ℕ
  pub red : ℕ
  pub green : ℕ
  pub blue : ℕ

pub record LampAppliedState : Type 0 where
  pub power : Bool
  pub brightness_percent : ℕ
  pub output_active : Bool
  pub red : ℕ
  pub green : ℕ
  pub blue : ℕ

-- `pins` is the array of `lamp_control_max_channels` RGB pins.
pub record LampControlConfig : Type 0 where
  pub pin : ℕ
  pub pins : List ℕ
  pub channel_count : ℕ
  pub frequency_hz : ℕ
  pub polarity : Polarity
