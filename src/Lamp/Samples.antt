-- ===== src/Lamp/Samples.antt =====
-- Inputs for the runs of lamp_control on the scripted PWM layer.
use hq_led_lamp.Common.{true, false, List, [], ◌∷◌, arith}
use hq_led_lamp.Lamp.Types.{HalStatus, LampState, LampControlConfig, Polarity}
use hq_led_lamp.Lamp.Control.{Lamp, initial_lamp}
use hq_led_lamp.Lamp.MockHal.{MockWorld, mock_hal}
use hq_led_lamp.Lamp.Valid.{IsValid}

abbrev pub rgb_config : LampControlConfig
rgb_config = record {
  pin = 4;
  pins = 4 ∷ 5 ∷ 6 ∷ [];
  channel_count = 3;
  frequency_hz = 1000;
  polarity = Polarity.active_high;
}

abbrev pub gap_config : LampControlConfig
gap_config = record rgb_config { pins = 4 ∷ 255 ∷ 6 ∷ [] }

abbrev pub warm : LampState
warm = record { power = true; brightness_percent = 40; red = 255; green = 120; blue = 0 }

abbrev pub too_bright : LampState
too_bright = record warm { brightness_percent = 101 }

-- All outputs off, and the given statuses ahead.
abbrev pub dark : List HalStatus → MockWorld
dark script = record { lit = λ q. false; script = script }

-- An RGB lamp after init, recorded as inactive.
abbrev pub ready : Lamp
ready = record (initial_lamp mock_hal) {
  initialized = true;
  pins = 4 ∷ 5 ∷ 6 ∷ [];
  channel_count = 3;
}

abbrev pub blocked : Lamp
blocked = record ready { fail_off_barrier = true }

pub ready-IsValid : IsValid ready
ready-IsValid = ground arith
