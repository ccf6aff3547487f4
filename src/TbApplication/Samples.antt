-- ===== src/TbApplication/Samples.antt =====
-- Inputs for the runs of tb_application on the scripted PWM layer and parser.
use hq_led_lamp.Common.{ℕ, Bool, true, false, some, [], arith}
use hq_led_lamp.Lamp.Outcome.{applied_of}
use hq_led_lamp.Lamp.MockHal.{MockWorld, mock_hal}
use hq_led_lamp.Lamp.Samples.{dark, ready, ready-IsValid, blocked}
use hq_led_lamp.Json.{codes}
use hq_led_lamp.TbApplication.Module.{Module, Sys, zero_state}
use hq_led_lamp.TbApplication.Lifecycle.{SyncStatus, Platform, Config}
use hq_led_lamp.TbApplication.Sound.{IsSound}

abbrev pub up : MockWorld → ℕ → Bool
up w c = true

-- A connected module that has not applied a state yet.
abbrev pub online : Module
online = record {
  initialized = true;
  connected = true;
  output_suspended = false;
  client = some 7;
  has_lock = true;
  applied = zero_state;
  has_applied = false;
  rpc_state_changed = false;
  rpc_state_pending = zero_state;
  hardware = codes "lamp";
  firmware_hint = false;
}

abbrev pub quiet : Sys mock_hal
quiet = record { app = online; lamp = ready; world = dark []; events = []; has_memory = λ es. true }

-- The same with a white lamp.
abbrev pub white : Sys mock_hal
white = record quiet {
  lamp = record ready {
    applied = applied_of 3 (record zero_state { red = 255; green = 255; blue = 255 });
  };
}

abbrev pub behind : Sys mock_hal
behind = record quiet { lamp = blocked }

abbrev pub suspended : Sys mock_hal
suspended = record quiet { app = record online { output_suspended = true } }

abbrev pub cut_off : Sys mock_hal
cut_off = record quiet { app = record online { connected = false } }

pub quiet-IsSound : IsSound mock_hal quiet
quiet-IsSound = record {
  lamp_valid = ready-IsValid;
  applied_bound = omega arith;
  pending_bound = omega arith;
}

pub behind-IsSound : IsSound mock_hal behind
behind-IsSound = record {
  lamp_valid = ground arith;
  applied_bound = omega arith;
  pending_bound = omega arith;
}

abbrev pub good_platform : Platform
good_platform = record { mutex_created = true; sync_init = SyncStatus.ok; registered = λ m. true }

abbrev pub sample_config : Config
sample_config = record { client = some 9; hardware = some (codes "lamp-rgb") }

pub cut_off-IsSound : IsSound mock_hal cut_off
cut_off-IsSound = record {
  lamp_valid = ready-IsValid;
  applied_bound = omega arith;
  pending_bound = omega arith;
}
