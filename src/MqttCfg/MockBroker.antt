-- ===== src/MqttCfg/MockBroker.antt =====
-- A platform and a hardware to run mqtt_cfg on: one file, a transport that reports the given callbacks when
-- it starts, and outputs that obey every call.
use hq_led_lamp.Common.{
  ℕ, ◌≡◌, refl, Bool, true, false, not, Option, none, some, List, [], ◌==◌, arith, take, length,
  if◌then◌else◌,
}
use hq_led_lamp.Json.{Text, codes, is_some}
use hq_led_lamp.Lamp.Types.{HalStatus}
use hq_led_lamp.Lamp.Hal.{Hal, HalLaws}
use hq_led_lamp.Lamp.MockHal.{mock_hal}
use hq_led_lamp.Lamp.Samples.{blocked}
use hq_led_lamp.AppConfig.Storage.{StatResult, DocStatus, Storage}
use hq_led_lamp.MqttCfg.Types.{AuthMode, MqttCfg}
use hq_led_lamp.MqttCfg.Platform.{
  Event, VerifiedStatus, Platform, Endpoint, initial_state, on_connect,
}
use hq_led_lamp.MqttCfg.Dark.{IsBlocked}
use hq_led_lamp.MqttCfg.Refused.{Obeys}

-- The outputs that are lit.
abbrev pub drive : ℕ → Bool → (ℕ → Bool) → HalStatus × (ℕ → Bool)
drive p on w = (HalStatus.ok, λ q. if q == p then on else w q)

abbrev pub steady_hal : Hal
steady_hal = record mock_hal {
  World = ℕ → Bool;
  pwm_init = λ c w. drive c.pin false w;
  pwm_set_duty = λ p d w. drive p (not (d == 0)) w;
  pwm_force_inactive = λ p w. drive p false w;
  pwm_deinit = λ p w. drive p false w;
}

pub drive_off : (p : ℕ) (w : ℕ → Bool) → (drive p false w).1 p ≡ false
drive_off p w = ground arith

pub drive_keeps : (p : ℕ) (w : ℕ → Bool) (q : ℕ) → w q ≡ false → (drive p false w).1 q ≡ false
drive_keeps p w q h = ground (arith, h)

unfoldable pub steady_laws : HalLaws steady_hal
steady_laws = record {
  IsOff = λ w q. w q ≡ false;
  percent_zero = refl;
  init_off = λ c w h. drive_off c.pin w;
  init_keeps = λ c w q h. drive_keeps c.pin w q h;
  force_off = λ p w h. drive_off p w;
  force_keeps = drive_keeps;
  duty_off = λ p w h. drive_off p w;
  duty_min_keeps = drive_keeps;
  deinit_keeps = drive_keeps;
}

pub steady_obeys : Obeys steady_hal
steady_obeys p w = refl

-- The document, the address of the verified snapshot, whether the transport is up, and what it reports when
-- it starts.
pub record Broker : Type 0 where
  pub document : Text
  pub snapshot : Option Text
  pub up : Bool
  pub reports : List Event

abbrev broker_files : Storage
broker_files = record {
  World = Broker;
  Fd = Unit {0};
  max_path = 64;
  alloc = λ w. (true, w);
  stat = λ path w. (StatResult.size (length w.document), w);
  open_file = λ path w. (some tt, w);
  read = λ fd want w. (some (take want w.document), w);
  close = λ fd w. (true, w);
  commit = λ path json max check w. (DocStatus.io, w);
}

abbrev pub broker : Platform
broker = record {
  files = broker_files;
  invalidate_verified = λ w. record w { snapshot = none };
  verified_is_current = λ w. is_some w.snapshot;
  apply_verified = λ v w. (VerifiedStatus.ok, record w { snapshot = some v.address });
  verified_server_url = λ w. w.snapshot;
  identity_token = λ w. some (codes "token");
  is_connected = λ w. w.up;
  client_deinit = λ w. ([], record w { up = false });
  client_init = λ w. (w.reports, record w { up = true });
  delay = λ ms w. ([], w);
  preempt = λ w. ([], w);
}

abbrev pub a_broker : Broker
a_broker = record { document = codes "M"; snapshot = none; up = false; reports = on_connect }

abbrev pub fresh : Endpoint steady_hal broker
fresh = record { state = initial_state; lamp = blocked; hardware = λ q. false; world = a_broker }

abbrev pub mtls_cfg : MqttCfg
mtls_cfg = record {
  schema_version = 1;
  hostname = codes "tb.example.org";
  port = 8883;
  client_id = codes "lamp";
  tls_mode = 1;
  auth_mode = AuthMode.mtls;
  ca_path = codes "/cert/ca.crt";
  client_cert_path = codes "/cert/device.crt";
  client_key_path = codes "/cert/device.key";
}

-- Without the path of its key.
abbrev pub keyless_cfg : MqttCfg
keyless_cfg = record mtls_cfg { client_key_path = [] }

-- After a successful apply.
abbrev pub latched : Endpoint steady_hal broker
latched = record fresh {
  state = record initial_state { verified_applied = true; apply_generation = 1 };
  world = record a_broker { snapshot = some (codes "mqtts://tb.example.org:8883") };
}

pub fresh-IsBlocked : IsBlocked steady_laws blocked (λ q. false)
unfolding steady_laws
fresh-IsBlocked = record { latched = refl; off = (refl, (refl, (refl, tt))) }
