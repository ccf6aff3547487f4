-- ===== src/MqttCfg/Races.antt =====
-- mqtt_cfg.c: runs in which mqtt_cfg_connect polls in the middle of a failure callback.
use hq_led_lamp.Common.{◌≡◌, refl, some, take, false}
use hq_led_lamp.Lamp.Hal.{is_ok}
use hq_led_lamp.Lamp.Control.{status_is_ok, fail_off_channel, fail_off_channels, fail_off}
use hq_led_lamp.Lamp.Operations.{force_inactive}
use hq_led_lamp.Lamp.Samples.{ready}
use hq_led_lamp.MqttCfg.Types.{CfgError}
use hq_led_lamp.MqttCfg.Platform.{
  FailureReason, Platform, Endpoint, access, on_connect_failure, fail_off_lamp, on_event, deliver,
}
use hq_led_lamp.MqttCfg.Connect.{verdict, expire, connect_loop, start_transport, may_start, connect}
use hq_led_lamp.MqttCfg.MockBroker.{steady_hal, broker, latched}

-- The broker refuses the credentials; of the callback, three steps have been taken.
abbrev hasty_broker : Platform
hasty_broker = record broker {
  client_init = λ w. (take 3 (on_connect_failure FailureReason.auth_rejected), w);
}

abbrev hasty : Endpoint steady_hal hasty_broker
hasty = record {
  state = latched.state;
  lamp = ready;
  hardware = latched.hardware;
  world = latched.world;
}

-- The failure is reported as one of the connection, and the lamp's barrier is not latched yet.
failure_before_force :
    let (status, y') = connect steady_hal hasty_broker 1000 hasty in
    (status ≡ some (some CfgError.connect)) × (y'.lamp.fail_off_barrier ≡ false)
unfolding fail_off_lamp fail_off fail_off_channels fail_off_channel is_ok status_is_ok
    force_inactive access on_event deliver verdict expire connect_loop start_transport may_start
    connect
failure_before_force = (refl, refl)
