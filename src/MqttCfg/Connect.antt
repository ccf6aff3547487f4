-- ===== src/MqttCfg/Connect.antt =====
-- mqtt_cfg.c: mqtt_cfg_connect, the verified connection within a bounded wait.
use hq_led_lamp.Common.{
  ℕ, zero, suc, ◌+◌, ◌-◌, ◌/◌, Bool, true, false, not, ◌&&◌, ◌||◌, Option, none, some, ltb, leb,
  ◌==◌, if◌then◌else◌,
}
use hq_led_lamp.Lamp.Hal.{Hal}
use hq_led_lamp.Lamp.Operations.{release_fail_off}
use hq_led_lamp.MqttCfg.Types.{CfgError}
use hq_led_lamp.MqttCfg.Platform.{Platform, State, Endpoint, no_session, fail_off_lamp, during}

abbrev pub poll_ms : ℕ
poll_ms = 25

-- What the loop decides in a round.
pub data Verdict : Type 0 where
  established mutated failed expired again : Verdict

-- The wait state before the asynchronous connect starts.
abbrev pub begin_wait : State → State
begin_wait t = record t {
  connect_failed = false;
  auth_rejected = false;
  connected_generation = 0;
  waiting_for_connection = true;
}

unfoldable pub poll_step : ℕ → ℕ → ℕ
poll_step timeout waited = if ltb (timeout - waited) poll_ms then timeout - waited else poll_ms

-- Rounds that a wait of `timeout` milliseconds cannot use up.
abbrev pub connect_fuel : ℕ → ℕ
connect_fuel timeout = timeout / 25 + 2

module _ (hal : Hal) (p : Platform) where
  -- The reads of one round, and the test that applies.
  unfoldable pub verdict : ℕ → ℕ → Endpoint hal p → Verdict
  verdict timeout waited y =
      let connected =
        (y.state.connected_generation == y.state.apply_generation) && p.is_connected y.world in
      let matches = p.verified_is_current y.world in
      if connected && y.state.verified_applied && matches
      then Verdict.established
      else if connected && not (y.state.verified_applied && matches)
      then Verdict.mutated
      else if y.state.connect_failed
      then Verdict.failed
      else if (timeout == 0) || leb timeout waited
      then Verdict.expired
      else Verdict.again

  -- A verified session: the wait ends, and the lamp's barrier is released.
  unfoldable pub establish : Endpoint hal p → Endpoint hal p
  establish y =
      let z =
        during hal p p.preempt
          (record y { state = record (y.state) { waiting_for_connection = false } }) in
      let (status, lamp', hw') = release_fail_off hal z.lamp z.hardware in
      record z { lamp = lamp'; hardware = hw' }

  -- The values were changed while the connection was made.
  unfoldable pub refuse_mutated : Endpoint hal p → Endpoint hal p
  refuse_mutated y =
      let closed : Endpoint hal p = record y {
        state = record (no_session y.state) { verified_applied = false };
      } in
      fail_off_lamp hal p (during hal p p.client_deinit closed)

  unfoldable pub expire : Endpoint hal p → Endpoint hal p
  expire y = fail_off_lamp hal p (record y { state = no_session y.state })

  -- The loop, with fuel: the status, none for MQTT_CFG_OK, or nothing if the fuel ran out.
  unfoldable pub connect_loop :
      ℕ → ℕ → ℕ → Endpoint hal p → Option (Option CfgError) × Endpoint hal p
  connect_loop zero timeout waited y = (none, y)
  connect_loop (suc fuel) timeout waited y = elim (verdict timeout waited y) [
    | Verdict.established ↦ (some none, establish y)
    | Verdict.mutated ↦ (some (some CfgError.not_applied), refuse_mutated y)
    | Verdict.failed ↦ (
      some (some (if y.state.auth_rejected then CfgError.auth_rejected else CfgError.connect)),
      y,
    )
    | Verdict.expired ↦ (some (some CfgError.connect), expire y)
    | Verdict.again ↦
        let step = poll_step timeout waited in
        connect_loop fuel timeout (waited + step) (during hal p (p.delay step) y)
  ]

  -- A refusal before the transport is started.
  unfoldable pub reject_start : Endpoint hal p → Endpoint hal p
  reject_start y =
      let closed : Endpoint hal p = record y {
        state = record (y.state) { verified_applied = false; waiting_for_connection = false };
      } in
      fail_off_lamp hal p (during hal p p.client_deinit closed)

  -- The old session is discarded, the wait begins, and the transport starts.
  unfoldable pub start_transport : Endpoint hal p → Endpoint hal p
  start_transport y =
      let down = during hal p p.client_deinit y in
      during hal p p.client_init (record down { state = begin_wait down.state })

  -- Whether the transport may start: the latch, the snapshot, and an address.
  unfoldable pub may_start : Endpoint hal p → Bool
  may_start y =
      y.state.verified_applied
      && p.verified_is_current y.world
      && (elim (p.verified_server_url y.world) [ none ↦ false | some url ↦ true ])

  -- `mqtt_cfg_connect`.
  unfoldable pub connect : ℕ → Endpoint hal p → Option (Option CfgError) × Endpoint hal p
  connect timeout y =
      if may_start y
      then connect_loop (connect_fuel timeout) timeout 0 (start_transport y)
      else (some (some CfgError.not_applied), reject_start y)
