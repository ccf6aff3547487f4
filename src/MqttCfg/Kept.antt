-- ===== src/MqttCfg/Kept.antt =====
-- mqtt_cfg.c: what apply and connect keep, from the rules of Preserved.
use hq_led_lamp.Common.{ℕ, true, false, Option, none, some, inl, inr, Bool-cases, arith}
use hq_led_lamp.Json.{Doubles, CJson}
use hq_led_lamp.Lamp.Hal.{Hal}
use hq_led_lamp.Lamp.Control.{Lamp}
use hq_led_lamp.Lamp.Operations.{release_fail_off}
use hq_led_lamp.MqttCfg.Types.{CfgError, CfgResult-cases, MqttCfg}
use hq_led_lamp.MqttCfg.Platform.{Platform, State, Endpoint, no_session, during}
use hq_led_lamp.MqttCfg.Load.{load}
use hq_led_lamp.MqttCfg.Apply.{begin_apply, apply, load_and_apply}
use hq_led_lamp.MqttCfg.Connect.{
  begin_wait, establish, refuse_mutated, expire, connect_fuel, reject_start, start_transport,
  may_start, connect,
}
use hq_led_lamp.MqttCfg.Callbacks.{At, CallbackRules, fail_off_keeps, during_keeps}
use hq_led_lamp.MqttCfg.Waiting.{PollRules, connect_loop_rule}
use hq_led_lamp.MqttCfg.Preserved.{
  WriteRules, Begun, Begun-CallbackRules, Begun-WriteRules, Begun-begin_state, load_keeps,
  begin_apply_keeps, apply_values_keeps,
}

begin_apply-Begun :
    (hal : Hal) (p : Platform) (y : Endpoint hal p) → At hal p (Begun hal) (begin_apply hal p y)
begin_apply-Begun hal p y =
    begin_apply_keeps (Begun-CallbackRules hal p) (Begun-WriteRules hal) y
      (Begun-begin_state hal y.state y.lamp y.hardware)

module _ {hal : Hal} {p : Platform} {K : State → Lamp → hal.World → Type 0}
    (calls : CallbackRules hal p K) (writes : WriteRules hal K) where
  pub apply_keeps :
      (cfg : Option MqttCfg) (y : Endpoint hal p) → At hal p K y → At hal p K (apply hal p cfg y).1
  unfolding apply
  apply_keeps cfg y k =
      apply_values_keeps calls writes cfg (begin_apply hal p y) (begin_apply-Begun hal p y)
        (begin_apply_keeps calls writes y (writes.begins y.state y.lamp y.hardware k))

  pub load_and_apply_keeps :
      {d : Doubles} (j : CJson d) (y : Endpoint hal p)
      → At hal p K y
      → At hal p K (load_and_apply hal p j y).1
  unfolding load_and_apply
  load_and_apply_keeps j y k =
      let y' = (load j hal p true y).1 in
      let loaded = load_keeps calls writes j true y k in
      elim (CfgResult-cases (load j hal p true y).0) [
        | inl (e, h) ↦ ground (arith, h, loaded)
        | inr (cfg, h) ↦
            let applied = apply_keeps (some cfg) y' loaded in ground (arith, h, applied)
      ]

  -- `K` after a connection that is not made, and `R` after one that is.
  abbrev pub AfterConnect :
      (State → Lamp → hal.World → Type 0) → Option (Option CfgError) × Endpoint hal p → Type 0
  AfterConnect R (some none, y) = At hal p R y
  AfterConnect R (some (some e), y) = At hal p K y
  AfterConnect R (none, y) = At hal p K y

  -- What a release of the barrier makes of `K`.
  abbrev pub Releases : (State → Lamp → hal.World → Type 0) → Type 0
  Releases R =
      (t : State) (l : Lamp) (w : hal.World)
      → K t l w
      → let (status, l', w') = release_fail_off hal l w in R t l' w'

  establish_keeps :
      (R : State → Lamp → hal.World → Type 0) (y : Endpoint hal p)
      → Releases R
      → At hal p K y
      → At hal p R (establish hal p y)
  unfolding establish
  establish_keeps R y release k =
      let waited : Endpoint hal p = record y {
        state = record (y.state) { waiting_for_connection = false };
      } in
      let z = during hal p p.preempt waited in
      release z.state z.lamp z.hardware
        (during_keeps hal p calls p.preempt waited (writes.ends_wait y.state y.lamp y.hardware k))

  refuse_mutated_keeps : (y : Endpoint hal p) → At hal p K y → At hal p K (refuse_mutated hal p y)
  unfolding refuse_mutated
  refuse_mutated_keeps y k =
      let closed : Endpoint hal p = record y {
        state = record (no_session y.state) { verified_applied = false };
      } in
      fail_off_keeps hal p calls (during hal p p.client_deinit closed) (
        during_keeps hal p calls p.client_deinit closed (
          writes.closes (no_session y.state) y.lamp y.hardware
            (calls.lost y.state y.lamp y.hardware k)))

  expire_keeps : (y : Endpoint hal p) → At hal p K y → At hal p K (expire hal p y)
  unfolding expire
  expire_keeps y k =
      fail_off_keeps hal p calls (record y { state = no_session y.state })
        (calls.lost y.state y.lamp y.hardware k)

  reject_start_keeps : (y : Endpoint hal p) → At hal p K y → At hal p K (reject_start hal p y)
  unfolding reject_start
  reject_start_keeps y k =
      let open_state = record (y.state) { waiting_for_connection = false } in
      let closed : Endpoint hal p = record y {
        state = record (y.state) { verified_applied = false; waiting_for_connection = false };
      } in
      fail_off_keeps hal p calls (during hal p p.client_deinit closed) (
        during_keeps hal p calls p.client_deinit closed (
          writes.closes open_state y.lamp y.hardware
            (writes.ends_wait y.state y.lamp y.hardware k)))

  start_transport_keeps : (y : Endpoint hal p) → At hal p K y → At hal p K (start_transport hal p y)
  unfolding start_transport
  start_transport_keeps y k =
      let down = during hal p p.client_deinit y in
      let begun : Endpoint hal p = record down { state = begin_wait down.state } in
      during_keeps hal p calls p.client_init begun (
        writes.waits down.state down.lamp down.hardware
          (during_keeps hal p calls p.client_deinit y k))

  poll_rules :
      (R : State → Lamp → hal.World → Type 0)
      → Releases R
      → PollRules hal p (At hal p K) (AfterConnect R)
  poll_rules R release = record {
    waits = λ step y k. during_keeps hal p calls (p.delay step) y k;
    ends = λ y k. k;
    connects = λ y k seen. establish_keeps R y release k;
    mutates = λ y k. refuse_mutated_keeps y k;
    fails = λ y e k failed. k;
    expires = λ y k. expire_keeps y k;
  }

  pub connect_keeps :
      (R : State → Lamp → hal.World → Type 0) (timeout : ℕ) (y : Endpoint hal p)
      → Releases R
      → At hal p K y
      → AfterConnect R (connect hal p timeout y)
  unfolding connect
  connect_keeps R timeout y release k = elim (Bool-cases (may_start hal p y)) [
    | inl m ↦
        let looped =
          connect_loop_rule hal p (poll_rules R release) (connect_fuel timeout) timeout 0
            (start_transport hal p y) (start_transport_keeps y k) in
        rw m looped
    | inr m ↦ rw m (reject_start_keeps y k)
  ]
