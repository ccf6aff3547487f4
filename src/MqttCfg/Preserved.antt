-- ===== src/MqttCfg/Preserved.antt =====
-- mqtt_cfg.c: what every operation keeps, for any predicate on the static variables, the lamp and its
-- hardware that the callbacks and the single writes keep.
use hq_led_lamp.Common.{◌<◌, Bool, true, false, Option, none, some, arith, if◌then◌else◌}
use hq_led_lamp.Json.{Doubles, CJson}
use hq_led_lamp.Lamp.Hal.{Hal}
use hq_led_lamp.Lamp.Control.{Lamp}
use hq_led_lamp.MqttCfg.Types.{CfgError, MqttCfg}
use hq_led_lamp.MqttCfg.Platform.{
  access, Verified, Platform, State, Endpoint, close_gate, fail_off_lamp, during,
}
use hq_led_lamp.MqttCfg.Load.{refuse, load, validate}
use hq_led_lamp.MqttCfg.Apply.{
  next_generation, begin_state, begin_apply, hand_over, apply_checked, apply_values, verified_of,
  is_token_mode,
}
use hq_led_lamp.MqttCfg.Connect.{begin_wait}
use hq_led_lamp.MqttCfg.Callbacks.{At, CallbackRules, fail_off_keeps, during_keeps}

-- The single writes to the static variables. The latch is set only after an apply has begun.
pub record WriteRules (hal : Hal) (K : State → Lamp → hal.World → Type 0) : Type 0 where
  pub closes :
      (t : State) (l : Lamp) (w : hal.World)
      → K t l w
      → K (record t { verified_applied = false }) l w
  pub latches :
      (t : State) (l : Lamp) (w : hal.World)
      → 0 < t.apply_generation
      → K t l w
      → K (record t { verified_applied = true }) l w
  pub begins : (t : State) (l : Lamp) (w : hal.World) → K t l w → K (begin_state t) l w
  pub waits : (t : State) (l : Lamp) (w : hal.World) → K t l w → K (begin_wait t) l w
  pub ends_wait :
      (t : State) (l : Lamp) (w : hal.World)
      → K t l w
      → K (record t { waiting_for_connection = false }) l w

-- An apply has begun at least once.
abbrev pub Begun : (hal : Hal) → State → Lamp → hal.World → Type 0
Begun hal t l w = 0 < t.apply_generation

pub Begun-CallbackRules : (hal : Hal) (p : Platform) → CallbackRules hal p (Begun hal)
unfolding access
Begun-CallbackRules hal p = record {
  forced = λ t l w k. k;
  accessed = λ a t l w k. ground (arith, k);
  lost = λ t l w k. k;
}

pub Begun-begin_state :
    (hal : Hal) (t : State) (l : Lamp) (w : hal.World) → Begun hal (begin_state t) l w
unfolding begin_state next_generation
Begun-begin_state hal t l w = ground arith

pub Begun-WriteRules : (hal : Hal) → WriteRules hal (Begun hal)
Begun-WriteRules hal = record {
  closes = λ t l w k. k;
  latches = λ t l w begun k. k;
  begins = λ t l w k. Begun-begin_state hal t l w;
  waits = λ t l w k. k;
  ends_wait = λ t l w k. k;
}

module _ {hal : Hal} {p : Platform} {K : State → Lamp → hal.World → Type 0}
    (calls : CallbackRules hal p K) (writes : WriteRules hal K) where
  refuse_keeps :
      {d : Doubles} (j : CJson d) (e : CfgError) (y : Endpoint hal p)
      → At hal p K y
      → At hal p K (refuse j hal p e y).1
  unfolding refuse
  refuse_keeps j e y k =
      fail_off_keeps hal p calls (close_gate hal p y) (writes.closes y.state y.lamp y.hardware k)

  pub load_keeps :
      {d : Doubles} (j : CJson d) (has_out : Bool) (y : Endpoint hal p)
      → At hal p K y
      → At hal p K (load j hal p has_out y).1
  unfolding load
  load_keeps j false y k = refuse_keeps j CfgError.invalid_argument y k
  load_keeps j true y k = grind (arith, refuse_keeps)

  pub validate_keeps :
      (cfg : Option MqttCfg) (y : Endpoint hal p)
      → At hal p K y
      → At hal p K (validate hal p cfg y).1
  unfolding validate
  validate_keeps cfg y k =
      let closed =
        fail_off_keeps hal p calls (close_gate hal p y)
          (writes.closes y.state y.lamp y.hardware k) in
      ground (arith, k, closed)

  -- The first half of an apply, for any predicate that its first writes establish.
  pub begin_apply_keeps :
      (y : Endpoint hal p)
      → K (begin_state y.state) y.lamp y.hardware
      → At hal p K (begin_apply hal p y)
  unfolding begin_apply
  begin_apply_keeps y k =
      let closed : Endpoint hal p = record y {
        state = begin_state y.state;
        world = p.invalidate_verified y.world;
      } in
      let off = if p.is_connected closed.world then fail_off_lamp hal p closed else closed in
      let kept : At hal p K off = off_keeps closed k in
      let down = during hal p p.client_deinit off in
      writes.closes down.state down.lamp down.hardware
        (during_keeps hal p calls p.client_deinit off kept)
    where
      off_keeps :
          (z : Endpoint hal p)
          → At hal p K z
          → At hal p K (if p.is_connected z.world then fail_off_lamp hal p z else z)
      off_keeps z k = ground (arith, k, fail_off_keeps hal p calls z k)

  pub hand_over_keeps :
      (v : Verified) (y : Endpoint hal p)
      → 0 < y.state.apply_generation
      → At hal p K y
      → At hal p K (hand_over hal p v y).1
  unfolding hand_over
  hand_over_keeps v y begun k =
      let z : Endpoint hal p = record y { world = (p.apply_verified v y.world).1 } in
      let off = fail_off_keeps hal p calls z k in
      let latched = writes.latches y.state y.lamp y.hardware begun k in ground (arith, off, latched)

  pub apply_values_keeps :
      (cfg : Option MqttCfg) (y : Endpoint hal p)
      → 0 < y.state.apply_generation
      → At hal p K y
      → At hal p K (apply_values hal p cfg y).1
  unfolding apply_values apply_checked
  apply_values_keeps none y begun k = fail_off_keeps hal p calls y k
  apply_values_keeps (some cfg) y begun k =
      let off = fail_off_keeps hal p calls y k in
      let v =
        verified_of cfg (if is_token_mode cfg.auth_mode then p.identity_token y.world else none) in
      let handed = hand_over_keeps v y begun k in ground (arith, off, handed)
