-- ===== src/MqttCfg/Closed.antt =====
-- mqtt_cfg.c: a configuration that is refused closes the gate of mqtt_cfg_connect.
use hq_led_lamp.Common.{
  ℕ, ◌≡◌, refl, ap, sym, subst, Bool, true, false, false≢true, Option, none, some, inl, inr, List,
  [], ◌∷◌, arith,
}
use hq_led_lamp.Json.{Doubles, CJson}
use hq_led_lamp.Lamp.Hal.{Hal, HalLaws}
use hq_led_lamp.Lamp.Control.{Lamp}
use hq_led_lamp.MqttCfg.Types.{CfgError, CfgResult-cases, MqttCfg}
use hq_led_lamp.MqttCfg.Platform.{
  Event, Verified, Platform, State, Endpoint, access, close_gate, fail_off_lamp, on_event, deliver,
  during,
}
use hq_led_lamp.MqttCfg.Dark.{IsBlocked}
use hq_led_lamp.MqttCfg.Callbacks.{At, CallbackRules, fail_off_keeps, during_keeps}
use hq_led_lamp.MqttCfg.Refused.{Obeys, Live-CallbackRules, Live-WriteRules}
use hq_led_lamp.MqttCfg.Failed.{reject_start-BlockedAt}
use hq_led_lamp.MqttCfg.Load.{refuse, load, validate}
use hq_led_lamp.MqttCfg.Apply.{
  begin_apply, hand_over, apply_checked, apply_values, apply, load_and_apply,
}
use hq_led_lamp.MqttCfg.Connect.{may_start, reject_start, connect}
use hq_led_lamp.MqttCfg.Trace.{Op, configures, error_of, is_session, step, step_keeps}

module _ (hal : Hal) (p : Platform) where
  abbrev Closed : Endpoint hal p → Type 0
  Closed y = y.state.verified_applied ≡ false

  fail_off-Closed : (y : Endpoint hal p) → Closed y → Closed (fail_off_lamp hal p y)
  unfolding fail_off_lamp
  fail_off-Closed y c = c

  refuse-Closed :
      {d : Doubles} (j : CJson d) (e : CfgError) (y : Endpoint hal p)
      → Closed (refuse j hal p e y).1
  unfolding refuse
  refuse-Closed j e y = fail_off-Closed (close_gate hal p y) refl

  load-Closed :
      {d : Doubles} (j : CJson d) (has_out : Bool) (y : Endpoint hal p) (e : CfgError)
      → error_of (load j hal p has_out y).0 ≡ some e
      → Closed (load j hal p has_out y).1
  unfolding load
  load-Closed j false y e h = refuse-Closed j CfgError.invalid_argument y
  load-Closed j true y e h = grind (arith, refuse-Closed)

  validate-Closed :
      (cfg : Option MqttCfg) (y : Endpoint hal p) (e : CfgError)
      → (validate hal p cfg y).0 ≡ some e
      → Closed (validate hal p cfg y).1
  unfolding validate
  validate-Closed cfg y e h = ground (arith, h, fail_off-Closed (close_gate hal p y) refl)

  begin_apply-Closed : (y : Endpoint hal p) → Closed (begin_apply hal p y)
  unfolding begin_apply
  begin_apply-Closed y = refl

  hand_over-Closed :
      (v : Verified) (y : Endpoint hal p) (e : CfgError)
      → Closed y
      → (hand_over hal p v y).0 ≡ some e
      → Closed (hand_over hal p v y).1
  unfolding hand_over
  hand_over-Closed v y e c h =
      let z : Endpoint hal p = record y { world = (p.apply_verified v y.world).1 } in
      ground (arith, h, fail_off-Closed z c)

  apply_values-Closed :
      (cfg : Option MqttCfg) (y : Endpoint hal p) (e : CfgError)
      → Closed y
      → (apply_values hal p cfg y).0 ≡ some e
      → Closed (apply_values hal p cfg y).1
  unfolding apply_values apply_checked
  apply_values-Closed none y e c h = fail_off-Closed y c
  apply_values-Closed (some cfg) y e c h = grind (arith, fail_off-Closed, hand_over-Closed)

  apply-Closed :
      (cfg : Option MqttCfg) (y : Endpoint hal p) (e : CfgError)
      → (apply hal p cfg y).0 ≡ some e
      → Closed (apply hal p cfg y).1
  unfolding apply
  apply-Closed cfg y e h = apply_values-Closed cfg (begin_apply hal p y) e (begin_apply-Closed y) h

  load_and_apply-Closed :
      {d : Doubles} (j : CJson d) (y : Endpoint hal p) (e : CfgError)
      → (load_and_apply hal p j y).0 ≡ some e
      → Closed (load_and_apply hal p j y).1
  unfolding load_and_apply
  load_and_apply-Closed j y e h =
      let y' = (load j hal p true y).1 in
      elim (CfgResult-cases (load j hal p true y).0) [
        | inl (e', c) ↦ ground (arith, c, load-Closed j true y e' (ap error_of c))
        | inr (cfg, c) ↦ ground (arith, c, h, apply-Closed (some cfg) y' e)
      ]

  step-Closed :
      {d : Doubles} (j : CJson d) (op : Op) (y : Endpoint hal p) (e : CfgError)
      → configures op ≡ true
      → (step j hal p op y).0 ≡ some (some e)
      → Closed (step j hal p op y).1
  unfolding step
  step-Closed j (Op.loads has_out) y e is h = load-Closed j has_out y e cc
  step-Closed j (Op.validates cfg) y e is h = validate-Closed cfg y e cc
  step-Closed j Op.loads_and_applies y e is h = load_and_apply-Closed j y e cc
  step-Closed j (Op.applies cfg) y e is h = apply-Closed cfg y e cc
  step-Closed j (Op.connects timeout) y e is h = absurd cc
  step-Closed j (Op.notifies event) y e is h = absurd cc

  -- The latch is clear, and no connect waits.
  abbrev Shut : State → Lamp → hal.World → Type 0
  Shut t l w = (t.verified_applied ≡ false) × (t.waiting_for_connection ≡ false)

  Shut-CallbackRules : CallbackRules hal p Shut
  unfolding access
  Shut-CallbackRules = record {
    forced = λ t l w s. s;
    accessed = λ a t l w s. ground (arith, s);
    lost = λ t l w s. (s.0, refl);
  }

  deliver-world : (es : List Event) (y : Endpoint hal p) → (deliver hal p es y).world ≡ y.world
  unfolding deliver on_event fail_off_lamp
  deliver-world [] y = refl
  deliver-world (Event.accesses a ∷ es) y = deliver-world es (on_event hal p (Event.accesses a) y)
  deliver-world (Event.forces ∷ es) y = deliver-world es (on_event hal p Event.forces y)

  abbrev shut : Endpoint hal p → Endpoint hal p
  shut y = record y {
    state = record (y.state) { verified_applied = false; waiting_for_connection = false };
  }

  reject_start-Shut : (y : Endpoint hal p) → At hal p Shut (reject_start hal p y)
  unfolding reject_start
  reject_start-Shut y =
      fail_off_keeps hal p Shut-CallbackRules (during hal p p.client_deinit (shut y))
        (during_keeps hal p Shut-CallbackRules p.client_deinit (shut y) (refl, refl))

  reject_start-world :
      (y : Endpoint hal p) → (reject_start hal p y).world ≡ (p.client_deinit y.world).1
  unfolding reject_start fail_off_lamp
  reject_start-world y =
      deliver-world (p.client_deinit y.world).0
        (record (shut y) { world = (p.client_deinit y.world).1 })

  connect-Closed :
      (timeout : ℕ) (y : Endpoint hal p)
      → Closed y
      → connect hal p timeout y ≡ (some (some CfgError.not_applied), reject_start hal p y)
  unfolding connect may_start
  connect-Closed timeout y c = ground (arith, c)

module _ {hal : Hal} (laws : HalLaws hal) (p : Platform) (obeys : Obeys hal) {d : Doubles}
    (j : CJson d) where
  refused-initialized :
      (op : Op) (y : Endpoint hal p)
      → configures op ≡ true
      → y.lamp.initialized ≡ true
      → (step j hal p op y).1.lamp.initialized ≡ true
  unfolding is_session
  refused-initialized op y is live =
      step_keeps j (Live-CallbackRules laws p obeys) (Live-WriteRules laws p obeys) op y
        (no_session_of op is) live
    where
      no_session_of : (o : Op) → configures o ≡ true → is_session o (step j hal p op y).0 ≡ false
      no_session_of (Op.loads has_out) i = refl
      no_session_of (Op.validates cfg) i = refl
      no_session_of Op.loads_and_applies i = refl
      no_session_of (Op.applies cfg) i = refl
      no_session_of (Op.connects timeout) i = absurd (false≢true i)
      no_session_of (Op.notifies e) i = absurd (false≢true i)

  -- With a lamp that has been initialized, on a hardware that never refuses to force an output inactive:
  -- after a mqtt_cfg_load, validate, load_and_apply or apply that returns an error, mqtt_cfg_connect
  -- returns MQTT_CFG_ERR_NOT_APPLIED. All that it has done to the platform is to discard the session, so
  -- the transport is not started; the latch is clear, no connect waits, the lamp's barrier is latched and
  -- every tracked channel is off.
  pub refused-connect :
      (op : Op) (timeout : ℕ) (y : Endpoint hal p) (e : CfgError)
      → configures op ≡ true
      → y.lamp.initialized ≡ true
      → (step j hal p op y).0 ≡ some (some e)
      → let (status, y') = step j hal p op y in
        let (refused, z) = connect hal p timeout y' in
        (refused ≡ some (some CfgError.not_applied))
        × (z.world ≡ (p.client_deinit y'.world).1)
        × (z.state.verified_applied ≡ false)
        × (z.state.waiting_for_connection ≡ false)
        × IsBlocked laws z.lamp z.hardware
  refused-connect op timeout y e is live h =
      let y' = (step j hal p op y).1 in
      let same = connect-Closed hal p timeout y' (step-Closed hal p j op y e is h) in
      let live' = refused-initialized op y is live in
      subst
        (λ r.
          (r.0 ≡ some (some CfgError.not_applied))
          × (r.1.world ≡ (p.client_deinit y'.world).1)
          × (r.1.state.verified_applied ≡ false)
          × (r.1.state.waiting_for_connection ≡ false)
          × IsBlocked laws r.1.lamp r.1.hardware)
        (sym same)
        (
          refl,
          reject_start-world hal p y',
          (reject_start-Shut hal p y').0,
          (reject_start-Shut hal p y').1,
          reject_start-BlockedAt laws p obeys y' live',
        )
