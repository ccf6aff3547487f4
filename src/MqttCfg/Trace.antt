-- ===== src/MqttCfg/Trace.antt =====
-- mqtt_cfg.c: the public functions and the transport's callbacks in any order.
use hq_led_lamp.Common.{
  ℕ, ◌≡◌, Bool, true, false, ◌||◌, Option, none, some, List, [], ◌∷◌, false≢true, sym,
}
use hq_led_lamp.Json.{Doubles, CJson}
use hq_led_lamp.Lamp.Hal.{Hal}
use hq_led_lamp.Lamp.Control.{Lamp}
use hq_led_lamp.MqttCfg.Types.{CfgError, CfgResult, MqttCfg}
use hq_led_lamp.MqttCfg.Platform.{Event, Platform, State, Endpoint, on_event}
use hq_led_lamp.MqttCfg.Load.{load, validate}
use hq_led_lamp.MqttCfg.Apply.{apply, load_and_apply}
use hq_led_lamp.MqttCfg.Connect.{connect}
use hq_led_lamp.MqttCfg.Callbacks.{At, CallbackRules, on_event_keeps}
use hq_led_lamp.MqttCfg.Preserved.{WriteRules, load_keeps, validate_keeps}
use hq_led_lamp.MqttCfg.Kept.{
  AfterConnect, Releases, apply_keeps, load_and_apply_keeps, connect_keeps,
}

-- A call of the module, or of one of its callbacks by the transport.
pub data Op : Type 0 where
  loads : Bool → Op
  validates : Option MqttCfg → Op
  loads_and_applies : Op
  applies : Option MqttCfg → Op
  connects : ℕ → Op
  notifies : Event → Op

abbrev pub error_of {ℓ} : {A : Type ℓ} → CfgResult A → Option CfgError
error_of (CfgResult.ok a) = none
error_of (CfgResult.err e) = some e

-- Whether a call is a mqtt_cfg_connect that returned MQTT_CFG_OK.
unfoldable pub is_session : Op → Option (Option CfgError) → Bool
is_session (Op.connects timeout) (some none) = true
is_session _ _ = false

-- A call that loads, checks or applies a configuration.
abbrev pub configures : Op → Bool
configures (Op.loads has_out) = true
configures (Op.validates cfg) = true
configures Op.loads_and_applies = true
configures (Op.applies cfg) = true
configures (Op.connects timeout) = false
configures (Op.notifies e) = false

module _ {d : Doubles} (j : CJson d) (hal : Hal) (p : Platform) where
  -- The status, with none for MQTT_CFG_OK, and the new state.
  unfoldable pub step : Op → Endpoint hal p → Option (Option CfgError) × Endpoint hal p
  step (Op.loads has_out) y = let (r, y') = load j hal p has_out y in (some (error_of r), y')
  step (Op.validates cfg) y = let (e, y') = validate hal p cfg y in (some e, y')
  step Op.loads_and_applies y = let (e, y') = load_and_apply hal p j y in (some e, y')
  step (Op.applies cfg) y = let (e, y') = apply hal p cfg y in (some e, y')
  step (Op.connects timeout) y = connect hal p timeout y
  step (Op.notifies e) y = (some none, on_event hal p e y)

  -- Whether a connection was made, and the state at the end.
  unfoldable pub run : List Op → Endpoint hal p → Bool × Endpoint hal p
  run [] y = (false, y)
  run (op ∷ ops) y =
      let (status, y1) = step op y in
      let (later, y2) = run ops y1 in (is_session op status || later, y2)

module _ {d : Doubles} (j : CJson d) {hal : Hal} {p : Platform}
    {K : State → Lamp → hal.World → Type 0} (calls : CallbackRules hal p K)
    (writes : WriteRules hal K) where
  connect_unless :
      (R : State → Lamp → hal.World → Type 0) (timeout : ℕ)
      (r : Option (Option CfgError) × Endpoint hal p)
      → is_session (Op.connects timeout) r.0 ≡ false
      → AfterConnect calls writes R r
      → At hal p K r.1
  unfolding is_session
  connect_unless R timeout (none, y) h k = k
  connect_unless R timeout (some (some e), y) h k = k
  connect_unless R timeout (some none, y) h k = absurd (false≢true (sym h))

  -- A step that is no successful connection keeps `K`.
  pub step_keeps :
      (op : Op) (y : Endpoint hal p)
      → is_session op (step j hal p op y).0 ≡ false
      → At hal p K y
      → At hal p K (step j hal p op y).1
  unfolding step is_session
  step_keeps (Op.loads has_out) y h k = load_keeps calls writes j has_out y k
  step_keeps (Op.validates cfg) y h k = validate_keeps calls writes cfg y k
  step_keeps Op.loads_and_applies y h k = load_and_apply_keeps calls writes j y k
  step_keeps (Op.applies cfg) y h k = apply_keeps calls writes cfg y k
  step_keeps (Op.connects timeout) y h k =
      connect_unless (λ t l w. Unit) timeout (connect hal p timeout y) h
        (connect_keeps calls writes (λ t l w. Unit) timeout y (λ t l w k. tt) k)
  step_keeps (Op.notifies e) y h k = on_event_keeps hal p calls e y k

  after_connect :
      (r : Option (Option CfgError) × Endpoint hal p)
      → AfterConnect calls writes K r
      → At hal p K r.1
  after_connect (none, y) k = k
  after_connect (some none, y) k = k
  after_connect (some (some e), y) k = k

  -- Where a release of the barrier keeps `K` too, every step does.
  pub step_keeps_all :
      (op : Op) (y : Endpoint hal p)
      → Releases calls writes K
      → At hal p K y
      → At hal p K (step j hal p op y).1
  unfolding step
  step_keeps_all (Op.loads has_out) y release k = load_keeps calls writes j has_out y k
  step_keeps_all (Op.validates cfg) y release k = validate_keeps calls writes cfg y k
  step_keeps_all Op.loads_and_applies y release k = load_and_apply_keeps calls writes j y k
  step_keeps_all (Op.applies cfg) y release k = apply_keeps calls writes cfg y k
  step_keeps_all (Op.connects timeout) y release k =
      after_connect (connect hal p timeout y) (connect_keeps calls writes K timeout y release k)
  step_keeps_all (Op.notifies e) y release k = on_event_keeps hal p calls e y k
