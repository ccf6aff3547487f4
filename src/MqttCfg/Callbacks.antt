-- ===== src/MqttCfg/Callbacks.antt =====
-- mqtt_cfg.c: what the transport's callbacks and the fail-off keep, for any predicate on the static
-- variables, the lamp and its hardware.
use hq_led_lamp.Common.{List, [], ◌∷◌}
use hq_led_lamp.Lamp.Hal.{Hal}
use hq_led_lamp.Lamp.Control.{Lamp}
use hq_led_lamp.Lamp.Operations.{force_inactive}
use hq_led_lamp.MqttCfg.Platform.{
  Access, Event, Platform, State, Endpoint, access, no_session, fail_off_lamp, on_event, deliver,
  during,
}

module _ (hal : Hal) (p : Platform) where
  abbrev pub At : (State → Lamp → hal.World → Type 0) → Endpoint hal p → Type 0
  At K y = K y.state y.lamp y.hardware

  -- What a callback does, and a fail-off.
  pub record CallbackRules (K : State → Lamp → hal.World → Type 0) : Type 0 where
    pub forced :
        (t : State) (l : Lamp) (w : hal.World)
        → K t l w
        → let (status, l', w') = force_inactive hal l w in K t l' w'
    pub accessed :
        (a : Access) (t : State) (l : Lamp) (w : hal.World) → K t l w → K (access a t) l w
    pub lost : (t : State) (l : Lamp) (w : hal.World) → K t l w → K (no_session t) l w

  module _ {K : State → Lamp → hal.World → Type 0} (rules : CallbackRules K) where
    pub fail_off_keeps : (y : Endpoint hal p) → At K y → At K (fail_off_lamp hal p y)
    unfolding fail_off_lamp
    fail_off_keeps y k = rules.forced y.state y.lamp y.hardware k

    pub on_event_keeps : (e : Event) (y : Endpoint hal p) → At K y → At K (on_event hal p e y)
    unfolding on_event
    on_event_keeps (Event.accesses a) y k = rules.accessed a y.state y.lamp y.hardware k
    on_event_keeps Event.forces y k = fail_off_keeps y k

    pub deliver_keeps : (es : List Event) (y : Endpoint hal p) → At K y → At K (deliver hal p es y)
    unfolding deliver
    deliver_keeps [] y k = k
    deliver_keeps (e ∷ es) y k = deliver_keeps es (on_event hal p e y) (on_event_keeps e y k)

    pub during_keeps :
        (call : p.files.World → List Event × p.files.World) (y : Endpoint hal p)
        → At K y
        → At K (during hal p call y)
    during_keeps call y k =
        let (events, w') = call y.world in deliver_keeps events (record y { world = w' }) k
