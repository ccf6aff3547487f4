-- ===== src/MqttCfg/Invariants.antt =====
-- mqtt_cfg.c: the invariants of a run: the lamp behind its barrier, and the generations.
use hq_led_lamp.Common.{◌<◌, ◌≡◌, true, false, List, [], ◌∷◌, arith}
use hq_led_lamp.Json.{Doubles, CJson}
use hq_led_lamp.Lamp.Hal.{Hal, HalLaws}
use hq_led_lamp.Lamp.Control.{Lamp}
use hq_led_lamp.MqttCfg.Platform.{Platform, State, Endpoint, access}
use hq_led_lamp.MqttCfg.Apply.{next_generation, begin_state}
use hq_led_lamp.MqttCfg.Dark.{IsBlocked, force_inactive-IsBlocked}
use hq_led_lamp.MqttCfg.Callbacks.{CallbackRules}
use hq_led_lamp.MqttCfg.Preserved.{WriteRules}
use hq_led_lamp.MqttCfg.Trace.{Op, step, run, step_keeps, step_keeps_all}

module _ {hal : Hal} (laws : HalLaws hal) (p : Platform) where
  abbrev Blocked : State → Lamp → hal.World → Type 0
  Blocked t l w = IsBlocked laws l w

  Blocked-CallbackRules : CallbackRules hal p Blocked
  Blocked-CallbackRules = record {
    forced = λ t l w b. force_inactive-IsBlocked laws l w b;
    accessed = λ a t l w b. b;
    lost = λ t l w b. b;
  }

  Blocked-WriteRules : WriteRules hal Blocked
  Blocked-WriteRules = record {
    closes = λ t l w b. b;
    latches = λ t l w begun b. b;
    begins = λ t l w b. b;
    waits = λ t l w b. b;
    ends_wait = λ t l w b. b;
  }

  -- Once the lamp is blocked, that is, its barrier is latched and every tracked channel is off, no sequence
  -- of loads, validations, applies, connects and steps of transport callbacks unblocks it, unless one of the
  -- connects returns MQTT_CFG_OK.
  pub run-IsBlocked :
      {d : Doubles} (j : CJson d) (ops : List Op) (y : Endpoint hal p)
      → (run j hal p ops y).0 ≡ false
      → IsBlocked laws y.lamp y.hardware
      → IsBlocked laws (run j hal p ops y).1.lamp (run j hal p ops y).1.hardware
  unfolding run
  run-IsBlocked j [] y h b = b
  run-IsBlocked j (op ∷ ops) y h b =
      let (status, y1) = step j hal p op y in
      let b1 = step_keeps j Blocked-CallbackRules Blocked-WriteRules op y (ground (arith, h)) b in
      run-IsBlocked j ops y1 (ground (arith, h)) b1

-- The generation fits its type, and the latch stands for an apply that has happened.
pub record IsCurrent (t : State) : Type 0 where
  pub bounded : t.apply_generation < 4294967296
  pub applied : t.verified_applied ≡ true → 0 < t.apply_generation

module _ (hal : Hal) (p : Platform) where
  abbrev Sound : State → Lamp → hal.World → Type 0
  Sound t l w = IsCurrent t

  Sound-CallbackRules : CallbackRules hal p Sound
  unfolding access
  Sound-CallbackRules = record {
    forced = λ t l w s. s;
    accessed = λ a t l w s. ground (arith, s);
    lost = λ t l w s. ground (arith, s);
  }

  Sound-WriteRules : WriteRules hal Sound
  unfolding begin_state next_generation
  Sound-WriteRules = record {
    closes = λ t l w s. ground (arith, s);
    latches = λ t l w begun s. ground (arith, s);
    begins = λ t l w s. ground (arith, s);
    waits = λ t l w s. ground (arith, s);
    ends_wait = λ t l w s. ground (arith, s);
  }

  -- From a state where it holds, whatever is called and wherever the transport's callbacks are cut: the
  -- apply generation stays within 32 bits, and the latch is set only while it is not 0, the value that
  -- stands for no connection.
  pub run-IsCurrent :
      {d : Doubles} (j : CJson d) (ops : List Op) (y : Endpoint hal p)
      → IsCurrent y.state
      → IsCurrent (run j hal p ops y).1.state
  unfolding run
  run-IsCurrent j [] y s = s
  run-IsCurrent j (op ∷ ops) y s =
      let (status, y1) = step j hal p op y in
      let s1 = step_keeps_all j Sound-CallbackRules Sound-WriteRules op y (λ t l w k. k) s in
      run-IsCurrent j ops y1 s1
