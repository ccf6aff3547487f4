-- ===== src/MqttCfg/Established.antt =====
-- mqtt_cfg.c: what mqtt_cfg_connect has seen when it returns MQTT_CFG_OK.
use hq_led_lamp.Common.{
  ℕ, ◌<◌, ◌≡◌, ◌≢◌, refl, ap, sym, ◌∙◌, Bool, true, false, Option, none, some, inl, inr, List, [],
  ◌∷◌, All, Bool-cases, arith,
}
use hq_led_lamp.Lamp.Hal.{Hal}
use hq_led_lamp.Lamp.Operations.{release_fail_off}
use hq_led_lamp.MqttCfg.Types.{CfgError}
use hq_led_lamp.MqttCfg.Platform.{
  Access, Event, Platform, Endpoint, access, on_disconnect, fail_off_lamp, on_event, deliver,
  during,
}
use hq_led_lamp.MqttCfg.Connect.{
  begin_wait, establish, connect_fuel, connect_loop, start_transport, may_start, connect,
}
use hq_led_lamp.MqttCfg.Callbacks.{during_keeps}
use hq_led_lamp.MqttCfg.Preserved.{Begun-CallbackRules}
use hq_led_lamp.MqttCfg.Waiting.{IsEstablished, PollRules, connect_loop_rule}
use hq_led_lamp.MqttCfg.Invariants.{IsCurrent}

-- The steps of callbacks among which no connection is reported.
abbrev pub is_connection : Event → Bool
is_connection (Event.accesses Access.stores) = true
is_connection _ = false

abbrev pub Silent : List Event → Type 0
Silent es = All (λ e. is_connection e ≡ false) es

module _ (hal : Hal) (p : Platform) where
  -- A verified session was seen, and it decided the result.
  abbrev pub IsVerifiedResult : Option (Option CfgError) × Endpoint hal p → Type 0
  IsVerifiedResult r =
      (seen : Endpoint hal p) × IsEstablished hal p seen × (r.1 ≡ establish hal p seen)

  abbrev OnSuccess : Option (Option CfgError) × Endpoint hal p → Type 0
  OnSuccess r = r.0 ≡ some none → IsVerifiedResult r

  success_rules : PollRules hal p (λ y. Unit {0}) OnSuccess
  success_rules = record {
    waits = λ step y k. tt;
    ends = λ y k h. absurd cc;
    connects = λ y k seen h. (y, seen, refl);
    mutates = λ y k h. absurd cc;
    fails = λ y e k failed h. absurd cc;
    expires = λ y k h. absurd cc;
  }

  establish_releases : (y : Endpoint hal p) → (establish hal p y).lamp.fail_off_barrier ≡ false
  unfolding establish release_fail_off
  establish_releases y = refl

  connect_loops :
      (timeout : ℕ) (y : Endpoint hal p)
      → (connect hal p timeout y).0 ≡ some none
      → (may_start hal p y ≡ true)
        × (connect hal p timeout y
            ≡ connect_loop hal p (connect_fuel timeout) timeout 0 (start_transport hal p y))
  unfolding connect
  connect_loops timeout y h = elim (Bool-cases (may_start hal p y)) [
    | inl m ↦ (m, ground (arith, m))
    | inr m ↦ absurd (ground (arith, h, m))
  ]

  -- A mqtt_cfg_connect that returns MQTT_CFG_OK has found the latch set, the verified snapshot current and
  -- its address at hand before it started the transport; then, in one critical section, that the transport
  -- is connected with the generation of the last apply, the latch still set and the snapshot still current.
  -- That is where it releases the lamp's barrier, the last thing it does.
  pub connect-IsVerifiedResult :
      (timeout : ℕ) (y : Endpoint hal p)
      → (connect hal p timeout y).0 ≡ some none
      → (may_start hal p y ≡ true)
        × ((connect hal p timeout y).1.lamp.fail_off_barrier ≡ false)
        × IsVerifiedResult (connect hal p timeout y)
  connect-IsVerifiedResult timeout y h =
      let (m, same) = connect_loops timeout y h in
      let looped =
        connect_loop_rule hal p success_rules (connect_fuel timeout) timeout 0
          (start_transport hal p y) tt in
      let (seen, est, e) = looped (ap (λ r. r.0) (sym same) ∙ h) in
      (
        m,
        ap (λ r. r.1.lamp.fail_off_barrier) same
            ∙ ap (λ z. z.lamp.fail_off_barrier) e
            ∙ establish_releases seen,
        (seen, est, ap (λ r. r.1) same ∙ e),
      )

  -- No session counts, after an apply.
  abbrev Uncounted : Endpoint hal p → Type 0
  Uncounted y = (y.state.connected_generation ≡ 0) × (0 < y.state.apply_generation)

  on_event-Uncounted :
      (e : Event) (y : Endpoint hal p)
      → is_connection e ≡ false
      → Uncounted y
      → Uncounted (on_event hal p e y)
  unfolding on_event fail_off_lamp access
  on_event-Uncounted (Event.accesses Access.stores) y h k = absurd cc
  on_event-Uncounted (Event.accesses a) y h k = ground (arith, h, k)
  on_event-Uncounted Event.forces y h k = k

  deliver-Uncounted :
      (es : List Event) (y : Endpoint hal p)
      → Silent es
      → Uncounted y
      → Uncounted (deliver hal p es y)
  unfolding deliver
  deliver-Uncounted [] y h k = k
  deliver-Uncounted (e ∷ es) y h k =
      deliver-Uncounted es (on_event hal p e y) h.1 (on_event-Uncounted e y h.0 k)

  module _ (quiet_start : (w : p.files.World) → Silent (p.client_init w).0)
      (quiet_wait : (ms : ℕ) (w : p.files.World) → Silent (p.delay ms w).0) where
    start_transport-Uncounted :
        (y : Endpoint hal p) → 0 < y.state.apply_generation → Uncounted (start_transport hal p y)
    unfolding start_transport
    start_transport-Uncounted y begun =
        let down = during hal p p.client_deinit y in
        let kept = during_keeps hal p (Begun-CallbackRules hal p) p.client_deinit y begun in
        let z : Endpoint hal p = record down { state = begin_wait down.state } in
        deliver-Uncounted (p.client_init down.world).0
          (record z { world = (p.client_init down.world).1 }) (quiet_start down.world) (refl, kept)

    silent_rules : PollRules hal p Uncounted (λ r. r.0 ≢ some none)
    silent_rules = record {
      waits = λ step y k.
          deliver-Uncounted (p.delay step y.world).0 (record y { world = (p.delay step y.world).1 })
            (quiet_wait step y.world) k;
      ends = λ y k h. absurd cc;
      connects = λ y k seen h. absurd (omega (arith, seen.same));
      mutates = λ y k h. absurd cc;
      fails = λ y e k failed h. absurd cc;
      expires = λ y k h. absurd cc;
    }

    -- From a state in which the latch is set only after an apply, mqtt_cfg_connect does not return
    -- MQTT_CFG_OK unless mqtt_cfg_on_connect stores a generation, at the transport's start or in a delay of
    -- the loop, even if the transport was connected before and says that it still is: a session that is not
    -- reported anew does not count.
    pub connect_silent :
        (timeout : ℕ) (y : Endpoint hal p)
        → IsCurrent y.state
        → (connect hal p timeout y).0 ≢ some none
    unfolding may_start
    connect_silent timeout y sound h =
        let (m, same) = connect_loops timeout y h in
        let begun = sound.applied (ground (arith, m)) in
        connect_loop_rule hal p silent_rules (connect_fuel timeout) timeout 0
          (start_transport hal p y) (start_transport-Uncounted y begun)
          (ap (λ r. r.0) (sym same) ∙ h)

  -- The transport loses its connection between the checks of a poll and the release.
  abbrev pub LosesBeforeRelease : Type 0
  LosesBeforeRelease = (w : p.files.World) → (p.preempt w).0 ≡ on_disconnect

  establish_loses :
      (z : Endpoint hal p) → LosesBeforeRelease → (establish hal p z).state.connected_generation ≡ 0
  unfolding establish deliver on_event fail_off_lamp access
  establish_loses z loses = ground (arith, loses z.world)

  -- mqtt_cfg_on_disconnect does not take the module's lock, so a loss of the connection may come after the
  -- checks of a poll and before the release: then mqtt_cfg_connect, if it returns MQTT_CFG_OK, leaves the
  -- lamp's barrier released although mqtt_cfg_on_disconnect has cleared the session.
  pub connect_after_loss :
      (timeout : ℕ) (y : Endpoint hal p)
      → LosesBeforeRelease
      → (connect hal p timeout y).0 ≡ some none
      → let (status, y') = connect hal p timeout y in
        (y'.lamp.fail_off_barrier ≡ false) × (y'.state.connected_generation ≡ 0)
  connect_after_loss timeout y loses h =
      let (m, released, (seen, est, e)) = connect-IsVerifiedResult timeout y h in
      (released, ap (λ z. z.state.connected_generation) e ∙ establish_loses seen loses)
