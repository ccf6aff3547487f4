-- ===== src/MqttCfg/Waiting.antt =====
-- mqtt_cfg.c: the loop of mqtt_cfg_connect: what each verdict says, an induction principle, and its end.
use hq_led_lamp.Common.{
  ℕ, zero, suc, ◌+◌, ◌*◌, ◌≤◌, ◌≡◌, refl, subst, sym, true, Option, none, some, arith, Bool-cases,
  inl, inr, if◌then◌else◌,
}
use hq_led_lamp.Lamp.Hal.{Hal}
use hq_led_lamp.MqttCfg.Types.{CfgError}
use hq_led_lamp.MqttCfg.Platform.{Platform, Endpoint, during}
use hq_led_lamp.MqttCfg.Connect.{
  Verdict, verdict, establish, refuse_mutated, expire, poll_step, connect_fuel, connect_loop,
  start_transport, may_start, connect,
}

module _ (hal : Hal) (p : Platform) where
  -- What has been seen when a session counts.
  pub record IsEstablished (y : Endpoint hal p) : Type 0 where
    pub same : y.state.connected_generation ≡ y.state.apply_generation
    pub live : p.is_connected y.world ≡ true
    pub latched : y.state.verified_applied ≡ true
    pub current : p.verified_is_current y.world ≡ true

  pub verdict-IsEstablished :
      (timeout waited : ℕ) (y : Endpoint hal p)
      → verdict hal p timeout waited y ≡ Verdict.established
      → IsEstablished y
  unfolding verdict
  verdict-IsEstablished timeout waited y h = record {
    same = ground (arith, h);
    live = ground (arith, h);
    latched = ground (arith, h);
    current = ground (arith, h);
  }

  pub verdict-failed :
      (timeout waited : ℕ) (y : Endpoint hal p)
      → verdict hal p timeout waited y ≡ Verdict.failed
      → y.state.connect_failed ≡ true
  unfolding verdict
  verdict-failed timeout waited y h = ground (arith, h)

  verdict-again :
      (timeout waited : ℕ) (y : Endpoint hal p)
      → verdict hal p timeout waited y ≡ Verdict.again
      → waited ≤ timeout
      → suc waited ≤ timeout
  unfolding verdict
  verdict-again timeout waited y h = ground (arith, h)

  -- To show `Q` of a wait's result: `K` at each poll, kept by a delay, and `Q` at each way out.
  pub record PollRules {ℓ} (K : Endpoint hal p → Type ℓ)
      (Q : Option (Option CfgError) × Endpoint hal p → Type ℓ) : Type ℓ where
    pub waits : (step : ℕ) (y : Endpoint hal p) → K y → K (during hal p (p.delay step) y)
    pub ends : (y : Endpoint hal p) → K y → Q (none, y)
    pub connects : (y : Endpoint hal p) → K y → IsEstablished y → Q (some none, establish hal p y)
    pub mutates :
        (y : Endpoint hal p) → K y → Q (some (some CfgError.not_applied), refuse_mutated hal p y)
    pub fails :
        (y : Endpoint hal p) (e : CfgError)
        → K y
        → y.state.connect_failed ≡ true
        → Q (some (some e), y)
    pub expires : (y : Endpoint hal p) → K y → Q (some (some CfgError.connect), expire hal p y)

  -- A round on a verdict that is known.
  unfoldable round :
      Verdict → ℕ → ℕ → ℕ → Endpoint hal p → Option (Option CfgError) × Endpoint hal p
  round Verdict.established fuel timeout waited y = (some none, establish hal p y)
  round Verdict.mutated fuel timeout waited y =
      (some (some CfgError.not_applied), refuse_mutated hal p y)
  round Verdict.failed fuel timeout waited y =
      (some (some (if y.state.auth_rejected then CfgError.auth_rejected else CfgError.connect)), y)
  round Verdict.expired fuel timeout waited y = (some (some CfgError.connect), expire hal p y)
  round Verdict.again fuel timeout waited y =
      let step = poll_step timeout waited in
      connect_loop hal p fuel timeout (waited + step) (during hal p (p.delay step) y)

  connect_loop-round :
      (fuel timeout waited : ℕ) (y : Endpoint hal p)
      → connect_loop hal p (suc fuel) timeout waited y
        ≡ round (verdict hal p timeout waited y) fuel timeout waited y
  unfolding round connect_loop
  connect_loop-round fuel timeout waited y = ground arith

  pub connect_loop_rule {ℓ} :
      {K : Endpoint hal p → Type ℓ} {Q : Option (Option CfgError) × Endpoint hal p → Type ℓ}
      → PollRules K Q
      → (fuel timeout waited : ℕ) (y : Endpoint hal p) → K y
      → Q (connect_loop hal p fuel timeout waited y)
  unfolding round connect_loop
  connect_loop_rule r zero timeout waited y k = r.ends y k
  connect_loop_rule {K} {Q} r (suc fuel) timeout waited y k =
      subst Q (sym (connect_loop-round fuel timeout waited y))
        (decide (λ w z. connect_loop_rule r fuel timeout w z) (verdict hal p timeout waited y) refl)
    where
      decide :
          ((w : ℕ) (z : Endpoint hal p) → K z → Q (connect_loop hal p fuel timeout w z))
          → (v : Verdict) → verdict hal p timeout waited y ≡ v
          → Q (round v fuel timeout waited y)
      decide rest Verdict.established e = r.connects y k (verdict-IsEstablished timeout waited y e)
      decide rest Verdict.mutated e = r.mutates y k
      decide rest Verdict.failed e = r.fails y _ k (verdict-failed timeout waited y e)
      decide rest Verdict.expired e = r.expires y k
      decide rest Verdict.again e =
          let step = poll_step timeout waited in
          rest (waited + step) (during hal p (p.delay step) y) (r.waits step y k)

  -- With enough fuel for the rest of the wait the loop ends.
  connect_loop_total :
      (fuel timeout waited : ℕ) (y : Endpoint hal p)
      → waited ≤ timeout
      → timeout + 25 ≤ waited + 25 * fuel
      → (result : Option CfgError) × ((connect_loop hal p fuel timeout waited y).0 ≡ some result)
  unfolding round connect_loop poll_step
  connect_loop_total zero timeout waited y bound enough = absurd (omega arith)
  connect_loop_total (suc fuel) timeout waited y bound enough =
      subst (λ r. (result : Option CfgError) × (r.0 ≡ some result))
        (sym (connect_loop-round fuel timeout waited y))
        (decide (λ w z. connect_loop_total fuel timeout w z) (verdict hal p timeout waited y) refl)
    where
      decide :
          ((w : ℕ) (z : Endpoint hal p)
            → w ≤ timeout
            → timeout + 25 ≤ w + 25 * fuel
            → (result : Option CfgError) × ((connect_loop hal p fuel timeout w z).0 ≡ some result))
          → (v : Verdict) → verdict hal p timeout waited y ≡ v
          → (result : Option CfgError) × ((round v fuel timeout waited y).0 ≡ some result)
      decide rest Verdict.established e = (_, refl)
      decide rest Verdict.mutated e = (_, refl)
      decide rest Verdict.failed e = (_, refl)
      decide rest Verdict.expired e = (_, refl)
      decide rest Verdict.again e =
          let step = poll_step timeout waited in
          let more = verdict-again timeout waited y e bound in
          rest (waited + step) (during hal p (p.delay step) y) (ground (arith, more))
            (ground (arith, more, enough))

  -- mqtt_cfg_connect returns a status for every timeout: its loop polls at most timeout_ms / 25 + 2
  -- times, whatever the transport does meanwhile.
  pub connect_total :
      (timeout : ℕ) (y : Endpoint hal p)
      → (result : Option CfgError) × ((connect hal p timeout y).0 ≡ some result)
  unfolding connect
  connect_total timeout y =
      let (result, e) =
        connect_loop_total (connect_fuel timeout) timeout 0 (start_transport hal p y) (omega arith)
          (omega arith) in
      elim (Bool-cases (may_start hal p y)) [
        | inl m ↦ (result, ground (arith, m, e))
        | inr m ↦ (some CfgError.not_applied, ground (arith, m))
      ]
