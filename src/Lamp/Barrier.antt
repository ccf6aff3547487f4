-- ===== src/Lamp/Barrier.antt =====
-- lamp_control.c: the fail-off barrier. Once force_inactive has succeeded, no call but
-- release_fail_off, or an init after a deinit, can energize an output.
use hq_led_lamp.Common.{
  ℕ, ◌≡◌, ◌⊎◌, Bool, true, false, Option, List, [], ◌∷◌, All, arith, sym, false≢true,
}
use hq_led_lamp.Lamp.Types.{LampStatus, LampState}
use hq_led_lamp.Lamp.Hal.{Hal, HalLaws}
use hq_led_lamp.Lamp.Control.{
  Lamp, tracked, status_is_ok, fail_off, release_channels, reset_released_state,
}
use hq_led_lamp.Lamp.Operations.{reject, apply_state, force_inactive, deinit}
use hq_led_lamp.Lamp.Off.{AllOff, fail_off-AllOff}
use hq_led_lamp.Lamp.Quiet.{AllOff-mono, release_reference_keeps}
use hq_led_lamp.Lamp.Release.{release_channels-eq-reference}
use hq_led_lamp.Lamp.Valid.{IsValid, force_inactive-IsValid}
use hq_led_lamp.Lamp.Electric.{fail_off_keeps}
use hq_led_lamp.Lamp.Trace.{Op, step, run, step-IsValid}

-- The calls that may lift the barrier.
unfoldable pub reenables : Op → Bool
reenables (Op.init c) = true
reenables Op.release = true
reenables _ = false

abbrev pub Blocks : List Op → Type 0
Blocks ops = All (λ op. reenables op ≡ false) ops

module _ {hal : Hal} (laws : HalLaws hal) where
  open hal use {World}
  open laws use {IsOff}

  force_inactive-AllOff :
      (s : Lamp) (w : World)
      → (force_inactive hal s w).0 ≡ LampStatus.ok
      → AllOff laws (force_inactive hal s w).2 (tracked hal s)
  unfolding force_inactive
  force_inactive-AllOff s w h = ground (arith, fail_off-AllOff laws s w)

  -- A successful force has switched every tracked channel off and latched the barrier.
  pub force_inactive_ok :
      (s : Lamp) (w : World)
      → (force_inactive hal s w).0 ≡ LampStatus.ok
      → let (status, s', w') = force_inactive hal s w in
        (s'.fail_off_barrier ≡ true)
        × (s'.applied.output_active ≡ false)
        × (s'.initialized ≡ true)
        × AllOff laws w' (tracked hal s)
  unfolding force_inactive fail_off status_is_ok
  force_inactive_ok s w h = (ground arith, ground arith, ground arith, force_inactive-AllOff s w h)

  -- Behind the barrier apply_state never succeeds.
  pub apply_state_blocked :
      (r : Option LampState) (s : Lamp) (w : World)
      → s.fail_off_barrier ≡ true
      → let (status, s', w') = apply_state hal r s w in
        (s'.fail_off_barrier ≡ true)
        × ((status ≡ LampStatus.not_initialized)
            ⊎ (status ≡ LampStatus.blocked_by_fail_off)
            ⊎ (status ≡ LampStatus.fail_off))
  unfolding apply_state reject fail_off status_is_ok
  apply_state_blocked r s w b = ground arith

  deinit_keeps : (s : Lamp) (w : World) (q : ℕ) → IsValid s → IsOff w q → IsOff (deinit hal s w).2 q
  unfolding deinit reject
  deinit_keeps s w q v off =
      let (e, placed, kept, sized, same) =
        release_channels-eq-reference hal s w v.three_pins v.count_bound in
      let (hs, t, w') = release_channels hal s w in
      let released : IsOff w' q = rw same (release_reference_keeps laws (tracked hal s) w q off) in
      ground (arith, released, fail_off_keeps laws t w' q released)

  pub apply_keeps :
      (r : Option LampState) (s : Lamp) (w : World)
      → s.fail_off_barrier ≡ true
      → (q : ℕ) → IsOff w q
      → IsOff (apply_state hal r s w).2 q
  unfolding apply_state reject
  apply_keeps r s w b q off = ground (arith, fail_off_keeps laws s w q off)

  pub force_keeps : (s : Lamp) (w : World) (q : ℕ) → IsOff w q → IsOff (force_inactive hal s w).2 q
  unfolding force_inactive
  force_keeps s w q off = ground (arith, fail_off_keeps laws s w q off)

  pub force_latched :
      (s : Lamp) (w : World)
      → s.fail_off_barrier ≡ true
      → (force_inactive hal s w).1.fail_off_barrier ≡ true
  unfolding force_inactive fail_off
  force_latched s w b = ground arith

  deinit_latched :
      (s : Lamp) (w : World)
      → s.fail_off_barrier ≡ true
      → (deinit hal s w).1.fail_off_barrier ≡ true
  unfolding deinit reject fail_off release_channels reset_released_state
  deinit_latched s w b = ground arith

  -- A call behind the barrier leaves it latched and energizes no output.
  pub step_blocked :
      (op : Op) (s : Lamp) (w : World)
      → reenables op ≡ false
      → IsValid s
      → s.fail_off_barrier ≡ true
      → let (status, s', w') = step hal op s w in
        (s'.fail_off_barrier ≡ true) × ((q : ℕ) → IsOff w q → IsOff w' q)
  unfolding step reenables
  step_blocked (Op.init c) s w h v b = absurd (false≢true (sym h))
  step_blocked (Op.apply r) s w h v b = ((apply_state_blocked r s w b).0, apply_keeps r s w b)
  step_blocked Op.force s w h v b = (force_latched s w b, force_keeps s w)
  step_blocked Op.release s w h v b = absurd (false≢true (sym h))
  step_blocked Op.shutdown s w h v b = (deinit_latched s w b, λ q. deinit_keeps s w q v)
  step_blocked (Op.get has_out) s w h v b = (b, λ q off. off)

  -- Behind the barrier no sequence of such calls energizes an output.
  pub run_blocked :
      (ops : List Op) (s : Lamp) (w : World)
      → Blocks ops
      → IsValid s
      → s.fail_off_barrier ≡ true
      → let (statuses, s', w') = run hal ops s w in
        (s'.fail_off_barrier ≡ true) × ((q : ℕ) → IsOff w q → IsOff w' q)
  unfolding run
  run_blocked [] s w h v b = (b, λ q off. off)
  run_blocked (op ∷ ops) s w h v b =
      let (status, s', w') = step hal op s w in
      let (b', keep) = step_blocked op s w h.0 v b in
      let (b'', keep') = run_blocked ops s' w' h.1 (step-IsValid hal op s w v) b' in
      (b'', λ q off. keep' q (keep q off))

  -- From a successful force on, whatever calls follow, except release_fail_off and init: every
  -- channel that was tracked is off at the end, and the barrier is latched.
  pub force_then_run-AllOff :
      (ops : List Op) (s : Lamp) (w : World)
      → IsValid s
      → (force_inactive hal s w).0 ≡ LampStatus.ok
      → Blocks ops
      → let (status, s1, w1) = force_inactive hal s w in
        let (statuses, s2, w2) = run hal ops s1 w1 in
        (s2.fail_off_barrier ≡ true) × AllOff laws w2 (tracked hal s)
  force_then_run-AllOff ops s w v h blocks =
      let (status, s1, w1) = force_inactive hal s w in
      let (latched, inactive, live, off) = force_inactive_ok s w h in
      let (still, keep) = run_blocked ops s1 w1 blocks (force_inactive-IsValid hal s w v) latched in
      (still, AllOff-mono laws (tracked hal s) w1 (run hal ops s1 w1).2 keep off)
