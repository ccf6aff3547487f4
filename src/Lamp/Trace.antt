-- ===== src/Lamp/Trace.antt =====
-- lamp_control.c: sequences of calls. Every public operation runs under the module's lock, so what
-- several threads do is a sequence of whole calls in the order in which they take the lock.
use hq_led_lamp.Common.{◌≡◌, ◌≢◌, Bool, Option, List, [], ◌∷◌, All, false}
use hq_led_lamp.Lamp.Types.{LampStatus, LampState, LampControlConfig}
use hq_led_lamp.Lamp.Hal.{Hal, HalLaws}
use hq_led_lamp.Lamp.Control.{Lamp, initial_lamp, tracked}
use hq_led_lamp.Lamp.Operations.{
  init_locked, apply_state, force_inactive, release_fail_off, deinit, get_applied_state,
}
use hq_led_lamp.Lamp.Off.{AllOff}
use hq_led_lamp.Lamp.Valid.{
  IsValid, initial_lamp-IsValid, init_locked-IsValid, apply_state-IsValid, force_inactive-IsValid,
  release_fail_off-IsValid, deinit-IsValid,
}
use hq_led_lamp.Lamp.Electric.{IsQuiet, apply_state-IsQuiet, force_inactive-IsQuiet, deinit-IsQuiet}
use hq_led_lamp.Lamp.Start.{init_locked-IsQuiet}

-- The public operations with their arguments; `get` says whether an output pointer is given.
pub data Op : Type 0 where
  init : Option LampControlConfig → Op
  apply : Option LampState → Op
  force release shutdown : Op
  get : Bool → Op

module _ (hal : Hal) where
  open hal use {World}

  unfoldable pub step : Op → Lamp → World → LampStatus × Lamp × World
  step (Op.init c) s w = init_locked hal c s w
  step (Op.apply r) s w = apply_state hal r s w
  step Op.force s w = force_inactive hal s w
  step Op.release s w = release_fail_off hal s w
  step Op.shutdown s w = deinit hal s w
  step (Op.get has_out) s w = ((get_applied_state hal has_out s).0, s, w)

  -- The statuses of the calls, first call first, and the final state.
  unfoldable pub run : List Op → Lamp → World → List LampStatus × Lamp × World
  run [] s w = ([], s, w)
  run (op ∷ ops) s w =
      let (status, s', w') = step op s w in
      let (statuses, s'', w'') = run ops s' w' in (status ∷ statuses, s'', w'')

  pub step-IsValid : (op : Op) (s : Lamp) (w : World) → IsValid s → IsValid (step op s w).1
  unfolding step
  step-IsValid (Op.init c) s w v = init_locked-IsValid hal c s w v
  step-IsValid (Op.apply r) s w v = apply_state-IsValid hal r s w v
  step-IsValid Op.force s w v = force_inactive-IsValid hal s w v
  step-IsValid Op.release s w v = release_fail_off-IsValid hal s w v
  step-IsValid Op.shutdown s w v = deinit-IsValid hal s w v
  step-IsValid (Op.get has_out) s w v = v

  -- Any sequence of calls on any hardware keeps the bookkeeping valid.
  pub run-IsValid : (ops : List Op) (s : Lamp) (w : World) → IsValid s → IsValid (run ops s w).1
  unfolding run
  run-IsValid [] s w v = v
  run-IsValid (op ∷ ops) s w v =
      let (status, s', w') = step op s w in run-IsValid ops s' w' (step-IsValid op s w v)

module _ {hal : Hal} (laws : HalLaws hal) where
  open hal use {World}

  pub step-IsQuiet :
      (op : Op) (s : Lamp) (w : World)
      → IsValid s
      → IsQuiet laws s w
      → (step hal op s w).0 ≢ LampStatus.fail_off
      → IsQuiet laws (step hal op s w).1 (step hal op s w).2
  unfolding step release_fail_off
  step-IsQuiet (Op.init c) s w v quiet h = init_locked-IsQuiet laws c s w v quiet
  step-IsQuiet (Op.apply r) s w v quiet h = apply_state-IsQuiet laws r s w v quiet h
  step-IsQuiet Op.force s w v quiet h = force_inactive-IsQuiet laws s w quiet h
  step-IsQuiet Op.release s w v quiet h = quiet
  step-IsQuiet Op.shutdown s w v quiet h = deinit-IsQuiet laws s w quiet h
  step-IsQuiet (Op.get has_out) s w v quiet h = quiet

  run_from-IsQuiet :
      (ops : List Op) (s : Lamp) (w : World)
      → IsValid s
      → IsQuiet laws s w
      → All (λ status. status ≢ LampStatus.fail_off) (run hal ops s w).0
      → IsQuiet laws (run hal ops s w).1 (run hal ops s w).2
  unfolding run
  run_from-IsQuiet [] s w v quiet h = quiet
  run_from-IsQuiet (op ∷ ops) s w v quiet h =
      let (status, s', w') = step hal op s w in
      run_from-IsQuiet ops s' w' (step-IsValid hal op s w v) (step-IsQuiet op s w v quiet h.0) h.1

  -- After any sequence of calls from start-up, in which no call reported LAMP_ERR_FAIL_OFF: if the
  -- applied state says that the output is not active, every tracked channel is electrically off.
  pub run_inactive-AllOff :
      (ops : List Op) (w : World)
      → All (λ status. status ≢ LampStatus.fail_off) (run hal ops (initial_lamp hal) w).0
      → (run hal ops (initial_lamp hal) w).1.applied.output_active ≡ false
      → let (statuses, s, w') = run hal ops (initial_lamp hal) w in AllOff laws w' (tracked hal s)
  run_inactive-AllOff ops w h dark =
      run_from-IsQuiet ops (initial_lamp hal) w (initial_lamp-IsValid hal) (λ _. tt) h dark
