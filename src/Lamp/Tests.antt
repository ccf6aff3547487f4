-- ===== src/Lamp/Tests.antt =====
-- lamp_control on the scripted PWM layer: runs of the code, and each theorem at an input that meets
-- its hypotheses.
use hq_led_lamp.Common.{◌≢◌, ◌≡◌, refl, true, false, none, some, List, [], ◌∷◌, arith}
use hq_led_lamp.Lamp.Types.{HalStatus, LampStatus}
use hq_led_lamp.Lamp.Hal.{is_ok}
use hq_led_lamp.Lamp.Control.{
  initial_lamp, tracked, map_hal_status, status_is_ok, fail_off_channel, fail_off_channels,
  fail_off, init_channels, hold_channels,
}
use hq_led_lamp.Lamp.Operations.{
  init_channel_count, init_finish, init_run, init_locked, set_channels, reject, apply_valid,
  apply_state_locked, apply_state, force_inactive,
}
use hq_led_lamp.Lamp.Duty.{channel_duty}
use hq_led_lamp.Lamp.MockHal.{mock_hal, mock_laws}
use hq_led_lamp.Lamp.Off.{AllOff}
use hq_led_lamp.Lamp.Valid.{IsValid, initial_lamp-IsValid}
use hq_led_lamp.Lamp.Trace.{Op, step, run, run-IsValid, run_inactive-AllOff}
use hq_led_lamp.Lamp.Barrier.{reenables, force_then_run-AllOff}
use hq_led_lamp.Lamp.Lock.{
  Lock, Phase, initial_lock, move, LockReach, start, next, enter, acquire, lock_exclusive,
}
use hq_led_lamp.Lamp.Samples.{rgb_config, warm, too_bright, dark, ready, ready-IsValid}

-- The scripts: three init calls and three holds succeed, and so do the three duties.
init_runs : (init_locked mock_hal (some rgb_config) (initial_lamp mock_hal) (dark [])).1 ≡ ready
unfolding init_locked init_channel_count init_run init_channels init_finish is_ok hold_channels
init_runs = refl

warm_lights :
    let (status, s, w) = apply_state mock_hal (some warm) ready (dark []) in
    (status ≡ LampStatus.ok)
    × (s.applied.output_active ≡ true)
    × (w.lit 4 ≡ true)
    × (w.lit 5 ≡ true)
    × (w.lit 6 ≡ false)
unfolding apply_state apply_state_locked apply_valid set_channels is_ok channel_duty
warm_lights = (refl, refl, refl, refl, refl)

-- The duty of red succeeds, that of green fails, and so does each attempt to force red off: the call
-- reports LAMP_ERR_FAIL_OFF, the record says inactive, and red is lit.
abbrev jammed : List HalStatus
jammed = HalStatus.ok ∷ HalStatus.other ∷ HalStatus.other ∷ HalStatus.other ∷ HalStatus.other ∷ []

jammed_lights :
    let (status, s, w) = apply_state mock_hal (some warm) ready (dark jammed) in
    (status ≡ LampStatus.fail_off) × (s.applied.output_active ≡ false) × (w.lit 4 ≡ true)
unfolding apply_state apply_state_locked apply_valid set_channels is_ok channel_duty reject fail_off
    fail_off_channels fail_off_channel map_hal_status status_is_ok
jammed_lights = (refl, refl, refl)

abbrev later_calls : List Op
later_calls = Op.apply (some warm) ∷ Op.get true ∷ Op.shutdown ∷ Op.apply none ∷ []

-- Green was lit; forcing it off needs the retry.
force_then_run-AllOff_example :
    let (status, s1, w1) =
      force_inactive mock_hal ready (dark (HalStatus.ok ∷ HalStatus.no_resource ∷ [])) in
    let (statuses, s2, w2) = run mock_hal later_calls s1 w1 in
    (s2.fail_off_barrier ≡ true) × AllOff mock_laws w2 (tracked mock_hal ready)
unfolding force_inactive fail_off fail_off_channels fail_off_channel is_ok status_is_ok reenables
force_then_run-AllOff_example =
    force_then_run-AllOff mock_laws later_calls ready
      (dark (HalStatus.ok ∷ HalStatus.no_resource ∷ [])) ready-IsValid refl
      (refl, (refl, (refl, (refl, tt))))

abbrev first_calls : List Op
first_calls =
    Op.init (some rgb_config) ∷ Op.apply (some too_bright) ∷ Op.apply (some warm) ∷ Op.force ∷ []

run_inactive-AllOff_example :
    let (statuses, s, w) = run mock_hal first_calls (initial_lamp mock_hal) (dark []) in
    AllOff mock_laws w (tracked mock_hal s)
unfolding run step init_locked init_channel_count init_run init_channels init_finish hold_channels
    apply_state apply_state_locked apply_valid set_channels is_ok channel_duty reject force_inactive
    fail_off fail_off_channels fail_off_channel map_hal_status status_is_ok
run_inactive-AllOff_example =
    run_inactive-AllOff mock_laws first_calls (dark []) (ground arith) refl

run-IsValid_example : IsValid (run mock_hal first_calls (initial_lamp mock_hal) (dark [])).1
run-IsValid_example =
    run-IsValid mock_hal first_calls (initial_lamp mock_hal) (dark [])
      (initial_lamp-IsValid mock_hal)

-- Thread 1 takes the lock, and thread 2 arrives.
abbrev one_waits : Lock
one_waits = record initial_lock { phase = move initial_lock 1 Phase.spinning }

abbrev one_holds : Lock
one_holds = record { flag = true; phase = move one_waits 1 Phase.inside }

abbrev two_waits : Lock
two_waits = record one_holds { phase = move one_holds 2 Phase.spinning }

two_waits_reached : LockReach two_waits
two_waits_reached = next (next (next start (enter 1 refl)) (acquire 1 refl refl)) (enter 2 refl)

lock_exclusive_example : (two_waits.flag ≡ true) × (two_waits.phase 2 ≢ Phase.inside)
lock_exclusive_example = lock_exclusive two_waits 1 2 two_waits_reached refl (omega arith)
