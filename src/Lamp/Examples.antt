-- ===== src/Lamp/Examples.antt =====
-- lamp_control on the scripted PWM layer: each theorem on single calls at an input that meets its
-- hypotheses.
use hq_led_lamp.Common.{◌≡◌, ◌⊎◌, refl, true, false, some, [], ◌∷◌, arith}
use hq_led_lamp.Lamp.Types.{HalStatus, LampStatus}
use hq_led_lamp.Lamp.Hal.{is_ok}
use hq_led_lamp.Lamp.Control.{
  initial_lamp, tracked, status_is_ok, fail_off_channel, fail_off_channels, fail_off,
}
use hq_led_lamp.Lamp.Operations.{
  init_locked, reject, apply_state_locked, apply_state, release_fail_off, deinit, get_applied_state,
}
use hq_led_lamp.Lamp.MockHal.{mock_hal, mock_laws, obedient_hal}
use hq_led_lamp.Lamp.Off.{AllOff}
use hq_led_lamp.Lamp.Outcome.{
  Accepted, Refused, applied_of, first_channel, apply_state_outcome, init_locked_leaks,
  release-apply-get, apply_state_refused-AllOff,
}
use hq_led_lamp.Lamp.Samples.{gap_config, warm, too_bright, dark, ready, blocked}

apply_state_outcome_example :
    Accepted mock_hal warm ready (apply_state mock_hal (some warm) ready (dark []))
    ⊎ Refused mock_hal ready (apply_state mock_hal (some warm) ready (dark []))
apply_state_outcome_example = apply_state_outcome mock_hal warm ready (dark [])

-- The first force fails and the second works.
apply_state_refused-AllOff_example :
    let (status, s, w) =
      apply_state mock_hal (some too_bright) ready (dark (HalStatus.other ∷ [])) in
    AllOff mock_laws w (tracked mock_hal s)
unfolding apply_state apply_state_locked reject fail_off fail_off_channels fail_off_channel is_ok
    status_is_ok
apply_state_refused-AllOff_example =
    apply_state_refused-AllOff mock_laws (some too_bright) ready (dark (HalStatus.other ∷ [])) refl
      (λ e. cc) (λ e. cc)

release-apply-get_example :
    let (released, s1, w1) = release_fail_off obedient_hal blocked tt in
    let (status, s2, w2) = apply_state obedient_hal (some warm) s1 w1 in
    (status ≡ LampStatus.ok)
    × (get_applied_state obedient_hal true s2 ≡ (LampStatus.ok, some (applied_of 3 warm)))
release-apply-get_example =
    release-apply-get obedient_hal warm blocked tt (λ p d w. refl) refl (omega arith)

-- The pin of the second channel is missing.
init_locked_leaks_example :
    let (status, s, w) = init_locked mock_hal (some gap_config) (initial_lamp mock_hal) (dark []) in
    (status ≡ LampStatus.invalid_argument)
    × (s.initialized ≡ false)
    × (w ≡ (mock_hal.pwm_init (first_channel mock_hal gap_config) (dark [])).1)
    × (deinit mock_hal s w ≡ (LampStatus.not_initialized, s, w))
init_locked_leaks_example =
    init_locked_leaks mock_hal gap_config (initial_lamp mock_hal) (dark []) refl refl
      (λ e. absurd (omega arith)) refl (λ e. absurd (omega arith)) refl refl
