-- ===== src/TbApplication/Examples.antt =====
-- tb_application on the scripted PWM layer and parser: runs of the request handlers, and each theorem on
-- them at an input that meets its hypotheses.
use hq_led_lamp.Common.{◌≤◌, ◌≡◌, ◌⊎◌, false≢true, refl, true, false, some, [], ◌∷◌, arith, length}
use hq_led_lamp.Lamp.Hal.{is_ok}
use hq_led_lamp.Lamp.Duty.{channel_duty}
use hq_led_lamp.Lamp.Operations.{
  apply_state, apply_state_locked, apply_valid, set_channels, reject, get_applied_state,
}
use hq_led_lamp.Lamp.Control.{status_is_ok, fail_off, fail_off_channels, fail_off_channel}
use hq_led_lamp.Lamp.Off.{AllOff}
use hq_led_lamp.Lamp.Outcome.{applied_of}
use hq_led_lamp.Lamp.MockHal.{mock_hal, mock_laws}
use hq_led_lamp.Lamp.Samples.{warm}
use hq_led_lamp.Json.{codes, text_eq}
use hq_led_lamp.TbApplication.Parse.{parse_brightness}
use hq_led_lamp.TbApplication.Module.{
  success, is_connected, publish_applied_attributes, rpc_apply_and_respond, app_apply_state,
}
use hq_led_lamp.TbApplication.Fields.{rpc_parse_power, rpc_brightness_type_ok}
use hq_led_lamp.TbApplication.Rpc.{
  Method, rpc_finish, handle, handle_set_state, set_state_colors, rpc_current_state, on_server_rpc,
}
use hq_led_lamp.Json.MockJson.{mock_json}
use hq_led_lamp.TbApplication.Sound.{IsSound, on_server_rpc-IsSound, on_server_rpc_blocked}
use hq_led_lamp.TbApplication.Applied.{app_apply_state_outcome, on_server_rpc_suspended}
use hq_led_lamp.TbApplication.Agreement.{Agrees, on_server_rpc-Agrees}
use hq_led_lamp.TbApplication.Samples.{
  up, quiet, white, behind, suspended, quiet-IsSound, behind-IsSound,
}

on_server_rpc-IsSound_example :
    IsSound mock_hal (on_server_rpc mock_hal up mock_json true Method.set_state (codes "L") 5 quiet)
on_server_rpc-IsSound_example =
    on_server_rpc-IsSound mock_hal up mock_json true Method.set_state (codes "L") 5 quiet
      quiet-IsSound

on_server_rpc_blocked_example :
    let z = on_server_rpc mock_hal up mock_json true Method.set_state (codes "L") 5 behind in
    (z.lamp.fail_off_barrier ≡ true) × AllOff mock_laws z.world (4 ∷ 5 ∷ 6 ∷ [])
unfolding mock_laws
on_server_rpc_blocked_example =
    on_server_rpc_blocked mock_laws up mock_json true Method.set_state (codes "L") 5 behind
      (4 ∷ 5 ∷ 6 ∷ []) behind-IsSound refl (refl, (refl, (refl, tt)))

on_server_rpc_suspended_example :
    let z = on_server_rpc mock_hal up mock_json true Method.set_state (codes "L") 5 suspended in
    (z.lamp ≡ suspended.lamp) × (z.world ≡ suspended.world)
on_server_rpc_suspended_example =
    on_server_rpc_suspended mock_hal up mock_json true Method.set_state (codes "L") 5 suspended refl
      (omega arith)

on_server_rpc-Agrees_example :
    Agrees mock_hal (on_server_rpc mock_hal up mock_json true Method.set_state (codes "L") 5 quiet)
on_server_rpc-Agrees_example =
    on_server_rpc-Agrees mock_hal up mock_json true Method.set_state (codes "L") 5 quiet refl
      quiet-IsSound (λ e. absurd (false≢true e))

app_apply_state_outcome_example :
    let (applied, z) = app_apply_state mock_hal (some warm) false behind in
    ((applied ≡ true)
      × (z.app ≡ record (behind.app) { applied = warm; has_applied = true })
      × (z.lamp.applied ≡ applied_of (behind.lamp.channel_count) warm)
      × (z.lamp.fail_off_barrier ≡ false)
      × (warm.brightness_percent ≤ 100))
    ⊎ ((applied ≡ false) × (z.app ≡ behind.app))
app_apply_state_outcome_example = app_apply_state_outcome mock_hal warm behind

-- Runs of the module: a request that applies its state, and the same one behind the barrier.
request_applies :
    let z = on_server_rpc mock_hal up mock_json true Method.set_state (codes "L") 5 white in
    (z.world.lit 4 ≡ true)
    × (z.app.applied.brightness_percent ≡ 40)
    × (z.lamp.applied.output_active ≡ true)
unfolding on_server_rpc is_connected success rpc_finish handle handle_set_state set_state_colors
    rpc_parse_power rpc_brightness_type_ok parse_brightness rpc_current_state get_applied_state
    text_eq rpc_apply_and_respond publish_applied_attributes apply_state apply_state_locked
    apply_valid set_channels is_ok status_is_ok channel_duty
request_applies = (refl, refl, refl)

request_blocked :
    let z = on_server_rpc mock_hal up mock_json true Method.set_state (codes "L") 5 behind in
    (z.world.lit 4 ≡ false) × (z.app.has_applied ≡ false) × (length z.events ≡ 1)
unfolding on_server_rpc is_connected success rpc_finish handle handle_set_state set_state_colors
    rpc_parse_power rpc_brightness_type_ok parse_brightness rpc_current_state get_applied_state
    text_eq rpc_apply_and_respond publish_applied_attributes apply_state apply_state_locked
    apply_valid reject fail_off fail_off_channels fail_off_channel set_channels is_ok status_is_ok
    channel_duty
request_blocked = (refl, refl, refl)
