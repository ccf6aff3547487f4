-- ===== src/TbApplication/Tests.antt =====
-- tb_application on the scripted PWM layer and parser: each theorem on the lifecycle, the payloads and
-- the histories at an input that meets its hypotheses.
use hq_led_lamp.Common.{◌≡◌, refl, true, false, ◌&&◌, some, List, [], ◌∷◌, All, arith}
use hq_led_lamp.Json.{codes, text_eq}
use hq_led_lamp.Lamp.MockHal.{mock_hal}
use hq_led_lamp.TbApplication.Parse.{
  Source, flat_attrs, scope_attrs, parse_attrs, parse_colors, parse_brightness, parse_state_scope,
}
use hq_led_lamp.TbApplication.Updates.{
  members_loop, is_ota_key, is_ota_only_update, parse_state_callback,
}
use hq_led_lamp.TbApplication.Rpc.{Method}
use hq_led_lamp.Json.MockJson.{mock_json, ota_object}
use hq_led_lamp.TbApplication.Responses.{attempts}
use hq_led_lamp.TbApplication.Sound.{IsSound}
use hq_led_lamp.TbApplication.ParseBounds.{InRange, parse_state_callback-InRange}
use hq_led_lamp.TbApplication.OtaUpdates.{
  any, all, ota_member, firmware_member, is_ota_only_update_lem,
}
use hq_led_lamp.TbApplication.Trace.{Op, run, IsAllowed, run-IsSound}
use hq_led_lamp.TbApplication.Offline.{connects, run_offline}
use hq_led_lamp.TbApplication.Samples.{up, quiet, cut_off, quiet-IsSound, cut_off-IsSound}

parse_state_callback-InRange_example :
    InRange (record { power = true; brightness_percent = 40; red = 255; green = 255; blue = 255 })
unfolding parse_state_callback parse_state_scope scope_attrs parse_attrs parse_colors
    parse_brightness is_ota_only_update members_loop is_ota_key text_eq
parse_state_callback-InRange_example =
    parse_state_callback-InRange mock_json true 50 (some (codes "L")) Source.update
      (record { power = true; brightness_percent = 40; red = 255; green = 255; blue = 255 })
      (omega arith) refl

is_ota_only_update_lem_example :
    let members = mock_json.children (flat_attrs mock_json ota_object) in
    is_ota_only_update mock_json (codes "O") ≡ (
      any (λ i. true) members && all (ota_member mock_json) members,
      any (firmware_member mock_json) members,
    )
is_ota_only_update_lem_example =
    is_ota_only_update_lem mock_json (codes "O") ota_object (omega arith) refl refl

abbrev history : List Op
history =
    Op.connected 7
    ∷ Op.parse (some (codes "L")) Source.update
    ∷ Op.apply
        (record { power = true; brightness_percent = 40; red = 255; green = 255; blue = 255 }) false
    ∷ Op.suspend true
    ∷ Op.rpc Method.set_power (codes "L") 3
    ∷ Op.disconnected 7
    ∷ []

history-IsAllowed : All (IsAllowed mock_hal up mock_json true 50) history
history-IsAllowed = (tt, (tt, (omega arith, (tt, (tt, (tt, tt))))))

run-IsSound_example : IsSound mock_hal (run mock_hal up mock_json true 50 history quiet)
run-IsSound_example =
    run-IsSound mock_hal up mock_json true 50 history quiet history-IsAllowed quiet-IsSound

abbrev requests : List Op
requests = Op.rpc Method.get_state (codes "L") 1 ∷ Op.suspend true ∷ Op.disconnected 7 ∷ []

run_offline_example :
    let z = run mock_hal up mock_json true 50 requests cut_off in
    (z.app.connected ≡ false) × (attempts z.events ≡ attempts cut_off.events)
unfolding connects
run_offline_example =
    run_offline mock_hal up mock_json true 50 requests cut_off (tt, (tt, (tt, tt)))
      (refl, (refl, (refl, tt))) cut_off-IsSound refl
