-- ===== src/TbApplication/Offline.antt =====
-- tb_application.c: the module while it is not connected.
use hq_led_lamp.Common.{
  ℕ, ◌≤◌, ◌≡◌, ◌∙◌, refl, Bool, true, false, false≢true, sym, List, [], ◌∷◌, All, arith,
}
use hq_led_lamp.Json.{Text, Doubles, CJson}
use hq_led_lamp.Lamp.Types.{LampState}
use hq_led_lamp.Lamp.Hal.{Hal}
use hq_led_lamp.TbApplication.Module.{
  Sys, publish_applied_attributes, rpc_apply_and_respond, is_connected, app_apply_state,
  app_fail_off,
}
use hq_led_lamp.TbApplication.Rpc.{Method, on_server_rpc}
use hq_led_lamp.TbApplication.Lifecycle.{
  app_init, app_deinit, init_result, on_connected, on_disconnected, set_output_suspended,
  take_firmware_hint,
}
use hq_led_lamp.TbApplication.Handlers.{on_server_rpc_keeps}
use hq_led_lamp.TbApplication.Responses.{attempts, attempts-on_server_rpc}
use hq_led_lamp.TbApplication.Sound.{IsSound, apply-IsSound}
use hq_led_lamp.TbApplication.Trace.{Op, step, run, IsAllowed, step-IsSound}

-- The calls that may connect the module.
unfoldable pub connects : Op → Bool
connects (Op.connected c) = true
connects _ = false

record IsOffline (hal : Hal) (y : Sys hal) : Type 0 where
  sound : IsSound hal y
  offline : y.app.connected ≡ false

module _ (hal : Hal) (client_up : hal.World → ℕ → Bool) {d : Doubles} (j : CJson d) (rgb : Bool)
    (default_brightness : ℕ) where
  rpc-offline :
      (m : Method) (json : Text) (id : ℕ) (y : Sys hal)
      → y.app.connected ≡ false
      → attempts (on_server_rpc hal client_up j rgb m json id y).events ≡ attempts y.events
  unfolding is_connected
  rpc-offline m json id y h =
      ground (arith, h, attempts-on_server_rpc hal client_up j rgb m json id y)

  apply-IsOffline :
      (id : ℕ) (s : LampState) (y : Sys hal)
      → s.brightness_percent ≤ 100
      → IsOffline hal y
      → IsOffline hal (rpc_apply_and_respond hal client_up id s y)
  unfolding rpc_apply_and_respond publish_applied_attributes
  apply-IsOffline id s y b h = record {
    sound = apply-IsSound hal client_up id s y b h.sound;
    offline = ground (arith, h.offline);
  }

  rpc_stays :
      (m : Method) (json : Text) (id : ℕ) (y : Sys hal)
      → IsSound hal y
      → y.app.connected ≡ false
      → (on_server_rpc hal client_up j rgb m json id y).app.connected ≡ false
  rpc_stays m json id y sound offline =
      (on_server_rpc_keeps hal client_up j rgb (IsOffline hal)
        (λ v h. h.sound.lamp_valid.brightness_bound)
        (λ e v h. record { sound = ground (arith, h.sound); offline = h.offline })
        (λ i s v b h. apply-IsOffline i s v b h)
        (λ b v h. record { sound = ground (arith, h.sound); offline = h.offline }) m json id y
        (record { sound = sound; offline = offline })).offline

  step_offline :
      (op : Op) (y : Sys hal)
      → connects op ≡ false
      → IsSound hal y
      → y.app.connected ≡ false
      → let z = step hal client_up j rgb default_brightness op y in
        (z.app.connected ≡ false) × (attempts z.events ≡ attempts y.events)
  unfolding step connects app_init init_result app_deinit take_firmware_hint on_connected
      on_disconnected set_output_suspended app_fail_off app_apply_state
  step_offline (Op.init p c) y n s h = ground (arith, h)
  step_offline Op.deinit y n s h = ground (arith, h)
  step_offline Op.take_hint y n s h = ground (arith, h)
  step_offline Op.fail_off y n s h = (h, refl)
  step_offline (Op.connected c) y n s h = absurd (false≢true (sym n))
  step_offline (Op.disconnected c) y n s h = ground (arith, h)
  step_offline (Op.suspend v) y n s h = ground (arith, h)
  step_offline (Op.rpc m json id) y n s h = (rpc_stays m json id y s h, rpc-offline m json id y h)
  step_offline (Op.parse json source) y n s h = ground (arith, h)
  step_offline (Op.apply r suspended) y n s h = ground (arith, h)

  -- From a moment when the module is not connected, with valid bookkeeping and recorded brightnesses of at
  -- most 100, and until it is told that its client is: no sequence of calls makes it respond to a
  -- request, or try to, and it stays unconnected, if the states that the synchronizer hands to the apply callback
  -- have a brightness of at most 100.
  pub run_offline :
      (ops : List Op) (y : Sys hal)
      → All (IsAllowed hal client_up j rgb default_brightness) ops
      → All (λ op. connects op ≡ false) ops
      → IsSound hal y
      → y.app.connected ≡ false
      → let z = run hal client_up j rgb default_brightness ops y in
        (z.app.connected ≡ false) × (attempts z.events ≡ attempts y.events)
  unfolding run
  run_offline [] y a n s h = (h, refl)
  run_offline (op ∷ ops) y a n s h =
      let (h', same) = step_offline op y n.0 s h in
      let sound = step-IsSound hal client_up j rgb default_brightness op y a.0 s in
      let y' = step hal client_up j rgb default_brightness op y in
      let (h'', same') = run_offline ops y' a.1 n.1 sound h' in (h'', same' ∙ same)
