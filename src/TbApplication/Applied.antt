-- ===== src/TbApplication/Applied.antt =====
-- tb_application.c: what a request and the synchronizer's apply callback do to the module and the lamp.
use hq_led_lamp.Common.{ℕ, refl, ◌≤◌, ◌≡◌, ◌⊎◌, Bool, true, false, some, arith}
use hq_led_lamp.Json.{Text, Doubles, CJson}
use hq_led_lamp.Lamp.Types.{LampStatus, LampState}
use hq_led_lamp.Lamp.Hal.{Hal}
use hq_led_lamp.Lamp.Control.{Lamp, status_is_ok}
use hq_led_lamp.Lamp.Operations.{apply_state, release_fail_off}
use hq_led_lamp.Lamp.Valid.{apply_state-IsValid, force_inactive-IsValid, release_fail_off-IsValid}
use hq_led_lamp.Lamp.Outcome.{applied_of, apply_state_outcome}
use hq_led_lamp.TbApplication.Module.{
  Sys, publish_applied_attributes, rpc_apply_and_respond, app_apply_state, app_fail_off,
}
use hq_led_lamp.TbApplication.Rpc.{Method, on_server_rpc}
use hq_led_lamp.TbApplication.Handlers.{on_server_rpc_keeps}
use hq_led_lamp.TbApplication.Sound.{IsSound}

module _ (hal : Hal) where
  -- The apply callback keeps the module's and the lamp's bookkeeping.
  pub app_apply_state-IsSound :
      (s : LampState) (suspended : Bool) (y : Sys hal)
      → s.brightness_percent ≤ 100
      → IsSound hal y
      → IsSound hal (app_apply_state hal (some s) suspended y).1
  unfolding app_apply_state app_fail_off
  app_apply_state-IsSound s suspended y bound h =
      let (released, lamp1, w1) = release_fail_off hal y.lamp y.world in
      let v1 = release_fail_off-IsValid hal y.lamp y.world h.lamp_valid in
      let (status, lamp2, w2) = apply_state hal (some s) lamp1 w1 in
      let v2 = apply_state-IsValid hal (some s) lamp1 w1 v1 in
      ground (arith, h.lamp_valid, v2, force_inactive-IsValid hal lamp2 w2 v2)

  pub status_is_ok_lem : (st : LampStatus) → status_is_ok st ≡ true → st ≡ LampStatus.ok
  unfolding status_is_ok
  status_is_ok_lem st h = ground arith

  -- Where the apply callback runs with the output not suspended, success means that the state was in
  -- range and that the module and the lamp have both recorded exactly it; failure leaves the module as
  -- it was.
  pub app_apply_state_outcome :
      (s : LampState) (y : Sys hal)
      → let (applied, z) = app_apply_state hal (some s) false y in
        ((applied ≡ true)
          × (z.app ≡ record (y.app) { applied = s; has_applied = true })
          × (z.lamp.applied ≡ applied_of (y.lamp.channel_count) s)
          × (z.lamp.fail_off_barrier ≡ false)
          × (s.brightness_percent ≤ 100))
        ⊎ ((applied ≡ false) × (z.app ≡ y.app))
  unfolding app_apply_state app_fail_off release_fail_off
  app_apply_state_outcome s y =
      let (released, lamp1, w1) = release_fail_off hal y.lamp y.world in
      let (status, lamp2, w2) = apply_state hal (some s) lamp1 w1 in
      ground (arith, apply_state_outcome hal s lamp1 w1, status_is_ok_lem status)

-- What holds of a request that finds the output suspended: the lamp and the hardware are as before.
record IsHeld (hal : Hal) (lamp : Lamp) (world : hal.World) (y : Sys hal) : Type 0 where
  suspended : y.app.output_suspended ≡ true
  lamp_bound : y.lamp.applied.brightness_percent ≤ 100
  same_lamp : y.lamp ≡ lamp
  same_world : y.world ≡ world

module _ (hal : Hal) (client_up : hal.World → ℕ → Bool) where
  apply-IsHeld :
      (lamp : Lamp) (world : hal.World) (id : ℕ) (s : LampState) (y : Sys hal)
      → IsHeld hal lamp world y
      → IsHeld hal lamp world (rpc_apply_and_respond hal client_up id s y)
  unfolding rpc_apply_and_respond publish_applied_attributes
  apply-IsHeld lamp world id s y h =
      ground (arith, h.suspended, h.lamp_bound, h.same_lamp, h.same_world)

  -- While the output is suspended, a request of any method and payload leaves the lamp and the
  -- hardware as they are.
  pub on_server_rpc_suspended :
      {d : Doubles} (j : CJson d) (rgb : Bool) (m : Method) (json : Text) (id : ℕ) (y : Sys hal)
      → y.app.output_suspended ≡ true
      → y.lamp.applied.brightness_percent ≤ 100
      → let z = on_server_rpc hal client_up j rgb m json id y in
        (z.lamp ≡ y.lamp) × (z.world ≡ y.world)
  on_server_rpc_suspended j rgb m json id y suspended bound =
      let h =
        on_server_rpc_keeps hal client_up j rgb (IsHeld hal (y.lamp) (y.world))
          (λ v h. h.lamp_bound)
          (λ e v h. ground (arith, h.suspended, h.lamp_bound, h.same_lamp, h.same_world))
          (λ id s v b h. apply-IsHeld (y.lamp) (y.world) id s v h)
          (λ b v h. ground (arith, h.suspended, h.lamp_bound, h.same_lamp, h.same_world)) m json id
          y
          (record {
            suspended = suspended;
            lamp_bound = bound;
            same_lamp = refl;
            same_world = refl;
          }) in
      (h.same_lamp, h.same_world)
