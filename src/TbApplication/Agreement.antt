-- ===== src/TbApplication/Agreement.antt =====
-- tb_application.c: the desired state that the module has recorded and the one that the lamp has.
use hq_led_lamp.Common.{ℕ, refl, inl, inr, ◌≤◌, ◌≡◌, Bool, true, false, some, arith}
use hq_led_lamp.Json.{Text, Doubles, CJson}
use hq_led_lamp.Lamp.Types.{LampState, LampAppliedState}
use hq_led_lamp.Lamp.Hal.{Hal}
use hq_led_lamp.Lamp.Control.{Lamp, status_is_ok}
use hq_led_lamp.Lamp.Operations.{apply_state}
use hq_led_lamp.Lamp.Outcome.{apply_state_outcome}
use hq_led_lamp.TbApplication.Module.{Sys, publish_applied_attributes, rpc_apply_and_respond}
use hq_led_lamp.TbApplication.Rpc.{Method, on_server_rpc}
use hq_led_lamp.TbApplication.Handlers.{on_server_rpc_keeps}
use hq_led_lamp.TbApplication.Sound.{IsSound, apply-IsSound}
use hq_led_lamp.TbApplication.Applied.{status_is_ok_lem}

-- Equal in all that a state has; the lamp also has whether its output is active.
abbrev pub Matches : LampState → LampAppliedState → Type 0
Matches s a =
    (a.power ≡ s.power)
    × (a.brightness_percent ≡ s.brightness_percent)
    × (a.red ≡ s.red)
    × (a.green ≡ s.green)
    × (a.blue ≡ s.blue)

-- Once a state has been recorded, the lamp has recorded the same.
abbrev pub Agrees : (hal : Hal) → Sys hal → Type 0
Agrees hal y = y.app.has_applied ≡ true → Matches (y.app.applied) (y.lamp.applied)

record IsLive (hal : Hal) (y : Sys hal) : Type 0 where
  shown : y.app.output_suspended ≡ false
  sound : IsSound hal y
  agrees : Agrees hal y

module _ (hal : Hal) where
  accepted-Matches :
      (r : LampState) (s : Lamp) (w : hal.World)
      → status_is_ok (apply_state hal (some r) s w).0 ≡ true
      → Matches r (apply_state hal (some r) s w).1.applied
  accepted-Matches r s w h = elim (apply_state_outcome hal r s w) [
    | inl (e, live, free, bound, e') ↦ rw e' (refl, refl, refl, refl, refl)
    | inr (ne, _) ↦ absurd (ne (status_is_ok_lem hal _ h))
  ]

  refused-Matches :
      (r old : LampState) (s : Lamp) (w : hal.World)
      → status_is_ok (apply_state hal (some r) s w).0 ≡ false
      → Matches old s.applied
      → Matches old (apply_state hal (some r) s w).1.applied
  unfolding status_is_ok
  refused-Matches r old s w h m = elim (apply_state_outcome hal r s w) [
    | inl (e, live, free, bound, e') ↦ absurd (ground (arith, h, e))
    | inr (ne, inl e) ↦ rw e m
    | inr (ne, inr e) ↦ rw e m
  ]

module _ (hal : Hal) (client_up : hal.World → ℕ → Bool) where
  apply-Agrees :
      (id : ℕ) (s : LampState) (y : Sys hal)
      → y.app.output_suspended ≡ false
      → Agrees hal y
      → Agrees hal (rpc_apply_and_respond hal client_up id s y)
  unfolding rpc_apply_and_respond publish_applied_attributes
  apply-Agrees id s y shown h = ground (
    arith,
    h,
    shown,
    accepted-Matches hal s y.lamp y.world,
    refused-Matches hal s y.app.applied y.lamp y.world,
  )

  apply-IsLive :
      (id : ℕ) (s : LampState) (y : Sys hal)
      → s.brightness_percent ≤ 100
      → IsLive hal y
      → IsLive hal (rpc_apply_and_respond hal client_up id s y)
  unfolding rpc_apply_and_respond publish_applied_attributes
  apply-IsLive id s y b h = record {
    shown = ground (arith, h.shown);
    sound = apply-IsSound hal client_up id s y b h.sound;
    agrees = apply-Agrees id s y h.shown h.agrees;
  }

  -- While the output is not suspended, the state that the module reports as desired is the one that
  -- the lamp has recorded: a request of any method and payload keeps that, also one that fails.
  pub on_server_rpc-Agrees :
      {d : Doubles} (j : CJson d) (rgb : Bool) (m : Method) (json : Text) (id : ℕ) (y : Sys hal)
      → y.app.output_suspended ≡ false
      → IsSound hal y
      → Agrees hal y
      → Agrees hal (on_server_rpc hal client_up j rgb m json id y)
  on_server_rpc-Agrees j rgb m json id y shown sound h =
      (on_server_rpc_keeps hal client_up j rgb (IsLive hal)
        (λ v h. h.sound.lamp_valid.brightness_bound)
        (λ e v h. record { shown = h.shown; sound = ground (arith, h.sound); agrees = h.agrees })
        (λ i s v b h. apply-IsLive i s v b h)
        (λ b v h. record { shown = h.shown; sound = ground (arith, h.sound); agrees = h.agrees }) m
        json id y (record { shown = shown; sound = sound; agrees = h })).agrees
