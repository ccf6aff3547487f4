-- ===== src/TbApplication/Sound.antt =====
-- tb_application.c: the bounds that every request keeps.
use hq_led_lamp.Common.{ℕ, ◌≤◌, ◌≡◌, Bool, true, some, List, arith}
use hq_led_lamp.Json.{Text, Doubles, CJson}
use hq_led_lamp.Lamp.Types.{LampState}
use hq_led_lamp.Lamp.Hal.{Hal, HalLaws}
use hq_led_lamp.Lamp.Operations.{apply_state}
use hq_led_lamp.Lamp.Valid.{IsValid, apply_state-IsValid}
use hq_led_lamp.Lamp.Off.{AllOff}
use hq_led_lamp.Lamp.Quiet.{AllOff-mono}
use hq_led_lamp.Lamp.Barrier.{apply_state_blocked, apply_keeps}
use hq_led_lamp.TbApplication.Module.{
  Sys, Event, emit, publish_applied_attributes, rpc_apply_and_respond,
}
use hq_led_lamp.TbApplication.Rpc.{Method, set_changed, on_server_rpc}
use hq_led_lamp.TbApplication.Handlers.{on_server_rpc_keeps}

-- The lamp's bookkeeping is valid, and no state that the module keeps is brighter than 100 %.
pub record IsSound (hal : Hal) (y : Sys hal) : Type 0 where
  pub lamp_valid : IsValid y.lamp
  pub applied_bound : y.app.applied.brightness_percent ≤ 100
  pub pending_bound : y.app.rpc_state_pending.brightness_percent ≤ 100

module _ (hal : Hal) (client_up : hal.World → ℕ → Bool) where
  pub apply-IsSound :
      (id : ℕ) (s : LampState) (y : Sys hal)
      → s.brightness_percent ≤ 100
      → IsSound hal y
      → IsSound hal (rpc_apply_and_respond hal client_up id s y)
  unfolding rpc_apply_and_respond publish_applied_attributes
  apply-IsSound id s y bound h =
      ground (arith, apply_state-IsValid hal (some s) y.lamp y.world h.lamp_valid)

  -- No request, valid or not, breaks the lamp's bookkeeping or lets a brightness above 100 into the
  -- module's state, also while the output is suspended and the lamp does not check it.
  pub on_server_rpc-IsSound :
      {d : Doubles} (j : CJson d) (rgb : Bool) (m : Method) (json : Text) (id : ℕ) (y : Sys hal)
      → IsSound hal y
      → IsSound hal (on_server_rpc hal client_up j rgb m json id y)
  on_server_rpc-IsSound j rgb =
      on_server_rpc_keeps hal client_up j rgb (IsSound hal) (λ y h. h.lamp_valid.brightness_bound)
        (λ e y h. ground arith) apply-IsSound (λ b y h. ground arith)

-- The barrier is latched, and every output of the set `off` is off.
record IsBlocked {hal : Hal} (laws : HalLaws hal) (off : List ℕ) (y : Sys hal) : Type 0 where
  sound : IsSound hal y
  latched : y.lamp.fail_off_barrier ≡ true
  all_off : AllOff laws y.world off

module _ {hal : Hal} (laws : HalLaws hal) (client_up : hal.World → ℕ → Bool) where
  open hal use {World}

  latched_after :
      (off : List ℕ) (id : ℕ) (s : LampState) (y : Sys hal)
      → IsBlocked laws off y
      → (rpc_apply_and_respond hal client_up id s y).lamp.fail_off_barrier ≡ true
  unfolding rpc_apply_and_respond publish_applied_attributes
  latched_after off id s y h =
      ground (arith, h.latched, (apply_state_blocked laws (some s) y.lamp y.world h.latched).0)

  off_after :
      (off : List ℕ) (id : ℕ) (s : LampState) (y : Sys hal)
      → IsBlocked laws off y
      → AllOff laws (rpc_apply_and_respond hal client_up id s y).world off
  unfolding rpc_apply_and_respond publish_applied_attributes
  off_after off id s y h =
      let w' = (apply_state hal (some s) y.lamp y.world).2 in
      ground (
        arith,
        h.all_off,
        AllOff-mono laws off y.world w' (apply_keeps laws (some s) y.lamp y.world h.latched)
            h.all_off,
      )

  emit-IsBlocked :
      (off : List ℕ) (e : Event) (y : Sys hal)
      → IsBlocked laws off y
      → IsBlocked laws off (emit hal e y)
  emit-IsBlocked off e y h = record {
    sound = ground (arith, h.sound);
    latched = h.latched;
    all_off = h.all_off;
  }

  flag-IsBlocked :
      (off : List ℕ) (b : Bool) (y : Sys hal)
      → IsBlocked laws off y
      → IsBlocked laws off (set_changed hal b y)
  flag-IsBlocked off b y h = record {
    sound = ground (arith, h.sound);
    latched = h.latched;
    all_off = h.all_off;
  }

  apply-IsBlocked :
      (off : List ℕ) (id : ℕ) (s : LampState) (y : Sys hal)
      → s.brightness_percent ≤ 100
      → IsBlocked laws off y
      → IsBlocked laws off (rpc_apply_and_respond hal client_up id s y)
  apply-IsBlocked off id s y bound h = record {
    sound = apply-IsSound hal client_up id s y bound h.sound;
    latched = latched_after off id s y h;
    all_off = off_after off id s y h;
  }

  -- While the lamp's fail-off barrier is latched, a request of any method and payload leaves it latched
  -- and energizes no output that is off.
  pub on_server_rpc_blocked :
      {d : Doubles} (j : CJson d) (rgb : Bool) (m : Method) (json : Text) (id : ℕ) (y : Sys hal)
      (off : List ℕ)
      → IsSound hal y
      → y.lamp.fail_off_barrier ≡ true
      → AllOff laws y.world off
      → let z = on_server_rpc hal client_up j rgb m json id y in
        (z.lamp.fail_off_barrier ≡ true) × AllOff laws z.world off
  on_server_rpc_blocked j rgb m json id y off sound latched dark =
      let h =
        on_server_rpc_keeps hal client_up j rgb (IsBlocked laws off)
          (λ y h. h.sound.lamp_valid.brightness_bound) (λ e y h. emit-IsBlocked off e y h)
          (apply-IsBlocked off) (λ b y h. flag-IsBlocked off b y h) m json id y
          (record { sound = sound; latched = latched; all_off = dark }) in
      (h.latched, h.all_off)
