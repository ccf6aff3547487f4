-- ===== src/Lamp/Electric.antt =====
-- lamp_control.c: each operation keeps the electrical meaning of `output_active`, unless it reports
-- LAMP_ERR_FAIL_OFF.
use hq_led_lamp.Common.{
  ℕ, zero, suc, ◌≤◌, ◌≡◌, ◌≢◌, refl, true, false, Option, none, some, List, [], ◌∷◌, take, set, All,
  arith, ◌⊎◌,
}
use hq_led_lamp.Lamp.Types.{LampStatus, HalStatus, LampState}
use hq_led_lamp.Lamp.Hal.{Hal, HalLaws}
use hq_led_lamp.Lamp.Control.{
  Lamp, tracked, fail_off, release_channels, reset_released_state, status_is_ok, map_hal_status,
}
use hq_led_lamp.Lamp.Operations.{
  is_output_active, set_channels, reject, apply_valid, apply_state_locked, apply_state,
  force_inactive, deinit,
}
use hq_led_lamp.Lamp.Off.{AllOff, fail_off-AllOff, fail_off_channels_keeps}
use hq_led_lamp.Lamp.Release.{release_channels-eq-reference, length-take_le}
use hq_led_lamp.Lamp.Quiet.{channel_duty-zero, set_channels-AllOff, release_reference-AllOff}
use hq_led_lamp.Lamp.Valid.{IsValid}

pub All-take-set {ℓ κ} :
    {A : Type ℓ} (P : A → Type κ) (i : ℕ) (xs : List A) (x : A)
    → All P (take i xs)
    → P x
    → All P (take (suc i) (set xs i x))
All-take-set P i [] x h p = tt
All-take-set P zero (y ∷ xs) x h p = (p, tt)
All-take-set P (suc i) (y ∷ xs) x h p = (h.0, All-take-set P i xs x h.1 p)

pub map_hal_status-ne-fail_off : (hs : HalStatus) → map_hal_status hs ≢ LampStatus.fail_off
unfolding map_hal_status
map_hal_status-ne-fail_off hs = ground arith

pub status_of_is_ok : (status : LampStatus) → status_is_ok status ≡ true → status ≡ LampStatus.ok
unfolding status_is_ok
status_of_is_ok LampStatus.ok h = refl
status_of_is_ok _ h = cc

module _ {hal : Hal} (laws : HalLaws hal) where
  open hal use {World}
  open laws use {IsOff}

  abbrev pub IsQuiet : Lamp → World → Type 0
  IsQuiet s w = s.applied.output_active ≡ false → AllOff laws w (tracked hal s)

  pub fail_off_keeps : (s : Lamp) (w : World) (q : ℕ) → IsOff w q → IsOff (fail_off hal s w).2 q
  unfolding fail_off
  fail_off_keeps s w q off =
      ground (arith, fail_off_channels_keeps laws (tracked hal s) true w q off)

  pub fail_off-tracked : (s : Lamp) (w : World) → tracked hal (fail_off hal s w).1 ≡ tracked hal s
  unfolding fail_off
  fail_off-tracked s w = ground arith

  fail_off-AllOff_self :
      (s : Lamp) (w : World)
      → (fail_off hal s w).0 ≡ LampStatus.ok
      → AllOff laws (fail_off hal s w).2 (tracked hal (fail_off hal s w).1)
  fail_off-AllOff_self s w h = rw fail_off-tracked (fail_off-AllOff laws s w h)

  fail_off_quiet_or_failed :
      (s : Lamp) (w : World)
      → ((fail_off hal s w).0 ≡ LampStatus.ok) ⊎ ((fail_off hal s w).0 ≡ LampStatus.fail_off)
  unfolding fail_off
  fail_off_quiet_or_failed s w = ground arith

  -- A rejection that does not report LAMP_ERR_FAIL_OFF has switched every channel off.
  pub reject-AllOff :
      (status : LampStatus) (s : Lamp) (w : World)
      → (reject hal status s w).0 ≢ LampStatus.fail_off
      → AllOff laws (reject hal status s w).2 (tracked hal (reject hal status s w).1)
  unfolding reject
  reject-AllOff status s w h =
      ground (arith, status_of_is_ok (fail_off hal s w).0, fail_off-AllOff_self s w)

  -- A successful channel loop with no light asked for leaves every channel off.
  dark_channels-AllOff :
      (r : LampState) (s : Lamp) (w : World)
      → s.channel_count ≤ 3
      → is_output_active s.channel_count r ≡ false
      → let (failure, w') =
          set_channels hal s.channel_count r (tracked hal s) (r.red ∷ r.green ∷ r.blue ∷ []) w in
        failure ≡ none → AllOff laws w' (tracked hal s)
  dark_channels-AllOff r s w bound dark =
      set_channels-AllOff laws s.channel_count r (tracked hal s) _ w
        (omega (arith, length-take_le hal s.channel_count s.pins))
        (channel_duty-zero s.channel_count r dark)

  apply_valid-IsQuiet :
      (r : LampState) (s : Lamp) (w : World)
      → s.channel_count ≤ 3
      → (apply_valid hal r s w).0 ≢ LampStatus.fail_off
      → IsQuiet (apply_valid hal r s w).1 (apply_valid hal r s w).2
  unfolding apply_valid
  apply_valid-IsQuiet r s w bound h dark =
      grind (arith, dark_channels-AllOff r s w bound, reject-AllOff)

  -- Applying a state, on every branch.
  pub apply_state-IsQuiet :
      (r : Option LampState) (s : Lamp) (w : World)
      → IsValid s
      → IsQuiet s w
      → (apply_state hal r s w).0 ≢ LampStatus.fail_off
      → IsQuiet (apply_state hal r s w).1 (apply_state hal r s w).2
  unfolding apply_state apply_state_locked
  apply_state-IsQuiet none s w v quiet h = grind (arith, reject-AllOff)
  apply_state-IsQuiet (some r) s w v quiet h = grind (arith, reject-AllOff, apply_valid-IsQuiet)

  pub force_inactive-IsQuiet :
      (s : Lamp) (w : World)
      → IsQuiet s w
      → (force_inactive hal s w).0 ≢ LampStatus.fail_off
      → IsQuiet (force_inactive hal s w).1 (force_inactive hal s w).2
  unfolding force_inactive
  force_inactive-IsQuiet s w quiet h = ground (
    arith,
    fail_off-AllOff_self s w,
    fail_off_quiet_or_failed s w,
    status_of_is_ok (fail_off hal s w).0,
  )

  pub release_channels-AllOff :
      (s : Lamp) (w : World)
      → IsValid s
      → AllOff laws w (tracked hal s)
      → AllOff laws (release_channels hal s w).2 (tracked hal (release_channels hal s w).1)
  release_channels-AllOff s w v off =
      let (e, placed, kept, sized, same) =
        release_channels-eq-reference hal s w v.three_pins v.count_bound in
      rw (placed, same) (release_reference-AllOff laws (tracked hal s) w off)

  -- Releasing the channels, also where a release fails and the lamp stays initialized.
  pub deinit-IsQuiet :
      (s : Lamp) (w : World)
      → IsQuiet s w
      → (deinit hal s w).0 ≢ LampStatus.fail_off
      → IsQuiet (deinit hal s w).1 (deinit hal s w).2
  unfolding deinit reset_released_state
  deinit-IsQuiet s w quiet h = grind (arith, reject-AllOff)
