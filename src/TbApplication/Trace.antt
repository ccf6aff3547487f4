-- ===== src/TbApplication/Trace.antt =====
-- tb_application.c: the module's entry points in any order, the synchronizer's callbacks among them.
-- A history is a sequence of calls, one after the other. The module's mutex brackets only the accesses to
-- its own record; the calls of the lamp in between run outside it, and calls that overlap there are not
-- modelled.
use hq_led_lamp.Common.{ℕ, ◌≤◌, Bool, true, false, Option, some, List, [], ◌∷◌, All, arith}
use hq_led_lamp.Json.{Text, Doubles, CJson}
use hq_led_lamp.Lamp.Types.{LampState}
use hq_led_lamp.Lamp.Hal.{Hal}
use hq_led_lamp.Lamp.Valid.{force_inactive-IsValid}
use hq_led_lamp.TbApplication.Parse.{Source}
use hq_led_lamp.TbApplication.Updates.{parse_state_callback}
use hq_led_lamp.TbApplication.Module.{Module, Sys, app_apply_state, app_fail_off}
use hq_led_lamp.TbApplication.Rpc.{Method, on_server_rpc}
use hq_led_lamp.TbApplication.Lifecycle.{
  Config, Platform, app_init, app_deinit, init_result, on_connected, on_disconnected,
  set_output_suspended, take_firmware_hint,
}
use hq_led_lamp.TbApplication.Sound.{IsSound, on_server_rpc-IsSound}
use hq_led_lamp.TbApplication.Applied.{app_apply_state-IsSound}

-- A call from outside.
pub data Op : Type 0 where
  init : Platform → Option Config → Op
  deinit take_hint fail_off : Op
  connected disconnected : ℕ → Op
  suspend : Bool → Op
  rpc : Method → Text → ℕ → Op
  parse : Option Text → Source → Op
  apply : LampState → Bool → Op

module _ (hal : Hal) (client_up : hal.World → ℕ → Bool) {d : Doubles} (j : CJson d) (rgb : Bool)
    (default_brightness : ℕ) where
  abbrev on_app : (Module → Module) → Sys hal → Sys hal
  on_app f y = record y { app = f (y.app) }

  abbrev raise_hint : Bool → Module → Module
  raise_hint true app = record app { firmware_hint = true }
  raise_hint false app = app

  unfoldable pub step : Op → Sys hal → Sys hal
  step (Op.init p c) y = on_app (λ app. (app_init p rgb c app).1) y
  step Op.deinit y = on_app app_deinit y
  step Op.take_hint y = on_app (λ app. (take_firmware_hint app).1) y
  step Op.fail_off y = app_fail_off hal y
  step (Op.connected c) y = on_connected c y
  step (Op.disconnected c) y = on_disconnected c y
  step (Op.suspend b) y = set_output_suspended b y
  step (Op.rpc m json id) y = on_server_rpc hal client_up j rgb m json id y
  step (Op.parse json source) y =
      on_app (raise_hint (parse_state_callback j rgb default_brightness json source).1) y
  step (Op.apply s suspended) y = (app_apply_state hal (some s) suspended y).1

  unfoldable pub run : List Op → Sys hal → Sys hal
  run [] y = y
  run (op ∷ ops) y = run ops (step op y)

  -- The synchronizer hands over states with a brightness of 0..100: those that the parse callback has
  -- accepted and those that a request has recorded.
  abbrev pub IsAllowed : Op → Type 0
  IsAllowed (Op.apply s suspended) = s.brightness_percent ≤ 100
  IsAllowed _ = Unit

  app_fail_off-IsSound : (y : Sys hal) → IsSound hal y → IsSound hal (app_fail_off hal y)
  unfolding app_fail_off
  app_fail_off-IsSound y h =
      ground (arith, h, force_inactive-IsValid hal y.lamp y.world h.lamp_valid)

  app_init-IsSound :
      (p : Platform) (c : Option Config) (y : Sys hal)
      → IsSound hal y
      → IsSound hal (step (Op.init p c) y)
  unfolding step app_init init_result
  app_init-IsSound p c y h = ground (arith, h)

  pub step-IsSound :
      (op : Op) (y : Sys hal) → IsAllowed op → IsSound hal y → IsSound hal (step op y)
  unfolding step app_deinit take_firmware_hint on_connected on_disconnected set_output_suspended
  step-IsSound (Op.init p c) y a h = app_init-IsSound p c y h
  step-IsSound Op.deinit y a h = ground (arith, h)
  step-IsSound Op.take_hint y a h = ground (arith, h)
  step-IsSound Op.fail_off y a h = app_fail_off-IsSound y h
  step-IsSound (Op.connected c) y a h = ground (arith, h)
  step-IsSound (Op.disconnected c) y a h = ground (arith, h)
  step-IsSound (Op.suspend v) y a h = ground (arith, h)
  step-IsSound (Op.rpc m json id) y a h = on_server_rpc-IsSound hal client_up j rgb m json id y h
  step-IsSound (Op.parse json source) y a h = ground (arith, h)
  step-IsSound (Op.apply s suspended) y a h = app_apply_state-IsSound hal s suspended y a h

  -- From a state with valid bookkeeping of the lamp and a brightness of at most 100 in the module's
  -- record, however the module's entry points are called one after the other, requests with any payload
  -- among them: if the states that the synchronizer hands to the apply callback have a brightness of at
  -- most 100, the lamp's bookkeeping stays valid and no brightness above 100 is recorded, neither by the
  -- lamp nor by the module.
  pub run-IsSound :
      (ops : List Op) (y : Sys hal) → All IsAllowed ops → IsSound hal y → IsSound hal (run ops y)
  unfolding run
  run-IsSound [] y a h = h
  run-IsSound (op ∷ ops) y (a, rest) h = run-IsSound ops (step op y) rest (step-IsSound op y a h)
