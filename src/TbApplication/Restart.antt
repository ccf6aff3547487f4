-- ===== src/TbApplication/Restart.antt =====
-- tb_application.c: init, deinit and the query of the desired state.
use hq_led_lamp.Common.{
  ℕ, ◌≡◌, ◌≢◌, ◌⊎◌, refl, Bool, true, false, Option, none, some, List, [], ◌∷◌, arith,
}
use hq_led_lamp.Json.{Text}
use hq_led_lamp.Lamp.Types.{LampState}
use hq_led_lamp.Lamp.Hal.{Hal}
use hq_led_lamp.TbApplication.Module.{Module, Sys, app_apply_state, app_fail_off, zero_state}
use hq_led_lamp.TbApplication.Rpc.{Method}
use hq_led_lamp.TbApplication.Lifecycle.{
  Status, SyncStatus, Platform, Config, register_loop, init_result, app_init, app_deinit,
  get_desired_state, rpc_methods,
}

-- A module that has been started and has not heard from anyone yet.
abbrev pub IsFresh : Module → Type 0
IsFresh app =
    (app.initialized ≡ true)
    × (app.connected ≡ false)
    × (app.output_suspended ≡ false)
    × (app.has_applied ≡ false)
    × (app.applied ≡ zero_state)
    × (app.firmware_hint ≡ false)

-- The client that a configuration names.
abbrev pub configured : Option Config → Option ℕ
configured none = none
configured (some config) = config.client

register_loop_all :
    (registered : Method → Bool) (ms : List Method)
    → ((m : Method) → registered m ≡ true)
    → register_loop registered ms SyncStatus.ok ≡ SyncStatus.ok
unfolding register_loop
register_loop_all registered [] h = refl
register_loop_all registered (m ∷ ms) h = rw (h m) (register_loop_all registered ms h)

-- An init of a module that is not initialized either succeeds, and the module is fresh and serves the
-- configured client, or fails, and the module stays uninitialized; an init of one that is initialized
-- fails, and changes nothing but that the mutex exists.
pub app_init_outcome :
    (p : Platform) (rgb : Bool) (c : Option Config) (app : Module)
    → let (status, app') = app_init p rgb c app in
      ((app.initialized ≡ false)
        × (status ≡ Status.ok)
        × IsFresh app'
        × (app'.client ≡ configured c))
      ⊎ ((app.initialized ≡ false) × (status ≢ Status.ok) × (app'.initialized ≡ false))
      ⊎ ((app.initialized ≡ true)
          × (status ≢ Status.ok)
          × ((app' ≡ app) ⊎ (app' ≡ record app { has_lock = true })))
unfolding app_init init_result
app_init_outcome p rgb none app = ground arith
app_init_outcome p rgb (some config) app = ground arith

-- Once the module has a mutex, and where the synchronizer accepts everything, an init after a deinit
-- succeeds from any state.
pub deinit-init :
    (p : Platform) (rgb : Bool) (client : ℕ) (hardware : Option Text) (app : Module)
    → app.has_lock ≡ true
    → p.sync_init ≡ SyncStatus.ok
    → ((m : Method) → p.registered m ≡ true)
    → let (status, app') =
        app_init p rgb
          (some (record { client = some client; hardware = hardware }))
          (app_deinit app) in
      (status ≡ Status.ok) × IsFresh app' × (app'.client ≡ some client)
unfolding app_init app_deinit init_result
deinit-init p rgb client hardware app locked synced all =
    rw (locked, synced, register_loop_all p.registered (rpc_methods rgb) all)
      (refl, (refl, refl, refl, refl, refl, refl), refl)

module _ (hal : Hal) where
  -- A state that the apply callback has accepted, with the output suspended or not, is the one that the
  -- query then reports to the module's client.
  pub app_apply_state-get_desired_state :
      (s : LampState) (suspended : Bool) (y : Sys hal)
      → y.app.initialized ≡ true
      → (app_apply_state hal (some s) suspended y).0 ≡ true
      → get_desired_state (y.app.client) true true (app_apply_state hal (some s) suspended y).1.app
        ≡ (Status.ok, some true, some (s.power, s.brightness_percent))
  unfolding app_apply_state app_fail_off get_desired_state
  app_apply_state-get_desired_state s suspended y live h = ground (arith, live, h)
