-- ===== src/TbApplication/Lifecycle.antt =====
-- tb_application.c: the module's lifecycle, the connection callbacks and the queries. The synchronizer
-- of the platform is its calls, as events, and the statuses that it returns.
use hq_led_lamp.Common.{
  ℕ, Bool, true, false, not, ◌&&◌, ◌||◌, Option, none, some, List, [], ◌∷◌, ◌==◌, if◌then◌else◌,
}
use hq_led_lamp.Json.{Text}
use hq_led_lamp.Lamp.Hal.{Hal}
use hq_led_lamp.TbApplication.Updates.{copy_telemetry_string}
use hq_led_lamp.TbApplication.Module.{Module, Event, Sys, zero_state, emit}
use hq_led_lamp.TbApplication.Rpc.{Method}

-- `tb_application_status_t`.
pub data Status : Type 0 where
  ok invalid_argument not_initialized already_initialized client_mismatch : Status

-- `tb_state_sync_status_t`, as init reads it.
pub data SyncStatus : Type 0 where
  ok already_initialized no_resource other : SyncStatus

-- What the callees of init return: osal_mutex_create, tb_state_sync_init and, for each method,
-- tb_state_sync_register_rpc_handler.
pub record Platform : Type 0 where
  pub mutex_created : Bool
  pub sync_init : SyncStatus
  pub registered : Method → Bool

-- `tb_application_config_t`, without the synchronizer's timing and the RSSI function.
pub record Config : Type 0 where
  pub client : Option ℕ
  pub hardware : Option Text

abbrev pub hardware_bytes : ℕ
hardware_bytes = 33

-- `s_rpc_methods`.
abbrev pub rpc_methods : Bool → List Method
rpc_methods true =
    Method.set_power ∷ Method.set_brightness ∷ Method.set_state ∷ Method.set_color
    ∷ Method.get_state ∷ []
rpc_methods false =
    Method.set_power ∷ Method.set_brightness ∷ Method.set_state ∷ Method.get_state ∷ []

-- The loop that registers the handlers.
unfoldable pub register_loop : (Method → Bool) → List Method → SyncStatus → SyncStatus
register_loop registered [] status = status
register_loop registered (m ∷ ms) SyncStatus.ok =
    register_loop registered ms (if registered m then SyncStatus.ok else SyncStatus.no_resource)
register_loop registered (m ∷ ms) status = status

abbrev pub sync_status : Platform → Bool → SyncStatus
sync_status p rgb = register_loop p.registered (rpc_methods rgb) p.sync_init

-- What the destination holds after copy_telemetry_string.
abbrev pub copied : Option Text → Text
copied none = []
copied (some text) = text

-- The module between the two halves of init.
abbrev pub started : Config → Module → Module
started config app = record app {
  client = config.client;
  hardware = copied (copy_telemetry_string config.hardware hardware_bytes);
  connected = false;
  output_suspended = false;
  applied = zero_state;
  has_applied = false;
  rpc_state_changed = false;
  firmware_hint = false;
  initialized = true;
}

abbrev pub is_null : Option ℕ → Bool
is_null none = true
is_null (some c) = false

unfoldable pub init_result : SyncStatus → Module → Status × Module
init_result SyncStatus.ok app = (Status.ok, app)
init_result SyncStatus.already_initialized app =
    (Status.already_initialized, record app { initialized = false; client = none })
init_result _ app = (Status.not_initialized, record app { initialized = false; client = none })

-- `tb_application_init`.
unfoldable pub app_init : Platform → Bool → Option Config → Module → Status × Module
app_init p rgb none app = (Status.invalid_argument, app)
app_init p rgb (some config) app =
    if is_null config.client
    then (Status.invalid_argument, app)
    else if not app.has_lock && not p.mutex_created
    then (Status.not_initialized, app)
    else if app.initialized
    then (Status.already_initialized, record app { has_lock = true })
    else init_result (sync_status p rgb) (started config (record app { has_lock = true }))

-- `tb_application_deinit`.
unfoldable pub app_deinit : Module → Module
app_deinit app =
    if app.has_lock
    then record app {
      initialized = false;
      connected = false;
      output_suspended = false;
      client = none;
    }
    else app

abbrev pub is_client : ℕ → Option ℕ → Bool
is_client c none = false
is_client c (some c') = c == c'

module _ {hal : Hal} where
  abbrev pub set_connected : Bool → Sys hal → Sys hal
  set_connected b y = record y { app = record (y.app) { connected = b } }

  -- `tb_application_on_connected`, of a client that is not null.
  unfoldable pub on_connected : ℕ → Sys hal → Sys hal
  on_connected c y =
      if not y.app.initialized || not (is_client c y.app.client)
      then y
      else emit hal (Event.sync_connected c) (set_connected true y)

  -- `tb_application_on_disconnected`, of a client that is not null.
  unfoldable pub on_disconnected : ℕ → Sys hal → Sys hal
  on_disconnected c y =
      if not y.app.initialized || not (is_client c y.app.client)
      then y
      else emit hal (Event.sync_disconnected c) (set_connected false y)

  -- `tb_application_set_output_suspended`.
  unfoldable pub set_output_suspended : Bool → Sys hal → Sys hal
  set_output_suspended suspended y =
      let same = if suspended then y.app.output_suspended else not y.app.output_suspended in
      if not y.app.has_lock || not y.app.initialized || same
      then y
      else emit hal (Event.sync_suspended suspended)
          (record y { app = record (y.app) { output_suspended = suspended } })

abbrev mismatched : Option ℕ → Module → Bool
mismatched none app = false
mismatched (some c) app = not (is_client c app.client)

-- `tb_application_get_desired_state`, of the caller's client (none for null) and of which outputs it
-- asked for: whether there is a state, and its power and brightness.
unfoldable pub get_desired_state :
    Option ℕ → Bool → Bool → Module → Status × Option Bool × Option (Bool × ℕ)
get_desired_state client want_has want_out app =
    if not want_has && not want_out
    then (Status.invalid_argument, none, none)
    else if not app.initialized
    then (Status.not_initialized, none, none)
    else if mismatched client app
    then (Status.client_mismatch, none, none)
    else (
      Status.ok,
      (if want_has then some (app.has_applied) else none),
      (if want_out then some (app.applied.power, app.applied.brightness_percent) else none),
    )

-- `tb_application_take_firmware_hint`.
unfoldable pub take_firmware_hint : Module → Bool × Module
take_firmware_hint app =
    if app.has_lock
    then (app.initialized && app.firmware_hint, record app { firmware_hint = false })
    else (false, app)
