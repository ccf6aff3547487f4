-- ===== src/AppMain/Services.antt =====
-- app_main.c's surroundings: the components that it calls, the platform's state machine and the tasks,
-- as one parameter, and its own static state.
use hq_led_lamp.Common.{ℕ, ◌+◌, ◌-◌, ◌%◌, Bool, Option, leb}
use hq_led_lamp.Json.{Text}

-- The states of the platform's state machine.
pub data AppState : Type 0 where
  boot filesystem configuration network provisioning tls sync online safe_off fatal ota : AppState

-- The events that the program delivers to it, and their owners.
pub data AppEvent : Type 0 where
  fs_ok fs_fail config_ok config_fail network_connected network_failed : AppEvent
  provisioning_started provisioning_succeeded provisioning_failed : AppEvent
  tls_connected tls_failed sync_complete disconnected : AppEvent

pub data AppOwner : Type 0 where
  filesystem configuration network mqtt thingsboard : AppOwner

-- What mqtt_cfg_connect returns: MQTT_CFG_OK, MQTT_CFG_ERR_AUTH_REJECTED, or another status.
pub data ConnectStatus : Type 0 where
  ok auth_rejected failed : ConnectStatus

-- What wifi_provisioning_manager_poll_event returns.
pub data PortalEvent : Type 0 where
  none started succeeded failed : PortalEvent

-- The calls, each with the world that it leaves. A Boolean result says whether the status was the one of
-- success.
pub record Services : Type 1 where
  pub World : Type 0
  pub Client : Type 0  -- tb_client_t
  pub Config : Type 0  -- tb_provisioning_config_t
  pub auth_reject_threshold : ℕ  -- CONFIG_KLC_AUTH_REJECT_REPROVISION_THRESHOLD
  pub reprovision_backoff_ms : ℕ  -- CONFIG_KLC_REPROVISION_BACKOFF_MS
  pub device_name : Config → Text
  pub time_ms : World → ℕ × World  -- osal_task_get_time_ms
  pub delay_ms : ℕ → World → World  -- osal_task_delay_ms
  pub load_device : World → Bool × World  -- app_config_load_device, recovered or not
  pub load_manufacturing : World → Bool × World
  pub load_and_apply : World → Bool × World  -- mqtt_cfg_load_and_apply
  pub get_server_url : World → Option Text × World  -- mqtt_cfg_get_server_url
  pub connect : ℕ → World → ConnectStatus × World  -- mqtt_cfg_connect
  pub identity_load : World → Bool × World  -- device_identity_load
  pub identity_is_loaded : World → Bool  -- device_identity_is_loaded
  -- device_identity_token and device_identity_client_id: none for a failure, else the pointer, or null.
  pub identity_token : World → Option (Option Text)
  pub identity_client_id : World → Option (Option Text)
  -- tb_provisioning_load into a configuration, and tb_provisioning_enroll.
  pub provisioning_load : Config → World → (Bool × Config) × World
  pub enroll : Option Client → Config → World → Bool × World
  -- tb_client_init with the server, the token, the client id and the device name, as they are copied into
  -- its configuration: also the pointer that it leaves.
  pub client_init :
      Option Client → Text → Text → Text → Text → World → (Bool × Option Client) × World
  pub client_update : Option Client → Option Text → Option Text → World → Bool × World
  pub client_disconnect : Option Client → World → World
  pub client_deinit : Option Client → World → World
  pub application_init : Option Client → World → Bool × World  -- tb_application_init
  pub application_deinit : World → World
  pub state_current : World → AppState  -- app_state_current
  pub state_poll : World → World  -- app_state_poll
  pub deliver : AppEvent → AppOwner → World → World  -- app_state_deliver
  pub network_start : World → Bool × World  -- network_manager_start
  pub network_reconnect : World → World  -- network_manager_reconnect
  pub network_is_connected : World → Bool × World  -- network_manager_is_connected
  pub factory_reset_poll : ℕ → World → World
  pub portal_init : World → World  -- MongooseProcess_Init and wifi_provisioning_manager_init
  pub portal_stop : World → World  -- wifi_provisioning_manager_stop
  pub portal_poll_event : World → PortalEvent × World
  pub has_saved_credentials : World → Bool × World
  pub filesystem_init : World → Bool × World  -- lamp_fs_init, its fail-safe callback included
  pub take_connected : World → Bool × World  -- the exchange of s_tb_connected_pending with false
  pub client_is_connected : Option Client → World → Bool × World
  pub application_on_connected : Option Client → World → World
  pub application_poll : Option Client → World → World
  pub application_is_synchronized : Option Client → World → Bool × World
  pub take_firmware_hint : World → Bool × World
  pub ota_on_connected : Option Client → World → World
  pub ota_confirm_image : World → World  -- ota_manager_request_image_confirmation
  pub ota_request_check : World → World
  pub ota_poll : World → World
  pub retry_exhausted : World → Bool  -- app_state_retry_exhausted
  pub restart : World → World  -- esp_restart

abbrev pub network_connect_timeout_ms : ℕ
network_connect_timeout_ms = 30000

abbrev pub network_wait_poll_interval_ms : ℕ
network_wait_poll_interval_ms = 50

-- `(int32_t)(now - at) < 0`, of uint32_t times.
abbrev pub is_before : ℕ → ℕ → Bool
is_before now at = leb 2147483648 ((now + (4294967296 - at)) % 4294967296)

module _ (svc : Services) where
  -- `s_tb_client` and the other static variables of the session.
  pub record Session : Type 0 where
    pub tb_client : Option svc.Client
    pub needs_provisioning : Bool
    pub provisioning_config : svc.Config
    pub auth_reject_count : ℕ
    pub backoff_active : Bool
    pub retry_at_ms : ℕ
