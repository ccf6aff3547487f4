-- ===== src/AppMain/Deliveries.antt =====
-- app_main.c: which events the supervisor delivers in which state of the machine.
use hq_led_lamp.Common.{ℕ, ◌≡◌, Option}
use hq_led_lamp.AppMain.Services.{Services, AppState, AppEvent, AppOwner}
use hq_led_lamp.AppMain.Kept.{KeptBySession}

-- The events that belong to a state, by their owners. The portal's outcomes are among
-- those of the NETWORK gate: the code delivers them there too, without looking at the state, although its
-- comments want them only at the PROVISIONING gate.
pub data Belongs : AppState → AppEvent → AppOwner → Type 0 where
  fs_ok : Belongs AppState.filesystem AppEvent.fs_ok AppOwner.filesystem
  fs_fail : Belongs AppState.filesystem AppEvent.fs_fail AppOwner.filesystem
  config_ok : Belongs AppState.configuration AppEvent.config_ok AppOwner.configuration
  config_fail : Belongs AppState.configuration AppEvent.config_fail AppOwner.configuration
  connected : Belongs AppState.network AppEvent.network_connected AppOwner.network
  network_failed : Belongs AppState.network AppEvent.network_failed AppOwner.network
  started : Belongs AppState.network AppEvent.provisioning_started AppOwner.network
  succeeded : Belongs AppState.provisioning AppEvent.provisioning_succeeded AppOwner.network
  failed : Belongs AppState.provisioning AppEvent.provisioning_failed AppOwner.network
  early_success : Belongs AppState.network AppEvent.provisioning_succeeded AppOwner.network
  early_failure : Belongs AppState.network AppEvent.provisioning_failed AppOwner.network
  verified : Belongs AppState.tls AppEvent.tls_connected AppOwner.mqtt
  unverified : Belongs AppState.tls AppEvent.tls_failed AppOwner.mqtt
  synchronized : Belongs AppState.sync AppEvent.sync_complete AppOwner.thingsboard
  disconnected : Belongs AppState.online AppEvent.disconnected AppOwner.network

module _ (svc : Services) where
  open svc use {World, state_current}

  -- A property of the world, and the machine's state beside it.
  abbrev pub At : (World → Type 0) → AppState → World → Type 0
  At P state w = P w × (state_current w ≡ state)

  -- A property that every call keeps, the machine's state with it where only deliveries and polls change
  -- it, and that a delivery keeps of an event that belongs to the state.
  pub record Guarded (P : World → Type 0) : Type 0 where
    pub by_session : (state : AppState) → KeptBySession svc (At P state)
    pub by_filesystem :
        (state : AppState) (w : World) → At P state w → At P state (svc.filesystem_init w).1
    pub by_network :
        (state : AppState) (w : World) → At P state w → At P state (svc.network_start w).1
    pub by_portal : (state : AppState) (w : World) → At P state w → At P state (svc.portal_init w)
    pub by_event :
        (state : AppState) (w : World) → At P state w → At P state (svc.portal_poll_event w).1
    pub by_radio :
        (state : AppState) (w : World) → At P state w → At P state (svc.network_is_connected w).1
    pub by_application :
        (state : AppState) (k : Option svc.Client) (w : World)
        → At P state w
        → At P state (svc.application_poll k w)
    pub by_synchronized :
        (state : AppState) (k : Option svc.Client) (w : World)
        → At P state w
        → At P state (svc.application_is_synchronized k w).1
    pub by_delivery :
        (state : AppState) (e : AppEvent) (owner : AppOwner) (w : World)
        → At P state w
        → Belongs state e owner
        → P (svc.deliver e owner w)
    pub by_poll : (w : World) → P w → P (svc.state_poll w)
    pub by_reset : (now : ℕ) (w : World) → P w → P (svc.factory_reset_poll now w)
    pub by_delay : (n : ℕ) (w : World) → P w → P (svc.delay_ms n w)
    pub by_reconnect : (w : World) → P w → P (svc.network_reconnect w)
    pub by_saved : (w : World) → P w → P (svc.has_saved_credentials w).1
    pub by_stop : (w : World) → P w → P (svc.portal_stop w)
    pub by_taken : (w : World) → P w → P (svc.take_connected w).1
    pub by_client : (k : Option svc.Client) (w : World) → P w → P (svc.client_is_connected k w).1
    pub by_connected :
        (k : Option svc.Client) (w : World) → P w → P (svc.application_on_connected k w)
    pub by_ota_connected : (k : Option svc.Client) (w : World) → P w → P (svc.ota_on_connected k w)
    pub by_hint : (w : World) → P w → P (svc.take_firmware_hint w).1
    pub by_confirm : (w : World) → P w → P (svc.ota_confirm_image w)
    pub by_check : (w : World) → P w → P (svc.ota_request_check w)
    pub by_ota : (w : World) → P w → P (svc.ota_poll w)
    pub by_restart : (w : World) → P w → P (svc.restart w)
