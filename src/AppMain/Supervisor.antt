-- ===== src/AppMain/Supervisor.antt =====
-- app_main.c: the supervisor's gates and its iteration. What is only logged is left out. An iteration
-- takes the fuel of the loop that delivers the portal's events.
use hq_led_lamp.Common.{ℕ, zero, suc, Bool, true, false, not, ◌||◌, none, some, if◌then◌else◌}
use hq_led_lamp.AppMain.Services.{Services, Session, AppState, AppEvent, AppOwner, is_before}
use hq_led_lamp.AppMain.Network.{
  is_network, is_online, is_ota, poll_factory_reset, deliver_provisioning_events,
  supervise_network_gate,
}
use hq_led_lamp.AppMain.Session.{load_configuration, connect_verified_tls}

module _ (svc : Services) where
  open svc use {
    World, time_ms, delay_ms, state_current, state_poll, deliver, network_start, network_reconnect,
    network_is_connected, factory_reset_poll, portal_init, portal_stop, portal_poll_event,
    has_saved_credentials, filesystem_init, take_connected, client_is_connected,
    application_on_connected, application_poll, application_is_synchronized, take_firmware_hint,
    ota_on_connected, ota_confirm_image, ota_request_check, ota_poll, retry_exhausted, restart,
  }

  -- `service_thingsboard_connection`.
  unfoldable pub service_connection : Session svc → World → World
  service_connection s w =
      let (pending, w1) = take_connected w in
      let (up, w2) = client_is_connected s.tb_client w1 in
      let w3 = application_on_connected s.tb_client w2 in
      if not pending then w1 else elim s.tb_client [
        | none ↦ w1
        | some client ↦
            if not up
            then w2
            else if s.needs_provisioning
            then w3
            else ota_on_connected s.tb_client w3
      ]

  -- The connection of the NETWORK gate, once the network is up.
  unfoldable pub network_connect : ℕ → World → World
  network_connect pump w =
      let (credentialed, w1) = has_saved_credentials w in
      let (connected, w2) = supervise_network_gate svc pump (network_reconnect w1) in
      if not credentialed
      then w1
      else if not (is_network (state_current w2))
      then w2
      else if connected
      then deliver AppEvent.network_connected AppOwner.network w2
      else deliver AppEvent.network_failed AppOwner.network w2

  -- The static variables of the supervisor, with those of the session.
  pub record Supervisor : Type 0 where
    pub session : Session svc
    pub network_bringup_done : Bool
    pub last_reported : AppState
    pub last_exhausted : Bool

  unfoldable pub network_gate : ℕ → Supervisor → World → Supervisor × World
  network_gate pump v w =
      let (started, w1) = network_start w in
      let v1 = record v { network_bringup_done = true } in
      if v.network_bringup_done
      then (v, network_connect pump w)
      else if not started
      then (v1, deliver AppEvent.network_failed AppOwner.network w1)
      else (v1, network_connect pump (portal_init w1))

  unfoldable pub filesystem_gate : World → World
  filesystem_gate w =
      let (mounted, w1) = filesystem_init w in
      if mounted
      then deliver AppEvent.fs_ok AppOwner.filesystem w1
      else deliver AppEvent.fs_fail AppOwner.filesystem w1

  unfoldable pub configuration_gate : Supervisor → World → Supervisor × World
  configuration_gate v w =
      let (loaded, (s, w1)) = load_configuration svc v.session w in
      let v1 = record v { session = s } in
      if loaded
      then (v1, deliver AppEvent.config_ok AppOwner.configuration w1)
      else (v1, deliver AppEvent.config_fail AppOwner.configuration w1)

  -- Whether the backoff still runs, and the world after the time was read.
  unfoldable pub backoff_runs : Session svc → World → Bool × World
  backoff_runs s w =
      let (now, w1) = time_ms w in
      if s.backoff_active then (is_before now s.retry_at_ms, w1) else (false, w)

  unfoldable pub tls_gate : Supervisor → World → Supervisor × World
  tls_gate v w =
      let (waiting, w1) = backoff_runs v.session w in
      let (connected, (s, w2)) = connect_verified_tls svc v.session w1 in
      let v1 = record v { session = s } in
      if waiting
      then (v, w1)
      else if connected
      then (v1, deliver AppEvent.tls_connected AppOwner.mqtt w2)
      else (v1, deliver AppEvent.tls_failed AppOwner.mqtt w2)

  unfoldable pub sync_gate : Session svc → World → World
  sync_gate s w =
      let (synchronized, w1) =
        application_is_synchronized s.tb_client (application_poll s.tb_client w) in
      if synchronized
      then ota_request_check
          (ota_confirm_image (deliver AppEvent.sync_complete AppOwner.thingsboard w1))
      else w1

  unfoldable pub online_gate : Session svc → World → World
  online_gate s w =
      let (hint, w1) = take_firmware_hint (application_poll s.tb_client w) in
      let w2 = ota_poll (if hint then ota_request_check w1 else w1) in
      let (connected, w3) = network_is_connected w2 in
      if not (is_online (state_current w2))
      then w2
      else if not connected
      then deliver AppEvent.disconnected AppOwner.network w3
      else w3

  unfoldable pub safe_off_gate : Supervisor → World → Supervisor × World
  safe_off_gate v w =
      let exhausted = retry_exhausted w in
      let v1 = record v { last_exhausted = exhausted } in
      let (now, w1) = time_ms w in
      if not v.session.backoff_active || not exhausted
      then (v1, w)
      else if is_before now v.session.retry_at_ms
      then (v1, w1)
      else (v1, restart w1)

  unfoldable pub ota_gate : Bool → Session svc → World → World
  ota_gate report_entry s w =
      let w1 = application_poll s.tb_client (if report_entry then portal_stop w else w) in
      let (hint, w2) = take_firmware_hint w1 in ota_poll w2

  -- The switch of `supervise_iteration`.
  unfoldable pub run_gate : ℕ → AppState → Supervisor → World → Supervisor × World
  run_gate pump AppState.filesystem v w = (v, filesystem_gate w)
  run_gate pump AppState.configuration v w = configuration_gate v w
  run_gate pump AppState.network v w = network_gate pump v w
  run_gate pump AppState.provisioning v w = (v, w)
  run_gate pump AppState.tls v w = tls_gate v w
  run_gate pump AppState.sync v w = (v, sync_gate v.session w)
  run_gate pump AppState.online v w = (v, online_gate v.session w)
  run_gate pump AppState.safe_off v w = safe_off_gate v w
  run_gate pump AppState.fatal v w = (v, portal_stop w)
  run_gate pump AppState.ota v w = (v, ota_gate (not (is_ota v.last_reported)) v.session w)
  run_gate pump AppState.boot v w = (v, w)

  -- The end of `supervise_iteration`, which FATAL leaves earlier.
  unfoldable pub report : AppState → Supervisor → Supervisor
  report AppState.fatal v = v
  report state v = record v { last_reported = state }

  -- What an iteration does before it reads the state.
  unfoldable pub before_gate : ℕ → Session svc → World → World
  before_gate pump s w =
      let w1 = state_poll (poll_factory_reset svc w) in
      let (done, w2) = deliver_provisioning_events svc pump (service_connection s w1) in w2

  unfoldable pub supervise_iteration : ℕ → Supervisor → World → Supervisor × World
  supervise_iteration pump v w =
      let w1 = before_gate pump v.session w in
      let current = state_current w1 in
      let (v1, w2) = run_gate pump current v w1 in (report current v1, w2)

  -- `supervise`, for a number of iterations.
  unfoldable pub supervise : ℕ → ℕ → Supervisor → World → Supervisor × World
  supervise zero pump v w = (v, w)
  supervise (suc n) pump v w =
      let (v1, w1) = supervise_iteration pump v w in supervise n pump v1 (delay_ms 50 w1)
