-- ===== src/AppMain/Iterations.antt =====
-- app_main.c: the gates and the iterations keep what deliveries that belong to the state keep.
use hq_led_lamp.Common.{
  if◌then◌else◌, ℕ, zero, suc, ◌≡◌, refl, Bool, Bool-cases, not, inl, inr, arith,
}
use hq_led_lamp.AppMain.Services.{Services, Session, AppState, AppEvent, AppOwner}
use hq_led_lamp.AppMain.Network.{is_online, is_ota, poll_factory_reset, deliver_provisioning_events}
use hq_led_lamp.AppMain.Supervisor.{
  Supervisor, service_connection, network_gate, filesystem_gate, configuration_gate, backoff_runs,
  tls_gate, sync_gate, online_gate, safe_off_gate, ota_gate, run_gate, before_gate,
  supervise_iteration, supervise,
}
use hq_led_lamp.AppMain.Session.{load_configuration, connect_verified_tls}
use hq_led_lamp.AppMain.Kept.{configuration_kept, verified_kept}
use hq_led_lamp.AppMain.Guarded.{
  is_online_sound, timed, answered, reset_kept, events_kept, connect_kept,
}
use hq_led_lamp.AppMain.Deliveries.{Belongs, At, Guarded}

module _ (svc : Services) (P : svc.World → Type 0) (guarded : Guarded svc P) where
  open svc use {World, state_current, deliver}
  open guarded use {
    by_session, by_filesystem, by_network, by_portal, by_event, by_radio, by_application,
    by_synchronized, by_delivery, by_poll, by_reset, by_delay, by_reconnect, by_saved, by_stop,
    by_taken, by_client, by_connected, by_ota_connected, by_hint, by_confirm, by_check, by_ota,
    by_restart,
  }

  service_kept : (s : Session svc) (w : World) → P w → P (service_connection svc s w)
  unfolding service_connection
  service_kept s w h =
      let w1 = (svc.take_connected w).1 in
      let h1 = by_taken w h in
      let w2 = (svc.client_is_connected s.tb_client w1).1 in
      let h2 = by_client s.tb_client w1 h1 in
      let h3 = by_connected s.tb_client w2 h2 in
      let h4 = by_ota_connected s.tb_client (svc.application_on_connected s.tb_client w2) h3 in
      ground (arith, h1, h2, h3, h4)

  filesystem_kept : (w : World) → At svc P AppState.filesystem w → P (filesystem_gate svc w)
  unfolding filesystem_gate
  filesystem_kept w h =
      let w1 = (svc.filesystem_init w).1 in
      let h1 = by_filesystem AppState.filesystem w h in
      let good =
        by_delivery AppState.filesystem AppEvent.fs_ok AppOwner.filesystem w1 h1 Belongs.fs_ok in
      let bad =
        by_delivery AppState.filesystem AppEvent.fs_fail AppOwner.filesystem w1 h1
          Belongs.fs_fail in
      ground (arith, good, bad)

  configuration_gate_kept :
      (v : Supervisor svc) (w : World)
      → At svc P AppState.configuration w
      → P (configuration_gate svc v w).1
  unfolding configuration_gate
  configuration_gate_kept v w h =
      let w1 = (load_configuration svc v.session w).1.1 in
      let h1 =
        configuration_kept svc (At svc P AppState.configuration) (by_session AppState.configuration)
          v.session w h in
      let good =
        by_delivery AppState.configuration AppEvent.config_ok AppOwner.configuration w1 h1
          Belongs.config_ok in
      let bad =
        by_delivery AppState.configuration AppEvent.config_fail AppOwner.configuration w1 h1
          Belongs.config_fail in
      ground (arith, good, bad)

  network_gate_kept :
      (pump : ℕ) (v : Supervisor svc) (w : World)
      → At svc P AppState.network w
      → P (network_gate svc pump v w).1
  unfolding network_gate
  network_gate_kept pump v w h =
      let w1 = (svc.network_start w).1 in
      let h1 = by_network AppState.network w h in
      let again = connect_kept svc P guarded pump w h.0 in
      let bad =
        by_delivery AppState.network AppEvent.network_failed AppOwner.network w1 h1
          Belongs.network_failed in
      let first =
        connect_kept svc P guarded pump (svc.portal_init w1) (by_portal AppState.network w1 h1).0 in
      ground (arith, again, bad, first)

  backoff_kept :
      (state : AppState) (s : Session svc) (w : World)
      → At svc P state w
      → At svc P state (backoff_runs svc s w).1
  unfolding backoff_runs
  backoff_kept state s w h = ground (arith, h, timed svc P guarded state w h)

  tls_gate_kept :
      (v : Supervisor svc) (w : World) → At svc P AppState.tls w → P (tls_gate svc v w).1
  unfolding tls_gate
  tls_gate_kept v w h =
      let w1 = (backoff_runs svc v.session w).1 in
      let h1 = backoff_kept AppState.tls v.session w h in
      let w2 = (connect_verified_tls svc v.session w1).1.1 in
      let h2 =
        verified_kept svc (At svc P AppState.tls) (by_session AppState.tls) v.session w1 h1 in
      let good =
        by_delivery AppState.tls AppEvent.tls_connected AppOwner.mqtt w2 h2 Belongs.verified in
      let bad =
        by_delivery AppState.tls AppEvent.tls_failed AppOwner.mqtt w2 h2 Belongs.unverified in
      ground (arith, h1, good, bad)

  sync_gate_kept : (s : Session svc) (w : World) → At svc P AppState.sync w → P (sync_gate svc s w)
  unfolding sync_gate
  sync_gate_kept s w h =
      let w1 = svc.application_poll s.tb_client w in
      let h1 =
        by_synchronized AppState.sync s.tb_client w1
          (by_application AppState.sync s.tb_client w h) in
      let w2 = (svc.application_is_synchronized s.tb_client w1).1 in
      let h2 =
        by_delivery AppState.sync AppEvent.sync_complete AppOwner.thingsboard w2 h1
          Belongs.synchronized in
      let w3 = svc.deliver AppEvent.sync_complete AppOwner.thingsboard w2 in
      let h3 = by_check (svc.ota_confirm_image w3) (by_confirm w3 h2) in ground (arith, h1, h3)

  -- The end of the ONLINE gate.
  online_end :
      (w : World)
      → P w
      → state_current w ≡ AppState.online
      → P (svc.deliver AppEvent.disconnected AppOwner.network (svc.network_is_connected w).1)
  online_end w h e =
      by_delivery AppState.online AppEvent.disconnected AppOwner.network
        (svc.network_is_connected w).1 (by_radio AppState.online w (h, e)) Belongs.disconnected

  online_gate_kept :
      (s : Session svc) (w : World) → At svc P AppState.online w → P (online_gate svc s w)
  unfolding online_gate
  online_gate_kept s w h =
      let w0 = svc.application_poll s.tb_client w in
      let h0 = (by_application AppState.online s.tb_client w h).0 in
      let (hint, w1) = svc.take_firmware_hint w0 in
      let h1 = by_hint w0 h0 in
      let w1' = if hint then svc.ota_request_check w1 else w1 in
      let h1' : P w1' = ground (arith, h1, by_check w1 h1) in
      let w2 = svc.ota_poll w1' in
      let h2 = by_ota w1' h1' in
      elim (Bool-cases (is_online (state_current w2))) [
        | inr e ↦ ground (arith, e, h2)
        | inl e ↦ ground (
          arith,
          e,
          answered svc P guarded w2 h2,
          online_end w2 h2 (is_online_sound (state_current w2) e),
        )
      ]

  safe_off_kept : (v : Supervisor svc) (w : World) → P w → P (safe_off_gate svc v w).1
  unfolding safe_off_gate
  safe_off_kept v w h =
      let w1 = (svc.time_ms w).1 in
      let h1 = (timed svc P guarded (state_current w) w (h, refl)).0 in
      ground (arith, h, h1, by_restart w1 h1)

  ota_gate_kept : (entry : Bool) (s : Session svc) (w : World) → P w → P (ota_gate svc entry s w)
  unfolding ota_gate
  ota_gate_kept entry s w h =
      let w0 = if entry then svc.portal_stop w else w in
      let h0 : P w0 = ground (arith, h, by_stop w h) in
      let w1 = svc.application_poll s.tb_client w0 in
      let h1 = (by_application (state_current w0) s.tb_client w0 (h0, refl)).0 in
      by_ota (svc.take_firmware_hint w1).1 (by_hint w1 h1)

  gate_kept :
      (pump : ℕ) (state : AppState) (v : Supervisor svc) (w : World)
      → At svc P state w
      → P (run_gate svc pump state v w).1
  unfolding run_gate
  gate_kept pump AppState.filesystem v w h = filesystem_kept w h
  gate_kept pump AppState.configuration v w h = configuration_gate_kept v w h
  gate_kept pump AppState.network v w h = network_gate_kept pump v w h
  gate_kept pump AppState.provisioning v w h = h.0
  gate_kept pump AppState.tls v w h = tls_gate_kept v w h
  gate_kept pump AppState.sync v w h = sync_gate_kept v.session w h
  gate_kept pump AppState.online v w h = online_gate_kept v.session w h
  gate_kept pump AppState.safe_off v w h = safe_off_kept v w h.0
  gate_kept pump AppState.fatal v w h = by_stop w h.0
  gate_kept pump AppState.ota v w h = ota_gate_kept (not (is_ota v.last_reported)) v.session w h.0
  gate_kept pump AppState.boot v w h = h.0

  iteration_kept :
      (pump : ℕ) (v : Supervisor svc) (w : World) → P w → P (supervise_iteration svc pump v w).1
  unfolding supervise_iteration before_gate
  iteration_kept pump v w h =
      let w1 = svc.state_poll (poll_factory_reset svc w) in
      let h1 = by_poll (poll_factory_reset svc w) (reset_kept svc P guarded w h) in
      let w2 = service_connection svc v.session w1 in
      let w3 = (deliver_provisioning_events svc pump w2).1 in
      let h3 = events_kept svc P guarded pump w2 (service_kept v.session w1 h1) in
      gate_kept pump (state_current w3) v w3 (h3, refl)

  -- The supervisor delivers no event but those of the table Belongs, with their owner and in the state that
  -- the table gives, which has the portal's outcomes at the PROVISIONING gate and, as the code delivers
  -- them there too, at the NETWORK gate: a property of the world that each call keeps, and each such
  -- delivery keeps, is kept by any number of iterations; where the calls before a delivery leave the
  -- machine's state as it was read.
  pub supervise_guarded :
      (n pump : ℕ) (v : Supervisor svc) (w : World) → P w → P (supervise svc n pump v w).1
  unfolding supervise
  supervise_guarded zero pump v w h = h
  supervise_guarded (suc n) pump v w h =
      let (v1, w1) = supervise_iteration svc pump v w in
      supervise_guarded n pump v1 (svc.delay_ms 50 w1) (by_delay 50 w1 (iteration_kept pump v w h))
