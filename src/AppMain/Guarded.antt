-- ===== src/AppMain/Guarded.antt =====
-- app_main.c: the supervisor delivers only events that belong to the machine's state.
use hq_led_lamp.Common.{ℕ, zero, suc, ◌+◌, ◌≡◌, refl, sym, subst, Bool-cases, true, inl, inr, arith}
use hq_led_lamp.AppMain.Services.{Services, AppState, AppEvent, AppOwner, PortalEvent}
use hq_led_lamp.AppMain.Network.{
  is_network, is_provisioning, is_online, poll_factory_reset, deliver_portal_event,
  deliver_provisioning_events, gate_loop, gate_fuel, supervise_network_gate,
}
use hq_led_lamp.AppMain.Supervisor.{network_connect}
use hq_led_lamp.AppMain.Deliveries.{Belongs, At, Guarded}

is_network_sound : (state : AppState) → is_network state ≡ true → state ≡ AppState.network
is_network_sound state h = ground (arith, h)

is_provisioning_sound :
    (state : AppState) → is_provisioning state ≡ true → state ≡ AppState.provisioning
is_provisioning_sound state h = ground (arith, h)

pub is_online_sound : (state : AppState) → is_online state ≡ true → state ≡ AppState.online
is_online_sound state h = ground (arith, h)

module _ (svc : Services) (P : svc.World → Type 0) (guarded : Guarded svc P) where
  open svc use {World, state_current, deliver}
  open guarded use {
    by_session, by_filesystem, by_network, by_portal, by_event, by_radio, by_application,
    by_synchronized, by_delivery, by_poll, by_reset, by_delay, by_reconnect, by_saved, by_stop,
    by_taken, by_client, by_connected, by_ota_connected, by_hint, by_confirm, by_check, by_ota,
    by_restart,
  }

  pub timed : (state : AppState) (w : World) → At svc P state w → At svc P state (svc.time_ms w).1
  timed state w h = (by_session state).by_time w h

  pub answered : (w : World) → P w → P (svc.network_is_connected w).1
  answered w h = (by_radio (state_current w) w (h, refl)).0

  pub reset_kept : (w : World) → P w → P (poll_factory_reset svc w)
  unfolding poll_factory_reset
  reset_kept w h =
      let (now, w1) = svc.time_ms w in
      let h1 = (timed (state_current w) w (h, refl)).0 in ground (arith, h, by_reset now w1 h1)

  network_event :
      (e : PortalEvent) (w : World)
      → At svc P AppState.network w
      → P (deliver_portal_event svc AppState.network e w)
  unfolding deliver_portal_event
  network_event PortalEvent.none w h = h.0
  network_event PortalEvent.started w h =
      by_delivery AppState.network AppEvent.provisioning_started AppOwner.network w h
        Belongs.started
  network_event PortalEvent.succeeded w h =
      by_delivery AppState.network AppEvent.provisioning_succeeded AppOwner.network w h
        Belongs.early_success
  network_event PortalEvent.failed w h =
      by_delivery AppState.network AppEvent.provisioning_failed AppOwner.network w h
        Belongs.early_failure

  portal_event :
      (e : PortalEvent) (w : World)
      → At svc P AppState.provisioning w
      → P (deliver_portal_event svc AppState.provisioning e w)
  unfolding deliver_portal_event
  portal_event PortalEvent.none w h = h.0
  portal_event PortalEvent.started w h = h.0
  portal_event PortalEvent.succeeded w h =
      by_delivery AppState.provisioning AppEvent.provisioning_succeeded AppOwner.network w h
        Belongs.succeeded
  portal_event PortalEvent.failed w h =
      by_delivery AppState.provisioning AppEvent.provisioning_failed AppOwner.network w h
        Belongs.failed

  pub events_kept : (fuel : ℕ) (w : World) → P w → P (deliver_provisioning_events svc fuel w).1
  unfolding deliver_provisioning_events
  events_kept zero w h = h
  events_kept (suc fuel) w h =
      let (event, w1) = svc.portal_poll_event w in
      let h1 = by_event (state_current w) w (h, refl) in
      let rest = events_kept fuel (deliver_portal_event svc (state_current w) event w1) in
      elim (Bool-cases (is_network (state_current w))) [
        | inl e ↦
            let s = is_network_sound (state_current w) e in
            let h2 =
              subst (λ state. At svc P state w1 → P (deliver_portal_event svc state event w1))
                (sym s) (network_event event w1) h1 in
            ground (arith, e, h1.0, rest h2)
        | inr e ↦ elim (Bool-cases (is_provisioning (state_current w))) [
          | inl f ↦
              let s = is_provisioning_sound (state_current w) f in
              let h2 =
                subst (λ state. At svc P state w1 → P (deliver_portal_event svc state event w1))
                  (sym s) (portal_event event w1) h1 in
              ground (arith, f, h1.0, rest h2)
          | inr f ↦ ground (arith, e, f, h)
        ]
      ]

  gate_loop_kept : (fuel pump waited : ℕ) (w : World) → P w → P (gate_loop svc fuel pump waited w).1
  unfolding gate_loop
  gate_loop_kept zero pump waited w h = h
  gate_loop_kept (suc fuel) pump waited w h =
      let w1 = (svc.network_is_connected w).1 in
      let h1 = answered w h in
      let h' = reset_kept (svc.state_poll w1) (by_poll w1 h1) in
      let w2 =
        (deliver_provisioning_events svc pump (poll_factory_reset svc (svc.state_poll w1))).1 in
      let h2 = events_kept pump (poll_factory_reset svc (svc.state_poll w1)) h' in
      let h3 = answered w2 h2 in
      let h4 = answered w1 h1 in
      let h5 = answered (svc.network_is_connected w1).1 h4 in
      let rest = gate_loop_kept fuel pump (waited + 50) (svc.delay_ms 50 w2) (by_delay 50 w2 h2) in
      ground (arith, h3, h5, rest)

  wait_kept : (pump : ℕ) (w : World) → P w → P (supervise_network_gate svc pump w).1
  unfolding supervise_network_gate
  wait_kept pump w h = ground (arith, gate_loop_kept gate_fuel pump 0 w h)

  pub connect_kept : (pump : ℕ) (w : World) → P w → P (network_connect svc pump w)
  unfolding network_connect
  connect_kept pump w h =
      let w1 = (svc.has_saved_credentials w).1 in
      let h1 = by_saved w h in
      let w2 = (supervise_network_gate svc pump (svc.network_reconnect w1)).1 in
      let h2 = wait_kept pump (svc.network_reconnect w1) (by_reconnect w1 h1) in
      elim (Bool-cases (is_network (state_current w2))) [
        | inr e ↦ ground (arith, e, h1, h2)
        | inl e ↦
            let at : At svc P AppState.network w2 = (h2, is_network_sound (state_current w2) e) in
            let up =
              by_delivery AppState.network AppEvent.network_connected AppOwner.network w2 at
                Belongs.connected in
            let down =
              by_delivery AppState.network AppEvent.network_failed AppOwner.network w2 at
                Belongs.network_failed in
            ground (arith, e, h1, up, down)
      ]
