-- ===== src/AppMain/Network.antt =====
-- app_main.c: the delivery of the portal's events, and the bounded wait for the network. The delivery
-- takes fuel; a theorem says how much is enough.
use hq_led_lamp.Common.{
  ℕ, zero, suc, ◌+◌, Bool, true, false, not, ◌&&◌, Option, none, some, ltb, if◌then◌else◌,
}
use hq_led_lamp.AppMain.Services.{
  Services, AppState, AppEvent, AppOwner, PortalEvent, network_connect_timeout_ms,
  network_wait_poll_interval_ms,
}

abbrev pub is_network : AppState → Bool
is_network AppState.network = true
is_network _ = false

abbrev pub is_provisioning : AppState → Bool
is_provisioning AppState.provisioning = true
is_provisioning _ = false

abbrev pub is_online : AppState → Bool
is_online AppState.online = true
is_online _ = false

abbrev pub is_ota : AppState → Bool
is_ota AppState.ota = true
is_ota _ = false

-- One round per interval of the bounded wait, and one to leave it.
abbrev pub gate_fuel : ℕ
gate_fuel = 601

module _ (svc : Services) where
  open svc use {
    World, time_ms, delay_ms, state_current, state_poll, deliver, network_start, network_reconnect,
    network_is_connected, factory_reset_poll, portal_init, portal_stop, portal_poll_event,
    has_saved_credentials, filesystem_init, take_connected, client_is_connected,
    application_on_connected, application_poll, application_is_synchronized, take_firmware_hint,
    ota_on_connected, ota_confirm_image, ota_request_check, ota_poll, retry_exhausted, restart,
  }

  -- `poll_factory_reset`, with CONFIG_KLC_FACTORY_RESET_ENABLE.
  unfoldable pub poll_factory_reset : World → World
  poll_factory_reset w =
      let (now, w1) = time_ms w in
      elim (state_current w) [ AppState.ota ↦ w | _ ↦ factory_reset_poll now w1 ]

  -- What `deliver_provisioning_events` does with an event, in the state that it has read.
  unfoldable pub deliver_portal_event : AppState → PortalEvent → World → World
  deliver_portal_event state PortalEvent.none w = w
  deliver_portal_event state PortalEvent.started w =
      if is_network state then deliver AppEvent.provisioning_started AppOwner.network w else w
  deliver_portal_event state PortalEvent.succeeded w =
      deliver AppEvent.provisioning_succeeded AppOwner.network w
  deliver_portal_event state PortalEvent.failed w =
      deliver AppEvent.provisioning_failed AppOwner.network w

  -- The loop of `deliver_provisioning_events`: whether it has ended, and the world.
  unfoldable pub deliver_provisioning_events : ℕ → World → Bool × World
  deliver_provisioning_events zero w = (false, w)
  deliver_provisioning_events (suc fuel) w =
      let state = state_current w in
      let (event, w1) = portal_poll_event w in
      let rest = deliver_provisioning_events fuel (deliver_portal_event state event w1) in
      if not (is_network state) && not (is_provisioning state)
      then (true, w)
      else elim event [ PortalEvent.none ↦ (true, w1) | _ ↦ rest ]

  -- The loop of `supervise_network_gate` after `waited` milliseconds: the result, none if the fuel of the
  -- gate ran out.
  unfoldable pub gate_loop : ℕ → ℕ → ℕ → World → Option Bool × World
  gate_loop zero pump waited w = (none, w)
  gate_loop (suc fuel) pump waited w =
      let (connected, w1) = network_is_connected w in
      let (pumped, w2) = deliver_provisioning_events pump (poll_factory_reset (state_poll w1)) in
      let (superseded, w3) = network_is_connected w2 in
      let rest =
        gate_loop fuel pump (waited + network_wait_poll_interval_ms)
          (delay_ms network_wait_poll_interval_ms w2) in
      let (logged, w4) = network_is_connected w1 in
      let (final, w5) = network_is_connected w4 in
      if not connected && ltb waited network_connect_timeout_ms
      then if not (is_network (state_current w2)) then (some superseded, w3) else rest
      else (some final, w5)

  -- `supervise_network_gate`.
  unfoldable pub supervise_network_gate : ℕ → World → Bool × World
  supervise_network_gate pump w =
      let (result, w') = gate_loop gate_fuel pump 0 w in
      elim result [ none ↦ (false, w') | some connected ↦ (connected, w') ]
