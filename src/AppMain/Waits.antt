-- ===== src/AppMain/Waits.antt =====
-- app_main.c: the loops of the supervisor end.
use hq_led_lamp.Common.{
  ℕ, zero, suc, ◌+◌, ◌*◌, ◌≤◌, ◌<◌, ◌≡◌, ◌≢◌, ◌⊎◌, refl, ap, Bool, true, false, Option, none, some,
  arith,
}
use hq_led_lamp.AppMain.Services.{Services, AppState, AppEvent, AppOwner, PortalEvent}
use hq_led_lamp.AppMain.Network.{
  is_network, is_provisioning, gate_fuel, poll_factory_reset, deliver_portal_event,
  deliver_provisioning_events, gate_loop, supervise_network_gate,
}

module _ (svc : Services) where
  open svc use {
    World, state_current, state_poll, deliver, network_is_connected, delay_ms, portal_poll_event,
  }

  -- What the wait returns was the radio's last answer.
  abbrev pub IsAnswer : Option Bool × World → Type 0
  IsAnswer (none, w) = ⊥
  IsAnswer (some b, w) = (before : World) × (network_is_connected before ≡ (b, w))

  answered : (w : World) → IsAnswer (some (network_is_connected w).0, (network_is_connected w).1)
  answered w = (w, refl)

  gate_loop-IsAnswer :
      (fuel pump waited : ℕ) (w : World)
      → 30000 ≤ waited + 50 * fuel
      → IsAnswer (gate_loop svc (suc fuel) pump waited w)
  unfolding gate_loop
  gate_loop-IsAnswer zero pump waited w h = grind (arith, answered)
  gate_loop-IsAnswer (suc fuel) pump waited w h =
      let w2 =
        (deliver_provisioning_events svc pump
          (poll_factory_reset svc (state_poll (network_is_connected w).1))).1 in
      ground (
        arith,
        answered w2,
        answered (network_is_connected (network_is_connected w).1).1,
        gate_loop-IsAnswer fuel pump (waited + 50) (delay_ms 50 w2),
      )

  -- The wait for the network ends within its fuel, whatever the world does, and what it returns is the
  -- radio's last answer.
  pub supervise_network_gate_total :
      (pump : ℕ) (w : World)
      → ((gate_loop svc gate_fuel pump 0 w).0 ≢ none)
        × ((before : World) × (network_is_connected before ≡ supervise_network_gate svc pump w))
  unfolding supervise_network_gate
  supervise_network_gate_total pump w =
      let h = gate_loop-IsAnswer 600 pump 0 w (omega arith) in grind (arith, h)

  -- A queue of portal events in which each event that is taken out is gone, and to which a delivery to the
  -- state machine adds nothing.
  pub record Queue : Type 0 where
    pub pending : World → ℕ
    pub taken :
        (w : World)
        → ((portal_poll_event w).0 ≡ PortalEvent.none)
          ⊎ (pending (portal_poll_event w).1 < pending w)
    pub delivered :
        (e : AppEvent) (owner : AppOwner) (w : World) → pending (deliver e owner w) ≤ pending w

  -- Where the delivery of the events may stop: away from their two states, or with nothing to take.
  abbrev pub IsDrained : World → Type 0
  IsDrained w =
      ((is_network (state_current w) ≡ false) × (is_provisioning (state_current w) ≡ false))
      ⊎ ((before : World) × (portal_poll_event before ≡ (PortalEvent.none, w)))

  module _ (queue : Queue) where
    open queue use {pending, taken, delivered}

    event_pending :
        (state : AppState) (event : PortalEvent) (w : World)
        → pending (deliver_portal_event svc state event w) ≤ pending w
    unfolding deliver_portal_event
    event_pending state PortalEvent.none w = omega arith
    event_pending state PortalEvent.started w =
        ground (arith, delivered AppEvent.provisioning_started AppOwner.network w)
    event_pending state PortalEvent.succeeded w =
        delivered AppEvent.provisioning_succeeded AppOwner.network w
    event_pending state PortalEvent.failed w =
        delivered AppEvent.provisioning_failed AppOwner.network w

    none_taken :
        (w : World)
        → (portal_poll_event w).0 ≡ PortalEvent.none
        → (before : World) × (portal_poll_event before
            ≡ (PortalEvent.none, (portal_poll_event w).1))
    none_taken w e = (w, ap (λ x. (x, (portal_poll_event w).1)) e)

    -- The delivery of the portal's events ends after at most as many rounds as events wait, and one: the
    -- machine has left the two states in which they count, or none is left.
    pub deliver_provisioning_events_total :
        (fuel : ℕ) (w : World)
        → pending w < fuel
        → let (done, w') = deliver_provisioning_events svc fuel w in (done ≡ true) × IsDrained w'
    unfolding deliver_provisioning_events
    deliver_provisioning_events_total zero w h = absurd (omega arith)
    deliver_provisioning_events_total (suc fuel) w h =
        let (event, w1) = portal_poll_event w in
        let w2 = deliver_portal_event svc (state_current w) event w1 in
        let p = event_pending (state_current w) event w1 in
        grind (arith, taken w, p, none_taken w, deliver_provisioning_events_total fuel w2)
