-- ===== src/AppMain/Connected.antt =====
-- app_main.c: what a verified connection says when it succeeds, and the count of rejections.
use hq_led_lamp.Common.{◌≡◌, ap, true, false, arith}
use hq_led_lamp.AppMain.Services.{Services, Session, ConnectStatus, network_connect_timeout_ms}
use hq_led_lamp.AppMain.Session.{
  Outcome, initialize_client, create_session, connect_enrolled, update_credentials,
  finish_enrollment, connect_client, connect_session, connect_verified_tls,
}

module _ (svc : Services) where
  open svc use {
    World, connect, time_ms, load_and_apply, get_server_url, client_init, application_init, enroll,
    identity_load, client_update,
  }

  -- What an attempt says of its result.
  abbrev pub IsVerified : Outcome svc → Type 0
  IsVerified (false, r) = Unit
  IsVerified (true, (s, w)) =
      (s.needs_provisioning ≡ false)
      × (s.auth_reject_count ≡ 0)
      × (s.backoff_active ≡ false)
      × ((before : World) × (connect network_connect_timeout_ms before ≡ (ConnectStatus.ok, w)))

  -- A successful connection was made in some world.
  abbrev Reached : World → Type 0
  Reached w = (before : World) × (connect network_connect_timeout_ms before ≡ (ConnectStatus.ok, w))

  connect-Reached :
      (w : World)
      → (connect network_connect_timeout_ms w).0 ≡ ConnectStatus.ok
      → Reached (connect network_connect_timeout_ms w).1
  connect-Reached w e = (w, ap (λ x. (x, (connect network_connect_timeout_ms w).1)) e)

  enrolled-IsVerified :
      (s : Session svc) (w : World)
      → s.backoff_active ≡ false
      → IsVerified (connect_enrolled svc s w)
  unfolding connect_enrolled
  enrolled-IsVerified s w h = grind (arith, connect-Reached)

  updated-IsVerified :
      (s : Session svc) (w : World)
      → s.backoff_active ≡ false
      → IsVerified (update_credentials svc s w)
  unfolding update_credentials
  updated-IsVerified s w h = grind (arith, enrolled-IsVerified)

  finished-IsVerified :
      (s : Session svc) (w : World)
      → s.backoff_active ≡ false
      → IsVerified (finish_enrollment svc s w)
  unfolding finish_enrollment
  finished-IsVerified s w h = grind (arith, updated-IsVerified)

  client-IsVerified :
      (s : Session svc) (w : World) → s.backoff_active ≡ false → IsVerified (connect_client svc s w)
  unfolding connect_client
  client-IsVerified s w h = grind (arith, connect-Reached, finished-IsVerified)

  created_backoff :
      (s : Session svc) (w : World) → (create_session svc s w).1.0.backoff_active ≡ s.backoff_active
  unfolding create_session initialize_client
  created_backoff s w = grind arith

  session-IsVerified :
      (s : Session svc) (w : World)
      → s.backoff_active ≡ false
      → IsVerified (connect_session svc s w)
  unfolding connect_session
  session-IsVerified s w h = grind (arith, client-IsVerified, created_backoff)

  -- An attempt that reports a verified connection has made a successful call of mqtt_cfg_connect as the
  -- last thing done, and leaves no enrollment pending, no rejection counted and no backoff running.
  pub connect_verified_tls-IsVerified :
      (s : Session svc) (w : World) → IsVerified (connect_verified_tls svc s w)
  unfolding connect_verified_tls
  connect_verified_tls-IsVerified s w = grind (arith, session-IsVerified)
