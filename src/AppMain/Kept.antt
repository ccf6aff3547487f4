-- ===== src/AppMain/Kept.antt =====
-- app_main.c: what the session's functions keep of the world.
use hq_led_lamp.Common.{ℕ, false, Option, Option-cases, some, inl, inr, arith}
use hq_led_lamp.Json.{Text}
use hq_led_lamp.AppMain.Services.{Services, Session, ConnectStatus, network_connect_timeout_ms}
use hq_led_lamp.AppMain.Session.{
  load_product_configuration, initialize_client, destroy_session, create_session,
  load_configuration, count_rejection, discard_bootstrap, connect_failed, start_backoff,
  connect_enrolled, update_credentials, finish_enrollment, connect_client, connect_session,
  connect_verified_tls,
}

module _ (svc : Services) where
  -- A property of the world that every call of the session's functions keeps.
  pub record KeptBySession (Q : svc.World → Type 0) : Type 0 where
    pub by_time : (w : svc.World) → Q w → Q (svc.time_ms w).1
    pub by_device : (w : svc.World) → Q w → Q (svc.load_device w).1
    pub by_manufacturing : (w : svc.World) → Q w → Q (svc.load_manufacturing w).1
    pub by_apply : (w : svc.World) → Q w → Q (svc.load_and_apply w).1
    pub by_url : (w : svc.World) → Q w → Q (svc.get_server_url w).1
    pub by_connect : (n : ℕ) (w : svc.World) → Q w → Q (svc.connect n w).1
    pub by_identity : (w : svc.World) → Q w → Q (svc.identity_load w).1
    pub by_bootstrap : (c : svc.Config) (w : svc.World) → Q w → Q (svc.provisioning_load c w).1
    pub by_enroll :
        (k : Option svc.Client) (c : svc.Config) (w : svc.World) → Q w → Q (svc.enroll k c w).1
    pub by_init :
        (k : Option svc.Client) (u t i n : Text) (w : svc.World)
        → Q w
        → Q (svc.client_init k u t i n w).1
    pub by_update :
        (k : Option svc.Client) (t i : Option Text) (w : svc.World)
        → Q w
        → Q (svc.client_update k t i w).1
    pub by_disconnect :
        (k : Option svc.Client) (w : svc.World) → Q w → Q (svc.client_disconnect k w)
    pub by_deinit : (k : Option svc.Client) (w : svc.World) → Q w → Q (svc.client_deinit k w)
    pub by_start : (k : Option svc.Client) (w : svc.World) → Q w → Q (svc.application_init k w).1
    pub by_stop : (w : svc.World) → Q w → Q (svc.application_deinit w)

  module _ (Q : svc.World → Type 0) (kept : KeptBySession Q) where
    open kept use {
      by_time, by_device, by_manufacturing, by_apply, by_url, by_connect, by_identity, by_bootstrap,
      by_enroll, by_init, by_update, by_disconnect, by_deinit, by_start, by_stop,
    }

    product_kept : (w : svc.World) → Q w → Q (load_product_configuration svc w).1
    unfolding load_product_configuration
    product_kept w h = grind (arith, by_device, by_manufacturing)

    client_kept :
        (s : Session svc) (t i n : Text) (w : svc.World)
        → Q w
        → Q (initialize_client svc s t i n w).1.1
    unfolding initialize_client
    client_kept s t i n w h =
        let (url, w1) = svc.get_server_url w in
        let h1 = by_url w h in
        elim (Option-cases url) [
          | inl e ↦ ground (arith, e, h1)
          | inr (u, e) ↦
              let ((created, client), w2) = svc.client_init s.tb_client u t i n w1 in
              let h2 = by_init s.tb_client u t i n w1 h1 in
              let h3 = by_start client w2 h2 in
              let h4 = by_deinit client (svc.application_init client w2).1 h3 in
              ground (arith, e, h2, h3, h4)
        ]

    destroyed_kept : (s : Session svc) (w : svc.World) → Q w → Q (destroy_session svc s w).1
    unfolding destroy_session
    destroyed_kept s w h = elim (Option-cases s.tb_client) [
      | inl e ↦ ground (arith, e, h)
      | inr (c, e) ↦
          let h1 = by_stop w h in
          let h2 = by_disconnect (some c) (svc.application_deinit w) h1 in
          let h3 =
            by_deinit (some c) (svc.client_disconnect (some c) (svc.application_deinit w)) h2 in
          ground (arith, e, h3)
    ]

    created_kept : (s : Session svc) (w : svc.World) → Q w → Q (create_session svc s w).1.1
    unfolding create_session
    created_kept s w h = grind (arith, by_apply, client_kept)

    pub configuration_kept :
        (s : Session svc) (w : svc.World) → Q w → Q (load_configuration svc s w).1.1
    unfolding load_configuration
    configuration_kept s w h = grind (arith, product_kept, by_identity, by_bootstrap, created_kept)

    rejection_kept : (s : Session svc) (w : svc.World) → Q w → Q (count_rejection svc s w).1
    unfolding count_rejection
    rejection_kept s w h = grind (arith, by_bootstrap, destroyed_kept)

    failed_kept :
        (e : ConnectStatus) (s : Session svc) (w : svc.World) → Q w → Q (connect_failed svc e s w).1
    unfolding connect_failed discard_bootstrap
    failed_kept e s w h =
        let (s1, w1) = count_rejection svc s w in
        let h1 = rejection_kept s w h in
        ground (arith, h, h1, destroyed_kept s w h, destroyed_kept s1 w1 h1)

    backoff_kept : (s : Session svc) (w : svc.World) → Q w → Q (start_backoff svc s w).1
    unfolding start_backoff
    backoff_kept s w h = grind (arith, destroyed_kept, by_time)

    enrolled_kept : (s : Session svc) (w : svc.World) → Q w → Q (connect_enrolled svc s w).1.1
    unfolding connect_enrolled
    enrolled_kept s w h =
        let w1 = (svc.load_and_apply w).1 in
        let h1 = by_apply w h in
        ground (arith, h1, destroyed_kept s w1 h1, by_connect network_connect_timeout_ms w1 h1)

    updated_kept : (s : Session svc) (w : svc.World) → Q w → Q (update_credentials svc s w).1.1
    unfolding update_credentials
    updated_kept s w h = elim (Option-cases (svc.identity_token w)) [
      | inl e ↦ ground (arith, e, h)
      | inr (t, e) ↦ elim (Option-cases (svc.identity_client_id w)) [
        | inl f ↦ ground (arith, e, f, h)
        | inr (i, f) ↦
            let h1 = by_update s.tb_client t i w h in
            ground (arith, e, f, h1, enrolled_kept s (svc.client_update s.tb_client t i w).1 h1)
      ]
    ]

    finished_kept : (s : Session svc) (w : svc.World) → Q w → Q (finish_enrollment svc s w).1.1
    unfolding finish_enrollment
    finished_kept s w h = grind (arith, by_enroll, by_identity, backoff_kept, updated_kept)

    attempt_kept : (s : Session svc) (w : svc.World) → Q w → Q (connect_client svc s w).1.1
    unfolding connect_client
    attempt_kept s w h = grind (arith, by_connect, finished_kept, failed_kept)

    session_kept : (s : Session svc) (w : svc.World) → Q w → Q (connect_session svc s w).1.1
    unfolding connect_session
    session_kept s w h =
        let (created, (s1, w1)) = create_session svc s w in
        let h1 = created_kept s w h in
        ground (arith, h, h1, attempt_kept s w h, attempt_kept s1 w1 h1)

    pub verified_kept :
        (s : Session svc) (w : svc.World) → Q w → Q (connect_verified_tls svc s w).1.1
    unfolding connect_verified_tls
    verified_kept s w h =
        let h1 = by_time w h in
        ground (
          arith,
          h1,
          session_kept s w h,
          session_kept (record s { backoff_active = false }) (svc.time_ms w).1 h1,
        )
