-- ===== src/AppMain/Rejections.antt =====
-- app_main.c: rejected credentials are counted up to the threshold, and then enrolled anew.
use hq_led_lamp.Common.{ℕ, zero, suc, ◌+◌, ◌<◌, ◌≡◌, true, false, none, some, arith}
use hq_led_lamp.AppMain.Services.{Services, Session, ConnectStatus, network_connect_timeout_ms}
use hq_led_lamp.AppMain.Session.{
  initialize_client, destroy_session, create_session, load_configuration, count_rejection,
  discard_bootstrap, connect_failed, start_backoff, connect_enrolled, update_credentials,
  finish_enrollment, connect_client, connect_session, connect_verified_tls,
}

module _ (svc : Services) where
  open svc use {
    World, Client, connect, identity_is_loaded, provisioning_load, auth_reject_threshold,
  }

  -- Sessions that hold the count below the threshold.
  abbrev pub IsCounting : Session svc → Type 0
  IsCounting s = s.auth_reject_count < auth_reject_threshold

  created_count :
      (s : Session svc) (w : World)
      → (create_session svc s w).1.0.auth_reject_count ≡ s.auth_reject_count
  unfolding create_session initialize_client
  created_count s w = grind arith

  destroyed_count :
      (s : Session svc) (w : World)
      → (destroy_session svc s w).0.auth_reject_count ≡ s.auth_reject_count
  unfolding destroy_session
  destroyed_count s w = grind arith

  module _ (positive : 0 < auth_reject_threshold) where
    counted-IsCounting :
        (s : Session svc) (w : World) → IsCounting s → IsCounting (count_rejection svc s w).0
    unfolding count_rejection
    counted-IsCounting s w h = grind (arith, destroyed_count)

    failed-IsCounting :
        (e : ConnectStatus) (s : Session svc) (w : World)
        → IsCounting s
        → IsCounting (connect_failed svc e s w).0
    unfolding connect_failed discard_bootstrap
    failed-IsCounting e s w h = grind (arith, destroyed_count, counted-IsCounting)

    finished-IsCounting :
        (s : Session svc) (w : World) → IsCounting s → IsCounting (finish_enrollment svc s w).1.0
    unfolding finish_enrollment start_backoff update_credentials connect_enrolled
    finished-IsCounting s w h = grind (arith, destroyed_count)

    client-IsCounting :
        (s : Session svc) (w : World) → IsCounting s → IsCounting (connect_client svc s w).1.0
    unfolding connect_client
    client-IsCounting s w h = grind (arith, finished-IsCounting, failed-IsCounting)

    pub attempt-IsCounting :
        (s : Session svc) (w : World) → IsCounting s → IsCounting (connect_verified_tls svc s w).1.0
    unfolding connect_verified_tls connect_session
    attempt-IsCounting s w h = grind (arith, client-IsCounting, created_count)

    pub loaded-IsCounting :
        (s : Session svc) (w : World) → IsCounting s → IsCounting (load_configuration svc s w).1.0
    unfolding load_configuration
    loaded-IsCounting s w h = grind (arith, created_count)

  -- Attempts one after the other.
  unfoldable pub attempts : ℕ → Session svc → World → Session svc × World
  attempts zero s w = (s, w)
  attempts (suc n) s w =
      let (connected, (s', w')) = connect_verified_tls svc s w in attempts n s' w'

  -- A server that rejects the device's credentials, which are there, and so is the bootstrap document.
  pub record Rejects : Type 0 where
    pub rejects :
        (w : World) → (connect network_connect_timeout_ms w).0 ≡ ConnectStatus.auth_rejected
    pub has_identity : (w : World) → identity_is_loaded w ≡ true
    pub has_bootstrap : (c : svc.Config) (w : World) → (provisioning_load c w).0.0 ≡ true

  module _ (law : Rejects) where
    open law use {rejects, has_identity, has_bootstrap}

    rejected_count :
        (s : Session svc) (w : World) (c : Client)
        → s.needs_provisioning ≡ false
        → s.backoff_active ≡ false
        → s.tb_client ≡ some c
        → s.auth_reject_count + 1 < auth_reject_threshold
        → auth_reject_threshold < 4294967296
        → let s' = (connect_verified_tls svc s w).1.0 in
          (s'.auth_reject_count ≡ s.auth_reject_count + 1)
          × (s'.needs_provisioning ≡ false)
          × (s'.backoff_active ≡ false)
          × (s'.tb_client ≡ some c)
    unfolding connect_verified_tls connect_session connect_client connect_failed discard_bootstrap
        count_rejection
    rejected_count s w c needs idle client below small = grind (arith, rejects w, has_identity w)

    rejected_last :
        (s : Session svc) (w : World) (c : Client)
        → s.needs_provisioning ≡ false
        → s.backoff_active ≡ false
        → s.tb_client ≡ some c
        → s.auth_reject_count + 1 ≡ auth_reject_threshold
        → auth_reject_threshold < 4294967296
        → let s' = (connect_verified_tls svc s w).1.0 in
          (s'.needs_provisioning ≡ true) × (s'.tb_client ≡ none) × (s'.auth_reject_count ≡ 0)
    unfolding connect_verified_tls connect_session connect_client connect_failed discard_bootstrap
        count_rejection destroy_session
    rejected_last s w c needs idle client last small = grind (
      arith,
      rejects w,
      has_identity w,
      has_bootstrap s.provisioning_config (connect network_connect_timeout_ms w).1,
    )

    -- While the server rejects the device's credentials, as many attempts as are missing to the threshold
    -- give the session up and schedule a new enrollment, with the count at zero; where the device's
    -- identity and the bootstrap document are there.
    pub attempts_reprovision :
        (n : ℕ) (s : Session svc) (w : World) (c : Client)
        → s.needs_provisioning ≡ false
        → s.backoff_active ≡ false
        → s.tb_client ≡ some c
        → s.auth_reject_count + suc n ≡ auth_reject_threshold
        → auth_reject_threshold < 4294967296
        → let s' = (attempts (suc n) s w).0 in
          (s'.needs_provisioning ≡ true) × (s'.tb_client ≡ none) × (s'.auth_reject_count ≡ 0)
    unfolding attempts
    attempts_reprovision zero s w c needs idle client total small =
        rejected_last s w c needs idle client (omega arith) small
    attempts_reprovision (suc n) s w c needs idle client total small =
        let (count, needs', idle', client') =
          rejected_count s w c needs idle client (omega arith) small in
        let (connected, (s', w')) = connect_verified_tls svc s w in
        attempts_reprovision n s' w' c needs' idle' client' (omega (arith, total, count)) small
