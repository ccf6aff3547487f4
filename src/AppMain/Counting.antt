-- ===== src/AppMain/Counting.antt =====
-- app_main.c: the supervisor keeps the count of rejections below the threshold.
use hq_led_lamp.Common.{ℕ, zero, suc, ◌<◌, arith}
use hq_led_lamp.AppMain.Services.{Services, AppState}
use hq_led_lamp.AppMain.Supervisor.{
  Supervisor, network_gate, configuration_gate, backoff_runs, tls_gate, safe_off_gate, run_gate,
  report, before_gate, supervise_iteration, supervise,
}
use hq_led_lamp.AppMain.Rejections.{IsCounting, attempt-IsCounting, loaded-IsCounting}

module _ (svc : Services) (positive : 0 < svc.auth_reject_threshold) where
  open svc use {World}

  tls-IsCounting :
      (v : Supervisor svc) (w : World)
      → IsCounting svc v.session
      → IsCounting svc (tls_gate svc v w).0.session
  unfolding tls_gate
  tls-IsCounting v w h =
      ground
        (arith, h, attempt-IsCounting svc positive v.session (backoff_runs svc v.session w).1 h)

  configuration-IsCounting :
      (v : Supervisor svc) (w : World)
      → IsCounting svc v.session
      → IsCounting svc (configuration_gate svc v w).0.session
  unfolding configuration_gate
  configuration-IsCounting v w h = ground (arith, loaded-IsCounting svc positive v.session w h)

  network-IsCounting :
      (pump : ℕ) (v : Supervisor svc) (w : World)
      → IsCounting svc v.session
      → IsCounting svc (network_gate svc pump v w).0.session
  unfolding network_gate
  network-IsCounting pump v w h = ground (arith, h)

  safe_off-IsCounting :
      (v : Supervisor svc) (w : World)
      → IsCounting svc v.session
      → IsCounting svc (safe_off_gate svc v w).0.session
  unfolding safe_off_gate
  safe_off-IsCounting v w h = ground (arith, h)

  gate-IsCounting :
      (pump : ℕ) (state : AppState) (v : Supervisor svc) (w : World)
      → IsCounting svc v.session
      → IsCounting svc (run_gate svc pump state v w).0.session
  unfolding run_gate
  gate-IsCounting pump AppState.configuration v w h = configuration-IsCounting v w h
  gate-IsCounting pump AppState.network v w h = network-IsCounting pump v w h
  gate-IsCounting pump AppState.tls v w h = tls-IsCounting v w h
  gate-IsCounting pump AppState.safe_off v w h = safe_off-IsCounting v w h
  gate-IsCounting pump AppState.filesystem v w h = h
  gate-IsCounting pump AppState.provisioning v w h = h
  gate-IsCounting pump AppState.sync v w h = h
  gate-IsCounting pump AppState.online v w h = h
  gate-IsCounting pump AppState.fatal v w h = h
  gate-IsCounting pump AppState.ota v w h = h
  gate-IsCounting pump AppState.boot v w h = h

  reported-IsCounting :
      (state : AppState) (v : Supervisor svc)
      → IsCounting svc v.session
      → IsCounting svc (report svc state v).session
  unfolding report
  reported-IsCounting state v h = ground (arith, h)

  iteration-IsCounting :
      (pump : ℕ) (v : Supervisor svc) (w : World)
      → IsCounting svc v.session
      → IsCounting svc (supervise_iteration svc pump v w).0.session
  unfolding supervise_iteration
  iteration-IsCounting pump v w h =
      let w1 = before_gate svc pump v.session w in
      let current = svc.state_current w1 in
      let v1 = (run_gate svc pump current v w1).0 in
      reported-IsCounting current v1 (gate-IsCounting pump current v w1 h)

  -- Between the iterations of the supervisor fewer rejections are counted than the threshold, however many
  -- iterations run and whatever the services answer; where the threshold is positive and the count starts
  -- below it.
  pub supervise-IsCounting :
      (n pump : ℕ) (v : Supervisor svc) (w : World)
      → IsCounting svc v.session
      → IsCounting svc (supervise svc n pump v w).0.session
  unfolding supervise
  supervise-IsCounting zero pump v w h = h
  supervise-IsCounting (suc n) pump v w h =
      let (v1, w1) = supervise_iteration svc pump v w in
      supervise-IsCounting n pump v1 (svc.delay_ms 50 w1) (iteration-IsCounting pump v w h)
