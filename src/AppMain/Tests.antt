-- ===== src/AppMain/Tests.antt =====
-- app_main.c on the board: a boot, and the theorems at concrete states.
use hq_led_lamp.Common.{◌≡◌, refl, true, false, none, some, [], ◌∷◌, ltb, length, arith}
use hq_led_lamp.Json.{text_eq}
use hq_led_lamp.AppMain.Services.{Session, AppState, ConnectStatus, PortalEvent}
use hq_led_lamp.AppMain.Session.{
  connect_verified_tls, connect_session, connect_client, load_configuration,
  load_product_configuration, create_session, session_names, valid_text, initialize_client,
}
use hq_led_lamp.AppMain.Network.{
  poll_factory_reset, deliver_provisioning_events, gate_loop, supervise_network_gate,
}
use hq_led_lamp.AppMain.Supervisor.{
  Supervisor, supervise, supervise_iteration, before_gate, service_connection, run_gate, report,
  filesystem_gate, configuration_gate, network_gate, network_connect, tls_gate, backoff_runs,
  sync_gate, online_gate,
}
use hq_led_lamp.AppMain.MockBoard.{Board, board, board-Guarded, board-Rejects, LogBelongs}
use hq_led_lamp.AppMain.Connected.{IsVerified, connect_verified_tls-IsVerified}
use hq_led_lamp.AppMain.Rejections.{IsCounting, attempts, attempts_reprovision}
use hq_led_lamp.AppMain.Counting.{supervise-IsCounting}
use hq_led_lamp.AppMain.Iterations.{supervise_guarded}
use hq_led_lamp.AppMain.Reset.{clear_state_dir, clear_loop, find_file, remove_file}
use hq_led_lamp.AppMain.MockDir.{dir, dir_laws}
use hq_led_lamp.AppMain.Cleared.{drop, clear_state_dir_lem}

abbrev at_filesystem : Board
at_filesystem = record { machine = AppState.filesystem; queue = []; radio = true; log = [] }

abbrev at_network : Board
at_network = record {
  machine = AppState.network;
  queue = PortalEvent.started ∷ PortalEvent.succeeded ∷ [];
  radio = false;
  log = [];
}

abbrev enrolled : (answer : ConnectStatus) → Session (board answer)
enrolled answer = record {
  tb_client = some tt;
  needs_provisioning = false;
  provisioning_config = tt;
  auth_reject_count = 0;
  backoff_active = false;
  retry_at_ms = 0;
}

abbrev booting : (answer : ConnectStatus) → Supervisor (board answer)
booting answer = record {
  session = record (enrolled answer) { tb_client = none };
  network_bringup_done = false;
  last_reported = AppState.boot;
  last_exhausted = false;
}

connect_verified_tls-IsVerified_example :
    IsVerified
      (board ConnectStatus.ok)
      (connect_verified_tls (board ConnectStatus.ok) (enrolled ConnectStatus.ok) at_filesystem)
connect_verified_tls-IsVerified_example =
    connect_verified_tls-IsVerified (board ConnectStatus.ok) (enrolled ConnectStatus.ok)
      at_filesystem

-- The attempt of that run succeeds.
attempt_connects :
    (connect_verified_tls (board ConnectStatus.ok) (enrolled ConnectStatus.ok) at_filesystem).0
    ≡ true
unfolding connect_verified_tls connect_session connect_client
attempt_connects = refl

attempts_reprovision_example :
    let s' =
      (attempts
        (board ConnectStatus.auth_rejected)
        3
        (enrolled ConnectStatus.auth_rejected)
        at_filesystem).0 in
    (s'.needs_provisioning ≡ true) × (s'.tb_client ≡ none) × (s'.auth_reject_count ≡ 0)
attempts_reprovision_example =
    attempts_reprovision (board ConnectStatus.auth_rejected) board-Rejects 2
      (enrolled ConnectStatus.auth_rejected) at_filesystem tt refl refl refl refl (omega arith)

supervise-IsCounting_example :
    IsCounting
      (board ConnectStatus.auth_rejected)
      (supervise
        (board ConnectStatus.auth_rejected)
        4
        1
        (booting ConnectStatus.auth_rejected)
        at_filesystem).0.session
supervise-IsCounting_example =
    supervise-IsCounting (board ConnectStatus.auth_rejected) (omega arith) 4 1
      (booting ConnectStatus.auth_rejected) at_filesystem (omega arith)

supervise_guarded_example :
    LogBelongs (supervise (board ConnectStatus.ok) 6 1 (booting ConnectStatus.ok) at_filesystem).1
supervise_guarded_example =
    supervise_guarded (board ConnectStatus.ok) LogBelongs (board-Guarded ConnectStatus.ok) 6 1
      (booting ConnectStatus.ok) at_filesystem tt

-- Sixteen files: all are removed, and a failure is reported.
clear_state_dir_lem_example :
    let (cleared, w') = clear_state_dir dir (16, 0) in
    (cleared ≡ ltb (length (dir_laws.files (16, 0))) 16)
    × (dir_laws.files w' ≡ drop 16 (dir_laws.files (16, 0)))
clear_state_dir_lem_example = clear_state_dir_lem dir dir_laws (16, 0)

sixteen_files : (clear_state_dir dir (16, 0)) ≡ (false, (0, 0))
unfolding clear_state_dir clear_loop find_file remove_file text_eq
sixteen_files = refl

-- The boot reaches ONLINE in six iterations.
boots :
    (supervise (board ConnectStatus.ok) 6 1 (booting ConnectStatus.ok) at_filesystem).1.machine
    ≡ AppState.online
unfolding supervise supervise_iteration before_gate poll_factory_reset service_connection
    deliver_provisioning_events run_gate report filesystem_gate configuration_gate
    load_configuration load_product_configuration create_session session_names valid_text
    initialize_client network_gate network_connect supervise_network_gate gate_loop tls_gate
    backoff_runs connect_verified_tls connect_session connect_client sync_gate online_gate
boots = refl
