-- ===== src/AppMain/MockBoard.antt =====
-- A board to run the supervisor on: the machine's state, the portal's queue, the radio, and a log of what
-- is delivered in which state. A server answers every connection alike.
use hq_led_lamp.Common.{
  ◌<◌, ◌≡◌, ◌⊎◌, inl, inr, refl, sym, subst, Bool, true, false, some, List, [], ◌∷◌, List-cases,
  All, length, arith,
}
use hq_led_lamp.Json.{codes}
use hq_led_lamp.AppMain.Services.{
  Services, AppState, AppEvent, AppOwner, ConnectStatus, PortalEvent,
}
use hq_led_lamp.AppMain.Waits.{Queue}
use hq_led_lamp.AppMain.Rejections.{Rejects}
use hq_led_lamp.AppMain.Deliveries.{Belongs, At, Guarded}

pub record Board : Type 0 where
  pub machine : AppState
  pub queue : List PortalEvent
  pub radio : Bool
  pub log : List (AppState × (AppEvent × AppOwner))

-- Where an event takes the machine.
abbrev pub next : AppEvent → AppState
next AppEvent.fs_ok = AppState.configuration
next AppEvent.fs_fail = AppState.safe_off
next AppEvent.config_ok = AppState.network
next AppEvent.config_fail = AppState.safe_off
next AppEvent.network_connected = AppState.tls
next AppEvent.network_failed = AppState.safe_off
next AppEvent.provisioning_started = AppState.provisioning
next AppEvent.provisioning_succeeded = AppState.network
next AppEvent.provisioning_failed = AppState.safe_off
next AppEvent.tls_connected = AppState.sync
next AppEvent.tls_failed = AppState.safe_off
next AppEvent.sync_complete = AppState.online
next AppEvent.disconnected = AppState.safe_off

abbrev pub pop : Board → PortalEvent × Board
pop w = elim w.queue [ [] ↦ (PortalEvent.none, w) | e ∷ es ↦ (e, record w { queue = es }) ]

abbrev pub record_delivery : AppEvent → AppOwner → Board → Board
record_delivery e owner w = record w { machine = next e; log = (w.machine, (e, owner)) ∷ w.log }

abbrev pub board : ConnectStatus → Services
board answer = record {
  World = Board;
  Client = Unit {0};
  Config = Unit {0};
  auth_reject_threshold = 3;
  reprovision_backoff_ms = 600000;
  device_name = λ c. codes "lamp";
  time_ms = λ w. (0, w);
  delay_ms = λ n w. w;
  load_device = λ w. (true, w);
  load_manufacturing = λ w. (true, w);
  load_and_apply = λ w. (true, w);
  get_server_url = λ w. (some (codes "mqtts://tb"), w);
  connect = λ n w. (answer, w);
  identity_load = λ w. (true, w);
  identity_is_loaded = λ w. true;
  identity_token = λ w. some (some (codes "token"));
  identity_client_id = λ w. some (some (codes "lamp-1"));
  provisioning_load = λ c w. ((true, c), w);
  enroll = λ k c w. (true, w);
  client_init = λ k u t i n w. ((true, some tt), w);
  client_update = λ k t i w. (true, w);
  client_disconnect = λ k w. w;
  client_deinit = λ k w. w;
  application_init = λ k w. (true, w);
  application_deinit = λ w. w;
  state_current = λ w. w.machine;
  state_poll = λ w. w;
  deliver = record_delivery;
  network_start = λ w. (true, w);
  network_reconnect = λ w. w;
  network_is_connected = λ w. (w.radio, w);
  factory_reset_poll = λ now w. w;
  portal_init = λ w. w;
  portal_stop = λ w. w;
  portal_poll_event = pop;
  has_saved_credentials = λ w. (true, w);
  filesystem_init = λ w. (true, w);
  take_connected = λ w. (false, w);
  client_is_connected = λ k w. (true, w);
  application_on_connected = λ k w. w;
  application_poll = λ k w. w;
  application_is_synchronized = λ k w. (true, w);
  take_firmware_hint = λ w. (false, w);
  ota_on_connected = λ k w. w;
  ota_confirm_image = λ w. w;
  ota_request_check = λ w. w;
  ota_poll = λ w. w;
  retry_exhausted = λ w. false;
  restart = λ w. w;
}

-- Every delivery in the log belongs to its state.
abbrev pub LogBelongs : Board → Type 0
LogBelongs w = All (λ d. Belongs d.0 d.1.0 d.1.1) w.log

pop_kept :
    (answer : ConnectStatus) (state : AppState) (w : Board)
    → At (board answer) LogBelongs state w
    → At (board answer) LogBelongs state (pop w).1
pop_kept answer state w h = elim (List-cases w.queue) [
  | inl e ↦ ground (arith, e, h)
  | inr (x, xs, e) ↦ ground (arith, e, h)
]

pub board-Guarded : (answer : ConnectStatus) → Guarded (board answer) LogBelongs
board-Guarded answer = record {
  by_session = λ state. record {
    by_time = λ w h. h;
    by_device = λ w h. h;
    by_manufacturing = λ w h. h;
    by_apply = λ w h. h;
    by_url = λ w h. h;
    by_connect = λ n w h. h;
    by_identity = λ w h. h;
    by_bootstrap = λ c w h. h;
    by_enroll = λ k c w h. h;
    by_init = λ k u t i n w h. h;
    by_update = λ k t i w h. h;
    by_disconnect = λ k w h. h;
    by_deinit = λ k w h. h;
    by_start = λ k w h. h;
    by_stop = λ w h. h;
  };
  by_filesystem = λ state w h. h;
  by_network = λ state w h. h;
  by_portal = λ state w h. h;
  by_event = pop_kept answer;
  by_radio = λ state w h. h;
  by_application = λ state k w h. h;
  by_synchronized = λ state k w h. h;
  by_delivery = λ state e owner w h b. (subst (λ s. Belongs s e owner) (sym h.1) b, h.0);
  by_poll = λ w h. h;
  by_reset = λ now w h. h;
  by_delay = λ n w h. h;
  by_reconnect = λ w h. h;
  by_saved = λ w h. h;
  by_stop = λ w h. h;
  by_taken = λ w h. h;
  by_client = λ k w h. h;
  by_connected = λ k w h. h;
  by_ota_connected = λ k w h. h;
  by_hint = λ w h. h;
  by_confirm = λ w h. h;
  by_check = λ w h. h;
  by_ota = λ w h. h;
  by_restart = λ w h. h;
}

pub board-Rejects : Rejects (board ConnectStatus.auth_rejected)
board-Rejects = record {
  rejects = λ w. refl;
  has_identity = λ w. refl;
  has_bootstrap = λ c w. refl;
}

pub pop_taken :
    (w : Board) → ((pop w).0 ≡ PortalEvent.none) ⊎ (length (pop w).1.queue < length w.queue)
pop_taken w = elim (List-cases w.queue) [
  | inl e ↦ ground (arith, e)
  | inr (x, xs, e) ↦ ground (arith, e)
]

abbrev pub board_queue : (answer : ConnectStatus) → Queue (board answer)
board_queue answer = record {
  pending = λ w. length w.queue;
  taken = pop_taken;
  delivered = λ e owner w. omega arith;
}
