-- ===== src/MqttCfg/Platform.antt =====
-- mqtt_cfg.c: what it calls of the platform, as a parameter, its static state, and the callbacks that the
-- transport makes, write by write. The public calls are taken one after the other. The lock is given back
-- around the calls that block, where another thread's call could come in: such overlaps of two public
-- calls are not modelled. The steps of the transport's callbacks come in at the calls that block and just
-- before the release of the barrier, and a callback may be cut there.
use hq_led_lamp.Common.{ℕ, Bool, true, false, Option, List, [], ◌∷◌, if◌then◌else◌}
use hq_led_lamp.Json.{Text}
use hq_led_lamp.Lamp.Hal.{Hal}
use hq_led_lamp.Lamp.Control.{Lamp}
use hq_led_lamp.Lamp.Operations.{force_inactive}
use hq_led_lamp.AppConfig.Storage.{Storage}

-- `mqtt_connect_failure_reason_t`, as far as the module tells the reasons apart.
pub data FailureReason : Type 0 where
  auth_rejected config_rejected other : FailureReason

-- An access of a safety callback to the static variables: mqtt_cfg_on_connect looks whether a connect
-- waits, loads the generation, and stores it; the other two end the wait, clear the session, note the
-- failure and whether it was an authentication, and close the gate.
pub data Access : Type 0 where
  looks loads stores ends_wait clears notes_failure closes : Access
  notes_auth : Bool → Access

-- A step of a safety callback on the transport's thread: an access, or the call of mqtt_cfg_fail_off.
pub data Event : Type 0 where
  accesses : Access → Event
  forces : Event

-- What mqtt_config_apply_verified returns.
pub data VerifiedStatus : Type 0 where
  ok ca_error client_cert_error other : VerifiedStatus

-- `mqtt_verified_config_t`; none is a null pointer.
pub record Verified : Type 0 where
  pub address : Text
  pub client_id : Text
  pub username : Option Text
  pub password : Option Text
  pub ca_path : Text
  pub client_cert_path : Option Text
  pub client_key_path : Option Text

-- mqtt_config, mqtt_app, device_identity_token and osal_task_delay_ms over the storage's world. A call that
-- blocks, and `preempt`, give the steps of callbacks that the transport's thread makes meanwhile.
pub record Platform : Type 1 where
  pub files : Storage
  pub invalidate_verified : files.World → files.World
  pub verified_is_current : files.World → Bool
  pub apply_verified : Verified → files.World → VerifiedStatus × files.World
  pub verified_server_url : files.World → Option Text  -- none where it returns false
  pub identity_token : files.World → Option Text  -- none for a failure or a null token
  pub is_connected : files.World → Bool
  pub client_deinit : files.World → List Event × files.World
  pub client_init : files.World → List Event × files.World  -- with the module's callbacks set
  pub delay : ℕ → files.World → List Event × files.World
  pub preempt : files.World → List Event × files.World

-- Where the transport's thread is in mqtt_cfg_on_connect.
pub data Callback : Type 0 where
  outside waited_for : Callback
  loaded : ℕ → Callback

-- The static variables, and what the thread in mqtt_cfg_on_connect has loaded.
pub record State : Type 0 where
  pub verified_applied : Bool
  pub apply_generation : ℕ
  pub connected_generation : ℕ
  pub waiting_for_connection : Bool
  pub connect_failed : Bool
  pub auth_rejected : Bool
  pub callback : Callback

abbrev pub initial_state : State
initial_state = record {
  verified_applied = false;
  apply_generation = 0;
  connected_generation = 0;
  waiting_for_connection = false;
  connect_failed = false;
  auth_rejected = false;
  callback = Callback.outside;
}

abbrev pub is_auth : FailureReason → Bool
is_auth FailureReason.auth_rejected = true
is_auth _ = false

abbrev pub is_config : FailureReason → Bool
is_config FailureReason.config_rejected = true
is_config _ = false

-- A wait is over, and no session counts.
abbrev pub no_session : State → State
no_session t = record t { waiting_for_connection = false; connected_generation = 0 }

-- An access by a callback.
unfoldable pub access : Access → State → State
access Access.looks t = record t {
  callback = if t.waiting_for_connection then Callback.waited_for else Callback.outside;
}
access Access.loads t = elim (t.callback) [
  | Callback.waited_for ↦ record t { callback = Callback.loaded (t.apply_generation) }
  | _ ↦ t
]
access Access.stores t = elim (t.callback) [
  | Callback.loaded generation ↦ record t {
    connected_generation = generation;
    callback = Callback.outside;
  }
  | _ ↦ t
]
access Access.ends_wait t = record t { waiting_for_connection = false }
access Access.clears t = record t { connected_generation = 0 }
access Access.notes_failure t = record t { connect_failed = true }
access Access.closes t = record t { verified_applied = false }
access (Access.notes_auth b) t = record t { auth_rejected = b }

-- The steps of the three callbacks.
abbrev pub on_connect : List Event
on_connect =
    Event.accesses Access.looks ∷ Event.accesses Access.loads ∷ Event.accesses Access.stores ∷ []

abbrev pub on_disconnect : List Event
on_disconnect = Event.accesses Access.ends_wait ∷ Event.accesses Access.clears ∷ Event.forces ∷ []

abbrev pub on_connect_failure : FailureReason → List Event
on_connect_failure reason =
    Event.accesses Access.ends_wait
    ∷ Event.accesses Access.clears
    ∷ Event.accesses Access.notes_failure
    ∷ Event.accesses (Access.notes_auth (is_auth reason))
    ∷ (if is_config reason
        then Event.accesses Access.closes ∷ Event.forces ∷ []
        else Event.forces ∷ [])

module _ (hal : Hal) (p : Platform) where
  -- The module with the lamp, its hardware, and the rest of the world.
  pub record Endpoint : Type 0 where
    pub state : State
    pub lamp : Lamp
    pub hardware : hal.World
    pub world : p.files.World

  -- `mqtt_cfg_fail_off`, which only logs a failure.
  unfoldable pub fail_off_lamp : Endpoint → Endpoint
  fail_off_lamp y =
      let (status, lamp', hw') = force_inactive hal y.lamp y.hardware in
      record y { lamp = lamp'; hardware = hw' }

  -- A step of a callback.
  unfoldable pub on_event : Event → Endpoint → Endpoint
  on_event (Event.accesses a) y = record y { state = access a y.state }
  on_event Event.forces y = fail_off_lamp y

  unfoldable pub deliver : List Event → Endpoint → Endpoint
  deliver [] y = y
  deliver (e ∷ es) y = deliver es (on_event e y)

  -- A call during which the transport's thread takes steps.
  abbrev pub during : (p.files.World → List Event × p.files.World) → Endpoint → Endpoint
  during call y = let (events, w') = call y.world in deliver events (record y { world = w' })

  -- The latch is cleared, and the platform's verified snapshot is invalidated.
  abbrev pub close_gate : Endpoint → Endpoint
  close_gate y = record y {
    state = record (y.state) { verified_applied = false };
    world = p.invalidate_verified y.world;
  }
