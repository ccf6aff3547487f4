-- ===== src/MqttCfg/Sessions.antt =====
-- mqtt_cfg.c: runs of the connection, and the theorems on it at inputs where their hypotheses hold.
use hq_led_lamp.Common.{ℕ, ◌≡◌, ◌≢◌, refl, true, false, Option, none, some, List, [], ◌∷◌, arith}
use hq_led_lamp.Json.{text_eq}
use hq_led_lamp.Json.MockJson.{mock_json}
use hq_led_lamp.Lamp.Hal.{is_ok}
use hq_led_lamp.Lamp.Control.{status_is_ok, fail_off_channel, fail_off_channels, fail_off}
use hq_led_lamp.Lamp.Operations.{force_inactive, release_fail_off}
use hq_led_lamp.AppConfig.Stored.{c_string}
use hq_led_lamp.MqttCfg.Types.{CfgError}
use hq_led_lamp.MqttCfg.Fields.{
  all_printable, is_printable, has_prefix, has_dots, path_under_cert, is_alnum, hostname_loop,
  ends_with_dot, has_colon, hostname_valid,
}
use hq_led_lamp.MqttCfg.Document.{
  has_nul_escape, key_allowed, auth_mode_of, repeated, member_keys, keys_accepted,
  get_string_member, required_string, parse_version, parse_hostname, port_of, parse_port,
  parse_client_id, parse_tls_mode, check_skip_verify, parse_ca_path, parse_credentials,
  parse_members, parse_root,
}
use hq_led_lamp.MqttCfg.Validation.{cert_paths_error, validate_fields}
use hq_led_lamp.MqttCfg.Platform.{
  Access, Event, Platform, Endpoint, initial_state, access, on_disconnect, fail_off_lamp, on_event,
  deliver,
}
use hq_led_lamp.MqttCfg.Load.{
  read_sized, read_file, read_error, checked_cfg, read_document, refuse, load, validate,
}
use hq_led_lamp.MqttCfg.Apply.{
  next_generation, decimal, address_of, usable_token, verified_of, begin_state, begin_apply,
  hand_over, apply_checked, apply_values, apply, load_and_apply, get_server_url,
}
use hq_led_lamp.MqttCfg.Connect.{
  poll_step, verdict, establish, refuse_mutated, expire, connect_loop, reject_start,
  start_transport, may_start, connect,
}
use hq_led_lamp.MqttCfg.Waiting.{connect_total}
use hq_led_lamp.MqttCfg.Dark.{IsBlocked}
use hq_led_lamp.MqttCfg.Trace.{Op, is_session, step, run}
use hq_led_lamp.MqttCfg.Invariants.{IsCurrent, run-IsBlocked, run-IsCurrent}
use hq_led_lamp.MqttCfg.Established.{
  IsVerifiedResult, connect-IsVerifiedResult, connect_silent, connect_after_loss,
}
use hq_led_lamp.MqttCfg.Publish.{
  Place, Publication, unpublished, stand, mark, PublishStep, PublishReach, owned, load_absent,
  create, publish, start, next,
}
use hq_led_lamp.MqttCfg.Published.{published_once}
use hq_led_lamp.MqttCfg.MockBroker.{
  steady_hal, steady_laws, broker, fresh, keyless_cfg, latched, fresh-IsBlocked,
}
use hq_led_lamp.Lamp.Samples.{ready}

-- A load without an output, a configuration without its key, a connect, and a stray callback.
abbrev refused_calls : List Op
refused_calls =
    Op.loads false
    ∷ Op.applies (some keyless_cfg)
    ∷ Op.connects 100
    ∷ Op.notifies (Event.accesses Access.stores)
    ∷ []

abbrev unblocked : Endpoint steady_hal broker
unblocked = record fresh { lamp = ready }

-- A transport that reports nothing, and one that loses its connection before the release.
abbrev silent_broker : Platform
silent_broker = record broker { client_init = λ w. ([], record w { up = true }) }

abbrev losing_broker : Platform
losing_broker = record broker { preempt = λ w. (on_disconnect, w) }

-- The same latched state on either.
abbrev mute : Endpoint steady_hal silent_broker
mute = record {
  state = latched.state;
  lamp = latched.lamp;
  hardware = latched.hardware;
  world = record (latched.world) { up = true };
}

abbrev losing : Endpoint steady_hal losing_broker
losing = record {
  state = latched.state;
  lamp = latched.lamp;
  hardware = latched.hardware;
  world = latched.world;
}

initial-IsCurrent : IsCurrent initial_state
initial-IsCurrent = record { bounded = omega arith; applied = λ h. absurd cc }

-- One thread has published its mutex.
abbrev absent_once : Publication
absent_once = record unpublished { place = stand unpublished 0 Place.absent }

abbrev created_once : Publication
created_once = record absent_once {
  count = 1;
  live = mark absent_once 0 true;
  place = stand absent_once 0 (Place.created 0);
}

abbrev one_thread : Publication
one_thread = record created_once { lock = some 0; place = stand created_once 0 Place.ensured }

one_thread_reached : PublishReach one_thread
one_thread_reached =
    next (next (next start (load_absent 0 refl refl)) (create 0 refl)) (publish 0 0 refl refl)

-- The document is loaded and applied, and the transport connects: the barrier is released.
connected_run :
    (run mock_json steady_hal broker (Op.loads_and_applies ∷ Op.connects 1000 ∷ []) fresh).0 ≡ true
unfolding text_eq has_nul_escape key_allowed auth_mode_of repeated member_keys keys_accepted
    get_string_member required_string parse_version parse_hostname port_of parse_port
    parse_client_id parse_tls_mode check_skip_verify parse_ca_path parse_credentials parse_members
    parse_root all_printable is_printable has_prefix has_dots path_under_cert is_alnum hostname_loop
    ends_with_dot has_colon hostname_valid cert_paths_error validate_fields c_string read_sized
    read_file read_error checked_cfg read_document refuse load validate fail_off_lamp fail_off
    fail_off_channels fail_off_channel is_ok status_is_ok force_inactive next_generation decimal
    address_of usable_token verified_of begin_state begin_apply hand_over apply_checked apply_values
    apply load_and_apply get_server_url access on_event deliver poll_step verdict establish
    refuse_mutated expire connect_loop reject_start start_transport may_start connect
    release_fail_off is_session step run
connected_run = refl

run-IsBlocked_example :
    IsBlocked steady_laws
      (run mock_json steady_hal broker refused_calls fresh).1.lamp
      (run mock_json steady_hal broker refused_calls fresh).1.hardware
unfolding all_printable is_printable has_prefix has_dots path_under_cert is_alnum hostname_loop
    ends_with_dot has_colon hostname_valid cert_paths_error validate_fields c_string read_sized
    read_file read_error checked_cfg read_document refuse load validate fail_off_lamp fail_off
    fail_off_channels fail_off_channel is_ok status_is_ok force_inactive next_generation decimal
    address_of usable_token verified_of begin_state begin_apply hand_over apply_checked apply_values
    apply load_and_apply get_server_url access on_event deliver poll_step verdict establish
    refuse_mutated expire connect_loop reject_start start_transport may_start connect
    release_fail_off is_session step run
run-IsBlocked_example =
    run-IsBlocked steady_laws broker mock_json refused_calls fresh refl fresh-IsBlocked

run-IsCurrent_example : IsCurrent (run mock_json steady_hal broker refused_calls fresh).1.state
run-IsCurrent_example =
    run-IsCurrent steady_hal broker mock_json refused_calls fresh initial-IsCurrent

connect-IsVerifiedResult_example :
    (may_start steady_hal broker latched ≡ true)
    × ((connect steady_hal broker 1000 latched).1.lamp.fail_off_barrier ≡ false)
    × IsVerifiedResult steady_hal broker (connect steady_hal broker 1000 latched)
unfolding c_string read_sized read_file read_error checked_cfg read_document refuse load validate
    fail_off_lamp fail_off fail_off_channels fail_off_channel is_ok status_is_ok force_inactive
    access on_event deliver poll_step verdict establish refuse_mutated expire connect_loop
    reject_start start_transport may_start connect release_fail_off
connect-IsVerifiedResult_example = connect-IsVerifiedResult steady_hal broker 1000 latched refl

connect_silent_example : (connect steady_hal silent_broker 1000 mute).0 ≢ some none
connect_silent_example =
    connect_silent steady_hal silent_broker (λ w. tt) (λ ms w. tt) 1000 mute
      (record { bounded = omega arith; applied = λ h. omega arith })

connect_after_loss_example :
    let (status, y') = connect steady_hal losing_broker 1000 losing in
    (y'.lamp.fail_off_barrier ≡ false) × (y'.state.connected_generation ≡ 0)
unfolding c_string read_sized read_file read_error checked_cfg read_document refuse load validate
    fail_off_lamp fail_off fail_off_channels fail_off_channel is_ok status_is_ok force_inactive
    access on_event deliver poll_step verdict establish refuse_mutated expire connect_loop
    reject_start start_transport may_start connect release_fail_off
connect_after_loss_example =
    connect_after_loss steady_hal losing_broker 1000 losing (λ w. refl) refl

connect_total_example :
    (result : Option CfgError) × ((connect steady_hal silent_broker 1000 mute).0 ≡ some result)
connect_total_example = connect_total steady_hal silent_broker 1000 mute

published_once_example :
    (m : ℕ) × (one_thread.lock ≡ some m)
    × (one_thread.live m ≡ true)
    × ((s' : Publication) → PublishStep one_thread s' → s'.lock ≡ some m)
    × (((u : ℕ) → owned (one_thread.place u) ≡ none) → (n : ℕ) → one_thread.live n ≡ true → n ≡ m)
published_once_example = published_once one_thread 0 one_thread_reached refl
