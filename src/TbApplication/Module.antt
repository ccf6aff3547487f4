-- ===== src/TbApplication/Module.antt =====
-- tb_application.c: the module's state, and what it does to the lamp. The module, the lamp and the
-- hardware are one record; what goes to the platform's other services is a list of events, newest
-- first. A call is one step, and calls are taken one after the other: `osal_mutex_take` and `give`
-- bracket the accesses to the module's record, while the apply callback calls the lamp between them,
-- outside the mutex, where another call could come in between.
use hq_led_lamp.Common.{ℕ, Bool, true, false, ◌&&◌, Option, none, some, List, ◌∷◌, if◌then◌else◌}
use hq_led_lamp.Json.{Text}
use hq_led_lamp.Lamp.Types.{LampState, LampAppliedState}
use hq_led_lamp.Lamp.Hal.{Hal}
use hq_led_lamp.Lamp.Control.{Lamp, zero_applied, status_is_ok}
use hq_led_lamp.Lamp.Operations.{apply_state, force_inactive, release_fail_off, get_applied_state}

abbrev pub zero_state : LampState
zero_state = record { power = false; brightness_percent = 0; red = 0; green = 0; blue = 0 }

-- `tb_app_module_t`. A client is a number that is not null; the mutex exists once `has_lock`.
pub record Module : Type 0 where
  pub initialized : Bool
  pub connected : Bool
  pub output_suspended : Bool
  pub client : Option ℕ
  pub has_lock : Bool
  pub applied : LampState
  pub has_applied : Bool
  pub rpc_state_changed : Bool
  pub rpc_state_pending : LampState
  pub hardware : Text
  pub firmware_hint : Bool

-- Why a request was refused: the texts of the error responses.
pub data RpcError : Type 0 where
  hardware_failure missing_power missing_brightness wrong_type out_of_range : RpcError
  invalid_rgb_channel malformed_json : RpcError

-- What the module hands to the platform.
pub data Event : Type 0 where
  respond_success : ℕ → Option LampState → LampAppliedState → Event
  respond_error : ℕ → RpcError → Event
  -- A success response that could not be built or printed, for want of memory.
  respond_lost : ℕ → Event
  publish_attributes : LampState → Event
  record_state : LampState → Event
  note_state_change : Event
  sync_connected sync_disconnected : ℕ → Event
  sync_suspended : Bool → Event

module _ (hal : Hal) where
  pub record Sys : Type 0 where
    pub app : Module
    pub lamp : Lamp
    pub world : hal.World
    pub events : List Event
    -- Whether the memory for a success response is there, after what has happened so far.
    pub has_memory : List Event → Bool

  abbrev pub emit : Event → Sys → Sys
  emit e y = record y { events = e ∷ y.events }

  -- What `tb_app_rpc_respond_success` hands over: the response, or nothing when cJSON returns null. An
  -- error response is built by the platform.
  unfoldable pub success : ℕ → Option LampState → LampAppliedState → Sys → Event
  success id desired applied y =
      if y.has_memory y.events
      then Event.respond_success id desired applied
      else Event.respond_lost id

  -- `tb_app_fail_off`.
  unfoldable pub app_fail_off : Sys → Sys
  app_fail_off y =
      let (status, lamp', w') = force_inactive hal y.lamp y.world in
      record y { lamp = lamp'; world = w' }

  abbrev pub store : LampState → Sys → Sys
  store desired y = record y { app = record (y.app) { applied = desired; has_applied = true } }

  -- `tb_app_apply_state`, which the synchronizer calls with a desired state.
  unfoldable pub app_apply_state : Option LampState → Bool → Sys → Bool × Sys
  app_apply_state none output_suspended y = (false, y)
  app_apply_state (some desired) output_suspended y =
      if output_suspended
      then (true, store desired y)
      else let (released, lamp1, w1) = release_fail_off hal y.lamp y.world in
        let (status, lamp2, w2) = apply_state hal (some desired) lamp1 w1 in
        let z = record y { lamp = lamp2; world = w2 } in
        if status_is_ok status then (true, store desired z) else (false, app_fail_off z)

  -- A zeroed record into which `lamp_control_get_applied_state` writes, its status ignored.
  abbrev pub read_applied : Sys → LampAppliedState
  read_applied y = elim ((get_applied_state hal true y.lamp).1) [ none ↦ zero_applied | some a ↦ a ]

  abbrev pub mark_pending : LampState → Sys → Sys
  mark_pending desired y = record y {
    app = record (y.app) {
      applied = desired;
      has_applied = true;
      rpc_state_pending = desired;
      rpc_state_changed = true;
    };
  }

-- `client_up w c` is tb_client_is_connected.
module _ (hal : Hal) (client_up : hal.World → ℕ → Bool) where
  unfoldable pub is_connected : Sys hal → Bool
  is_connected y = elim (y.app.client) [
    | none ↦ false
    | some c ↦ y.app.connected && client_up y.world c
  ]

  unfoldable pub publish_applied_attributes : LampState → Sys hal → Sys hal
  publish_applied_attributes s y =
      if is_connected y then emit hal (Event.publish_attributes s) y else y

  -- `tb_app_rpc_apply_and_respond`.
  unfoldable pub rpc_apply_and_respond : ℕ → LampState → Sys hal → Sys hal
  rpc_apply_and_respond id desired y =
      let held = publish_applied_attributes desired (mark_pending hal desired y) in
      if y.app.output_suspended
      then emit hal (success hal id (some desired) (read_applied hal held) held) held
      else let (status, lamp', w') = apply_state hal (some desired) y.lamp y.world in
        let z = record y { lamp = lamp'; world = w' } in
        if status_is_ok status
        then (let published = publish_applied_attributes desired (mark_pending hal desired z) in
            emit hal (success hal id (some desired) lamp'.applied published) published)
        else emit hal (Event.respond_error id RpcError.hardware_failure) z
