-- ===== src/TbApplication/Rpc.antt =====
-- tb_application.c: the RPC handlers and the callback that runs them.
use hq_led_lamp.Common.{ℕ, Bool, true, false, not, ◌&&◌, ◌||◌, Option, none, some, if◌then◌else◌}
use hq_led_lamp.Json.{Text, Doubles, CJson, codes}
use hq_led_lamp.Lamp.Types.{LampState}
use hq_led_lamp.Lamp.Hal.{Hal}
use hq_led_lamp.Lamp.Operations.{get_applied_state}
use hq_led_lamp.TbApplication.Parse.{parse_brightness}
use hq_led_lamp.TbApplication.Fields.{
  has_field, rpc_parse_power, rpc_brightness_type_ok, rpc_parse_rgb, rpc_parse_rgb_partial,
}
use hq_led_lamp.TbApplication.Module.{
  Sys, RpcError, Event, zero_state, emit, success, is_connected, rpc_apply_and_respond,
}

-- The entries of `s_rpc_methods`.
pub data Method : Type 0 where
  set_power set_brightness set_state set_color get_state : Method

module _ (hal : Hal) where
  abbrev fail : ℕ → RpcError → Sys hal → Sys hal
  fail id e y = emit hal (Event.respond_error id e) y

  -- `tb_app_rpc_current_state`.
  unfoldable pub rpc_current_state : Sys hal → Option LampState
  rpc_current_state y = elim ((get_applied_state hal true y.lamp).1) [
    | none ↦ none
    | some a ↦ some (record {
      power = a.power;
      brightness_percent = a.brightness_percent;
      red = a.red;
      green = a.green;
      blue = a.blue;
    })
  ]

  -- The base of setState: what the lamp has, or white if it cannot say.
  abbrev pub state_base : Sys hal → LampState
  state_base y = elim (rpc_current_state y) [
    | none ↦ record zero_state { red = 255; green = 255; blue = 255 }
    | some s ↦ s
  ]

  unfoldable pub handle_get_state : ℕ → Sys hal → Sys hal
  handle_get_state id y =
      let desired = if y.app.has_applied then some (y.app.applied) else none in
      elim ((get_applied_state hal true y.lamp).1) [
        | none ↦ fail id RpcError.hardware_failure y
        | some a ↦ emit hal (success hal id desired a y) y
      ]

  abbrev pub set_changed : Bool → Sys hal → Sys hal
  set_changed b y = record y { app = record (y.app) { rpc_state_changed = b } }

  -- What follows a handler: the flag goes down, and a change goes to the synchronizer.
  unfoldable pub rpc_finish : Sys hal → Sys hal
  rpc_finish y =
      let z = set_changed false y in
      let recorded = emit hal (Event.record_state (y.app.rpc_state_pending)) z in
      if y.app.rpc_state_changed
      then (if y.app.output_suspended then recorded else emit hal Event.note_state_change recorded)
      else z

module _ (hal : Hal) (client_up : hal.World → ℕ → Bool) {d : Doubles} (j : CJson d) where
  open j use {Item}

  abbrev apply_and_respond : ℕ → LampState → Sys hal → Sys hal
  apply_and_respond = rpc_apply_and_respond hal client_up

  unfoldable pub handle_set_color : ℕ → Item → Sys hal → Sys hal
  handle_set_color id params y = elim (rpc_current_state hal y) [
    | none ↦ fail hal id RpcError.hardware_failure y
    | some s ↦ elim (rpc_parse_rgb_partial j params s) [
      | none ↦ fail hal id RpcError.invalid_rgb_channel y
      | some desired ↦ apply_and_respond id desired y
    ]
  ]

  unfoldable pub handle_set_power : ℕ → Item → Sys hal → Sys hal
  handle_set_power id params y =
      if has_field j params (codes "power")
      then elim (rpc_parse_power j params) [
        | none ↦ fail hal id RpcError.wrong_type y
        | some power ↦ elim (rpc_current_state hal y) [
          | none ↦ fail hal id RpcError.hardware_failure y
          | some s ↦ apply_and_respond id (record s { power = power }) y
        ]
      ]
      else fail hal id RpcError.missing_power y

  unfoldable pub handle_set_brightness : ℕ → Item → Sys hal → Sys hal
  handle_set_brightness id params y =
      if not (has_field j params (codes "brightness"))
      then fail hal id RpcError.missing_brightness y
      else if not (rpc_brightness_type_ok j params)
      then fail hal id RpcError.wrong_type y
      else elim (parse_brightness j params) [
        | none ↦ fail hal id RpcError.out_of_range y
        | some b ↦ elim (rpc_current_state hal y) [
          | none ↦ fail hal id RpcError.hardware_failure y
          | some s ↦ apply_and_respond id (record s { brightness_percent = b }) y
        ]
      ]

module _ (hal : Hal) (client_up : hal.World → ℕ → Bool) {d : Doubles} (j : CJson d)
    (rgb : Bool) where
  open j use {Item, parse, is_object}

  -- The end of setState: the colours of an RGB lamp, all or none.
  unfoldable pub set_state_colors : ℕ → Item → LampState → Sys hal → Sys hal
  set_state_colors id params desired y =
      let has_red = has_field j params (codes "red") in
      let has_green = has_field j params (codes "green") in
      let has_blue = has_field j params (codes "blue") in
      if rgb && (has_red || has_green || has_blue)
      then (if not has_red || not has_green || not has_blue
          then fail hal id RpcError.invalid_rgb_channel y
          else elim (rpc_parse_rgb j params desired) [
            | none ↦ fail hal id RpcError.invalid_rgb_channel y
            | some colored ↦ apply_and_respond hal client_up j id colored y
          ])
      else apply_and_respond hal client_up j id desired y

  unfoldable pub handle_set_state : ℕ → Item → Sys hal → Sys hal
  handle_set_state id params y =
      if not (has_field j params (codes "power"))
      then fail hal id RpcError.missing_power y
      else if not (has_field j params (codes "brightness"))
      then fail hal id RpcError.missing_brightness y
      else elim (rpc_parse_power j params) [
        | none ↦ fail hal id RpcError.wrong_type y
        | some power ↦
            if not (rpc_brightness_type_ok j params)
            then fail hal id RpcError.wrong_type y
            else elim (parse_brightness j params) [
              | none ↦ fail hal id RpcError.out_of_range y
              | some b ↦
                  set_state_colors id params
                    (record (state_base hal y) { power = power; brightness_percent = b }) y
            ]
      ]

  unfoldable pub handle : Method → ℕ → Item → Sys hal → Sys hal
  handle Method.set_power id params y = handle_set_power hal client_up j id params y
  handle Method.set_brightness id params y = handle_set_brightness hal client_up j id params y
  handle Method.set_state id params y = handle_set_state id params y
  handle Method.set_color id params y = handle_set_color hal client_up j id params y
  handle Method.get_state id params y = handle_get_state hal id y

  -- `tb_app_on_server_rpc`.
  unfoldable pub on_server_rpc : Method → Text → ℕ → Sys hal → Sys hal
  on_server_rpc method json id y0 =
      let y = set_changed hal false y0 in
      if not y.app.initialized || not (is_connected hal client_up y) then y else elim (parse json) [
        | none ↦ fail hal id RpcError.malformed_json y
        | some params ↦
            if is_object params
            then rpc_finish hal (handle method id params y)
            else fail hal id RpcError.wrong_type y
      ]
