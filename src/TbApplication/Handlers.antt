-- ===== src/TbApplication/Handlers.antt =====
-- tb_application.c: an induction principle for the RPC handlers. What a response, an applied state and
-- the end of the callback keep, every request keeps.
use hq_led_lamp.Common.{ℕ, ◌≤◌, ◌≡◌, Bool, false, some, Option-cases, inl, inr, arith}
use hq_led_lamp.Json.{Text, Doubles, CJson, in_range_integer}
use hq_led_lamp.Lamp.Types.{LampState}
use hq_led_lamp.Lamp.Hal.{Hal}
use hq_led_lamp.Lamp.Operations.{get_applied_state}
use hq_led_lamp.TbApplication.Parse.{parse_brightness}
use hq_led_lamp.TbApplication.Fields.{rpc_parse_rgb, rpc_parse_rgb_partial}
use hq_led_lamp.TbApplication.Module.{Sys, Event, RpcError, emit, rpc_apply_and_respond}
use hq_led_lamp.TbApplication.Rpc.{
  Method, rpc_current_state, handle_set_power, handle_set_brightness, handle_set_state,
  set_state_colors, handle_set_color, handle_get_state, handle, rpc_finish, on_server_rpc,
  set_changed,
}

in_range_integer_bound :
    {d : Doubles} (j : CJson d) (limit : ℕ) (item : j.Item) (n : ℕ)
    → in_range_integer j limit item ≡ some n
    → n ≤ limit
in_range_integer_bound j limit item n h = ground arith

module _ {d : Doubles} (j : CJson d) where
  pub parse_brightness_bound :
      (attrs : j.Item) (b : ℕ) → parse_brightness j attrs ≡ some b → b ≤ 100
  unfolding parse_brightness
  parse_brightness_bound attrs b h = ground arith

  rpc_parse_rgb_brightness :
      (params : j.Item) (s t : LampState)
      → rpc_parse_rgb j params s ≡ some t
      → t.brightness_percent ≡ s.brightness_percent
  unfolding rpc_parse_rgb
  rpc_parse_rgb_brightness params s t h = ground arith

  rpc_parse_rgb_partial_brightness :
      (params : j.Item) (s t : LampState)
      → rpc_parse_rgb_partial j params s ≡ some t
      → t.brightness_percent ≡ s.brightness_percent
  unfolding rpc_parse_rgb_partial
  rpc_parse_rgb_partial_brightness params s t h = ground arith

current_state_bound :
    (hal : Hal) (y : Sys hal) (s : LampState)
    → rpc_current_state hal y ≡ some s
    → y.lamp.applied.brightness_percent ≤ 100
    → s.brightness_percent ≤ 100
unfolding rpc_current_state get_applied_state
current_state_bound hal y s e h = ground arith

module _ (hal : Hal) (client_up : hal.World → ℕ → Bool) {d : Doubles} (j : CJson d) (rgb : Bool)
    (P : Sys hal → Type 0)
    (lamp_bound : (y : Sys hal) → P y → y.lamp.applied.brightness_percent ≤ 100)
    (on_emit : (e : Event) (y : Sys hal) → P y → P (emit hal e y))
    (on_apply : (id : ℕ) (s : LampState) (y : Sys hal)
      → s.brightness_percent ≤ 100
      → P y
      → P (rpc_apply_and_respond hal client_up id s y))
    (on_flag : (b : Bool) (y : Sys hal) → P y → P (set_changed hal b y)) where
  open j use {Item}

  set_power_keeps :
      (id : ℕ) (params : Item) (y : Sys hal)
      → P y
      → P (handle_set_power hal client_up j id params y)
  unfolding handle_set_power
  set_power_keeps id params y h =
      grind (arith, on_emit, on_apply, current_state_bound, lamp_bound y h)

  set_brightness_keeps :
      (id : ℕ) (params : Item) (y : Sys hal)
      → P y
      → P (handle_set_brightness hal client_up j id params y)
  unfolding handle_set_brightness
  set_brightness_keeps id params y h = grind (arith, on_emit, on_apply, parse_brightness_bound)

  set_color_keeps :
      (id : ℕ) (params : Item) (y : Sys hal)
      → P y
      → P (handle_set_color hal client_up j id params y)
  unfolding handle_set_color
  set_color_keeps id params y h = grind (
    arith,
    on_emit,
    on_apply,
    current_state_bound,
    rpc_parse_rgb_partial_brightness,
    lamp_bound y h,
  )

  set_state_colors_keeps :
      (id : ℕ) (params : Item) (s : LampState) (y : Sys hal)
      → s.brightness_percent ≤ 100
      → P y
      → P (set_state_colors hal client_up j rgb id params s y)
  unfolding set_state_colors
  set_state_colors_keeps id params s y bound h =
      grind (arith, on_emit, on_apply, rpc_parse_rgb_brightness)

  set_state_keeps :
      (id : ℕ) (params : Item) (y : Sys hal)
      → P y
      → P (handle_set_state hal client_up j rgb id params y)
  unfolding handle_set_state
  set_state_keeps id params y h =
      grind (arith, on_emit, set_state_colors_keeps, parse_brightness_bound)

  get_state_keeps : (id : ℕ) (y : Sys hal) → P y → P (handle_get_state hal id y)
  unfolding handle_get_state
  get_state_keeps id y h = grind (arith, on_emit)

  handle_keeps :
      (m : Method) (id : ℕ) (params : Item) (y : Sys hal)
      → P y
      → P (handle hal client_up j rgb m id params y)
  unfolding handle
  handle_keeps Method.set_power id params y h = set_power_keeps id params y h
  handle_keeps Method.set_brightness id params y h = set_brightness_keeps id params y h
  handle_keeps Method.set_state id params y h = set_state_keeps id params y h
  handle_keeps Method.set_color id params y h = set_color_keeps id params y h
  handle_keeps Method.get_state id params y h = get_state_keeps id y h

  finish_keeps : (y : Sys hal) → P y → P (rpc_finish hal y)
  unfolding rpc_finish
  finish_keeps y h =
      let z = set_changed hal false y in
      let e = Event.record_state (y.app.rpc_state_pending) in
      let lowered = on_flag false y h in
      let recorded = on_emit e z lowered in
      ground (arith, lowered, recorded, on_emit Event.note_state_change (emit hal e z) recorded)

  pub on_server_rpc_keeps :
      (m : Method) (json : Text) (id : ℕ) (y : Sys hal)
      → P y
      → P (on_server_rpc hal client_up j rgb m json id y)
  unfolding on_server_rpc
  on_server_rpc_keeps m json id y0 h0 =
      let y = set_changed hal false y0 in
      let h = on_flag false y0 h0 in
      elim (Option-cases (j.parse json)) [
        | inl e ↦
            rw e (ground (arith, h, on_emit (Event.respond_error id RpcError.malformed_json) y h))
        | inr (params, e) ↦ rw e (
            ground (
              arith,
              h,
              on_emit (Event.respond_error id RpcError.wrong_type) y h,
              finish_keeps (handle hal client_up j rgb m id params y)
                  (handle_keeps m id params y h),
            ))
      ]
