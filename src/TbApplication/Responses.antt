-- ===== src/TbApplication/Responses.antt =====
-- tb_application.c: what an RPC request gets for an answer, and what a set request does to the lamp.
use hq_led_lamp.Common.{ℕ, suc, ◌+◌, ◌≡◌, Bool, ◌&&◌, List, [], ◌∷◌, arith, if◌then◌else◌}
use hq_led_lamp.Json.{Text, Doubles, CJson}
use hq_led_lamp.Lamp.Types.{LampState}
use hq_led_lamp.Lamp.Hal.{Hal}
use hq_led_lamp.TbApplication.Module.{
  Sys, Event, is_connected, publish_applied_attributes, rpc_apply_and_respond, success,
}
use hq_led_lamp.TbApplication.Rpc.{
  Method, handle_set_power, handle_set_brightness, handle_set_state, set_state_colors,
  handle_set_color, handle_get_state, handle, rpc_finish, on_server_rpc,
}

-- How many of the events hand a response over, and how many stand for one that was lost.
abbrev pub responses : List Event → ℕ
responses [] = 0
responses (Event.respond_success id desired applied ∷ es) = suc (responses es)
responses (Event.respond_error id e ∷ es) = suc (responses es)
responses (_ ∷ es) = responses es

abbrev pub lost : List Event → ℕ
lost [] = 0
lost (Event.respond_lost id ∷ es) = suc (lost es)
lost (_ ∷ es) = lost es

abbrev pub attempts : List Event → ℕ
attempts es = responses es + lost es

module _ (hal : Hal) (client_up : hal.World → ℕ → Bool) where
  publish_responses :
      (s : LampState) (y : Sys hal)
      → attempts (publish_applied_attributes hal client_up s y).events ≡ attempts y.events
  unfolding publish_applied_attributes
  publish_responses s y = ground arith

  apply_responses :
      (id : ℕ) (s : LampState) (y : Sys hal)
      → attempts (rpc_apply_and_respond hal client_up id s y).events ≡ suc (attempts y.events)
  unfolding rpc_apply_and_respond success
  apply_responses id s y = grind (arith, publish_responses)

  module _ {d : Doubles} (j : CJson d) (rgb : Bool) where
    open j use {Item}

    responses-handle :
        (m : Method) (id : ℕ) (params : Item) (y : Sys hal)
        → attempts (handle hal client_up j rgb m id params y).events ≡ suc (attempts y.events)
    unfolding handle handle_set_power handle_set_brightness handle_set_state handle_set_color
        handle_get_state set_state_colors success
    responses-handle Method.set_power id params y = grind (arith, apply_responses)
    responses-handle Method.set_brightness id params y = grind (arith, apply_responses)
    responses-handle Method.set_state id params y = grind (arith, apply_responses)
    responses-handle Method.set_color id params y = grind (arith, apply_responses)
    responses-handle Method.get_state id params y = grind (arith, apply_responses)

    pub attempts-on_server_rpc :
        (m : Method) (json : Text) (id : ℕ) (y : Sys hal)
        → attempts (on_server_rpc hal client_up j rgb m json id y).events ≡ (
            if y.app.initialized && is_connected hal client_up y
            then suc (attempts y.events)
            else attempts y.events)
    unfolding on_server_rpc rpc_finish is_connected
    attempts-on_server_rpc m json id y = grind (arith, responses-handle)
