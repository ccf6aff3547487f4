-- ===== src/TbApplication/Fields.antt =====
-- tb_application.c: the fields of an RPC request.
use hq_led_lamp.Common.{ℕ, Bool, ◌||◌, Option, none, some, if◌then◌else◌}
use hq_led_lamp.Json.{Text, Doubles, CJson, test, is_some, codes}
use hq_led_lamp.Lamp.Types.{LampState}
use hq_led_lamp.TbApplication.Parse.{parse_rgb_channel}

module _ {d : Doubles} (j : CJson d) where
  open j use {Item, get_item, is_bool, is_true, is_number}

  abbrev pub has_field : Item → Text → Bool
  has_field params key = is_some (get_item params key)

  unfoldable pub rpc_parse_power : Item → Option Bool
  rpc_parse_power params =
      let item = get_item params (codes "power") in
      if test is_bool item then some (test is_true item) else none

  unfoldable pub rpc_brightness_type_ok : Item → Bool
  rpc_brightness_type_ok params = test is_number (get_item params (codes "brightness"))

  -- `tb_app_rpc_parse_rgb`: all three channels.
  unfoldable pub rpc_parse_rgb : Item → LampState → Option LampState
  rpc_parse_rgb params s = elim (parse_rgb_channel j params (codes "red")) [
    | none ↦ none
    | some r ↦ elim (parse_rgb_channel j params (codes "green")) [
      | none ↦ none
      | some g ↦ elim (parse_rgb_channel j params (codes "blue")) [
        | none ↦ none
        | some b ↦ some (record s { red = r; green = g; blue = b })
      ]
    ]
  ]

  -- One channel of `tb_app_rpc_parse_rgb_partial`: kept if absent, none if wrong.
  unfoldable pub rpc_channel_or : Item → Text → ℕ → Option ℕ
  rpc_channel_or params key old =
      if has_field params key then parse_rgb_channel j params key else some old

  unfoldable pub rpc_parse_rgb_partial : Item → LampState → Option LampState
  rpc_parse_rgb_partial params s =
      let any =
        has_field params (codes "red")
        || has_field params (codes "green")
        || has_field params (codes "blue") in
      elim (rpc_channel_or params (codes "red") s.red) [
        | none ↦ none
        | some r ↦ elim (rpc_channel_or params (codes "green") s.green) [
          | none ↦ none
          | some g ↦ elim (rpc_channel_or params (codes "blue") s.blue) [
            | none ↦ none
            | some b ↦ if any then some (record s { red = r; green = g; blue = b }) else none
          ]
        ]
      ]
