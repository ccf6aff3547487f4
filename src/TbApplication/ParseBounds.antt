-- ===== src/TbApplication/ParseBounds.antt =====
-- tb_application.c: what the parse callback lets into the program.
use hq_led_lamp.Common.{ℕ, ◌≤◌, ◌≡◌, Bool, Option, some, arith}
use hq_led_lamp.Json.{Text, Doubles, CJson}
use hq_led_lamp.Lamp.Types.{LampState}
use hq_led_lamp.TbApplication.Parse.{
  Source, ParseResult, parse_rgb_channel, parse_colors, parse_attrs, parse_state_scope,
  parse_initial_state,
}
use hq_led_lamp.TbApplication.Updates.{parse_state_callback}
use hq_led_lamp.TbApplication.Handlers.{parse_brightness_bound}

-- A state that lamp_control accepts and whose colours are bytes.
abbrev pub InRange : LampState → Type 0
InRange s = (s.brightness_percent ≤ 100) × (s.red ≤ 255) × (s.green ≤ 255) × (s.blue ≤ 255)

module _ {d : Doubles} (j : CJson d) (rgb : Bool) (default_brightness : ℕ) where
  open j use {Item}

  channel_bound :
      (attrs : Item) (key : Text) (n : ℕ) → parse_rgb_channel j attrs key ≡ some n → n ≤ 255
  unfolding parse_rgb_channel
  channel_bound attrs key n h = ground arith

  colors_bound :
      (attrs : Item) (c : ℕ × ℕ × ℕ)
      → parse_colors j rgb default_brightness attrs ≡ some c
      → (c.0 ≤ 255) × (c.1 ≤ 255) × (c.2 ≤ 255)
  unfolding parse_colors
  colors_bound attrs c h = grind (arith, channel_bound)

  attrs-InRange :
      (attrs : Item) (s : LampState)
      → parse_attrs j rgb default_brightness attrs ≡ some s
      → InRange s
  unfolding parse_attrs
  attrs-InRange attrs s h = grind (arith, colors_bound, parse_brightness_bound)

  scope-InRange :
      (json scope : Option Text) (s : LampState)
      → parse_state_scope j rgb default_brightness json scope ≡ some s
      → InRange s
  unfolding parse_state_scope
  scope-InRange json scope s h = grind (arith, attrs-InRange)

  initial-InRange :
      (json : Option Text) (s : LampState)
      → default_brightness ≤ 100
      → parse_initial_state j rgb default_brightness json ≡ some s
      → InRange s
  unfolding parse_initial_state
  initial-InRange json s b h = grind arith

  -- With a configured default in 0..100, every state that the parse callback accepts, from whatever
  -- source and payload, has a brightness in 0..100 and colours in 0..255.
  pub parse_state_callback-InRange :
      (json : Option Text) (source : Source) (s : LampState)
      → default_brightness ≤ 100
      → (parse_state_callback j rgb default_brightness json source).0 ≡ ParseResult.valid s
      → InRange s
  unfolding parse_state_callback
  parse_state_callback-InRange json source s b h = grind (arith, scope-InRange, initial-InRange)
