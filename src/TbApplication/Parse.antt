-- ===== src/TbApplication/Parse.antt =====
-- tb_application.c: validation of the payloads that carry a desired state, and of the updates that
-- carry only firmware keys. A failed parse returns none; what it leaves in its output is not modelled,
-- since its callers read that only after success.
use hq_led_lamp.Common.{
  ℕ, Bool, true, false, not, ◌&&◌, ◌||◌, Option, none, some, ltb, ◌==◌, if◌then◌else◌, length, take,
}
use hq_led_lamp.Json.{Text, Doubles, CJson, test, is_some, in_range_integer, codes, text_eq}
use hq_led_lamp.Lamp.Types.{LampState, lamp_brightness_max}

abbrev pub max_payload_bytes : ℕ
max_payload_bytes = 512

-- Where a state was read from; `update` is any other value of `tb_state_sync_source_t`.
pub data Source : Type 0 where
  client shared default update : Source

pub data ParseResult : Type 0 where
  valid : LampState → ParseResult
  invalid ignored : ParseResult

-- `strncmp(key, prefix, 3) == 0` for a prefix of three characters.
abbrev pub starts_with : Text → Text → Bool
starts_with prefix key = text_eq (take (length prefix) key) prefix

module _ {d : Doubles} (j : CJson d) where
  open j use {Item, get_item, is_object, is_number}

  unfoldable pub parse_rgb_channel : Item → Text → Option ℕ
  parse_rgb_channel attrs key = elim (get_item attrs key) [
    | none ↦ none
    | some item ↦ if is_number item then in_range_integer j 255 item else none
  ]

  unfoldable pub parse_brightness : Item → Option ℕ
  parse_brightness attrs = elim (get_item attrs (codes "brightness")) [
    | none ↦ none
    | some item ↦ if is_number item then in_range_integer j lamp_brightness_max item else none
  ]

  -- The members under `shared` if that is an object, else the object itself.
  abbrev pub flat_attrs : Item → Item
  flat_attrs root = elim (get_item root (codes "shared")) [
    | none ↦ root
    | some a ↦ if is_object a then a else root
  ]

  unfoldable pub scope_attrs : Item → Option Text → Option Item
  scope_attrs root none = some (flat_attrs root)
  scope_attrs root (some scope) = elim (get_item root scope) [
    | none ↦ none
    | some a ↦ if is_object a then some a else none
  ]

-- `rgb` is CONFIG_KLC_LAMP_TYPE_RGB, and `default_brightness` is the configured
-- TB_APPLICATION_DEFAULT_BRIGHTNESS.
module _ {d : Doubles} (j : CJson d) (rgb : Bool) (default_brightness : ℕ) where
  open j use {
    Item, parse, get_item, children, name, is_object, is_array, is_string, is_bool, is_true,
    is_number, valuestring,
  }

  -- The three colours of an RGB lamp: white if none is given, else all three.
  unfoldable pub parse_colors : Item → Option (ℕ × ℕ × ℕ)
  parse_colors attrs =
      let has_red = is_some (get_item attrs (codes "red")) in
      let has_green = is_some (get_item attrs (codes "green")) in
      let has_blue = is_some (get_item attrs (codes "blue")) in
      if not has_red && not has_green && not has_blue
      then some (255, 255, 255)
      else if not has_red || not has_green || not has_blue
      then none
      else elim (parse_rgb_channel j attrs (codes "red")) [
        | none ↦ none
        | some r ↦ elim (parse_rgb_channel j attrs (codes "green")) [
          | none ↦ none
          | some g ↦ elim (parse_rgb_channel j attrs (codes "blue")) [
            | none ↦ none
            | some b ↦ some (r, g, b)
          ]
        ]
      ]

  unfoldable pub parse_attrs : Item → Option LampState
  parse_attrs attrs =
      let colors = if rgb then parse_colors attrs else some (255, 255, 255) in
      let power = get_item attrs (codes "power") in
      if test is_bool power
      then elim (parse_brightness j attrs) [
        | none ↦ none
        | some b ↦ elim colors [
          | none ↦ none
          | some (r, g, bl) ↦ some (record {
            power = test is_true power;
            brightness_percent = b;
            red = r;
            green = g;
            blue = bl;
          })
        ]
      ]
      else none

  unfoldable pub parse_state_scope : Option Text → Option Text → Option LampState
  parse_state_scope none scope = none
  parse_state_scope (some json) scope =
      if ltb max_payload_bytes (length json) then none else elim (parse json) [
        | none ↦ none
        | some root ↦
            if is_object root
            then elim (scope_attrs j root scope) [ none ↦ none | some attrs ↦ parse_attrs attrs ]
            else none
      ]

  -- No member under `shared` and `client`, or no member at all: the device starts from its default.
  abbrev pub is_empty_object : Option Item → Bool
  is_empty_object none = true
  is_empty_object (some a) = is_object a && (length (children a) == 0)

  unfoldable pub parse_initial_state : Option Text → Option LampState
  parse_initial_state none = none
  parse_initial_state (some json) = elim (parse json) [
    | none ↦ none
    | some root ↦
        let shared = get_item root (codes "shared") in
        let client = get_item root (codes "client") in
        let fits =
          if is_some shared || is_some client
          then is_empty_object shared && is_empty_object client
          else length (children root) == 0 in
        if is_object root && fits
        then some (record {
          power = false;
          brightness_percent = default_brightness;
          red = 255;
          green = 255;
          blue = 255;
        })
        else none
  ]
