-- ===== src/TbApplication/Updates.antt =====
-- tb_application.c: updates that carry only firmware and software keys, the parse callback of the
-- synchronizer, and the text that goes into telemetry.
use hq_led_lamp.Common.{
  ℕ, suc, zero, Bool, true, false, ◌&&◌, ◌||◌, Option, none, some, List, [], ◌∷◌, ltb, leb, ◌==◌,
  if◌then◌else◌, length,
}
use hq_led_lamp.Json.{Text, Doubles, CJson, codes, text_eq}
use hq_led_lamp.Lamp.Types.{LampState}
use hq_led_lamp.TbApplication.Parse.{
  Source, ParseResult, starts_with, flat_attrs, max_payload_bytes, parse_state_scope,
  parse_initial_state,
}

-- Whether a key belongs to OTA, and the firmware flag after it.
unfoldable pub is_ota_key : Option Text → Bool → Bool × Bool
is_ota_key none is_firmware = (false, is_firmware)
is_ota_key (some key) is_firmware =
    if starts_with (codes "fw_") key
    then (true, true)
    else (starts_with (codes "sw_") key, is_firmware)

module _ {d : Doubles} (j : CJson d) where
  open j use {Item, parse, children, name, is_object, is_array, is_string, valuestring}

  -- The loop over the texts of a `deleted` array, on `only_ota` and `is_firmware`.
  unfoldable pub deleted_loop : List Item → Bool → Bool → Bool × Bool
  deleted_loop [] only_ota is_firmware = (only_ota, is_firmware)
  deleted_loop (item ∷ items) only_ota is_firmware =
      let (known, firmware) =
        if is_string item
        then is_ota_key (valuestring item) is_firmware
        else (false, is_firmware) in
      deleted_loop items (only_ota && known) firmware

  abbrev pub is_deleted : Item → Bool
  is_deleted item = elim (name item) [
    | none ↦ false
    | some key ↦ text_eq key (codes "deleted") && is_array item
  ]

  -- The loop over the members: `any`, `only_ota` and `is_firmware` at its end.
  unfoldable pub members_loop : List Item → Bool → Bool → Bool → Bool × Bool × Bool
  members_loop [] any only_ota is_firmware = (any, only_ota, is_firmware)
  members_loop (item ∷ items) any only_ota is_firmware =
      let (known, firmware) = is_ota_key (name item) is_firmware in
      let (only', firmware') =
        if is_deleted item
        then deleted_loop (children item) only_ota is_firmware
        else (only_ota && known, firmware) in
      members_loop items true only' firmware'

  -- Whether the update is for OTA alone, and whether it raises the firmware hint.
  unfoldable pub is_ota_only_update : Text → Bool × Bool
  is_ota_only_update json =
      if ltb max_payload_bytes (length json) then (false, false) else elim (parse json) [
        | none ↦ (false, false)
        | some root ↦
            let (any, only_ota, is_firmware) =
              members_loop (children (flat_attrs j root)) false true false in
            if is_object root then (any && only_ota, is_firmware) else (false, false)
      ]

  abbrev pub result_of : Option LampState → ParseResult
  result_of none = ParseResult.invalid
  result_of (some s) = ParseResult.valid s

  -- `tb_app_parse_state_callback`: its result, and whether the firmware hint was raised.
  unfoldable pub parse_state_callback : Bool → ℕ → Option Text → Source → ParseResult × Bool
  parse_state_callback rgb brightness json Source.client =
      (result_of (parse_state_scope j rgb brightness json (some (codes "client"))), false)
  parse_state_callback rgb brightness json Source.shared =
      (result_of (parse_state_scope j rgb brightness json (some (codes "shared"))), false)
  parse_state_callback rgb brightness json Source.default =
      (result_of (parse_initial_state j rgb brightness json), false)
  parse_state_callback rgb brightness none Source.update =
      (result_of (parse_state_scope j rgb brightness none none), false)
  parse_state_callback rgb brightness (some json) Source.update =
      let (ota_only, firmware) = is_ota_only_update json in
      if ota_only
      then (ParseResult.ignored, firmware)
      else (result_of (parse_state_scope j rgb brightness (some json) none), firmware)

-- `tb_app_telemetry_safe_char`, on a byte.
unfoldable pub telemetry_safe_char : ℕ → Bool
telemetry_safe_char c =
    (leb b'a' c && leb c b'z')
    || (leb b'A' c && leb c b'Z')
    || (leb b'0' c && leb c b'9')
    || (c == b'.')
    || (c == b'-')
    || (c == b'_')
    || (c == b'+')

-- The copying loop of `tb_app_copy_telemetry_string` with `room` places before the terminator.
unfoldable pub copy_safe : Text → ℕ → Text
copy_safe [] room = []
copy_safe (c ∷ cs) zero = []
copy_safe (c ∷ cs) (suc room) = if telemetry_safe_char c then c ∷ copy_safe cs room else []

-- What the destination holds, as a text; none if there is no destination to write to.
unfoldable pub copy_telemetry_string : Option Text → ℕ → Option Text
copy_telemetry_string src zero = none
copy_telemetry_string none (suc size) = some []
copy_telemetry_string (some src) (suc size) = some (copy_safe src size)
