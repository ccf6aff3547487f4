-- ===== src/AppConfig/Fields.antt =====
-- app_config.c: the checks on a parsed document's members, and on its raw text.
use hq_led_lamp.Common.{
  ℕ, suc, Bool, true, false, not, ◌&&◌, ◌||◌, Option, none, some, List, [], ◌∷◌, ltb, leb, ◌==◌,
  if◌then◌else◌, length,
}
use hq_led_lamp.Common.Int.{pos}
use hq_led_lamp.Json.{Text, Doubles, CJson, codes, text_eq}
use hq_led_lamp.AppConfig.Types.{ConfigError, Result, schema_version}

-- The loop of `raw_json_has_nul_escape` with `in_string`, what it does after a backslash, and after the
-- u of an escape: four digits are consumed.
unfoldable mutual
  pub nul_escape_loop : Text → Bool → Bool
  nul_escape_loop [] in_string = false
  nul_escape_loop (c ∷ cs) false = nul_escape_loop cs (c == b'"')
  nul_escape_loop (c ∷ cs) true =
      if c == b'"'
      then nul_escape_loop cs false
      else if not (c == b'\\')
      then nul_escape_loop cs true
      else nul_escape_char cs

  pub nul_escape_char : Text → Bool
  nul_escape_char [] = false
  nul_escape_char (c ∷ cs) = if c == b'u' then nul_escape_unicode cs else nul_escape_loop cs true

  pub nul_escape_unicode : Text → Bool
  nul_escape_unicode (p1 ∷ p2 ∷ p3 ∷ p4 ∷ cs) =
      if (p1 == b'0') && (p2 == b'0') && (p3 == b'0') && (p4 == b'0')
      then true
      else nul_escape_loop cs true
  nul_escape_unicode _ = false

unfoldable pub string_is_printable_ascii : Text → Bool
string_is_printable_ascii [] = true
string_is_printable_ascii (c ∷ cs) =
    if ltb c 32 || ltb 126 c then false else string_is_printable_ascii cs

abbrev pub is_serial_char : ℕ → Bool
is_serial_char c =
    (leb b'A' c && leb c b'Z')
    || (leb b'a' c && leb c b'z')
    || (leb b'0' c && leb c b'9')
    || (c == b'-')

unfoldable pub string_is_serial_charset : Text → Bool
string_is_serial_charset [] = true
string_is_serial_charset (c ∷ cs) =
    if not (is_serial_char c) then false else string_is_serial_charset cs

-- The tests of `get_bounded_string` on a text, with room for `cap` bytes and the terminator among them.
unfoldable pub bounded_text : Text → ℕ → Bool → Result Text
bounded_text value cap serial =
    if (length value == 0) || leb cap (length value)
    then Result.err ConfigError.bounds
    else if not (string_is_printable_ascii value)
    then Result.err ConfigError.malformed
    else if serial && not (string_is_serial_charset value)
    then Result.err ConfigError.malformed
    else Result.ok value

module _ {d : Doubles} (j : CJson d) where
  open j use {Item, get_item, children, name, is_string, is_number, valuestring, valuedouble}

  unfoldable pub get_bounded_string : Item → Text → ℕ → Bool → Result Text
  get_bounded_string object key cap serial = elim (get_item object key) [
    | none ↦ Result.err ConfigError.malformed
    | some item ↦
        if is_string item
        then elim (valuestring item) [
          | none ↦ Result.err ConfigError.malformed
          | some value ↦ bounded_text value cap serial
        ]
        else Result.err ConfigError.malformed
  ]

  -- The tests of `get_schema_version` on a number.
  unfoldable pub version_of : d.Double → Result ℕ
  version_of v =
      if not (d.eq v v) || d.lt v (d.of_int (pos 0)) || d.lt d.dbl_max v
      then Result.err ConfigError.malformed
      else if not (d.lt v d.two_63)
      then Result.err ConfigError.unknown_schema
      else if not (d.eq (d.of_int (pos (d.truncate v))) v)
      then Result.err ConfigError.malformed
      else if d.lt (d.of_int (pos 4294967295)) v || ltb schema_version (d.truncate v)
      then Result.err ConfigError.unknown_schema
      else Result.ok (d.truncate v)

  unfoldable pub get_schema_version : Item → Result ℕ
  get_schema_version object = elim (get_item object (codes "schema_version")) [
    | none ↦ Result.err ConfigError.malformed
    | some item ↦
        if is_number item then version_of (valuedouble item) else Result.err ConfigError.malformed
  ]

  -- The inner loop of `check_member_keys`.
  unfoldable pub is_known : Text → List Text → Bool
  is_known key [] = false
  is_known key (k ∷ ks) = if text_eq key k then true else is_known key ks

  -- The outer loop: the members counted, or none where a member is refused.
  unfoldable pub count_members : List Item → List Text → ℕ → Option ℕ
  count_members [] allowed members = some members
  count_members (child ∷ rest) allowed members = elim (name child) [
    | none ↦ none
    | some key ↦
        if (length key == 0) || not (is_known key allowed)
        then none
        else count_members rest allowed (suc members)
  ]

  unfoldable pub check_member_keys : Item → List Text → Result ℕ
  check_member_keys object allowed = elim (count_members (children object) allowed 0) [
    | none ↦ Result.err ConfigError.malformed
    | some members ↦
        if ltb (length allowed) members then Result.err ConfigError.malformed else Result.ok members
  ]

  -- The tests of `get_bounded_number` on a number; a limit is an uint32_t.
  unfoldable pub bounded_double : ℕ → d.Double → Result ℕ
  bounded_double limit v =
      if not (d.eq v v) || d.lt v (d.of_int (pos 0)) || d.lt d.dbl_max v
      then Result.err ConfigError.malformed
      else if d.lt (d.of_int (pos limit)) v || not (d.eq (d.of_int (pos (d.truncate v))) v)
      then Result.err ConfigError.bounds
      else Result.ok (d.truncate v)

  unfoldable pub get_bounded_number : Item → Text → ℕ → Result ℕ
  get_bounded_number object key limit = elim (get_item object key) [
    | none ↦ Result.err ConfigError.malformed
    | some item ↦
        if is_number item
        then bounded_double limit (valuedouble item)
        else Result.err ConfigError.malformed
  ]
