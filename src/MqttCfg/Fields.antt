-- ===== src/MqttCfg/Fields.antt =====
-- mqtt_cfg.c: the checks on the fields of a configuration. A text is what a character array holds up to
-- its terminator, or the whole array where it has none.
use hq_led_lamp.Common.{
  ℕ, Bool, true, false, not, ◌&&◌, ◌||◌, [], ◌∷◌, ltb, leb, ◌==◌, if◌then◌else◌, length,
}
use hq_led_lamp.Json.{Text, codes}

abbrev pub hostname_max_len : ℕ
hostname_max_len = 128

abbrev pub path_max_len : ℕ
path_max_len = 128

-- The loop of `mqtt_cfg_is_printable`.
unfoldable pub all_printable : Text → Bool
all_printable [] = true
all_printable (c ∷ cs) = if ltb c 32 || ltb 126 c then false else all_printable cs

unfoldable pub is_printable : Text → ℕ → Bool
is_printable [] max_len = false
is_printable (c ∷ cs) max_len =
    if ltb max_len (length (c ∷ cs)) then false else all_printable (c ∷ cs)

-- What is left of a text after a prefix, and whether it has the prefix: `strncmp` with its length.
unfoldable pub has_prefix : Text → Text → Bool
has_prefix [] s = true
has_prefix (p ∷ ps) [] = false
has_prefix (p ∷ ps) (c ∷ cs) = (p == c) && has_prefix ps cs

-- `strstr(path, "..") != NULL`.
unfoldable pub has_dots : Text → Bool
has_dots [] = false
has_dots (c ∷ cs) = has_prefix (codes "..") (c ∷ cs) || has_dots cs

-- `mqtt_cfg_path_under_cert`.
unfoldable pub path_under_cert : Text → Bool
path_under_cert path =
    if (length path == 0) || ltb path_max_len (length path)
    then false
    else if not (has_prefix (codes "/cert/") path)
    then false
    else if length path == 6
    then false
    else not (has_dots path)

unfoldable pub is_alnum : ℕ → Bool
is_alnum c = (leb b'a' c && leb c b'z') || (leb b'A' c && leb c b'Z') || (leb b'0' c && leb c b'9')

abbrev pub is_digit : ℕ → Bool
is_digit c = leb b'0' c && leb c b'9'

-- The loop of `mqtt_cfg_hostname_valid` with its variables, and the tests after it.
unfoldable pub hostname_loop : Text → Bool → Bool → Bool → Bool → ℕ → Bool
hostname_loop [] last_was_dot label_start label_has_alnum ipv4_literal prev =
    if last_was_dot || not label_has_alnum || not (is_alnum prev) then false else not ipv4_literal
hostname_loop (c ∷ cs) last_was_dot label_start label_has_alnum ipv4_literal prev =
    let after_dot = hostname_loop cs true true false ipv4_literal c in
    let after_char = hostname_loop cs false false true (ipv4_literal && is_digit c) c in
    if c == b'.'
    then if last_was_dot || not label_has_alnum || not (is_alnum prev) then false else after_dot
    else if not (is_alnum c || (c == b'-') || (c == b'_'))
    then false
    else if label_start && not (is_alnum c)
    then false
    else after_char

-- Whether the last character is a dot, and whether there is a colon.
unfoldable pub ends_with_dot : Text → Bool
ends_with_dot [] = false
ends_with_dot (c ∷ []) = c == b'.'
ends_with_dot (c ∷ d ∷ cs) = ends_with_dot (d ∷ cs)

unfoldable pub has_colon : Text → Bool
has_colon [] = false
has_colon (c ∷ cs) = (c == b':') || has_colon cs

abbrev pub starts_with_dot : Text → Bool
starts_with_dot [] = false
starts_with_dot (c ∷ cs) = c == b'.'

-- `mqtt_cfg_hostname_valid`.
unfoldable pub hostname_valid : Text → Bool
hostname_valid s =
    if not (is_printable s hostname_max_len)
    then false
    else if starts_with_dot s || ends_with_dot s
    then false
    else if has_colon s
    then false
    else hostname_loop s false true false true 0
