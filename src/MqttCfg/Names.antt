-- ===== src/MqttCfg/Names.antt =====
-- mqtt_cfg.c: the host names that are accepted, by a grammar.
use hq_led_lamp.Common.{
  ℕ, ◌≡◌, Bool, Bool-cases, true, false, not, ◌&&◌, ◌||◌, inl, inr, [], ◌∷◌, leb, ◌==◌,
  if◌then◌else◌, length, arith,
}
use hq_led_lamp.Json.{Text}
use hq_led_lamp.MqttCfg.Fields.{
  is_alnum, is_digit, hostname_loop, hostname_valid, is_printable, all_printable, ends_with_dot,
  has_colon,
}

abbrev is_name_char : ℕ → Bool
is_name_char c = is_alnum c || (c == b'-') || (c == b'_')

-- A grammar of names: `is_name` at the start of a label, and `is_rest` inside one, after a character.
unfoldable mutual
  pub is_name : Text → Bool
  is_name [] = false
  is_name (c ∷ cs) = is_alnum c && is_rest c cs

  pub is_rest : ℕ → Text → Bool
  is_rest prev [] = is_alnum prev
  is_rest prev (c ∷ cs) =
      if c == b'.' then is_alnum prev && is_name cs else is_name_char c && is_rest c cs

-- A character that is neither a digit nor a dot.
unfoldable pub has_non_digit : Text → Bool
has_non_digit [] = false
has_non_digit (c ∷ cs) = (not (is_digit c) && not (c == b'.')) || has_non_digit cs

mutual
  unfolding hostname_loop is_name is_rest has_non_digit is_alnum

  loop_start :
      (s : Text) (dot ipv4 : Bool) (prev : ℕ)
      → hostname_loop s dot true false ipv4 prev ≡ is_name s && (not ipv4 || has_non_digit s)
  loop_start [] dot ipv4 prev = ground arith
  loop_start (c ∷ cs) dot ipv4 prev = ground (arith, loop_inside cs (ipv4 && is_digit c) c)

  loop_inside :
      (s : Text) (ipv4 : Bool) (prev : ℕ)
      → hostname_loop s false false true ipv4 prev ≡ is_rest prev s && (not ipv4 || has_non_digit s)
  loop_inside [] ipv4 prev = ground arith
  loop_inside (c ∷ cs) ipv4 prev =
      ground (arith, loop_start cs true ipv4 c, loop_inside cs (ipv4 && is_digit c) c)

-- A name of the grammar has no dot at its ends, no colon, and only printable characters.
mutual
  unfolding is_name is_rest is_alnum all_printable has_colon

  name_clean : (s : Text) → is_name s ≡ true → (all_printable s ≡ true) × (has_colon s ≡ false)
  name_clean [] h = ground (arith, h)
  name_clean (c ∷ cs) h = ground (arith, h, rest_clean c cs)

  rest_clean :
      (prev : ℕ) (s : Text)
      → is_rest prev s ≡ true
      → (all_printable s ≡ true) × (has_colon s ≡ false)
  rest_clean prev [] h = ground (arith, h)
  rest_clean prev (c ∷ cs) h = ground (arith, h, name_clean cs, rest_clean c cs)

mutual
  unfolding is_name is_rest is_alnum ends_with_dot

  name_ends : (s : Text) → is_name s ≡ true → ends_with_dot s ≡ false
  name_ends [] h = ground (arith, h)
  name_ends (c ∷ []) h = ground (arith, h)
  name_ends (c ∷ x ∷ cs) h = ground (arith, h, rest_ends c (x ∷ cs))

  rest_ends : (prev : ℕ) (s : Text) → is_rest prev s ≡ true → ends_with_dot s ≡ false
  rest_ends prev [] h = ground (arith, h)
  rest_ends prev (c ∷ []) h = ground (arith, h)
  rest_ends prev (c ∷ x ∷ cs) h = ground (arith, h, name_ends (x ∷ cs), rest_ends c (x ∷ cs))

-- A host name is accepted exactly if it has at most 128 characters, is a sequence of labels of letters,
-- digits, hyphens and underscores that are separated by single dots and begin and end with a letter or a
-- digit, and has a character other than a digit or a dot.
pub hostname_valid_lem :
    (s : Text) → hostname_valid s ≡ leb (length s) 128 && is_name s && has_non_digit s
unfolding hostname_valid is_printable is_name is_alnum ends_with_dot all_printable has_colon
hostname_valid_lem [] = ground arith
hostname_valid_lem (c ∷ cs) = elim (Bool-cases (is_name (c ∷ cs))) [
  | inl h ↦
      let (printable, colon) = name_clean (c ∷ cs) h in
      ground (arith, h, printable, colon, name_ends (c ∷ cs) h, loop_start (c ∷ cs) false true 0)
  | inr h ↦ ground (arith, h, loop_start (c ∷ cs) false true 0)
]
