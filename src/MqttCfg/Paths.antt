-- ===== src/MqttCfg/Paths.antt =====
-- mqtt_cfg.c: what the checks of a text accept, said without the loops.
use hq_led_lamp.Common.{
  ℕ, ◌≤◌, ◌<◌, ◌≡◌, ◌≢◌, refl, ap, true, false≢true, [], ◌∷◌, ◌++◌, All, arith, length,
  length-append,
}
use hq_led_lamp.Json.{Text, codes}
use hq_led_lamp.MqttCfg.Fields.{all_printable, is_printable, has_prefix, has_dots, path_under_cert}

abbrev pub IsAscii : ℕ → Type 0
IsAscii c = (32 ≤ c) × (c ≤ 126)

all_printable-IsAscii : (s : Text) → all_printable s ≡ true → All IsAscii s
unfolding all_printable
all_printable-IsAscii [] h = tt
all_printable-IsAscii (c ∷ cs) h =
    ((ground (arith, h), ground (arith, h)), all_printable-IsAscii cs (ground (arith, h)))

pub is_printable_lem :
    (s : Text) (max_len : ℕ)
    → is_printable s max_len ≡ true
    → (0 < length s) × (length s ≤ max_len) × All IsAscii s
unfolding is_printable
is_printable_lem [] max_len h = absurd (false≢true h)
is_printable_lem (c ∷ cs) max_len h =
    (ground arith, ground (arith, h), all_printable-IsAscii (c ∷ cs) (ground (arith, h)))

has_prefix_split : (p s : Text) → has_prefix p s ≡ true → (rest : Text) × (s ≡ p ++ rest)
unfolding has_prefix
has_prefix_split [] s h = (s, refl)
has_prefix_split (c ∷ p) [] h = absurd (false≢true h)
has_prefix_split (c ∷ p) (x ∷ s) h =
    let (rest, e) = has_prefix_split p s (ground (arith, h)) in
    let same : c ≡ x = ground (arith, h) in (rest, cc)

has_dots_found : (a b : Text) → has_dots (a ++ codes ".." ++ b) ≡ true
unfolding has_dots has_prefix
has_dots_found [] b = ground arith
has_dots_found (x ∷ a) b = ground (arith, has_dots_found a b)

-- A path below /cert: at most 128 bytes, a name after the directory, and no two dots in a row.
pub record IsCertPath (path : Text) : Type 0 where
  pub name : Text
  pub below : path ≡ codes "/cert/" ++ name
  pub named : 0 < length name
  pub short : length path ≤ 128
  pub no_parent : (a b : Text) → path ≢ a ++ codes ".." ++ b

pub path_under_cert-IsCertPath : (path : Text) → path_under_cert path ≡ true → IsCertPath path
unfolding path_under_cert
path_under_cert-IsCertPath path h =
    let (rest, e) = has_prefix_split (codes "/cert/") path (ground (arith, h)) in
    record {
      name = rest;
      below = e;
      named = omega (arith, longer, ap length e, length-append (codes "/cert/") rest);
      short = ground (arith, h);
      no_parent =
          λ a b f. absurd (false≢true (ground (arith, h, ap has_dots f, has_dots_found a b)));
    }
  where
    longer : length path ≢ 6
    longer = ground (arith, h)
