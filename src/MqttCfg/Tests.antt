-- ===== src/MqttCfg/Tests.antt =====
-- mqtt_cfg.c: runs of the checks, and the theorem on host names at a name.
use hq_led_lamp.Common.{◌≡◌, refl, ◌&&◌, true, false, leb, length}
use hq_led_lamp.Json.{codes}
use hq_led_lamp.MqttCfg.Fields.{
  all_printable, is_printable, has_prefix, has_dots, path_under_cert, is_alnum, hostname_loop,
  ends_with_dot, has_colon, hostname_valid,
}
use hq_led_lamp.MqttCfg.Names.{is_name, has_non_digit, hostname_valid_lem}

-- A name, an IPv4 address, and a label that ends with a hyphen.
names_checked :
    (hostname_valid (codes "tb-1.example.org") ≡ true)
    × (hostname_valid (codes "10.0.0.1") ≡ false)
    × (hostname_valid (codes "tb-.example.org") ≡ false)
unfolding hostname_valid hostname_loop is_printable all_printable is_alnum ends_with_dot has_colon
names_checked = (refl, refl, refl)

paths_checked :
    (path_under_cert (codes "/cert/ca.pem") ≡ true)
    × (path_under_cert (codes "/cert/../key") ≡ false)
    × (path_under_cert (codes "/cert/") ≡ false)
unfolding path_under_cert has_prefix has_dots
paths_checked = (refl, refl, refl)

hostname_valid_lem_example :
    hostname_valid (codes "tb-1.example.org")
    ≡ leb (length (codes "tb-1.example.org")) 128
      && is_name (codes "tb-1.example.org")
      && has_non_digit (codes "tb-1.example.org")
hostname_valid_lem_example = hostname_valid_lem (codes "tb-1.example.org")
