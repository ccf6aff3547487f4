-- ===== src/MqttCfg/Parsed.antt =====
-- mqtt_cfg.c: what mqtt_cfg_parse_root has checked of the document it returns.
use hq_led_lamp.Common.{ℕ, ◌≡◌, refl, ap, sym, ◌∙◌, Bool, true, ltb, arith}
use hq_led_lamp.Common.Int.{pos}
use hq_led_lamp.Json.{Text, Doubles, CJson, codes}
use hq_led_lamp.MqttCfg.Types.{CfgResult, and_then, AuthMode, MqttCfg}
use hq_led_lamp.MqttCfg.Document.{
  auth_mode_of, get_string_member, required_string, parse_version, parse_hostname, parse_port,
  parse_client_id, parse_tls_mode, check_skip_verify, parse_ca_path, parse_credentials,
  parse_members,
}
use hq_led_lamp.MqttCfg.Validation.{is_known_mode}

-- A chain that succeeds has succeeded at its head.
pub and_then-ok {ℓ} :
    {A B : Type ℓ} (r : CfgResult A) (f : A → CfgResult B) (b : B)
    → and_then r f ≡ CfgResult.ok b
    → (a : A) × (r ≡ CfgResult.ok a) × (f a ≡ CfgResult.ok b)
and_then-ok (CfgResult.ok a) f b h = (a, refl, h)
and_then-ok (CfgResult.err e) f b h = absurd cc

pub auth_mode_of_known :
    (value : Text) (m : AuthMode) → auth_mode_of value ≡ CfgResult.ok m → is_known_mode m ≡ true
unfolding auth_mode_of
auth_mode_of_known value m h = ground (arith, h)

module _ {d : Doubles} (j : CJson d) where
  open j use {Item, get_item, is_true}

  -- Comparisons of a double that equals an integer are those of the integer.
  abbrev pub ComparesIntegers : Type 0
  ComparesIntegers =
      (v : d.Double) (n m : ℕ)
      → d.eq v (d.of_int (pos n)) ≡ true
      → (d.lt v (d.of_int (pos m)) ≡ ltb n m) × (d.lt (d.of_int (pos m)) v ≡ ltb m n)

  -- The members, each read and passed.
  pub record IsRead (root : Item) (cfg : MqttCfg) : Type 0 where
    pub version : parse_version j root ≡ CfgResult.ok cfg.schema_version
    pub host : parse_hostname j root ≡ CfgResult.ok cfg.hostname
    pub port : parse_port j root ≡ CfgResult.ok cfg.port
    pub client : parse_client_id j root ≡ CfgResult.ok cfg.client_id
    pub tls : parse_tls_mode j root ≡ CfgResult.ok cfg.tls_mode
    pub verify : (skip : Bool) × (check_skip_verify j root ≡ CfgResult.ok skip)
    pub ca : parse_ca_path j root ≡ CfgResult.ok cfg.ca_path
    pub mode : (value : Text) × (auth_mode_of value ≡ CfgResult.ok cfg.auth_mode)

  parse_credentials_lem :
      (root : Item) (zeroed cfg : MqttCfg)
      → parse_credentials j root zeroed ≡ CfgResult.ok cfg
      → (cfg.schema_version ≡ zeroed.schema_version)
        × (cfg.hostname ≡ zeroed.hostname)
        × (cfg.port ≡ zeroed.port)
        × (cfg.client_id ≡ zeroed.client_id)
        × (cfg.tls_mode ≡ zeroed.tls_mode)
        × (cfg.ca_path ≡ zeroed.ca_path)
        × ((value : Text) × (auth_mode_of value ≡ CfgResult.ok cfg.auth_mode))
  unfolding parse_credentials
  parse_credentials_lem root zeroed cfg h =
      let (cert, h1, r1) =
        and_then-ok (get_string_member j root (codes "client_cert_path") 129) _ cfg h in
      let (key, h2, r2) =
        and_then-ok (get_string_member j root (codes "client_key_path") 129) _ cfg r1 in
      let (value, h3, r3) = and_then-ok (required_string j root (codes "auth_mode")) _ cfg r2 in
      let (mode, h4, r4) = and_then-ok (auth_mode_of value) _ cfg r3 in
      (cc, cc, cc, cc, cc, cc, (value, cc))

  pub parse_members-IsRead :
      (root : Item) (cfg : MqttCfg) → parse_members j root ≡ CfgResult.ok cfg → IsRead root cfg
  unfolding parse_members
  parse_members-IsRead root cfg h =
      let (version, h1, r1) = and_then-ok (parse_version j root) _ cfg h in
      let (hostname, h2, r2) = and_then-ok (parse_hostname j root) _ cfg r1 in
      let (port, h3, r3) = and_then-ok (parse_port j root) _ cfg r2 in
      let (client_id, h4, r4) = and_then-ok (parse_client_id j root) _ cfg r3 in
      let (tls_mode, h5, r5) = and_then-ok (parse_tls_mode j root) _ cfg r4 in
      let (skip, h6, r6) = and_then-ok (check_skip_verify j root) _ cfg r5 in
      let (ca_path, h7, r7) = and_then-ok (parse_ca_path j root) _ cfg r6 in
      let (e1, e2, e3, e4, e5, e6, mode) = parse_credentials_lem root _ cfg r7 in
      record {
        version = h1 ∙ ap CfgResult.ok (sym e1);
        host = h2 ∙ ap CfgResult.ok (sym e2);
        port = h3 ∙ ap CfgResult.ok (sym e3);
        client = h4 ∙ ap CfgResult.ok (sym e4);
        tls = h5 ∙ ap CfgResult.ok (sym e5);
        verify = (skip, h6);
        ca = h7 ∙ ap CfgResult.ok (sym e6);
        mode = mode;
      }
