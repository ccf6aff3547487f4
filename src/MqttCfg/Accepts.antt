-- ===== src/MqttCfg/Accepts.antt =====
-- mqtt_cfg.c: the documents that mqtt_cfg_load accepts.
use mathlib.Core.List.{Memᴰ}
use hq_led_lamp.Common.{
  ℕ, suc, ◌≤◌, ◌≡◌, ap, sym, ◌∙◌, subst, Bool, true, false, false≢true, Option, Option-cases, none,
  some, inl, inr, List, [], ◌∷◌, map, All, arith,
}
use hq_led_lamp.Json.{Text, Doubles, CJson, codes}
use hq_led_lamp.Lamp.Hal.{Hal}
use hq_led_lamp.AppConfig.Stored.{c_string}
use hq_led_lamp.AppConfig.Keys.{IsDistinct, text_eq_refl}
use hq_led_lamp.MqttCfg.Types.{
  CfgResult, CfgResult-cases, and_then, MqttCfg, cfg_max_file_bytes, file_path,
}
use hq_led_lamp.MqttCfg.Document.{
  has_nul_escape, mqtt_cfg_keys, key_allowed, repeated, member_keys, keys_accepted,
  check_skip_verify, parse_root,
}
use hq_led_lamp.MqttCfg.Validation.{validate_fields}
use hq_led_lamp.MqttCfg.Platform.{Platform, Endpoint}
use hq_led_lamp.MqttCfg.Load.{read_file, checked_cfg, read_document, refuse, load}
use hq_led_lamp.MqttCfg.Policy.{IsPolicy, validate_fields-IsPolicy}
use hq_led_lamp.MqttCfg.Parsed.{and_then-ok}
use hq_led_lamp.MqttCfg.Strict.{parse_root_accepted, parse_port_bound}

module _ {d : Doubles} (j : CJson d) where
  open j use {Item, parse_strict, get_item, is_object, is_true, children, name}

  abbrev pub member_names : List Item → List (Option Text)
  member_names items = map name items

  -- A name that is allowed.
  abbrev pub IsAllowed : Option Text → Type 0
  IsAllowed none = ⊥
  IsAllowed (some key) = key_allowed key mqtt_cfg_keys ≡ true

  repeated_found :
      (key : Text) (items : List Item)
      → repeated j key items ≡ false
      → Memᴰ (some key) (member_names items)
      → ⊥
  unfolding repeated
  repeated_found key [] h m = elim m [ ]
  repeated_found key (item ∷ items) h (Memᴰ.head e) =
      let equal = text_eq_refl key in false≢true (sym (ground (arith, h, e, equal)))
  repeated_found key (item ∷ items) h (Memᴰ.tail m) = repeated_found key items (ground (arith, h)) m

  member_keys_cons :
      (item : Item) (items : List Item) (members n : ℕ)
      → member_keys j (item ∷ items) mqtt_cfg_keys members ≡ some n
      → (key : Text) × (name item ≡ some key)
        × (key_allowed key mqtt_cfg_keys ≡ true)
        × (repeated j key items ≡ false)
        × (member_keys j items mqtt_cfg_keys (suc members) ≡ some n)
  unfolding member_keys
  member_keys_cons item items members n h = elim (Option-cases (name item)) [
    | inl e ↦ absurd (ground (arith, h, e))
    | inr (key, e) ↦ (key, e, ground (arith, h, e), ground (arith, h, e), ground (arith, h, e))
  ]

  member_keys_lem :
      (items : List Item) (members n : ℕ)
      → member_keys j items mqtt_cfg_keys members ≡ some n
      → IsDistinct (member_names items) × All IsAllowed (member_names items)
  member_keys_lem [] members n h = (tt, tt)
  member_keys_lem (item ∷ items) members n h =
      let (key, e, allowed, once, rest) = member_keys_cons item items members n h in
      let (distinct, all) = member_keys_lem items (suc members) n rest in
      (
        (
          λ m. repeated_found key items once (subst (λ k. Memᴰ k (member_names items)) e m),
          distinct,
        ),
        (subst IsAllowed (sym e) allowed, all),
      )

  keys_accepted_lem :
      (root : Item)
      → keys_accepted j root mqtt_cfg_keys ≡ true
      → IsDistinct (member_names (children root)) × All IsAllowed (member_names (children root))
  unfolding keys_accepted
  keys_accepted_lem root h = elim (Option-cases (member_keys j (children root) mqtt_cfg_keys 0)) [
    | inl e ↦ absurd (false≢true (ground (arith, h, e)))
    | inr (n, e) ↦ member_keys_lem (children root) 0 n e
  ]

  check_skip_verify_lem :
      (root : Item) (skip : Bool)
      → check_skip_verify j root ≡ CfgResult.ok skip
      → (item : Item) → get_item root (codes "skip_verify") ≡ some item
      → is_true item ≡ false
  unfolding check_skip_verify
  check_skip_verify_lem root skip h item e = ground (arith, h, e)

  -- A root object with the schema's keys only, each at most once, that does not skip the verification.
  pub record IsStrict (json : Text) (root : Item) : Type 0 where
    pub parsed : parse_strict json ≡ some root
    pub object : is_object root ≡ true
    pub no_nul : has_nul_escape (c_string json) false ≡ false
    pub distinct : IsDistinct (member_names (children root))
    pub allowed : All IsAllowed (member_names (children root))
    pub verified :
        (item : Item) → get_item root (codes "skip_verify") ≡ some item → is_true item ≡ false

  checked_cfg_lem :
      (parsed cfg : MqttCfg)
      → checked_cfg parsed ≡ CfgResult.ok cfg
      → (parsed ≡ cfg) × (validate_fields (some cfg) ≡ none)
  unfolding checked_cfg
  checked_cfg_lem parsed cfg h = elim (Option-cases (validate_fields (some parsed))) [
    | inl e ↦
        let same : parsed ≡ cfg = ground (arith, h, e) in
        (same, subst (λ c. validate_fields (some c) ≡ none) same e)
    | inr (e, c) ↦ absurd (ground (arith, h, c))
  ]

  read_document_root :
      (json : Text) (cfg : MqttCfg)
      → read_document j json ≡ CfgResult.ok cfg
      → (root : Item) × (parse_strict json ≡ some root)
        × (is_object root ≡ true)
        × (has_nul_escape (c_string json) false ≡ false)
        × (and_then (parse_root j root) checked_cfg ≡ CfgResult.ok cfg)
  unfolding read_document
  read_document_root json cfg h = elim (Option-cases (parse_strict json)) [
    | inl e ↦ absurd (ground (arith, h, e))
    | inr (root, e) ↦ (root, e, ground (arith, h, e), ground (arith, h, e), ground (arith, h, e))
  ]

  pub read_document_accepted :
      (json : Text) (cfg : MqttCfg)
      → read_document j json ≡ CfgResult.ok cfg
      → IsPolicy cfg
        × (cfg.port ≤ 65535)
        × ((root : Item) × IsStrict json root × (parse_root j root ≡ CfgResult.ok cfg))
  read_document_accepted json cfg h =
      let (root, e, object, no_nul, chain) = read_document_root json cfg h in
      let (parsed, ok, checked) = and_then-ok (parse_root j root) checked_cfg cfg chain in
      let (same, valid) = checked_cfg_lem parsed cfg checked in
      let (keys, read) = parse_root_accepted j root cfg (ok ∙ ap CfgResult.ok same) in
      let (distinct, allowed) = keys_accepted_lem root keys in
      let (skip, verify) = read.verify in
      (
        validate_fields-IsPolicy cfg valid,
        parse_port_bound j root cfg.port read.port,
        (
          root,
          record {
            parsed = e;
            object = object;
            no_nul = no_nul;
            distinct = distinct;
            allowed = allowed;
            verified = check_skip_verify_lem root skip verify;
          },
          ok ∙ ap CfgResult.ok same,
        ),
      )

  module _ (hal : Hal) (p : Platform) where
    load_read :
        (y : Endpoint hal p) (cfg : MqttCfg)
        → (load j hal p true y).0 ≡ CfgResult.ok cfg
        → ((json : Text) × ((read_file p.files file_path cfg_max_file_bytes y.world).0 ≡ some json)
            × (read_document j json ≡ CfgResult.ok cfg))
          × ((load j hal p true y).1.state ≡ y.state)
          × ((load j hal p true y).1.lamp ≡ y.lamp)
          × ((load j hal p true y).1.hardware ≡ y.hardware)
    unfolding load refuse
    load_read y cfg h =
        elim (Option-cases (read_file p.files file_path cfg_max_file_bytes y.world).0) [
          | inl e ↦ absurd (ground (arith, h, e))
          | inr (json, e) ↦ elim (CfgResult-cases (read_document j json)) [
            | inl (x, r) ↦ absurd (ground (arith, h, e, r))
            | inr (c, r) ↦ (
              (json, e, ground (arith, h, e, r)),
              ground (arith, h, e, r),
              ground (arith, h, e, r),
              ground (arith, h, e, r),
            )
          ]
        ]

    -- A configuration that mqtt_cfg_load returns meets the verified-TLS policy, with a port of at most
    -- 65535. The text that was read of mqtt.json parses, whole and without an escaped NUL, to an object
    -- whose members have keys of the schema, none twice, and in which skip_verify, where it is there, is
    -- not true; and the configuration is what this object parses to. The load changes neither the static
    -- variables nor the lamp.
    pub load-IsPolicy :
        (y : Endpoint hal p) (cfg : MqttCfg)
        → (load j hal p true y).0 ≡ CfgResult.ok cfg
        → IsPolicy cfg
          × (cfg.port ≤ 65535)
          × ((json : Text) × ((read_file p.files file_path cfg_max_file_bytes y.world).0
                ≡ some json)
              × ((root : Item) × IsStrict json root × (parse_root j root ≡ CfgResult.ok cfg)))
          × ((load j hal p true y).1.state ≡ y.state)
          × ((load j hal p true y).1.lamp ≡ y.lamp)
          × ((load j hal p true y).1.hardware ≡ y.hardware)
    load-IsPolicy y cfg h =
        let ((json, e, r), state, lamp, hardware) = load_read y cfg h in
        let (policy, bound, found) = read_document_accepted json cfg r in
        (policy, bound, (json, e, found), state, lamp, hardware)
