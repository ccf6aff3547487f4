-- ===== src/TbProvisioning/Exact.antt =====
-- tb_provisioning.c: tb_provisioning_load accepts documents with exactly the schema's members.
use mathlib.Core.List.{Permᴰ}
use hq_led_lamp.Common.{
  ◌≡◌, refl, ap, sym, ◌∙◌, subst, Bool, true, false, false≢true, Option, Option-cases, none, some,
  inl, inr, map, ◌==◌, ◌+◌, arith, length-map,
}
use hq_led_lamp.Json.{Text, Doubles, CJson, codes}
use hq_led_lamp.AppConfig.Storage.{Storage}
use hq_led_lamp.AppConfig.Keys.{covering-perm}
use hq_led_lamp.TbProvisioning.Config.{
  ProvisioningConfig, ◌>>=◌, printable_value, allowed_members, exact_loop, exact_members,
  text_member, version_matches, config_texts, config_members, parse_config, parse_read,
  read_provisioning, provisioning_path, max_provisioning_bytes, provisioning_load,
}
use hq_led_lamp.TbProvisioning.Loaded.{IsValue, printable_value-IsValue, names, exact_loop_lem}

some_same : {a b : ProvisioningConfig} → some a ≡ some b → a ≡ b
some_same h = cc

bind-some {ℓ} :
    {A B : Type ℓ} (o : Option A) (f : A → Option B) (b : B)
    → o >>= f ≡ some b
    → (a : A) × (o ≡ some a) × (f a ≡ some b)
bind-some none f b h = absurd cc
bind-some (some a) f b h = (a, refl, h)

module _ {d : Doubles} (j : CJson d) (parse_prefix : Text → Option j.Item) where
  open j use {Item, children, is_object, valuestring}

  exact_members-perm :
      (root : Item)
      → exact_members j parse_prefix root ≡ true
      → Permᴰ (map some allowed_members) (names j parse_prefix (children root))
  unfolding exact_members
  exact_members-perm root h = elim (Option-cases (exact_loop j parse_prefix (children root) 0)) [
    | inl e ↦ absurd (false≢true (ground (arith, h, e)))
    | inr (n, e) ↦
        let (sum, distinct, covered) = exact_loop_lem j parse_prefix (children root) 0 n e in
        let four : (n == 4) ≡ true = ground (arith, h, e) in
        covering-perm (names j parse_prefix (children root)) (map some allowed_members) distinct
          covered (ground (arith, four, sum, length-map j.name (children root)))
  ]

  -- The object has the text under the key.
  abbrev pub HasText : Item → Text → Text → Type 0
  HasText root key value =
      (item : Item) × (j.get_item root key ≡ some item) × (valuestring item ≡ some value)

  text_member-IsValue :
      (root : Item) (key value : Text) (no_space : Bool)
      → text_member j parse_prefix root key no_space ≡ some value
      → IsValue no_space value × HasText root key value
  unfolding text_member
  text_member-IsValue root key value no_space h = elim (Option-cases (j.get_item root key)) [
    | inl e ↦ absurd (ground (arith, h, e))
    | inr (item, e) ↦
        let text : valuestring item ≡ some value = ground (arith, h, e) in
        let printable : printable_value (valuestring item) 64 no_space ≡ true =
          ground (arith, h, e) in
        (
          printable_value-IsValue value no_space
              (subst (λ t. printable_value t 64 no_space ≡ true) text printable),
          (item, e, text),
        )
  ]

  -- A configuration within its bounds.
  pub record IsUsable (config : ProvisioningConfig) : Type 0 where
    pub device_name : IsValue false config.device_name
    pub key : IsValue true config.provision_device_key
    pub secret : IsValue true config.provision_device_secret

  -- The texts of a configuration are those of the object.
  pub record HasConfig (root : Item) (config : ProvisioningConfig) : Type 0 where
    pub device_name : HasText root (codes "device_name") config.device_name
    pub key : HasText root (codes "provision_device_key") config.provision_device_key
    pub secret : HasText root (codes "provision_device_secret") config.provision_device_secret

  config_texts-IsUsable :
      (root : Item) (config : ProvisioningConfig)
      → config_texts j parse_prefix root ≡ some config
      → IsUsable config × HasConfig root config
  unfolding config_texts
  config_texts-IsUsable root config h =
      let name_of = text_member j parse_prefix root (codes "device_name") false in
      let key_of = text_member j parse_prefix root (codes "provision_device_key") true in
      let secret_of = text_member j parse_prefix root (codes "provision_device_secret") true in
      let (name, h1, r1) = bind-some name_of _ config h in
      let (key, h2, r2) = bind-some key_of _ config r1 in
      let (secret, h3, r3) = bind-some secret_of _ config r2 in
      let (v1, t1) = text_member-IsValue root (codes "device_name") name false h1 in
      let (v2, t2) = text_member-IsValue root (codes "provision_device_key") key true h2 in
      let (v3, t3) = text_member-IsValue root (codes "provision_device_secret") secret true h3 in
      subst (λ c. IsUsable c × HasConfig root c) (some_same r3)
        (
          record { device_name = v1; key = v2; secret = v3 },
          record { device_name = t1; key = t2; secret = t3 },
        )

  config_members-IsUsable :
      (root : Item) (config : ProvisioningConfig)
      → config_members j parse_prefix root ≡ some config
      → (version_matches j parse_prefix root ≡ true) × (IsUsable config × HasConfig root config)
  unfolding config_members
  config_members-IsUsable root config h =
      (ground (arith, h), config_texts-IsUsable root config (ground (arith, h)))

  -- A root object with the four members of the schema, each once, in any order, and of its version.
  pub record IsExactDocument (json : Text) (root : Item) : Type 0 where
    pub parsed : parse_prefix json ≡ some root
    pub object : is_object root ≡ true
    pub version : version_matches j parse_prefix root ≡ true
    pub members : Permᴰ (map some allowed_members) (names j parse_prefix (children root))

  parse_config_accepted :
      (json : Text) (config : ProvisioningConfig)
      → parse_config j parse_prefix json ≡ some config
      → IsUsable config × ((root : Item) × IsExactDocument json root × HasConfig root config)
  unfolding parse_config
  parse_config_accepted json config h = elim (Option-cases (parse_prefix json)) [
    | inl e ↦ absurd (ground (arith, h, e))
    | inr (root, e) ↦
        let object : is_object root ≡ true = ground (arith, h, e) in
        let exact : exact_members j parse_prefix root ≡ true = ground (arith, h, e) in
        let (version, (usable, texts)) =
          config_members-IsUsable root config (ground (arith, h, e, object, exact)) in
        (
          usable,
          (
            root,
            record {
              parsed = e;
              object = object;
              version = version;
              members = exact_members-perm root exact;
            },
            texts,
          ),
        )
  ]

  parse_read_ok :
      (st : Storage) (r : Option Text)
      → (parse_read j parse_prefix st r).0 ≡ none
      → (config : ProvisioningConfig) × ((parse_read j parse_prefix st r).1 ≡ some config)
        × ((json : Text) × (r ≡ some json) × (parse_config j parse_prefix json ≡ some config))
  unfolding parse_read
  parse_read_ok st none h = absurd cc
  parse_read_ok st (some json) h = elim (Option-cases (parse_config j parse_prefix json)) [
    | inl e ↦ absurd (ground (arith, h, e))
    | inr (config, e) ↦ (config, ground (arith, e), (json, refl, e))
  ]

  -- What is read of the file, after the stat that looks for it.
  abbrev pub text_read : (st : Storage) → st.World → Option Text
  text_read st w =
      (read_provisioning j parse_prefix st (max_provisioning_bytes + 1)
        (st.stat provisioning_path w).1).0

  load_read :
      (st : Storage) (w : st.World)
      → (provisioning_load j parse_prefix st true w).0.0 ≡ none
      → (provisioning_load j parse_prefix st true w).0
        ≡ parse_read j parse_prefix st (text_read st w)
  unfolding provisioning_load
  load_read st w h = grind arith

  -- If tb_provisioning_load returns TB_PROVISIONING_OK, it has written a configuration whose name, key and
  -- secret have 1 to 64 printable bytes each, the key and the secret without a space. The text that it has
  -- read of the file parses to an object with the four members of the schema, each once, in any order, and
  -- of version 1, and the name, the key and the secret are the texts of the object's members.
  pub provisioning_load-IsUsable :
      (st : Storage) (w : st.World)
      → (provisioning_load j parse_prefix st true w).0.0 ≡ none
      → (config : ProvisioningConfig) × ((provisioning_load j parse_prefix st true w).0.1
          ≡ some config)
        × IsUsable config
        × ((json : Text) × (text_read st w ≡ some json)
            × ((root : Item) × IsExactDocument json root × HasConfig root config))
  provisioning_load-IsUsable st w h =
      let same = load_read st w h in
      let (config, written, (json, read, e)) =
        parse_read_ok st (text_read st w) (ap (λ o. o.0) (sym same) ∙ h) in
      let (usable, found) = parse_config_accepted json config e in
      (config, ap (λ o. o.1) same ∙ written, usable, (json, read, found))
