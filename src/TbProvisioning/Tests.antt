-- ===== src/TbProvisioning/Tests.antt =====
-- tb_provisioning.c: the theorems on files in memory.
use hq_led_lamp.Common.{
  ℕ, ◌≡◌, ◌≢◌, ◌⊎◌, refl, sym, ◌∙◌, subst, Bool, Bool-cases, true, false, Option, none, some, inl,
  inr, List, [], ◌∷◌, arith, length, take, if◌then◌else◌,
}
use hq_led_lamp.Json.{Text, codes, text_eq}
use hq_led_lamp.Json.MockJson.{mock_json}
use hq_led_lamp.AppConfig.Storage.{StatResult, DocStatus}
use hq_led_lamp.AppConfig.Stored.{c_string}
use hq_led_lamp.AppConfig.Keys.{text_eq_refl}
use hq_led_lamp.TbProvisioning.Config.{
  ProvisioningConfig, printable_chars, printable_value, member_known, member_repeated, exact_loop,
  exact_members, text_member, version_matches, config_texts, config_members, parse_config,
  read_opened, read_provisioning, parse_read, provisioning_load, provisioning_path,
}
use hq_led_lamp.TbProvisioning.Identity.{identity_path, Volume, write_identity}
use hq_led_lamp.TbProvisioning.Loaded.{text_eq_same}
use hq_led_lamp.TbProvisioning.Exact.{
  IsUsable, IsExactDocument, HasConfig, text_read, provisioning_load-IsUsable,
}
use hq_led_lamp.TbProvisioning.Atomic.{VolumeLaws, IsPrinted, write_identity_lem}

-- Files by their paths, the newest first; an open file is its path.
abbrev Disk : Type 0
Disk = List (Text × Text)

abbrev find : Disk → Text → Option Text
find [] path = none
find ((p, c) ∷ files) path = if text_eq p path then some c else find files path

abbrev size_of : Option Text → StatResult
size_of none = StatResult.name_not_found
size_of (some c) = StatResult.size (length c)

abbrev part_of : ℕ → Option Text → Option Text
part_of n none = none
part_of n (some c) = some (take n c)

abbrev move : Text → Option Text → Disk → Bool × Disk
move to none w = (false, w)
move to (some c) w = (true, (to, c) ∷ w)

abbrev disk : Volume
disk = record {
  files = record {
    World = Disk;
    Fd = Text;
    max_path = 64;
    alloc = λ w. (true, w);
    stat = λ path w. (size_of (find w path), w);
    open_file = λ path w. (some path, w);
    read = λ fd n w. (part_of n (find w fd), w);
    close = λ fd w. (true, w);
    commit = λ path json max check w. (DocStatus.io, w);
  };
  create = λ path w. (some path, (path, []) ∷ w);
  write = λ fd t w. (some (length t), (fd, t) ∷ w);
  rename = λ from to w. move to (find w from) w;
  print = λ members w. (some (codes "I"), w);
}

find_same : (path path' c : Text) (w : Disk) → path ≡ path' → find ((path, c) ∷ w) path' ≡ some c
find_same path path' c w e =
    subst (λ q. find ((path, c) ∷ w) q ≡ some c) e (ground (arith, text_eq_refl path))

find_other :
    (path path' c c' : Text) (w : Disk)
    → path ≢ path'
    → find w path' ≡ some c
    → find ((path, c') ∷ w) path' ≡ some c
find_other path path' c c' w differ h = elim (Bool-cases (text_eq path path')) [
  | inl e ↦ absurd (differ (text_eq_same path path' e))
  | inr e ↦ ground (arith, e, h)
]

some_path : (a b : Text) → some a ≡ some b → b ≡ a
some_path a b h = cc

move_holds :
    (to c : Text) (w : Disk) (found : Option Text)
    → found ≡ some c
    → find (move to found w).1 to ≡ some c
move_holds to c w none e = absurd cc
move_holds to c w (some c') e = find_same to to c' w refl ∙ e

move_keeps :
    (to path c : Text) (w : Disk) (found : Option Text)
    → (move to found w).0 ≡ false
    → find w path ≡ some c
    → find (move to found w).1 path ≡ some c
move_keeps to path c w none e h = h
move_keeps to path c w (some c') e h = absurd cc

abbrev disk_laws : VolumeLaws disk
disk_laws = record {
  Holds = λ w path c. find w path ≡ some c;
  Writes = λ w fd path c. (fd ≡ path) × (find w path ≡ some c);
  print_keeps = λ members w path c h. h;
  create_writes = λ path w fd e. (some_path path fd e, find_same path path [] w refl);
  create_keeps = λ path path' c w differ h. find_other path path' c [] w differ h;
  write_whole = λ fd path t w open_fd e. (open_fd.0, find_same fd path t w open_fd.0);
  write_close_keeps = λ fd path path' t c w open_fd differ h.
      find_other fd path' c t w (λ e. differ (sym open_fd.0 ∙ e)) h;
  close_holds = λ fd path c w open_fd e. open_fd.1;
  rename_holds = λ from to c w h e. move_holds to c w (find w from) h;
  rename_keeps = λ from to path c w e h. move_keeps to path c w (find w from) e h;
}

-- A document of the enrollment, and an old identity.
abbrev stored : Disk
stored = (provisioning_path, codes "P") ∷ (identity_path, codes "old") ∷ []

abbrev desk_config : ProvisioningConfig
desk_config = record {
  device_name = codes "desk lamp";
  provision_device_key = codes "key";
  provision_device_secret = codes "secret";
}

provisioning_load-IsUsable_example :
    (config : ProvisioningConfig) × ((provisioning_load mock_json mock_json.parse disk.files true
        stored).0.1
      ≡ some config)
    × IsUsable mock_json mock_json.parse config
    × ((json : Text) × (text_read mock_json mock_json.parse disk.files stored ≡ some json)
        × ((root : mock_json.Item) × IsExactDocument mock_json mock_json.parse json root
            × HasConfig mock_json mock_json.parse root config))
unfolding text_eq c_string printable_chars printable_value member_known member_repeated exact_loop
    exact_members text_member version_matches config_texts config_members parse_config read_opened
    read_provisioning parse_read provisioning_load
provisioning_load-IsUsable_example =
    provisioning_load-IsUsable mock_json mock_json.parse disk.files stored refl

write_identity_lem_example :
    let (kept, w') = write_identity disk desk_config (codes "token") stored in
    ((kept ≡ true)
      × ((json : Text) × IsPrinted disk_laws desk_config (codes "token") json
          × (find w' identity_path ≡ some json)))
    ⊎ ((kept ≡ false) × (find w' identity_path ≡ some (codes "old")))
unfolding text_eq
write_identity_lem_example =
    write_identity_lem disk_laws desk_config (codes "token") (codes "old") stored (λ fd w. refl)
      refl
