-- ===== src/TbApplication/OtaUpdates.antt =====
-- tb_application.c: which updates are for OTA alone, and which raise the firmware hint.
use hq_led_lamp.Common.{
  ◌≤◌, ◌≡◌, length, Bool, true, false, ◌&&◌, ◌||◌, Option, none, some, List, [], ◌∷◌, arith,
  if◌then◌else◌,
}
use hq_led_lamp.Json.{Text, Doubles, CJson, codes}
use hq_led_lamp.TbApplication.Parse.{starts_with, flat_attrs, max_payload_bytes}
use hq_led_lamp.TbApplication.Updates.{
  is_ota_key, deleted_loop, is_deleted, members_loop, is_ota_only_update,
}

-- A key that starts with fw_, and one that starts with fw_ or sw_.
unfoldable pub firmware_key : Option Text → Bool
firmware_key none = false
firmware_key (some key) = starts_with (codes "fw_") key

unfoldable pub ota_key : Option Text → Bool
ota_key none = false
ota_key (some key) = starts_with (codes "fw_") key || starts_with (codes "sw_") key

abbrev pub all {ℓ} : {A : Type ℓ} → (A → Bool) → List A → Bool
all f [] = true
all f (x ∷ xs) = f x && all f xs

abbrev pub any {ℓ} : {A : Type ℓ} → (A → Bool) → List A → Bool
any f [] = false
any f (x ∷ xs) = f x || any f xs

module _ {d : Doubles} (j : CJson d) where
  open j use {Item, parse, is_object, children, name, is_string, valuestring}

  unfoldable pub deleted_key : (Option Text → Bool) → Item → Bool
  deleted_key f item = is_string item && f (valuestring item)

  -- A member for OTA alone: an OTA key, or a list of deleted OTA keys.
  unfoldable pub ota_member : Item → Bool
  ota_member item =
      if is_deleted j item then all (deleted_key ota_key) (children item) else ota_key (name item)

  -- A member that names firmware.
  unfoldable pub firmware_member : Item → Bool
  firmware_member item =
      if is_deleted j item
      then any (deleted_key firmware_key) (children item)
      else firmware_key (name item)

  is_ota_key_lem :
      (key : Option Text) (f : Bool) → is_ota_key key f ≡ (ota_key key, f || firmware_key key)
  unfolding is_ota_key ota_key firmware_key
  is_ota_key_lem key f = ground arith

  deleted_loop_lem :
      (items : List Item) (only f : Bool)
      → deleted_loop j items only f
        ≡ (only && all (deleted_key ota_key) items, f || any (deleted_key firmware_key) items)
  unfolding deleted_loop deleted_key
  deleted_loop_lem [] only f = ground arith
  deleted_loop_lem (item ∷ items) only f = grind (arith, is_ota_key_lem, deleted_loop_lem items)

  members_loop_lem :
      (items : List Item) (some_member only f : Bool)
      → members_loop j items some_member only f ≡ (
        some_member || any (λ i. true) items,
        only && all ota_member items,
        f || any firmware_member items,
      )
  unfolding members_loop ota_member firmware_member
  members_loop_lem [] a only f = ground arith
  members_loop_lem (item ∷ items) a only f =
      grind (arith, is_ota_key_lem, deleted_loop_lem, members_loop_lem items)

  -- For a payload of at most 512 bytes that parses to an object, the update is for OTA alone iff its
  -- attributes have a member and each is a fw_ or sw_ key, or a list of such keys that were deleted;
  -- and the firmware hint is raised iff one of them names a fw_ key, whatever else the update holds.
  pub is_ota_only_update_lem :
      (json : Text) (root : Item)
      → length json ≤ max_payload_bytes
      → parse json ≡ some root
      → is_object root ≡ true
      → let members = children (flat_attrs j root) in
        is_ota_only_update j json
        ≡ (any (λ i. true) members && all ota_member members, any firmware_member members)
  unfolding is_ota_only_update
  is_ota_only_update_lem json root fits e o =
      rw e (grind (arith, members_loop_lem (children (flat_attrs j root)) false true false))
