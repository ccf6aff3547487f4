-- ===== src/Json/MockJson.antt =====
-- A parser to run the module on: a text is looked up by its first byte, and an object holds numbers,
-- Booleans and texts. A number is an integer.
use hq_led_lamp.Common.{
  ℕ, Bool, true, false, Option, none, some, List, [], ◌∷◌, ◌==◌, map, ltb, if◌then◌else◌,
}
use hq_led_lamp.Common.Int.{ℤ, pos, negsuc}
use hq_led_lamp.Json.{Text, Doubles, CJson, codes, text_eq}

abbrev int_eq : ℤ → ℤ → Bool
int_eq (pos m) (pos n) = m == n
int_eq (negsuc m) (negsuc n) = m == n
int_eq m n = false

abbrev int_lt : ℤ → ℤ → Bool
int_lt (pos m) (pos n) = ltb m n
int_lt (negsuc m) (pos n) = true
int_lt (pos m) (negsuc n) = false
int_lt (negsuc m) (negsuc n) = ltb n m

abbrev to_abs : ℤ → ℕ
to_abs (pos n) = n
to_abs (negsuc n) = 0

abbrev pub mock_doubles : Doubles
mock_doubles = record {
  Double = ℤ;
  eq = int_eq;
  lt = int_lt;
  of_int = λ n. n;
  truncate = to_abs;
  dbl_max = pos 9223372036854775807;
  two_63 = pos 9223372036854775808;
}

pub data Leaf : Type 0 where
  num : ℤ → Leaf
  bool : Bool → Leaf
  str : Text → Leaf

pub data MockItem : Type 0 where
  leaf : Option Text → Leaf → MockItem
  object : List (Text × Leaf) → MockItem

abbrev pub lookup : List (Text × Leaf) → Text → Option MockItem
lookup [] key = none
lookup ((k, v) ∷ fs) key = if text_eq k key then some (leaf (some k) v) else lookup fs key

abbrev get : MockItem → Text → Option MockItem
get (leaf k v) key = none
get (object fs) key = lookup fs key

abbrev members : MockItem → List MockItem
members (leaf k v) = []
members (object fs) = map (λ f. leaf (some f.0) f.1) fs

abbrev name_of : MockItem → Option Text
name_of (leaf k v) = k
name_of (object fs) = none

abbrev is_obj : MockItem → Bool
is_obj (object fs) = true
is_obj _ = false

abbrev is_str : MockItem → Bool
is_str (leaf k (Leaf.str t)) = true
is_str _ = false

abbrev is_boolean : MockItem → Bool
is_boolean (leaf k (Leaf.bool b)) = true
is_boolean _ = false

abbrev truth : MockItem → Bool
truth (leaf k (Leaf.bool b)) = b
truth _ = false

abbrev is_num : MockItem → Bool
is_num (leaf k (Leaf.num n)) = true
is_num _ = false

abbrev number : MockItem → ℤ
number (leaf k (Leaf.num n)) = n
number _ = pos 0

abbrev text_of : MockItem → Option Text
text_of (leaf k (Leaf.str t)) = some t
text_of _ = none

-- `{"power": true, "brightness": 40}`.
abbrev pub lamp_object : MockItem
lamp_object =
    object ((codes "power", Leaf.bool true) ∷ (codes "brightness", Leaf.num (pos 40)) ∷ [])

-- `{"fw_title": "lamp", "sw_version": "2"}`.
abbrev pub ota_object : MockItem
ota_object =
    object (
      (codes "fw_title", Leaf.str (codes "lamp")) ∷ (codes "sw_version", Leaf.str (codes "2")) ∷ [])

-- A device document of version 1, with its members out of order.
abbrev pub device_object : MockItem
device_object = object (
    (codes "product", Leaf.str (codes "lamp"))
    ∷ (codes "schema_version", Leaf.num (pos 1))
    ∷ (codes "serial", Leaf.str (codes "HQ-7"))
    ∷ (codes "thingsboard_name", Leaf.str (codes "desk"))
    ∷ (codes "hardware_revision", Leaf.str (codes "B2"))
    ∷ [])

-- A broker's configuration, with the access token as credential.
abbrev pub broker_object : MockItem
broker_object = object (
    (codes "schema_version", Leaf.num (pos 1))
    ∷ (codes "hostname", Leaf.str (codes "tb.example.org"))
    ∷ (codes "port", Leaf.num (pos 8883))
    ∷ (codes "tls_mode", Leaf.str (codes "mqtts"))
    ∷ (codes "ca_path", Leaf.str (codes "/cert/ca.crt"))
    ∷ (codes "client_id", Leaf.str (codes "lamp"))
    ∷ (codes "auth_mode", Leaf.str (codes "access_token"))
    ∷ (codes "skip_verify", Leaf.bool false)
    ∷ [])

-- The document of an enrollment.
abbrev pub enrollment_object : MockItem
enrollment_object = object (
    (codes "device_name", Leaf.str (codes "desk lamp"))
    ∷ (codes "schema_version", Leaf.num (pos 1))
    ∷ (codes "provision_device_key", Leaf.str (codes "key"))
    ∷ (codes "provision_device_secret", Leaf.str (codes "secret"))
    ∷ [])

abbrev parse_text : Text → Option MockItem
parse_text [] = none
parse_text (c ∷ cs) =
    if c == b'L'
    then some lamp_object
    else if c == b'O'
    then some ota_object
    else if c == b'D'
    then some device_object
    else if c == b'M'
    then some broker_object
    else if c == b'P'
    then some enrollment_object
    else none

abbrev pub mock_json : CJson mock_doubles
mock_json = record {
  Item = MockItem;
  parse = parse_text;
  parse_strict = parse_text;
  get_item = get;
  children = members;
  name = name_of;
  is_object = is_obj;
  is_array = λ i. false;
  is_string = is_str;
  is_bool = is_boolean;
  is_true = truth;
  is_number = is_num;
  valuestring = text_of;
  valueint = number;
  valuedouble = number;
}
