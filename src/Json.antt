-- ===== src/Json.antt =====
-- cJSON and the C double, which the components use and the repository does not implement, as
-- parameters. A text is its bytes without the terminator.
pub mod MockJson
use Prim.Native.Char.{code}
use Prim.Native.String.{String}
use hq_led_lamp.Common.{
  [], ◌∷◌, ◌==◌, ◌&&◌, ℕ, Bool, true, false, ◌||◌, Option, none, some, List, ltb, if◌then◌else◌,
}
use hq_led_lamp.Common.Int.{ℤ, is_negative, to_nat}

abbrev pub Text : Type 0
Text = List ℕ

-- The bytes of an ASCII text.
abbrev pub codes : String → Text
codes String.[] = []
codes (String.◌∷◌ c s) = code c ∷ codes s

unfoldable pub text_eq : Text → Text → Bool
text_eq [] [] = true
text_eq [] (y ∷ ys) = false
text_eq (x ∷ xs) [] = false
text_eq (x ∷ xs) (y ∷ ys) = (x == y) && text_eq xs ys

pub record Doubles : Type 1 where
  pub Double : Type 0
  pub eq : Double → Double → Bool
  pub lt : Double → Double → Bool
  pub of_int : ℤ → Double
  pub truncate : Double → ℕ  -- `(uint64_t)v`, for a v in range
  pub dbl_max : Double
  pub two_63 : Double

-- The items that the parser returns, and the fields and functions of cJSON that the code reads.
pub record CJson (d : Doubles) : Type 1 where
  pub Item : Type 0
  pub parse : Text → Option Item  -- cJSON_Parse
  pub parse_strict : Text → Option Item  -- cJSON_ParseWithLengthOpts up to the terminator
  pub get_item : Item → Text → Option Item  -- cJSON_GetObjectItemCaseSensitive
  pub children : Item → List Item
  pub name : Item → Option Text
  pub is_object : Item → Bool
  pub is_array : Item → Bool
  pub is_string : Item → Bool
  pub is_bool : Item → Bool
  pub is_true : Item → Bool
  pub is_number : Item → Bool
  pub valuestring : Item → Option Text
  pub valueint : Item → ℤ
  pub valuedouble : Item → d.Double

-- A `cJSON_Is…` test; of a null item each is false.
abbrev pub test {ℓ} : {A : Type ℓ} → (A → Bool) → Option A → Bool
test f none = false
test f (some a) = f a

abbrev pub is_some {ℓ} : {A : Type ℓ} → Option A → Bool
is_some none = false
is_some (some a) = true

module _ {d : Doubles} (j : CJson d) where
  -- An integer JSON number in 0..limit: the range tests on `valueint`, and its comparison with
  -- `valuedouble`, which the parser keeps beside it.
  abbrev pub in_range_integer : ℕ → j.Item → Option ℕ
  in_range_integer limit item =
      let v = j.valueint item in
      if is_negative v || ltb limit (to_nat v)
      then none
      else if d.eq (d.of_int v) (j.valuedouble item)
      then some (to_nat v)
      else none
