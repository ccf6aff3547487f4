-- ===== src/AppConfig/Strings.antt =====
-- app_config.c: the check of a character array that is handed over, and the check of a text that is read.
use hq_led_lamp.Common.{
  ℕ, zero, suc, ◌≤◌, ◌≡◌, ◌⊎◌, refl, sym, ap, subst, ◌∙◌, Bool, Bool-cases, true, false, not, ◌||◌,
  Option-cases, none, some, inl, inr, List, [], ◌∷◌, ltb, ◌==◌, arith, length, take, if◌then◌else◌,
}
use hq_led_lamp.Json.{Text}
use hq_led_lamp.AppConfig.Types.{ConfigError, Result, then_do}
use hq_led_lamp.AppConfig.Fields.{string_is_printable_ascii, string_is_serial_charset, bounded_text}
use hq_led_lamp.AppConfig.Stored.{c_string}
use hq_led_lamp.AppConfig.Typed.{find_nul, all_allowed, typed_string_check}

-- Both loops over a text.
all_allowed_plain : (s : Text) → all_allowed s false ≡ string_is_printable_ascii s
unfolding all_allowed string_is_printable_ascii
all_allowed_plain [] = refl
all_allowed_plain (c ∷ cs) = ground (arith, all_allowed_plain cs)

all_allowed_serial : (s : Text) → all_allowed s true ≡ string_is_serial_charset s
unfolding all_allowed string_is_serial_charset
all_allowed_serial [] = refl
all_allowed_serial (c ∷ cs) = ground (arith, all_allowed_serial cs)

-- A serial number is printable.
serial_printable :
    (s : Text) → string_is_serial_charset s ≡ true → string_is_printable_ascii s ≡ true
unfolding string_is_serial_charset string_is_printable_ascii
serial_printable [] h = refl
serial_printable (c ∷ cs) h = ground (arith, serial_printable cs)

take_all {ℓ} : {A : Type ℓ} (n : ℕ) (s : List A) → length s ≤ n → take n s ≡ s
take_all zero [] h = refl
take_all zero (x ∷ xs) h = absurd (omega arith)
take_all (suc n) [] h = refl
take_all (suc n) (x ∷ xs) h = ap (λ r. x ∷ r) (take_all n xs (omega arith))

-- A terminator that was found ends the text.
find_nul_nil : (n : ℕ) → find_nul [] ≡ some n → ⊥
unfolding find_nul
find_nul_nil n h = cc

find_nul_cons :
    (c : ℕ) (cs : Text) (n : ℕ)
    → find_nul (c ∷ cs) ≡ some n
    → ((c ≡ 0) × (n ≡ 0)) ⊎ ((m : ℕ) × (find_nul cs ≡ some m) × (n ≡ suc m) × (not (c == 0) ≡ true))
unfolding find_nul
find_nul_cons c cs n h = elim (Option-cases (find_nul cs)) [
  | inl e ↦ inl (ground (arith, h, e))
  | inr (m, e) ↦ elim (Bool-cases (c == 0)) [
    | inl z ↦ inl (ground (arith, h, e, z))
    | inr z ↦ inr (m, e, ground (arith, h, e, z), ap not z)
  ]
]

c_string_cons : (c : ℕ) (cs : Text) → not (c == 0) ≡ true → c_string (c ∷ cs) ≡ c ∷ c_string cs
unfolding c_string
c_string_cons c cs h = ground (arith, h)

c_string_zero : (c : ℕ) (cs : Text) → c ≡ 0 → c_string (c ∷ cs) ≡ []
unfolding c_string
c_string_zero c cs h = ground (arith, h)

find_nul-none : (s : Text) → find_nul s ≡ none → c_string s ≡ s
unfolding find_nul c_string
find_nul-none [] h = refl
find_nul-none (c ∷ cs) h = elim (Option-cases (find_nul cs)) [
  | inl e ↦ ground (arith, find_nul-none cs e, h)
  | inr (m, e) ↦ ground (arith, h, e)
]

find_nul-some :
    (s : Text) (n : ℕ) → find_nul s ≡ some n → (take n s ≡ c_string s) × (length (c_string s) ≡ n)
find_nul-some [] n h = absurd (find_nul_nil n h)
find_nul-some (c ∷ cs) n h = elim (find_nul_cons c cs n h) [
  | inl (z, m) ↦
      subst (λ k. (take k (c ∷ cs) ≡ c_string (c ∷ cs)) × (length (c_string (c ∷ cs)) ≡ k)) (sym m)
        (sym (c_string_zero c cs z), ap length (c_string_zero c cs z))
  | inr (m, e, k, z) ↦
      let (p, q) = find_nul-some cs m e in
      let t = c_string_cons c cs z in
      subst (λ k. (take k (c ∷ cs) ≡ c_string (c ∷ cs)) × (length (c_string (c ∷ cs)) ≡ k)) (sym k)
        (ap (λ t. c ∷ t) p ∙ sym t, ap length t ∙ ap suc q)
]

-- What `typed_string_check` does with the text, once the terminator is found.
unfoldable string_tests : Text → ℕ → Bool → Result ℕ
string_tests t max_len serial =
    if (length t == 0) || ltb max_len (length t)
    then Result.err ConfigError.bounds
    else if all_allowed t serial
    then Result.ok (length t)
    else Result.err ConfigError.malformed

string_tests_bounded :
    (t : Text) (max_len : ℕ) (serial : Bool)
    → string_tests t max_len serial
      ≡ then_do (bounded_text t (suc max_len) serial) λ value. Result.ok (length value)
unfolding bounded_text string_tests
string_tests_bounded t max_len false = ground (arith, all_allowed_plain t)
string_tests_bounded t max_len true =
    ground (arith, all_allowed_plain t, all_allowed_serial t, serial_printable t)

typed_string_check_found :
    (s : Text) (max_len : ℕ) (serial : Bool)
    → length s ≡ suc max_len
    → (n : ℕ) → find_nul s ≡ some n
    → typed_string_check s (suc max_len) max_len serial ≡ string_tests (c_string s) max_len serial
unfolding typed_string_check string_tests
typed_string_check_found s max_len serial h n e =
    let (p, q) = find_nul-some s n e in
    let all = take_all (suc max_len) s (omega (arith, h)) in
    grind (arith, ap find_nul all ∙ e, all, e, p, q)

-- The commit's check of an array of the field's size accepts and refuses what the reader's check of its
-- text does, with the same error, and gives the text's length. Without a terminator in the array the text
-- is the whole array, and both refuse it.
pub typed_string_check_lem :
    (s : Text) (max_len : ℕ) (serial : Bool)
    → length s ≡ suc max_len
    → typed_string_check s (suc max_len) max_len serial
      ≡ then_do (bounded_text (c_string s) (suc max_len) serial) λ value. Result.ok (length value)
unfolding typed_string_check bounded_text
typed_string_check_lem s max_len serial h = elim (Option-cases (find_nul s)) [
  | inl e ↦
      subst
        (λ t.
          typed_string_check s (suc max_len) max_len serial
          ≡ then_do (bounded_text t (suc max_len) serial) λ value. Result.ok (length value))
        (sym (find_nul-none s e))
        (ground (
          arith,
          find_nul-none s e,
          ap find_nul (take_all (suc max_len) s (omega (arith, h))) ∙ e,
          h,
        ))
  | inr (n, e) ↦
      typed_string_check_found s max_len serial h n e
      ∙ string_tests_bounded (c_string s) max_len serial
]
