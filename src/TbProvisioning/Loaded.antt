-- ===== src/TbProvisioning/Loaded.antt =====
-- tb_provisioning.c: what the tests on members and texts accept.
use mathlib.Core.List.{Memᴰ}
use hq_led_lamp.Common.{
  ℕ, suc, ◌+◌, ◌≤◌, ◌<◌, ◌≡◌, refl, ap, sym, ◌∙◌, subst, Bool, Bool-cases, true, false, false≢true,
  Option, Option-cases, some, inl, inr, List, [], ◌∷◌, map, ◌==◌, All, arith, length,
}
use hq_led_lamp.Json.{Text, Doubles, CJson, text_eq}
use hq_led_lamp.AppConfig.Keys.{IsDistinct, text_eq_refl}
use hq_led_lamp.TbProvisioning.Config.{
  printable_chars, printable_value, allowed_members, member_known, member_repeated, exact_loop,
}

pub text_eq_same : (a b : Text) → text_eq a b ≡ true → a ≡ b
unfolding text_eq
text_eq_same [] [] h = refl
text_eq_same [] (y ∷ ys) h = absurd (false≢true h)
text_eq_same (x ∷ xs) [] h = absurd (false≢true h)
text_eq_same (x ∷ xs) (y ∷ ys) h =
    let rest = text_eq_same xs ys (ground (arith, h)) in let head : x ≡ y = ground (arith, h) in cc

-- A printable byte, with the space where it is allowed.
abbrev pub IsChar : Bool → ℕ → Type 0
IsChar no_space c = (32 ≤ c) × (c ≤ 126) × (no_space ≡ true → (c == b' ') ≡ false)

printable_chars-IsChar :
    (s : Text) (no_space : Bool) → printable_chars s no_space ≡ true → All (IsChar no_space) s
unfolding printable_chars
printable_chars-IsChar [] no_space h = tt
printable_chars-IsChar (c ∷ cs) no_space h = (
  (ground (arith, h), ground (arith, h), λ e. ground (arith, h, e)),
  printable_chars-IsChar cs no_space (ground (arith, h)),
)

-- A text of 1 to 64 such bytes.
abbrev pub IsValue : Bool → Text → Type 0
IsValue no_space s = (0 < length s) × (length s ≤ 64) × All (IsChar no_space) s

pub printable_value-IsValue :
    (s : Text) (no_space : Bool) → printable_value (some s) 64 no_space ≡ true → IsValue no_space s
unfolding printable_value
printable_value-IsValue s no_space h =
    (ground (arith, h), ground (arith, h), printable_chars-IsChar s no_space (ground (arith, h)))

member_known-Mem :
    (key : Text) (keys : List Text) → member_known key keys ≡ true → Memᴰ (some key) (map some keys)
unfolding member_known
member_known-Mem key [] h = absurd (false≢true h)
member_known-Mem key (k ∷ ks) h = elim (Bool-cases (text_eq key k)) [
  | inl e ↦ Memᴰ.head (ap some (text_eq_same key k e))
  | inr e ↦ Memᴰ.tail (member_known-Mem key ks (ground (arith, h, e)))
]

module _ {d : Doubles} (j : CJson d) (parse_prefix : Text → Option j.Item) where
  open j use {Item, get_item, children, name, is_object, valuestring}

  abbrev pub names : List Item → List (Option Text)
  names items = map name items

  member_repeated_found :
      (key : Text) (items : List Item)
      → member_repeated j parse_prefix key items ≡ false
      → Memᴰ (some key) (names items)
      → ⊥
  unfolding member_repeated
  member_repeated_found key [] h m = elim m [ ]
  member_repeated_found key (item ∷ items) h (Memᴰ.head e) =
      let equal = text_eq_refl key in false≢true (sym (ground (arith, h, e, equal)))
  member_repeated_found key (item ∷ items) h (Memᴰ.tail m) =
      member_repeated_found key items (ground (arith, h)) m

  exact_loop_cons :
      (item : Item) (items : List Item) (count n : ℕ)
      → exact_loop j parse_prefix (item ∷ items) count ≡ some n
      → (key : Text) × (name item ≡ some key)
        × (member_known key allowed_members ≡ true)
        × (member_repeated j parse_prefix key items ≡ false)
        × (exact_loop j parse_prefix items (suc count) ≡ some n)
  unfolding exact_loop
  exact_loop_cons item items count n h = elim (Option-cases (name item)) [
    | inl e ↦ absurd (ground (arith, h, e))
    | inr (key, e) ↦ (key, e, ground (arith, h, e), ground (arith, h, e), ground (arith, h, e))
  ]

  abbrev pub Covered : List (Option Text) → Type 0
  Covered l = (k : Option Text) → Memᴰ k l → Memᴰ k (map some allowed_members)

  pub exact_loop_lem :
      (items : List Item) (count n : ℕ)
      → exact_loop j parse_prefix items count ≡ some n
      → (n ≡ count + length items) × IsDistinct (names items) × Covered (names items)
  unfolding exact_loop
  exact_loop_lem [] count n h = (ground (arith, h), tt, λ k m. elim m [ ])
  exact_loop_lem (item ∷ items) count n h =
      let (key, e, known, once, rest) = exact_loop_cons item items count n h in
      let (sum, distinct, covered) = exact_loop_lem items (suc count) n rest in
      (
        omega (arith, sum),
        (
          λ m. member_repeated_found key items once (subst (λ k. Memᴰ k (names items)) e m),
          distinct,
        ),
        cover key e known covered,
      )
    where
      cover :
          (key : Text)
          → name item ≡ some key
          → member_known key allowed_members ≡ true
          → Covered (names items)
          → Covered (names (item ∷ items))
      cover key e known covered k (Memᴰ.head same) =
          subst (λ z. Memᴰ z (map some allowed_members)) (sym (same ∙ e))
            (member_known-Mem key allowed_members known)
      cover key e known covered k (Memᴰ.tail m) = covered k m
