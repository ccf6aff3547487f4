-- ===== src/AppConfig/Keys.antt =====
-- app_config.c: the counting argument behind check_member_keys. An object with no more members than
-- there are allowed keys, and with a member for each of them, has exactly these keys, each once.
use mathlib.Core.List.{Memᴰ, Permᴰ}
use mathlib.Core.List.Memᴰ
use mathlib.Core.List.Permᴰ
use hq_led_lamp.Common.{
  suc, ◌≤◌, ◌≡◌, ◌⊎◌, inl, inr, refl, sym, subst, ◌∙◌, Bool, true, false, not, ◌&&◌, Option, none,
  some, List, [], ◌∷◌, arith, length,
}
use hq_led_lamp.Json.{Text, text_eq}

module _ {ℓ} {A : Type ℓ} where
  -- No entry occurs twice.
  abbrev pub IsDistinct : List A → Type ℓ
  IsDistinct [] = Unit
  IsDistinct (x ∷ xs) = (Memᴰ x xs → ⊥) × IsDistinct xs

  -- A list with one occurrence of `a` moved to the front.
  record Picked (a : A) (l : List A) : Type ℓ where
    rest : List A
    perm : Permᴰ l (a ∷ rest)
    one_less : length l ≡ suc (length rest)
    others : (b : A) → Memᴰ b l → (b ≡ a) ⊎ Memᴰ b rest

  pick : (a : A) (l : List A) → Memᴰ a l → Picked a l
  pick a [] m = elim m [ ]
  pick a (x ∷ xs) (Memᴰ.head e) = record {
    rest = xs;
    perm = Permᴰ.cons (sym e) (Permᴰ.refl xs);
    one_less = refl;
    others = λ b m. elim (Memᴰ.cases_cons m) [ inl e' ↦ inl (e' ∙ sym e) | inr m' ↦ inr m' ];
  }
  pick a (x ∷ xs) (Memᴰ.tail m) =
      let p = pick a xs m in
      record {
        rest = x ∷ p.rest;
        perm = Permᴰ.trans (Permᴰ.cons refl p.perm) (Permᴰ.swap refl refl);
        one_less = omega (arith, p.one_less);
        others = λ b m. elim (Memᴰ.cases_cons m) [
          | inl e ↦ inr (Memᴰ.head e)
          | inr m' ↦ elim (p.others b m') [ inl e ↦ inl e | inr m'' ↦ inr (Memᴰ.tail m'') ]
        ];
      }

  pub covering-perm :
      (allowed names : List A)
      → IsDistinct allowed
      → ((a : A) → Memᴰ a allowed → Memᴰ a names)
      → length names ≤ length allowed
      → Permᴰ names allowed
  covering-perm [] [] distinct covers bound = Permᴰ.nil
  covering-perm [] (n ∷ ns) distinct covers bound = absurd (omega (arith, bound))
  covering-perm (x ∷ xs) names distinct covers bound =
      let p = pick x names (covers x (Memᴰ.head refl)) in
      let inside : (a : A) → Memᴰ a xs → Memᴰ a p.rest = λ a m.
        elim (p.others a (covers a (Memᴰ.tail m))) [
          | inl e ↦ absurd (distinct.0 (Memᴰ.cast (sym e) m))
          | inr m' ↦ m'
        ] in
      Permᴰ.trans p.perm (
        Permᴰ.cons refl
          (covering-perm xs p.rest distinct.1 inside (omega (arith, bound, p.one_less))))

-- The test for distinct texts.
abbrev same : Option Text → Option Text → Bool
same none none = true
same (some a) (some b) = text_eq a b
same _ _ = false

abbrev absent : Option Text → List (Option Text) → Bool
absent x [] = true
absent x (y ∷ ys) = not (same x y) && absent x ys

abbrev pub distinct : List (Option Text) → Bool
distinct [] = true
distinct (x ∷ xs) = absent x xs && distinct xs

pub text_eq_refl : (t : Text) → text_eq t t ≡ true
unfolding text_eq
text_eq_refl [] = refl
text_eq_refl (c ∷ cs) = ground (arith, text_eq_refl cs)

same_refl : (x : Option Text) → same x x ≡ true
same_refl none = refl
same_refl (some t) = text_eq_refl t

absent_lem : (x : Option Text) (l : List (Option Text)) → absent x l ≡ true → Memᴰ x l → ⊥
absent_lem x [] h m = elim m [ ]
absent_lem x (y ∷ ys) h (Memᴰ.head e) =
    let equal = subst (λ z. same x z ≡ true) e (same_refl x) in ground (arith, h, equal)
absent_lem x (y ∷ ys) h (Memᴰ.tail m) = absent_lem x ys (ground (arith, h)) m

pub distinct_lem : (l : List (Option Text)) → distinct l ≡ true → IsDistinct l
distinct_lem [] h = tt
distinct_lem (x ∷ xs) h = (absent_lem x xs (ground (arith, h)), distinct_lem xs (ground (arith, h)))
