-- ===== src/AppMain/MockDir.antt =====
-- A state directory of at most twenty files, each of which has one byte for a name.
use hq_led_lamp.Common.{
  ℕ, zero, suc, ◌≤◌, ◌<◌, ◌≡◌, refl, ap, Bool, true, false, Option, none, some, List, [], ◌∷◌, leb,
  if◌then◌else◌, length, arith,
}
use hq_led_lamp.Json.{Text, text_eq}
use hq_led_lamp.AppConfig.Keys.{text_eq_refl}
use hq_led_lamp.AppMain.Reset.{Entry, Erasable, state_path}
use hq_led_lamp.AppMain.Cleared.{file_names, DirLaws}

abbrev pub cap : ℕ → ℕ
cap n = if leb n 20 then n else 20

abbrev pub names : ℕ → List Text
names zero = []
names (suc n) = (n ∷ []) ∷ names n

abbrev pub entries : ℕ → List Entry
entries zero = []
entries (suc n) = record { name = n ∷ []; is_file = true } ∷ entries n

-- The number of the files, and of the entries not yet read.
abbrev pub Files : Type 0
Files = ℕ × ℕ

abbrev pub read_next : Files → Option Entry × Files
read_next (n, zero) = (none, (n, zero))
read_next (n, suc r) = (some (record { name = r ∷ []; is_file = true }), (n, r))

abbrev pub remove_last : ℕ → Text → Files → Bool × Files
remove_last zero path w = (false, w)
remove_last (suc m) path w =
    if text_eq (state_path (m ∷ [])) path then (true, (m, w.1)) else (false, w)

abbrev pub dir : Erasable
dir = record {
  World = Files;
  Dir = Unit {0};
  max_path = 64;
  max_entries = 21;
  dir_open = λ path w. (some tt, (w.0, cap w.0));
  dir_read = λ d w. read_next w;
  dir_close = λ d w. w;
  remove = λ path w. remove_last (cap w.0) path w;
  erase_credentials = λ w. (true, w);
}

file_names-entries : (n : ℕ) → file_names (entries n) ≡ names n
file_names-entries zero = refl
file_names-entries (suc n) = ap (λ l. (n ∷ []) ∷ l) (file_names-entries n)

length-entries : (n : ℕ) → length (entries n) ≡ n
length-entries zero = refl
length-entries (suc n) = ap suc (length-entries n)

cap_small : (n : ℕ) → cap n < 21
cap_small n = ground arith

read_done :
    (w : Files)
    → [] ≡ entries w.1
    → ((read_next w).0 ≡ none) × (names (cap (read_next w).1.0) ≡ names (cap w.0))
read_done (n, zero) h = (refl, refl)
read_done (n, suc r) h = absurd cc

read_more :
    (e : Entry) (es : List Entry) (w : Files)
    → e ∷ es ≡ entries w.1
    → ((read_next w).0 ≡ some e)
      × (es ≡ entries (read_next w).1.1)
      × (names (cap (read_next w).1.0) ≡ names (cap w.0))
read_more e es (n, zero) h = absurd cc
read_more e es (n, suc r) h = (cc, cc, refl)

removed_head :
    (m : ℕ) (w : Files)
    → suc m ≤ 20
    → ((remove_last (suc m) (state_path (m ∷ [])) w).0 ≡ true)
      × (names (cap (remove_last (suc m) (state_path (m ∷ [])) w).1.0) ≡ names m)
removed_head m w small =
    let same = text_eq_refl (state_path (m ∷ [])) in
    let capped : cap m ≡ m = ground (arith, small) in
    (ground (arith, same), ground (arith, same, capped))

removed_first :
    (k : ℕ) (name : Text) (rest : List Text) (w : Files)
    → k ≤ 20
    → names k ≡ name ∷ rest
    → (length name ≤ 64)
      × ((remove_last k (state_path name) w).0 ≡ true)
      × (names (cap (remove_last k (state_path name) w).1.0) ≡ rest)
removed_first zero name rest w small h = absurd cc
removed_first (suc m) name rest w small h =
    let e : m ∷ [] ≡ name = cc in
    let t : names m ≡ rest = cc in
    let (ok, left) = removed_head m w small in rw (← e, ← t) (omega arith, ok, left)

pub dir_laws : DirLaws dir
dir_laws = record {
  files = λ w. names (cap w.0);
  Listing = λ w d es. es ≡ entries w.1;
  open_listing = λ w. (
    tt,
    entries (cap w.0),
    refl,
    refl,
    file_names-entries (cap w.0),
    omega (arith, length-entries (cap w.0), cap_small w.0),
    refl,
  );
  read_end = λ d w h. read_done w h;
  read_entry = λ d e es w h. read_more e es w h;
  close_files = λ d w. refl;
  remove_first =
      λ name rest w h. removed_first (cap w.0) name rest w (omega (arith, cap_small w.0)) h;
}
