-- ===== src/AppConfig/MemoryStore.antt =====
-- Files in memory, with one open file at a time, as a storage to run app_config on.
use hq_led_lamp.Common.{
  false, ◌≢◌, ℕ, zero, suc, ◌≤◌, ◌<◌, ◌≡◌, refl, ap, true, Option, none, some, List, [], ◌∷◌, ◌++◌,
  arith, length, take, if◌then◌else◌,
}
use hq_led_lamp.Json.{Text, text_eq}
use hq_led_lamp.AppConfig.Storage.{StatResult, DocStatus, Storage}
use hq_led_lamp.AppConfig.Keys.{text_eq_refl}
use hq_led_lamp.AppConfig.ReadAll.{StorageLaws, ReadsShort}

abbrev pub drop : ℕ → Text → Text
drop zero xs = xs
drop (suc n) [] = []
drop (suc n) (x ∷ xs) = drop n xs

-- The files, and the rest of the open one.
abbrev pub Mem : Type 0
Mem = List (Text × Text) × Text

abbrev pub find : List (Text × Text) → Text → Option Text
find [] path = none
find ((p, c) ∷ files) path = if text_eq p path then some c else find files path

abbrev pub mem_stat : Text → Mem → StatResult
mem_stat path (files, rest) = elim (find files path) [
  | none ↦ StatResult.name_not_found
  | some c ↦ StatResult.size (length c)
]

abbrev pub mem_open : Text → Mem → Option (Unit {0}) × Mem
mem_open path (files, rest) = elim (find files path) [
  | none ↦ (none, (files, rest))
  | some c ↦ (some tt, (files, c))
]

abbrev pub mem_commit : Text → Text → (Text → DocStatus) → Mem → DocStatus × Mem
mem_commit path json validate (files, rest) = elim (validate json) [
  | DocStatus.ok ↦ (DocStatus.ok, ((path, json) ∷ files, rest))
  | status ↦ (status, (files, rest))
]

abbrev pub mem : Storage
mem = record {
  World = Mem;
  Fd = Unit {0};
  max_path = 64;
  alloc = λ w. (true, w);
  stat = λ path w. (mem_stat path w, w);
  open_file = mem_open;
  read = λ fd want w. (some (take want w.1), (w.0, drop want w.1));
  close = λ fd w. (true, w);
  commit = λ path json max validate w. mem_commit path json validate w;
}

pub take-drop : (n : ℕ) (s : Text) → s ≡ take n s ++ drop n s
take-drop zero s = refl
take-drop (suc n) [] = refl
take-drop (suc n) (x ∷ xs) = ap (λ t. x ∷ t) (take-drop n xs)

pub take_nil : (n : ℕ) (s : Text) → 0 < n → take n s ≡ [] → s ≡ []
take_nil zero s h e = absurd (omega arith)
take_nil (suc n) [] h e = refl
take_nil (suc n) (x ∷ xs) h e = absurd cc

length-take : (n : ℕ) (s : Text) → length (take n s) ≤ n
length-take zero s = omega arith
length-take (suc n) [] = omega arith
length-take (suc n) (x ∷ xs) = omega (arith, length-take n xs)

pub mem_commit_holds :
    (path json : Text) (validate : Text → DocStatus) (w : Mem)
    → (mem_commit path json validate w).0 ≡ DocStatus.ok
    → find (mem_commit path json validate w).1.0 path ≡ some json
mem_commit_holds path json validate w h = ground (arith, h, text_eq_refl path)

pub stat_found :
    (path c : Text) (w : Mem)
    → find w.0 path ≡ some c
    → mem_stat path w ≡ StatResult.size (length c)
stat_found path c w h = ground (arith, h)

pub open_found : (path c : Text) (w : Mem) → find w.0 path ≡ some c → (mem_open path w).0 ≡ some tt
open_found path c w h = ground (arith, h)

pub open_rest : (path c : Text) (w : Mem) → find w.0 path ≡ some c → (mem_open path w).1.1 ≡ c
open_rest path c w h = ground (arith, h)

abbrev pub mem_laws : StorageLaws mem
mem_laws = record {
  Holds = λ w path c. find w.0 path ≡ some c;
  Open = λ w fd rest. w.1 ≡ rest;
  alloc_holds = λ path c w h. h;
  stat_holds = λ path c w h. (stat_found path c w h, h);
  open_holds = λ path c w h. (tt, open_found path c w h, open_rest path c w h);
  read_open = λ fd want rest w h positive. (
    take want rest,
    drop want rest,
    ap (λ r. some (take want r)) h,
    take-drop want rest,
    take_nil want rest positive,
    ap (drop want) h,
  );
  close_open = λ fd rest w h. refl;
  commit_holds = λ path json max validate w h. mem_commit_holds path json validate w h;
}

pub some_same : (s t : Text) → some s ≡ some t → s ≡ t
some_same s t h = cc

pub mem-ReadsShort : ReadsShort mem
mem-ReadsShort fd want w chunk h =
    omega (arith, length-take want w.1, ap length (some_same (take want w.1) chunk h))

find_other :
    (path path' json : Text) (files : List (Text × Text)) (c : Text)
    → text_eq path path' ≡ false
    → find files path' ≡ some c
    → find ((path, json) ∷ files) path' ≡ some c
find_other path path' json files c other h = ground (arith, other, h)

pub commit_finds_other :
    (path path' c json : Text) (validate : Text → DocStatus) (w : Mem)
    → text_eq path path' ≡ false
    → find w.0 path' ≡ some c
    → find (mem_commit path json validate w).1.0 path' ≡ some c
commit_finds_other path path' c json validate w other h =
    ground (arith, h, find_other path path' json w.0 c other h)

pub failed_commit_finds :
    (path path' c json : Text) (validate : Text → DocStatus) (w : Mem)
    → (mem_commit path json validate w).0 ≢ DocStatus.ok
    → find w.0 path' ≡ some c
    → find (mem_commit path json validate w).1.0 path' ≡ some c
failed_commit_finds path path' c json validate w failed h = ground (arith, h, failed)

pub open_finds :
    (path path' c : Text) (w : Mem)
    → find w.0 path' ≡ some c
    → find (mem_open path w).1.0 path' ≡ some c
open_finds path path' c w h = ground (arith, h)
