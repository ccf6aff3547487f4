-- ===== src/AppMain/Cleared.antt =====
-- app_main.c: what the clearing of the state directory removes, and what it reports.
use hq_led_lamp.Common.{
  ℕ, zero, suc, ◌≤◌, ◌<◌, ◌≡◌, ◌∙◌, refl, ap, Bool-cases, true, false, Option, none, some, List, [],
  ◌∷◌, List-cases, ltb, inl, inr, arith, length, ◌++◌, length-append,
}
use hq_led_lamp.Json.{Text, codes}
use hq_led_lamp.AppMain.Reset.{
  Entry, Erasable, state_dir, state_path, state_files_max, find_file, remove_file, clear_loop,
  clear_state_dir,
}

-- The names of the files among entries.
abbrev pub file_names : List Entry → List Text
file_names [] = []
file_names (e ∷ es) = elim e.is_file [ true ↦ e.name ∷ file_names es | false ↦ file_names es ]

-- The list without its first n elements.
abbrev pub drop {ℓ} : {A : Type ℓ} → ℕ → List A → List A
drop zero xs = xs
drop (suc n) [] = []
drop (suc n) (x ∷ xs) = drop n xs

module _ (f : Erasable) where
  open f use {World, Dir, max_path, max_entries, dir_open, dir_read, dir_close, remove}

  -- A directory of files, which always opens and is listed entry by entry, with names that fit and files
  -- of which each can be removed.
  pub record DirLaws : Type 1 where
    pub files : World → List Text
    pub Listing : World → Dir → List Entry → Type 0
    pub open_listing :
        (w : World)
        → (dir : Dir) × (entries : List Entry) × ((dir_open state_dir w).0 ≡ some dir)
          × Listing (dir_open state_dir w).1 dir entries
          × (file_names entries ≡ files w)
          × (length entries < max_entries)
          × (files (dir_open state_dir w).1 ≡ files w)
    pub read_end :
        (dir : Dir) (w : World)
        → Listing w dir []
        → ((dir_read dir w).0 ≡ none) × (files (dir_read dir w).1 ≡ files w)
    pub read_entry :
        (dir : Dir) (e : Entry) (es : List Entry) (w : World)
        → Listing w dir (e ∷ es)
        → ((dir_read dir w).0 ≡ some e)
          × Listing (dir_read dir w).1 dir es
          × (files (dir_read dir w).1 ≡ files w)
    pub close_files : (dir : Dir) (w : World) → files (dir_close dir w) ≡ files w
    pub remove_first :
        (name : Text) (rest : List Text) (w : World)
        → files w ≡ name ∷ rest
        → (length name ≤ max_path)
          × ((remove (state_path name) w).0 ≡ true)
          × (files (remove (state_path name) w).1 ≡ rest)

  -- The two ways on of a round.
  loop_done :
      (rounds : ℕ) (w : World) (dir : Dir)
      → (dir_open state_dir w).0 ≡ some dir
      → let (found, w2) = find_file f max_entries dir (dir_open state_dir w).1 in
        found ≡ none → clear_loop f (suc rounds) w ≡ (true, dir_close dir w2)
  unfolding clear_loop
  loop_done rounds w dir opened found = ground (arith, opened, found)

  loop_next :
      (rounds : ℕ) (w : World) (dir : Dir) (name : Text)
      → (dir_open state_dir w).0 ≡ some dir
      → let (found, w2) = find_file f max_entries dir (dir_open state_dir w).1 in
        let (removed, w4) = remove_file f name (dir_close dir w2) in
        found ≡ some name → removed ≡ true → clear_loop f (suc rounds) w ≡ clear_loop f rounds w4
  unfolding clear_loop
  loop_next rounds w dir name opened found removed = ground (arith, opened, found, removed)

  -- The first of a list.
  abbrev first : List Text → Option Text
  first [] = none
  first (x ∷ xs) = some x

  module _ (laws : DirLaws) where
    open laws use {files, Listing, open_listing, read_end, read_entry, close_files, remove_first}

    found_first :
        (fuel : ℕ) (dir : Dir) (entries : List Entry) (w : World)
        → Listing w dir entries
        → length entries < fuel
        → let (found, w') = find_file f fuel dir w in
          (found ≡ first (file_names entries)) × (files w' ≡ files w)
    unfolding find_file
    found_first zero dir entries w l h = absurd (omega arith)
    found_first (suc fuel) dir [] w l h =
        let (e, kept) = read_end dir w l in ground (arith, e, kept)
    found_first (suc fuel) dir (e ∷ es) w l h =
        let (read, l', kept) = read_entry dir e es w l in
        let (found, kept') = found_first fuel dir es (dir_read dir w).1 l' (omega arith) in
        elim (Bool-cases e.is_file) [
          | inl file ↦ ground (arith, read, kept, file)
          | inr other ↦ ground (arith, read, kept, other, found, kept')
        ]

    removed :
        (name : Text) (rest : List Text) (w : World)
        → files w ≡ name ∷ rest
        → ((remove_file f name w).0 ≡ true) × (files (remove_file f name w).1 ≡ rest)
    unfolding remove_file
    removed name rest w h =
        let (short, ok, left) = remove_first name rest w h in
        let long = length-append state_dir (codes "/" ++ name) in
        ground (arith, short, ok, left, long)

    loop_clears :
        (rounds : ℕ) (w : World)
        → let (cleared, w') = clear_loop f rounds w in
          (cleared ≡ ltb (length (files w)) rounds) × (files w' ≡ drop rounds (files w))
    unfolding clear_loop
    loop_clears zero w = (ground arith, refl)
    loop_clears (suc rounds) w =
        let (dir, entries, opened, l, same, small, kept) = open_listing w in
        let w1 = (dir_open state_dir w).1 in
        let (found, kept1) = found_first max_entries dir entries w1 l small in
        let w2 = (find_file f max_entries dir w1).1 in
        let w3 = dir_close dir w2 in
        let kept3 : files w3 ≡ files w = close_files dir w2 ∙ kept1 ∙ kept in
        let first_file : (find_file f max_entries dir w1).0 ≡ first (files w) =
          found ∙ ap first same in
        elim (List-cases (files w)) [
          | inl e ↦
              rw (loop_done rounds w dir opened (first_file ∙ ap first e), kept3, e)
                (ground arith, refl)
          | inr (name, rest, e) ↦
              let (ok, left) = removed name rest w3 (kept3 ∙ e) in
              let w4 = (remove_file f name w3).1 in
              let (cleared, kept4) = loop_clears rounds w4 in
              rw
                (
                  loop_next rounds w dir name opened (first_file ∙ ap first e) ok,
                  cleared,
                  kept4,
                  left,
                  e,
                )
                (ground arith, refl)
        ]

    -- If the state directory opens each time, no name is too long and every osal_remove succeeds, then the
    -- clearing removes the first sixteen files, and reports success where there were fewer: with sixteen
    -- files it has removed them all and reports a failure.
    pub clear_state_dir_lem :
        (w : World)
        → let (cleared, w') = clear_state_dir f w in
          (cleared ≡ ltb (length (files w)) 16) × (files w' ≡ drop 16 (files w))
    unfolding clear_state_dir
    clear_state_dir_lem w = loop_clears state_files_max w
