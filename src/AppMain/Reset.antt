-- ===== src/AppMain/Reset.antt =====
-- app_main.c: the erasure of a factory reset. The directory and the Wi-Fi credentials are the record
-- Erasable; the lamp is that of lamp_control.
use hq_led_lamp.Common.{
  ℕ, zero, suc, ◌+◌, Bool, true, false, not, Option, none, some, ◌++◌, ltb, if◌then◌else◌, length,
}
use hq_led_lamp.Json.{Text, codes}
use hq_led_lamp.Lamp.Types.{LampState}
use hq_led_lamp.Lamp.Hal.{Hal}
use hq_led_lamp.Lamp.Control.{Lamp}
use hq_led_lamp.Lamp.Operations.{apply_state, force_inactive, release_fail_off}

-- `osal_dirent_t`.
pub record Entry : Type 0 where
  pub name : Text
  pub is_file : Bool

pub record Erasable : Type 1 where
  pub World : Type 0
  pub Dir : Type 0
  pub max_path : ℕ  -- OSAL_MAX_PATH_LEN
  pub max_entries : ℕ  -- how many reads of a directory the search is given
  pub dir_open : Text → World → Option Dir × World
  pub dir_read : Dir → World → Option Entry × World
  pub dir_close : Dir → World → World
  pub remove : Text → World → Bool × World
  pub erase_credentials : World → Bool × World  -- network_manager_erase_credentials

abbrev pub state_dir : Text
state_dir = codes "/state"

abbrev pub state_files_max : ℕ
state_files_max = 16

abbrev pub state_path : Text → Text
state_path name = state_dir ++ codes "/" ++ name

module _ (f : Erasable) where
  open f use {
    World, Dir, max_path, max_entries, dir_open, dir_read, dir_close, remove, erase_credentials,
  }

  -- The search for a file in an open directory: the name, if one was found.
  unfoldable pub find_file : ℕ → Dir → World → Option Text × World
  find_file zero dir w = (none, w)
  find_file (suc fuel) dir w =
      let (entry, w1) = dir_read dir w in
      elim entry [
        | none ↦ (none, w1)
        | some e ↦ let rest = find_file fuel dir w1 in if e.is_file then (some e.name, w1) else rest
      ]

  -- One removal: the path fits its array, and osal_remove succeeds.
  unfoldable pub remove_file : Text → World → Bool × World
  remove_file name w =
      let removed = remove (state_path name) w in
      if ltb (length (state_path name)) (length state_dir + 1 + max_path + 1)
      then removed
      else (false, w)

  -- The loop of `factory_reset_clear_state_dir`, with the rounds that are left.
  unfoldable pub clear_loop : ℕ → World → Bool × World
  clear_loop zero w = (false, w)
  clear_loop (suc rounds) w =
      let (opened, w1) = dir_open state_dir w in
      elim opened [
        | none ↦ (false, w1)
        | some dir ↦
            let (found, w2) = find_file max_entries dir w1 in
            let w3 = dir_close dir w2 in
            elim found [
              | none ↦ (true, w3)
              | some name ↦
                  let (removed, w4) = remove_file name w3 in
                  let rest = clear_loop rounds w4 in if removed then rest else (false, w4)
            ]
      ]

  -- `factory_reset_clear_state_dir`.
  unfoldable pub clear_state_dir : World → Bool × World
  clear_state_dir w = clear_loop state_files_max w

module _ (hal : Hal) (f : Erasable) where
  abbrev on : LampState
  on = record { power = true; brightness_percent = 100; red = 255; green = 255; blue = 255 }

  abbrev off : LampState
  off = record { power = false; brightness_percent = 0; red = 0; green = 0; blue = 0 }

  -- The loop of `factory_reset_blink`; the delays between its calls do not touch the lamp.
  unfoldable pub blink_loop : ℕ → Lamp → hal.World → Lamp × hal.World
  blink_loop zero s w = (s, w)
  blink_loop (suc n) s w =
      let (lit, s1, w1) = apply_state hal (some on) s w in
      let (dark, s2, w2) = apply_state hal (some off) s1 w1 in blink_loop n s2 w2

  unfoldable pub factory_reset_blink : Lamp → hal.World → Lamp × hal.World
  factory_reset_blink s w = let (released, s1, w1) = release_fail_off hal s w in blink_loop 3 s1 w1

  -- `factory_reset_erase`: the result, the lamp and both worlds.
  unfoldable pub factory_reset_erase :
      Lamp → hal.World → f.World → Bool × (Lamp × hal.World) × f.World
  factory_reset_erase s w x =
      let (s1, w1) = factory_reset_blink s w in
      let (forced, s2, w2) = force_inactive hal s1 w1 in
      let (erased, x1) = f.erase_credentials x in
      let (cleared, x2) = clear_state_dir f x1 in
      if not erased then (false, (s2, w2), x1) else (cleared, (s2, w2), x2)
