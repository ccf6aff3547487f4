-- ===== src/AppConfig/Untouched.antt =====
-- app_config.c: the calls that leave the stored documents as they are.
use hq_led_lamp.Common.{
  ℕ, zero, suc, ◌≡◌, ◌++◌, Option, true, Option-cases, inl, inr, [], ◌∷◌, arith, length,
}
use hq_led_lamp.Json.{Text, Doubles, CJson}
use hq_led_lamp.AppConfig.Types.{ConfigError, Result, Kind, work_buf_bytes}
use hq_led_lamp.AppConfig.Storage.{
  Storage, doc_path, read_want, read_loop, read_open, read_whole_file, read_fuel,
}
use hq_led_lamp.AppConfig.Stored.{Handler}
use hq_led_lamp.AppConfig.Load.{load_from_path, is_replaceable, load_live, load_kind}

-- A property of the storage that every operation but hq_json_doc_commit keeps, such as what the live
-- file holds.
pub record KeptByReads (st : Storage) (P : st.World → Type 0) : Type 0 where
  pub by_alloc : (w : st.World) → P w → P (st.alloc w).1
  pub by_stat : (path : Text) (w : st.World) → P w → P (st.stat path w).1
  pub by_open : (path : Text) (w : st.World) → P w → P (st.open_file path w).1
  pub by_read : (fd : st.Fd) (want : ℕ) (w : st.World) → P w → P (st.read fd want w).1
  pub by_close : (fd : st.Fd) (w : st.World) → P w → P (st.close fd w).1

module _ (st : Storage) (P : st.World → Type 0) (kept : KeptByReads st P) where
  open st use {World, Fd, open_file, read, stat}
  open kept use {by_alloc, by_stat, by_open, by_read, by_close}

  loop_keeps :
      (fuel : ℕ) (fd : Fd) (got : Text) (w : World) → P w → P (read_loop st fuel fd got w).1
  unfolding read_loop
  loop_keeps zero fd got w h = h
  loop_keeps (suc fuel) fd got w h =
      let want = read_want work_buf_bytes (length got) in
      let (chunk, w') = read fd want w in
      let h' = by_read fd want w h in
      elim (Option-cases chunk) [
        | inl e ↦ ground (arith, h, h')
        | inr ([], e) ↦ ground (arith, h, h')
        | inr (c ∷ cs, e) ↦ ground (arith, h, loop_keeps fuel fd (got ++ c ∷ cs) w' h')
      ]

  pub read_keeps : (path : Text) (w : World) → P w → P (read_whole_file st path w).1
  unfolding read_whole_file read_open
  read_keeps path w h =
      let h1 = by_stat path w h in
      let w1 = (stat path w).1 in
      let h2 = by_open path w1 h1 in grind (arith, h1, h2, loop_keeps read_fuel, by_close)

  module _ {d : Doubles} (j : CJson d) (handler : Option Handler) (kind : Kind) where
    load_live_untouched :
        (w : World)
        → P w
        → (read_whole_file st (doc_path kind) w).0 ≡ Result.err ConfigError.io
        → ((load_live j st handler kind w).0 ≡ Result.err ConfigError.io)
          × P (load_live j st handler kind w).1
    unfolding load_live load_from_path is_replaceable
    load_live_untouched w h e = ground (arith, read_keeps (doc_path kind) w h)

    -- A live file that cannot be read, because its stat, its opening or a read of it fails for another
    -- reason than that it is missing, is left alone: of a property of the storage, such as what the live
    -- file holds, that stat, open, read, close and malloc keep, and under which read_whole_file reports
    -- APP_CONFIG_ERR_IO for the live path, a load of the kind reports APP_CONFIG_ERR_IO and keeps the
    -- property, whatever a commit would do to it: it restores no backup.
    pub load_kind_untouched :
        (w : World)
        → P w
        → ((x : World) → P x → (read_whole_file st (doc_path kind) x).0 ≡ Result.err ConfigError.io)
        → ((load_kind j st handler kind true w).0 ≡ Result.err ConfigError.io)
          × P (load_kind j st handler kind true w).1
    unfolding load_kind
    load_kind_untouched w h unread =
        let w1 = (st.alloc w).1 in
        let w2 = (st.alloc w1).1 in
        let w3 = (st.alloc w2).1 in
        let w4 = (st.alloc w3).1 in
        let h3 = by_alloc w2 (by_alloc w1 (by_alloc w h)) in
        let h4 = by_alloc w3 h3 in
        let (reported, kept_all) = load_live_untouched w4 h4 (unread w4 h4) in
        ground (arith, h3, h4, reported, kept_all)
