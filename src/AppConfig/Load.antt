-- ===== src/AppConfig/Load.antt =====
-- app_config.c: loading with recovery, and the migration of a stored document.
use hq_led_lamp.Common.{
  Bool, true, false, not, ◌&&◌, ◌||◌, Option, none, some, List, [], ◌∷◌, ltb, if◌then◌else◌, length,
}
use hq_led_lamp.Json.{Text, Doubles, CJson, codes}
use hq_led_lamp.AppConfig.Types.{ConfigError, Result, Kind, Document, work_buf_bytes}
use hq_led_lamp.AppConfig.Storage.{Storage, doc_path, build_variant_path, read_whole_file}
use hq_led_lamp.AppConfig.Stored.{
  Handler, c_string, validate_kind, validate_stored_len, extract_schema_version, migrate_json,
  platform_commit,
}

-- APP_CONFIG_OK and APP_CONFIG_OK_RECOVERED, with the document.
pub data Loaded : Type 0 where
  live recovered : Document → Loaded

abbrev pub present : Option Text → List Text → List Text
present none paths = paths
present (some path) paths = path ∷ paths

module _ {d : Doubles} (j : CJson d) where
  -- The migration of `load_from_path`: the document, and the text that it was validated from.
  unfoldable pub load_legacy : Option Handler → Kind → Text → Result (Document × Text)
  load_legacy handler kind buf = elim (extract_schema_version j (c_string buf)) [
    | Result.err e ↦ Result.err e
    | Result.ok version ↦ elim (migrate_json j handler kind (c_string buf) version) [
      | Result.err e ↦ Result.err e
      | Result.ok text ↦ elim (validate_kind j kind (some text)) [
        | Result.err e ↦ Result.err e
        | Result.ok doc ↦ Result.ok (doc, text)
      ]
    ]
  ]

  -- What `load_from_path` makes of the bytes that it read.
  unfoldable pub load_bytes : Option Handler → Kind → Text → Result (Document × Text)
  load_bytes handler kind buf = elim (validate_stored_len j kind buf) [
    | Result.ok doc ↦ Result.ok (doc, c_string buf)
    | Result.err ConfigError.migration ↦ load_legacy handler kind buf
    | Result.err e ↦ Result.err e
  ]

  -- The copy to `out_json`, where the caller wants one.
  unfoldable pub copy_out : Bool → Result (Document × Text) → Result (Document × Text)
  copy_out wants_json (Result.err e) = Result.err e
  copy_out wants_json (Result.ok (doc, text)) =
      if wants_json && not (ltb (length text) work_buf_bytes)
      then Result.err ConfigError.io
      else Result.ok (doc, text)

  module _ (st : Storage) (handler : Option Handler) (kind : Kind) where
    open st use {World, alloc}

    unfoldable pub load_from_path : Text → Bool → World → Result (Document × Text) × World
    load_from_path path wants_json w =
        let (bytes, w') = read_whole_file st path w in
        elim bytes [
          | Result.err e ↦ (Result.err e, w')
          | Result.ok buf ↦ (copy_out wants_json (load_bytes handler kind buf), w')
        ]

    -- The loop over the backups, which stops at the first that validates.
    unfoldable pub backup_loop : List Text → ConfigError → World → Result (Document × Text) × World
    backup_loop [] good_status w = (Result.err good_status, w)
    backup_loop (path ∷ paths) good_status w =
        let (loaded, w') = load_from_path path true w in
        elim loaded [
          | Result.ok found ↦ (Result.ok found, w')
          | Result.err e ↦ backup_loop paths e w'
        ]

    -- The backups that have a path, in freshness order.
    abbrev pub backups : List Text
    backups =
        present (build_variant_path st kind (codes ".good"))
          (present (build_variant_path st kind (codes ".good.old")) [])

    -- The restoration of a backup after a live document that failed with `status`.
    unfoldable pub restore : ConfigError → World → Result Loaded × World
    restore status w =
        let (found, w1) = backup_loop backups ConfigError.not_found w in
        elim found [
          | Result.err e ↦ (Result.err status, w1)
          | Result.ok (doc, text) ↦
              let (failed, w2) = platform_commit j st kind text w1 in
              elim failed [
                | none ↦ (Result.ok (Loaded.recovered doc), w2)
                | some e ↦ (Result.err e, w2)
              ]
        ]

    -- Whether a live document that failed so is replaced.
    unfoldable pub is_replaceable : ConfigError → Bool
    is_replaceable ConfigError.io = false
    is_replaceable e = true

    unfoldable pub load_live : World → Result Loaded × World
    load_live w =
        let (loaded, w') = load_from_path (doc_path kind) false w in
        elim loaded [
          | Result.ok (doc, text) ↦ (Result.ok (Loaded.live doc), w')
          | Result.err e ↦ if is_replaceable e then restore e w' else (Result.err e, w')
        ]

    -- `load_kind`, with whether `doc` is not null: its three buffers, then the temporary document.
    unfoldable pub load_kind : Bool → World → Result Loaded × World
    load_kind has_doc w0 =
        let (has_buf, w1) = alloc w0 in
        let (has_mig, w2) = alloc w1 in
        let (has_validated, w3) = alloc w2 in
        let (has_recovered, w4) = alloc w3 in
        if not has_doc
        then (Result.err ConfigError.invalid_argument, w0)
        else if not has_buf || not has_mig || not has_validated
        then (Result.err ConfigError.io, w3)
        else if not has_recovered
        then (Result.err ConfigError.io, w4)
        else load_live w4

    -- The migration of `app_config_migrate_stored`, of a buffer of an older version.
    unfoldable pub migrate_legacy : Text → World → Option ConfigError × World
    migrate_legacy buf w = elim (extract_schema_version j (c_string buf)) [
      | Result.err e ↦ (some e, w)
      | Result.ok version ↦
          let (has_memory, w') = alloc w in
          if not has_memory
          then (some ConfigError.io, w')
          else elim (migrate_json j handler kind (c_string buf) version) [
            | Result.err e ↦ (some e, w')
            | Result.ok text ↦ platform_commit j st kind text w'
          ]
    ]

    unfoldable pub migrate_bytes : Text → World → Option ConfigError × World
    migrate_bytes buf w = elim (validate_stored_len j kind buf) [
      | Result.ok doc ↦ (none, w)
      | Result.err ConfigError.migration ↦ migrate_legacy buf w
      | Result.err e ↦ (some e, w)
    ]

    -- `app_config_migrate_stored`: none for success.
    unfoldable pub migrate_stored : World → Option ConfigError × World
    migrate_stored w =
        let (has_memory, w1) = alloc w in
        let (bytes, w2) = read_whole_file st (doc_path kind) w1 in
        if not has_memory
        then (some ConfigError.io, w1)
        else elim bytes [ Result.err e ↦ (some e, w2) | Result.ok buf ↦ migrate_bytes buf w2 ]
