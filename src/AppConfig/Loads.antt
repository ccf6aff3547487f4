-- ===== src/AppConfig/Loads.antt =====
-- app_config.c: what load_kind returns has been validated, and when it replaces the live document.
use hq_led_lamp.Common.{
  ◌≡◌, ap, sym, subst, Bool, true, false, Option, Option-cases, none, some, inl, inr, List, [], ◌∷◌,
  arith,
}
use hq_led_lamp.Json.{Text, Doubles, CJson}
use hq_led_lamp.AppConfig.Types.{ConfigError, Result, Result-cases, Kind, Document}
use hq_led_lamp.AppConfig.Storage.{Storage, doc_path}
use hq_led_lamp.AppConfig.Stored.{
  Handler, c_string, validate_kind, validate_stored_len, platform_commit,
}
use hq_led_lamp.AppConfig.Load.{
  Loaded, load_legacy, load_bytes, copy_out, load_from_path, backup_loop, backups, restore,
  load_live, load_kind,
}

abbrev pub document_of : Loaded → Document
document_of (Loaded.live doc) = doc
document_of (Loaded.recovered doc) = doc

module _ {d : Doubles} (j : CJson d) (handler : Option Handler) (kind : Kind) where
  -- A text that the validator turns into the document.
  abbrev pub IsValidated : Document → Text → Type 0
  IsValidated doc text = validate_kind j kind (some text) ≡ Result.ok doc

  legacy-IsValidated :
      (buf : Text) (doc : Document) (text : Text)
      → load_legacy j handler kind buf ≡ Result.ok (doc, text)
      → IsValidated doc text
  unfolding load_legacy
  legacy-IsValidated buf doc text h = ground arith

  stored-IsValidated :
      (buf : Text) (doc : Document)
      → validate_stored_len j kind buf ≡ Result.ok doc
      → IsValidated doc (c_string buf)
  unfolding validate_stored_len
  stored-IsValidated buf doc h = ground arith

  bytes-IsValidated :
      (buf : Text) (doc : Document) (text : Text)
      → load_bytes j handler kind buf ≡ Result.ok (doc, text)
      → IsValidated doc text
  unfolding load_bytes
  bytes-IsValidated buf doc text h =
      ground (arith, legacy-IsValidated buf doc text, stored-IsValidated buf doc)

  copy_out_lem :
      (wants_json : Bool) (r : Result (Document × Text)) (doc : Document) (text : Text)
      → copy_out j wants_json r ≡ Result.ok (doc, text)
      → r ≡ Result.ok (doc, text)
  unfolding copy_out
  copy_out_lem wants_json (Result.err e) doc text h = cc
  copy_out_lem wants_json (Result.ok (doc', text')) doc text h = ground (arith, h)

  module _ (st : Storage) where
    open st use {World, Fd, alloc, stat, open_file, read, close}

    path-IsValidated :
        (path : Text) (wants_json : Bool) (w : World) (doc : Document) (text : Text)
        → (load_from_path j st handler kind path wants_json w).0 ≡ Result.ok (doc, text)
        → IsValidated doc text
    unfolding load_from_path
    path-IsValidated path wants_json w doc text h = grind (arith, copy_out_lem, bytes-IsValidated)

    backup-IsValidated :
        (paths : List Text) (e : ConfigError) (w : World) (doc : Document) (text : Text)
        → (backup_loop j st handler kind paths e w).0 ≡ Result.ok (doc, text)
        → IsValidated doc text
    unfolding backup_loop
    backup-IsValidated [] e w doc text h = cc
    backup-IsValidated (path ∷ paths) e w doc text h =
        grind (arith, path-IsValidated path true w doc text, backup-IsValidated paths)

    -- What a load says of its result and of the world that it leaves.
    abbrev pub IsSafeLoad : Result Loaded × World → Type 0
    IsSafeLoad (Result.err e, w) = Unit
    IsSafeLoad (Result.ok (Loaded.live doc), w) = (text : Text) × IsValidated doc text
    IsSafeLoad (Result.ok (Loaded.recovered doc), w) =
        (text : Text) × (before : World) × IsValidated doc text
        × (platform_commit j st kind text before ≡ (none, w))

    abbrev found_backup : World → Result (Document × Text) × World
    found_backup w =
        backup_loop j st handler kind (backups j st handler kind) ConfigError.not_found w

    -- The three outcomes of a restoration.
    restore_none :
        (e : ConfigError) (w : World) (e' : ConfigError)
        → (found_backup w).0 ≡ Result.err e'
        → restore j st handler kind e w ≡ (Result.err e, (found_backup w).1)
    unfolding restore
    restore_none e w e' f = ground arith

    restore_failed :
        (e : ConfigError) (w : World) (e' : ConfigError) (doc : Document) (text : Text)
        → (found_backup w).0 ≡ Result.ok (doc, text)
        → (platform_commit j st kind text (found_backup w).1).0 ≡ some e'
        → restore j st handler kind e w
          ≡ (Result.err e', (platform_commit j st kind text (found_backup w).1).1)
    unfolding restore
    restore_failed e w e' doc text f g = ground arith

    restore_some :
        (e : ConfigError) (w : World) (doc : Document) (text : Text)
        → (found_backup w).0 ≡ Result.ok (doc, text)
        → (platform_commit j st kind text (found_backup w).1).0 ≡ none
        → restore j st handler kind e w ≡ (
          Result.ok (Loaded.recovered doc),
          (platform_commit j st kind text (found_backup w).1).1,
        )
    unfolding restore
    restore_some e w doc text f g = ground arith

    restore-IsSafeLoad : (e : ConfigError) (w : World) → IsSafeLoad (restore j st handler kind e w)
    restore-IsSafeLoad e w =
        let (found, w1) = found_backup w in
        elim (Result-cases found) [
          | inl (e', f) ↦ subst IsSafeLoad (sym (restore_none e w e' f)) tt
          | inr ((doc, text), f) ↦ elim (Option-cases (platform_commit j st kind text w1).0) [
            | inr (e', g) ↦ subst IsSafeLoad (sym (restore_failed e w e' doc text f g)) tt
            | inl g ↦ subst IsSafeLoad (sym (restore_some e w doc text f g)) (
              text,
              w1,
              backup-IsValidated (backups j st handler kind) ConfigError.not_found w doc text f,
              ap (λ x. (x, (platform_commit j st kind text w1).1)) g,
            )
          ]
        ]

    live-IsSafeLoad : (w : World) → IsSafeLoad (load_live j st handler kind w)
    unfolding load_live
    live-IsSafeLoad w =
        let (loaded, w') = load_from_path j st handler kind (doc_path kind) false w in
        elim (Result-cases loaded) [
          | inr ((doc, text), f) ↦
              let e : load_live j st handler kind w ≡ (Result.ok (Loaded.live doc), w') =
                ground arith in
              subst IsSafeLoad (sym e) (text, path-IsValidated (doc_path kind) false w doc text f)
          | inl (e, f) ↦ grind (arith, restore-IsSafeLoad e w')
        ]

    -- A document that load_kind returns is what the validator makes of a text; and where it says that it
    -- has recovered the document, that text has been committed to the live path, successfully and as the
    -- last thing done.
    pub load_kind-IsSafeLoad :
        (has_doc : Bool) (w : World) → IsSafeLoad (load_kind j st handler kind has_doc w)
    unfolding load_kind
    load_kind-IsSafeLoad has_doc w0 =
        let (has_buf, w1) = alloc w0 in
        let (has_mig, w2) = alloc w1 in
        let (has_validated, w3) = alloc w2 in
        let (has_recovered, w4) = alloc w3 in grind (arith, live-IsSafeLoad w4)
