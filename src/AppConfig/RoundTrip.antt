-- ===== src/AppConfig/RoundTrip.antt =====
-- app_config.c: a document that was committed and the document that a load then returns.
use hq_led_lamp.Common.{ℕ, ◌≡◌, ◌∙◌, ap, subst, Option, none, some, arith}
use hq_led_lamp.Json.{Text, Doubles, CJson}
use hq_led_lamp.AppConfig.Types.{Result, Document, work_buf_bytes}
use hq_led_lamp.AppConfig.Device.{validate_device_json}
use hq_led_lamp.AppConfig.Manufacturing.{validate_manufacturing_json}
use hq_led_lamp.AppConfig.Storage.{Storage, doc_path}
use hq_led_lamp.AppConfig.Stored.{Handler, validate_kind}
use hq_led_lamp.AppConfig.Typed.{Printer, kind_of, commit_document, serialize}
use hq_led_lamp.AppConfig.Load.{Loaded, load_live}
use hq_led_lamp.AppConfig.ReadAll.{StorageLaws}
use hq_led_lamp.AppConfig.ReadBack.{
  stored, ReadsBack, IsExact, device_root_same, manufacturing_root_same,
}
use hq_led_lamp.AppConfig.Committed.{
  members_of, committed, serialized, load_live_lem, platform_commit-Holds, commit_laws,
}

module _ {d : Doubles} (j : CJson d) where
  open j use {parse_strict}

  -- What the validator makes of a text that reads back as the stored members.
  pub validated_same :
      (doc doc' : Document) (json : Text)
      → IsExact j doc
      → ReadsBack j (members_of doc) json
      → validate_kind j (kind_of doc) (some json) ≡ Result.ok doc'
      → doc' ≡ stored doc
  unfolding validate_kind validate_device_json validate_manufacturing_json
  validated_same (Document.device doc) (Document.device doc') json exact (no_nul, back) h =
      let (root, parsed, has) = back in
      device_root_same j root doc doc' has (ground (arith, h, parsed))
  validated_same (Document.device doc) (Document.manufacturing doc') json exact (no_nul, back) h =
      absurd (ground (arith, h))
  validated_same (Document.manufacturing doc) (Document.device doc') json exact (no_nul, back) h =
      absurd (ground (arith, h))
  validated_same (Document.manufacturing doc) (Document.manufacturing doc') json exact
        (no_nul, back) h =
      let (root, parsed, has) = back in
      manufacturing_root_same j root doc doc' exact has (ground (arith, h, parsed))

  module _ {st : Storage} (laws : StorageLaws st) (print : Printer st.World)
      (handler : Option Handler) where
    -- A load of the live document after a commit that reported success returns the document that was
    -- committed, its texts up to their terminators and its version the current one, from the live file
    -- itself; where a text that the printer makes of the document's members parses to an object with them,
    -- and the document's numbers survive the conversion to double and back.
    pub load_live-commit_document :
        (doc : Document) (w w' : st.World)
        → IsExact j doc
        → ((cap : ℕ) (before : st.World) (json : Text)
            → (print (members_of doc) cap before).0 ≡ some json
            → ReadsBack j (members_of doc) json)
        → commit_document j st print (some doc) w ≡ (none, w')
        → (load_live j st handler (kind_of doc) w').0 ≡ Result.ok (Loaded.live (stored doc))
    load_live-commit_document doc w w' exact reads h =
        let (json, doc', text, valid, done) = committed j st print doc w w' h in
        let (printed, fits) = serialized j st print doc work_buf_bytes (st.alloc w).1 json text in
        let back = reads work_buf_bytes (st.alloc w).1 json printed in
        let held =
          platform_commit-Holds j (commit_laws laws) (kind_of doc) json
            (serialize j st print doc work_buf_bytes (st.alloc w).1).1 (ap (λ r. r.0) done) in
        load_live_lem j laws handler (kind_of doc) w' json doc'
          (subst (λ r. laws.Holds r.1 (doc_path (kind_of doc)) json) done held) fits back.0 valid
        ∙ ap (λ x. Result.ok (Loaded.live x)) (validated_same doc doc' json exact back valid)
