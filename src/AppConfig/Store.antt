-- ===== src/AppConfig/Store.antt =====
-- app_config.c as a store of documents: which documents the files stand for, and what the calls keep of
-- them.
use hq_led_lamp.Common.{
  ℕ, ◌≤◌, ◌≡◌, ◌≢◌, ◌⊎◌, sym, ap, subst, Bool-cases, false, Option, Option-cases, none, some, inl,
  inr, List, arith, length,
}
use hq_led_lamp.Json.{Text, Doubles, CJson, text_eq}
use hq_led_lamp.AppConfig.Types.{
  ConfigError, Result, Result-cases, Kind, Document, max_file_bytes, work_buf_bytes,
}
use hq_led_lamp.AppConfig.Storage.{DocStatus, Storage, doc_path}
use hq_led_lamp.AppConfig.Stored.{
  has_nul, commit_error, validate_kind, platform_validator, platform_commit,
}
use hq_led_lamp.AppConfig.Typed.{
  Value, Printer, kind_of, check_commit_version, version_in, gate, serialize, commit_text,
  commit_kind, commit_document, device_members, manufacturing_members,
}
use hq_led_lamp.AppConfig.Committed.{CommitLaws}

module _ {d : Doubles} (j : CJson d) {st : Storage} (laws : CommitLaws st)
    (print : Printer st.World) where
  open st use {World, alloc, commit}
  open laws use {Holds}

  -- malloc and the printer keep what the files hold; a commit keeps the other files, and every file where
  -- it does not succeed.
  pub record FrameLaws : Type 0 where
    pub allocs : (path c : Text) (w : World) → Holds w path c → Holds (alloc w).1 path c
    pub prints :
        (path c : Text) (members : List (Text × Value)) (size : ℕ) (w : World)
        → Holds w path c
        → Holds (print members size w).1 path c
    pub commit_other :
        (path path' c json : Text) (max : ℕ) (validate : Text → DocStatus) (w : World)
        → text_eq path path' ≡ false
        → Holds w path' c
        → Holds (commit path json max validate w).1 path' c
    pub commit_failed :
        (path path' c json : Text) (max : ℕ) (validate : Text → DocStatus) (w : World)
        → (commit path json max validate w).0 ≢ DocStatus.ok
        → Holds w path' c
        → Holds (commit path json max validate w).1 path' c

  -- A text that a load takes for the document.
  abbrev pub IsTextOf : Kind → Document → Text → Type 0
  IsTextOf kind doc json =
      (length json ≤ max_file_bytes)
      × (has_nul json ≡ false)
      × (validate_kind j kind (some json) ≡ Result.ok doc)

  -- The file of the kind holds a text that is the document.
  abbrev pub IsStored : Kind → Document → World → Type 0
  IsStored kind doc w = (json : Text) × IsTextOf kind doc json × Holds w (doc_path kind) json

  module _ (frame : FrameLaws) (kind' : Kind) (doc' : Document) where
    open frame use {allocs, prints, commit_other, commit_failed}

    abbrev Q : World → Type 0
    Q w = IsStored kind' doc' w

    alloc_stored : (w : World) → Q w → Q (alloc w).1
    alloc_stored w h = (h.0, h.1, allocs (doc_path kind') h.0 w h.2)

    serialize_stored :
        (doc : Document) (size : ℕ) (w : World) → Q w → Q (serialize j st print doc size w).1
    unfolding serialize
    serialize_stored (Document.device doc) size w h =
        let printed : Q (print (device_members doc) size w).1 =
          (h.0, h.1, prints (doc_path kind') h.0 (device_members doc) size w h.2) in
        ground (arith, h, printed)
    serialize_stored (Document.manufacturing doc) size w h =
        (h.0, h.1, prints (doc_path kind') h.0 (manufacturing_members doc) size w h.2)

    platform_other :
        (kind : Kind) (json : Text) (w : World)
        → text_eq (doc_path kind) (doc_path kind') ≡ false
        → Q w
        → Q (platform_commit j st kind json w).1
    unfolding platform_commit
    platform_other kind json w other h = (
      h.0,
      h.1,
      commit_other (doc_path kind) (doc_path kind') h.0 json max_file_bytes
          (platform_validator j kind) w other h.2,
    )

    platform_failed :
        (kind : Kind) (json : Text) (w : World)
        → (platform_commit j st kind json w).0 ≢ none
        → Q w
        → Q (platform_commit j st kind json w).1
    unfolding platform_commit commit_error
    platform_failed kind json w failed h = (
      h.0,
      h.1,
      commit_failed (doc_path kind) (doc_path kind') h.0 json max_file_bytes
          (platform_validator j kind) w (λ e. failed (ap commit_error e)) h.2,
    )

    -- A commit of another kind, or one that fails, keeps the document.
    abbrev pub Keeps : Kind → Option ConfigError × World → Type 0
    Keeps kind (r, w) = (text_eq (doc_path kind) (doc_path kind') ≡ false) ⊎ (r ≢ none) → Q w

    platform-Keeps :
        (kind : Kind) (json : Text) (w : World)
        → Q w
        → Keeps kind (platform_commit j st kind json w)
    platform-Keeps kind json w h (inl other) = platform_other kind json w other h
    platform-Keeps kind json w h (inr failed) = platform_failed kind json w failed h

    text-Keeps :
        (kind : Kind) (json : Option Text) (w : World)
        → Q w
        → Keeps kind (commit_text j st print kind json w)
    unfolding commit_text
    text-Keeps kind none w h = λ c. h
    text-Keeps kind (some json) w h = elim (Result-cases (validate_kind j kind (some json))) [
      | inl (e, f) ↦
          let eq : commit_text j st print kind (some json) w ≡ (some e, w) = ground (arith, f) in
          subst (Keeps kind) (sym eq) (λ c. h)
      | inr (doc, f) ↦
          let eq : commit_text j st print kind (some json) w ≡ platform_commit j st kind json w =
            ground (arith, f) in
          subst (Keeps kind) (sym eq) (platform-Keeps kind json w h)
    ]

    kind-Keeps :
        (doc : Document) (w : World) → Q w → Keeps (kind_of doc) (commit_kind j st print doc w)
    unfolding commit_kind
    kind-Keeps doc w h =
        let (has_memory, w1) = alloc w in
        let h1 = alloc_stored w h in
        let (json, w2) = serialize j st print doc work_buf_bytes w1 in
        elim (Bool-cases has_memory) [
          | inr e ↦
              let eq : commit_kind j st print doc w ≡ (some ConfigError.io, w1) =
                ground (arith, e) in
              subst (Keeps (kind_of doc)) (sym eq) (λ c. h1)
          | inl e ↦ elim (Option-cases (gate j st print doc)) [
            | inr (x, f) ↦
                let eq : commit_kind j st print doc w ≡ (some x, w1) = ground (arith, e, f) in
                subst (Keeps (kind_of doc)) (sym eq) (λ c. h1)
            | inl f ↦
                let eq : commit_kind j st print doc w
                    ≡ commit_text j st print (kind_of doc) json w2 =
                  ground (arith, e, f) in
                subst (Keeps (kind_of doc)) (sym eq)
                  (text-Keeps (kind_of doc) json w2 (serialize_stored doc work_buf_bytes w1 h1))
          ]
        ]

    pub document-Keeps :
        (doc : Document) (w : World)
        → Q w
        → Keeps (kind_of doc) (commit_document j st print (some doc) w)
    unfolding commit_document
    document-Keeps doc w h = elim (Option-cases (check_commit_version (version_in doc))) [
      | inr (x, f) ↦
          let eq : commit_document j st print (some doc) w ≡ (some x, w) = ground (arith, f) in
          subst (Keeps (kind_of doc)) (sym eq) (λ c. h)
      | inl f ↦
          let eq : commit_document j st print (some doc) w ≡ commit_kind j st print doc w =
            ground (arith, f) in
          subst (Keeps (kind_of doc)) (sym eq) (kind-Keeps doc w h)
    ]
