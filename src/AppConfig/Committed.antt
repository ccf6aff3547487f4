-- ===== src/AppConfig/Committed.antt =====
-- app_config.c: a commit that reports success has stored a text that the validator accepts, and a load
-- that follows reads it.
use hq_led_lamp.Common.{
  ℕ, ◌≤◌, ◌≡◌, refl, false, Option, Option-cases, none, some, inl, inr, List, [], ◌∷◌, arith,
  length,
}
use hq_led_lamp.Json.{Text, Doubles, CJson}
use hq_led_lamp.AppConfig.Types.{
  Result, Result-cases, Kind, Document, max_file_bytes, work_buf_bytes,
}
use hq_led_lamp.AppConfig.Storage.{DocStatus, Storage, doc_path}
use hq_led_lamp.AppConfig.Stored.{
  Handler, c_string, has_nul, commit_error, validate_kind, validate_stored_len, platform_validator,
  platform_commit,
}
use hq_led_lamp.AppConfig.Typed.{
  Value, Printer, device_members, manufacturing_members, fits, kind_of, serialize, commit_text,
  commit_kind, commit_document,
}
use hq_led_lamp.AppConfig.Load.{Loaded, load_bytes, copy_out, load_from_path, load_live}
use hq_led_lamp.AppConfig.ReadAll.{StorageLaws, read_whole_file_lem}

abbrev pub members_of : Document → List (Text × Value)
members_of (Document.device doc) = device_members doc
members_of (Document.manufacturing doc) = manufacturing_members doc

c_string_all : (s : Text) → has_nul s ≡ false → c_string s ≡ s
unfolding c_string has_nul
c_string_all [] h = refl
c_string_all (c ∷ cs) h = ground (arith, c_string_all cs, h)

commit_error-none : (s : DocStatus) → commit_error s ≡ none → s ≡ DocStatus.ok
unfolding commit_error
commit_error-none DocStatus.ok h = refl
commit_error-none DocStatus.argument h = absurd cc
commit_error-none DocStatus.not_found h = absurd cc
commit_error-none DocStatus.malformed h = absurd cc
commit_error-none DocStatus.bounds h = absurd cc
commit_error-none DocStatus.unsupported h = absurd cc
commit_error-none DocStatus.io h = absurd cc

fits-some :
    (cap : ℕ) (printed : Option Text) (json : Text)
    → fits cap printed ≡ some json
    → (printed ≡ some json) × (length json ≤ max_file_bytes)
unfolding fits
fits-some cap none json h = absurd cc
fits-some cap (some text) json h = (ground (arith, h), ground (arith, h))

module _ {d : Doubles} (j : CJson d) (st : Storage) (print : Printer st.World) where
  open st use {World, alloc}

  pub serialized :
      (doc : Document) (cap : ℕ) (w : World) (json : Text)
      → (serialize j st print doc cap w).0 ≡ some json
      → ((print (members_of doc) cap w).0 ≡ some json) × (length json ≤ max_file_bytes)
  unfolding serialize
  serialized (Document.device doc) cap w json h =
      fits-some cap (print (device_members doc) cap w).0 json (ground (arith, h))
  serialized (Document.manufacturing doc) cap w json h =
      fits-some cap (print (manufacturing_members doc) cap w).0 json (ground (arith, h))

  -- What a commit that reports success has done.
  pub committed :
      (doc : Document) (w w' : World)
      → commit_document j st print (some doc) w ≡ (none, w')
      → let w1 = (alloc w).1 in
        let w2 = (serialize j st print doc work_buf_bytes w1).1 in
        (json : Text) × (doc' : Document) × ((serialize j st print doc work_buf_bytes w1).0
          ≡ some json)
        × (validate_kind j (kind_of doc) (some json) ≡ Result.ok doc')
        × (platform_commit j st (kind_of doc) json w2 ≡ (none, w'))
  unfolding commit_document commit_kind commit_text
  committed doc w w' h =
      let w1 = (alloc w).1 in
      let (json, w2) = serialize j st print doc work_buf_bytes w1 in
      elim (Option-cases json) [
        | inl e ↦ absurd (ground (arith, h, e))
        | inr (text, e) ↦ elim (Result-cases (validate_kind j (kind_of doc) (some text))) [
          | inl (e', f) ↦ absurd (ground (arith, h, e, f))
          | inr (doc', f) ↦ (text, doc', e, f, ground (arith, h, e, f))
        ]
      ]

-- What is relied on of a commit: `Holds w path c` says that the file of the path has the content, and a
-- commit of the platform that succeeds gives the path its text.
pub record CommitLaws (st : Storage) : Type 1 where
  pub Holds : st.World → Text → Text → Type 0
  pub commit_holds :
      (path json : Text) (max : ℕ) (validate : Text → DocStatus) (w : st.World)
      → (st.commit path json max validate w).0 ≡ DocStatus.ok
      → Holds (st.commit path json max validate w).1 path json

abbrev pub commit_laws : {st : Storage} → StorageLaws st → CommitLaws st
commit_laws laws = record { Holds = laws.Holds; commit_holds = laws.commit_holds }

module _ {d : Doubles} (j : CJson d) {st : Storage} (laws : StorageLaws st)
    (handler : Option Handler) (kind : Kind) where
  open st use {World}
  open laws use {Holds}

  -- A stored text that the validator accepts is what a load returns.
  pub load_live_lem :
      (w : World) (json : Text) (doc : Document)
      → Holds w (doc_path kind) json
      → length json ≤ max_file_bytes
      → has_nul json ≡ false
      → validate_kind j kind (some json) ≡ Result.ok doc
      → (load_live j st handler kind w).0 ≡ Result.ok (Loaded.live doc)
  unfolding load_live load_from_path load_bytes copy_out validate_stored_len
  load_live_lem w json doc holds fits no_nul valid =
      let r = read_whole_file_lem laws (doc_path kind) json w holds fits in
      let c = c_string_all json no_nul in ground (arith, r, c, valid)

module _ {d : Doubles} (j : CJson d) {st : Storage} (laws : CommitLaws st) (kind : Kind) where
  open st use {World}
  open laws use {Holds, commit_holds}

  pub platform_commit-Holds :
      (json : Text) (w : World)
      → (platform_commit j st kind json w).0 ≡ none
      → Holds (platform_commit j st kind json w).1 (doc_path kind) json
  unfolding platform_commit
  platform_commit-Holds json w h =
      commit_holds (doc_path kind) json max_file_bytes (platform_validator j kind) w
        (commit_error-none _ h)
