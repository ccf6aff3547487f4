-- ===== src/AppConfig/Refinement.antt =====
-- app_config.c refines a store that maps each kind to a document.
use hq_led_lamp.Common.{if◌then◌else◌, ◌≡◌, Bool, true, false, Option, some}
use hq_led_lamp.Json.{Doubles, CJson}
use hq_led_lamp.AppConfig.Types.{Kind, Document}
use hq_led_lamp.AppConfig.Storage.{Storage}
use hq_led_lamp.AppConfig.Typed.{Printer, kind_of}
use hq_led_lamp.AppConfig.Committed.{CommitLaws}
use hq_led_lamp.AppConfig.ReadBack.{stored}
use hq_led_lamp.AppConfig.Store.{FrameLaws, IsStored}

-- The abstract store.
abbrev pub Store : Type 0
Store = Kind → Option Document

abbrev pub same_kind : Kind → Kind → Bool
same_kind Kind.device Kind.device = true
same_kind Kind.manufacturing Kind.manufacturing = true
same_kind k l = false

abbrev pub put : Document → Store → Store
put doc store kind = if same_kind kind (kind_of doc) then some (stored doc) else store kind

module _ {d : Doubles} (j : CJson d) {st : Storage} (laws : CommitLaws st)
    (print : Printer st.World) (frame : FrameLaws j laws print) where
  open st use {World, alloc}

  -- The files hold the documents of the store.
  abbrev pub Represents : World → Store → Type 0
  Represents w store =
      (kind : Kind) (doc : Document) → store kind ≡ some doc → IsStored j laws print kind doc w
