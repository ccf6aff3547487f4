-- ===== src/AppConfig/StoreTests.antt =====
-- app_config on files in memory, with one open file at a time: runs of the storage operations, and the
-- theorems on them at concrete documents.
use hq_led_lamp.Common.{arith, ◌≡◌, ◌∙◌, refl, true, none, some, [], ◌∷◌, ◌++◌}
use hq_led_lamp.Json.{Text, codes, text_eq}
use hq_led_lamp.Json.MockJson.{mock_json}
use hq_led_lamp.AppConfig.Types.{ConfigError, Result, Kind, Document, DeviceDoc}
use hq_led_lamp.AppConfig.Storage.{
  Storage, doc_path, read_open, read_loop, read_end, read_whole_file,
}
use hq_led_lamp.AppConfig.Fields.{
  nul_escape_loop, string_is_printable_ascii, string_is_serial_charset, bounded_text,
  get_bounded_string, version_of, get_schema_version, is_known, count_members, check_member_keys,
}
use hq_led_lamp.AppConfig.Device.{device_fields, device_root, validate_device_json}
use hq_led_lamp.AppConfig.Stored.{
  c_string, has_nul, platform_commit, commit_error, platform_validator, validate_stored_len,
  validate_kind,
}
use hq_led_lamp.AppConfig.Typed.{
  Printer, typed_string_check, commit_document, check_commit_version, commit_kind, gate, serialize,
  commit_text, device_doc_strings_valid, find_nul, all_allowed, fits,
}
use hq_led_lamp.AppConfig.Load.{load_kind}
use hq_led_lamp.AppConfig.Loads.{IsSafeLoad, load_kind-IsSafeLoad}
use hq_led_lamp.AppConfig.Refinement.{Store}
use hq_led_lamp.AppConfig.Untouched.{KeptByReads, load_kind_untouched}
use hq_led_lamp.AppConfig.MemoryStore.{open_finds, Mem, mem_stat, mem_open, mem_commit, mem, find}

abbrev stored_files : Mem
stored_files = ((codes "/config/device.json", codes "D") ∷ [], [])

load_kind-IsSafeLoad_example :
    IsSafeLoad mock_json none Kind.device mem
      (load_kind mock_json mem none Kind.device true stored_files)
load_kind-IsSafeLoad_example = load_kind-IsSafeLoad mock_json none Kind.device mem true stored_files

-- A text in a larger array, with bytes after its terminator.
abbrev handed_over : DeviceDoc
handed_over = record {
  version = 1;
  product = codes "lamp" ++ 0 ∷ codes "post";
  hardware_revision = codes "B2" ++ 0 ∷ [];
  serial = codes "HQ-7" ++ 0 ∷ 255 ∷ [];
  thingsboard_name = codes "desk" ++ 0 ∷ [];
}

abbrev desk : DeviceDoc
desk = record {
  version = 1;
  product = codes "lamp";
  hardware_revision = codes "B2";
  serial = codes "HQ-7";
  thingsboard_name = codes "desk";
}

-- The printer of one document.
abbrev print_desk : Printer Mem
print_desk members cap w = (some (codes "D"), w)

committed_files :
    commit_document mock_json mem print_desk (some (Document.device handed_over)) ([], [])
    ≡ (none, stored_files)
unfolding commit_document check_commit_version commit_kind gate serialize commit_text
    device_doc_strings_valid typed_string_check find_nul all_allowed fits platform_commit
    commit_error platform_validator validate_stored_len validate_kind doc_path c_string has_nul
    validate_device_json nul_escape_loop device_root get_schema_version version_of check_member_keys
    count_members is_known device_fields get_bounded_string bounded_text string_is_printable_ascii
    string_is_serial_charset text_eq
committed_files = refl

-- The files where a read fails.
abbrev broken : Storage
broken = record {
  World = Mem;
  Fd = Unit {0};
  max_path = 64;
  alloc = λ w. (true, w);
  stat = λ path w. (mem_stat path w, w);
  open_file = mem_open;
  read = λ fd want w. (none, w);
  close = λ fd w. (true, w);
  commit = λ path json max validate w. mem_commit path json validate w;
}

open_keeps : (path : Text) (w : Mem) → (mem_open path w).1.0 ≡ w.0
open_keeps path w = ground arith

broken_keeps : KeptByReads broken (λ w. w.0 ≡ stored_files.0)
broken_keeps = record {
  by_alloc = λ w h. h;
  by_stat = λ path w h. h;
  by_open = λ path w h. open_keeps path w ∙ h;
  by_read = λ fd want w h. h;
  by_close = λ fd w h. h;
}

read_fails :
    (read_whole_file broken (doc_path Kind.device) stored_files).0 ≡ Result.err ConfigError.io
unfolding read_whole_file read_open read_loop read_end doc_path text_eq
read_fails = refl

abbrev empty_store : Store
empty_store kind = none

-- The files in memory, behind reads that fail.
abbrev unreadable : Storage
unreadable = record {
  World = Mem;
  Fd = Unit {0};
  max_path = 64;
  alloc = λ w. (true, w);
  stat = λ path w. (mem_stat path w, w);
  open_file = mem_open;
  read = λ fd want w. (none, w);
  close = λ fd w. (true, w);
  commit = λ path json max validate w. mem_commit path json validate w;
}

abbrev HoldsDesk : Mem → Type 0
HoldsDesk w = find w.0 (doc_path Kind.device) ≡ some (codes "D")

desk-KeptByReads : KeptByReads unreadable HoldsDesk
desk-KeptByReads = record {
  by_alloc = λ w h. h;
  by_stat = λ path w h. h;
  by_open = λ path w h. open_finds path (doc_path Kind.device) (codes "D") w h;
  by_read = λ fd want w h. h;
  by_close = λ fd w h. h;
}

desk_unread :
    (x : Mem)
    → HoldsDesk x
    → (read_whole_file unreadable (doc_path Kind.device) x).0 ≡ Result.err ConfigError.io
unfolding read_whole_file read_open read_loop read_end
desk_unread x h = ground (arith, h)

stored-HoldsDesk : HoldsDesk stored_files
unfolding doc_path text_eq
stored-HoldsDesk = refl

load_kind_untouched_example :
    ((load_kind mock_json unreadable none Kind.device true stored_files).0
      ≡ Result.err ConfigError.io)
    × HoldsDesk (load_kind mock_json unreadable none Kind.device true stored_files).1
load_kind_untouched_example =
    load_kind_untouched unreadable HoldsDesk desk-KeptByReads mock_json none Kind.device
      stored_files stored-HoldsDesk desk_unread
