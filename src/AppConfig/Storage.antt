-- ===== src/AppConfig/Storage.antt =====
-- The storage that app_config uses: the OSAL's files, the heap, and hq_json_doc_commit of the platform,
-- as a parameter. Then app_config.c's paths and the reading of a whole file.
use hq_led_lamp.Common.{
  ℕ, zero, suc, ◌-◌, Bool, true, false, not, Option, none, some, [], ◌∷◌, ◌++◌, ltb, leb,
  if◌then◌else◌, length,
}
use hq_led_lamp.Json.{Text, codes}
use hq_led_lamp.AppConfig.Types.{ConfigError, Result, Kind, max_file_bytes, work_buf_bytes}

-- What osal_stat returns: the size, OSAL_ERR_NAME_NOT_FOUND, OSAL_FS_ERR_PATH_INVALID, or another code.
pub data StatResult : Type 0 where
  size : ℕ → StatResult
  name_not_found path_invalid other : StatResult

-- `hq_json_doc_status_t`.
pub data DocStatus : Type 0 where
  ok argument not_found malformed bounds unsupported io : DocStatus

pub record Storage : Type 1 where
  pub World : Type 0
  pub Fd : Type 0
  pub max_path : ℕ  -- OSAL_MAX_PATH_LEN
  pub alloc : World → Bool × World  -- malloc: whether it has memory
  pub stat : Text → World → StatResult × World
  pub open_file : Text → World → Option Fd × World  -- osal_open_create, none for a negative id
  pub read : Fd → ℕ → World → Option Text × World  -- the bytes read, none for a negative count
  pub close : Fd → World → Bool × World
  -- hq_json_doc_commit, with the path, the text, the bound on its length, and the validator.
  pub commit : Text → Text → ℕ → (Text → DocStatus) → World → DocStatus × World

-- `app_config_doc_path`.
unfoldable pub doc_path : Kind → Text
doc_path Kind.device = codes "/config/device.json"
doc_path Kind.manufacturing = codes "/config/manufacturing.json"

-- `status_is_missing`, and the classification of a failed stat.
unfoldable pub status_is_missing : StatResult → Bool
status_is_missing StatResult.name_not_found = true
status_is_missing StatResult.path_invalid = true
status_is_missing _ = false

-- How much a round of the loop asks for after `total` bytes, of a buffer of `cap` bytes.
unfoldable pub read_want : ℕ → ℕ → ℕ
read_want cap total =
    let want = if ltb total max_file_bytes then max_file_bytes - total else 1 in
    let room = cap - 1 in if ltb room want then room else want

-- One round for each byte that fits, one for the byte beyond, and one to see the end.
abbrev pub read_fuel : ℕ
read_fuel = 2050

-- What `read_whole_file` makes of the loop's result and of osal_close.
unfoldable pub read_end : Option (Result Text) → Bool → Result Text
read_end none closed = Result.err ConfigError.io
read_end (some (Result.err e)) closed = Result.err e
read_end (some (Result.ok got)) closed =
    if not closed
    then Result.err ConfigError.io
    else if ltb max_file_bytes (length got)
    then Result.err ConfigError.bounds
    else Result.ok got

module _ (st : Storage) where
  open st use {World, Fd, max_path, stat, open_file, read, close}

  -- `build_variant_path`, into a buffer of `max_path` bytes.
  unfoldable pub build_variant_path : Kind → Text → Option Text
  build_variant_path kind suffix =
      let path = doc_path kind ++ suffix in if ltb (length path) max_path then some path else none

  -- The loop of `read_whole_file` after the bytes `got`, with fuel; none if the fuel ran out.
  unfoldable pub read_loop : ℕ → Fd → Text → World → Option (Result Text) × World
  read_loop zero fd got w = (none, w)
  read_loop (suc fuel) fd got w = elim (leb (length got) max_file_bytes) [
    | false ↦ (some (Result.ok got), w)
    | true ↦
        let (chunk, w') = read fd (read_want work_buf_bytes (length got)) w in
        elim chunk [
          | none ↦ (some (Result.err ConfigError.io), w')
          | some [] ↦ (some (Result.ok got), w')
          | some (c ∷ cs) ↦ read_loop fuel fd (got ++ c ∷ cs) w'
        ]
  ]

  unfoldable pub read_open : Text → World → Result Text × World
  read_open path w =
      let (fd, w1) = open_file path w in
      elim fd [
        | none ↦ (Result.err ConfigError.io, w1)
        | some f ↦
            let (got, w2) = read_loop read_fuel f [] w1 in
            let (closed, w3) = close f w2 in (read_end got closed, w3)
      ]

  unfoldable pub read_whole_file : Text → World → Result Text × World
  read_whole_file path w =
      let (found, w1) = stat path w in
      elim found [
        | StatResult.size n ↦
            if ltb max_file_bytes n then (Result.err ConfigError.bounds, w1) else read_open path w1
        | failed ↦ (
          Result.err (if status_is_missing failed then ConfigError.not_found else ConfigError.io),
          w1,
        )
      ]
