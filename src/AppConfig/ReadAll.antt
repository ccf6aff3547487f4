-- ===== src/AppConfig/ReadAll.antt =====
-- app_config.c: read_whole_file ends, stays within its buffer, and reads what the file holds.
use mathlib.Core.List.{append-nil, append_assoc}
use hq_led_lamp.Common.{
  ℕ, zero, suc, ◌+◌, ◌≤◌, ◌<◌, ◌≡◌, ◌≢◌, length-append, ◌∙◌, ap, refl, List-cases, true,
  Option-cases, none, some, inl, inr, [], ◌∷◌, ◌++◌, arith, length,
}
use hq_led_lamp.Json.{Text}
use hq_led_lamp.AppConfig.Types.{Result, work_buf_bytes}
use hq_led_lamp.AppConfig.Storage.{
  StatResult, DocStatus, Storage, read_want, read_loop, read_fuel, read_end,
  read_open as open_and_read, read_whole_file,
}

-- What the files, the heap and hq_json_doc_commit are documented to do: files have contents, an open one
-- has a rest that reads consume, and a commit that reports success has replaced the contents.
module _ (st : Storage) where
  open st use {World, Fd, alloc, stat, open_file, read, close, commit}

  pub record StorageLaws : Type 1 where
    pub Holds : World → Text → Text → Type 0
    pub Open : World → Fd → Text → Type 0
    pub alloc_holds : (path c : Text) (w : World) → Holds w path c → Holds (alloc w).1 path c
    pub stat_holds :
        (path c : Text) (w : World)
        → Holds w path c
        → ((stat path w).0 ≡ StatResult.size (length c)) × Holds (stat path w).1 path c
    pub open_holds :
        (path c : Text) (w : World)
        → Holds w path c
        → (fd : Fd) × ((open_file path w).0 ≡ some fd) × Open (open_file path w).1 fd c
    pub read_open :
        (fd : Fd) (want : ℕ) (rest : Text) (w : World)
        → Open w fd rest
        → 0 < want
        → (chunk : Text) × (rest' : Text) × ((read fd want w).0 ≡ some chunk)
          × (rest ≡ chunk ++ rest')
          × (chunk ≡ [] → rest ≡ [])
          × Open (read fd want w).1 fd rest'
    pub close_open : (fd : Fd) (rest : Text) (w : World) → Open w fd rest → (close fd w).0 ≡ true
    pub commit_holds :
        (path json : Text) (max : ℕ) (validate : Text → DocStatus) (w : World)
        → (commit path json max validate w).0 ≡ DocStatus.ok
        → Holds (commit path json max validate w).1 path json

  -- Each round adds a byte, so the fuel is never used up.
  loop_ends :
      (fuel : ℕ) (fd : Fd) (got : Text) (w : World)
      → 2048 < length got + fuel
      → (read_loop st (suc fuel) fd got w).0 ≢ none
  unfolding read_loop
  loop_ends zero fd got w h = ground arith
  loop_ends (suc fuel) fd got w h =
      let (chunk, w') = read fd (read_want work_buf_bytes (length got)) w in
      elim (Option-cases chunk) [
        | inl e ↦ ground arith
        | inr ([], e) ↦ ground arith
        | inr (c ∷ cs, e) ↦
            ground (arith, loop_ends fuel fd (got ++ c ∷ cs) w', length-append got (c ∷ cs))
      ]

  loop_bounded :
      (fuel : ℕ) (fd : Fd) (got t : Text) (w : World)
      → ((fd' : Fd) (want : ℕ) (w' : World) (chunk : Text)
          → (read fd' want w').0 ≡ some chunk
          → length chunk ≤ want)
      → length got ≤ work_buf_bytes
      → (read_loop st fuel fd got w).0 ≡ some (Result.ok t)
      → length t ≤ work_buf_bytes
  unfolding read_loop read_want
  loop_bounded zero fd got t w short h = λ e. cc
  loop_bounded (suc fuel) fd got t w short h =
      let want = read_want work_buf_bytes (length got) in
      let (chunk, w') = read fd want w in
      elim (Option-cases chunk) [
        | inl e ↦ λ r. ground arith
        | inr ([], e) ↦ λ r. ground arith
        | inr (c ∷ cs, e) ↦ λ r. ground (
          arith,
          loop_bounded fuel fd (got ++ c ∷ cs) t w' short,
          short fd want w (c ∷ cs) e,
          length-append got (c ∷ cs),
        )
      ]

  -- A read returns no more bytes than it was asked for.
  abbrev pub ReadsShort : Type 0
  ReadsShort =
      (fd : Fd) (want : ℕ) (w : World) (chunk : Text)
      → (read fd want w).0 ≡ some chunk
      → length chunk ≤ want

  -- The reading loop of read_whole_file ends with a result within its fuel, on any storage, and where a
  -- read returns no more than it was asked for, the bytes read never exceed the buffer.
  pub read_loop_total :
      (fd : Fd) (w : World)
      → ReadsShort
      → (r : Result Text) × ((read_loop st read_fuel fd [] w).0 ≡ some r)
        × ((t : Text) → r ≡ Result.ok t → length t ≤ work_buf_bytes)
  read_loop_total fd w short = elim (Option-cases (read_loop st read_fuel fd [] w).0) [
    | inl e ↦ absurd (loop_ends 2049 fd [] w (omega arith) e)
    | inr (r, e) ↦
        (r, e, λ t h. loop_bounded read_fuel fd [] t w short (omega arith) (e ∙ ap (λ x. some x) h))
  ]

module _ {st : Storage} (laws : StorageLaws st) where
  open st use {World, Fd, alloc, stat, open_file, read, close, commit}
  open laws use {Holds, Open, stat_holds, open_holds, read_open, close_open}

  want_positive : (total : ℕ) → total ≤ 2048 → 0 < read_want work_buf_bytes total
  unfolding read_want
  want_positive total h = ground arith

  loop_done :
      (fuel : ℕ) (fd : Fd) (got : Text) (w : World)
      → length got ≤ 2048
      → (read fd (read_want work_buf_bytes (length got)) w).0 ≡ some []
      → read_loop st (suc fuel) fd got w
        ≡ (some (Result.ok got), (read fd (read_want work_buf_bytes (length got)) w).1)
  unfolding read_loop
  loop_done fuel fd got w h e = ground arith

  loop_more :
      (fuel : ℕ) (fd : Fd) (got : Text) (w : World) (c : ℕ) (cs : Text)
      → length got ≤ 2048
      → (read fd (read_want work_buf_bytes (length got)) w).0 ≡ some (c ∷ cs)
      → read_loop st (suc fuel) fd got w
        ≡ read_loop st fuel fd (got ++ c ∷ cs) (read fd (read_want work_buf_bytes (length got)) w).1
  unfolding read_loop
  loop_more fuel fd got w c cs h e = ground arith

  -- The loop gathers the rest of an open file.
  loop_reads :
      (fuel : ℕ) (fd : Fd) (got rest : Text) (w : World)
      → Open w fd rest
      → length got + length rest ≤ 2048
      → length rest < fuel
      → let (r, w') = read_loop st fuel fd got w in
        (r ≡ some (Result.ok (got ++ rest))) × ((left : Text) × Open w' fd left)
  loop_reads zero fd got rest w o fits h = absurd (omega arith)
  loop_reads (suc fuel) fd got rest w o fits h =
      let want = read_want work_buf_bytes (length got) in
      let (chunk, rest', e, split, last, o') =
        read_open fd want rest w o (want_positive (length got) (omega arith)) in
      let w' = (read fd want w).1 in
      elim (List-cases chunk) [
        | inl n ↦
            rw (loop_done fuel fd got w (omega arith) (e ∙ ap (λ x. some x) n))
              (rw (last n, append-nil) (refl, (rest', o')))
        | inr (c, cs, n) ↦
            let split' : rest ≡ (c ∷ cs) ++ rest' = split ∙ ap (λ x. x ++ rest') n in
            let sum = ap length split' ∙ length-append (c ∷ cs) rest' in
            rw (loop_more fuel fd got w c cs (omega arith) (e ∙ ap (λ x. some x) n)) (
              rw (split', ← append_assoc got (c ∷ cs) rest')
                (loop_reads fuel fd (got ++ c ∷ cs) rest' w' o'
                  (omega (arith, fits, sum, length-append got (c ∷ cs))) (omega (arith, h, sum))))
      ]

  -- A file of at most 2048 bytes is read whole.
  pub read_whole_file_lem :
      (path c : Text) (w : World)
      → Holds w path c
      → length c ≤ 2048
      → (read_whole_file st path w).0 ≡ Result.ok c
  unfolding read_whole_file open_and_read read_end
  read_whole_file_lem path c w holds fits =
      let (found, holds') = stat_holds path c w holds in
      let w1 = (stat path w).1 in
      let (fd, opened, o) = open_holds path c w1 holds' in
      let w2 = (open_file path w1).1 in
      let (got, (left, o')) = loop_reads read_fuel fd [] c w2 o (omega arith) (omega arith) in
      let closed = close_open fd left (read_loop st read_fuel fd [] w2).1 o' in
      ground (arith, found, opened, got, closed)
