-- ===== src/Bootstrap/Write.antt =====
-- `bootstrap_write_and_verify` of src/bootstrap.c: the prefix is written to the first sectors of the
-- drive, three at a time, and read back.
use repair_box_psx_hdd_setup.Base.{
  ℕ, zero, suc, ◌+◌, ◌-◌, ◌*◌, min, ℤ, pos, negsuc, is_negative, ◌==ℤ◌, eperm, eio, Bool, true, not,
  ◌&&◌, ◌||◌, List, [], ◌∷◌, take, drop, ltb, leb, eq_bytes, if◌then◌else◌,
}
use repair_box_psx_hdd_setup.Base.Io.{Io}
use repair_box_psx_hdd_setup.FileXio.{FileXio, ReadResult, read_error, read_bytes, amount}
use repair_box_psx_hdd_setup.Drive.{Drive}
use repair_box_psx_hdd_setup.Hash.Sha256.{Context, sha256_init, sha256_update, sha256_final}
use repair_box_psx_hdd_setup.Bootstrap.Validate.{
  bootstrap_sector_count, BootstrapResult, BootstrapPaths,
}

abbrev pub samples : List ℕ
samples = 0 ∷ 0x1002 ∷ 0x2000 ∷ 0x2020 ∷ 0x2440 ∷ 0x27E6 ∷ []

-- BOOTSTRAP_IO_SECTORS is 3.
abbrev pub round_sectors : ℕ → ℕ
round_sectors lba = min 3 (bootstrap_sector_count - lba)

-- The sector `sample` in the bytes of the sectors from `lba` on.
abbrev sector_of : ℕ → ℕ → List ℕ → List ℕ
sector_of sample lba bytes = take 512 (drop ((sample - lba) * 512) bytes)

abbrev is_within : ℕ → ℕ → ℕ → Bool
is_within sample lba sectors = leb lba sample && ltb sample (lba + sectors)

-- The samples among the sectors that are written are kept.
unfoldable pub keep_samples : List ℕ → List (List ℕ) → ℕ → ℕ → List ℕ → List (List ℕ)
keep_samples (sample ∷ rest) (kept ∷ others) lba sectors bytes =
    (if is_within sample lba sectors then sector_of sample lba bytes else kept)
    ∷ keep_samples rest others lba sectors bytes
keep_samples _ kept lba sectors bytes = kept

-- The samples among the sectors that are read back are those that were kept.
unfoldable pub samples_match : List ℕ → List (List ℕ) → ℕ → ℕ → List ℕ → Bool
samples_match (sample ∷ rest) (kept ∷ others) lba sectors bytes =
    (not (is_within sample lba sectors) || eq_bytes kept (sector_of sample lba bytes))
    && samples_match rest others lba sectors bytes
samples_match _ kept lba sectors bytes = true

abbrev failed_at : ℕ → ℤ → BootstrapResult → BootstrapResult
failed_at lba actual r = record r {
  failure_lba = lba;
  failure_requested_bytes = round_sectors lba * 512;
  failure_actual_bytes = actual;
}

-- A read of the prefix that is an error or too short.
unfoldable pub short_code : ReadResult → ℤ
short_code (read_error n) = negsuc n
short_code (read_bytes bytes) = eio

abbrev pub bytes_of : ReadResult → List ℕ
bytes_of (read_error n) = []
bytes_of (read_bytes bytes) = bytes

-- What one of the two passes has made: its result, and whether it went through.
abbrev pub Written : Type 0
Written = (ℤ × List (List ℕ)) × BootstrapResult

-- `buffer` is what the buffer of the second pass holds, `sources` the samples on the stack, `stack`
-- the hash context on the stack.
module _ (io : FileXio) (drive : Drive io) (paths : BootstrapPaths) (stack : List ℕ) where
  -- The first pass from `lba` on: a result that is not negative where it went through, and the
  -- samples. Each round goes on by at least one sector, so that the number of sectors is fuel enough.
  unfoldable pub write_pass : ℕ → ℤ → ℕ → List (List ℕ) → BootstrapResult → Io io.World Written
  write_pass zero fd lba sources r w = (((pos 0, sources), r), w)
  write_pass (suc fuel) fd lba sources r w =
      let sectors = round_sectors lba in
      let (result, w1) = io.read fd (sectors * 512) w in
      let bytes = bytes_of result in
      let sources' = keep_samples samples sources lba sectors bytes in
      let (code, w2) = drive.write_sectors lba bytes w1 in
      let r' = record r { written_sectors = lba + sectors } in
      let rest = write_pass fuel fd (lba + sectors) sources' r' w2 in
      let short = short_code result in
      if not (ltb lba bootstrap_sector_count)
      then (((pos 0, sources), r), w)
      else if not (amount result ==ℤ pos (sectors * 512))
      then (let (closed, w3) = io.close fd w1 in
          (
            ((short, sources), record (failed_at lba (amount result) r) { write_return = short }),
            w3,
          ))
      else if is_negative code
      then (let (closed, w3) = io.close fd w2 in
          (((code, sources'), record (failed_at lba code r) { write_return = code }), w3))
      else rest

  -- The second pass from `lba` on, with the hash and the buffer so far.
  unfoldable pub read_pass :
      ℕ
      → ℕ
      → List (List ℕ)
      → Context
      → List ℕ
      → BootstrapResult
      → Io io.World ((ℤ × Context) × BootstrapResult)
  read_pass zero lba sources hash buffer r w = (((pos 0, hash), r), w)
  read_pass (suc fuel) lba sources hash buffer r w =
      let sectors = round_sectors lba in
      let ((code, buffer'), w') = drive.read_sectors lba sectors buffer w in
      let bytes = take (sectors * 512) buffer' in
      let r' = record r {
        sample_sectors_valid =
            r.sample_sectors_valid && samples_match samples sources lba sectors bytes;
        readback_sectors = lba + sectors;
      } in
      let rest = read_pass fuel (lba + sectors) sources (sha256_update hash bytes) buffer' r' w' in
      if not (ltb lba bootstrap_sector_count)
      then (((pos 0, hash), r), w)
      else if is_negative code
      then (((code, hash), record (failed_at lba code r) { readback_return = code }), w')
      else rest

  -- Behind the second pass.
  unfoldable pub judge_readback : Context → BootstrapResult → ℤ × BootstrapResult
  judge_readback hash r =
      let matching = eq_bytes (sha256_final hash) r.expected_sha256 in
      let valid = matching && r.sample_sectors_valid in
      (
        if valid then pos 0 else eio,
        record r {
          readback_sha256_valid = matching;
          readback_return = pos 0;
          bootstrap_valid = valid;
        },
      )

  unfoldable pub verify_prefix :
      List (List ℕ) → List ℕ → BootstrapResult → Io io.World (ℤ × BootstrapResult)
  verify_prefix sources buffer r w =
      let (((code, hash), r'), w') =
        read_pass bootstrap_sector_count 0 sources (sha256_init stack) buffer
          (record r { sample_sectors_valid = true }) w in
      if is_negative code then ((code, r'), w') else (judge_readback hash r', w')

  -- Behind the first pass.
  unfoldable pub close_prefix :
      ℤ → List (List ℕ) → List ℕ → BootstrapResult → Io io.World (ℤ × BootstrapResult)
  close_prefix fd sources buffer r w =
      let (closed, w') = io.close fd w in
      let r' = record r { write_return = closed } in
      let out = verify_prefix sources buffer r' w' in
      if is_negative closed then ((closed, r'), w') else out

  unfoldable pub write_prefix :
      List (List ℕ) → List ℕ → BootstrapResult → Io io.World (ℤ × BootstrapResult)
  write_prefix sources buffer r w =
      let (fd, w1) = io.open_read paths.bin_path w in
      let attempted = record r { write_attempted = true } in
      let (((code, sources'), r'), w2) =
        write_pass bootstrap_sector_count fd 0 sources attempted w1 in
      let out = close_prefix fd sources' buffer r' w2 in
      if is_negative fd
      then ((fd, record attempted { write_return = fd }), w1)
      else if is_negative code
      then ((code, r'), w2)
      else out

  unfoldable pub bootstrap_write_and_verify :
      List (List ℕ) → List ℕ → BootstrapResult → Io io.World (ℤ × BootstrapResult)
  bootstrap_write_and_verify sources buffer r w =
      let out = write_prefix sources buffer r w in
      if not r.validation_valid then ((eperm, r), w) else out
