-- ===== src/Bootstrap/Validate.antt =====
-- `bootstrap_initialize` and `bootstrap_validate_usb` of src/bootstrap.c: the prefix on the medium is
-- hashed and compared with the line of its checksum file.
use repair_box_psx_hdd_setup.Base.{
  ℕ, zero, suc, ◌+◌, ℤ, pos, negsuc, is_negative, ◌==ℤ◌, einval, Bool, true, false, not, ◌&&◌, none,
  some, List, [], ◌∷◌, length, replicate, ltb, ◌==◌, eq_bytes, u32, if◌then◌else◌,
}
use repair_box_psx_hdd_setup.Base.Io.{Io}
use repair_box_psx_hdd_setup.FileXio.{FileXio, ReadResult, read_error, read_bytes, amount}
use repair_box_psx_hdd_setup.Hash.Sha256.{Context, sha256_init, sha256_update, sha256_final}
use repair_box_psx_hdd_setup.Xfrom.Copy.{SourceMedia, source_media_read_size}
use repair_box_psx_hdd_setup.Bootstrap.{parse_sum}

-- BOOTSTRAP_SECTOR_COUNT and BOOTSTRAP_BYTE_COUNT
abbrev pub bootstrap_sector_count : ℕ
bootstrap_sector_count = 0x27E7

abbrev pub bootstrap_byte_count : ℕ
bootstrap_byte_count = 0x4FCE00

pub record BootstrapResult : Type 0 where
  pub validation_attempted : Bool
  pub binary_open_result : ℤ
  pub binary_final_read_result : ℤ
  pub binary_close_result : ℤ
  pub binary_size : ℕ
  pub sums_open_result : ℤ
  pub sums_read_result : ℤ
  pub sums_close_result : ℤ
  pub sums_parse_result : ℤ
  pub size_valid : Bool
  pub sha256_valid : Bool
  pub validation_valid : Bool
  pub expected_sha256 : List ℕ
  pub source_sha256 : List ℕ
  pub write_attempted : Bool
  pub write_return : ℤ
  pub written_sectors : ℕ
  pub readback_return : ℤ
  pub readback_sectors : ℕ
  pub readback_sha256_valid : Bool
  pub sample_sectors_valid : Bool
  pub bootstrap_valid : Bool
  pub failure_lba : ℕ
  pub failure_requested_bytes : ℕ
  pub failure_actual_bytes : ℤ

unfoldable pub bootstrap_initialize : BootstrapResult
bootstrap_initialize = record {
  validation_attempted = false;
  binary_open_result = negsuc 0;
  binary_final_read_result = negsuc 0;
  binary_close_result = negsuc 0;
  binary_size = 0;
  sums_open_result = negsuc 0;
  sums_read_result = negsuc 0;
  sums_close_result = negsuc 0;
  sums_parse_result = negsuc 0;
  size_valid = false;
  sha256_valid = false;
  validation_valid = false;
  expected_sha256 = replicate 32 0;
  source_sha256 = replicate 32 0;
  write_attempted = false;
  write_return = negsuc 0;
  written_sectors = 0;
  readback_return = negsuc 0;
  readback_sectors = 0;
  readback_sha256_valid = false;
  sample_sectors_valid = false;
  bootstrap_valid = false;
  failure_lba = 0;
  failure_requested_bytes = 0;
  failure_actual_bytes = pos 0;
}

-- The paths of the two files on the source medium.
pub record BootstrapPaths : Type 0 where
  pub bin_path : List ℕ
  pub sums_path : List ℕ

-- What the parser leaves in the result, for a line that was read. A line of 95 bytes or less has its
-- NUL behind it. The part of a digest before a character that is none is left out; nothing reads it.
unfoldable pub parse_line : ReadResult → BootstrapResult → BootstrapResult
parse_line (read_error n) r = r
parse_line (read_bytes bytes) r =
    if ltb 0 (length bytes)
    then elim (parse_sum bytes) [
      | none ↦ record r { sums_parse_result = einval }
      | some digest ↦ record r { sums_parse_result = pos 0; expected_sha256 = digest }
    ]
    else r

-- Behind the second file.
unfoldable pub judge_sums : BootstrapResult → BootstrapResult
judge_sums r =
    let valid = (r.sums_parse_result ==ℤ pos 0) && eq_bytes r.expected_sha256 r.source_sha256 in
    record r { sha256_valid = valid; validation_valid = r.size_valid && valid }

-- `stack` is what the hash context on the stack holds.
module _ (io : FileXio) (media : SourceMedia) (paths : BootstrapPaths) (stack : List ℕ) where
  -- The loop over the prefix, which ends with the file: the last result, the hash and the size so far.
  -- It has no bound in the code; where the fuel is used up, the last result is that of a read that
  -- gave bytes.
  unfoldable pub binary_loop : ℕ → ℤ → ℤ → Context → ℕ → Io io.World (ℤ × (Context × ℕ))
  binary_loop zero fd last hash size w = ((last, (hash, size)), w)
  binary_loop (suc fuel) fd last hash size w =
      let (result, w') = io.read fd (source_media_read_size media 65536) w in
      elim result [
        | read_error n ↦ ((negsuc n, (hash, size)), w')
        | read_bytes bytes ↦ elim bytes [
          | [] ↦ ((pos 0, (hash, size)), w')
          | x ∷ xs ↦
              binary_loop fuel fd (pos (length (x ∷ xs))) (sha256_update hash (x ∷ xs))
                (u32 (size + length (x ∷ xs))) w'
        ]
      ]

  unfoldable pub hash_binary : ℕ → ℤ → BootstrapResult → Io io.World BootstrapResult
  hash_binary fuel fd r w =
      let ((last, (hash, size)), w1) =
        binary_loop fuel fd r.binary_final_read_result (sha256_init stack) r.binary_size w in
      let (closed, w2) = io.close fd w1 in
      (
        record r {
          binary_final_read_result = last;
          binary_size = size;
          binary_close_result = closed;
          source_sha256 = sha256_final hash;
          size_valid =
              (last ==ℤ pos 0) && (not (is_negative closed) && (size == bootstrap_byte_count));
        },
        w2,
      )

  unfoldable pub read_sums : BootstrapResult → Io io.World BootstrapResult
  read_sums r w =
      let (fd, w1) = io.open_read paths.sums_path w in
      let (result, w2) = io.read fd 95 w1 in
      let (closed, w3) = io.close fd w2 in
      let opened = record r { sums_open_result = fd } in
      let line = record opened { sums_read_result = amount result; sums_close_result = closed } in
      if is_negative fd then (opened, w1) else (judge_sums (parse_line result line), w3)

  unfoldable pub bootstrap_validate_usb : ℕ → BootstrapResult → Io io.World BootstrapResult
  bootstrap_validate_usb fuel r w =
      let (fd, w1) = io.open_read paths.bin_path w in
      let opened = record r { validation_attempted = true; binary_open_result = fd } in
      let (hashed, w2) = hash_binary fuel fd opened w1 in
      let out = read_sums hashed w2 in if is_negative fd then (opened, w1) else out
