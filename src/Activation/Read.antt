-- ===== src/Activation/Read.antt =====
-- `read_image`, `hash_file` and `image_valid` of src/activation.c.
use repair_box_psx_hdd_setup.Base.{
  ℕ, zero, suc, ◌+◌, ◌-◌, ℤ, pos, negsuc, is_negative, ◌==ℤ◌, Bool, true, false, not, ◌&&◌, List,
  [], ◌∷◌, length, take, drop, replicate, write_at, ltb, ◌==◌, codes, if◌then◌else◌,
}
use repair_box_psx_hdd_setup.Base.Io.{Io}
use repair_box_psx_hdd_setup.FileXio.{FileXio, read_error, read_bytes, amount}
use repair_box_psx_hdd_setup.Hash.Sha1.{bootflag_sha1}
use repair_box_psx_hdd_setup.Hash.Sha256.{sha256_init, sha256_update, sha256_final}
use repair_box_psx_hdd_setup.Bootflag.Scan.{
  BootflagState, normal, invalid, Inspection, empty_inspection, bootflag_inspect_image,
}

-- BOOTFLAG_XFROM_PATH
abbrev pub bootflag_path : List ℕ
bootflag_path = codes "xfrom0:/BIEXEC-SYSTEM/bootflag.txt"

pub record ActivationFile : Type 0 where
  pub bytes : List ℕ
  pub size : ℕ
  pub open_result : ℤ
  pub read_result : ℤ
  pub extra_read_result : ℤ
  pub close_result : ℤ
  pub sha1 : List ℕ
  pub sha256 : List ℕ
  pub inspection : Inspection

-- `memset` to zero: the state 0 is NORMAL.
abbrev pub zero_inspection : Inspection
zero_inspection = record (empty_inspection 0) {
  open_result = pos 0;
  final_read_result = pos 0;
  extra_read_result = pos 0;
  close_result = pos 0;
  state = normal;
}

abbrev pub zero_file : ActivationFile
zero_file = record {
  bytes = replicate 512 0;
  size = 0;
  open_result = pos 0;
  read_result = pos 0;
  extra_read_result = pos 0;
  close_result = pos 0;
  sha1 = replicate 20 0;
  sha256 = replicate 32 0;
  inspection = zero_inspection;
}

-- The context on the stack is not initialised, so its buffer is whatever `stack` is.
unfoldable pub hash_file : List ℕ → ActivationFile → ActivationFile
hash_file stack file = record file {
  sha1 = bootflag_sha1 (take 492 (drop 20 file.bytes));
  sha256 = sha256_final (sha256_update (sha256_init stack) file.bytes);
}

-- The variables of the loop that reads the image.
pub record ReadState : Type 0 where
  pub buffer : List ℕ
  pub offset : ℕ
  pub last_result : ℤ

abbrev pub not_invalid : BootflagState → Bool
not_invalid invalid = false
not_invalid _ = true

unfoldable pub image_valid : ActivationFile → Bool
image_valid file =
    not (is_negative file.open_result)
    && ((file.size == 512)
        && ((file.extra_read_result ==ℤ pos 0)
            && (not (is_negative file.close_result)
                && (file.inspection.sha1_valid
                    && (file.inspection.scan.payload_valid
                        && (not file.inspection.scan.conflicting_value
                            && ((file.inspection.scan.unknown_key_count == 0)
                                && not_invalid file.inspection.state)))))))

-- One more byte is asked for.
abbrev pub read_extra : (io : FileXio) → ℤ → Io io.World ℤ
read_extra io fd w = let (r, w') = io.read fd 1 w in (amount r, w')

abbrev pub positive : ℤ → ℕ
positive (pos n) = n
positive (negsuc n) = 0

module _ (io : FileXio) where
  -- The loop of `read_image`, with fuel: a round that goes on reads at least one byte of 512.
  unfoldable pub read_loop : ℕ → ℤ → ReadState → Io io.World ReadState
  read_loop zero fd s w = (s, w)
  read_loop (suc fuel) fd s w = elim (ltb s.offset 512) [
    | true ↦
        let (result, w') = io.read fd (512 - s.offset) w in
        elim result [
          | read_error n ↦ (record s { last_result = negsuc n }, w')
          | read_bytes bytes ↦ elim bytes [
            | [] ↦ (record s { last_result = pos 0 }, w')
            | x ∷ xs ↦
                read_loop fuel fd
                  (record {
                    buffer = write_at s.buffer s.offset (x ∷ xs);
                    offset = s.offset + length (x ∷ xs);
                    last_result = pos (length (x ∷ xs));
                  })
                  w'
          ]
        ]
    | false ↦ (s, w)
  ]

  -- What `read_image` does behind its loop: one more byte is asked for, the file is closed, inspected
  -- and hashed.
  unfoldable pub finish_read : List ℕ → ℤ → ReadState → Io io.World ActivationFile
  finish_read stack fd s w =
      let full = s.offset == 512 in
      let (extra, w1) = if full then read_extra io fd w else (negsuc 0, w) in
      let (closed, w2) = io.close fd w1 in
      let size = s.offset + positive extra in
      let file : ActivationFile = record zero_file {
        bytes = s.buffer;
        size = size;
        open_result = fd;
        read_result = s.last_result;
        extra_read_result = extra;
        close_result = closed;
        inspection =
            bootflag_inspect_image s.buffer (if full && (extra ==ℤ pos 0) then 512 else size);
      } in
      (
        if full && ((extra ==ℤ pos 0) && not (is_negative closed))
            then hash_file stack file
            else file,
        w2,
      )

  unfoldable pub read_image : List ℕ → List ℕ → Io io.World ActivationFile
  read_image stack path w =
      let (fd, w1) = io.open_read path w in
      if is_negative fd
      then (
        record zero_file {
          open_result = fd;
          read_result = negsuc 0;
          extra_read_result = negsuc 0;
          close_result = negsuc 0;
        },
        w1,
      )
      else let (s, w2) =
          read_loop 512 fd (record { buffer = replicate 512 0; offset = 0; last_result = negsuc 0 })
            w1 in
        finish_read stack fd s w2
