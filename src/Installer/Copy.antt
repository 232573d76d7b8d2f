-- ===== src/Installer/Copy.antt =====
-- `hash_open_file`, `copy_file_once` and `copy_file` of src/installer.c: a file is copied, hashed on
-- the way, and read back.
pub mod Verified
pub mod Once
use repair_box_psx_hdd_setup.Base.{
  ℕ, zero, suc, ◌+◌, ◌-◌, ℤ, pos, negsuc, is_negative, ◌==ℤ◌, eio, enametoolong, Bool, true, false,
  not, ◌&&◌, ◌||◌, Option, none, some, List, [], ◌∷◌, codes, length, drop, ◌==◌, eq_bytes, u64, u32,
  if◌then◌else◌,
}
use repair_box_psx_hdd_setup.Base.Io.{Io}
use repair_box_psx_hdd_setup.FileXio.{FileXio, read_error, read_bytes}
use repair_box_psx_hdd_setup.Hash.Sha256.{Context, sha256_init, sha256_update, sha256_final}
use repair_box_psx_hdd_setup.Xfrom.Copy.{SourceMedia, source_media_read_size}
use repair_box_psx_hdd_setup.Installer.{
  SourceItem, PartitionResult, InstallerResult, set_failure, make_usb_path, make_destination_path,
}

-- COPY_BUFFER_SIZE
abbrev pub copy_buffer_size : ℕ
copy_buffer_size = 65536

-- A result, with what the caller reports of it.
pub record Attempt : Type 0 where
  pub code : ℤ
  pub failure_offset : ℕ
  pub failure_operation : List ℕ

-- A hash and a number of bytes.
pub record Hashing : Type 0 where
  pub hash : Context
  pub size : ℕ

unfoldable pub absorb_bytes : Hashing → List ℕ → Hashing
absorb_bytes h bytes = record {
  hash = sha256_update h.hash bytes;
  size = u64 (h.size + length bytes);
}

abbrev pub attempt : ℤ → ℕ → List ℕ → Attempt
attempt code offset operation = record {
  code = code;
  failure_offset = offset;
  failure_operation = operation;
}

-- `stack` is what the hash contexts on the stack hold, `media` the source medium, and `fuel` the bound
-- on the loops over a file, which have none in the code. Where the fuel is used up the result is -EIO.
module _ (io : FileXio) (media : SourceMedia) (stack : List ℕ) (fuel : ℕ) where
  -- The loop of `hash_open_file`.
  unfoldable pub verify_loop : ℕ → ℤ → ℕ → Hashing → Io io.World (Attempt × Hashing)
  verify_loop zero fd offset h w = ((attempt eio offset (codes "destination_verify_read"), h), w)
  verify_loop (suc left) fd offset h w =
      let (result, w') = io.read fd copy_buffer_size w in
      elim result [
        | read_error n ↦
            let (closed, w2) = io.close fd w' in
            ((attempt (negsuc n) offset (codes "destination_verify_read"), h), w2)
        | read_bytes bytes ↦ elim bytes [
          | [] ↦ ((attempt (pos 0) offset (codes "destination_verify_open"), h), w')
          | x ∷ xs ↦ let h' = absorb_bytes h (x ∷ xs) in verify_loop left fd h'.size h' w'
        ]
      ]

  unfoldable pub hash_open_file : List ℕ → ℕ → Io io.World (Attempt × Hashing)
  hash_open_file path offset w =
      let (fd, w1) = io.open_read path w in
      let start : Hashing = record { hash = sha256_init stack; size = 0 } in
      let ((out, h), w2) = verify_loop fuel fd offset start w1 in
      let (closed, w3) = io.close fd w2 in
      if is_negative fd
      then ((attempt fd offset (codes "destination_verify_open"), start), w1)
      else if is_negative out.code
      then ((out, h), w2)
      else if is_negative closed
      then ((attempt closed out.failure_offset (codes "destination_verify_close"), h), w3)
      else ((out, h), w3)

  -- The loop over the bytes that a read gave: how many were written, and the result. A round that goes
  -- on writes at least one byte, so that their number is fuel enough.
  unfoldable pub write_chunk : ℕ → ℤ → List ℕ → ℕ → Io io.World (ℤ × ℕ)
  write_chunk zero fd bytes written w = ((pos 0, written), w)
  write_chunk (suc left) fd [] written w = ((pos 0, written), w)
  write_chunk (suc left) fd (b ∷ bytes) written w =
      let (result, w') = io.write fd (b ∷ bytes) w in
      elim result [
        | negsuc n ↦ ((negsuc n, written), w')
        | pos n ↦ elim n [
          | zero ↦ ((eio, written), w')
          | suc k ↦ write_chunk left fd (drop (suc k) (b ∷ bytes)) (written + suc k) w'
        ]
      ]

  -- The loop of `copy_file_once` from the source to the destination.
  unfoldable pub copy_pass : ℕ → ℤ → ℤ → ℕ → Hashing → Io io.World (Attempt × Hashing)
  copy_pass zero source destination offset h w = ((attempt eio offset (codes "source_read"), h), w)
  copy_pass (suc left) source destination offset h w =
      let (result, w1) = io.read source (source_media_read_size media copy_buffer_size) w in
      elim result [
        | read_error n ↦ ((attempt (negsuc n) offset (codes "source_read"), h), w1)
        | read_bytes bytes ↦ elim bytes [
          | [] ↦ ((attempt (pos 0) offset (codes "destination_open"), h), w1)
          | x ∷ xs ↦
              let h' = absorb_bytes h (x ∷ xs) in
              let ((code, written), w2) = write_chunk (length (x ∷ xs)) destination (x ∷ xs) 0 w1 in
              let rest = copy_pass left source destination h'.size h' w2 in
              if is_negative code
              then ((attempt code (u64 (h.size + written)) (codes "destination_write"), h'), w2)
              else rest
        ]
      ]

  -- The destination is read back and compared.
  unfoldable pub compare_copy : List ℕ → ℕ → Hashing → Io io.World Attempt
  compare_copy destination offset copied w =
      let ((out, h), w') = hash_open_file destination offset w in
      if is_negative out.code
      then (out, w')
      else if not (copied.size == h.size)
          || not (eq_bytes (sha256_final copied.hash) (sha256_final h.hash))
      then (attempt eio out.failure_offset (codes "destination_verify_mismatch"), w')
      else (attempt (pos 0) out.failure_offset out.failure_operation, w')

  -- Behind the copy: both files are closed, and the size is that of the listing.
  unfoldable pub close_copy : SourceItem → List ℕ → ℤ → ℤ → ℕ → Hashing → Io io.World Attempt
  close_copy item destination source_fd destination_fd offset copied w =
      let (source_closed, w1) = io.close source_fd w in
      let (closed, w2) = io.close destination_fd w1 in
      let out = compare_copy destination offset copied w2 in
      if is_negative source_closed
      then (attempt source_closed offset (codes "source_close"), w2)
      else if is_negative closed
      then (attempt closed offset (codes "destination_close"), w2)
      else if not (copied.size == item.size)
      then (attempt eio offset (codes "source_size_mismatch"), w2)
      else out

  -- The two files are open.
  unfoldable pub copy_open : SourceItem → List ℕ → ℤ → ℤ → Io io.World Attempt
  copy_open item destination source_fd destination_fd w =
      let start : Hashing = record { hash = sha256_init stack; size = 0 } in
      let ((out, copied), w1) = copy_pass fuel source_fd destination_fd 0 start w in
      let (source_closed, w2) = io.close source_fd w1 in
      let (closed, w3) = io.close destination_fd w2 in
      let done =
        close_copy item destination source_fd destination_fd out.failure_offset copied w1 in
      if is_negative out.code then (out, w3) else done

  unfoldable pub copy_paths : SourceItem → List ℕ → List ℕ → Io io.World Attempt
  copy_paths item source destination w =
      let (source_fd, w1) = io.open_read source w in
      let (destination_fd, w2) = io.open_write destination w1 in
      let (closed, w3) = io.close source_fd w2 in
      let out = copy_open item destination source_fd destination_fd w2 in
      if is_negative source_fd
      then (attempt source_fd 0 (codes "source_open"), w1)
      else if is_negative destination_fd
      then (attempt destination_fd 0 (codes "destination_open"), w3)
      else out

  unfoldable pub copy_between : SourceItem → Option (List ℕ) → Option (List ℕ) → Io io.World Attempt
  copy_between item none destination w = (attempt enametoolong 0 (codes "source_path"), w)
  copy_between item (some source) none w = (attempt enametoolong 0 (codes "destination_path"), w)
  copy_between item (some source) (some destination) w = copy_paths item source destination w

  unfoldable pub copy_file_once :
      InstallerResult → PartitionResult → SourceItem → Io io.World Attempt
  copy_file_once r partition item w =
      copy_between item (make_usb_path r.source_root partition.name item.relative_path)
        (make_destination_path partition item.relative_path) w

  -- The attempts from number `number` on, of which `left` may follow: the last one, its number and the
  -- retries so far.
  unfoldable pub copy_attempts :
      ℕ → ℕ → InstallerResult → PartitionResult → SourceItem → Io io.World (Attempt × (ℕ × ℕ))
  copy_attempts zero number r partition item w =
      let (out, w') = copy_file_once r partition item w in ((out, (number, 0)), w')
  copy_attempts (suc left) number r partition item w =
      let (out, w') = copy_file_once r partition item w in
      let ((last, (at, retries)), w2) = copy_attempts left (suc number) r partition item w' in
      if (out.code ==ℤ pos 0) || not (out.code ==ℤ eio)
      then ((out, (number, 0)), w')
      else ((last, (at, suc retries)), w2)

  -- The counters of a file that was copied, and the failure of one that was not.
  unfoldable pub note_copy :
      SourceItem
      → Attempt
      → ℕ
      → ℕ
      → InstallerResult × PartitionResult
      → InstallerResult × PartitionResult
  note_copy item out number retries (r, partition) =
      let tried = record r { copy_retry_count = u32 (r.copy_retry_count + retries) } in
      let noted = record tried {
        failure = record r.failure { offset = out.failure_offset; attempt = number };
      } in
      if is_negative out.code
      then (
        set_failure noted out.code partition.name item.relative_path out.failure_operation,
        partition,
      )
      else (
        record tried {
          total_completed_file_bytes = u64 (r.total_completed_file_bytes + item.size);
        },
        record partition {
          copied_files = u32 (suc partition.copied_files);
          copied_bytes = u64 (partition.copied_bytes + item.size);
          verified_files = u32 (suc partition.verified_files);
        },
      )

  -- FILE_IO_MAX_ATTEMPTS is 2.
  unfoldable pub copy_file :
      SourceItem
      → InstallerResult × PartitionResult
      → Io io.World (InstallerResult × PartitionResult)
  copy_file item (r, partition) w =
      let ((out, (number, retries)), w') = copy_attempts 1 1 r partition item w in
      (note_copy item out number retries (r, partition), w')
