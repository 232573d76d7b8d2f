-- ===== src/Xfrom/Copy.antt =====
-- `hash_path`, `load_verified_source` and `write_verified_destination` of src/xfrom_repair.c.
use repair_box_psx_hdd_setup.Base.{
  ℕ, zero, suc, ◌+◌, ◌-◌, min, ℤ, pos, negsuc, is_negative, eio, efbig, eilseq, enametoolong, Bool,
  true, false, not, ◌&&◌, ◌||◌, Option, none, some, List, [], ◌∷◌, ◌++◌, length, take, drop, ltb,
  leb, ◌==◌, ◌==ℤ◌, eq_bytes, base_name, if◌then◌else◌,
}
use repair_box_psx_hdd_setup.Base.Io.{Io}
use repair_box_psx_hdd_setup.FileXio.{FileXio, read_error, read_bytes, amount}
use repair_box_psx_hdd_setup.Hash.Sha256.{Context, sha256_init, sha256_update, sha256_final}
use repair_box_psx_hdd_setup.Xfrom.{Entry, Revision, psx1, xfrom_destination_prefix}

-- XFROM_FILE_LIMIT, XFROM_IO_SIZE and MMCE_READ_SIZE
abbrev pub xfrom_file_limit : ℕ
xfrom_file_limit = 8388608

abbrev pub xfrom_io_size : ℕ
xfrom_io_size = 16384

abbrev pub mmce_read_size : ℕ
mmce_read_size = 32768

-- What src/source_media.c answers about the medium with the files.
pub record SourceMedia : Type 0 where
  pub is_mmce : Bool
  pub psx1_xfrom_root : List ℕ
  pub psx2_xfrom_root : List ℕ

unfoldable pub source_media_read_size : SourceMedia → ℕ → ℕ
source_media_read_size media requested =
    if media.is_mmce && ltb mmce_read_size requested then mmce_read_size else requested

unfoldable pub source_root : SourceMedia → Revision → List ℕ
source_root media psx1 = media.psx1_xfrom_root
source_root media _ = media.psx2_xfrom_root

-- A path that does not fit into 384 bytes is -ENAMETOOLONG, `none` here.
abbrev pub fits : List ℕ → Option (List ℕ)
fits path = if leb 384 (length path) then none else some path

unfoldable pub build_source_path : SourceMedia → Revision → Entry → Bool → Option (List ℕ)
build_source_path media revision entry nested =
    let name = if nested then entry.path else base_name entry.path in
    fits (source_root media revision ++ (47 ∷ name))

unfoldable pub build_destination_path : Entry → Option (List ℕ)
build_destination_path entry = fits (xfrom_destination_prefix ++ base_name entry.path)

-- The result, the digest and the size of a file.
pub record Hashed : Type 0 where
  pub code : ℤ
  pub digest : List ℕ
  pub size : ℕ

abbrev pub hash_failed : ℤ → Hashed
hash_failed code = record { code = code; digest = []; size = 0 }

-- The file has the size and the digest of the entry.
abbrev pub matches : Entry → Hashed → Bool
matches entry hashed =
    (hashed.code ==ℤ pos 0)
    && ((hashed.size == entry.size) && eq_bytes hashed.digest entry.expected_sha256)

-- `stack` is what the context on the stack holds, `media` the source medium, and `allocates` says of
-- which sizes `memalign` gives memory.
module _ (io : FileXio) (stack : List ℕ) (media : SourceMedia) (allocates : ℕ → Bool) where
  -- The loop of `hash_path`: the hash so far and the number of bytes, or an error. A read gives at
  -- most what is asked for, so `total > XFROM_FILE_LIMIT - amount` does not wrap. A round that goes on
  -- reads at least one byte and stays within the limit, so the limit and one more is fuel enough.
  unfoldable pub hash_loop : ℕ → ℕ → ℤ → Context → ℕ → Io io.World (ℤ × (Context × ℕ))
  hash_loop zero request fd hash total w = ((efbig, (hash, total)), w)
  hash_loop (suc fuel) request fd hash total w =
      let (result, w') = io.read fd request w in
      elim result [
        | read_error n ↦ ((negsuc n, (hash, total)), w')
        | read_bytes bytes ↦ elim bytes [
          | [] ↦ ((pos 0, (hash, total)), w')
          | x ∷ xs ↦
              let all = total + length (x ∷ xs) in
              let rest = hash_loop fuel request fd (sha256_update hash (x ∷ xs)) all w' in
              if ltb xfrom_file_limit all then ((efbig, (hash, total)), w') else rest
        ]
      ]

  unfoldable pub hash_path : List ℕ → Bool → Io io.World Hashed
  hash_path path source w =
      let (fd, w1) = io.open_read path w in
      let request = if source then source_media_read_size media xfrom_io_size else xfrom_io_size in
      if is_negative fd
      then (hash_failed fd, w1)
      else let ((code, (hash, total)), w2) =
          hash_loop (suc xfrom_file_limit) request fd (sha256_init stack) 0 w1 in
        let (closed, w3) = io.close fd w2 in
        if is_negative code
        then (hash_failed code, w3)
        else if is_negative closed
        then (hash_failed closed, w3)
        else (record { code = pos 0; digest = sha256_final hash; size = total }, w3)

  -- The loop of `load_verified_source` for the bytes that are left: the hash and the bytes so far.
  unfoldable pub load_loop : ℕ → ℤ → ℕ → Context → List ℕ → Io io.World (ℤ × (Context × List ℕ))
  load_loop zero fd size hash buffer w = ((pos 0, (hash, buffer)), w)
  load_loop (suc fuel) fd size hash buffer w =
      if leb size (length buffer)
      then ((pos 0, (hash, buffer)), w)
      else let request = source_media_read_size media (min (size - length buffer) xfrom_io_size) in
        let (result, w') = io.read fd request w in
        elim result [
          | read_error n ↦ ((negsuc n, (hash, buffer)), w')
          | read_bytes bytes ↦ elim bytes [
            | [] ↦ ((eio, (hash, buffer)), w')
            | x ∷ xs ↦ load_loop fuel fd size (sha256_update hash (x ∷ xs)) (buffer ++ (x ∷ xs)) w'
          ]
        ]

  -- Behind the loop: nothing may follow, and the digest shall be the entry's.
  unfoldable pub finish_load : Entry → ℤ → Context → List ℕ → Io io.World (ℤ × List ℕ)
  finish_load entry fd hash buffer w =
      let (extra, w1) = io.read fd 1 w in
      let (closed, w2) = io.close fd w1 in
      if not (amount extra ==ℤ pos 0) || is_negative closed
      then ((if is_negative (amount extra) then amount extra else eio, []), w2)
      else if not (eq_bytes (sha256_final hash) entry.expected_sha256)
      then ((eilseq, []), w2)
      else ((pos 0, buffer), w2)

  unfoldable pub load_path : Entry → List ℕ → Io io.World (ℤ × List ℕ)
  load_path entry path w =
      let (fd, w1) = io.open_read path w in
      if is_negative fd
      then ((fd, []), w1)
      else let ((code, (hash, buffer)), w2) =
          load_loop entry.size fd entry.size (sha256_init stack) [] w1 in
        if is_negative code
        then (let (closed, w3) = io.close fd w2 in ((code, []), w3))
        else finish_load entry fd hash buffer w2

  -- The bytes of the source, where the result is 0; -ENOMEM is -12.
  unfoldable pub load_verified_source : Revision → Entry → Io io.World (ℤ × List ℕ)
  load_verified_source revision entry w =
      elim (build_source_path media revision entry entry.source_nested) [
        | none ↦ ((enametoolong, []), w)
        | some path ↦
            if allocates (if ltb 0 entry.size then entry.size else 64)
            then load_path entry path w
            else ((negsuc 11, []), w)
      ]

  -- The loop of `write_verified_destination` for the bytes that are left.
  unfoldable pub copy_loop : ℕ → ℤ → ℕ → List ℕ → ℕ → Io io.World ℤ
  copy_loop zero fd size bytes offset w = (pos 0, w)
  copy_loop (suc fuel) fd size bytes offset w =
      if leb size offset
      then (pos 0, w)
      else let request = min (size - offset) xfrom_io_size in
        let (result, w') = io.write fd (take request (drop offset bytes)) w in
        elim result [
          | negsuc n ↦ (negsuc n, w')
          | pos n ↦ elim n [
            | zero ↦ (eio, w')
            | suc k ↦ copy_loop fuel fd size bytes (offset + suc k) w'
          ]
        ]

  -- The file is hashed after it was written.
  unfoldable pub verify_destination : Entry → List ℕ → Io io.World (ℤ × Entry)
  verify_destination entry path w =
      let (hashed, w') = hash_path path false w in
      let valid = matches entry hashed in
      (
        (
          if valid then pos 0 else if is_negative hashed.code then hashed.code else eilseq,
          record entry { destination_valid = valid },
        ),
        w',
      )

  unfoldable pub write_path : Entry → List ℕ → List ℕ → Io io.World (ℤ × Entry)
  write_path entry bytes path w =
      let (fd, w1) = io.open_write path w in
      let attempted = record entry { write_attempted = true } in
      if is_negative fd
      then ((fd, attempted), w1)
      else let (code, w2) = copy_loop entry.size fd entry.size bytes 0 w1 in
        let (closed, w3) = io.close fd w2 in
        if is_negative code
        then ((code, attempted), w3)
        else if is_negative closed
        then ((eio, attempted), w3)
        else verify_destination attempted path w3

  unfoldable pub write_verified_destination : Entry → List ℕ → Io io.World (ℤ × Entry)
  write_verified_destination entry bytes w = elim (build_destination_path entry) [
    | none ↦ ((enametoolong, entry), w)
    | some path ↦ write_path entry bytes path w
  ]
