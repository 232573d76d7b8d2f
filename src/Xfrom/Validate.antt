-- ===== src/Xfrom/Validate.antt =====
-- `xfrom_repair_validate_source` of src/xfrom_repair.c.
use repair_box_psx_hdd_setup.Base.{
  ℕ, ◌+◌, ℤ, is_negative, eilseq, efbig, enametoolong, Bool, true, false, not, ◌&&◌, none, some,
  List, [], ◌∷◌, ◌++◌, ltb, codes, if◌then◌else◌,
}
use repair_box_psx_hdd_setup.Base.Io.{Io}
use repair_box_psx_hdd_setup.FileXio.{FileXio}
use repair_box_psx_hdd_setup.Xfrom.{
  Entry, Revision, RepairResult, fail, xfrom_repair_initialize, xfrom_device_root,
  xfrom_system_root,
}
use repair_box_psx_hdd_setup.Xfrom.Tables.{populate_entries}
use repair_box_psx_hdd_setup.Xfrom.Copy.{
  SourceMedia, Hashed, hash_failed, matches, build_source_path, hash_path,
}

-- Whether the entry's file was found in the nested folder.
pub record Found : Type 0 where
  pub hashed : Hashed
  pub nested : Bool
  pub path_fits : Bool

module _ (io : FileXio) (stack : List ℕ) (media : SourceMedia) (allocates : ℕ → Bool) where
  -- A source file is looked for below the folder of the entry's path, and then beside it.
  unfoldable pub hash_flat : Revision → Entry → Io io.World Found
  hash_flat revision entry w = elim (build_source_path media revision entry false) [
    | none ↦ (record { hashed = hash_failed enametoolong; nested = false; path_fits = false }, w)
    | some path ↦
        let (hashed, w') = hash_path io stack media allocates path true w in
        (record { hashed = hashed; nested = false; path_fits = true }, w')
  ]

  unfoldable pub hash_source : Revision → Entry → Io io.World Found
  hash_source revision entry w = elim (build_source_path media revision entry true) [
    | none ↦ (record { hashed = hash_failed enametoolong; nested = false; path_fits = false }, w)
    | some path ↦
        let (hashed, w') = hash_path io stack media allocates path true w in
        if is_negative hashed.code
        then hash_flat revision entry w'
        else (record { hashed = hashed; nested = true; path_fits = true }, w')
  ]

  -- The loop over the files that are left, behind those in `done`; `true` where all are valid.
  unfoldable pub validate_files :
      List Entry → List Entry → RepairResult → Io io.World (Bool × RepairResult)
  validate_files done [] result w = ((true, result), w)
  validate_files done (entry ∷ rest) result w =
      let (found, w') = hash_source result.revision entry w in
      let valid = matches entry found.hashed in
      let entry' = record entry { source_nested = found.nested; source_valid = valid } in
      let result' = record result { files = done ++ (entry' ∷ rest) } in
      let total = result.total_bytes + entry.size in
      if not found.path_fits
      then ((false, fail (codes "source_path") entry.path enametoolong result), w')
      else if not valid
      then (
        (
          false,
          fail (codes "validate_known_source") entry.path
              (if is_negative found.hashed.code then found.hashed.code else eilseq) result',
        ),
        w',
      )
      else if ltb 0xffffffff total
      then ((false, fail (codes "package_size") entry.path efbig result'), w')
      else validate_files (done ++ (entry' ∷ [])) rest (record result' { total_bytes = total }) w'

  -- A folder is opened, and closed where that succeeded: the two results, -1 where not called.
  unfoldable pub probe : List ℕ → ℤ → Io io.World (ℤ × ℤ)
  probe path unset w =
      let (fd, w1) = io.dopen path w in
      if is_negative fd
      then ((fd, unset), w1)
      else let (closed, w2) = io.dclose fd w1 in ((fd, closed), w2)

  unfoldable pub check_partition : RepairResult → Io io.World RepairResult
  check_partition result w =
      let ((opened, closed), w') = probe xfrom_system_root result.xfrom_partition_close_result w in
      let result' = record result {
        xfrom_partition_open_result = opened;
        xfrom_partition_close_result = closed;
        xfrom_partition_accessible = not (is_negative opened) && not (is_negative closed);
        xfrom_partition_missing = is_negative opened;
      } in
      if not (is_negative opened) && is_negative closed
      then (fail (codes "close_biexec") xfrom_system_root closed result', w')
      else (record result' { source_valid = true }, w')

  unfoldable pub check_roots : RepairResult → Io io.World RepairResult
  check_roots result w =
      let ((opened, closed), w') = probe xfrom_device_root result.xfrom_root_close_result w in
      let accessible = not (is_negative opened) && not (is_negative closed) in
      let result' = record result {
        core_files_valid = true;
        xfrom_root_open_result = opened;
        xfrom_root_close_result = closed;
        xfrom_root_accessible = accessible;
      } in
      if not accessible
      then (
        fail (codes "open_xfrom_root") xfrom_device_root
            (if is_negative opened then opened else closed) result',
        w',
      )
      else check_partition result' w'

  unfoldable pub xfrom_repair_validate_source : Revision → Io io.World RepairResult
  xfrom_repair_validate_source revision w =
      let (code, result) = populate_entries (xfrom_repair_initialize revision) in
      if is_negative code
      then (fail (codes "select_known_file_set") (codes "XFROM") code result, w)
      else let ((valid, result'), w') = validate_files [] result.files result w in
        if valid then check_roots result' w' else (result', w')
