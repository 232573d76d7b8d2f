-- ===== src/Xfrom/Execute.antt =====
-- `xfrom_repair_execute` of src/xfrom_repair.c and `ensure_system_root`.
pub mod Written
pub mod Placed
pub mod Confined
pub mod Confinement
use repair_box_psx_hdd_setup.Base.{
  ℕ, zero, suc, ◌+◌, ℤ, pos, is_negative, eio, eperm, Bool, true, false, not, ◌&&◌, ◌||◌, Option,
  none, some, List, [], ◌∷◌, ◌++◌, length, ◌==◌, ◌==ℤ◌, codes, if◌then◌else◌,
}
use repair_box_psx_hdd_setup.Base.Io.{Io}
use repair_box_psx_hdd_setup.FileXio.{FileXio}
use repair_box_psx_hdd_setup.Xfrom.{Entry, Revision, RepairResult, fail, xfrom_system_root}
use repair_box_psx_hdd_setup.Xfrom.Cleanup.{cleanup_system_root}
use repair_box_psx_hdd_setup.Xfrom.Copy.{
  SourceMedia, load_verified_source, write_verified_destination,
}

abbrev pub root_accessible : RepairResult → RepairResult
root_accessible result = record result {
  xfrom_partition_accessible = true;
  xfrom_partition_missing = false;
}

module _ (io : FileXio) where
  -- The folder that was opened is closed.
  unfoldable pub close_root : ℤ → RepairResult → Io io.World (ℤ × RepairResult)
  close_root fd result w =
      let (closed, w') = io.dclose fd w in
      if is_negative closed then ((closed, result), w') else ((pos 0, root_accessible result), w')

  unfoldable pub reopen_root : RepairResult → Io io.World (ℤ × RepairResult)
  reopen_root result w =
      let (fd, w') = io.dopen xfrom_system_root w in
      if is_negative fd then ((fd, result), w') else close_root fd result w'

  unfoldable pub ensure_system_root : RepairResult → Io io.World (ℤ × RepairResult)
  ensure_system_root result w =
      let (fd, w1) = io.dopen xfrom_system_root w in
      if not (is_negative fd)
      then close_root fd result w1
      else let (made, w2) = io.mkdir xfrom_system_root w1 in
        if is_negative made
        then ((made, result), w2)
        else reopen_root (record result { xfrom_partition_created = true }) w2

module _ (io : FileXio) (stack : List ℕ) (media : SourceMedia) (allocates : ℕ → Bool) where
  -- One attempt at a file: it is read again and checked, written, and hashed.
  unfoldable pub attempt : Revision → Entry → Io io.World (ℤ × Entry)
  attempt revision entry w =
      let ((loaded, bytes), w') = load_verified_source io stack media allocates revision entry w in
      if is_negative loaded
      then ((loaded, entry), w')
      else write_verified_destination io stack media allocates entry bytes w'

  -- The attempts that are left, after one that ended with `code`: only -EIO is tried again.
  unfoldable pub attempt_loop : ℕ → Revision → ℤ → Entry → Io io.World (ℤ × Entry)
  attempt_loop zero revision code entry w = ((code, entry), w)
  attempt_loop (suc left) revision code entry w =
      let ((code', entry'), w') = attempt revision entry w in
      if (code' ==ℤ pos 0) || not (code' ==ℤ eio)
      then ((code', entry'), w')
      else attempt_loop left revision code' entry' w'

  -- The loop over the files that are left, behind those in `done`.
  unfoldable pub execute_files :
      List Entry → List Entry → RepairResult → Io io.World (ℤ × RepairResult)
  execute_files done [] result w = ((pos 0, result), w)
  execute_files done (entry ∷ rest) result w =
      if entry.deferred_activation
      then execute_files (done ++ (entry ∷ [])) rest
          (record result { files_deferred = result.files_deferred + 1 }) w
      else let ((code, entry'), w') = attempt_loop 2 result.revision eio entry w in
        let result' = record result { files = done ++ (entry' ∷ rest) } in
        if is_negative code
        then (
          (
            code,
            fail
                (if entry'.write_attempted
                  then codes "write_verify_xfrom"
                  else codes "reload_source_file")
                entry'.path code result',
          ),
          w',
        )
        else execute_files (done ++ (entry' ∷ [])) rest
            (record result' { files_written = result.files_written + 1 }) w'

  -- The count of the files, behind the loop.
  unfoldable pub finish_repair : ℤ × RepairResult → ℤ × RepairResult
  finish_repair (code, result) =
      let valid =
        result.files_written + result.files_preserved + result.files_deferred
        == length result.files in
      if is_negative code
      then (code, result)
      else (if valid then pos 0 else eio, record result { repair_valid = valid })

  -- What follows the clean-up; `none` is a folder for which the fuel is too small.
  unfoldable pub write_files : Option (ℤ × RepairResult) → Io io.World (Option (ℤ × RepairResult))
  write_files none w = (none, w)
  write_files (some (code, result)) w =
      if is_negative code
      then (some (code, result), w)
      else let (out, w') = execute_files [] result.files result w in (some (finish_repair out), w')

  unfoldable pub execute_permitted : ℕ → RepairResult → Io io.World (Option (ℤ × RepairResult))
  execute_permitted fuel result w =
      let ((code, result'), w1) = ensure_system_root io result w in
      if is_negative code
      then (some (code, fail (codes "create_or_open_biexec") xfrom_system_root code result'), w1)
      else let (cleaned, w2) = cleanup_system_root io fuel result' w1 in write_files cleaned w2

  unfoldable pub xfrom_repair_execute :
      ℕ → RepairResult → Bool → Bool → Io io.World (Option (ℤ × RepairResult))
  xfrom_repair_execute fuel result storage_valid session_confirmed w =
      if not storage_valid
        || (not session_confirmed || (not result.source_valid || not result.xfrom_root_accessible))
      then (some (eperm, result), w)
      else execute_permitted fuel (record result { write_attempted = true }) w
