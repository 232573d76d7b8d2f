-- ===== src/Xfrom/Cleanup.antt =====
-- `build_cleanup_plan` and `cleanup_system_root` of src/xfrom_repair.c: the files of the system
-- folder that are not of the known set are removed.
pub mod Plan
pub mod Frame
pub mod Listing
use mathlib.Core.Option
use repair_box_psx_hdd_setup.Base.{
  ℕ, zero, suc, ◌+◌, ℤ, pos, negsuc, is_negative, eio, einval, e2big, eisdir, enametoolong, Bool,
  true, false, not, ◌&&◌, ◌||◌, Option, none, some, List, [], ◌∷◌, ◌++◌, length, leb, ◌==◌, codes,
  c_string, eq_bytes, has_nul, has_byte, base_name, if◌then◌else◌,
}
use repair_box_psx_hdd_setup.Base.Io.{Io}
use repair_box_psx_hdd_setup.FileXio.{
  FileXio, Dirent, DreadResult, dread_error, dread_end, dread_entry,
}
use repair_box_psx_hdd_setup.Xfrom.{
  Entry, RepairResult, fail, xfrom_system_root, xfrom_cleanup_max_files, xfrom_repair_path_size,
}

unfoldable pub known_name : List Entry → List ℕ → Bool
known_name [] name = false
known_name (entry ∷ files) name =
    if eq_bytes (base_name entry.path) name then true else known_name files name

unfoldable pub known_destination_name : RepairResult → List ℕ → Bool
known_destination_name result name = known_name result.files name

-- The name is never NULL in the program's calls; 47, 92 and 58 are the slash, the backslash and the
-- colon.
unfoldable pub safe_cleanup_name : List ℕ → Bool
safe_cleanup_name name =
    not (length name == 0)
    && (not (eq_bytes name (codes "."))
        && (not (eq_bytes name (codes ".."))
            && (not (has_byte 47 name) && (not (has_byte 92 name) && not (has_byte 58 name)))))

-- The path of a file of the system folder.
abbrev pub system_path : List ℕ → List ℕ
system_path name = xfrom_system_root ++ (47 ∷ name)

-- The scan in progress: the result, and the paths of the plan.
pub record Scan : Type 0 where
  pub result : RepairResult
  pub paths : List (List ℕ)

-- The loop breaks with an error.
abbrev pub refuse : List ℕ → List ℕ → ℤ → Scan → ℤ × Scan
refuse operation path code scan =
    (code, record scan { result = fail operation path code scan.result })

-- An entry that is not "." or "..", which is counted already.
unfoldable pub scan_name : List ℕ → Bool → Scan → ℤ × Scan
scan_name name is_directory scan =
    if not (safe_cleanup_name name)
    then refuse (codes "unsafe_xfrom_entry") name einval scan
    else if is_directory
    then refuse (codes "unexpected_xfrom_directory") name eisdir scan
    else if known_destination_name scan.result name
    then (pos 1, scan)
    else if leb xfrom_cleanup_max_files (length scan.paths)
    then refuse (codes "too_many_xfrom_extras") name e2big scan
    else if leb xfrom_repair_path_size (length (system_path name))
    then refuse (codes "xfrom_cleanup_path") name enametoolong scan
    else (pos 1, record scan { paths = scan.paths ++ (system_path name ∷ []) })

-- The body of the loop for one entry; a result that is not negative goes on.
unfoldable pub scan_entry : Dirent → Scan → ℤ × Scan
scan_entry entry scan =
    let name = c_string entry.name in
    if not (has_nul entry.name)
    then refuse (codes "unterminated_xfrom_entry") xfrom_system_root enametoolong scan
    else if eq_bytes name (codes ".") || eq_bytes name (codes "..")
    then (pos 1, scan)
    else scan_name name entry.is_directory (record scan {
      result = record scan.result {
        cleanup_entries_scanned = scan.result.cleanup_entries_scanned + 1;
      };
    })

-- What `build_cleanup_plan` does behind its loop: the plan counts where nothing has failed.
unfoldable pub finish_plan : ℤ → ℤ → Scan → ℤ × Scan
finish_plan read_result close_result scan =
    let code =
      if not (is_negative read_result) && is_negative close_result
      then close_result
      else read_result in
    if is_negative code
    then (
      code,
      record scan { result = fail (codes "scan_xfrom_cleanup") xfrom_system_root code scan.result },
    )
    else (
      pos 0,
      record scan { result = record scan.result { cleanup_candidates = length scan.paths } },
    )

-- What the second scan has found, which shall be nothing.
unfoldable pub judge_cleanup : Option (ℤ × Scan) → Option (ℤ × RepairResult)
judge_cleanup none = none
judge_cleanup (some (code, scan)) =
    if is_negative code
    then some (code, scan.result)
    else if not (length scan.paths == 0)
    then some (eio, fail (codes "verify_xfrom_cleanup") xfrom_system_root eio scan.result)
    else some (pos 0, record scan.result { cleanup_valid = true })

module _ (io : FileXio) where
  -- The loop over the folder. It has no bound of its own, so it runs on fuel: `none` is a folder with
  -- more entries than there is fuel.
  unfoldable pub scan_loop : ℕ → ℤ → Scan → Io io.World (Option (ℤ × Scan))
  scan_loop zero fd scan w = (none, w)
  scan_loop (suc fuel) fd scan w =
      let (read, w') = io.dread fd w in
      elim read [
        | dread_error n ↦ (some (negsuc n, scan), w')
        | dread_end ↦ (some (pos 0, scan), w')
        | dread_entry entry ↦
            let (code, scan') = scan_entry entry scan in
            let rest = scan_loop fuel fd scan' w' in
            if is_negative code then (some (code, scan'), w') else rest
      ]

  -- The folder is closed.
  unfoldable pub close_plan : ℤ → Option (ℤ × Scan) → Io io.World (Option (ℤ × Scan))
  close_plan fd none w = (none, w)
  close_plan fd (some (code, scan)) w =
      let (closed, w') = io.dclose fd w in (some (finish_plan code closed scan), w')

  unfoldable pub build_cleanup_plan : ℕ → RepairResult → Io io.World (Option (ℤ × Scan))
  build_cleanup_plan fuel result w =
      let start : Scan = record {
        result = record result { cleanup_entries_scanned = 0 };
        paths = [];
      } in
      let (fd, w1) = io.dopen xfrom_system_root w in
      if is_negative fd
      then (some (fd, start), w1)
      else let (scanned, w2) = scan_loop fuel fd start w1 in close_plan fd scanned w2

  -- The loop that removes the files of the plan.
  unfoldable pub remove_loop : List (List ℕ) → RepairResult → Io io.World (ℤ × RepairResult)
  remove_loop [] result w = ((pos 0, result), w)
  remove_loop (path ∷ paths) result w =
      let (code, w') = io.remove path w in
      if is_negative code
      then ((code, fail (codes "remove_extra_xfrom_file") path code result), w')
      else remove_loop paths (record result { cleanup_removed = result.cleanup_removed + 1 }) w'

  unfoldable pub verify_cleanup : ℕ → RepairResult → Io io.World (Option (ℤ × RepairResult))
  verify_cleanup fuel result w =
      let (planned, w') = build_cleanup_plan fuel result w in (judge_cleanup planned, w')

  -- The plan is carried out, and the folder scanned again.
  unfoldable pub remove_planned : ℕ → Option (ℤ × Scan) → Io io.World (Option (ℤ × RepairResult))
  remove_planned fuel none w = (none, w)
  remove_planned fuel (some (code, scan)) w =
      if is_negative code
      then (some (code, scan.result), w)
      else let ((removed, result), w') = remove_loop scan.paths scan.result w in
        if is_negative removed then (some (removed, result), w') else verify_cleanup fuel result w'

  unfoldable pub cleanup_system_root : ℕ → RepairResult → Io io.World (Option (ℤ × RepairResult))
  cleanup_system_root fuel result w =
      let (planned, w') = build_cleanup_plan fuel result w in remove_planned fuel planned w'
