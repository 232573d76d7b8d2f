-- ===== src/Installer/Scan/Source.antt =====
-- `installer_scan_source` of src/installer.c: the root of the source medium is listed, and then the
-- folder of each partition.
use repair_box_psx_hdd_setup.Base.{
  ℕ, zero, suc, ℤ, pos, negsuc, is_negative, enoent, einval, Bool, true, false, not, ◌||◌, Option,
  none, some, List, [], ◌∷◌, codes, length, get_or, ◌==◌, u32, if◌then◌else◌,
}
use repair_box_psx_hdd_setup.Base.Io.{Io}
use repair_box_psx_hdd_setup.FileXio.{FileXio, Dirent, dread_error, dread_end, dread_entry}
use repair_box_psx_hdd_setup.Xfrom.Copy.{SourceMedia}
use repair_box_psx_hdd_setup.Installer.{
  config, PartitionResult, InstallerResult, set_failure, no_failure, is_dots,
}
use repair_box_psx_hdd_setup.Installer.Scan.{
  Memory, append_unknown, partition_index_from_name, change, last_read, entry_name, scan_directory,
}

abbrev pub no_partition : PartitionResult
no_partition = config [] [] [] false

-- `media` is the source medium, `fuel` the bound on the entries of a folder, which the code has not.
module _ (io : FileXio) (media : SourceMedia) (memory : Memory) (fuel : ℕ) where
  -- One entry of the root: whether the loop goes on.
  unfoldable pub root_partition : ℕ → Bool → InstallerResult → Bool × InstallerResult
  root_partition index is_directory r =
      let p = get_or r.partitions index no_partition in
      let found = record r {
        source_partition_count = u32 (suc r.source_partition_count);
        source_directory_count = u32 (suc r.source_directory_count);
      } in
      if not is_directory || p.source_present
      then (false, set_failure r einval p.name (47 ∷ []) (codes "invalid_partition_source_entry"))
      else (
        true,
        change index
            (λ q. record q {
              source_present = true;
              source_directories = u32 (suc q.source_directories);
            })
            found,
      )

  -- An entry by the index of its partition.
  unfoldable pub root_named : Dirent → InstallerResult → Option ℕ → Bool × InstallerResult
  root_named entry r none =
      let (code, noted) = append_unknown memory (entry_name entry) r in
      if is_negative code
      then (false, set_failure noted code [] (47 ∷ []) (codes "allocate_unknown_top_level"))
      else (true, noted)
  root_named entry r (some index) = root_partition index entry.is_directory r

  unfoldable pub root_entry : Dirent → InstallerResult → Bool × InstallerResult
  root_entry entry r =
      let name = entry_name entry in
      let out = root_named entry r (partition_index_from_name r.partitions name) in
      if is_dots name then (true, r) else out

  unfoldable pub root_loop : ℕ → ℤ → InstallerResult → Io io.World (ℤ × InstallerResult)
  root_loop zero fd r w = ((negsuc 4, r), w)
  root_loop (suc left) fd r w =
      let (entry, w') = io.dread fd w in
      elim entry [
        | dread_error n ↦ ((negsuc n, r), w')
        | dread_end ↦ ((pos 0, r), w')
        | dread_entry e ↦
            let (go, r') = root_entry e r in
            let rest = root_loop left fd r' w' in if go then rest else ((pos 1, r'), w')
      ]

  unfoldable pub close_root : ℤ → ℤ → InstallerResult → Io io.World InstallerResult
  close_root fd result r w =
      let last = last_read media result in
      let (closed, w') = io.dclose fd w in
      let r1 = record r {
        source_root_final_read_result = last;
        source_root_close_result = closed;
      } in
      let r2 =
        if is_negative last
        then set_failure r1 last [] (47 ∷ []) (codes "source_root_dread")
        else r1 in
      (
        if is_negative closed
            then set_failure r2 closed [] (47 ∷ []) (codes "source_root_dclose")
            else r2,
        w',
      )

  -- The partitions that are present, one after the other, while there is no failure: `rest` are those
  -- from `index` on.
  unfoldable pub scan_partitions :
      ℕ → List PartitionResult → InstallerResult → Io io.World InstallerResult
  scan_partitions index [] r w = (r, w)
  scan_partitions index (p ∷ rest) r w =
      let (scanned, w') =
        scan_directory io media memory fuel 1024 index p.name true (47 ∷ []) r w in
      let after = if p.source_present then scanned else r in
      let world = if p.source_present then w' else w in
      let out = scan_partitions (suc index) rest after world in
      if not (no_failure r) then (r, w) else out

  unfoldable pub judge_scan : InstallerResult → InstallerResult
  judge_scan r =
      let missing = set_failure r enoent [] (47 ∷ []) (codes "missing_partition_source") in
      let r1 = if r.source_partition_count == length r.partitions then r else missing in
      let empty = set_failure r1 enoent [] (47 ∷ []) (codes "no_source_files") in
      let r2 = if r1.source_file_count == 0 then empty else r1 in
      record r2 { source_scan_valid = no_failure r2 }

  unfoldable pub scan_root : ℤ → InstallerResult → Io io.World InstallerResult
  scan_root fd r w =
      let ((result, listed), w1) = root_loop fuel fd r w in
      let (closed, w2) = close_root fd result listed w1 in
      let (scanned, w3) = scan_partitions 0 closed.partitions closed w2 in (judge_scan scanned, w3)

  unfoldable pub installer_scan_source : InstallerResult → Io io.World InstallerResult
  installer_scan_source r w =
      let (fd, w1) = io.dopen r.source_root w in
      let opened = record r { source_scan_attempted = true; source_root_open_result = fd } in
      let out = scan_root fd opened w1 in
      if is_negative fd
      then (set_failure opened fd [] (47 ∷ []) (codes "source_root_dopen"), w1)
      else out
