-- ===== src/Installer/Scan/Root.antt =====
-- The whole of `installer_scan_source` of src/installer.c: what it lists, and that the depth of the
-- folders ends the walk.
use repair_box_psx_hdd_setup.Base.{
  ℕ, zero, suc, ◌+◌, ◌≤◌, ℤ, is_negative, refl, inl, Bool, true, not, ◌||◌, Option, none, some,
  List, [], ◌∷◌, length, get_or, ◌==◌, if◌then◌else◌, if_intro, arith, enoent, codes,
}
use repair_box_psx_hdd_setup.FileXio.{FileXio, Dirent, is_error, is_end, is_entry, read_cases}
use repair_box_psx_hdd_setup.Xfrom.Copy.{SourceMedia}
use repair_box_psx_hdd_setup.Installer.{
  PartitionResult, InstallerResult, set_failure, no_failure, is_dots,
}
use repair_box_psx_hdd_setup.Installer.Scan.{
  Memory, append_unknown, last_read, entry_name, scan_directory, partition_index_from_name,
}
use repair_box_psx_hdd_setup.Installer.Scan.Source.{
  root_partition, root_named, root_entry, root_loop, close_root, scan_partitions, judge_scan,
  scan_root, installer_scan_source, no_partition,
}
use repair_box_psx_hdd_setup.Installer.Scan.Safe.{
  IsListing, set_failure-IsListing, change-IsListing, append_unknown-IsListing,
}
use repair_box_psx_hdd_setup.Installer.Scan.Folders.{scan_directory-IsListing}

module _ (io : FileXio) (media : SourceMedia) (memory : Memory) (fuel : ℕ) (n : ℕ) where
  root_partition-IsListing :
      (index : ℕ) (is_directory : Bool) (r : InstallerResult)
      → IsListing n r
      → IsListing n (root_partition io media memory fuel index is_directory r).1
  unfolding root_partition
  root_partition-IsListing index is_directory r h =
      let P : Bool × InstallerResult → Type 0 = λ out. IsListing n out.1 in
      if_intro P (not is_directory || (get_or r.partitions index no_partition).source_present) _ _
        (λ _. set_failure-IsListing n r _ _ _ _ h) (λ _. change-IsListing n index _ r (λ p l. l) h)

  root_named-IsListing :
      (entry : Dirent) (r : InstallerResult) (o : Option ℕ)
      → IsListing n r
      → IsListing n (root_named io media memory fuel entry r o).1
  unfolding root_named
  root_named-IsListing entry r none h =
      let P : Bool × InstallerResult → Type 0 = λ out. IsListing n out.1 in
      let noted = append_unknown memory (entry_name entry) r in
      let kept = append_unknown-IsListing memory n (entry_name entry) r h in
      if_intro P (is_negative noted.0) _ _ (λ _. set_failure-IsListing n noted.1 _ _ _ _ kept)
        (λ _. kept)
  root_named-IsListing entry r (some index) h =
      root_partition-IsListing index entry.is_directory r h

  root_entry-IsListing :
      (entry : Dirent) (r : InstallerResult)
      → IsListing n r
      → IsListing n (root_entry io media memory fuel entry r).1
  unfolding root_entry
  root_entry-IsListing entry r h =
      let P : Bool × InstallerResult → Type 0 = λ out. IsListing n out.1 in
      if_intro P (is_dots (entry_name entry)) _ _ (λ _. h)
        (λ _.
          root_named-IsListing entry r (partition_index_from_name r.partitions (entry_name entry))
            h)

  root_loop-IsListing :
      (left : ℕ) (fd : ℤ) (r : InstallerResult) (w : io.World)
      → IsListing n r
      → IsListing n (root_loop io media memory fuel left fd r w).0.1
  unfolding root_loop
  root_loop-IsListing zero fd r w h = h
  root_loop-IsListing (suc left) fd r w h =
      let P : (ℤ × InstallerResult) × io.World → Type 0 = λ out. IsListing n out.0.1 in
      elim (read_cases (io.dread fd w).0) [
        | is_error k e ↦ rw (e, root_loop) h
        | is_end e ↦ rw (e, root_loop) h
        | is_entry entry e ↦
            let one = root_entry io media memory fuel entry r in
            let kept = root_entry-IsListing entry r h in
            rw (e, root_loop)
              (if_intro P one.0 _ _ (λ _. root_loop-IsListing left fd one.1 (io.dread fd w).1 kept)
                (λ _. kept))
      ]

  close_root-IsListing :
      (fd result : ℤ) (r : InstallerResult) (w : io.World)
      → IsListing n r
      → IsListing n (close_root io media memory fuel fd result r w).0
  unfolding close_root
  close_root-IsListing fd result r w h =
      let last = last_read media result in
      let closed = (io.dclose fd w).0 in
      let r1 = record r {
        source_root_final_read_result = last;
        source_root_close_result = closed;
      } in
      let r2 =
        if is_negative last
        then set_failure r1 last [] (47 ∷ []) (codes "source_root_dread")
        else r1 in
      let k2 : IsListing n r2 =
        if_intro (IsListing n) (is_negative last) _ r1 (λ _. set_failure-IsListing n r1 _ _ _ _ h)
          (λ _. h) in
      if_intro (IsListing n) (is_negative closed) _ r2 (λ _. set_failure-IsListing n r2 _ _ _ _ k2)
        (λ _. k2)

  scan_partitions-IsListing :
      (index : ℕ) (rest : List PartitionResult) (r : InstallerResult) (w : io.World)
      → index + length rest ≤ n
      → IsListing n r
      → IsListing n (scan_partitions io media memory fuel index rest r w).0
  unfolding scan_partitions
  scan_partitions-IsListing index [] r w b h = h
  scan_partitions-IsListing index (p ∷ rest) r w b h =
      let P : InstallerResult × io.World → Type 0 = λ out. IsListing n out.0 in
      let scanned = scan_directory io media memory fuel 1024 index p.name true (47 ∷ []) r w in
      let after = if p.source_present then scanned.0 else r in
      let kept : IsListing n after =
        if_intro (IsListing n) p.source_present scanned.0 r
          (λ _.
            scan_directory-IsListing io media memory fuel n 1024 index p.name true (47 ∷ []) r w
              (omega arith) (inl refl) h)
          (λ _. h) in
      if_intro P (not (no_failure r)) _ _ (λ _. h)
        (λ _. scan_partitions-IsListing (suc index) rest after _ (omega arith) kept)

  judge_scan-IsListing :
      (r : InstallerResult) → IsListing n r → IsListing n (judge_scan io media memory fuel r)
  unfolding judge_scan
  judge_scan-IsListing r h =
      let missing = set_failure r enoent [] (47 ∷ []) (codes "missing_partition_source") in
      let r1 = if r.source_partition_count == length r.partitions then r else missing in
      let k1 : IsListing n r1 =
        if_intro (IsListing n) (r.source_partition_count == length r.partitions) r missing (λ _. h)
          (λ _. set_failure-IsListing n r _ _ _ _ h) in
      if_intro (IsListing n) (r1.source_file_count == 0) _ r1
        (λ _. set_failure-IsListing n r1 _ _ _ _ k1) (λ _. k1)

  -- Whatever the medium holds and whatever memory there is, the scan lists only items of the `n`
  -- partitions whose paths consist of safe names, each behind a '/', and are shorter than 1024; and the
  -- lists of items and of unknown names are never longer than the room that was allocated for them. No
  -- partition is mounted, and no success is reported.
  pub scan_source-IsListing :
      (r : InstallerResult) (w : io.World)
      → IsListing n r
      → IsListing n (installer_scan_source io media memory fuel r w).0
  unfolding installer_scan_source scan_root
  scan_source-IsListing r w h =
      let P : InstallerResult × io.World → Type 0 = λ out. IsListing n out.0 in
      let fd = io.dopen r.source_root w in
      let opened = record r { source_scan_attempted = true; source_root_open_result = fd.0 } in
      let loop = root_loop io media memory fuel fuel fd.0 opened fd.1 in
      let listed = root_loop-IsListing fuel fd.0 opened fd.1 h in
      let closed = close_root io media memory fuel fd.0 loop.0.0 loop.0.1 loop.1 in
      let kept = close_root-IsListing fd.0 loop.0.0 loop.0.1 loop.1 listed in
      if_intro P (is_negative fd.0) _ _ (λ _. set_failure-IsListing n opened _ _ _ _ h)
        (λ _.
          judge_scan-IsListing
            (scan_partitions io media memory fuel 0 closed.0.partitions closed.0 closed.1).0
            (scan_partitions-IsListing 0 closed.0.partitions closed.0 closed.1
              (omega (arith, kept.3)) kept))
