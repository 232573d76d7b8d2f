-- ===== src/Installer/Execute.antt =====
-- `ensure_destination_directory`, `install_partition` and `installer_execute` of src/installer.c.
pub mod Task
pub mod Copied
pub mod Outcome
use repair_box_psx_hdd_setup.Base.{
  ℕ, zero, suc, ◌+◌, ℤ, pos, negsuc, is_negative, ◌==ℤ◌, ebusy, enametoolong, Bool, true, false,
  not, ◌&&◌, ◌||◌, Option, none, some, List, [], ◌∷◌, ◌++◌, codes, ◌==◌, u32, take, if◌then◌else◌,
}
use repair_box_psx_hdd_setup.Base.Io.{Io}
use repair_box_psx_hdd_setup.FileXio.{FileXio}
use repair_box_psx_hdd_setup.Drive.{Mounts}
use repair_box_psx_hdd_setup.Xfrom.Copy.{SourceMedia}
use repair_box_psx_hdd_setup.Installer.{
  ItemType, item_directory, item_file, SourceItem, PartitionResult, InstallerResult, set_failure,
  no_failure, make_destination_path,
}
use repair_box_psx_hdd_setup.Installer.Copy.{copy_file}

-- The result and the partition that is being filled, which the code has in the result's array.
abbrev pub Filling : Type 0
Filling = InstallerResult × PartitionResult

module _ (io : FileXio) (mounts : Mounts io) (media : SourceMedia) (stack : List ℕ) (fuel : ℕ) where
  -- The folder is there already where it can be opened; then the partition is as it was.
  unfoldable pub probe_directory : ℤ → List ℕ → Io io.World ℤ
  probe_directory code path w =
      let (fd, w1) = io.dopen path w in
      let (closed, w2) = io.dclose fd w1 in
      if is_negative fd
      then (code, w1)
      else if is_negative closed
      then (closed, w2)
      else (pos 0, w2)

  unfoldable pub make_directory :
      PartitionResult → Option (List ℕ) → Io io.World (ℤ × PartitionResult)
  make_directory partition none w = ((enametoolong, partition), w)
  make_directory partition (some path) w =
      let (made, w1) = io.mkdir path w in
      let (probed, w2) = probe_directory made path w1 in
      let counted = record partition {
        created_directories = u32 (suc partition.created_directories);
      } in
      if is_negative made then ((probed, partition), w2) else ((pos 0, counted), w1)

  unfoldable pub ensure_destination_directory :
      PartitionResult → List ℕ → Io io.World (ℤ × PartitionResult)
  ensure_destination_directory partition relative_path w =
      make_directory partition (make_destination_path partition relative_path) w

  unfoldable pub install_directory : SourceItem → Filling → Io io.World Filling
  install_directory item (r, partition) w =
      let ((code, p'), w') = ensure_destination_directory partition item.relative_path w in
      let failed =
        set_failure r code partition.name item.relative_path
          (codes "create_destination_directory") in
      ((if is_negative code then failed else r, p'), w')

  unfoldable pub install_item : ItemType → SourceItem → Filling → Io io.World Filling
  install_item item_directory item state w = install_directory item state w
  install_item item_file item state w = copy_file io media stack fuel item state w

  -- The items of this partition, while there is no failure.
  unfoldable pub install_items : ℕ → List SourceItem → Filling → Io io.World Filling
  install_items index [] state w = (state, w)
  install_items index (item ∷ items) state w =
      let (one, w1) = install_item item.type item state w in
      let here = item.partition_index == index in
      let after = if here then one else state in
      let world = if here then w1 else w in
      let rest = install_items index items after world in
      if not (no_failure state.0) then (state, w) else rest

  -- A mount of this call is taken back.
  unfoldable pub unmount : Filling → Io io.World Filling
  unmount (r, partition) w =
      let (code, w') = mounts.umount partition.mountpoint w in
      let p' = record partition { umount_attempted = true; umount_result = code } in
      let failed =
        set_failure (record r { all_unmounted_cleanly = false }) code partition.name (47 ∷ [])
          (codes "umount") in
      if not partition.mount_owned
      then ((r, partition), w)
      else ((if is_negative code then failed else r, p'), w')

  unfoldable pub fill_partition : ℕ → Filling → Io io.World Filling
  fill_partition index (r, partition) w =
      let (filled, w1) = install_items index r.items (r, partition) w in unmount filled w1

  -- A partition that was mounted before is used where its root can be opened.
  unfoldable pub use_mounted : ℕ → Filling → Io io.World Filling
  use_mounted index (r, partition) w =
      let (fd, w1) = io.dopen (take 31 (partition.root_prefix ++ (47 ∷ []))) w in
      let (closed, w2) = io.dclose fd w1 in
      let probed = record partition { mount_preexisting = true; mount_probe_result = fd } in
      let found = record probed { mount_probe_close_result = closed } in
      let filled = fill_partition index (r, found) w2 in
      if is_negative fd
      then (
        (set_failure r fd partition.name (47 ∷ []) (codes "probe_preexisting_mount"), probed),
        w1,
      )
      else if is_negative closed
      then (
        (set_failure r closed partition.name (47 ∷ []) (codes "probe_preexisting_mount"), found),
        w2,
      )
      else filled

  unfoldable pub install_partition : ℕ → Filling → Io io.World Filling
  install_partition index (r, partition) w =
      let (code, w1) = mounts.mount partition.mountpoint partition.blockdev w in
      let tried = record partition { mount_attempted = true; mount_result = code } in
      let owned = fill_partition index (r, record tried { mount_owned = true }) w1 in
      let mounted = use_mounted index (r, tried) w1 in
      if not (is_negative code)
      then owned
      else if partition.allow_preexisting_mount && (code ==ℤ ebusy)
      then mounted
      else ((set_failure r code partition.name (47 ∷ []) (codes "mount_rw"), tried), w1)

  -- The partitions with files, one after the other, while there is no failure; `done` are those before
  -- `index`.
  unfoldable pub install_loop :
      ℕ
      → List PartitionResult
      → List PartitionResult
      → InstallerResult
      → Io io.World InstallerResult
  install_loop index done [] r w = (record r { partitions = done }, w)
  install_loop index done (p ∷ rest) r w =
      let ((r', p'), w') = install_partition index (r, p) w in
      let skip = p.source_files == 0 in
      let after = if skip then r else r' in
      let filled = if skip then p else p' in
      let world = if skip then w else w' in
      let out = install_loop (suc index) (done ++ (filled ∷ [])) rest after world in
      if not (no_failure r) then (record r { partitions = done ++ (p ∷ rest) }, w) else out

  unfoldable pub verified_total : List PartitionResult → ℕ
  verified_total [] = 0
  verified_total (p ∷ ps) = u32 (p.verified_files + verified_total ps)

  unfoldable pub judge_install : InstallerResult → InstallerResult
  judge_install r = record r {
    system_files_install_valid =
        no_failure r
        && (r.all_unmounted_cleanly && (verified_total r.partitions == r.source_file_count));
  }

  unfoldable pub installer_execute : InstallerResult → Io io.World InstallerResult
  installer_execute r w =
      let started = record r {
        session_write_locked = true;
        install_attempted = true;
        all_unmounted_cleanly = true;
      } in
      let (installed, w') = install_loop 0 [] r.partitions started w in
      if not (r.preflight_failure_mask == 0)
        || (not r.source_scan_valid || (not r.confirmation_received || r.session_write_locked))
      then (r, w)
      else (judge_install installed, w')
