-- ===== src/Tests/Installs.antt =====
-- The theorems on src/installer.c at small media.
use repair_box_psx_hdd_setup.Base.{
  pos, ◌≡◌, refl, ◌⊎◌, inl, ◌==ℤ◌, true, false, [], ◌∷◌, codes, replicate, arith,
}
use repair_box_psx_hdd_setup.Drive.{Drive, Mounts}
use repair_box_psx_hdd_setup.Psx1.{Parts, zero_scan, psx1_prepare}
use repair_box_psx_hdd_setup.Psx1.FormatJob.{Formatter}
use repair_box_psx_hdd_setup.Psx1.Execute.{psx1_execute}
use repair_box_psx_hdd_setup.Psx1.Execute.Stages.{IsInstalled}
use repair_box_psx_hdd_setup.Psx1.Package.Filled.{
  Inspects, installer_parts, IsFilled, psx1_execute-IsFilled,
}
use repair_box_psx_hdd_setup.Xfrom.Copy.{SourceMedia}
use repair_box_psx_hdd_setup.Installer.{
  item_file, AreLeft, PartitionResult, SourceItem, InstallerResult, config, initialize_for_revision,
  installer_initialize_psx1, make_usb_path, make_destination_path,
}
use repair_box_psx_hdd_setup.Installer.Scan.{Memory, item, scan_directory}
use repair_box_psx_hdd_setup.Installer.Scan.Source.{installer_scan_source}
use repair_box_psx_hdd_setup.Installer.Scan.Safe.{IsListing}
use repair_box_psx_hdd_setup.Installer.Scan.Depth.{scan_directory_depth}
use repair_box_psx_hdd_setup.Installer.Scan.Root.{scan_source-IsListing}
use repair_box_psx_hdd_setup.Installer.Copy.{copy_file_once}
use repair_box_psx_hdd_setup.Installer.Copy.Once.{IsPlacedCopy, copy_file_once_verified}
use repair_box_psx_hdd_setup.Installer.Execute.{installer_execute}
use repair_box_psx_hdd_setup.Installer.Execute.Outcome.{IsComplete, installer_execute-IsComplete}
use repair_box_psx_hdd_setup.Tests.Memory.{Disk, memory}
use repair_box_psx_hdd_setup.Tests.Folder.{folder, littered}

abbrev pub stick : SourceMedia
stick = record { is_mmce = false; psx1_xfrom_root = []; psx2_xfrom_root = [] }

abbrev pub plenty : Memory
plenty = record { gives_elements = λ n. true; gives_copy = λ text. true }

abbrev fresh : InstallerResult
fresh = installer_initialize_psx1 (codes "mass:/PSX1")

fresh-IsListing : IsListing 4 fresh
unfolding installer_initialize_psx1 initialize_for_revision
fresh-IsListing =
    (tt, omega arith, omega arith, refl, (inl refl, (inl refl, (inl refl, (inl refl, tt)))), refl)

scan_source-IsListing_example :
    IsListing 4 (installer_scan_source folder stick plenty 10 fresh littered).0
scan_source-IsListing_example =
    scan_source-IsListing folder stick plenty 10 4 fresh littered fresh-IsListing

scan_directory_depth_example :
    scan_directory folder stick plenty 10 1024 2 (codes "__sysconf") true (47 ∷ []) fresh littered
    ≡ scan_directory folder stick plenty 10 5000 2 (codes "__sysconf") true (47 ∷ []) fresh littered
scan_directory_depth_example =
    scan_directory_depth folder stick plenty 10 4 1024 5000 2 (codes "__sysconf") true (47 ∷ [])
      fresh littered (omega arith) (omega arith) (omega arith) (omega arith) (inl refl)
      fresh-IsListing

-- An empty file for one partition.
abbrev empty_file : SourceItem
empty_file = item 0 item_file (codes "/empty.bin") 0

abbrev net : PartitionResult
net = record (config (codes "__net") (codes "hdd0:__net") (codes "pfs0:") false) {
  source_files = 1;
}

abbrev listed : InstallerResult
listed = record (initialize_for_revision (codes "mass:/PSX1") (net ∷ [])) {
  source_scan_valid = true;
  source_file_count = 1;
  items = empty_file ∷ [];
  item_capacity = 128;
  confirmation_received = true;
}

abbrev pub blank_disk : Disk
blank_disk = record { content = []; at = 0 }

abbrev pub mounts : Mounts memory
mounts = record { mount = λ point device d. (pos 0, d); umount = λ point d. (pos 0, d) }

copy_file_once_verified_example :
    ((((copy_file_once memory stick (replicate 64 7) 5 listed net empty_file blank_disk).0.code)
        ==ℤ pos 0)
      ≡ false)
    ⊎ IsPlacedCopy memory stick
        (replicate 64 7)
        5
        empty_file
        (make_usb_path listed.source_root (codes "__net") (codes "/empty.bin"))
        (make_destination_path net (codes "/empty.bin"))
        blank_disk
copy_file_once_verified_example =
    copy_file_once_verified memory stick (replicate 64 7) 5 listed net empty_file blank_disk refl

nothing_installed : (listed.system_files_install_valid ≡ false) × AreLeft listed.partitions
unfolding initialize_for_revision
nothing_installed = (refl, (inl refl, tt))

installer_execute-IsComplete_example :
    let out = (installer_execute memory mounts stick (replicate 64 7) 5 listed blank_disk).0 in
    (out.system_files_install_valid ≡ false)
    ⊎ IsComplete memory mounts stick (replicate 64 7) 5 listed out
installer_execute-IsComplete_example =
    installer_execute-IsComplete memory mounts stick (replicate 64 7) 5 listed blank_disk refl
      nothing_installed.0 nothing_installed.1

-- The pipeline with the installer, over a disk whose files are all empty.
abbrev inspects : Inspects memory
inspects = record {
  inspector_initialize = λ d. (zero_scan, d);
  inspector_scan_layout = λ scan d. (zero_scan, d);
  inspector_scan = λ scan d. (zero_scan, d);
}

abbrev sectors : Drive memory
sectors = record {
  write_sectors = λ lba bytes d. (pos 0, d);
  read_sectors = λ lba count buffer d. ((pos 0, buffer), d);
  flush = λ d. (pos 0, d);
}

abbrev formatter : Formatter memory
formatter = record {
  format_apa = λ d. (pos 0, d);
  format_pfs = λ name d. (pos 0, d);
  create_thread = λ d. (pos 5, d);
  start_thread = λ thread d. (pos 0, d);
  delete_thread = λ thread d. (pos 0, d);
  refer_thread_status = λ thread d. ((pos 0, true), d);
}

abbrev the_parts : Parts memory
the_parts =
    installer_parts memory inspects mounts stick plenty (codes "mass:/PSX1") (replicate 64 7) 5

psx1_execute-IsFilled_example :
    let out =
      (psx1_execute memory the_parts sectors formatter 5
        (psx1_prepare memory the_parts blank_disk).0
        blank_disk).0 in
    (out.psx1_installation_valid ≡ false)
    ⊎ (IsInstalled memory the_parts sectors formatter 5 out
        × IsFilled memory inspects mounts stick plenty
            (codes "mass:/PSX1")
            (replicate 64 7)
            5
            out.installer)
psx1_execute-IsFilled_example =
    psx1_execute-IsFilled memory inspects mounts stick plenty (codes "mass:/PSX1") (replicate 64 7)
      5 sectors formatter 5 blank_disk blank_disk refl
