-- ===== src/DirectReady40.antt =====
-- src/direct_ready40.c: a disk of the second revision is set up and filled in one run. This file has
-- the result; DirectReady40/Table tests the layouts, DirectReady40/Preflight looks before a run, DirectReady40/Volume formats and checks file
-- systems, DirectReady40/Execute runs the stages. Durations, progress, and the fields `usb_wait_…` and
-- `usb_rescan_count`, which are for src/main.c, are left out.
pub mod Table
pub mod Preflight
pub mod Layout
pub mod Volume
pub mod Execute
use repair_box_psx_hdd_setup.Base.{
  ℕ, zero, suc, ◌+◌, ◌-◌, ◌*◌, ◌%◌, ◌^◌, ℤ, pos, negsuc, is_negative, ◌==ℤ◌, eio, Bool, true, false,
  not, ◌&&◌, ◌||◌, Option, none, some, List, [], ◌∷◌, codes, length, get_or, take, leb, ◌==◌,
  eq_bytes, u32, u64, if◌then◌else◌,
}
use repair_box_psx_hdd_setup.Base.Io.{Io}
use repair_box_psx_hdd_setup.FileXio.{FileXio}
use repair_box_psx_hdd_setup.Drive.{Drive, Mounts}
use repair_box_psx_hdd_setup.Xfrom.Copy.{SourceMedia}
use repair_box_psx_hdd_setup.Storage.{
  Partition, DeviceResult, ModuleResult, Diagnostics, Request, PartitionRead, Devices,
}
use repair_box_psx_hdd_setup.Bootflag.ReadOnly.{
  RoState, ro_normal, RoResult, ro_start, bootflag_ro_inspect,
}
use repair_box_psx_hdd_setup.Bootstrap.Validate.{
  BootstrapResult, BootstrapPaths, bootstrap_initialize, bootstrap_validate_usb,
}
use repair_box_psx_hdd_setup.Installer.{InstallerResult, installer_initialize, installer_release}
use repair_box_psx_hdd_setup.Installer.Scan.{Memory}
use repair_box_psx_hdd_setup.Installer.Scan.Source.{installer_scan_source}

-- DR40_VISIBLE_SECTORS and DR40_NATIVE_MAX
abbrev pub visible_sectors : ℕ
visible_sectors = 0x04A817C8

abbrev pub native_max : ℕ
native_max = 0x1DD80000

pub data Mode : Type 0 where
  mode_stop mode_set_boundary mode_initialize : Mode

pub record Operation : Type 0 where
  pub attempted : Bool
  pub return_value : ℤ
  pub valid : Bool

pub record PfsResult : Type 0 where
  pub name : List ℕ
  pub format_device : List ℕ
  pub blockdev : List ℕ
  pub mountpoint : List ℕ
  pub root_path : List ℕ
  pub zone : ℕ
  pub format : Operation
  pub mount_result : ℤ
  pub mount_preexisting : Bool
  pub mount_owned : Bool
  pub zone_size_result : ℤ
  pub zone_free_result : ℤ
  pub dopen_result : ℤ
  pub final_dread_result : ℤ
  pub dclose_result : ℤ
  pub umount_attempted : Bool
  pub umount_result : ℤ
  pub filesystem_valid : Bool

pub record Snapshot : Type 0 where
  pub hdd_status : ℤ
  pub hdd_formatver : ℤ
  pub hdd_totalsector : ℤ
  pub hdd_maxsector : ℤ
  pub hdd_available : Bool
  pub hdd_entries : ℕ
  pub dvr_status : ℤ
  pub dvr_formatver : ℤ
  pub dvr_totalsector : ℤ
  pub dvr_maxsector : ℤ
  pub dvr_available : Bool
  pub dvr_entries : ℕ
  pub getmaxlba48 : ℤ
  pub islba48 : ℤ

pub record Dr40Result : Type 0 where
  pub mode : Mode
  pub stack_ready : Bool
  pub hardware_profile_valid : Bool
  pub visible_boundary_valid : Bool
  pub bootflag_accessible : Bool
  pub bootflag_normal : Bool
  pub source_ready : Bool
  pub bootstrap_ready : Bool
  pub preflight_valid : Bool
  pub usb_wait_attempted : Bool
  pub usb_ready : Bool
  pub usb_root_last_dopen : ℤ
  pub usb_root_close_result : ℤ
  pub confirmation_received : Bool
  pub session_write_locked : Bool
  pub stopped_on_error : Bool
  pub failed_phase : ℤ
  pub failure_partition : List ℕ
  pub failure_path : List ℕ
  pub failure_operation : List ℕ
  pub failure_return : ℤ
  pub failure_offset : ℕ
  pub failure_requested_bytes : ℕ
  pub failure_actual_bytes : ℤ
  pub power_cycle_required : Bool
  pub dvr_mount_cleanup_attempted : Bool
  pub dvr_pfs0_cleanup_return : ℤ
  pub dvr_pfs1_cleanup_return : ℤ
  pub before : Snapshot
  pub after : Snapshot
  pub bootflag : RoResult
  pub bootstrap : BootstrapResult
  pub installer : InstallerResult
  pub setmax40 : Operation
  pub apa : Operation
  pub system_layout_valid : Bool
  pub normal_pfs : List PfsResult
  pub dvr_hdd : Operation
  pub dvr_layout_valid : Bool
  pub xcontents_end : ℕ
  pub tail_reserved_sectors : ℕ
  pub dvr_pfs : List PfsResult
  pub dvr_directories_valid : Bool
  pub all_package_files_valid : Bool
  pub final_pfs_valid : Bool
  pub final_bootstrap_valid : Bool
  pub direct_ready40_storage_valid : Bool

-- `(u32)value`
abbrev pub unsigned : ℤ → ℕ
unsigned (pos n) = u32 n
unsigned (negsuc n) = u32 (0xffffffff - u32 n)

-- The first failure is kept.
unfoldable pub fail : Dr40Result → ℕ → List ℕ → List ℕ → List ℕ → ℤ → Dr40Result
fail r phase partition path operation value = if r.stopped_on_error then r else record r {
  stopped_on_error = true;
  failed_phase = pos phase;
  failure_return = if value ==ℤ pos 0 then eio else value;
  failure_partition = take 31 partition;
  failure_path = take 1023 path;
  failure_operation = take 63 operation;
}

-- The calls of fileXio on disks and file systems beside those of FileXio, Drive and Mounts.
pub record Volumes (io : FileXio) : Type 0 where
  -- `fileXioMount(mountpoint, blockdev, FIO_MT_RDONLY)`
  pub mount_read_only : List ℕ → List ℕ → Io io.World ℤ
  -- `fileXioDevctl` with PDIOC_ZONESZ and PDIOC_ZONEFREE
  pub zone_size : List ℕ → Io io.World ℤ
  pub zone_free : List ℕ → Io io.World ℤ
  -- `fileXioFormat` of a file system with a zone size, and of a disk
  pub format_pfs : List ℕ → List ℕ → ℕ → Io io.World ℤ
  pub format_disk : List ℕ → Io io.World ℤ
  -- `fileXioDevctl("dvr_hdd0:", HDIOC_SETMAXLBA28, …)`
  pub set_max_lba28 : ℕ → Io io.World ℤ
  -- the calls of the scan of the devices
  pub dread_partition : ℤ → Io io.World PartitionRead
  pub devctl : List ℕ → Request → Io io.World ℤ

-- What the code runs on: the calls of the system, the source medium, the memory, and what the buffers
-- on the stack hold. `fuel` bounds the loops that have no bound in the code.
pub record Console : Type 1 where
  pub io : FileXio
  pub drive : Drive io
  pub mounts : Mounts io
  pub volumes : Volumes io
  pub media : SourceMedia
  pub memory : Memory
  pub paths : BootstrapPaths
  pub psx2_system_root : List ℕ
  -- what src/bootflag_ro.c's static variable says
  pub allow_pending_reinstall : Bool
  pub stack : List ℕ
  pub flag_buffer : List ℕ
  pub samples_buffer : List (List ℕ)
  pub sector_buffer : List ℕ
  pub fuel : ℕ

-- The devices as src/storage.c scans them.
abbrev pub devices_of : Console → Devices
devices_of c = record {
  World = c.io.World;
  dopen = c.io.dopen;
  dread = c.volumes.dread_partition;
  dclose = c.io.dclose;
  devctl = c.volumes.devctl;
  gives_entries = c.memory.gives_elements;
}
