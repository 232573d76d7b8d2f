-- ===== src/Installer.antt =====
-- src/installer.c: the system files are found on the source medium (Installer/Scan), copied to the
-- partitions of the disk and verified (Installer/Copy, Installer/Execute). This file has the result,
-- the tables and the paths. A text is the list of its bytes. The fields `current_…` and `progress_…`,
-- which are for the screen, and the durations are left out; `partition_count` and `item_count` are the
-- lengths of the lists.
pub mod Scan
pub mod Copy
pub mod Execute
use repair_box_psx_hdd_setup.Base.{
  ℕ, zero, suc, ℤ, ◌≡◌, ◌⊎◌, is_negative, pos, negsuc, ◌==ℤ◌, eio, Bool, true, false, not, ◌&&◌,
  ◌||◌, Option, none, some, List, [], ◌∷◌, ◌++◌, codes, length, take, ltb, leb, ◌==◌, eq_bytes,
  if◌then◌else◌,
}

pub data ItemType : Type 0 where
  item_directory item_file : ItemType

pub record SourceItem : Type 0 where
  pub partition_index : ℕ
  pub type : ItemType
  pub relative_path : List ℕ
  pub size : ℕ

pub record PartitionResult : Type 0 where
  pub name : List ℕ
  pub blockdev : List ℕ
  pub mountpoint : List ℕ
  pub root_prefix : List ℕ
  pub allow_preexisting_mount : Bool
  pub source_present : Bool
  pub source_open_result : ℤ
  pub source_final_read_result : ℤ
  pub source_close_result : ℤ
  pub source_directories : ℕ
  pub source_files : ℕ
  pub source_bytes : ℕ
  pub mount_attempted : Bool
  pub mount_result : ℤ
  pub mount_preexisting : Bool
  pub mount_owned : Bool
  pub mount_probe_result : ℤ
  pub mount_probe_close_result : ℤ
  pub umount_attempted : Bool
  pub umount_result : ℤ
  pub created_directories : ℕ
  pub copied_files : ℕ
  pub copied_bytes : ℕ
  pub verified_files : ℕ

-- The fields `failure_…`.
pub record Failure : Type 0 where
  pub return_value : ℤ
  pub offset : ℕ
  pub attempt : ℕ
  pub partition : List ℕ
  pub path : List ℕ
  pub operation : List ℕ

pub record InstallerResult : Type 0 where
  pub source_root : List ℕ
  pub preflight_failure_mask : ℕ
  pub source_scan_attempted : Bool
  pub source_scan_valid : Bool
  pub source_root_open_result : ℤ
  pub source_root_final_read_result : ℤ
  pub source_root_close_result : ℤ
  pub source_partition_count : ℕ
  pub source_directory_count : ℕ
  pub source_file_count : ℕ
  pub source_total_bytes : ℕ
  pub copy_retry_count : ℕ
  pub total_completed_file_bytes : ℕ
  pub unknown_top_level_names : List (List ℕ)
  pub unknown_top_level_capacity : ℕ
  pub items : List SourceItem
  pub item_capacity : ℕ
  pub partitions : List PartitionResult
  pub confirmation_received : Bool
  pub install_attempted : Bool
  pub session_write_locked : Bool
  pub all_unmounted_cleanly : Bool
  pub system_files_install_valid : Bool
  pub failure : Failure

-- A partition was left as it was found: not mounted by the program, or unmounted.
abbrev pub IsLeft : PartitionResult → Type 0
IsLeft p =
    (p.mount_owned ≡ false) ⊎ ((p.umount_attempted ≡ true) × (is_negative p.umount_result ≡ false))

abbrev pub AreLeft : List PartitionResult → Type 0
AreLeft [] = Unit {0}
AreLeft (p ∷ ps) = IsLeft p × AreLeft ps

-- The first failure is kept; `snprintf` cuts the texts to the sizes of the buffers.
unfoldable pub set_failure : InstallerResult → ℤ → List ℕ → List ℕ → List ℕ → InstallerResult
set_failure r value partition path operation =
    if not (r.failure.return_value ==ℤ pos 0) then r else record r {
      failure = record r.failure {
        return_value = if value ==ℤ pos 0 then eio else value;
        partition = take 31 partition;
        path = take 1023 path;
        operation = take 63 operation;
      };
    }

abbrev pub no_failure : InstallerResult → Bool
no_failure r = r.failure.return_value ==ℤ pos 0

abbrev pub config : List ℕ → List ℕ → List ℕ → Bool → PartitionResult
config name blockdev mountpoint preexisting = record {
  name = name;
  blockdev = blockdev;
  mountpoint = mountpoint;
  root_prefix = mountpoint;
  allow_preexisting_mount = preexisting;
  source_present = false;
  source_open_result = negsuc 0;
  source_final_read_result = negsuc 0;
  source_close_result = negsuc 0;
  source_directories = 0;
  source_files = 0;
  source_bytes = 0;
  mount_attempted = false;
  mount_result = negsuc 0;
  mount_preexisting = false;
  mount_owned = false;
  mount_probe_result = negsuc 0;
  mount_probe_close_result = negsuc 0;
  umount_attempted = false;
  umount_result = negsuc 0;
  created_directories = 0;
  copied_files = 0;
  copied_bytes = 0;
  verified_files = 0;
}

-- The four partitions that both revisions have; the root prefix is the mount point.
abbrev pub psx1_partitions : List PartitionResult
psx1_partitions =
    config (codes "__net") (codes "hdd0:__net") (codes "pfs0:") false
    ∷ config (codes "__system") (codes "hdd0:__system") (codes "pfs0:") false
    ∷ config (codes "__sysconf") (codes "hdd0:__sysconf") (codes "pfs0:") false
    ∷ config (codes "__common") (codes "hdd0:__common") (codes "pfs0:") false
    ∷ []

abbrev pub psx2_partitions : List PartitionResult
psx2_partitions =
    psx1_partitions
    ++ (config (codes "__xdata") (codes "dvr_hdd0:__xdata") (codes "dvr_pfs1:") true
        ∷ config (codes "__xcontents") (codes "dvr_hdd0:__xcontents") (codes "dvr_pfs0:") true
        ∷ [])

unfoldable pub initialize_for_revision : List ℕ → List PartitionResult → InstallerResult
initialize_for_revision source_root partitions = record {
  source_root = source_root;
  preflight_failure_mask = 0;
  source_scan_attempted = false;
  source_scan_valid = false;
  source_root_open_result = negsuc 0;
  source_root_final_read_result = negsuc 0;
  source_root_close_result = negsuc 0;
  source_partition_count = 0;
  source_directory_count = 0;
  source_file_count = 0;
  source_total_bytes = 0;
  copy_retry_count = 0;
  total_completed_file_bytes = 0;
  unknown_top_level_names = [];
  unknown_top_level_capacity = 0;
  items = [];
  item_capacity = 0;
  partitions = partitions;
  confirmation_received = false;
  install_attempted = false;
  session_write_locked = false;
  all_unmounted_cleanly = true;
  system_files_install_valid = false;
  failure = record {
    return_value = pos 0;
    offset = 0;
    attempt = 0;
    partition = [];
    path = [];
    operation = [];
  };
}

-- The roots are what src/source_media.c answers.
unfoldable pub installer_initialize : List ℕ → InstallerResult
installer_initialize psx2_system_root = initialize_for_revision psx2_system_root psx2_partitions

unfoldable pub installer_initialize_psx1 : List ℕ → InstallerResult
installer_initialize_psx1 psx1_system_root =
    initialize_for_revision psx1_system_root psx1_partitions

unfoldable pub installer_release : InstallerResult → InstallerResult
installer_release r = record r {
  items = [];
  item_capacity = 0;
  unknown_top_level_names = [];
  unknown_top_level_capacity = 0;
}

-- INSTALLER_PATH_SIZE is 1024; `none` is -ENAMETOOLONG.
abbrev path_that_fits : List ℕ → Option (List ℕ)
path_that_fits path = if ltb (length path) 1024 then some path else none

unfoldable pub append_component : List ℕ → List ℕ → Option (List ℕ)
append_component parent name =
    path_that_fits (if eq_bytes parent (47 ∷ []) then 47 ∷ name else parent ++ (47 ∷ name))

unfoldable pub make_usb_path : List ℕ → List ℕ → List ℕ → Option (List ℕ)
make_usb_path source_root partition relative_path =
    path_that_fits (source_root ++ (47 ∷ (partition ++ relative_path)))

unfoldable pub make_destination_path : PartitionResult → List ℕ → Option (List ℕ)
make_destination_path partition relative_path =
    path_that_fits (partition.root_prefix ++ relative_path)

-- A character that a name may have: no control character, '/', '\' or ':'.
abbrev safe_character : ℕ → Bool
safe_character c = not (ltb c 0x20 || ((c == 0x7f) || ((c == 47) || ((c == 92) || (c == 58)))))

unfoldable pub all_safe : List ℕ → Bool
all_safe [] = true
all_safe (c ∷ cs) = safe_character c && all_safe cs

abbrev dots : ℕ → List ℕ
dots zero = []
dots (suc n) = 46 ∷ dots n

abbrev pub is_dots : List ℕ → Bool
is_dots name = eq_bytes name (dots 1) || eq_bytes name (dots 2)

unfoldable pub safe_component : List ℕ → Bool
safe_component name = not (eq_bytes name [] || is_dots name) && all_safe name
