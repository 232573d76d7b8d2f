-- ===== src/Xfrom.antt =====
-- src/xfrom_repair.c: the repair of the system files in the console's flash. Reports of progress and
-- durations are left out.
pub mod Cleanup
pub mod Tables
pub mod Copy
pub mod Execute
pub mod Validate
use mathlib.Core.Option
use repair_box_psx_hdd_setup.Base.{
  ℕ, ℤ, pos, negsuc, is_negative, eio, Bool, true, false, List, [], ◌∷◌, ◌++◌, take, replicate,
  codes, if◌then◌else◌,
}

-- XFROM_DEVICE_ROOT, XFROM_SYSTEM_ROOT and XFROM_DESTINATION_PREFIX
abbrev pub xfrom_device_root : List ℕ
xfrom_device_root = codes "xfrom0:/"

abbrev pub xfrom_system_root : List ℕ
xfrom_system_root = codes "xfrom0:/BIEXEC-SYSTEM"

abbrev pub xfrom_destination_prefix : List ℕ
xfrom_destination_prefix = codes "xfrom0:/BIEXEC-SYSTEM/"

-- XFROM_CLEANUP_MAX_FILES and XFROM_REPAIR_PATH_SIZE
abbrev pub xfrom_cleanup_max_files : ℕ
xfrom_cleanup_max_files = 64

abbrev pub xfrom_repair_path_size : ℕ
xfrom_repair_path_size = 192

-- `xfrom_repair_revision_t`; any other value is refused by the code.
pub data Revision : Type 0 where
  psx1 psx2 other_revision : Revision

pub record Entry : Type 0 where
  pub path : List ℕ
  pub expected_sha256 : List ℕ
  pub size : ℕ
  pub source_nested : Bool
  pub deferred_activation : Bool
  pub source_valid : Bool
  pub destination_valid : Bool
  pub write_attempted : Bool

-- `xfrom_repair_result_t`; `files` are the first `file_count` of its entries.
pub record RepairResult : Type 0 where
  pub files : List Entry
  pub total_bytes : ℕ
  pub files_written : ℕ
  pub files_preserved : ℕ
  pub files_deferred : ℕ
  pub revision : Revision
  pub core_files_valid : Bool
  pub source_valid : Bool
  pub xfrom_root_open_result : ℤ
  pub xfrom_root_close_result : ℤ
  pub xfrom_root_accessible : Bool
  pub xfrom_partition_open_result : ℤ
  pub xfrom_partition_close_result : ℤ
  pub xfrom_partition_accessible : Bool
  pub xfrom_partition_missing : Bool
  pub xfrom_partition_created : Bool
  pub cleanup_entries_scanned : ℕ
  pub cleanup_candidates : ℕ
  pub cleanup_removed : ℕ
  pub cleanup_valid : Bool
  pub write_attempted : Bool
  pub repair_valid : Bool
  pub failure_return : ℤ
  pub failure_operation : List ℕ
  pub failure_path : List ℕ

-- The first failure is kept. The texts are cut at the sizes of their fields.
unfoldable pub fail : List ℕ → List ℕ → ℤ → RepairResult → RepairResult
fail operation path return_value result =
    if is_negative result.failure_return then result else record result {
      failure_return = if is_negative return_value then return_value else eio;
      failure_operation = take 47 operation;
      failure_path = take 191 path;
    }

unfoldable pub xfrom_repair_initialize : Revision → RepairResult
xfrom_repair_initialize revision = record {
  files = [];
  total_bytes = 0;
  files_written = 0;
  files_preserved = 0;
  files_deferred = 0;
  revision = revision;
  core_files_valid = false;
  source_valid = false;
  xfrom_root_open_result = negsuc 0;
  xfrom_root_close_result = negsuc 0;
  xfrom_root_accessible = false;
  xfrom_partition_open_result = negsuc 0;
  xfrom_partition_close_result = negsuc 0;
  xfrom_partition_accessible = false;
  xfrom_partition_missing = false;
  xfrom_partition_created = false;
  cleanup_entries_scanned = 0;
  cleanup_candidates = 0;
  cleanup_removed = 0;
  cleanup_valid = false;
  write_attempted = false;
  repair_valid = false;
  failure_return = pos 0;
  failure_operation = [];
  failure_path = [];
}
