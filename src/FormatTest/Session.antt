-- ===== src/FormatTest/Session.antt =====
-- `format_test_result_t` of include/format_test.h, the record of a formatting session. The fields
-- that the preflight sets are those of `PreflightResult`, those of the clean-up `CleanupResult`.
use repair_box_psx_hdd_setup.Base.{ℕ, ℤ, pos, negsuc, Bool, false, List, [], ◌∷◌, codes}
use repair_box_psx_hdd_setup.FormatTest.{PreflightResult, capacity_64_gb, ready_existing_psx1}

pub record FormatStage : Type 0 where
  pub name : List ℕ
  pub blockdev : List ℕ
  pub attempted : Bool
  pub return_value : ℤ
  pub raw_valid : Bool

pub record CleanupResult : Type 0 where
  pub attempted : Bool
  pub result : ℤ
  pub slots : ℕ
  pub verified_slots : ℕ
  pub failure_lba : ℕ

pub record FormatTestResult : Type 0 where
  pub preflight : PreflightResult
  pub confirmation_received : Bool
  pub session_write_locked : Bool
  pub storage_activity_stopped : Bool
  pub stopped_on_error : Bool
  pub failed_step : ℤ
  pub failed_result : ℤ
  pub apa : FormatStage
  pub post_format_flush_result : ℤ
  pub post_format_scan_attempts : ℕ
  pub recovery_available : Bool
  pub recovery_confirmed : Bool
  pub recovery_cleanup : CleanupResult
  pub pfs : List FormatStage
  pub apa_layout_valid : Bool
  pub mbr_valid : Bool
  pub raw_validation_return : ℤ
  pub raw_pfs_discovery_valid : Bool
  pub psx1_format_test_valid : Bool

abbrev pub new_stage : List ℕ → List ℕ → FormatStage
new_stage name blockdev = record {
  name = name;
  blockdev = blockdev;
  attempted = false;
  return_value = pos 0;
  raw_valid = false;
}

abbrev pub no_cleanup : CleanupResult
no_cleanup = record {
  attempted = false;
  result = pos 0;
  slots = 0;
  verified_slots = 0;
  failure_lba = 0;
}

abbrev no_preflight : PreflightResult
no_preflight = record {
  visible_lba28_sector_count = 0;
  lba48_supported = false;
  lba48_sector_count = 0;
  physical_sector_count = 0;
  physical_bytes = 0;
  capacity_class = capacity_64_gb;
  fileio_usable = false;
  device_readable = false;
  format_module_usable = false;
  usable_module_count = 0;
  pre_format_state = ready_existing_psx1;
  preflight_pass = false;
  capacity_test_valid = false;
}

unfoldable pub format_test_init : FormatTestResult
format_test_init = record {
  preflight = no_preflight;
  confirmation_received = false;
  session_write_locked = false;
  storage_activity_stopped = false;
  stopped_on_error = false;
  failed_step = negsuc 0;
  failed_result = pos 0;
  apa = new_stage (codes "APA") (codes "hdd0:");
  post_format_flush_result = pos 0;
  post_format_scan_attempts = 0;
  recovery_available = false;
  recovery_confirmed = false;
  recovery_cleanup = no_cleanup;
  pfs =
      new_stage (codes "__net") (codes "hdd0:__net")
      ∷ new_stage (codes "__system") (codes "hdd0:__system")
      ∷ new_stage (codes "__sysconf") (codes "hdd0:__sysconf")
      ∷ new_stage (codes "__common") (codes "hdd0:__common")
      ∷ [];
  apa_layout_valid = false;
  mbr_valid = false;
  raw_validation_return = pos 0;
  raw_pfs_discovery_valid = false;
  psx1_format_test_valid = false;
}
