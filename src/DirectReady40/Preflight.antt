-- ===== src/DirectReady40/Preflight.antt =====
-- `dr40_initialize` and `dr40_scan_preflight` of src/direct_ready40.c: the result before a run, and what
-- is looked at before it.
use repair_box_psx_hdd_setup.Base.{
  ℕ, ℤ, pos, negsuc, is_negative, ◌==ℤ◌, Bool, true, false, not, ◌&&◌, ◌||◌, List, [], ◌∷◌, codes,
  length, ◌==◌, if◌then◌else◌,
}
use repair_box_psx_hdd_setup.Base.Io.{Io}
use repair_box_psx_hdd_setup.Storage.{ModuleResult, Diagnostics}
use repair_box_psx_hdd_setup.Bootflag.ReadOnly.{
  RoState, ro_normal, RoResult, ro_start, bootflag_ro_inspect,
}
use repair_box_psx_hdd_setup.Bootstrap.Validate.{bootstrap_initialize, bootstrap_validate_usb}
use repair_box_psx_hdd_setup.Installer.{installer_initialize, installer_release}
use repair_box_psx_hdd_setup.Installer.Scan.Source.{installer_scan_source}
use repair_box_psx_hdd_setup.DirectReady40.{
  visible_sectors, native_max, mode_stop, mode_set_boundary, mode_initialize, Operation, PfsResult,
  Snapshot, Dr40Result, unsigned, Console,
}

unfoldable pub take_snapshot : Diagnostics → Snapshot
take_snapshot d = record {
  hdd_status = d.hdd.status_result;
  hdd_formatver = d.hdd.format_version_result;
  hdd_totalsector = d.hdd.total_sectors_result;
  hdd_maxsector = d.hdd.max_partition_sectors_result;
  hdd_available = d.hdd.available;
  hdd_entries = length d.hdd.entries;
  dvr_status = d.dvr_hdd.status_result;
  dvr_formatver = d.dvr_hdd.format_version_result;
  dvr_totalsector = d.dvr_hdd.total_sectors_result;
  dvr_maxsector = d.dvr_hdd.max_partition_sectors_result;
  dvr_available = d.dvr_hdd.available;
  dvr_entries = length d.dvr_hdd.entries;
  getmaxlba48 = d.dvr_hdd.max_lba48_result;
  islba48 = d.dvr_hdd.is_lba48_result;
}

abbrev pub is_positive : ℤ → Bool
is_positive value = not (is_negative value) && not (value ==ℤ pos 0)

unfoldable pub modules_ready : List ModuleResult → Bool
modules_ready [] = true
modules_ready (m ∷ ms) =
    not (is_negative m.module_id) && (not (is_negative m.module_result) && modules_ready ms)

unfoldable pub stack_ready : Diagnostics → Bool
stack_ready d =
    not (is_negative d.filexio_init_result)
    && (is_positive d.cdvd_init_result
        && (is_positive d.notice_game_start_result
            && (not (is_negative d.xfrom_init_result) && modules_ready d.modules)))

unfoldable pub hardware_profile : Snapshot → Bool
hardware_profile s =
    (unsigned s.getmaxlba48 == native_max)
    && ((s.islba48 ==ℤ pos 1)
        && (not (is_negative s.hdd_totalsector)
            && (not (is_negative s.dvr_totalsector) && (s.hdd_totalsector ==ℤ s.dvr_totalsector))))

abbrev initialize_operation : Operation
initialize_operation = record { attempted = false; return_value = negsuc 0; valid = false }

abbrev pub initialize_pfs : List ℕ → List ℕ → List ℕ → List ℕ → List ℕ → ℕ → PfsResult
initialize_pfs name format_device blockdev mountpoint root_path zone = record {
  name = name;
  format_device = format_device;
  blockdev = blockdev;
  mountpoint = mountpoint;
  root_path = root_path;
  zone = zone;
  format = initialize_operation;
  mount_result = negsuc 0;
  mount_preexisting = false;
  mount_owned = false;
  zone_size_result = negsuc 0;
  zone_free_result = negsuc 0;
  dopen_result = negsuc 0;
  final_dread_result = negsuc 0;
  dclose_result = negsuc 0;
  umount_attempted = false;
  umount_result = negsuc 0;
  filesystem_valid = false;
}

abbrev normal_pfs_of : List ℕ → List ℕ → PfsResult
normal_pfs_of name blockdev =
    initialize_pfs name (codes "pfs:") blockdev (codes "pfs0:") (codes "pfs0:/") 8192

abbrev pub normal_targets : List PfsResult
normal_targets =
    normal_pfs_of (codes "__net") (codes "hdd0:__net")
    ∷ normal_pfs_of (codes "__system") (codes "hdd0:__system")
    ∷ normal_pfs_of (codes "__sysconf") (codes "hdd0:__sysconf")
    ∷ normal_pfs_of (codes "__common") (codes "hdd0:__common")
    ∷ []

abbrev pub dvr_targets : List PfsResult
dvr_targets =
    initialize_pfs (codes "__xdata") (codes "dvr_pfs:") (codes "dvr_hdd0:__xdata")
      (codes "dvr_pfs1:") (codes "dvr_pfs1:/") 8192
    ∷ initialize_pfs (codes "__xcontents") (codes "dvr_pfs:") (codes "dvr_hdd0:__xcontents")
        (codes "dvr_pfs0:") (codes "dvr_pfs0:/") 0x00100000
    ∷ []

unfoldable pub dr40_initialize : List ℕ → Diagnostics → Dr40Result
dr40_initialize psx2_system_root diagnostics = record {
  mode = mode_stop;
  stack_ready = false;
  hardware_profile_valid = false;
  visible_boundary_valid = false;
  bootflag_accessible = false;
  bootflag_normal = false;
  source_ready = false;
  bootstrap_ready = false;
  preflight_valid = false;
  usb_wait_attempted = false;
  usb_ready = false;
  usb_root_last_dopen = negsuc 0;
  usb_root_close_result = negsuc 0;
  confirmation_received = false;
  session_write_locked = false;
  stopped_on_error = false;
  failed_phase = negsuc 0;
  failure_partition = [];
  failure_path = [];
  failure_operation = [];
  failure_return = pos 0;
  failure_offset = 0;
  failure_requested_bytes = 0;
  failure_actual_bytes = pos 0;
  power_cycle_required = false;
  dvr_mount_cleanup_attempted = false;
  dvr_pfs0_cleanup_return = negsuc 0;
  dvr_pfs1_cleanup_return = negsuc 0;
  before = take_snapshot diagnostics;
  after = take_snapshot diagnostics;
  -- zeros in the code, which the preflight replaces
  bootflag = ro_start;
  bootstrap = bootstrap_initialize;
  installer = installer_initialize psx2_system_root;
  setmax40 = initialize_operation;
  apa = initialize_operation;
  system_layout_valid = false;
  normal_pfs = normal_targets;
  dvr_hdd = initialize_operation;
  dvr_layout_valid = false;
  xcontents_end = 0;
  tail_reserved_sectors = 0;
  dvr_pfs = dvr_targets;
  dvr_directories_valid = false;
  all_package_files_valid = false;
  final_pfs_valid = false;
  final_bootstrap_valid = false;
  direct_ready40_storage_valid = false;
}

-- `state == BOOTFLAG_RO_NORMAL`
abbrev pub is_normal : RoState → Bool
is_normal ro_normal = true
is_normal _ = false

abbrev pub note_bootflag : RoResult → Dr40Result → Dr40Result
note_bootflag flag r = record r {
  bootflag = flag;
  bootflag_accessible =
      not (is_negative flag.open_result)
      && (not (is_negative flag.final_read_result) && not (is_negative flag.close_result));
  bootflag_normal = is_normal flag.state;
}

-- The mode, once the sources are scanned.
unfoldable pub choose_mode : Dr40Result → Dr40Result
choose_mode r =
    let rooted = not (is_negative r.installer.source_root_open_result) in
    let waited = r.usb_wait_attempted in
    let found = record r {
      mode = mode_initialize;
      usb_ready = rooted || (not (is_negative r.bootstrap.binary_open_result) || r.usb_ready);
      usb_root_last_dopen =
          if rooted && not waited
          then r.installer.source_root_open_result
          else r.usb_root_last_dopen;
      usb_root_close_result =
          if rooted && not waited
          then r.installer.source_root_close_result
          else r.usb_root_close_result;
      preflight_valid = r.source_ready && r.bootstrap_ready;
    } in
    if not r.stack_ready || not r.hardware_profile_valid
    then record r { mode = mode_stop; preflight_valid = false }
    else if not r.visible_boundary_valid
    then record r { mode = mode_set_boundary; preflight_valid = true }
    else found

module _ (c : Console) where
  unfoldable pub dr40_scan_preflight : Dr40Result → Diagnostics → Io c.io.World Dr40Result
  dr40_scan_preflight r diagnostics w =
      let before = take_snapshot diagnostics in
      let (flag, w1) = bootflag_ro_inspect c.io c.flag_buffer c.allow_pending_reinstall w in
      let (scanned, w2) =
        installer_scan_source c.io c.media c.memory c.fuel (installer_initialize c.psx2_system_root)
          w1 in
      let (validated, w3) =
        bootstrap_validate_usb c.io c.media c.paths c.stack c.fuel bootstrap_initialize w2 in
      let noted = note_bootflag flag r in
      (
        choose_mode (record noted {
          before = before;
          stack_ready = stack_ready diagnostics;
          hardware_profile_valid = hardware_profile before;
          visible_boundary_valid =
              (unsigned before.hdd_totalsector == visible_sectors)
              && (unsigned before.dvr_totalsector == visible_sectors);
          installer = scanned;
          source_ready = scanned.source_scan_valid;
          bootstrap = validated;
          bootstrap_ready = validated.validation_valid;
          preflight_valid = false;
        }),
        w3,
      )

unfoldable pub dr40_release : Dr40Result → Dr40Result
dr40_release r = record r { installer = installer_release r.installer }
