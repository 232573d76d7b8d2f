-- ===== src/Psx1.antt =====
-- src/psx1_pipeline.c: a disk is formatted and filled for the first revision of the console.
-- Durations, delays and the screen are left out, and so are the fields `usb_…` of the result, which
-- src/main.c uses.
pub mod Cleanup
pub mod FormatJob
pub mod Execute
pub mod Package
use repair_box_psx_hdd_setup.Base.{
  ℕ, ℤ, pos, negsuc, Bool, true, false, not, ◌&&◌, ◌||◌, List, [], ◌∷◌, leb, map, if◌then◌else◌,
  is_negative, ◌==ℤ◌,
}
use repair_box_psx_hdd_setup.Base.Io.{Io}
use repair_box_psx_hdd_setup.FileXio.{FileXio}
use repair_box_psx_hdd_setup.Inspector.{InspectorData}
use repair_box_psx_hdd_setup.FormatTest.{
  MediaCapacityClass, capacity_64_gb, capacity_128_gb, capacity_256_gb, capacity_512_gb,
  capacity_setmax_hidden, capacity_other, PreflightResult, format_test_analyze_preflight,
}
use repair_box_psx_hdd_setup.FormatTest.Session.{FormatTestResult, format_test_init}

-- What the pipeline uses of src/psx1_inspector.c and src/installer.c. `Package` is the installer's
-- result, initialised for this revision.
pub record Parts (io : FileXio) : Type 1 where
  pub inspector_initialize : Io io.World InspectorData
  pub inspector_scan_layout : InspectorData → Io io.World InspectorData
  pub inspector_scan : InspectorData → Io io.World InspectorData
  pub Package : Type 0
  pub installer_initialize_psx1 : Package
  pub installer_scan_source : Package → Io io.World Package
  pub installer_execute : Package → Io io.World Package
  pub confirm : Package → Package
  pub source_scan_valid : Package → Bool
  pub system_files_install_valid : Package → Bool
  pub failure_return : Package → ℤ

pub record Psx1Result (Package : Type 0) : Type 0 where
  pub before : InspectorData
  pub formatted : InspectorData
  pub final_layout : InspectorData
  pub format : FormatTestResult
  pub installer : Package
  pub package_ready : Bool
  pub preflight_valid : Bool
  pub hardware_verified_profile : Bool
  pub final_apa_valid : Bool
  pub final_mbr_valid : Bool
  pub final_pfs_valid : List Bool
  pub final_raw_pfs_valid : Bool
  pub all_package_files_valid : Bool
  pub psx1_storage_valid : Bool
  pub psx1_installation_valid : Bool

-- `memset` with zeros, of the fields that a scan has here.
abbrev pub zero_scan : InspectorData
zero_scan = record {
  filexio_init_result = pos 0;
  modules = [];
  hdd_status = pos 0;
  hdd_formatver = pos 0;
  hdd_totalsector = pos 0;
  hdd_getmaxlba48 = pos 0;
  hdd_islba48 = pos 0;
  hdd_final_dread_result = pos 0;
  hdd_available = false;
  apa_overflow = false;
  apa = [];
  mbr_read_result = pos 0;
  mbr_magic_valid = false;
  mbr_checksum_valid = false;
  mbr_version = 0;
  mbr_osd_start = 0;
  mbr_osd_size = 0;
  mbr_magic_text = [];
}

abbrev pub reset_scan : InspectorData
reset_scan = record zero_scan {
  hdd_status = negsuc 0;
  hdd_formatver = negsuc 0;
  hdd_totalsector = negsuc 0;
  hdd_getmaxlba48 = negsuc 0;
  hdd_islba48 = negsuc 0;
  mbr_read_result = negsuc 0;
}

abbrev is_other : MediaCapacityClass → Bool
is_other capacity_other = true
is_other _ = false

abbrev is_verified : MediaCapacityClass → Bool
is_verified capacity_64_gb = true
is_verified capacity_128_gb = true
is_verified capacity_256_gb = true
is_verified _ = false

-- A size within a tenth of 78125000 sectors that is in no class.
unfoldable pub hidden_class : PreflightResult → MediaCapacityClass
hidden_class p =
    if is_other p.capacity_class
      && (leb 70312500 p.physical_sector_count && leb p.physical_sector_count 85937500)
    then capacity_setmax_hidden
    else p.capacity_class

module _ (io : FileXio) (parts : Parts io) where
  unfoldable pub psx1_prepare : Io io.World (Psx1Result parts.Package)
  psx1_prepare w =
      let (initial, w1) = parts.inspector_initialize w in
      let (before, w2) = parts.inspector_scan_layout initial w1 in
      let preflight = format_test_analyze_preflight before in
      let capacity = hidden_class preflight in
      let (scanned, w3) = parts.installer_scan_source parts.installer_initialize_psx1 w2 in
      let ready = parts.source_scan_valid scanned in
      (
        record {
          before = before;
          formatted = zero_scan;
          final_layout = zero_scan;
          format = record format_test_init {
            preflight = record preflight { capacity_class = capacity };
          };
          installer = scanned;
          package_ready = ready;
          preflight_valid = preflight.preflight_pass && ready;
          hardware_verified_profile = is_verified capacity;
          final_apa_valid = false;
          final_mbr_valid = false;
          final_pfs_valid = false ∷ false ∷ false ∷ false ∷ [];
          final_raw_pfs_valid = false;
          all_package_files_valid = false;
          psx1_storage_valid = false;
          psx1_installation_valid = false;
        },
        w3,
      )

  -- `installer_release` gives the memory of the old scan back.
  unfoldable pub psx1_rescan_package :
      Psx1Result parts.Package → Io io.World (Psx1Result parts.Package)
  psx1_rescan_package r w =
      let (scanned, w') = parts.installer_scan_source parts.installer_initialize_psx1 w in
      let ready = parts.source_scan_valid scanned in
      (
        record r {
          installer = scanned;
          package_ready = ready;
          preflight_valid = r.format.preflight.preflight_pass && ready;
        },
        w',
      )

unfoldable pub psx1_recovery_available : {Package : Type 0} → Psx1Result Package → Bool
psx1_recovery_available r =
    r.format.recovery_available
    && (r.format.apa.attempted
        && (not (is_negative r.format.apa.return_value) && (r.format.failed_step ==ℤ pos 1)))
