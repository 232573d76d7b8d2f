-- ===== src/FormatTest.antt =====
-- src/psx1_format_test.c: what the scan of a drive says about formatting it as a PSX1 disk, and the
-- checks of a formatted disk. Durations are left out.
pub mod Preflight
pub mod Keys
pub mod Layout
pub mod Session
use repair_box_psx_hdd_setup.Base.{
  ℕ, suc, ◌+◌, ◌*◌, ◌/◌, ℤ, pos, negsuc, is_negative, Bool, true, false, not, ◌&&◌, ◌||◌, List, [],
  ◌∷◌, length, get_or, codes, ltb, leb, ◌==◌, ◌==ℤ◌, eq_bytes, take, u64, if◌then◌else◌,
}
use repair_box_psx_hdd_setup.Inspector.{
  subpart_match, SubpartitionClass, journal_clean, JournalClass, RawPfs, ApaEntry, ModuleResult,
  InspectorData,
}

pub data MediaCapacityClass : Type 0 where
  capacity_64_gb capacity_128_gb capacity_256_gb capacity_512_gb capacity_setmax_hidden :
      MediaCapacityClass
  capacity_other : MediaCapacityClass

pub data PreFormatState : Type 0 where
  ready_existing_psx1 unformatted unknown_partitioning invalid_apa : PreFormatState
  unsupported_physical_device too_small device_io_error : PreFormatState

pub record ExpectedApa : Type 0 where
  pub name : List ℕ
  pub start : ℕ
  pub size : ℕ

abbrev pub expected : List ℕ → ℕ → ℕ → ExpectedApa
expected name start size = record { name = name; start = start; size = size }

abbrev pub expected_apa : List ExpectedApa
expected_apa =
    expected (codes "__mbr") 0 0x40000
    ∷ expected (codes "__net") 0x40000 0x40000
    ∷ expected (codes "__system") 0x80000 0x80000
    ∷ expected (codes "__sysconf") 0x100000 0x100000
    ∷ expected (codes "__common") 0x200000 0x200000
    ∷ []

-- The loop over the entries of the table, which counts those that are the expected one.
unfoldable pub is_expected_entry : ExpectedApa → ApaEntry → Bool
is_expected_entry e entry =
    eq_bytes entry.name e.name && ((entry.start == e.start) && (entry.size == e.size))

unfoldable pub count_matches : ExpectedApa → List ApaEntry → ℕ
count_matches e [] = 0
count_matches e (entry ∷ entries) =
    let rest = count_matches e entries in if is_expected_entry e entry then suc rest else rest

unfoldable pub all_once : List ExpectedApa → List ApaEntry → Bool
all_once [] entries = true
all_once (e ∷ es) entries = (count_matches e entries == 1) && all_once es entries

unfoldable pub format_test_exact_apa : InspectorData → Bool
format_test_exact_apa scan =
    if not scan.hdd_available
      || (scan.apa_overflow
          || (not (scan.hdd_final_dread_result ==ℤ pos 0) || not (length scan.apa == 5)))
    then false
    else all_once expected_apa scan.apa

abbrev pub sony_magic : List ℕ
sony_magic = codes "Sony Computer Entertainment Inc."

unfoldable pub format_test_mbr_valid : InspectorData → Bool
format_test_mbr_valid scan =
    not (is_negative scan.mbr_read_result)
    && (scan.mbr_magic_valid
        && (scan.mbr_checksum_valid
            && ((scan.mbr_version == 2)
                && ((scan.mbr_osd_start == 0)
                    && ((scan.mbr_osd_size == 0)
                        && eq_bytes (take 32 scan.mbr_magic_text) sony_magic)))))

abbrev pub is_match : SubpartitionClass → Bool
is_match subpart_match = true
is_match _ = false

abbrev pub is_clean : JournalClass → Bool
is_clean journal_clean = true
is_clean _ = false

-- What `format_test_strict_pfs_valid` and `installed_pfs_valid` of src/psx1_pipeline.c have in
-- common: all tests but that of the number of entries of the root.
unfoldable pub pfs_clean : ApaEntry → Bool
pfs_clean entry =
    let pfs = entry.raw_pfs in
    entry.pfs_applicable
    && (pfs.applicable
        && (pfs.raw_pfs_read_valid
            && (pfs.pfs_super_valid
                && (pfs.pfs_root_valid
                    && (pfs.pfs_structure_valid
                        && ((pfs.version == 3)
                            && ((pfs.zone_size == 8192)
                                && ((pfs.declared_subpartitions == 0)
                                    && ((pfs.available_subpartitions == 0)
                                        && (is_match pfs.subpartition_class
                                            && (pfs.primary_backup_match
                                                && (is_clean pfs.journal_class
                                                    && ((pfs.journal_num == 0)
                                                        && (pfs.root_inode_type_valid
                                                            && (pfs.root_directory_valid
                                                            && (pfs.root_directory_dot_found
                                                            && (pfs.root_directory_dotdot_found
                                                            && not
                                                            pfs.root_directory_entries_truncated)))))))))))))))))

unfoldable pub format_test_strict_pfs_valid : ApaEntry → Bool
format_test_strict_pfs_valid entry = pfs_clean entry && (entry.raw_pfs.root_directory_entries == 2)

unfoldable pub within_nominal : ℕ → ℕ → Bool
within_nominal sectors nominal =
    leb (u64 (nominal * 3) / 4) sectors && leb sectors (u64 (nominal * 5) / 4)

unfoldable pub classify_capacity : ℕ → MediaCapacityClass
classify_capacity sectors =
    if within_nominal sectors 125000000
    then capacity_64_gb
    else if within_nominal sectors 250000000
    then capacity_128_gb
    else if within_nominal sectors 500000000
    then capacity_256_gb
    else if within_nominal sectors 1000000000
    then capacity_512_gb
    else capacity_other

-- The fields of `format_test_result_t` that the preflight sets. `module_usable[0]` and `[1]` are
-- `fileio_usable`, `[2]`, `[3]` and `[4]` are `device_readable`.
pub record PreflightResult : Type 0 where
  pub visible_lba28_sector_count : ℕ
  pub lba48_supported : Bool
  pub lba48_sector_count : ℕ
  pub physical_sector_count : ℕ
  pub physical_bytes : ℕ
  pub capacity_class : MediaCapacityClass
  pub fileio_usable : Bool
  pub device_readable : Bool
  pub format_module_usable : Bool
  pub usable_module_count : ℕ
  pub pre_format_state : PreFormatState
  pub preflight_pass : Bool
  pub capacity_test_valid : Bool

-- FORMAT_TEST_MIN_VISIBLE_SECTORS
abbrev pub format_test_min_visible_sectors : ℕ
format_test_min_visible_sectors = 0x04A817C8

abbrev pub no_module : ModuleResult
no_module = record { module_id = negsuc 0; startup_result = negsuc 0 }

abbrev bit : Bool → ℕ
bit b = if b then 1 else 0

-- The state of a readable device with a usable formatter and enough sectors.
unfoldable pub table_state : ℤ → Bool → Bool → ℕ → PreFormatState
table_state formatver exact_apa mbr_valid apa_count =
    if (formatver ==ℤ pos 2) && (exact_apa && mbr_valid)
    then ready_existing_psx1
    else if (formatver ==ℤ pos 0) && (apa_count == 0)
    then unformatted
    else if formatver ==ℤ pos 2
    then invalid_apa
    else unknown_partitioning

unfoldable pub state_passes : PreFormatState → Bool
state_passes ready_existing_psx1 = true
state_passes unformatted = true
state_passes unknown_partitioning = true
state_passes invalid_apa = true
state_passes _ = false

-- `value > 0 ? (u32)value : 0`; a positive `int` is its own `u32`.
abbrev pub positive : ℤ → ℕ
positive (pos n) = n
positive (negsuc n) = 0

unfoldable pub format_test_analyze_preflight : InspectorData → PreflightResult
format_test_analyze_preflight scan =
    let visible = positive scan.hdd_totalsector in
    let lba48 = (scan.hdd_islba48 ==ℤ pos 1) && ltb 0 (positive scan.hdd_getmaxlba48) in
    let sectors48 = if lba48 then positive scan.hdd_getmaxlba48 else 0 in
    let physical = if lba48 then sectors48 else visible in
    let fileio = not (is_negative scan.filexio_init_result) in
    let hdd_io = fileio && (not (is_negative scan.hdd_status) && ltb 0 visible) in
    let formatter = get_or scan.modules 5 no_module in
    let usable5 =
      not (is_negative formatter.module_id) && not (is_negative formatter.startup_result) in
    let state =
      if not hdd_io
      then device_io_error
      else if not usable5
      then unsupported_physical_device
      else if ltb physical format_test_min_visible_sectors
      then too_small
      else table_state scan.hdd_formatver (format_test_exact_apa scan) (format_test_mbr_valid scan)
          (length scan.apa) in
    record {
      visible_lba28_sector_count = visible;
      lba48_supported = lba48;
      lba48_sector_count = sectors48;
      physical_sector_count = physical;
      physical_bytes = u64 (physical * 512);
      capacity_class = classify_capacity physical;
      fileio_usable = fileio;
      device_readable = hdd_io;
      format_module_usable = usable5;
      usable_module_count = 2 * bit fileio + 3 * bit hdd_io + bit usable5;
      pre_format_state = state;
      preflight_pass = state_passes state;
      capacity_test_valid = state_passes state;
    }

unfoldable pub format_test_preflight : InspectorData → Bool
format_test_preflight scan = (format_test_analyze_preflight scan).preflight_pass
