-- ===== src/Tests/Pipelines.antt =====
-- The theorems on src/psx1_format_test.c and src/psx1_pipeline.c at a drive that is formatted and
-- filled without a fault.
use mathlib.Core.List.{Perm}
use repair_box_psx_hdd_setup.Base.{
  ℕ, ◌≤◌, pos, negsuc, ◌≡◌, refl, ◌⊎◌, ◌↔◌, Bool, true, false, List, [], ◌∷◌, codes, replicate, map,
  arith, eq_bytes,
}
use repair_box_psx_hdd_setup.Base.Stages.{run_stages}
use repair_box_psx_hdd_setup.Inspector.{
  subpart_match, journal_clean, RawPfs, ApaEntry, ModuleResult, InspectorData,
}
use repair_box_psx_hdd_setup.FormatTest.{
  expected_apa, format_test_exact_apa, format_test_mbr_valid, format_test_analyze_preflight,
  format_test_min_visible_sectors, capacity_64_gb, capacity_128_gb, capacity_256_gb,
  capacity_512_gb, classify_capacity, sony_magic, all_once, count_matches, is_expected_entry,
  pfs_clean, format_test_strict_pfs_valid, table_state, state_passes,
}
use repair_box_psx_hdd_setup.FormatTest.Preflight.{preflight_pass_iff, classify_bands}
use repair_box_psx_hdd_setup.FormatTest.Session.{format_test_init}
use repair_box_psx_hdd_setup.FormatTest.Layout.{entry_key, exact_apa_iff}
use repair_box_psx_hdd_setup.Psx1.{
  Parts, Psx1Result, zero_scan, psx1_prepare, psx1_recovery_available,
}
use repair_box_psx_hdd_setup.Psx1.FormatJob.{
  Formatter, run_format_job, end_thread, wait_dormant, format_worker,
}
use repair_box_psx_hdd_setup.Psx1.Execute.{
  psx1_execute_internal, recovery_stage, apa_stage, validate_stage, validate_loop, pfs_stage,
  pfs_loop, raw_stage, install_stage, final_stage, partitions_valid, entry_valid, find_entry,
  installed_pfs_valid, all_true, set_raw_valid, psx1_execute, psx1_execute_recovery,
  validate_apa_after_format,
}
use repair_box_psx_hdd_setup.Psx1.Execute.Stages.{IsBegun, IsFailed, IsInstalled}
use repair_box_psx_hdd_setup.Psx1.Execute.Outcome.{psx1_execute_ends}
use repair_box_psx_hdd_setup.Psx1.Execute.Recovery.{
  IsScanned, recovery_only_once, validate_attempts,
}
use repair_box_psx_hdd_setup.Tests.Disks.{disk, drive}

abbrev clean_pfs : RawPfs
clean_pfs = record {
  applicable = true;
  raw_pfs_read_valid = true;
  pfs_super_valid = true;
  pfs_root_valid = true;
  pfs_structure_valid = true;
  version = 3;
  zone_size = 8192;
  declared_subpartitions = 0;
  available_subpartitions = 0;
  subpartition_class = subpart_match;
  primary_backup_match = true;
  journal_class = journal_clean;
  journal_num = 0;
  root_inode_type_valid = true;
  root_directory_valid = true;
  root_directory_dot_found = true;
  root_directory_dotdot_found = true;
  root_directory_entries_truncated = false;
  root_directory_entries = 2;
}

abbrev entry : List ℕ → ℕ → ℕ → ApaEntry
entry name start size = record {
  name = name;
  start = start;
  size = size;
  pfs_applicable = true;
  raw_pfs = clean_pfs;
}

abbrev working_module : ModuleResult
working_module = record { module_id = pos 1; startup_result = pos 0 }

-- A formatted drive, whose partitions are listed from the last to the first.
abbrev formatted : InspectorData
formatted = record zero_scan {
  modules = replicate 8 working_module;
  hdd_formatver = pos 2;
  hdd_totalsector = pos 0x7735940;
  hdd_available = true;
  apa =
      entry (codes "__common") 0x200000 0x200000
      ∷ entry (codes "__sysconf") 0x100000 0x100000
      ∷ entry (codes "__system") 0x80000 0x80000
      ∷ entry (codes "__net") 0x40000 0x40000
      ∷ entry (codes "__mbr") 0 0x40000
      ∷ [];
  mbr_magic_valid = true;
  mbr_checksum_valid = true;
  mbr_version = 2;
  mbr_magic_text = sony_magic;
}

exact_apa_iff_example : (format_test_exact_apa formatted ≡ true) ↔ (
    (true ≡ true)
    × (false ≡ false)
    × (pos 0 ≡ pos 0)
    × Perm (map entry_key formatted.apa) expected_apa)
exact_apa_iff_example = exact_apa_iff formatted

preflight_pass_iff_example :
    let r = format_test_analyze_preflight formatted in
    (r.preflight_pass ≡ true) ↔ (
      (r.device_readable ≡ true)
      × (r.format_module_usable ≡ true)
      × (format_test_min_visible_sectors ≤ r.physical_sector_count))
preflight_pass_iff_example = preflight_pass_iff formatted

classify_bands_example :
    ((classify_capacity 0x7735940 ≡ capacity_64_gb)
      ↔ ((93750000 ≤ 0x7735940) × (0x7735940 ≤ 156250000)))
    × (((classify_capacity 0x7735940 ≡ capacity_128_gb)
          ↔ ((187500000 ≤ 0x7735940) × (0x7735940 ≤ 312500000)))
        × (((classify_capacity 0x7735940 ≡ capacity_256_gb)
              ↔ ((375000000 ≤ 0x7735940) × (0x7735940 ≤ 625000000)))
            × ((classify_capacity 0x7735940 ≡ capacity_512_gb)
                ↔ ((750000000 ≤ 0x7735940) × (0x7735940 ≤ 1250000000)))))
classify_bands_example = classify_bands 0x7735940

-- An inspector that finds the formatted drive, and an installer whose result says whether it has run.
abbrev parts : Parts disk
parts = record {
  inspector_initialize = λ d. (zero_scan, d);
  inspector_scan_layout = λ scan d. (formatted, d);
  inspector_scan = λ scan d. (formatted, d);
  Package = Bool;
  installer_initialize_psx1 = false;
  installer_scan_source = λ p d. (p, d);
  installer_execute = λ p d. (true, d);
  confirm = λ p. p;
  source_scan_valid = λ p. true;
  system_files_install_valid = λ p. p;
  failure_return = λ p. negsuc 0;
}

abbrev formatter : Formatter disk
formatter = record {
  format_apa = λ d. (pos 0, d);
  format_pfs = λ name d. (pos 0, d);
  create_thread = λ d. (pos 5, d);
  start_thread = λ thread d. (pos 0, d);
  delete_thread = λ thread d. (pos 0, d);
  refer_thread_status = λ thread d. ((pos 0, true), d);
}

abbrev prepared : Psx1Result Bool
prepared = (psx1_prepare disk parts true).0

prepared-IsBegun : IsBegun prepared
unfolding psx1_prepare format_test_init
prepared-IsBegun = ((refl, refl), omega arith)

prepared_valid : prepared.preflight_valid ≡ true
unfolding psx1_prepare format_test_analyze_preflight state_passes table_state format_test_exact_apa
    format_test_mbr_valid all_once count_matches is_expected_entry eq_bytes
prepared_valid = refl

-- The run is a success.
installs :
    (psx1_execute disk parts drive formatter 10 prepared true).0.psx1_installation_valid ≡ true
unfolding psx1_execute psx1_execute_internal run_stages recovery_stage apa_stage validate_stage
    validate_apa_after_format validate_loop run_format_job end_thread wait_dormant format_worker
    pfs_stage pfs_loop raw_stage install_stage final_stage partitions_valid entry_valid find_entry
    installed_pfs_valid pfs_clean format_test_strict_pfs_valid all_true set_raw_valid psx1_prepare
    format_test_init format_test_analyze_preflight state_passes table_state format_test_exact_apa
    format_test_mbr_valid all_once count_matches is_expected_entry eq_bytes
installs = refl

psx1_execute_ends_example :
    let out = (psx1_execute disk parts drive formatter 10 prepared true).0 in
    IsInstalled disk parts drive formatter 10 out ⊎ IsFailed out
psx1_execute_ends_example =
    psx1_execute_ends disk parts drive formatter 10 prepared true prepared-IsBegun prepared_valid

recovery_only_once_example :
    psx1_recovery_available (psx1_execute_recovery disk parts drive formatter 10 prepared true).0
    ≡ false
recovery_only_once_example = recovery_only_once disk parts drive formatter 10 prepared true

validate_attempts_example :
    IsScanned disk parts drive formatter 10 4 0 true
      (validate_apa_after_format disk parts drive formatter 10 prepared true)
validate_attempts_example = validate_attempts disk parts drive formatter 10 prepared true
