-- ===== src/Psx1/Execute.antt =====
-- `psx1_execute` and `psx1_execute_recovery` of src/psx1_pipeline.c: the stages of an installation,
-- each of which is entered only where the ones before it have succeeded.
pub mod Stages
pub mod Outcome
pub mod Recovery
use repair_box_psx_hdd_setup.Base.{
  ℕ, zero, suc, ◌+◌, ℤ, pos, negsuc, is_negative, Bool, true, false, not, ◌&&◌, ◌||◌, Option, none,
  some, List, [], ◌∷◌, ◌++◌, map, replicate, length, eq_bytes, ◌==◌, leb, if◌then◌else◌,
}
use repair_box_psx_hdd_setup.Base.Io.{Io}
use repair_box_psx_hdd_setup.Base.Stages.{Step, run_stages}
use repair_box_psx_hdd_setup.FileXio.{FileXio}
use repair_box_psx_hdd_setup.Drive.{Drive}
use repair_box_psx_hdd_setup.Inspector.{ApaEntry, InspectorData}
use repair_box_psx_hdd_setup.FormatTest.{
  format_test_exact_apa, format_test_mbr_valid, format_test_strict_pfs_valid, pfs_clean,
}
use repair_box_psx_hdd_setup.FormatTest.Session.{
  FormatStage, FormatTestResult, CleanupResult, new_stage,
}
use repair_box_psx_hdd_setup.Psx1.{Parts, Psx1Result, reset_scan, psx1_recovery_available}
use repair_box_psx_hdd_setup.Psx1.Cleanup.{cleanup_old_apa_headers}
use repair_box_psx_hdd_setup.Psx1.FormatJob.{
  Formatter, format_job_apa, format_job_pfs, run_format_job,
}

unfoldable pub find_entry : List ApaEntry → List ℕ → Option ApaEntry
find_entry [] name = none
find_entry (entry ∷ entries) name =
    let rest = find_entry entries name in if eq_bytes entry.name name then some entry else rest

unfoldable pub installed_pfs_valid : ApaEntry → Bool
installed_pfs_valid entry = pfs_clean entry && leb 2 entry.raw_pfs.root_directory_entries

-- `entry != NULL && valid(entry)`
unfoldable pub entry_valid : (ApaEntry → Bool) → Option ApaEntry → Bool
entry_valid valid none = false
entry_valid valid (some entry) = valid entry

-- The tests of the four partitions in a scan.
unfoldable pub partitions_valid : (ApaEntry → Bool) → InspectorData → List FormatStage → List Bool
partitions_valid valid scan [] = []
partitions_valid valid scan (stage ∷ stages) =
    entry_valid valid (find_entry scan.apa stage.name) ∷ partitions_valid valid scan stages

unfoldable pub all_true : List Bool → Bool
all_true [] = true
all_true (b ∷ bs) = b && all_true bs

unfoldable pub set_raw_valid : List FormatStage → List Bool → List FormatStage
set_raw_valid (stage ∷ stages) (b ∷ bs) = record stage { raw_valid = b } ∷ set_raw_valid stages bs
set_raw_valid stages _ = stages

unfoldable pub clear_stages : List FormatStage → List FormatStage
clear_stages [] = []
clear_stages (stage ∷ stages) = new_stage stage.name stage.blockdev ∷ clear_stages stages

-- A stage that failed with its number and its result.
unfoldable pub fail : {P : Type 0} → Psx1Result P → ℤ → ℤ → Psx1Result P
fail r step value = record r {
  format = record r.format { stopped_on_error = true; failed_step = step; failed_result = value };
}

-- A stage; `goto stopped` is `false`.
abbrev pub Stage : Type 0 → Type 0 → Type 0
Stage W P = Step W (Psx1Result P)

module _ (io : FileXio) (parts : Parts io) (drive : Drive io) (formatter : Formatter io)
    (fuel : ℕ) where
  -- The layout of the disk is scanned up to `left` times, and the drive is flushed between.
  unfoldable pub validate_loop :
      ℕ → Psx1Result parts.Package → Io io.World (Bool × Psx1Result parts.Package)
  validate_loop zero r w = ((false, r), w)
  validate_loop (suc left) r w =
      let (scan, w1) = parts.inspector_scan_layout reset_scan w in
      let layout = format_test_exact_apa scan in
      let mbr = format_test_mbr_valid scan in
      let scanned = record r {
        formatted = scan;
        format = record r.format {
          post_format_scan_attempts = suc r.format.post_format_scan_attempts;
          apa_layout_valid = layout;
          mbr_valid = mbr;
        };
      } in
      let (flushed, w2) = drive.flush w1 in
      let noted = record scanned {
        format = record scanned.format { post_format_flush_result = flushed };
      } in
      let rest = validate_loop left noted w2 in
      if layout && mbr
      then ((true, scanned), w1)
      else if left == 0
      then ((false, scanned), w1)
      else rest

  -- APA_POST_FORMAT_SCAN_LIMIT is 4.
  unfoldable pub validate_apa_after_format :
      Psx1Result parts.Package → Io io.World (Bool × Psx1Result parts.Package)
  validate_apa_after_format r w =
      validate_loop 4
        (record r {
          format = record r.format {
            post_format_flush_result = pos 0;
            post_format_scan_attempts = 0;
          };
        })
        w

  unfoldable pub recovery_stage : Bool → Stage io.World parts.Package
  recovery_stage false r w = ((true, r), w)
  recovery_stage true r w =
      let (cleaned, w') =
        cleanup_old_apa_headers io drive r.format.preflight.physical_sector_count w in
      let r' = record r { format = record r.format { recovery_cleanup = cleaned } } in
      if is_negative cleaned.result
      then ((false, fail r' (pos 1) cleaned.result), w')
      else ((true, r'), w')

  -- Behind a format that succeeded.
  unfoldable pub validate_stage : Bool → Stage io.World parts.Package
  validate_stage recovery_mode r w =
      let ((valid, r'), w') = validate_apa_after_format r w in
      let offered = record r' {
        format = record r'.format { recovery_available = not recovery_mode };
      } in
      if valid then ((true, r'), w') else ((false, fail offered (pos 1) (negsuc 0)), w')

  unfoldable pub apa_stage : Bool → Stage io.World parts.Package
  apa_stage recovery_mode r w =
      let (code, w1) = run_format_job io formatter fuel format_job_apa [] w in
      let r' = record r {
        format = record r.format {
          apa = record r.format.apa { attempted = true; return_value = code };
        };
      } in
      if is_negative code
      then ((false, fail r' (pos 1) code), w1)
      else validate_stage recovery_mode r' w1

  -- The loop over the partitions: `done` are formatted already. The failed stage has number
  -- `index + 2`.
  unfoldable pub pfs_loop : ℕ → List FormatStage → List FormatStage → Stage io.World parts.Package
  pfs_loop index done [] r w = ((true, r), w)
  pfs_loop index done (stage ∷ stages) r w =
      let (code, w') = run_format_job io formatter fuel format_job_pfs stage.blockdev w in
      let done' = done ++ (record stage { attempted = true; return_value = code } ∷ []) in
      let r' = record r { format = record r.format { pfs = done' ++ stages } } in
      let rest = pfs_loop (suc index) done' stages r' w' in
      if is_negative code then ((false, fail r' (pos (index + 2)) code), w') else rest

  unfoldable pub pfs_stage : Stage io.World parts.Package
  pfs_stage r w = pfs_loop 0 [] r.format.pfs r w

  unfoldable pub raw_stage : Stage io.World parts.Package
  raw_stage r w =
      let (scan, w') = parts.inspector_scan reset_scan w in
      let layout = format_test_exact_apa scan in
      let mbr = format_test_mbr_valid scan in
      let partitions = partitions_valid format_test_strict_pfs_valid scan r.format.pfs in
      let valid = layout && (mbr && all_true partitions) in
      let r' = record r {
        formatted = scan;
        format = record r.format {
          apa_layout_valid = layout;
          mbr_valid = mbr;
          pfs = set_raw_valid r.format.pfs partitions;
          raw_pfs_discovery_valid = all_true partitions;
          psx1_format_test_valid = valid;
          raw_validation_return = if valid then pos 0 else negsuc 0;
        };
      } in
      if valid then ((true, r'), w') else ((false, fail r' (pos 6) (negsuc 0)), w')

  unfoldable pub install_stage : Stage io.World parts.Package
  install_stage r w =
      let (installed, w') = parts.installer_execute r.installer w in
      let valid = parts.system_files_install_valid installed in
      let r' = record r { installer = installed; all_package_files_valid = valid } in
      if valid
      then ((true, r'), w')
      else ((false, fail r' (pos 7) (parts.failure_return installed)), w')

  unfoldable pub final_stage : Stage io.World parts.Package
  final_stage r w =
      let (scan, w') = parts.inspector_scan reset_scan w in
      let layout = format_test_exact_apa scan in
      let mbr = format_test_mbr_valid scan in
      let partitions = partitions_valid installed_pfs_valid scan r.format.pfs in
      let storage = layout && (mbr && all_true partitions) in
      let valid = storage && (r.all_package_files_valid && not r.format.stopped_on_error) in
      let r' = record r {
        final_layout = scan;
        final_apa_valid = layout;
        final_mbr_valid = mbr;
        final_pfs_valid = partitions;
        final_raw_pfs_valid = all_true partitions;
        psx1_storage_valid = storage;
        psx1_installation_valid = valid;
      } in
      if valid then ((true, r'), w') else ((false, fail r' (pos 8) (negsuc 0)), w')

  abbrev pub stages : Bool → List (Stage io.World parts.Package)
  stages recovery_mode =
      recovery_stage recovery_mode
      ∷ apa_stage recovery_mode
      ∷ pfs_stage
      ∷ raw_stage
      ∷ install_stage
      ∷ final_stage
      ∷ []

  abbrev pub confirmed : Psx1Result parts.Package → Psx1Result parts.Package
  confirmed r = record r {
    format = record r.format { confirmation_received = true; session_write_locked = true };
    installer = parts.confirm r.installer;
  }

  abbrev pub stopped : Psx1Result parts.Package → Psx1Result parts.Package
  stopped r = record r { format = record r.format { storage_activity_stopped = true } }

  unfoldable pub psx1_execute_internal :
      Bool → Psx1Result parts.Package → Io io.World (Psx1Result parts.Package)
  psx1_execute_internal recovery_mode r w =
      let ((go, r'), w') = run_stages (stages recovery_mode) (confirmed r) w in
      if not r.preflight_valid then (r, w) else (stopped r', w')

  unfoldable pub psx1_execute : Psx1Result parts.Package → Io io.World (Psx1Result parts.Package)
  psx1_execute r w =
      psx1_execute_internal false
        (record r { format = record r.format { recovery_available = false } }) w

  -- What `psx1_execute_recovery` resets.
  unfoldable pub recovery_start : Psx1Result parts.Package → Psx1Result parts.Package
  recovery_start r = record r {
    format = record r.format {
      recovery_confirmed = true;
      recovery_available = false;
      stopped_on_error = false;
      failed_step = pos 0;
      failed_result = pos 0;
      storage_activity_stopped = false;
      apa = record r.format.apa { attempted = false; return_value = pos 0 };
      apa_layout_valid = false;
      mbr_valid = false;
      raw_validation_return = pos 0;
      raw_pfs_discovery_valid = false;
      psx1_format_test_valid = false;
      pfs = clear_stages r.format.pfs;
    };
    all_package_files_valid = false;
    final_apa_valid = false;
    final_mbr_valid = false;
    final_raw_pfs_valid = false;
    psx1_storage_valid = false;
    psx1_installation_valid = false;
    final_pfs_valid = false ∷ false ∷ false ∷ false ∷ [];
  }

  unfoldable pub psx1_execute_recovery :
      Psx1Result parts.Package → Io io.World (Psx1Result parts.Package)
  psx1_execute_recovery r w =
      let out = psx1_execute_internal true (recovery_start r) w in
      if not (psx1_recovery_available r) then (r, w) else out
