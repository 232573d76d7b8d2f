-- ===== src/DirectReady40/Execute.antt =====
-- `dr40_execute` of src/direct_ready40.c: the boundary is set, or the twelve stages are run, each of
-- which is entered only where the ones before it have succeeded.
pub mod Causes
pub mod Formats
pub mod Stages
pub mod Ready
pub mod Outcome
use repair_box_psx_hdd_setup.Base.{
  ℕ, ℤ, pos, is_negative, ◌==ℤ◌, eio, Bool, true, false, not, ◌&&◌, ◌||◌, Option, none, some, List,
  [], ◌∷◌, codes, ◌==◌, if◌then◌else◌,
}
use repair_box_psx_hdd_setup.Base.Io.{Io}
use repair_box_psx_hdd_setup.Base.Stages.{Step, run_stages}
use repair_box_psx_hdd_setup.Storage.{Diagnostics, storage_refresh_layout_diagnostics}
use repair_box_psx_hdd_setup.Bootflag.ReadOnly.{bootflag_ro_inspect}
use repair_box_psx_hdd_setup.Bootstrap.Write.{bootstrap_write_and_verify}
use repair_box_psx_hdd_setup.Installer.{InstallerResult}
use repair_box_psx_hdd_setup.Installer.Execute.{installer_execute}
use repair_box_psx_hdd_setup.DirectReady40.{
  Mode, mode_stop, mode_set_boundary, mode_initialize, PfsResult, Snapshot, Dr40Result, Console,
  devices_of, visible_sectors, native_max, unsigned, fail,
}
use repair_box_psx_hdd_setup.DirectReady40.Preflight.{take_snapshot, note_bootflag}
use repair_box_psx_hdd_setup.DirectReady40.Table.{dr40_exact_system_layout, dr40_exact_dvr_layout}
use repair_box_psx_hdd_setup.DirectReady40.Volume.{
  pfs_failure_return, format_each, validate_each, ensure_xcontents_directories,
  validate_xcontents_directories,
}

-- The result and the scans of the devices.
abbrev pub Session : Type 0
Session = Dr40Result × Diagnostics

-- What the final tests of the devices ask of the numbers that they answered.
unfoldable pub snapshot_valid : Snapshot → Bool
snapshot_valid s =
    (s.hdd_status ==ℤ pos 0)
    && ((s.hdd_formatver ==ℤ pos 2)
        && ((unsigned s.hdd_totalsector == visible_sectors)
            && ((s.dvr_status ==ℤ pos 0)
                && ((s.dvr_formatver ==ℤ pos 2)
                    && ((unsigned s.dvr_totalsector == visible_sectors)
                        && ((unsigned s.getmaxlba48 == native_max) && (s.islba48 ==ℤ pos 1)))))))

abbrev system_snapshot_valid : Snapshot → Bool
system_snapshot_valid s =
    (s.hdd_status ==ℤ pos 0)
    && ((s.hdd_formatver ==ℤ pos 2) && (unsigned s.hdd_totalsector == visible_sectors))

-- Behind the formats of file systems: a failed one ends the run.
unfoldable pub judge_formats : List ℕ → Option (ℕ × PfsResult) → Session → Bool × Session
judge_formats operation none state = (true, state)
judge_formats operation (some (stage, p)) (r, d) =
    (false, (fail r stage p.name (47 ∷ []) operation (pfs_failure_return p), d))

abbrev pub confirmed : InstallerResult → InstallerResult
confirmed r = record r { confirmation_received = true }

module _ (c : Console) where
  unfoldable pub refresh_after : Session → Io c.io.World Session
  refresh_after (r, d) w =
      let (d', w') = storage_refresh_layout_diagnostics (devices_of c) c.fuel d w in
      ((record r { after = take_snapshot d' }, d'), w')

  unfoldable pub cleanup_stale_dvr_mounts : Dr40Result → Io c.io.World Dr40Result
  cleanup_stale_dvr_mounts r w =
      let (zero, w1) = c.mounts.umount (codes "dvr_pfs0:") w in
      let (one, w2) = c.mounts.umount (codes "dvr_pfs1:") w1 in
      (
        record r {
          dvr_mount_cleanup_attempted = true;
          dvr_pfs0_cleanup_return = zero;
          dvr_pfs1_cleanup_return = one;
        },
        w2,
      )

  unfoldable pub execute_setmax : Session → Io c.io.World Session
  execute_setmax (r, d) w =
      let (code, w') = c.volumes.set_max_lba28 visible_sectors w in
      let valid = not (is_negative code) in
      let set = record r {
        session_write_locked = true;
        setmax40 = record r.setmax40 { attempted = true; return_value = code; valid = valid };
        power_cycle_required = true;
      } in
      refresh_after (if valid then set else fail set 0 [] [] (codes "HDIOC_SETMAXLBA28") code, d) w'

  unfoldable pub apa_stage : Step c.io.World Session
  apa_stage (r, d) w =
      let (code, w1) = c.volumes.format_disk (codes "hdd0:") w in
      let formatted = record r { apa = record r.apa { attempted = true; return_value = code } } in
      let ((r2, d2), w2) = refresh_after (formatted, d) w1 in
      let valid = system_snapshot_valid r2.after && dr40_exact_system_layout d2.hdd in
      let r3 = record r2 { system_layout_valid = valid; apa = record r2.apa { valid = valid } } in
      if is_negative code
      then (
        (false, (fail formatted 1 (codes "__mbr") (47 ∷ []) (codes "fileXioFormat_hdd0") code, d)),
        w1,
      )
      else if valid
      then ((true, (r3, d2)), w2)
      else (
        (false, (fail r3 1 (codes "__mbr") (47 ∷ []) (codes "validate_system_layout") eio, d2)),
        w2,
      )

  unfoldable pub normal_pfs_stage : Step c.io.World Session
  normal_pfs_stage (r, d) w =
      let ((done, failed), w') = format_each c 2 r.normal_pfs w in
      (
        judge_formats (codes "format_or_validate_normal_pfs") failed
            (record r { normal_pfs = done }, d),
        w',
      )

  unfoldable pub dvr_hdd_stage : Step c.io.World Session
  dvr_hdd_stage (r, d) w =
      let (code, w1) = c.volumes.format_disk (codes "dvr_hdd0:") w in
      let formatted = record r {
        dvr_hdd = record r.dvr_hdd { attempted = true; return_value = code };
      } in
      let ((r2, d2), w2) = refresh_after (formatted, d) w1 in
      let (valid, (end, tail)) = dr40_exact_dvr_layout d2.dvr_hdd in
      let r3 = record r2 {
        dvr_layout_valid = valid;
        xcontents_end = end;
        tail_reserved_sectors = tail;
        dvr_hdd = record r2.dvr_hdd { valid = valid };
      } in
      if is_negative code
      then (
        (
          false,
          (fail formatted 6 (codes "dvr_hdd0") (47 ∷ []) (codes "fileXioFormat_dvr_hdd0") code, d),
        ),
        w1,
      )
      else if valid
      then ((true, (r3, d2)), w2)
      else (
        (
          false,
          (fail r3 6 (codes "dvr_hdd0") (47 ∷ []) (codes "validate_final_dvr_layout") eio, d2),
        ),
        w2,
      )

  unfoldable pub dvr_pfs_stage : Step c.io.World Session
  dvr_pfs_stage (r, d) w =
      let ((done, failed), w') = format_each c 7 r.dvr_pfs w in
      (
        judge_formats (codes "format_or_validate_dvr_pfs") failed (record r { dvr_pfs = done }, d),
        w',
      )

  unfoldable pub directories_stage : Step c.io.World Session
  directories_stage (r, d) w =
      let ((code, valid), w') = ensure_xcontents_directories c r.dvr_directories_valid w in
      let r' = record r { dvr_directories_valid = valid } in
      if is_negative code
      then (
        (
          false,
          (fail r' 9 (codes "__xcontents") (47 ∷ []) (codes "create_dvr_result_epg") code, d),
        ),
        w',
      )
      else ((true, (r', d)), w')

  unfoldable pub bootstrap_stage : Step c.io.World Session
  bootstrap_stage (r, d) w =
      let ((code, written), w') =
        bootstrap_write_and_verify c.io c.drive c.paths c.stack c.samples_buffer c.sector_buffer
          r.bootstrap w in
      let r' = record r { bootstrap = written } in
      let noted = record r' {
        failure_offset = written.failure_lba;
        failure_requested_bytes = written.failure_requested_bytes;
        failure_actual_bytes = written.failure_actual_bytes;
      } in
      if is_negative code
      then (
        (
          false,
          (
            fail noted 10 (codes "__mbr") c.paths.bin_path (codes "write_or_verify_bootstrap") code,
            d,
          ),
        ),
        w',
      )
      else ((true, (r', d)), w')

  unfoldable pub package_stage : Step c.io.World Session
  package_stage (r, d) w =
      let (installed, w') =
        installer_execute c.io c.mounts c.media c.stack c.fuel (confirmed r.installer) w in
      let valid = installed.system_files_install_valid in
      let r' = record r { installer = installed; all_package_files_valid = valid } in
      let f = installed.failure in
      if valid
      then ((true, (r', d)), w')
      else ((false, (fail r' 11 f.partition f.path f.operation f.return_value, d)), w')

  unfoldable pub final_stage : Step c.io.World Session
  final_stage (r, d) w =
      let ((r1, d1), w1) = refresh_after (r, d) w in
      let (layout, (end, tail)) = dr40_exact_dvr_layout d1.dvr_hdd in
      let system = dr40_exact_system_layout d1.hdd in
      let ((normal, normal_valid), w2) = validate_each c r1.normal_pfs w1 in
      let ((dvr, dvr_valid), w3) = validate_each c r1.dvr_pfs w2 in
      let (directories, w4) = validate_xcontents_directories c w3 in
      let pfs = normal_valid && (dvr_valid && directories) in
      let (flag, w5) = bootflag_ro_inspect c.io c.flag_buffer c.allow_pending_reinstall w4 in
      let valid =
        snapshot_valid r1.after
        && (system
            && (layout && (pfs && (r1.all_package_files_valid && r1.bootstrap.bootstrap_valid)))) in
      let r2 = record (note_bootflag flag r1) {
        system_layout_valid = system;
        dvr_layout_valid = layout;
        xcontents_end = end;
        tail_reserved_sectors = tail;
        normal_pfs = normal;
        dvr_pfs = dvr;
        final_pfs_valid = pfs;
        final_bootstrap_valid = r1.bootstrap.bootstrap_valid;
        direct_ready40_storage_valid = valid;
      } in
      if valid
      then ((true, (r2, d1)), w5)
      else ((false, (fail r2 12 [] (47 ∷ []) (codes "final_validation") eio, d1)), w5)

  abbrev pub stages : List (Step c.io.World Session)
  stages =
      apa_stage ∷ normal_pfs_stage ∷ dvr_hdd_stage ∷ dvr_pfs_stage ∷ directories_stage
      ∷ bootstrap_stage ∷ package_stage ∷ final_stage ∷ []

  -- The stages, and `refresh_after` at `finished`.
  unfoldable pub initialize_disk : Session → Io c.io.World Session
  initialize_disk (r, d) w =
      let (cleaned, w1) = cleanup_stale_dvr_mounts (record r { session_write_locked = true }) w in
      let ((go, state), w2) = run_stages stages (cleaned, d) w1 in refresh_after state w2

  unfoldable pub execute_mode : Mode → Session → Io c.io.World Session
  execute_mode mode_stop state w = (state, w)
  execute_mode mode_set_boundary state w = execute_setmax state w
  execute_mode mode_initialize state w = initialize_disk state w

  unfoldable pub dr40_execute : Session → Io c.io.World Session
  dr40_execute (r, d) w =
      if not r.confirmation_received || (r.session_write_locked || not r.preflight_valid)
      then ((r, d), w)
      else execute_mode r.mode (r, d) w
