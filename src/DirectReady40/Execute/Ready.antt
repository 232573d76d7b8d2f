-- ===== src/DirectReady40/Execute/Ready.antt =====
-- What a run of `dr40_execute` of src/direct_ready40.c has shown where its stages have all succeeded.
use mathlib.Core.Path.{subst}
use repair_box_psx_hdd_setup.Base.{
  ℤ, pos, ebusy, codes, length, ◌==ℤ◌, ==_iff, is_negative, ◌≡◌, refl, sym, ap, ◌∙◌, Bool, true,
  false, not, ◌&&◌, inl, inr, [], ◌∷◌, and_elim, both_ways, if_intro,
}
use repair_box_psx_hdd_setup.Base.Stages.{
  goes, fails, run_stages, Leads, run_stages-nil, run_stages-cons,
}
use repair_box_psx_hdd_setup.Storage.{Diagnostics, storage_refresh_layout_diagnostics}
use repair_box_psx_hdd_setup.Bootstrap.Write.{bootstrap_write_and_verify}
use repair_box_psx_hdd_setup.Installer.{InstallerResult}
use repair_box_psx_hdd_setup.Installer.Execute.{installer_execute}
use repair_box_psx_hdd_setup.Installer.Execute.Outcome.{IsComplete, installer_execute-IsComplete}
use repair_box_psx_hdd_setup.DirectReady40.{
  Snapshot, Console, devices_of, visible_sectors, native_max, unsigned,
}
use repair_box_psx_hdd_setup.DirectReady40.Preflight.{take_snapshot}
use repair_box_psx_hdd_setup.DirectReady40.Table.{dr40_exact_system_layout, dr40_exact_dvr_layout}
use repair_box_psx_hdd_setup.DirectReady40.Volume.{
  validate_each, validate_xcontents_directories, ensure_xcontents_directories,
}
use repair_box_psx_hdd_setup.DirectReady40.Execute.{
  Session, snapshot_valid, refresh_after, directories_stage, bootstrap_stage, confirmed,
  package_stage, final_stage, stages,
}
use repair_box_psx_hdd_setup.DirectReady40.Execute.Causes.{
  IsOpen, Fails, Outcome, folders, boot_prefix, package_files, final_test, fail-IsStopped, AreSound,
  AreFormatted, IsPrepared, HasFolders, HasPrefix, same_code,
}
use repair_box_psx_hdd_setup.DirectReady40.Execute.Formats.{validate_each-AreFormatted}
use repair_box_psx_hdd_setup.DirectReady40.Execute.Stages.{HasBegun, FormatsDone, formats-Leads}

-- What the devices answer at the end: both are accessible with the version 2 of their tables, and the
-- numbers of sectors are those of the 40 GB drive.
abbrev pub IsAnswered : Snapshot → Type 0
IsAnswered a =
    (a.hdd_status ≡ pos 0)
    × (a.hdd_formatver ≡ pos 2)
    × (unsigned a.hdd_totalsector ≡ visible_sectors)
    × (a.dvr_status ≡ pos 0)
    × (a.dvr_formatver ≡ pos 2)
    × (unsigned a.dvr_totalsector ≡ visible_sectors)
    × (unsigned a.getmaxlba48 ≡ native_max)
    × (a.islba48 ≡ pos 1)

snapshot_valid-IsAnswered : (a : Snapshot) → snapshot_valid a ≡ true → IsAnswered a
unfolding snapshot_valid
snapshot_valid-IsAnswered s h =
    let a = and_elim _ _ h in
    let b = and_elim _ _ a.1 in
    let c = and_elim _ _ b.1 in
    let d = and_elim _ _ c.1 in
    let e = and_elim _ _ d.1 in
    let f = and_elim _ _ e.1 in
    let g = and_elim _ _ f.1 in
    (
      same_code s.hdd_status 0 a.0,
      same_code s.hdd_formatver 2 b.0,
      (==_iff (unsigned s.hdd_totalsector) visible_sectors).0 c.0,
      same_code s.dvr_status 0 d.0,
      same_code s.dvr_formatver 2 e.0,
      (==_iff (unsigned s.dvr_totalsector) visible_sectors).0 f.0,
      (==_iff (unsigned s.getmaxlba48) native_max).0 g.0,
      same_code s.islba48 1 g.1,
    )

module _ (c : Console) where
  made_folders :
      (before : Bool) (w : c.io.World)
      → let out = (ensure_xcontents_directories c before w).0 in
        is_negative out.0 ≡ false → out.1 ≡ true
  unfolding ensure_xcontents_directories
  made_folders before w =
      let P : (ℤ × Bool) × c.io.World → Type 0 =
        λ out. is_negative out.0.0 ≡ false → out.0.1 ≡ true in
      let mounted = (c.mounts.mount (codes "dvr_pfs0:") (codes "dvr_hdd0:__xcontents") w).0 in
      if_intro P (is_negative mounted && not (mounted ==ℤ ebusy)) _ _
        (λ e n. both_ways (is_negative mounted) (and_elim (is_negative mounted) _ e).0 n)
        (λ _. if_intro P (is_negative mounted) _ _ (λ _ n. ap not n) (λ _ n. ap not n))

  -- What a scan of the devices, in some state, has shown at the end, and a look at the folders.
  abbrev pub IsChecked : Type 0
  IsChecked =
      (d : Diagnostics) × (u v : c.io.World) × (let found =
          (storage_refresh_layout_diagnostics (devices_of c) c.fuel d u).0 in
        IsAnswered (take_snapshot found)
        × (dr40_exact_system_layout found.hdd ≡ true)
        × ((dr40_exact_dvr_layout found.dvr_hdd).0 ≡ true)
        × ((validate_xcontents_directories c v).0 ≡ true))

  module _ (request : InstallerResult) where
    -- The installer's answer to the confirmed request, in some state of the devices, is complete.
    abbrev pub IsFilled : InstallerResult → Type 0
    IsFilled out =
        (u : c.io.World) × (out
          ≡ (installer_execute c.io c.mounts c.media c.stack c.fuel (confirmed request) u).0)
        × IsComplete c.io c.mounts c.media c.stack c.fuel (confirmed request) out

    abbrev FoldersDone : Session → Type 0
    FoldersDone s = FormatsDone c request s × HasFolders c s.0

    abbrev PrefixDone : Session → Type 0
    PrefixDone s = FoldersDone s × HasPrefix c s.0

    abbrev FilesDone : Session → Type 0
    FilesDone s =
        IsOpen s.0
        × IsPrepared c s.0
        × HasFolders c s.0
        × HasPrefix c s.0
        × (s.0.installer.system_files_install_valid ≡ true)
        × IsFilled s.0.installer

    -- The report of a success.
    abbrev pub IsReady : Session → Type 0
    IsReady s =
        (s.0.direct_ready40_storage_valid ≡ true)
        × (s.0.stopped_on_error ≡ false)
        × IsPrepared c s.0
        × (AreSound s.0.normal_pfs × AreSound s.0.dvr_pfs)
        × HasFolders c s.0
        × (HasPrefix c s.0 × (s.0.bootstrap.bootstrap_valid ≡ true))
        × IsFilled s.0.installer
        × IsChecked

    directories_stage-Outcome :
        (s : Session) (w : c.io.World)
        → FormatsDone c request s
        → Outcome c FoldersDone (directories_stage c s w).0
    unfolding directories_stage
    directories_stage-Outcome (r, d) w h =
        let Q : (Bool × Session) × c.io.World → Type 0 = λ out. Outcome c FoldersDone out.0 in
        let code = (ensure_xcontents_directories c r.dvr_directories_valid w).0.0 in
        if_intro Q (is_negative code) _ _
          (λ _. fails refl (fail-IsStopped c _ 9 _ _ _ code h.0 (folders refl refl h.2)))
          (λ e.
            goes refl
              (h, (made_folders r.dvr_directories_valid w e, (r.dvr_directories_valid, w, e))))

    bootstrap_stage-Outcome :
        (s : Session) (w : c.io.World)
        → FoldersDone s
        → Outcome c PrefixDone (bootstrap_stage c s w).0
    unfolding bootstrap_stage
    bootstrap_stage-Outcome (r, d) w h =
        let Q : (Bool × Session) × c.io.World → Type 0 = λ out. Outcome c PrefixDone out.0 in
        let out =
          bootstrap_write_and_verify c.io c.drive c.paths c.stack c.samples_buffer c.sector_buffer
            r.bootstrap w in
        if_intro Q (is_negative out.0.0) _ _
          (λ _.
            fails refl
              (fail-IsStopped c _ 10 _ _ _ out.0.0 h.0.0 (boot_prefix refl refl h.0.2 h.1)))
          (λ e. goes refl (h, (r.bootstrap, w, e, refl)))

    package_stage-Outcome :
        (s : Session) (w : c.io.World)
        → length c.stack ≡ 64
        → PrefixDone s
        → Outcome c FilesDone (package_stage c s w).0
    unfolding package_stage
    package_stage-Outcome (r, d) w k h =
        let Q : (Bool × Session) × c.io.World → Type 0 = λ out. Outcome c FilesDone out.0 in
        let run : InstallerResult → InstallerResult =
          λ start. (installer_execute c.io c.mounts c.media c.stack c.fuel (confirmed start) w).0 in
        let out = run r.installer in
        let valid = out.system_files_install_valid in
        let asked = h.0.0.1.0 in
        let fresh = h.0.0.1.1 in
        let same : out ≡ run request = ap run asked in
        let filled : valid ≡ true → IsFilled out = λ e.
          elim (installer_execute-IsComplete c.io c.mounts c.media c.stack c.fuel
            (confirmed request) w k fresh.0 fresh.1) [
              | inl f ↦ both_ways valid e (ap (λ x. x.system_files_install_valid) same ∙ f)
              | inr m ↦ (
                w,
                same,
                subst (IsComplete c.io c.mounts c.media c.stack c.fuel (confirmed request))
                    (sym same) m,
              )
            ] in
        if_intro Q valid _ _ (λ e. goes refl (h.0.0.0, h.0.0.2, h.0.1, h.1, e, filled e))
          (λ f.
            fails refl
              (fail-IsStopped c _ 11 _ _ _ _ h.0.0.0 (package_files refl f h.0.0.2 h.0.1 h.1)))

    final_stage-Outcome :
        (s : Session) (w : c.io.World) → FilesDone s → Outcome c IsReady (final_stage c s w).0
    unfolding final_stage refresh_after
    final_stage-Outcome (r, d) w h =
        let Q : (Bool × Session) × c.io.World → Type 0 = λ out. Outcome c IsReady out.0 in
        let refreshed = refresh_after c (r, d) w in
        let system = dr40_exact_system_layout refreshed.0.1.hdd in
        let layout = (dr40_exact_dvr_layout refreshed.0.1.dvr_hdd).0 in
        let normal = validate_each c r.normal_pfs refreshed.1 in
        let dvr = validate_each c r.dvr_pfs normal.1 in
        let directories = (validate_xcontents_directories c dvr.1).0 in
        let pfs = normal.0.1 && (dvr.0.1 && directories) in
        let files = r.all_package_files_valid && r.bootstrap.bootstrap_valid in
        let answered = snapshot_valid refreshed.0.0.after in
        let n = validate_each-AreFormatted c r.normal_pfs refreshed.1 h.1.1 in
        let v = validate_each-AreFormatted c r.dvr_pfs normal.1 h.1.3 in
        let prepared : AreFormatted c normal.0.0 × AreFormatted c dvr.0.0 = (n.0, v.0) in
        if_intro Q (answered && (system && (layout && (pfs && files)))) _ _
          (λ e.
            let e1 = and_elim answered (system && (layout && (pfs && files))) e in
            let e2 = and_elim system (layout && (pfs && files)) e1.1 in
            let e3 = and_elim layout (pfs && files) e2.1 in
            let e4 = and_elim pfs files e3.1 in
            let e5 = and_elim normal.0.1 (dvr.0.1 && directories) e4.0 in
            let e6 = and_elim dvr.0.1 directories e5.1 in
            let boot = and_elim r.all_package_files_valid r.bootstrap.bootstrap_valid e4.1 in
            goes refl (
              e,
              h.0.1,
              (h.1.0, prepared.0, h.1.2, prepared.1),
              (n.1 e5.0, v.1 e6.0),
              h.2,
              (h.3, boot.1),
              h.5,
              (d, w, dvr.1, (snapshot_valid-IsAnswered refreshed.0.0.after e1.0, e2.0, e3.0, e6.1)),
            ))
          (λ f. fails refl (
            fail-IsStopped c _ 12 _ _ _ _ (f, h.0.1)
              (final_test refl refl h.4 (h.1.0, prepared.0, h.1.2, prepared.1) h.2 h.3)))

    pub stages-Leads :
        length c.stack ≡ 64 → Leads (Fails c) (HasBegun c request) (run_stages (stages c)) IsReady
    stages-Leads k =
        formats-Leads c request
          (directories_stage c ∷ bootstrap_stage c ∷ package_stage c ∷ final_stage c ∷ []) IsReady
          (run_stages-cons (Fails c) (FormatsDone c request) FoldersDone IsReady
            (directories_stage c) _ directories_stage-Outcome
            (run_stages-cons (Fails c) FoldersDone PrefixDone IsReady (bootstrap_stage c) _
              bootstrap_stage-Outcome
              (run_stages-cons (Fails c) PrefixDone FilesDone IsReady (package_stage c) _
                (λ s w h. package_stage-Outcome s w k h)
                (run_stages-cons (Fails c) FilesDone IsReady IsReady (final_stage c) []
                  final_stage-Outcome (run_stages-nil (Fails c) IsReady)))))
