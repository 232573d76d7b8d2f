-- ===== src/Psx1/Package.antt =====
-- What the pipeline of src/psx1_pipeline.c relies on of an installer, and what it reports with one that
-- provides it.
pub mod Filled
use mathlib.Core.Path.{subst}
use repair_box_psx_hdd_setup.Base.{
  ℕ, zero, suc, ◌+◌, ◌≤◌, ℤ, is_negative, ◌≡◌, refl, sym, ap, ◌∙◌, ◌⊎◌, inl, inr, Bool, true, false,
  not, ◌&&◌, List, [], ◌∷◌, ◌==◌, ◌++◌, if◌then◌else◌, if_intro, both_ways, Bool-cases, arith,
}
use repair_box_psx_hdd_setup.Base.Io.{Io}
use repair_box_psx_hdd_setup.Base.Stages.{
  EndsBy, goes, fails, Step, run_stages, Leads, run_stages-nil, run_stages-cons,
}
use repair_box_psx_hdd_setup.FileXio.{FileXio}
use repair_box_psx_hdd_setup.Drive.{Drive, Mounts}
use repair_box_psx_hdd_setup.Inspector.{InspectorData}
use repair_box_psx_hdd_setup.FormatTest.{
  format_test_exact_apa, format_test_mbr_valid, format_test_strict_pfs_valid,
}
use repair_box_psx_hdd_setup.FormatTest.Session.{FormatStage, format_test_init}
use repair_box_psx_hdd_setup.Xfrom.Copy.{SourceMedia}
use repair_box_psx_hdd_setup.Installer.{
  InstallerResult, installer_initialize_psx1, initialize_for_revision,
}
use repair_box_psx_hdd_setup.Installer.Scan.{Memory}
use repair_box_psx_hdd_setup.Installer.Scan.Source.{installer_scan_source}
use repair_box_psx_hdd_setup.Installer.Scan.Safe.{IsListing}
use repair_box_psx_hdd_setup.Installer.Scan.Root.{scan_source-IsListing}
use repair_box_psx_hdd_setup.Installer.Execute.{installer_execute}
use repair_box_psx_hdd_setup.Installer.Execute.Outcome.{IsComplete, installer_execute-IsComplete}
use repair_box_psx_hdd_setup.Psx1.{Parts, Psx1Result, reset_scan, psx1_prepare}
use repair_box_psx_hdd_setup.Psx1.Cleanup.{cleanup_old_apa_headers}
use repair_box_psx_hdd_setup.Psx1.FormatJob.{
  Formatter, format_job_apa, format_job_pfs, run_format_job,
}
use repair_box_psx_hdd_setup.Psx1.Execute.{
  Stage, partitions_valid, installed_pfs_valid, all_true, validate_loop, validate_apa_after_format,
  recovery_stage, validate_stage, apa_stage, pfs_loop, pfs_stage, raw_stage, install_stage,
  final_stage, stages, confirmed, stopped, psx1_execute_internal, psx1_execute, fail,
}
use repair_box_psx_hdd_setup.Psx1.Execute.Stages.{IsBegun, IsFailed, IsInstalled}
use repair_box_psx_hdd_setup.Psx1.Execute.Outcome.{run_stages-Leads}

-- What the pipeline relies on: a package stays fresh until it is installed, and an installer that
-- reports a success has installed it.
pub record Contract (io : FileXio) (parts : Parts io) : Type 1 where
  pub IsFresh : parts.Package → Type 0
  pub IsPlaced : parts.Package → Type 0
  pub initial_fresh : IsFresh parts.installer_initialize_psx1
  pub scan_fresh :
      (p : parts.Package) (w : io.World) → IsFresh p → IsFresh (parts.installer_scan_source p w).0
  pub confirm_fresh : (p : parts.Package) → IsFresh p → IsFresh (parts.confirm p)
  pub places :
      (p : parts.Package) (w : io.World)
      → IsFresh p
      → parts.system_files_install_valid (parts.installer_execute p w).0 ≡ true
      → IsPlaced (parts.installer_execute p w).0

module _ (io : FileXio) (parts : Parts io) (drive : Drive io) (formatter : Formatter io)
    (fuel : ℕ) where
  abbrev Result : Type 0
  Result = Psx1Result parts.Package

  -- A stage that does not touch the package.
  abbrev LeavesPackage : Stage io.World parts.Package → Type 0
  LeavesPackage stage = (r : Result) (w : io.World) → (stage r w).0.1.installer ≡ r.installer

  abbrev Any : Result → Type 0
  Any r = Unit {0}

  leaves-Leads :
      (K : parts.Package → Type 0) (stage : Stage io.World parts.Package)
      → LeavesPackage stage
      → Leads Any (λ r. K r.installer) stage (λ r. K r.installer)
  leaves-Leads K stage l r w k =
      let kept : K (stage r w).0.1.installer = subst K (sym (l r w)) k in
      elim (Bool-cases (stage r w).0.0) [ inl e ↦ goes e kept | inr e ↦ fails e tt ]

  before_others :
      (K : parts.Package → Type 0) (Q : Result → Type 0) (stage : Stage io.World parts.Package)
      (rest : List (Stage io.World parts.Package))
      → LeavesPackage stage
      → Leads Any (λ r. K r.installer) (run_stages rest) Q
      → Leads Any (λ r. K r.installer) (run_stages (stage ∷ rest)) Q
  before_others K Q stage rest l go =
      run_stages-cons Any (λ r. K r.installer) (λ r. K r.installer) Q stage rest
        (leaves-Leads K stage l) go

  validate_loop-LeavesPackage :
      (left : ℕ) → LeavesPackage (validate_loop io parts drive formatter fuel left)
  unfolding validate_loop
  validate_loop-LeavesPackage zero r w = refl
  validate_loop-LeavesPackage (suc left) r w =
      let P : (Bool × Result) × io.World → Type 0 = λ out. out.0.1.installer ≡ r.installer in
      let scan = parts.inspector_scan_layout reset_scan w in
      if_intro P (format_test_exact_apa scan.0 && format_test_mbr_valid scan.0) _ _ (λ _. refl)
        λ _. if_intro P (left == 0) _ _ (λ _. refl) λ _. validate_loop-LeavesPackage left _ _

  recovery_stage-LeavesPackage :
      (mode : Bool) → LeavesPackage (recovery_stage io parts drive formatter fuel mode)
  unfolding recovery_stage fail
  recovery_stage-LeavesPackage false r w = refl
  recovery_stage-LeavesPackage true r w =
      let P : (Bool × Result) × io.World → Type 0 = λ out. out.0.1.installer ≡ r.installer in
      let cleaned = cleanup_old_apa_headers io drive r.format.preflight.physical_sector_count w in
      if_intro P (is_negative cleaned.0.result) _ _ (λ _. refl) (λ _. refl)

  apa_stage-LeavesPackage :
      (mode : Bool) → LeavesPackage (apa_stage io parts drive formatter fuel mode)
  unfolding apa_stage validate_stage validate_apa_after_format fail
  apa_stage-LeavesPackage mode r w =
      let P : (Bool × Result) × io.World → Type 0 = λ out. out.0.1.installer ≡ r.installer in
      let ran = run_format_job io formatter fuel format_job_apa [] w in
      if_intro P (is_negative ran.0) _ _ (λ _. refl)
        λ _.
          let same = validate_loop-LeavesPackage 4 _ ran.1 in
          if_intro P _ _ _ (λ _. same) (λ _. same)

  pfs_loop-LeavesPackage :
      (index : ℕ) (done rest : List FormatStage)
      → LeavesPackage (pfs_loop io parts drive formatter fuel index done rest)
  unfolding pfs_loop fail
  pfs_loop-LeavesPackage index done [] r w = refl
  pfs_loop-LeavesPackage index done (stage ∷ rest) r w =
      let P : (Bool × Result) × io.World → Type 0 = λ out. out.0.1.installer ≡ r.installer in
      let ran = run_format_job io formatter fuel format_job_pfs stage.blockdev w in
      let done' = done ++ (record stage { attempted = true; return_value = ran.0 } ∷ []) in
      let r' : Result = record r { format = record r.format { pfs = done' ++ rest } } in
      if_intro P (is_negative ran.0) _ _ (λ _. refl)
        (λ _. pfs_loop-LeavesPackage (suc index) done' rest r' ran.1)

  pfs_stage-LeavesPackage : LeavesPackage (pfs_stage io parts drive formatter fuel)
  unfolding pfs_stage
  pfs_stage-LeavesPackage r w = pfs_loop-LeavesPackage 0 [] r.format.pfs r w

  raw_stage-LeavesPackage : LeavesPackage (raw_stage io parts drive formatter fuel)
  unfolding raw_stage fail
  raw_stage-LeavesPackage r w =
      let P : (Bool × Result) × io.World → Type 0 = λ out. out.0.1.installer ≡ r.installer in
      if_intro P _ _ _ (λ _. refl) (λ _. refl)

  final_stage-LeavesPackage : LeavesPackage (final_stage io parts drive formatter fuel)
  unfolding final_stage fail
  final_stage-LeavesPackage r w =
      let P : (Bool × Result) × io.World → Type 0 = λ out. out.0.1.installer ≡ r.installer in
      if_intro P _ _ _ (λ _. refl) (λ _. refl)

  module _ (contract : Contract io parts) where
    abbrev HasFresh : Result → Type 0
    HasFresh r = contract.IsFresh r.installer

    abbrev pub HasPlaced : Result → Type 0
    HasPlaced r = contract.IsPlaced r.installer

    install_stage-Leads : Leads Any HasFresh (install_stage io parts drive formatter fuel) HasPlaced
    unfolding install_stage
    install_stage-Leads r w h =
        let P : (Bool × Result) × io.World → Type 0 = λ out. EndsBy Any HasPlaced out.0 in
        if_intro P (parts.system_files_install_valid (parts.installer_execute r.installer w).0) _ _
          (λ e. goes refl (contract.places r.installer w h e)) (λ _. fails refl tt)

    package-Leads :
        (mode : Bool)
        → Leads Any HasFresh (run_stages (stages io parts drive formatter fuel mode)) HasPlaced
    package-Leads mode =
        before_others contract.IsFresh HasPlaced (recovery_stage io parts drive formatter fuel mode)
          _ (recovery_stage-LeavesPackage mode)
          (before_others contract.IsFresh HasPlaced (apa_stage io parts drive formatter fuel mode) _
            (apa_stage-LeavesPackage mode)
            (before_others contract.IsFresh HasPlaced (pfs_stage io parts drive formatter fuel) _
              pfs_stage-LeavesPackage
              (before_others contract.IsFresh HasPlaced (raw_stage io parts drive formatter fuel) _
                raw_stage-LeavesPackage
                (run_stages-cons Any HasFresh HasPlaced HasPlaced
                  (install_stage io parts drive formatter fuel) _ install_stage-Leads
                  (before_others contract.IsPlaced HasPlaced
                    (final_stage io parts drive formatter fuel) [] final_stage-LeavesPackage
                    (run_stages-nil Any HasPlaced))))))

    -- The two ends of an installation.
    abbrev pub Ends : Result → Type 0
    Ends out =
        (out.psx1_installation_valid ≡ false)
        ⊎ (IsInstalled io parts drive formatter fuel out × HasPlaced out)

    both_end :
        (out : Bool × Result)
        → EndsBy IsFailed (IsInstalled io parts drive formatter fuel) out
        → EndsBy Any HasPlaced out
        → Ends (stopped io parts drive formatter fuel out.1)
    both_end out (goes e q) (goes f p) = inr (q, p)
    both_end out (goes e q) (fails f p) = both_ways out.0 e f
    both_end out (fails e q) p = inl q.0

    -- From the preparation on, an installer that keeps the contract has placed the package where the
    -- pipeline reports a success.
    pub psx1_places :
        (w w' : io.World)
        → Ends (psx1_execute io parts drive formatter fuel (psx1_prepare io parts w).0 w').0
    unfolding psx1_execute psx1_execute_internal psx1_prepare format_test_init
    psx1_places w w' =
        let r = (psx1_prepare io parts w).0 in
        let begun : Result = record r { format = record r.format { recovery_available = false } } in
        let start = confirmed io parts drive formatter fuel begun in
        let run = run_stages (stages io parts drive formatter fuel false) start w' in
        let P : Result × io.World → Type 0 = λ out. Ends out.0 in
        let fresh : contract.IsFresh start.installer =
          contract.confirm_fresh _ (contract.scan_fresh _ _ contract.initial_fresh) in
        if_intro P (not r.preflight_valid) _ _ (λ _. inl refl)
          (λ _.
            both_end run.0
              (run_stages-Leads io parts drive formatter fuel false start w'
                ((refl, refl), omega arith))
              (package-Leads false start w' fresh))
