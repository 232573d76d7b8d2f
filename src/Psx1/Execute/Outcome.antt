-- ===== src/Psx1/Execute/Outcome.antt =====
-- What a finished `psx1_execute` of src/psx1_pipeline.c says of its stages.
use repair_box_psx_hdd_setup.Base.{
  ℕ, negsuc, ◌≡◌, refl, ap, ◌∙◌, Bool, true, false, not, ◌&&◌, ◌⊎◌, inl, inr, [], and_elim,
  if_intro, arith,
}
use repair_box_psx_hdd_setup.Base.Stages.{
  goes, fails, run_stages, Leads, run_stages-nil, run_stages-cons,
}
use repair_box_psx_hdd_setup.FileXio.{FileXio}
use repair_box_psx_hdd_setup.Drive.{Drive}
use repair_box_psx_hdd_setup.FormatTest.{
  format_test_exact_apa, format_test_mbr_valid, format_test_strict_pfs_valid,
}
use repair_box_psx_hdd_setup.Psx1.{Parts, Psx1Result, reset_scan}
use repair_box_psx_hdd_setup.Psx1.FormatJob.{Formatter}
use repair_box_psx_hdd_setup.Psx1.Execute.{
  all_true, partitions_valid, installed_pfs_valid, recovery_stage, apa_stage, pfs_stage, raw_stage,
  install_stage, final_stage, psx1_execute_internal, psx1_execute, confirmed, stopped, stages,
}
use repair_box_psx_hdd_setup.Psx1.Execute.Stages.{
  IsFailed, StageOutcome, fail-IsFailed, IsBegun, ApaDone, PfsDone, RawDone, FilesDone, IsInstalled,
  AreFormatted-set_raw_valid, partitions_valid-set_raw_valid, apa_stage-StageOutcome,
  recovery_stage-StageOutcome, pfs_stage-StageOutcome,
}

both : {X : Type 0} (b : Bool) → not b ≡ true → b ≡ true → X
both true h k = cc
both false h k = cc

module _ (io : FileXio) (parts : Parts io) (drive : Drive io) (formatter : Formatter io)
    (fuel : ℕ) where
  raw_stage-StageOutcome :
      (r : Psx1Result parts.Package) (w : io.World)
      → PfsDone r
      → StageOutcome RawDone (raw_stage io parts drive formatter fuel r w).0
  unfolding raw_stage
  raw_stage-StageOutcome r w d =
      let P : (Bool × Psx1Result parts.Package) × io.World → Type 0 =
        λ out. StageOutcome RawDone out.0 in
      let scan = (parts.inspector_scan reset_scan w).0 in
      let found = partitions_valid format_test_strict_pfs_valid scan r.format.pfs in
      if_intro P (format_test_exact_apa scan && (format_test_mbr_valid scan && all_true found)) _ _
        (λ e.
          let a =
            and_elim (format_test_exact_apa scan) (format_test_mbr_valid scan && all_true found)
              e in
          let b = and_elim (format_test_mbr_valid scan) (all_true found) a.1 in
          goes refl (
            (d.0, AreFormatted-set_raw_valid r.format.pfs found d.1),
            a.0,
            b.0,
            ap all_true (partitions_valid-set_raw_valid _ scan r.format.pfs found) ∙ b.1,
          ))
        (λ _. fails refl (fail-IsFailed _ 6 (negsuc 0) d.0.0.0 (omega arith) (omega arith)))

  install_stage-StageOutcome :
      (r : Psx1Result parts.Package) (w : io.World)
      → RawDone r
      → StageOutcome
          (FilesDone io parts drive formatter fuel)
          (install_stage io parts drive formatter fuel r w).0
  unfolding install_stage
  install_stage-StageOutcome r w d =
      let P : (Bool × Psx1Result parts.Package) × io.World → Type 0 =
        λ out. StageOutcome (FilesDone io parts drive formatter fuel) out.0 in
      let installed = (parts.installer_execute r.installer w).0 in
      if_intro P (parts.system_files_install_valid installed) _ _ (λ e. goes refl (d, e, e))
        (λ _. fails refl (
          fail-IsFailed _ 7 (parts.failure_return installed) d.0.0.0.0 (omega arith) (omega arith)))

  final_stage-StageOutcome :
      (r : Psx1Result parts.Package) (w : io.World)
      → FilesDone io parts drive formatter fuel r
      → StageOutcome
          (IsInstalled io parts drive formatter fuel)
          (final_stage io parts drive formatter fuel r w).0
  unfolding final_stage
  final_stage-StageOutcome r w d =
      let P : (Bool × Psx1Result parts.Package) × io.World → Type 0 =
        λ out. StageOutcome (IsInstalled io parts drive formatter fuel) out.0 in
      let scan = (parts.inspector_scan reset_scan w).0 in
      let found = partitions_valid installed_pfs_valid scan r.format.pfs in
      let storage = format_test_exact_apa scan && (format_test_mbr_valid scan && all_true found) in
      let valid = storage && (r.all_package_files_valid && not r.format.stopped_on_error) in
      if_intro P valid _ _
        (λ e.
          let s = and_elim storage (r.all_package_files_valid && not r.format.stopped_on_error) e in
          let a =
            and_elim (format_test_exact_apa scan) (format_test_mbr_valid scan && all_true found)
              s.0 in
          let b = and_elim (format_test_mbr_valid scan) (all_true found) a.1 in
          goes refl (
            e, d.0.0.0.0.1, d.0.0.0.1, d.0.0.0.2, d.0.0.1, d.0.1, d.0.2, d.0.3, d.1, a.0, b.0, b.1,
          ))
        (λ e. fails refl (fail-IsFailed _ 8 (negsuc 0) e (omega arith) (omega arith)))

  pub run_stages-Leads :
      (mode : Bool)
      → Leads IsFailed IsBegun
          (run_stages (stages io parts drive formatter fuel mode))
          (IsInstalled io parts drive formatter fuel)
  run_stages-Leads mode =
      let I = IsInstalled io parts drive formatter fuel in
      let F = FilesDone io parts drive formatter fuel in
      run_stages-cons IsFailed IsBegun IsBegun I (recovery_stage io parts drive formatter fuel mode)
        _ (recovery_stage-StageOutcome io parts drive formatter fuel mode)
        (run_stages-cons IsFailed IsBegun ApaDone I (apa_stage io parts drive formatter fuel mode) _
          (apa_stage-StageOutcome io parts drive formatter fuel mode)
          (run_stages-cons IsFailed ApaDone PfsDone I (pfs_stage io parts drive formatter fuel) _
            (pfs_stage-StageOutcome io parts drive formatter fuel)
            (run_stages-cons IsFailed PfsDone RawDone I (raw_stage io parts drive formatter fuel) _
              raw_stage-StageOutcome
              (run_stages-cons IsFailed RawDone F I (install_stage io parts drive formatter fuel) _
                install_stage-StageOutcome
                (run_stages-cons IsFailed F I I (final_stage io parts drive formatter fuel) []
                  final_stage-StageOutcome (run_stages-nil IsFailed I))))))

  outcome-Ends :
      (out : Bool × Psx1Result parts.Package)
      → StageOutcome (IsInstalled io parts drive formatter fuel) out
      → IsInstalled io parts drive formatter fuel (stopped io parts drive formatter fuel out.1)
        ⊎ IsFailed (stopped io parts drive formatter fuel out.1)
  outcome-Ends out (goes e q) = inl q
  outcome-Ends out (fails e q) = inr q

  -- An installation that starts with a valid preflight, from a result without a success or a failure,
  -- ends in one of two ways. Either the report is a success, and every stage has succeeded: the disk
  -- was formatted, its layout, boot record and empty partitions were found, the files were
  -- installed, and the layout, the boot record and the partitions were found again afterwards. Or
  -- the report is no success and names the step that failed, one of 1 to 8.
  pub psx1_execute_ends :
      (r : Psx1Result parts.Package) (w : io.World)
      → IsBegun r
      → r.preflight_valid ≡ true
      → let out = (psx1_execute io parts drive formatter fuel r w).0 in
        IsInstalled io parts drive formatter fuel out ⊎ IsFailed out
  unfolding psx1_execute psx1_execute_internal
  psx1_execute_ends r w h p =
      let start =
        confirmed io parts drive formatter fuel
          record r { format = record r.format { recovery_available = false } } in
      let done = run_stages (stages io parts drive formatter fuel false) start w in
      let ends = outcome-Ends done.0 (run_stages-Leads false start w h) in
      let P : Psx1Result parts.Package × io.World → Type 0 =
        λ out. IsInstalled io parts drive formatter fuel out.0 ⊎ IsFailed out.0 in
      if_intro P (not r.preflight_valid) _ _ (λ e. both r.preflight_valid e p) (λ _. ends)
