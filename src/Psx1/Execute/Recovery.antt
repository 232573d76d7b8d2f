-- ===== src/Psx1/Execute/Recovery.antt =====
-- `psx1_execute_recovery` of src/psx1_pipeline.c is offered at most once, and the scans behind a format
-- are at most four.
use mathlib.Core.Path.{subst}
use repair_box_psx_hdd_setup.Base.{
  ℕ, zero, suc, ◌+◌, ◌≤◌, is_negative, ◌≡◌, refl, sym, Bool, true, false, not, ◌&&◌, List, [], ◌∷◌,
  ◌==◌, ==_iff, if_intro, arith,
}
use repair_box_psx_hdd_setup.Base.Stages.{run_stages}
use repair_box_psx_hdd_setup.FileXio.{FileXio}
use repair_box_psx_hdd_setup.Drive.{Drive}
use repair_box_psx_hdd_setup.FormatTest.Session.{FormatStage}
use repair_box_psx_hdd_setup.FormatTest.{
  format_test_exact_apa, format_test_mbr_valid, format_test_strict_pfs_valid,
}
use repair_box_psx_hdd_setup.Psx1.{Parts, Psx1Result, reset_scan, psx1_recovery_available}
use repair_box_psx_hdd_setup.Psx1.Cleanup.{cleanup_old_apa_headers}
use repair_box_psx_hdd_setup.Psx1.FormatJob.{
  Formatter, format_job_apa, format_job_pfs, run_format_job,
}
use repair_box_psx_hdd_setup.Psx1.Execute.{
  Stage, fail, all_true, partitions_valid, installed_pfs_valid, validate_loop,
  validate_apa_after_format, recovery_stage, validate_stage, apa_stage, pfs_loop, pfs_stage,
  raw_stage, install_stage, final_stage, psx1_execute_internal, psx1_execute_recovery,
  recovery_start, confirmed, stages,
}

abbrev NotOffered : {P : Type 0} → Psx1Result P → Type 0
NotOffered r = r.format.recovery_available ≡ false

-- A stage that does not offer the recovery.
abbrev OffersNothing : {W P : Type 0} → Stage W P → Type 0
OffersNothing {W} {P} stage = (r : Psx1Result P) (w : W) → NotOffered r → NotOffered (stage r w).0.1

AllOfferNothing : {W P : Type 0} → List (Stage W P) → Type 0
AllOfferNothing [] = Unit {0}
AllOfferNothing (stage ∷ stages) = OffersNothing stage × AllOfferNothing stages

run_stages-NotOffered :
    {W P : Type 0} (stages : List (Stage W P))
    → AllOfferNothing stages
    → OffersNothing (run_stages stages)
unfolding run_stages AllOfferNothing
run_stages-NotOffered [] a r w h = h
run_stages-NotOffered {W = W} {P = P} (stage ∷ stages) a r w h =
    let Q : (Bool × Psx1Result P) × W → Type 0 = λ out. NotOffered out.0.1 in
    let out = stage r w in
    let after = a.0 r w h in
    if_intro Q out.0.0 _ _ (λ _. run_stages-NotOffered stages a.1 out.0.1 out.1 after) (λ _. after)

refused : (a b : Bool) → a ≡ false → a && b ≡ false
refused true b h = cc
refused false b h = refl

negated : (b : Bool) → not b ≡ true → b ≡ false
negated true h = sym h
negated false h = refl

module _ (io : FileXio) (parts : Parts io) (drive : Drive io) (formatter : Formatter io)
    (fuel : ℕ) where
  validate_loop-NotOffered :
      (left : ℕ) (r : Psx1Result parts.Package) (w : io.World)
      → NotOffered r
      → NotOffered (validate_loop io parts drive formatter fuel left r w).0.1
  unfolding validate_loop
  validate_loop-NotOffered zero r w d = d
  validate_loop-NotOffered (suc left) r w d =
      let P : (Bool × Psx1Result parts.Package) × io.World → Type 0 = λ out. NotOffered out.0.1 in
      let scan = parts.inspector_scan_layout reset_scan w in
      if_intro P (format_test_exact_apa scan.0 && format_test_mbr_valid scan.0) _ _ (λ _. d)
        λ _. if_intro P (left == 0) _ _ (λ _. d) λ _. validate_loop-NotOffered left _ _ d

  -- Whether a scan in this state of the devices finds the layout and the boot record.
  abbrev finds : io.World → Bool
  finds w =
      let scan = (parts.inspector_scan_layout reset_scan w).0 in
      format_test_exact_apa scan && format_test_mbr_valid scan

  -- So many scans, one after the other, each but the first behind a flush of the drive, of which only
  -- the last can find the layout.
  pub data Scanned : ℕ → io.World → io.World → Bool → Type 0 where
    last_scan :
        (w : io.World) → Scanned (suc zero) w (parts.inspector_scan_layout reset_scan w).1 (finds w)
    scan_again :
        (n : ℕ) (w w' : io.World) (found : Bool)
        → finds w ≡ false
        → Scanned n (drive.flush (parts.inspector_scan_layout reset_scan w).1).1 w' found
        → Scanned (suc n) w w' found

  -- What the loop with so many scans left has done.
  abbrev pub IsScanned : ℕ → ℕ → io.World → (Bool × Psx1Result parts.Package) × io.World → Type 0
  IsScanned left before w out =
      (n : ℕ) × (1 ≤ n)
      × (n ≤ left)
      × Scanned n w out.1 out.0.0
      × (out.0.1.format.post_format_scan_attempts ≡ n + before)
      × (out.0.0 ≡ false → n ≡ left)

  one_scan :
      (w : io.World) (b : Bool)
      → finds w ≡ b
      → Scanned 1 w (parts.inspector_scan_layout reset_scan w).1 b
  one_scan w b e = subst (Scanned 1 w _) e (last_scan w)

  validate_loop-IsScanned :
      (left : ℕ) (r : Psx1Result parts.Package) (w : io.World)
      → 1 ≤ left
      → IsScanned left r.format.post_format_scan_attempts w
          (validate_loop io parts drive formatter fuel left r w)
  unfolding validate_loop
  validate_loop-IsScanned zero r w l = absurd (omega arith)
  validate_loop-IsScanned (suc left) r w l =
      let before = r.format.post_format_scan_attempts in
      let P : (Bool × Psx1Result parts.Package) × io.World → Type 0 =
        λ out. IsScanned (suc left) before w out in
      if_intro P (finds w) _ _
        (λ e. (1, omega arith, omega arith, one_scan w true e, omega arith, λ f. cc))
        λ e.
          if_intro P (left == 0) _ _
            (λ z. (
              1,
              omega arith,
              omega arith,
              one_scan w false e,
              omega arith,
              λ _. omega (arith, (==_iff left 0).0 z),
            ))
            λ z.
              let k = validate_loop-IsScanned left _ _ (ground arith) in
              (
                suc k.0,
                omega arith,
                omega (arith, k.2),
                scan_again k.0 w _ _ e k.3,
                omega (arith, k.4),
                λ f. omega (arith, k.5 f),
              )

  validate_stage-NotOffered : OffersNothing (validate_stage io parts drive formatter fuel true)
  unfolding validate_stage validate_apa_after_format fail
  validate_stage-NotOffered r w d =
      let P : (Bool × Psx1Result parts.Package) × io.World → Type 0 = λ out. NotOffered out.0.1 in
      let out = validate_apa_after_format io parts drive formatter fuel r w in
      if_intro P out.0.0 _ _ (λ _. validate_loop-NotOffered 4 _ w d) (λ _. refl)

  apa_stage-NotOffered : OffersNothing (apa_stage io parts drive formatter fuel true)
  unfolding apa_stage fail
  apa_stage-NotOffered r w d =
      let P : (Bool × Psx1Result parts.Package) × io.World → Type 0 = λ out. NotOffered out.0.1 in
      let ran = run_format_job io formatter fuel format_job_apa [] w in
      if_intro P (is_negative ran.0) _ _ (λ _. d) λ _. validate_stage-NotOffered _ ran.1 d

  recovery_stage-NotOffered : OffersNothing (recovery_stage io parts drive formatter fuel true)
  unfolding recovery_stage fail
  recovery_stage-NotOffered r w d =
      let P : (Bool × Psx1Result parts.Package) × io.World → Type 0 = λ out. NotOffered out.0.1 in
      let cleaned = cleanup_old_apa_headers io drive r.format.preflight.physical_sector_count w in
      if_intro P (is_negative cleaned.0.result) _ _ (λ _. d) (λ _. d)

  pfs_loop-NotOffered :
      (index : ℕ) (done rest : List FormatStage)
      → OffersNothing (pfs_loop io parts drive formatter fuel index done rest)
  unfolding pfs_loop fail
  pfs_loop-NotOffered index done [] r w d = d
  pfs_loop-NotOffered index done (stage ∷ rest) r w d =
      let P : (Bool × Psx1Result parts.Package) × io.World → Type 0 = λ out. NotOffered out.0.1 in
      let ran = run_format_job io formatter fuel format_job_pfs stage.blockdev w in
      if_intro P (is_negative ran.0) _ _ (λ _. d)
        λ _. pfs_loop-NotOffered (suc index) _ rest _ ran.1 d

  pfs_stage-NotOffered : OffersNothing (pfs_stage io parts drive formatter fuel)
  unfolding pfs_stage
  pfs_stage-NotOffered r w d = pfs_loop-NotOffered 0 [] r.format.pfs r w d

  raw_stage-NotOffered : OffersNothing (raw_stage io parts drive formatter fuel)
  unfolding raw_stage fail
  raw_stage-NotOffered r w d =
      let P : (Bool × Psx1Result parts.Package) × io.World → Type 0 = λ out. NotOffered out.0.1 in
      let scan = (parts.inspector_scan reset_scan w).0 in
      let found = partitions_valid format_test_strict_pfs_valid scan r.format.pfs in
      if_intro P (format_test_exact_apa scan && (format_test_mbr_valid scan && all_true found)) _ _
        (λ _. d) (λ _. d)

  install_stage-NotOffered : OffersNothing (install_stage io parts drive formatter fuel)
  unfolding install_stage fail
  install_stage-NotOffered r w d =
      let P : (Bool × Psx1Result parts.Package) × io.World → Type 0 = λ out. NotOffered out.0.1 in
      let installed = (parts.installer_execute r.installer w).0 in
      if_intro P (parts.system_files_install_valid installed) _ _ (λ _. d) (λ _. d)

  final_stage-NotOffered : OffersNothing (final_stage io parts drive formatter fuel)
  unfolding final_stage fail
  final_stage-NotOffered r w d =
      let P : (Bool × Psx1Result parts.Package) × io.World → Type 0 = λ out. NotOffered out.0.1 in
      let scan = (parts.inspector_scan reset_scan w).0 in
      let found = partitions_valid installed_pfs_valid scan r.format.pfs in
      let storage = format_test_exact_apa scan && (format_test_mbr_valid scan && all_true found) in
      if_intro P (storage && (r.all_package_files_valid && not r.format.stopped_on_error)) _ _
        (λ _. d) (λ _. d)

  stages-NotOffered : AllOfferNothing (stages io parts drive formatter fuel true)
  unfolding AllOfferNothing
  stages-NotOffered = (
    recovery_stage-NotOffered,
    (
      apa_stage-NotOffered,
      (
        pfs_stage-NotOffered,
        (raw_stage-NotOffered, (install_stage-NotOffered, (final_stage-NotOffered, tt))),
      ),
    ),
  )

  not_available : (r : Psx1Result parts.Package) → NotOffered r → psx1_recovery_available r ≡ false
  unfolding psx1_recovery_available
  not_available r h = refused r.format.recovery_available _ h

  execute_internal-NotOffered :
      (r : Psx1Result parts.Package) (w : io.World)
      → NotOffered r
      → NotOffered (psx1_execute_internal io parts drive formatter fuel true r w).0
  unfolding psx1_execute_internal
  execute_internal-NotOffered r w h =
      let P : Psx1Result parts.Package × io.World → Type 0 = λ out. NotOffered out.0 in
      if_intro P (not r.preflight_valid) _ _ (λ _. h)
        (λ _.
          run_stages-NotOffered (stages io parts drive formatter fuel true) stages-NotOffered
            (confirmed io parts drive formatter fuel r) w h)

  -- The recovery is offered at most once: after `psx1_execute_recovery`, whatever came of it and
  -- whether or not it was available, `psx1_recovery_available` answers no.
  pub recovery_only_once :
      (r : Psx1Result parts.Package) (w : io.World)
      → psx1_recovery_available (psx1_execute_recovery io parts drive formatter fuel r w).0 ≡ false
  unfolding psx1_execute_recovery recovery_start
  recovery_only_once r w =
      let P : Psx1Result parts.Package × io.World → Type 0 =
        λ out. psx1_recovery_available out.0 ≡ false in
      if_intro P (not (psx1_recovery_available r)) _ _ (λ e. negated (psx1_recovery_available r) e)
        (λ _.
          not_available _
            (execute_internal-NotOffered (recovery_start io parts drive formatter fuel r) w refl))

  -- Behind a format the drive is scanned at least once and at most four times, each time but the
  -- first behind a flush, and each scan but the last has not found the layout and the boot record; the
  -- answer is that of the last scan, the number of scans is reported, and no is answered only after
  -- four.
  pub validate_attempts :
      (r : Psx1Result parts.Package) (w : io.World)
      → IsScanned 4 0 w (validate_apa_after_format io parts drive formatter fuel r w)
  unfolding validate_apa_after_format
  validate_attempts r w = validate_loop-IsScanned 4 _ w (omega arith)
