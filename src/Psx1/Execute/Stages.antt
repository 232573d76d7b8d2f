-- ===== src/Psx1/Execute/Stages.antt =====
-- The stages of `psx1_execute` of src/psx1_pipeline.c up to the format of the partitions: what each has
-- shown where it goes on, and that it reports a failed step where it does not.
use mathlib.Core.Path.{subst}
use repair_box_psx_hdd_setup.Base.{
  ℕ, zero, suc, ◌+◌, ◌≤◌, ℤ, pos, negsuc, is_negative, ◌≡◌, refl, sym, ap, ◌∙◌, Bool, true, false,
  ◌&&◌, List, [], ◌∷◌, ◌++◌, append-nil, length, ◌==◌, if_intro, arith,
}
use repair_box_psx_hdd_setup.Base.Stages.{EndsBy, goes, fails}
use repair_box_psx_hdd_setup.FileXio.{FileXio}
use repair_box_psx_hdd_setup.Drive.{Drive}
use repair_box_psx_hdd_setup.Inspector.{InspectorData, ApaEntry}
use repair_box_psx_hdd_setup.FormatTest.Session.{FormatStage}
use repair_box_psx_hdd_setup.FormatTest.{
  format_test_exact_apa, format_test_mbr_valid, format_test_strict_pfs_valid,
}
use repair_box_psx_hdd_setup.Psx1.{Parts, Psx1Result, reset_scan}
use repair_box_psx_hdd_setup.Psx1.Cleanup.{cleanup_old_apa_headers}
use repair_box_psx_hdd_setup.Psx1.FormatJob.{
  Formatter, format_job_apa, format_job_pfs, run_format_job,
}
use repair_box_psx_hdd_setup.Psx1.Execute.{
  fail, set_raw_valid, entry_valid, find_entry, all_true, partitions_valid, installed_pfs_valid,
  validate_loop, validate_apa_after_format, recovery_stage, validate_stage, apa_stage, pfs_loop,
  pfs_stage,
}

-- The result has no success and no failure yet.
abbrev pub IsOpen : {P : Type 0} → Psx1Result P → Type 0
IsOpen r = (r.psx1_installation_valid ≡ false) × (r.format.stopped_on_error ≡ false)

-- The result says that a step failed, and which of the eight.
abbrev pub IsFailed : {P : Type 0} → Psx1Result P → Type 0
IsFailed r =
    (r.psx1_installation_valid ≡ false)
    × (r.format.stopped_on_error ≡ true)
    × ((n : ℕ) × (r.format.failed_step ≡ pos n) × (1 ≤ n) × (n ≤ 8))

-- A stage goes on with `Q` or stops with a failed result.
abbrev pub StageOutcome : {P : Type 0} → (Psx1Result P → Type 0) → Bool × Psx1Result P → Type 0
StageOutcome Q out = EndsBy IsFailed Q out

pub fail-IsFailed :
    {P : Type 0} (r : Psx1Result P) (n : ℕ) (value : ℤ)
    → r.psx1_installation_valid ≡ false
    → 1 ≤ n
    → n ≤ 8
    → IsFailed (fail r (pos n) value)
unfolding fail
fail-IsFailed r n value h a b = (h, refl, (n, refl, a, b))

-- The stages that are formatted.
abbrev pub AreFormatted : List FormatStage → Type 0
AreFormatted [] = Unit {0}
AreFormatted (stage ∷ stages) =
    (stage.attempted ≡ true) × (is_negative stage.return_value ≡ false) × AreFormatted stages

pub AreFormatted-append :
    (xs ys : List FormatStage) → AreFormatted xs → AreFormatted ys → AreFormatted (xs ++ ys)
AreFormatted-append [] ys h k = k
AreFormatted-append (x ∷ xs) ys h k = (h.0, h.1, AreFormatted-append xs ys h.2 k)

-- What the stages up to a point have shown.
abbrev pub ApaFormatted : {P : Type 0} → Psx1Result P → Type 0
ApaFormatted r =
    IsOpen r × (r.format.apa.attempted ≡ true) × (is_negative r.format.apa.return_value ≡ false)

abbrev pub IsBegun : {P : Type 0} → Psx1Result P → Type 0
IsBegun r = IsOpen r × (length r.format.pfs ≤ 4)

abbrev pub ApaDone : {P : Type 0} → Psx1Result P → Type 0
ApaDone r = ApaFormatted r × (length r.format.pfs ≤ 4)

abbrev pub PfsDone : {P : Type 0} → Psx1Result P → Type 0
PfsDone r = ApaFormatted r × AreFormatted r.format.pfs

abbrev pub RawDone : {P : Type 0} → Psx1Result P → Type 0
RawDone r =
    PfsDone r
    × (format_test_exact_apa r.formatted ≡ true)
    × (format_test_mbr_valid r.formatted ≡ true)
    × (all_true (partitions_valid format_test_strict_pfs_valid r.formatted r.format.pfs) ≡ true)

pub AreFormatted-set_raw_valid :
    (stages : List FormatStage) (bs : List Bool)
    → AreFormatted stages
    → AreFormatted (set_raw_valid stages bs)
unfolding set_raw_valid
AreFormatted-set_raw_valid [] bs h = h
AreFormatted-set_raw_valid (stage ∷ stages) [] h = h
AreFormatted-set_raw_valid (stage ∷ stages) (b ∷ bs) h =
    (h.0, h.1, AreFormatted-set_raw_valid stages bs h.2)

pub partitions_valid-set_raw_valid :
    (valid : ApaEntry → Bool) (scan : InspectorData) (stages : List FormatStage) (bs : List Bool)
    → partitions_valid valid scan (set_raw_valid stages bs) ≡ partitions_valid valid scan stages
unfolding set_raw_valid partitions_valid
partitions_valid-set_raw_valid valid scan [] bs = refl
partitions_valid-set_raw_valid valid scan (stage ∷ stages) [] = refl
partitions_valid-set_raw_valid valid scan (stage ∷ stages) (b ∷ bs) =
    ap (λ t. entry_valid valid (find_entry scan.apa stage.name) ∷ t)
      (partitions_valid-set_raw_valid valid scan stages bs)

module _ (io : FileXio) (parts : Parts io) (drive : Drive io) (formatter : Formatter io)
    (fuel : ℕ) where
  abbrev pub FilesDone : Psx1Result parts.Package → Type 0
  FilesDone r =
      RawDone r
      × (parts.system_files_install_valid r.installer ≡ true)
      × (r.all_package_files_valid ≡ true)

  -- The report of a success: every stage has succeeded.
  abbrev pub IsInstalled : Psx1Result parts.Package → Type 0
  IsInstalled r =
      (r.psx1_installation_valid ≡ true)
      × (r.format.stopped_on_error ≡ false)
      × (r.format.apa.attempted ≡ true)
      × (is_negative r.format.apa.return_value ≡ false)
      × AreFormatted r.format.pfs
      × (format_test_exact_apa r.formatted ≡ true)
      × (format_test_mbr_valid r.formatted ≡ true)
      × (all_true (partitions_valid format_test_strict_pfs_valid r.formatted r.format.pfs) ≡ true)
      × (parts.system_files_install_valid r.installer ≡ true)
      × (format_test_exact_apa r.final_layout ≡ true)
      × (format_test_mbr_valid r.final_layout ≡ true)
      × (all_true (partitions_valid installed_pfs_valid r.final_layout r.format.pfs) ≡ true)

  validate_loop-ApaDone :
      (left : ℕ) (r : Psx1Result parts.Package) (w : io.World)
      → ApaDone r
      → ApaDone (validate_loop io parts drive formatter fuel left r w).0.1
  unfolding validate_loop
  validate_loop-ApaDone zero r w d = d
  validate_loop-ApaDone (suc left) r w d =
      let P : (Bool × Psx1Result parts.Package) × io.World → Type 0 = λ out. ApaDone out.0.1 in
      let scan = parts.inspector_scan_layout reset_scan w in
      if_intro P (format_test_exact_apa scan.0 && format_test_mbr_valid scan.0) _ _ (λ _. d)
        λ _. if_intro P (left == 0) _ _ (λ _. d) λ _. validate_loop-ApaDone left _ _ d

  validate_stage-StageOutcome :
      (mode : Bool) (r : Psx1Result parts.Package) (w : io.World)
      → ApaDone r
      → StageOutcome ApaDone (validate_stage io parts drive formatter fuel mode r w).0
  unfolding validate_stage validate_apa_after_format
  validate_stage-StageOutcome mode r w d =
      let P : (Bool × Psx1Result parts.Package) × io.World → Type 0 =
        λ out. StageOutcome ApaDone out.0 in
      let out = validate_apa_after_format io parts drive formatter fuel r w in
      let after = validate_loop-ApaDone 4 _ w d in
      if_intro P out.0.0 _ _ (λ _. goes refl after)
        (λ _. fails refl (fail-IsFailed _ 1 (negsuc 0) after.0.0.0 (omega arith) (omega arith)))

  pub apa_stage-StageOutcome :
      (mode : Bool) (r : Psx1Result parts.Package) (w : io.World)
      → IsBegun r
      → StageOutcome ApaDone (apa_stage io parts drive formatter fuel mode r w).0
  unfolding apa_stage
  apa_stage-StageOutcome mode r w o =
      let P : (Bool × Psx1Result parts.Package) × io.World → Type 0 =
        λ out. StageOutcome ApaDone out.0 in
      let ran = run_format_job io formatter fuel format_job_apa [] w in
      if_intro P (is_negative ran.0) _ _
        (λ _. fails refl (fail-IsFailed _ 1 ran.0 o.0.0 (omega arith) (omega arith)))
        λ e. validate_stage-StageOutcome mode _ ran.1 ((o.0, refl, e), o.1)

  pub recovery_stage-StageOutcome :
      (mode : Bool) (r : Psx1Result parts.Package) (w : io.World)
      → IsBegun r
      → StageOutcome IsBegun (recovery_stage io parts drive formatter fuel mode r w).0
  unfolding recovery_stage
  recovery_stage-StageOutcome false r w o = goes refl o
  recovery_stage-StageOutcome true r w o =
      let P : (Bool × Psx1Result parts.Package) × io.World → Type 0 =
        λ out. StageOutcome IsBegun out.0 in
      let cleaned = cleanup_old_apa_headers io drive r.format.preflight.physical_sector_count w in
      if_intro P (is_negative cleaned.0.result) _ _
        (λ _. fails refl (fail-IsFailed _ 1 cleaned.0.result o.0.0 (omega arith) (omega arith)))
        (λ _. goes refl o)

  pfs_loop-StageOutcome :
      (index : ℕ) (done rest : List FormatStage) (r : Psx1Result parts.Package) (w : io.World)
      → index + length rest ≤ 6
      → ApaFormatted r
      → r.format.pfs ≡ done ++ rest
      → AreFormatted done
      → StageOutcome PfsDone (pfs_loop io parts drive formatter fuel index done rest r w).0
  unfolding pfs_loop
  pfs_loop-StageOutcome index done [] r w b d e f =
      goes refl (d, subst AreFormatted (sym (e ∙ append-nil done)) f)
  pfs_loop-StageOutcome index done (stage ∷ rest) r w b d e f =
      let P : (Bool × Psx1Result parts.Package) × io.World → Type 0 =
        λ out. StageOutcome PfsDone out.0 in
      let ran = run_format_job io formatter fuel format_job_pfs stage.blockdev w in
      if_intro P (is_negative ran.0) _ _
        (λ _. fails refl (fail-IsFailed _ (index + 2) ran.0 d.0.0 (omega arith) (omega arith)))
        λ n.
          pfs_loop-StageOutcome (suc index) _ rest _ ran.1 (omega arith) d refl
            (AreFormatted-append done _ f (refl, n, tt))

  pub pfs_stage-StageOutcome :
      (r : Psx1Result parts.Package) (w : io.World)
      → ApaDone r
      → StageOutcome PfsDone (pfs_stage io parts drive formatter fuel r w).0
  unfolding pfs_stage
  pfs_stage-StageOutcome r w d =
      pfs_loop-StageOutcome 0 [] r.format.pfs r w (omega (arith, d.1)) d.0 refl tt
