-- ===== src/DirectReady40/Execute/Stages.antt =====
-- The stages of `dr40_execute` of src/direct_ready40.c up to the file systems of the video disk: what
-- each has shown where it goes on, and that it reports a failure where it does not.
use repair_box_psx_hdd_setup.Base.{
  ℕ, ◌+◌, ◌≤◌, ◌<◌, ℤ, pos, is_negative, ◌==ℤ◌, eio, ◌≡◌, refl, inl, inr, Bool, true, Option, none,
  some, List, [], ◌∷◌, codes, length, take, if◌then◌else◌, if_intro, arith,
}
use repair_box_psx_hdd_setup.Base.Stages.{goes, fails, Step, run_stages, Leads, run_stages-cons}
use repair_box_psx_hdd_setup.Installer.{InstallerResult}
use repair_box_psx_hdd_setup.DirectReady40.{PfsResult, Console}
use repair_box_psx_hdd_setup.DirectReady40.Volume.{pfs_failure_return, format_each}
use repair_box_psx_hdd_setup.DirectReady40.Execute.{
  Session, judge_formats, refresh_after, apa_stage, normal_pfs_stage, dvr_hdd_stage, dvr_pfs_stage,
}
use repair_box_psx_hdd_setup.DirectReady40.Execute.Causes.{
  IsOpen, IsFresh, IsDisk, AreFormatted, IsPrepared, Cause, system_disk, normal_file_system,
  video_disk, video_file_system, Fails, Outcome, fail-IsStopped,
}
use repair_box_psx_hdd_setup.DirectReady40.Execute.Formats.{Formats, format_each-Formats}

module _ (c : Console) (request : InstallerResult) where
  -- The installation is still to come, with this request.
  abbrev pub Waits : InstallerResult → Type 0
  Waits r = (r ≡ request) × IsFresh request

  abbrev pub HasBegun : Session → Type 0
  HasBegun s =
      IsOpen s.0 × (length s.0.normal_pfs ≤ 4) × (length s.0.dvr_pfs ≤ 2) × Waits s.0.installer

  abbrev pub ApaDone : Session → Type 0
  ApaDone s = HasBegun s × IsDisk c (codes "hdd0:") s.0.apa

  abbrev pub NormalDone : Session → Type 0
  NormalDone s =
      IsOpen s.0
      × (length s.0.dvr_pfs ≤ 2)
      × Waits s.0.installer
      × IsDisk c (codes "hdd0:") s.0.apa
      × AreFormatted c s.0.normal_pfs

  abbrev pub DvrDone : Session → Type 0
  DvrDone s = NormalDone s × IsDisk c (codes "dvr_hdd0:") s.0.dvr_hdd

  abbrev pub FormatsDone : Session → Type 0
  FormatsDone s = IsOpen s.0 × Waits s.0.installer × IsPrepared c s.0

  apa_stage-Outcome :
      (s : Session) (w : c.io.World) → HasBegun s → Outcome c ApaDone (apa_stage c s w).0
  unfolding apa_stage refresh_after
  apa_stage-Outcome (r, d) w h =
      let Q : (Bool × Session) × c.io.World → Type 0 = λ out. Outcome c ApaDone out.0 in
      let code = c.volumes.format_disk (codes "hdd0:") w in
      if_intro Q (is_negative code.0) _ _
        (λ _. fails refl (fail-IsStopped c _ 1 _ _ _ _ h.0 (system_disk refl (inl refl))))
        λ f.
          if_intro Q _ _ _ (λ _. goes refl (h, ((refl, f), (w, refl))))
            (λ _. fails refl (fail-IsStopped c _ 1 _ _ _ _ h.0 (system_disk refl (inr refl))))

  -- Behind the formats from a stage on.
  judge_formats-Outcome :
      (stage count : ℕ) (operation : List ℕ) (out : List PfsResult × Option (ℕ × PfsResult))
      (s : Session) (Q : Session → Type 0)
      → Formats c stage count out
      → IsOpen s.0
      → (AreFormatted c out.0 → Q s)
      → ((at : ℕ) (p : PfsResult) (value : ℤ)
          → stage ≤ at
          → at < stage + count
          → Cause c (record s.0 {
            stopped_on_error = true;
            failed_phase = pos at;
            failure_return = if value ==ℤ pos 0 then eio else value;
            failure_partition = take 31 p.name;
            failure_path = take 1023 (47 ∷ []);
            failure_operation = take 63 operation;
          }))
      → Outcome c Q (judge_formats operation out.1 s)
  unfolding judge_formats
  judge_formats-Outcome stage count operation (done, none) (r, d) Q h o q k = goes refl (q h)
  judge_formats-Outcome stage count operation (done, some (at, p)) (r, d) Q h o q k =
      fails refl (fail-IsStopped c r at _ _ _ _ o (k at p (pfs_failure_return p) h.0 h.1))

  normal_pfs_stage-Outcome :
      (s : Session) (w : c.io.World) → ApaDone s → Outcome c NormalDone (normal_pfs_stage c s w).0
  unfolding normal_pfs_stage
  normal_pfs_stage-Outcome (r, d) w h =
      let out = (format_each c 2 r.normal_pfs w).0 in
      judge_formats-Outcome 2 (length r.normal_pfs) _ out (record r { normal_pfs = out.0 }, d)
        NormalDone (format_each-Formats c 2 r.normal_pfs w) h.0.0
        (λ f. (h.0.0, h.0.2, h.0.3, h.1, f))
        (λ at p value a b. normal_file_system at refl a (omega (arith, h.0.1)) refl h.1)

  dvr_hdd_stage-Outcome :
      (s : Session) (w : c.io.World) → NormalDone s → Outcome c DvrDone (dvr_hdd_stage c s w).0
  unfolding dvr_hdd_stage refresh_after
  dvr_hdd_stage-Outcome (r, d) w h =
      let Q : (Bool × Session) × c.io.World → Type 0 = λ out. Outcome c DvrDone out.0 in
      let code = c.volumes.format_disk (codes "dvr_hdd0:") w in
      if_intro Q (is_negative code.0) _ _
        (λ _. fails refl (fail-IsStopped c _ 6 _ _ _ _ h.0 (video_disk refl (inl refl) h.3 h.4)))
        λ f.
          if_intro Q _ _ _ (λ _. goes refl (h, ((refl, f), (w, refl))))
            (λ _.
              fails refl (fail-IsStopped c _ 6 _ _ _ _ h.0 (video_disk refl (inr refl) h.3 h.4)))

  dvr_pfs_stage-Outcome :
      (s : Session) (w : c.io.World) → DvrDone s → Outcome c FormatsDone (dvr_pfs_stage c s w).0
  unfolding dvr_pfs_stage
  dvr_pfs_stage-Outcome (r, d) w h =
      let out = (format_each c 7 r.dvr_pfs w).0 in
      judge_formats-Outcome 7 (length r.dvr_pfs) _ out (record r { dvr_pfs = out.0 }, d) FormatsDone
        (format_each-Formats c 7 r.dvr_pfs w) h.0.0 (λ f. (h.0.0, h.0.2, (h.0.3, h.0.4, h.1, f)))
        (λ at p value a b. video_file_system at refl a (omega (arith, h.0.1)) refl h.0.3 h.0.4 h.1)

  -- The four stages that format.
  pub formats-Leads :
      (rest : List (Step c.io.World Session)) (Q : Session → Type 0)
      → Leads (Fails c) FormatsDone (run_stages rest) Q
      → Leads
          (Fails c)
          HasBegun
          (run_stages (apa_stage c ∷ normal_pfs_stage c ∷ dvr_hdd_stage c ∷ dvr_pfs_stage c ∷ rest))
          Q
  formats-Leads rest Q go =
      run_stages-cons (Fails c) HasBegun ApaDone Q (apa_stage c) _ apa_stage-Outcome (
        run_stages-cons (Fails c) ApaDone NormalDone Q (normal_pfs_stage c) _
          normal_pfs_stage-Outcome
          (run_stages-cons (Fails c) NormalDone DvrDone Q (dvr_hdd_stage c) _ dvr_hdd_stage-Outcome
            (run_stages-cons (Fails c) DvrDone FormatsDone Q (dvr_pfs_stage c) rest
              dvr_pfs_stage-Outcome go)))
