-- ===== src/Installer/Execute/Outcome.antt =====
-- What the report of `installer_execute` of src/installer.c means.
use repair_box_psx_hdd_setup.Base.{
  ℕ, suc, is_negative, ◌==ℤ◌, ebusy, ◌≡◌, refl, ◌⊎◌, inl, inr, Bool, true, false, not, ◌&&◌, ◌||◌,
  List, [], ◌∷◌, ◌++◌, codes, length, ◌==◌, ==_iff, take, if◌then◌else◌, if_intro, and_elim,
  Bool-cases, not-false, arith,
}
use repair_box_psx_hdd_setup.FileXio.{FileXio}
use repair_box_psx_hdd_setup.Drive.{Mounts}
use repair_box_psx_hdd_setup.Xfrom.Copy.{SourceMedia}
use repair_box_psx_hdd_setup.Installer.{
  PartitionResult, InstallerResult, IsLeft, AreLeft, no_failure,
}
use repair_box_psx_hdd_setup.Installer.Execute.Task.{
  negated, set_failure-HasFailed, clash, AllCopied,
}
use repair_box_psx_hdd_setup.Installer.Execute.Copied.{install_loop-AllCopied}
use repair_box_psx_hdd_setup.Installer.Execute.{
  Filling, install_items, unmount, fill_partition, use_mounted, install_partition, install_loop,
  verified_total, judge_install, installer_execute,
}

AreLeft-append : (xs ys : List PartitionResult) → AreLeft xs → AreLeft ys → AreLeft (xs ++ ys)
AreLeft-append [] ys h k = k
AreLeft-append (x ∷ xs) ys h k = (h.0, AreLeft-append xs ys h.1 k)

-- Where no failure is reported, the partition is left as it was found.
abbrev LeftUnlessFailed : Filling → Type 0
LeftUnlessFailed state = no_failure state.0 ≡ true → IsLeft state.1

-- The partition that goes on, skipped or filled.
both :
    (skip : Bool) (r r' : InstallerResult) (p p' : PartitionResult)
    → IsLeft p
    → LeftUnlessFailed (r', p')
    → LeftUnlessFailed (if skip then r else r', if skip then p else p')
both true r r' p p' h k = λ _. h
both false r r' p p' h k = k

permitted :
    (mask : ℕ) (scanned confirmed locked : Bool)
    → not (mask == 0) || (not scanned || (not confirmed || locked)) ≡ false
    → (mask ≡ 0) × (scanned ≡ true) × (confirmed ≡ true) × (locked ≡ false)
permitted mask scanned confirmed locked h = ground arith

module _ (io : FileXio) (mounts : Mounts io) (media : SourceMedia) (stack : List ℕ) (fuel : ℕ) where
  unmount-LeftUnlessFailed :
      (state : Filling) (w : io.World)
      → LeftUnlessFailed (unmount io mounts media stack fuel state w).0
  unfolding unmount
  unmount-LeftUnlessFailed (r, partition) w =
      let P : Filling × io.World → Type 0 = λ out. LeftUnlessFailed out.0 in
      let code = (mounts.umount partition.mountpoint w).0 in
      let p' = record partition { umount_attempted = true; umount_result = code } in
      let Q : InstallerResult → Type 0 = λ x. LeftUnlessFailed (x, p') in
      let dirty = record r { all_unmounted_cleanly = false } in
      if_intro P (not partition.mount_owned) _ _ (λ e _. inl (negated partition.mount_owned e))
        (λ _.
          if_intro Q (is_negative code) _ _
            (λ _ ok.
              clash _ (set_failure-HasFailed dirty code partition.name (47 ∷ []) (codes "umount"))
                ok)
            (λ e _. inr (refl, e)))

  fill_partition-LeftUnlessFailed :
      (index : ℕ) (state : Filling) (w : io.World)
      → LeftUnlessFailed (fill_partition io mounts media stack fuel index state w).0
  unfolding fill_partition
  fill_partition-LeftUnlessFailed index (r, partition) w =
      let filled = install_items io mounts media stack fuel index r.items (r, partition) w in
      unmount-LeftUnlessFailed filled.0 filled.1

  use_mounted-LeftUnlessFailed :
      (index : ℕ) (state : Filling) (w : io.World)
      → LeftUnlessFailed (use_mounted io mounts media stack fuel index state w).0
  unfolding use_mounted
  use_mounted-LeftUnlessFailed index (r, partition) w =
      let P : Filling × io.World → Type 0 = λ out. LeftUnlessFailed out.0 in
      let fd = io.dopen (take 31 (partition.root_prefix ++ (47 ∷ []))) w in
      let closed = io.dclose fd.0 fd.1 in
      let operation = codes "probe_preexisting_mount" in
      if_intro P (is_negative fd.0) _ _
        (λ _ ok. clash _ (set_failure-HasFailed r fd.0 partition.name (47 ∷ []) operation) ok)
        λ _.
          if_intro P (is_negative closed.0) _ _
            (λ _ ok.
              clash _ (set_failure-HasFailed r closed.0 partition.name (47 ∷ []) operation) ok)
            (λ _. fill_partition-LeftUnlessFailed index _ closed.1)

  install_partition-LeftUnlessFailed :
      (index : ℕ) (state : Filling) (w : io.World)
      → LeftUnlessFailed (install_partition io mounts media stack fuel index state w).0
  unfolding install_partition
  install_partition-LeftUnlessFailed index (r, partition) w =
      let P : Filling × io.World → Type 0 = λ out. LeftUnlessFailed out.0 in
      let code = mounts.mount partition.mountpoint partition.blockdev w in
      if_intro P (not (is_negative code.0)) _ _
        (λ _. fill_partition-LeftUnlessFailed index _ code.1)
        λ _.
          if_intro P (partition.allow_preexisting_mount && (code.0 ==ℤ ebusy)) _ _
            (λ _. use_mounted-LeftUnlessFailed index _ code.1)
            (λ _ ok.
              clash _ (set_failure-HasFailed r code.0 partition.name (47 ∷ []) (codes "mount_rw"))
                ok)

  install_loop-AreLeft :
      (index : ℕ) (done rest : List PartitionResult) (r : InstallerResult) (w : io.World)
      → (no_failure r ≡ true → AreLeft done)
      → AreLeft rest
      → let out = (install_loop io mounts media stack fuel index done rest r w).0 in
        no_failure out ≡ true → AreLeft out.partitions
  unfolding install_loop
  install_loop-AreLeft index done [] r w d h = d
  install_loop-AreLeft index done (p ∷ rest) r w d h =
      let P : InstallerResult × io.World → Type 0 =
        λ out. no_failure out.0 ≡ true → AreLeft out.0.partitions in
      let installed = install_partition io mounts media stack fuel index (r, p) w in
      let skip = p.source_files == 0 in
      let after = if skip then r else installed.0.0 in
      let filled = if skip then p else installed.0.1 in
      let world = if skip then w else installed.1 in
      if_intro P (not (no_failure r)) _ _ (λ _ ok. AreLeft-append done (p ∷ rest) (d ok) h)
        λ e.
          let fine = not-false (no_failure r) e in
          let left : LeftUnlessFailed (after, filled) =
            both skip r installed.0.0 p installed.0.1 h.0
              (install_partition-LeftUnlessFailed index (r, p) w) in
          install_loop-AreLeft (suc index) (done ++ (filled ∷ [])) rest after world
            (λ ok. AreLeft-append done (filled ∷ []) (d fine) (left ok, tt)) h.1

  -- The report of a success.
  abbrev pub IsComplete : InstallerResult → InstallerResult → Type 0
  IsComplete r out =
      (r.preflight_failure_mask ≡ 0)
      × (r.source_scan_valid ≡ true)
      × (r.confirmation_received ≡ true)
      × (r.session_write_locked ≡ false)
      × (no_failure out ≡ true)
      × (out.all_unmounted_cleanly ≡ true)
      × (verified_total io mounts media stack fuel out.partitions ≡ out.source_file_count)
      × AllCopied io mounts media stack fuel r 0 r.partitions
      × AreLeft out.partitions

  -- An installation whose partitions are not mounted by the program before either reports no success,
  -- or it was permitted, no failure is reported, and of each partition for which the scan has found
  -- files every file of the listing was copied: in some state of the devices the bytes that its source
  -- delivered were written to its destination, and what was read back of the destination behind that
  -- has their SHA-256 and the size in the listing. The counter of the verified files is that of the
  -- listing, and every partition that was mounted was unmounted.
  pub installer_execute-IsComplete :
      (r : InstallerResult) (w : io.World)
      → length stack ≡ 64
      → r.system_files_install_valid ≡ false
      → AreLeft r.partitions
      → let out = (installer_execute io mounts media stack fuel r w).0 in
        (out.system_files_install_valid ≡ false) ⊎ IsComplete r out
  unfolding installer_execute judge_install
  installer_execute-IsComplete r w s v h =
      let P : InstallerResult × io.World → Type 0 =
        λ out. (out.0.system_files_install_valid ≡ false) ⊎ IsComplete r out.0 in
      let started = record r {
        session_write_locked = true;
        install_attempted = true;
        all_unmounted_cleanly = true;
      } in
      let installed = (install_loop io mounts media stack fuel 0 [] r.partitions started w).0 in
      let total = verified_total io mounts media stack fuel installed.partitions in
      let counted = total == installed.source_file_count in
      let valid = no_failure installed && (installed.all_unmounted_cleanly && counted) in
      if_intro P
        (not (r.preflight_failure_mask == 0)
          || (not r.source_scan_valid || (not r.confirmation_received || r.session_write_locked)))
        _ _ (λ _. inl v)
        λ e. elim (Bool-cases valid) [
          | inl ok ↦
              let a =
                and_elim (no_failure installed) (installed.all_unmounted_cleanly && counted) ok in
              let b = and_elim installed.all_unmounted_cleanly counted a.1 in
              let g =
                permitted r.preflight_failure_mask r.source_scan_valid r.confirmation_received
                  r.session_write_locked e in
              inr (
                g.0,
                g.1,
                g.2,
                g.3,
                a.0,
                b.0,
                (==_iff total installed.source_file_count).0 b.1,
                (install_loop-AllCopied io mounts media stack fuel 0 [] r.partitions started w s
                    a.0).1,
                install_loop-AreLeft 0 [] r.partitions started w (λ _. tt) h a.0,
              )
          | inr incomplete ↦ inl incomplete
        ]
