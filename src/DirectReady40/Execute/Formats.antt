-- ===== src/DirectReady40/Execute/Formats.antt =====
-- The file systems of `dr40_execute` of src/direct_ready40.c: what a format and a check of them leave
-- noted.
use repair_box_psx_hdd_setup.Base.{
  ℕ, suc, ◌+◌, ◌≤◌, ◌<◌, is_negative, ◌==ℤ◌, ◌≡◌, refl, Bool, true, not, ebusy, Option, none, some,
  List, [], ◌∷◌, length, ◌&&◌, and_elim, if_intro, arith,
}
use repair_box_psx_hdd_setup.DirectReady40.{Operation, PfsResult, Console}
use repair_box_psx_hdd_setup.DirectReady40.Volume.{
  is_dvr, unchecked, check_mounted, list_root, validate_pfs_read_only, format_and_validate_pfs,
  format_each, validate_each,
}
use repair_box_psx_hdd_setup.DirectReady40.Execute.Causes.{
  IsDone, IsSound, AreSound, judge_pfs-IsSound, IsFormatted, AreFormatted,
}

module _ (c : Console) where
  -- What a run over file systems from a stage on says: all are formatted, or one of the stages failed.
  abbrev pub Formats : ℕ → ℕ → List PfsResult × Option (ℕ × PfsResult) → Type 0
  Formats stage count (done, none) = AreFormatted c done
  Formats stage count (done, some (at, p)) = (stage ≤ at) × (at < stage + count)

  one_more :
      (stage count : ℕ) (p : PfsResult) (done : List PfsResult) (failed : Option (ℕ × PfsResult))
      → IsFormatted c p.format p.format_device p.blockdev p.zone
      → Formats (suc stage) count (done, failed)
      → Formats stage (suc count) (p ∷ done, failed)
  one_more stage count p done none h k = (h, k)
  one_more stage count p done (some (at, q)) h k = (omega (arith, k.0), omega (arith, k.1))

  list_root_keeps :
      (P : Operation → List ℕ → List ℕ → ℕ → Type 0) (p : PfsResult) (w : c.io.World)
      → P p.format p.format_device p.blockdev p.zone
      → let out = (list_root c p w).0 in P out.format out.format_device out.blockdev out.zone
  unfolding list_root
  list_root_keeps P p w h =
      let Q : PfsResult × c.io.World → Type 0 =
        λ out. P out.0.format out.0.format_device out.0.blockdev out.0.zone in
      if_intro Q (is_negative (c.io.dopen p.root_path w).0) _ _ (λ _. h) (λ _. h)

  check_mounted_keeps :
      (P : Operation → List ℕ → List ℕ → ℕ → Type 0) (p : PfsResult) (w : c.io.World)
      → P p.format p.format_device p.blockdev p.zone
      → let out = (check_mounted c p w).0 in P out.format out.format_device out.blockdev out.zone
  unfolding check_mounted
  check_mounted_keeps P p w h =
      let Q : PfsResult × c.io.World → Type 0 =
        λ out. P out.0.format out.0.format_device out.0.blockdev out.0.zone in
      let size = c.volumes.zone_size p.mountpoint w in
      let free = c.volumes.zone_free p.mountpoint size.1 in
      let k =
        list_root_keeps P (record p { zone_size_result = size.0; zone_free_result = free.0 }) free.1
          h in
      if_intro Q p.mount_owned _ _ (λ _. k) (λ _. k)

  -- A check leaves what the format has noted, and notes its result.
  pub check_keeps :
      (P : Operation → List ℕ → List ℕ → ℕ → Type 0) (p : PfsResult) (w : c.io.World)
      → P p.format p.format_device p.blockdev p.zone
      → let out = (validate_pfs_read_only c p w).0 in
        P out.1.format out.1.format_device out.1.blockdev out.1.zone
        × (out.0 ≡ true → IsSound out.1)
  unfolding validate_pfs_read_only
  check_keeps P p w h =
      let Q : (Bool × PfsResult) × c.io.World → Type 0 = λ out.
        P out.0.1.format out.0.1.format_device out.0.1.blockdev out.0.1.zone
        × (out.0.0 ≡ true → IsSound out.0.1) in
      let code = c.volumes.mount_read_only p.mountpoint p.blockdev w in
      let tried = record (unchecked p) { mount_result = code.0 } in
      let owned = record tried { mount_owned = true } in
      let preexisting = record tried { mount_preexisting = true } in
      if_intro Q (not (is_negative code.0)) _ _
        (λ _. (
          check_mounted_keeps P owned code.1 h,
          judge_pfs-IsSound (check_mounted c owned code.1).0,
        ))
        λ _.
          if_intro Q (is_dvr p && (code.0 ==ℤ ebusy)) _ _
            (λ _. (
              check_mounted_keeps P preexisting code.1 h,
              judge_pfs-IsSound (check_mounted c preexisting code.1).0,
            ))
            (λ _. (h, λ e. cc))

  format_keeps :
      (p : PfsResult) (w : c.io.World)
      → let out = (format_and_validate_pfs c p w).0 in
        out.0 ≡ true → IsFormatted c out.1.format out.1.format_device out.1.blockdev out.1.zone
  unfolding format_and_validate_pfs
  format_keeps p w =
      let Q : (Bool × PfsResult) × c.io.World → Type 0 = λ out.
        out.0.0 ≡ true
        → IsFormatted c out.0.1.format out.0.1.format_device out.0.1.blockdev out.0.1.zone in
      let code = c.volumes.format_pfs p.format_device p.blockdev p.zone w in
      let formatted = record p {
        format = record p.format { attempted = true; return_value = code.0 };
      } in
      let Kept : Operation → List ℕ → List ℕ → ℕ → Type 0 = λ o device name zone.
        IsDone o
        × ((u : c.io.World) × (o.return_value ≡ (c.volumes.format_pfs device name zone u).0)) in
      if_intro Q (is_negative code.0) _ _ (λ _ e. cc)
        (λ f _. (check_keeps Kept formatted code.1 ((refl, f), (w, refl))).0)

  pub format_each-Formats :
      (stage : ℕ) (ps : List PfsResult) (w : c.io.World)
      → Formats stage (length ps) (format_each c stage ps w).0
  unfolding format_each
  format_each-Formats stage [] w = tt
  format_each-Formats stage (p ∷ ps) w =
      let Q : (List PfsResult × Option (ℕ × PfsResult)) × c.io.World → Type 0 =
        λ out. Formats stage (suc (length ps)) out.0 in
      let one = format_and_validate_pfs c p w in
      let rest = format_each c (suc stage) ps one.1 in
      if_intro Q one.0.0 _ _
        (λ e.
          one_more stage (length ps) one.0.1 rest.0.0 rest.0.1 (format_keeps p w e)
            (format_each-Formats (suc stage) ps one.1))
        (λ _. (omega arith, omega arith))

  -- The checks at the end leave the formats, and are valid together only where each is.
  pub validate_each-AreFormatted :
      (ps : List PfsResult) (w : c.io.World)
      → AreFormatted c ps
      → let out = (validate_each c ps w).0 in AreFormatted c out.0 × (out.1 ≡ true → AreSound out.0)
  unfolding validate_each
  validate_each-AreFormatted [] w h = (tt, λ _. tt)
  validate_each-AreFormatted (p ∷ ps) w h =
      let one = validate_pfs_read_only c p w in
      let kept = check_keeps (λ o device name zone. IsFormatted c o device name zone) p w h.0 in
      let rest = validate_each-AreFormatted ps one.1 h.1 in
      (
        (kept.0, rest.0),
        λ e. let b = and_elim one.0.0 (validate_each c ps one.1).0.1 e in (kept.1 b.0, rest.1 b.1),
      )
