-- ===== src/Xfrom/Cleanup/Frame.antt =====
-- What `cleanup_system_root` of src/xfrom_repair.c changes: nothing but extra files of the system
-- folder, which it removes.
use repair_box_psx_hdd_setup.Base.{
  length, ◌==◌, eio, ℕ, zero, suc, ℤ, is_negative, ◌≡◌, ◌∙◌, not, ◌&&◌, Option, none, some, List,
  [], ◌∷◌, if◌then◌else◌, if_intro, arith,
}
use repair_box_psx_hdd_setup.FileXio.{FileXio, is_error, is_end, is_entry, read_cases}
use repair_box_psx_hdd_setup.Xfrom.{Entry, RepairResult, xfrom_system_root}
use repair_box_psx_hdd_setup.Xfrom.Cleanup.{
  Scan, scan_entry, scan_loop, finish_plan, close_plan, remove_planned, judge_cleanup,
  build_cleanup_plan, remove_loop, verify_cleanup, cleanup_system_root,
}
use repair_box_psx_hdd_setup.Xfrom.Cleanup.Plan.{
  IsExtra, AreExtras, IsPlan, fail-files, fail-IsPlan, scan_entry-IsPlan,
}

-- A property of the devices that reading a folder keeps, and that the removal of an extra file keeps.
pub record Frame (io : FileXio) (files : List Entry) (Inv : io.World → Type 0) : Type 0 where
  pub keeps_dopen : (path : List ℕ) (w : io.World) → Inv w → Inv (io.dopen path w).1
  pub keeps_dread : (fd : ℤ) (w : io.World) → Inv w → Inv (io.dread fd w).1
  pub keeps_dclose : (fd : ℤ) (w : io.World) → Inv w → Inv (io.dclose fd w).1
  pub keeps_remove :
      (path : List ℕ) (w : io.World) → IsExtra files path → Inv w → Inv (io.remove path w).1

module _ (io : FileXio) (files : List Entry) (Inv : io.World → Type 0)
    (frame : Frame io files Inv) where
  -- A plan in progress, and the property.
  abbrev ThePlan : Option (ℤ × Scan) → Type 0
  ThePlan none = Unit {0}
  ThePlan (some (code, scan)) = IsPlan files scan

  abbrev Planned : Option (ℤ × Scan) × io.World → Type 0
  Planned r = ThePlan r.0 × Inv r.1

  scan_loop-Planned :
      (fuel : ℕ) (fd : ℤ) (scan : Scan) (w : io.World)
      → IsPlan files scan
      → Inv w
      → Planned (scan_loop io fuel fd scan w)
  unfolding scan_loop
  scan_loop-Planned zero fd scan w p i = (tt, i)
  scan_loop-Planned (suc fuel) fd scan w p i =
      let kept = frame.keeps_dread fd w i in
      elim (read_cases (io.dread fd w).0) [
        | is_error n e ↦ rw (e, Planned, scan_loop) (p, kept)
        | is_end e ↦ rw (e, Planned, scan_loop) (p, kept)
        | is_entry entry e ↦
            let p' = scan_entry-IsPlan files entry scan p in
            rw (e, Planned, scan_loop)
              (if_intro Planned (is_negative (scan_entry entry scan).0) _ _ (λ _. (p', kept))
                λ _. scan_loop-Planned fuel fd (scan_entry entry scan).1 (io.dread fd w).1 p' kept)
      ]

  finish_plan-IsPlan :
      (read closed : ℤ) (scan : Scan)
      → IsPlan files scan
      → IsPlan files (finish_plan read closed scan).1
  unfolding finish_plan
  finish_plan-IsPlan read closed scan p =
      let P : ℤ × Scan → Type 0 = λ out. IsPlan files out.1 in
      if_intro P
        (is_negative (if not (is_negative read) && is_negative closed then closed else read)) _ _
        (λ _. fail-IsPlan files _ _ _ scan p)
        λ _. record { files_eq = p.files_eq; extras = p.extras; bounded = p.bounded }

  close_plan-Planned :
      (fd : ℤ) (scanned : Option (ℤ × Scan)) (w : io.World)
      → Planned (scanned, w)
      → Planned (close_plan io fd scanned w)
  unfolding close_plan
  close_plan-Planned fd none w p = p
  close_plan-Planned fd (some (code, scan)) w p =
      (finish_plan-IsPlan code (io.dclose fd w).0 scan p.0, frame.keeps_dclose fd w p.1)

  pub build_cleanup_plan-Planned :
      (fuel : ℕ) (result : RepairResult) (w : io.World)
      → result.files ≡ files
      → Inv w
      → Planned (build_cleanup_plan io fuel result w)
  unfolding build_cleanup_plan
  build_cleanup_plan-Planned fuel result w e i =
      let opened = io.dopen xfrom_system_root w in
      let start : Scan = record {
        result = record result { cleanup_entries_scanned = 0 };
        paths = [];
      } in
      let p : IsPlan files start = record { files_eq = e; extras = tt; bounded = omega arith } in
      let kept = frame.keeps_dopen xfrom_system_root w i in
      if_intro Planned (is_negative opened.0) _ _ (λ _. (p, kept))
        λ _.
          close_plan-Planned opened.0 (scan_loop io fuel opened.0 start opened.1).0 _
            (scan_loop-Planned fuel opened.0 start opened.1 p kept)

  -- The known files are those of the result, and the property holds.
  abbrev Kept : RepairResult → io.World → Type 0
  Kept result w = (result.files ≡ files) × Inv w

  remove_loop-Kept :
      (paths : List (List ℕ)) (result : RepairResult) (w : io.World)
      → AreExtras files paths
      → Kept result w
      → Kept (remove_loop io paths result w).0.1 (remove_loop io paths result w).1
  unfolding remove_loop
  remove_loop-Kept [] result w h k = k
  remove_loop-Kept (path ∷ paths) result w h k =
      let P : (ℤ × RepairResult) × io.World → Type 0 = λ out. Kept out.0.1 out.1 in
      let kept = frame.keeps_remove path w h.0 k.1 in
      if_intro P (is_negative (io.remove path w).0) _ _
        (λ _. (fail-files _ path _ result ∙ k.0, kept))
        λ _. remove_loop-Kept paths _ (io.remove path w).1 h.1 (k.0, kept)

  -- The result of the clean-up has the known files too.
  abbrev pub TheResult : Option (ℤ × RepairResult) → Type 0
  TheResult none = Unit {0}
  TheResult (some (code, result)) = result.files ≡ files

  judge_cleanup-TheResult :
      (planned : Option (ℤ × Scan)) → ThePlan planned → TheResult (judge_cleanup planned)
  unfolding judge_cleanup
  judge_cleanup-TheResult none p = tt
  judge_cleanup-TheResult (some (code, scan)) p =
      if_intro TheResult (is_negative code) _ _ (λ _. p.files_eq)
        λ _.
          if_intro TheResult (not (length scan.paths == 0)) _ _
            (λ _. fail-files _ _ eio scan.result ∙ p.files_eq) λ _. p.files_eq

  abbrev Cleaned : Option (ℤ × RepairResult) × io.World → Type 0
  Cleaned out = TheResult out.0 × Inv out.1

  remove_planned-Cleaned :
      (fuel : ℕ) (planned : Option (ℤ × Scan)) (w : io.World)
      → Planned (planned, w)
      → Cleaned (remove_planned io fuel planned w)
  unfolding remove_planned verify_cleanup
  remove_planned-Cleaned fuel none w p = (tt, p.1)
  remove_planned-Cleaned fuel (some (code, scan)) w p =
      let loop = remove_loop-Kept scan.paths scan.result w p.0.extras (p.0.files_eq, p.1) in
      let removed = remove_loop io scan.paths scan.result w in
      let again = build_cleanup_plan-Planned fuel removed.0.1 removed.1 loop.0 loop.1 in
      if_intro Cleaned (is_negative code) _ _ (λ _. (p.0.files_eq, p.1))
        λ _.
          if_intro Cleaned (is_negative removed.0.0) _ _ (λ _. loop)
            λ _. (
              judge_cleanup-TheResult (build_cleanup_plan io fuel removed.0.1 removed.1).0 again.0,
              again.1,
            )

  pub cleanup_system_root-files :
      (fuel : ℕ) (result : RepairResult) (w : io.World)
      → result.files ≡ files
      → Inv w
      → TheResult (cleanup_system_root io fuel result w).0
  unfolding cleanup_system_root
  cleanup_system_root-files fuel result w e i =
      let planned = build_cleanup_plan io fuel result w in
      (remove_planned-Cleaned fuel planned.0 planned.1
        (build_cleanup_plan-Planned fuel result w e i)).0

  -- `cleanup_system_root` opens, reads and closes folders, and removes files of the system folder
  -- with a safe name that is not known; nothing else: whatever these keep, it keeps.
  pub cleanup_system_root-Frame :
      (fuel : ℕ) (result : RepairResult) (w : io.World)
      → result.files ≡ files
      → Inv w
      → Inv (cleanup_system_root io fuel result w).1
  unfolding cleanup_system_root
  cleanup_system_root-Frame fuel result w e i =
      let planned = build_cleanup_plan io fuel result w in
      (remove_planned-Cleaned fuel planned.0 planned.1
        (build_cleanup_plan-Planned fuel result w e i)).1
