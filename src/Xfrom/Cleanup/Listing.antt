-- ===== src/Xfrom/Cleanup/Listing.antt =====
-- The plan of src/xfrom_repair.c is complete: over a folder that lists its entries and ends, the scan
-- ends, and a plan that it accepts has every extra file of the folder.
use mathlib.Core.Path.{subst}
use repair_box_psx_hdd_setup.Base.{
  ℕ, zero, suc, ◌<◌, ℤ, pos, negsuc, is_negative, ◌≡◌, refl, sym, ap, ◌∙◌, Bool, false, not, ◌||◌,
  Option, some, List, [], ◌∷◌, ◌++◌, append-nil, append_assoc, length, leb, codes, c_string,
  eq_bytes, has_nul, if◌then◌else◌, if_intro, Bool-cases, inl, inr, arith,
}
use repair_box_psx_hdd_setup.FileXio.{FileXio, Dirent, dread_end, dread_entry}
use repair_box_psx_hdd_setup.Xfrom.{
  Entry, RepairResult, xfrom_system_root, xfrom_cleanup_max_files, xfrom_repair_path_size,
}
use repair_box_psx_hdd_setup.Xfrom.Cleanup.{
  known_name, known_destination_name, safe_cleanup_name, system_path, Scan, scan_name, scan_entry,
  scan_loop, finish_plan, close_plan, build_cleanup_plan,
}
use repair_box_psx_hdd_setup.Xfrom.Cleanup.Plan.{IsPlan, scan_entry-IsPlan}

-- The paths of the entries that are neither "." nor ".." nor known.
abbrev extra_name : List Entry → List ℕ → List (List ℕ)
extra_name files name = if known_name files name then [] else system_path name ∷ []

abbrev extra_of : List Entry → Dirent → List (List ℕ)
extra_of files entry =
    let name = c_string entry.name in
    if eq_bytes name (codes ".") || eq_bytes name (codes "..") then [] else extra_name files name

abbrev pub extras : List Entry → List Dirent → List (List ℕ)
extras files [] = []
extras files (entry ∷ entries) = extra_of files entry ++ extras files entries

-- The scan has added the paths, unless it has failed.
abbrev Adds : List (List ℕ) → Scan → ℤ × Scan → Type 0
Adds paths scan out = is_negative out.0 ≡ false → out.1.paths ≡ scan.paths ++ paths

scan_name-Adds :
    (name : List ℕ) (is_directory : Bool) (scan : Scan)
    → Adds (extra_name scan.result.files name) scan (scan_name name is_directory scan)
unfolding scan_name known_destination_name
scan_name-Adds name is_directory scan =
    let P : ℤ × Scan → Type 0 = Adds (extra_name scan.result.files name) scan in
    if_intro P (not (safe_cleanup_name name)) _ _ (λ _ h. cc)
      λ _.
        if_intro P is_directory _ _ (λ _ h. cc)
          λ _.
            if_intro P (known_name scan.result.files name) _ _
              (λ known h. rw known (sym (append-nil scan.paths)))
              λ unknown.
                if_intro P (leb xfrom_cleanup_max_files (length scan.paths)) _ _ (λ _ h. cc)
                  λ _.
                    if_intro P (leb xfrom_repair_path_size (length (system_path name))) _ _
                      (λ _ h. cc) λ _ h. rw unknown refl

scan_entry-Adds :
    (entry : Dirent) (scan : Scan)
    → Adds (extra_of scan.result.files entry) scan (scan_entry entry scan)
unfolding scan_entry
scan_entry-Adds entry scan =
    let P : ℤ × Scan → Type 0 = Adds (extra_of scan.result.files entry) scan in
    let name = c_string entry.name in
    if_intro P (not (has_nul entry.name)) _ _ (λ _ h. cc)
      λ _.
        if_intro P (eq_bytes name (codes ".") || eq_bytes name (codes "..")) _ _
          (λ dot h. rw dot (sym (append-nil scan.paths)))
          λ other h. rw other (scan_name-Adds name entry.is_directory _ h)

module _ (io : FileXio) where
  -- A descriptor of a folder delivers these entries one after the other, and then the end.
  pub data Lists (fd : ℤ) : List Dirent → io.World → Type 0 where
    ends : {w : io.World} → (io.dread fd w).0 ≡ dread_end → Lists fd [] w
    delivers :
        {entry : Dirent} {entries : List Dirent} {w : io.World}
        → (io.dread fd w).0 ≡ dread_entry entry
        → Lists fd entries (io.dread fd w).1
        → Lists fd (entry ∷ entries) w

  -- The scan has ended, with a plan that has these paths unless it has failed.
  abbrev Ends : List (List ℕ) → Option (ℤ × Scan) → Type 0
  Ends paths r =
      (code : ℤ) × (scan : Scan) × (r ≡ some (code, scan))
      × (is_negative code ≡ false → scan.paths ≡ paths)

  scan_loop-Ends :
      (files : List Entry) (fuel : ℕ) (fd : ℤ) (entries : List Dirent) (scan : Scan) (w : io.World)
      → Lists fd entries w
      → length entries < fuel
      → IsPlan files scan
      → Ends (scan.paths ++ extras files entries) (scan_loop io fuel fd scan w).0
  unfolding scan_loop
  scan_loop-Ends files zero fd entries scan w l h p = absurd (omega arith)
  scan_loop-Ends files (suc fuel) fd [] scan w (ends e) h p =
      rw (e, scan_loop) (pos 0, scan, refl, λ _. sym (append-nil scan.paths))
  scan_loop-Ends files (suc fuel) fd (entry ∷ entries) scan w (delivers e l) h p =
      let p' = scan_entry-IsPlan files entry scan p in
      let out = scan_entry entry scan in
      let added : is_negative out.0 ≡ false → out.1.paths ≡ scan.paths ++ extra_of files entry =
        subst (λ fs. Adds (extra_of fs entry) scan out) p.files_eq (scan_entry-Adds entry scan) in
      elim (Bool-cases (is_negative out.0)) [
        | inl bad ↦ rw (e, scan_loop, bad) (out.0, out.1, refl, λ ok. cc)
        | inr ok ↦
            let all : out.1.paths ++ extras files entries
                ≡ scan.paths ++ (extra_of files entry ++ extras files entries) =
              ap (λ t. t ++ extras files entries) (added ok)
              ∙ append_assoc scan.paths (extra_of files entry) (extras files entries) in
            rw (e, scan_loop, ok)
              (subst (λ t. Ends t (scan_loop io fuel fd out.1 (io.dread fd w).1).0) all
                (scan_loop-Ends files fuel fd entries out.1 (io.dread fd w).1 l (omega arith) p'))
      ]

  Adopts : (read closed : ℤ) (scan : Scan) → ℤ × Scan → Type 0
  Adopts read closed scan out =
      (out.1.paths ≡ scan.paths) × (is_negative out.0 ≡ false → is_negative read ≡ false)

  finish_plan-Adopts :
      (read closed : ℤ) (scan : Scan) → Adopts read closed scan (finish_plan read closed scan)
  unfolding finish_plan Adopts
  finish_plan-Adopts (pos n) closed scan =
      if_intro (Adopts (pos n) closed scan) _ _ _ (λ _. (refl, λ _. refl)) (λ _. (refl, λ _. refl))
  finish_plan-Adopts (negsuc n) closed scan = (refl, λ h. h)

  close_plan-Ends :
      (paths : List (List ℕ)) (fd : ℤ) (planned : Option (ℤ × Scan)) (w : io.World)
      → Ends paths planned
      → Ends paths (close_plan io fd planned w).0
  unfolding close_plan
  close_plan-Ends paths fd planned w (code, scan, e, f) =
      let closed = (io.dclose fd w).0 in
      let adopts = finish_plan-Adopts code closed scan in
      rw (e, close_plan)
        (
          (finish_plan code closed scan).0,
          (finish_plan code closed scan).1,
          refl,
          λ ok. unfold Adopts in adopts.0 ∙ f (adopts.1 ok),
        )

  -- Over a system folder that lists its entries and ends, `build_cleanup_plan` ends, and a plan that
  -- it accepts is the list of the extra files: every entry but ".", ".." and the known files.
  pub build_cleanup_plan_complete :
      (fuel fd : ℕ) (entries : List Dirent) (result : RepairResult) (w : io.World)
      → (io.dopen xfrom_system_root w).0 ≡ pos fd
      → Lists (pos fd) entries (io.dopen xfrom_system_root w).1
      → length entries < fuel
      → (code : ℤ) × (scan : Scan) × ((build_cleanup_plan io fuel result w).0 ≡ some (code, scan))
        × (is_negative code ≡ false → scan.paths ≡ extras result.files entries)
  unfolding build_cleanup_plan
  build_cleanup_plan_complete fuel fd entries result w e l h =
      let start : Scan = record {
        result = record result { cleanup_entries_scanned = 0 };
        paths = [];
      } in
      let w1 = (io.dopen xfrom_system_root w).1 in
      let p : IsPlan result.files start = record {
        files_eq = refl;
        extras = tt;
        bounded = omega arith;
      } in
      rw e (
        close_plan-Ends (extras result.files entries) (pos fd)
          (scan_loop io fuel (pos fd) start w1).0 (scan_loop io fuel (pos fd) start w1).1
          (scan_loop-Ends result.files fuel (pos fd) entries start w1 l h p))
