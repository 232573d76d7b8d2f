-- ===== src/Xfrom/Execute/Confinement.antt =====
-- `xfrom_repair_execute` of src/xfrom_repair.c opens no file for writing but its targets.
use mathlib.Core.Path.{subst}
use repair_box_psx_hdd_setup.Base.{
  ℕ, zero, suc, ℤ, pos, is_negative, eio, eperm, ◌≡◌, refl, sym, ◌∙◌, Bool, true, false, not, ◌&&◌,
  ◌||◌, Option, none, some, List, [], ◌∷◌, ◌++◌, ◌==ℤ◌, if◌then◌else◌, if_intro, Option-cases, inl,
  inr,
}
use repair_box_psx_hdd_setup.FileXio.{FileXio}
use repair_box_psx_hdd_setup.Xfrom.{Entry, Revision, RepairResult, xfrom_system_root}
use repair_box_psx_hdd_setup.Xfrom.Cleanup.{cleanup_system_root}
use repair_box_psx_hdd_setup.Xfrom.Cleanup.Frame.{
  TheResult, cleanup_system_root-files, cleanup_system_root-Frame,
}
use repair_box_psx_hdd_setup.Xfrom.Copy.{
  SourceMedia, build_destination_path, load_verified_source, write_verified_destination,
}
use repair_box_psx_hdd_setup.Xfrom.Execute.{
  close_root, reopen_root, ensure_system_root, attempt, attempt_loop, execute_files, write_files,
  execute_permitted, xfrom_repair_execute,
}
use repair_box_psx_hdd_setup.Xfrom.Execute.Confined.{
  IsTarget, this_file, later_file, Confines, load_verified_source-Keeps, write_path-Keeps,
}

no_permission :
    {A : Type 0} (a b c : Bool) (x y : A)
    → a && b ≡ false
    → (if not a || (not b || c) then x else y) ≡ x
no_permission true true c x y h = cc
no_permission true false c x y h = refl
no_permission false b c x y h = refl

module _ (io : FileXio) (stack : List ℕ) (media : SourceMedia) (allocates : ℕ → Bool)
    (files : List Entry) (Inv : io.World → Type 0) (keeps : Confines io files Inv) where
  -- The destination of an entry may be written.
  abbrev May : Entry → Type 0
  May entry = (path : List ℕ) → build_destination_path entry ≡ some path → IsTarget path files

  abbrev Kept : List ℕ → (ℤ × Entry) × io.World → Type 0
  Kept path out = (out.0.1.path ≡ path) × Inv out.1

  destination_eq :
      (e f : Entry) → e.path ≡ f.path → build_destination_path e ≡ build_destination_path f
  unfolding build_destination_path
  destination_eq e f h = rw h refl

  attempt-Kept :
      (revision : Revision) (entry : Entry) (w : io.World)
      → May entry
      → Inv w
      → Kept entry.path (attempt io stack media allocates revision entry w)
  unfolding attempt write_verified_destination
  attempt-Kept revision entry w may i =
      let P : (ℤ × Entry) × io.World → Type 0 = Kept entry.path in
      let loaded = load_verified_source io stack media allocates revision entry w in
      let kept =
        load_verified_source-Keeps io stack media allocates files Inv keeps revision entry w i in
      if_intro P (is_negative loaded.0.0) _ _ (λ _. (refl, kept))
        λ _. elim (Option-cases (build_destination_path entry)) [
          | inl e ↦ rw (e, write_verified_destination) (refl, kept)
          | inr (path, e) ↦
              rw (e, write_verified_destination)
                (write_path-Keeps io stack media allocates files Inv keeps entry loaded.0.1 path
                  loaded.1 (may path e) kept)
        ]

  attempt_loop-Kept :
      (left : ℕ) (revision : Revision) (code : ℤ) (entry : Entry) (w : io.World)
      → May entry
      → Inv w
      → Kept entry.path (attempt_loop io stack media allocates left revision code entry w)
  unfolding attempt_loop
  attempt_loop-Kept zero revision code entry w may i = (refl, i)
  attempt_loop-Kept (suc left) revision code entry w may i =
      let P : (ℤ × Entry) × io.World → Type 0 = Kept entry.path in
      let tried = attempt io stack media allocates revision entry w in
      let kept = attempt-Kept revision entry w may i in
      let may' : May tried.0.1 =
        λ path e. may path (sym (destination_eq tried.0.1 entry kept.0) ∙ e) in
      if_intro P ((tried.0.0 ==ℤ pos 0) || not (tried.0.0 ==ℤ eio)) _ _ (λ _. kept)
        λ _.
          let more = attempt_loop-Kept left revision tried.0.0 tried.0.1 tried.1 may' kept.1 in
          (more.0 ∙ kept.0, more.1)

  execute_files-Keeps :
      (done rest : List Entry) (result : RepairResult) (w : io.World)
      → ((path : List ℕ) → IsTarget path rest → IsTarget path files)
      → Inv w
      → Inv (execute_files io stack media allocates done rest result w).1
  unfolding execute_files
  execute_files-Keeps done [] result w within i = i
  execute_files-Keeps done (entry ∷ rest) result w within i =
      let P : (ℤ × RepairResult) × io.World → Type 0 = λ out. Inv out.1 in
      let out = attempt_loop io stack media allocates 2 result.revision eio entry w in
      if_intro P entry.deferred_activation _ _
        (λ _.
          execute_files-Keeps (done ++ (entry ∷ [])) rest _ w (λ path t. within path (later_file t))
            i)
        λ written.
          let may : May entry = λ path e. within path (this_file written e) in
          let kept = attempt_loop-Kept 2 result.revision eio entry w may i in
          if_intro P (is_negative out.0.0) _ _ (λ _. kept.1)
            λ _.
              execute_files-Keeps (done ++ (out.0.1 ∷ [])) rest _ out.1
                (λ path t. within path (later_file t)) kept.1

  -- The folder's calls keep the files of the result too.
  abbrev KeptResult : (ℤ × RepairResult) × io.World → Type 0
  KeptResult out = (out.0.1.files ≡ files) × Inv out.1

  close_root-Kept :
      (fd : ℤ) (result : RepairResult) (w : io.World)
      → result.files ≡ files
      → Inv w
      → KeptResult (close_root io fd result w)
  unfolding close_root
  close_root-Kept fd result w e i =
      let kept = keeps.cleanup.keeps_dclose fd w i in
      if_intro KeptResult (is_negative (io.dclose fd w).0) _ _ (λ _. (e, kept)) (λ _. (e, kept))

  reopen_root-Kept :
      (result : RepairResult) (w : io.World)
      → result.files ≡ files
      → Inv w
      → KeptResult (reopen_root io result w)
  unfolding reopen_root
  reopen_root-Kept result w e i =
      let opened = io.dopen xfrom_system_root w in
      let kept = keeps.cleanup.keeps_dopen xfrom_system_root w i in
      if_intro KeptResult (is_negative opened.0) _ _ (λ _. (e, kept))
        λ _. close_root-Kept opened.0 result opened.1 e kept

  ensure_system_root-Kept :
      (result : RepairResult) (w : io.World)
      → result.files ≡ files
      → Inv w
      → KeptResult (ensure_system_root io result w)
  unfolding ensure_system_root
  ensure_system_root-Kept result w e i =
      let opened = io.dopen xfrom_system_root w in
      let kept = keeps.cleanup.keeps_dopen xfrom_system_root w i in
      let made = io.mkdir xfrom_system_root opened.1 in
      let kept' = keeps.keeps_mkdir opened.1 kept in
      if_intro KeptResult (not (is_negative opened.0)) _ _
        (λ _. close_root-Kept opened.0 result opened.1 e kept)
        λ _.
          if_intro KeptResult (is_negative made.0) _ _ (λ _. (e, kept'))
            λ _. reopen_root-Kept (record result { xfrom_partition_created = true }) made.1 e kept'

  write_files-Keeps :
      (cleaned : Option (ℤ × RepairResult)) (w : io.World)
      → TheResult io files Inv keeps.cleanup cleaned
      → Inv w
      → Inv (write_files io stack media allocates cleaned w).1
  unfolding write_files
  write_files-Keeps none w e i = i
  write_files-Keeps (some (code, result)) w e i =
      let P : Option (ℤ × RepairResult) × io.World → Type 0 = λ out. Inv out.1 in
      if_intro P (is_negative code) _ _ (λ _. i)
        λ _.
          execute_files-Keeps [] result.files result w
            (λ path t. subst (λ fs. IsTarget path fs) e t) i

  execute_permitted-Keeps :
      (fuel : ℕ) (result : RepairResult) (w : io.World)
      → result.files ≡ files
      → Inv w
      → Inv (execute_permitted io stack media allocates fuel result w).1
  unfolding execute_permitted
  execute_permitted-Keeps fuel result w e i =
      let P : Option (ℤ × RepairResult) × io.World → Type 0 = λ out. Inv out.1 in
      let root = ensure_system_root io result w in
      let kept = ensure_system_root-Kept result w e i in
      let cleaned = cleanup_system_root io fuel root.0.1 root.1 in
      if_intro P (is_negative root.0.0) _ _ (λ _. kept.1)
        λ _.
          write_files-Keeps cleaned.0 cleaned.1
            (cleanup_system_root-files io files Inv keeps.cleanup fuel root.0.1 root.1 kept.0
              kept.1)
            (cleanup_system_root-Frame io files Inv keeps.cleanup fuel root.0.1 root.1 kept.0
              kept.1)

  -- `xfrom_repair_execute` keeps every property of the devices that reading keeps, that creating the
  -- system folder and removing its extra files keep, and that opening the destinations of its files
  -- for writing keeps, but for those files that are left to the activation: these it does not open
  -- for writing. With no permission it changes nothing.
  pub xfrom_repair_execute_confined :
      (fuel : ℕ) (result : RepairResult) (storage_valid session_confirmed : Bool) (w : io.World)
      → result.files ≡ files
      → Inv w
      → let out =
          xfrom_repair_execute io stack media allocates fuel result storage_valid session_confirmed
            w in
        Inv out.1 × (storage_valid && session_confirmed ≡ false → out ≡ (some (eperm, result), w))
  unfolding xfrom_repair_execute
  xfrom_repair_execute_confined fuel result sv sc w e i =
      let P : Option (ℤ × RepairResult) × io.World → Type 0 = λ out. Inv out.1 in
      (
        if_intro P
            (not sv || (not sc || (not result.source_valid || not result.xfrom_root_accessible))) _
            _ (λ _. i)
            (λ _. execute_permitted-Keeps fuel (record result { write_attempted = true }) w e i),
        λ h. no_permission sv sc _ _ _ h,
      )
