-- ===== src/Installer/Scan/Folders.antt =====
-- The walk of `installer_scan_source` of src/installer.c over the folders, and the whole scan.
use repair_box_psx_hdd_setup.Base.{
  ℕ, zero, suc, ◌<◌, ℤ, is_negative, ◌≡◌, refl, inr, Bool, false, not, Option, none, some, List, [],
  ◌∷◌, if◌then◌else◌, if_intro, codes,
}
use repair_box_psx_hdd_setup.Base.Io.{Io}
use repair_box_psx_hdd_setup.FileXio.{FileXio, is_error, is_end, is_entry, read_cases}
use repair_box_psx_hdd_setup.Xfrom.Copy.{SourceMedia}
use repair_box_psx_hdd_setup.Installer.{
  InstallerResult, set_failure, no_failure, append_component, make_usb_path,
}
use repair_box_psx_hdd_setup.Installer.Scan.{
  Memory, change, last_read, Listed, list_entry, list_loop, close_directory, scan_child,
  scan_children, list_folder, open_folder, scan_directory,
}
use repair_box_psx_hdd_setup.Installer.Scan.Safe.{
  IsFolderPath, IsListing, append_component-IsSafePath, set_failure-IsListing, change-IsListing,
}
use repair_box_psx_hdd_setup.Installer.Scan.Listing.{AreSafeNames, IsListed, list_entry-IsListed}

module _ (io : FileXio) (media : SourceMedia) (memory : Memory) (fuel : ℕ) (n : ℕ) where
  abbrev Out : Type 0
  Out = InstallerResult × io.World

  list_loop-IsListed :
      (left index : ℕ) (name folder : List ℕ) (fd : ℤ) (state : Listed) (w : io.World)
      → index < n
      → IsFolderPath folder
      → IsListed n state
      → IsListed n (list_loop io media memory fuel left index name folder fd state w).0.1
  unfolding list_loop
  list_loop-IsListed zero index name folder fd state w b f h = h
  list_loop-IsListed (suc left) index name folder fd state w b f h =
      let P : (ℤ × Listed) × io.World → Type 0 = λ out. IsListed n out.0.1 in
      elim (read_cases (io.dread fd w).0) [
        | is_error k e ↦ rw (e, list_loop) h
        | is_end e ↦ rw (e, list_loop) h
        | is_entry entry e ↦
            let one = list_entry memory index name folder entry state in
            let kept = list_entry-IsListed memory n index name folder entry state b f h in
            rw (e, list_loop)
              (if_intro P one.0 _ _
                (λ _. list_loop-IsListed left index name folder fd one.1 (io.dread fd w).1 b f kept)
                (λ _. kept))
      ]

  close_directory-IsListing :
      (index : ℕ) (name folder : List ℕ) (is_root : Bool) (fd result : ℤ) (r : InstallerResult)
      (w : io.World)
      → IsListing n r
      → IsListing n (close_directory io media memory fuel index name folder is_root fd result r w).0
  unfolding close_directory
  close_directory-IsListing index name folder is_root fd result r w h =
      let last = last_read media result in
      let closed = (io.dclose fd w).0 in
      let noted =
        change index
          (λ p. record p { source_final_read_result = last; source_close_result = closed }) r in
      let r1 = if is_root then noted else r in
      let k1 : IsListing n r1 =
        if_intro (IsListing n) is_root noted r (λ _. change-IsListing n index _ r (λ p l. l) h)
          (λ _. h) in
      let r2 =
        if is_negative last then set_failure r1 last name folder (codes "source_dread") else r1 in
      let k2 : IsListing n r2 =
        if_intro (IsListing n) (is_negative last) _ r1 (λ _. set_failure-IsListing n r1 _ _ _ _ k1)
          (λ _. k1) in
      if_intro (IsListing n) (is_negative closed) _ r2 (λ _. set_failure-IsListing n r2 _ _ _ _ k2)
        (λ _. k2)

  pub scan_child-IsListing :
      (scan : List ℕ → InstallerResult → Io io.World InstallerResult) (name folder : List ℕ)
      (r : InstallerResult) (o : Option (List ℕ)) (w : io.World)
      → ((path : List ℕ) (r' : InstallerResult) (w' : io.World)
          → o ≡ some path
          → IsListing n r'
          → IsListing n (scan path r' w').0)
      → IsListing n r
      → IsListing n (scan_child io media memory fuel scan name folder r o w).0
  unfolding scan_child
  scan_child-IsListing scan name folder r none w s h = set_failure-IsListing n r _ _ _ _ h
  scan_child-IsListing scan name folder r (some path) w s h = s path r w refl h

  scan_children-IsListing :
      (scan : List ℕ → InstallerResult → Io io.World InstallerResult) (name folder : List ℕ)
      (children : List (List ℕ)) (r : InstallerResult) (w : io.World)
      → ((path : List ℕ) (r' : InstallerResult) (w' : io.World)
          → IsFolderPath path
          → IsListing n r'
          → IsListing n (scan path r' w').0)
      → IsFolderPath folder
      → AreSafeNames children
      → IsListing n r
      → IsListing n (scan_children io media memory fuel scan name folder children r w).0
  unfolding scan_children
  scan_children-IsListing scan name folder [] r w s f c h = h
  scan_children-IsListing scan name folder (child ∷ children) r w s f c h =
      let P : Out → Type 0 = λ out. IsListing n out.0 in
      let one =
        scan_child io media memory fuel scan name folder r (append_component folder child) w in
      let kept =
        scan_child-IsListing scan name folder r (append_component folder child) w
          (λ path r' w' e.
            s path r' w' (inr (append_component-IsSafePath folder child path f c.0 e).0))
          h in
      if_intro P (not (no_failure r)) _ _ (λ _. h)
        (λ _. scan_children-IsListing scan name folder children one.0 one.1 s f c.1 kept)

  pub open_folder-IsListed :
      (index : ℕ) (name : List ℕ) (is_root : Bool) (folder : List ℕ) (r : InstallerResult)
      (o : Option (List ℕ)) (w : io.World)
      → index < n
      → IsFolderPath folder
      → IsListing n r
      → IsListed n (open_folder io media memory fuel index name is_root folder r o w).0.1
  unfolding open_folder list_folder
  open_folder-IsListed index name is_root folder r none w b f h =
      (set_failure-IsListing n r _ _ _ _ h, tt)
  open_folder-IsListed index name is_root folder r (some directory) w b f h =
      let P : (Bool × Listed) × io.World → Type 0 = λ out. IsListed n out.0.1 in
      let fd = io.dopen directory w in
      let noted = change index (λ p. record p { source_open_result = fd.0 }) r in
      let opened = if is_root then noted else r in
      let k1 : IsListing n opened =
        if_intro (IsListing n) is_root noted r (λ _. change-IsListing n index _ r (λ p l. l) h)
          (λ _. h) in
      let loop = list_loop io media memory fuel fuel index name folder fd.0 (opened, []) fd.1 in
      let listed = list_loop-IsListed fuel index name folder fd.0 (opened, []) fd.1 b f (k1, tt) in
      if_intro P (is_negative fd.0) _ _ (λ _. (set_failure-IsListing n opened _ _ _ _ k1, tt))
        (λ _. (
          close_directory-IsListing index name folder is_root fd.0 loop.0.0 loop.0.1.0 loop.1
              listed.0,
          listed.1,
        ))

  pub scan_directory-IsListing :
      (depth index : ℕ) (name : List ℕ) (is_root : Bool) (folder : List ℕ) (r : InstallerResult)
      (w : io.World)
      → index < n
      → IsFolderPath folder
      → IsListing n r
      → IsListing n (scan_directory io media memory fuel depth index name is_root folder r w).0
  unfolding scan_directory
  scan_directory-IsListing zero index name is_root folder r w b f h = h
  scan_directory-IsListing (suc depth) index name is_root folder r w b f h =
      let P : Out → Type 0 = λ out. IsListing n out.0 in
      let o = make_usb_path r.source_root name folder in
      let listed = open_folder io media memory fuel index name is_root folder r o w in
      let kept = open_folder-IsListed index name is_root folder r o w b f h in
      if_intro P listed.0.0 _ _
        (λ _.
          scan_children-IsListing (scan_directory io media memory fuel depth index name false) name
            folder listed.0.1.1 listed.0.1.0 listed.1
            (λ path r' w' g k. scan_directory-IsListing depth index name false path r' w' b g k) f
            kept.1 kept.0)
        (λ _. kept.0)
