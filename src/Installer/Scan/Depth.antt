-- ===== src/Installer/Scan/Depth.antt =====
-- The depth of the walk of `scan_directory` of src/installer.c: 1024 folders in each other are enough.
use repair_box_psx_hdd_setup.Base.{
  ℕ, zero, suc, ◌+◌, ◌≤◌, ◌<◌, ◌≡◌, refl, ap, ◌∙◌, inr, Bool, false, not, Option, none, some, List,
  [], ◌∷◌, length, if◌then◌else◌, arith,
}
use repair_box_psx_hdd_setup.Base.Io.{Io}
use repair_box_psx_hdd_setup.FileXio.{FileXio}
use repair_box_psx_hdd_setup.Xfrom.Copy.{SourceMedia}
use repair_box_psx_hdd_setup.Installer.{
  InstallerResult, no_failure, append_component, make_usb_path,
}
use repair_box_psx_hdd_setup.Installer.Scan.{
  Memory, scan_child, scan_children, open_folder, scan_directory,
}
use repair_box_psx_hdd_setup.Installer.Scan.Safe.{
  IsFolderPath, IsListing, append_component-IsSafePath,
}
use repair_box_psx_hdd_setup.Installer.Scan.Listing.{AreSafeNames}
use repair_box_psx_hdd_setup.Installer.Scan.Folders.{
  scan_child-IsListing, open_folder-IsListed, scan_directory-IsListing,
}

module _ (io : FileXio) (media : SourceMedia) (memory : Memory) (fuel : ℕ) (n : ℕ) where
  abbrev Walk : Type 0
  Walk = List ℕ → InstallerResult → Io io.World InstallerResult

  -- Two walks that agree on the folders in a folder.
  abbrev Agree : List ℕ → Walk → Walk → Type 0
  Agree folder f g =
      (path : List ℕ) (r : InstallerResult) (w : io.World)
      → IsFolderPath path
      → length path < 1024
      → length folder < length path
      → IsListing n r
      → f path r w ≡ g path r w

  abbrev Keeps : Walk → Type 0
  Keeps f =
      (path : List ℕ) (r : InstallerResult) (w : io.World)
      → IsFolderPath path
      → IsListing n r
      → IsListing n (f path r w).0

  scan_child_agrees :
      (f g : Walk) (name folder : List ℕ) (r : InstallerResult) (o : Option (List ℕ)) (w : io.World)
      → ((path : List ℕ) → o ≡ some path → f path r w ≡ g path r w)
      → scan_child io media memory fuel f name folder r o w
        ≡ scan_child io media memory fuel g name folder r o w
  unfolding scan_child
  scan_child_agrees f g name folder r none w a = refl
  scan_child_agrees f g name folder r (some path) w a = a path refl

  scan_children-Agree :
      (f g : Walk) (name folder : List ℕ) (children : List (List ℕ)) (r : InstallerResult)
      (w : io.World)
      → Agree folder f g
      → Keeps f
      → IsFolderPath folder
      → AreSafeNames children
      → IsListing n r
      → scan_children io media memory fuel f name folder children r w
        ≡ scan_children io media memory fuel g name folder children r w
  unfolding scan_children
  scan_children-Agree f g name folder [] r w a k p c h = refl
  scan_children-Agree f g name folder (child ∷ children) r w a k p c h =
      let o = append_component folder child in
      let one = scan_child io media memory fuel f name folder r o w in
      let two = scan_child io media memory fuel g name folder r o w in
      let same : one ≡ two = scan_child_agrees f g name folder r o w (λ path e.
        let s = append_component-IsSafePath folder child path p c.0 e in
        a path r w (inr s.0) s.1 s.2 h) in
      let kept =
        scan_child-IsListing io media memory fuel n f name folder r o w
          (λ path r' w' e h'.
            k path r' w' (inr (append_component-IsSafePath folder child path p c.0 e).0) h')
          h in
      let rest = λ (walk : Walk) (from : InstallerResult × io.World).
        if not (no_failure r)
        then (r, w)
        else scan_children io media memory fuel walk name folder children from.0 from.1 in
      ap (λ (x : InstallerResult × io.World). if not (no_failure r) then (r, w) else x)
        (scan_children-Agree f g name folder children one.0 one.1 a k p c.1 kept)
      ∙ ap (rest g) same

  -- Over a folder whose path is shorter than 1024, from a listing as the scan keeps it, any two depths
  -- that reach 1024 together with the length of the path give the same result in the same state: the
  -- depth is never used up, and 1024 is enough from the root of a partition.
  pub scan_directory_depth :
      (a b index : ℕ) (name : List ℕ) (is_root : Bool) (folder : List ℕ) (r : InstallerResult)
      (w : io.World)
      → 1024 ≤ a + length folder
      → 1024 ≤ b + length folder
      → length folder < 1024
      → index < n
      → IsFolderPath folder
      → IsListing n r
      → scan_directory io media memory fuel a index name is_root folder r w
        ≡ scan_directory io media memory fuel b index name is_root folder r w
  unfolding scan_directory
  scan_directory_depth zero b index name is_root folder r w x y z i p h =
      absurd (omega (arith, x, z))
  scan_directory_depth (suc a) zero index name is_root folder r w x y z i p h =
      absurd (omega (arith, y, z))
  scan_directory_depth (suc a) (suc b) index name is_root folder r w x y z i p h =
      let o = make_usb_path r.source_root name folder in
      let opened = open_folder io media memory fuel index name is_root folder r o w in
      let kept =
        open_folder-IsListed io media memory fuel n index name is_root folder r o w i p h in
      ap
        (λ (out : InstallerResult × io.World). if opened.0.0 then out else (opened.0.1.0, opened.1))
        (scan_children-Agree (scan_directory io media memory fuel a index name false)
          (scan_directory io media memory fuel b index name false) name folder opened.0.1.1
          opened.0.1.0 opened.1
          (λ path r' w' q l m h'.
            scan_directory_depth a b index name false path r' w' (omega (arith, x, m))
              (omega (arith, y, m)) l i q h')
          (λ path r' w' q h'.
            scan_directory-IsListing io media memory fuel n a index name false path r' w' i q h')
          p kept.1 kept.0)
