-- ===== src/Installer/Scan/Listing.antt =====
-- `installer_scan_source` of src/installer.c keeps what Installer/Scan/Safe says of a listing.
use repair_box_psx_hdd_setup.Base.{
  ℕ, suc, ◌<◌, is_negative, ◌≡◌, refl, Bool, true, not, Option, none, some, List, [], ◌∷◌, ◌++◌,
  length, if_intro, not-false,
}
use repair_box_psx_hdd_setup.FileXio.{Dirent}
use repair_box_psx_hdd_setup.Installer.{
  item_directory, item_file, InstallerResult, append_component, is_dots, safe_component,
}
use repair_box_psx_hdd_setup.Installer.Scan.{
  Memory, append_item, Listed, count_directory, count_file, item, list_directory, list_file,
  list_child, entry_name, list_entry,
}
use repair_box_psx_hdd_setup.Installer.Scan.Safe.{
  IsSafePath, IsFolderPath, IsListing, append_component-IsSafePath, set_failure-IsListing,
  change-IsListing, append_item-IsListing,
}

-- The names of the folders to go into are safe.
abbrev pub AreSafeNames : List (List ℕ) → Type 0
AreSafeNames [] = Unit {0}
AreSafeNames (name ∷ names) = (safe_component name ≡ true) × AreSafeNames names

AreSafeNames-append :
    (xs : List (List ℕ)) (name : List ℕ)
    → AreSafeNames xs
    → safe_component name ≡ true
    → AreSafeNames (xs ++ (name ∷ []))
AreSafeNames-append [] name h s = (s, tt)
AreSafeNames-append (x ∷ xs) name h s = (h.0, AreSafeNames-append xs name h.1 s)

abbrev pub IsListed : ℕ → Listed → Type 0
IsListed n state = IsListing n state.0 × AreSafeNames state.1

abbrev IsPathOf : List ℕ → Type 0
IsPathOf path = IsSafePath path × (length path < 1024)

count_directory-IsListing :
    (n index : ℕ) (r : InstallerResult) → IsListing n r → IsListing n (count_directory index r)
unfolding count_directory
count_directory-IsListing n index r h = change-IsListing n index _ r (λ p l. l) h

count_file-IsListing :
    (n index size : ℕ) (r : InstallerResult) → IsListing n r → IsListing n (count_file index size r)
unfolding count_file
count_file-IsListing n index size r h = change-IsListing n index _ r (λ p l. l) h

list_directory-IsListed :
    (memory : Memory) (n index : ℕ) (name path child : List ℕ) (state : Listed)
    → index < n
    → IsPathOf path
    → safe_component child ≡ true
    → IsListed n state
    → IsListed n (list_directory memory index name path child state).1
unfolding list_directory
list_directory-IsListed memory n index name path child (r, children) b p s h =
    let P : Bool × Listed → Type 0 = λ out. IsListed n out.1 in
    let it = item index item_directory path 0 in
    let added = append_item memory it r in
    let kept = append_item-IsListing memory n it r (b, p.0, p.1) h.0 in
    if_intro P (is_negative added.0) _ _ (λ _. (set_failure-IsListing n added.1 _ _ _ _ kept, h.1))
      λ _.
        if_intro P (memory.gives_elements (suc (length children))) _ _
          (λ _. (
            count_directory-IsListing n index added.1 kept,
            AreSafeNames-append children child h.1 s,
          ))
          (λ _. (set_failure-IsListing n added.1 _ _ _ _ kept, h.1))

list_file-IsListed :
    (memory : Memory) (n index : ℕ) (name path : List ℕ) (size : ℕ) (state : Listed)
    → index < n
    → IsPathOf path
    → IsListed n state
    → IsListed n (list_file memory index name path size state).1
unfolding list_file
list_file-IsListed memory n index name path size (r, children) b p h =
    let P : Bool × Listed → Type 0 = λ out. IsListed n out.1 in
    let it = item index item_file path size in
    let added = append_item memory it r in
    let kept = append_item-IsListing memory n it r (b, p.0, p.1) h.0 in
    if_intro P (is_negative added.0) _ _ (λ _. (set_failure-IsListing n added.1 _ _ _ _ kept, h.1))
      (λ _. (count_file-IsListing n index size added.1 kept, h.1))

list_child-IsListed :
    (memory : Memory) (n index : ℕ) (name folder : List ℕ) (entry : Dirent) (state : Listed)
    (o : Option (List ℕ))
    → index < n
    → ((path : List ℕ) → o ≡ some path → IsPathOf path)
    → safe_component (entry_name entry) ≡ true
    → IsListed n state
    → IsListed n (list_child memory index name folder entry state o).1
unfolding list_child
list_child-IsListed memory n index name folder entry (r, children) none b p s h =
    (set_failure-IsListing n r _ _ _ _ h.0, h.1)
list_child-IsListed memory n index name folder entry state (some path) b p s h =
    let P : Bool × Listed → Type 0 = λ out. IsListed n out.1 in
    if_intro P entry.is_directory _ _
      (λ _.
        list_directory-IsListed memory n index name path (entry_name entry) state b (p path refl) s
          h)
      (λ _. list_file-IsListed memory n index name path entry.size state b (p path refl) h)

pub list_entry-IsListed :
    (memory : Memory) (n index : ℕ) (name folder : List ℕ) (entry : Dirent) (state : Listed)
    → index < n
    → IsFolderPath folder
    → IsListed n state
    → IsListed n (list_entry memory index name folder entry state).1
unfolding list_entry
list_entry-IsListed memory n index name folder entry (r, children) b f h =
    let P : Bool × Listed → Type 0 = λ out. IsListed n out.1 in
    let child = entry_name entry in
    if_intro P (is_dots child) _ _ (λ _. h)
      λ _.
        if_intro P (not (safe_component child)) _ _
          (λ _. (set_failure-IsListing n r _ _ _ _ h.0, h.1))
          λ e.
            let s = not-false (safe_component child) e in
            list_child-IsListed memory n index name folder entry (r, children)
              (append_component folder child) b
              (λ path q. let a = append_component-IsSafePath folder child path f s q in (a.0, a.1))
              s h
