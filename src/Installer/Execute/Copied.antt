-- ===== src/Installer/Execute/Copied.antt =====
-- Which files `installer_execute` of src/installer.c has copied where it reports no failure.
use repair_box_psx_hdd_setup.Base.{
  ℕ, suc, ℤ, is_negative, ◌==ℤ◌, ebusy, ◌≡◌, refl, Bool, true, false, not, ◌&&◌, Option, none, some,
  List, [], ◌∷◌, ◌++◌, codes, length, ◌==◌, ==_iff, take, if◌then◌else◌, if_intro,
}
use repair_box_psx_hdd_setup.FileXio.{FileXio}
use repair_box_psx_hdd_setup.Drive.{Mounts}
use repair_box_psx_hdd_setup.Xfrom.Copy.{SourceMedia}
use repair_box_psx_hdd_setup.Installer.{
  ItemType, item_directory, item_file, SourceItem, PartitionResult, InstallerResult, no_failure,
  make_destination_path,
}
use repair_box_psx_hdd_setup.Installer.Execute.{
  Filling, ensure_destination_directory, install_directory, install_item, install_items, unmount,
  fill_partition, use_mounted, install_partition, install_loop, make_directory,
}
use repair_box_psx_hdd_setup.Installer.Execute.Task.{
  negated, clash, SameTask, SameTask-refl, SameTask-trans, failure-Advances, Advances, WasCopied,
  AreCopied, AllCopied, WasCopied-SameTask, AreCopied-SameTask, copy_file-Advances,
}

module _ (io : FileXio) (mounts : Mounts io) (media : SourceMedia) (stack : List ℕ) (fuel : ℕ) where
  make_directory-SameTask :
      (r r' : InstallerResult) (p : PartitionResult) (path : List ℕ) (w : io.World)
      → SameTask (r, p) (r', p)
      → SameTask (r, p) (r', (ensure_destination_directory io mounts media stack fuel p path w).0.1)
  unfolding ensure_destination_directory make_directory
  make_directory-SameTask r r' p path w s = by_path (make_destination_path p path)
    where
      by_path :
          (o : Option (List ℕ))
          → SameTask (r, p) (r', (make_directory io mounts media stack fuel p o w).0.1)
      by_path none = s
      by_path (some to) =
          if_intro (λ (out : (ℤ × PartitionResult) × io.World). SameTask (r, p) (r', out.0.1))
            (is_negative (io.mkdir to w).0) _ _ (λ _. s) (λ _. s)

  install_directory-Advances :
      (item : SourceItem) (a : Filling) (w : io.World)
      → Advances (Unit {0}) a (install_directory io mounts media stack fuel item a w).0
  unfolding install_directory
  install_directory-Advances item (r, p) w =
      let made = ensure_destination_directory io mounts media stack fuel p item.relative_path w in
      let code = made.0.0 in
      let operation = codes "create_destination_directory" in
      let P : InstallerResult → Type 0 = λ x. Advances (Unit {0}) (r, p) (x, made.0.1) in
      if_intro P (is_negative code) _ _
        (λ _.
          failure-Advances (r, p) r made.0.1 code p.name item.relative_path operation
            (make_directory-SameTask r r p item.relative_path w (refl, refl, refl, refl)))
        (λ _. (
          make_directory-SameTask r r p item.relative_path w (refl, refl, refl, refl),
          λ ok. (ok, tt),
        ))

  install_item-Advances :
      (type : ItemType) (item : SourceItem) (a : Filling) (w : io.World)
      → length stack ≡ 64
      → Advances
          (type ≡ item_file → WasCopied io mounts media stack fuel a item)
          a
          (install_item io mounts media stack fuel type item a w).0
  unfolding install_item
  install_item-Advances item_directory item a w s =
      let h = install_directory-Advances item a w in (h.0, λ ok. ((h.1 ok).0, λ e. cc))
  install_item-Advances item_file item a w s =
      let h = copy_file-Advances io mounts media stack fuel item a w s in
      (h.0, λ ok. ((h.1 ok).0, λ _. (h.1 ok).1))

  -- The item is installed where it belongs to the partition.
  installed_here :
      (here : Bool) (item : SourceItem) (a b c : Filling)
      → SameTask a b
      → Advances (item.type ≡ item_file → WasCopied io mounts media stack fuel b item) b c
      → Advances
          (here ≡ true → item.type ≡ item_file → WasCopied io mounts media stack fuel a item)
          b
          (if here then c else b)
  installed_here true item a b c s h = (
    h.0,
    λ ok. (
      (h.1 ok).0,
      λ _ e. WasCopied-SameTask io mounts media stack fuel a b item s ((h.1 ok).1 e),
    ),
  )
  installed_here false item a b c s h = (SameTask-refl b, λ ok. (ok, λ e. cc))

  install_items-Advances :
      (index : ℕ) (items : List SourceItem) (a b : Filling) (w : io.World)
      → length stack ≡ 64
      → SameTask a b
      → Advances
          (AreCopied io mounts media stack fuel a index items)
          b
          (install_items io mounts media stack fuel index items b w).0
  unfolding install_items
  install_items-Advances index [] a b w s t = (SameTask-refl b, λ ok. (ok, tt))
  install_items-Advances index (item ∷ items) a b w s t =
      let P : Filling × io.World → Type 0 =
        λ out. Advances (AreCopied io mounts media stack fuel a index (item ∷ items)) b out.0 in
      let one = install_item io mounts media stack fuel item.type item b w in
      let here = item.partition_index == index in
      let after = if here then one.0 else b in
      let world = if here then one.1 else w in
      let h = installed_here here item a b one.0 t (install_item-Advances item.type item b w s) in
      let k = install_items-Advances index items a after world s (SameTask-trans a b after t h.0) in
      if_intro P (not (no_failure b.0)) _ _
        (λ e. (SameTask-refl b, λ ok. clash (no_failure b.0) (negated (no_failure b.0) e) ok))
        (λ _. (
          SameTask-trans b after
              (install_items io mounts media stack fuel index items after world).0 h.0 k.0,
          λ ok.
              let later = k.1 ok in
              let now = h.1 later.0 in
              (now.0, (λ e. now.1 ((==_iff item.partition_index index).1 e), later.1)),
        ))

  unmount-Advances :
      (a : Filling) (w : io.World)
      → Advances (Unit {0}) a (unmount io mounts media stack fuel a w).0
  unfolding unmount
  unmount-Advances (r, p) w =
      let P : Filling × io.World → Type 0 = λ out. Advances (Unit {0}) (r, p) out.0 in
      let code = (mounts.umount p.mountpoint w).0 in
      let p' = record p { umount_attempted = true; umount_result = code } in
      let Q : InstallerResult → Type 0 = λ x. Advances (Unit {0}) (r, p) (x, p') in
      let dirty = record r { all_unmounted_cleanly = false } in
      if_intro P (not p.mount_owned) _ _ (λ _. (SameTask-refl (r, p), λ ok. (ok, tt)))
        λ _.
          if_intro Q (is_negative code) _ _
            (λ _.
              failure-Advances (r, p) dirty p' code p.name (47 ∷ []) (codes "umount")
                (refl, refl, refl, refl))
            (λ _. ((refl, refl, refl, refl), λ ok. (ok, tt)))

  fill_partition-Advances :
      (index : ℕ) (a b : Filling) (w : io.World)
      → length stack ≡ 64
      → SameTask a b
      → Advances
          (AreCopied io mounts media stack fuel a index b.0.items)
          b
          (fill_partition io mounts media stack fuel index b w).0
  unfolding fill_partition
  fill_partition-Advances index a (r, p) w s t =
      let filled = install_items io mounts media stack fuel index r.items (r, p) w in
      let h = install_items-Advances index r.items a (r, p) w s t in
      let k = unmount-Advances filled.0 filled.1 in
      (
        SameTask-trans (r, p) filled.0 (unmount io mounts media stack fuel filled.0 filled.1).0 h.0
            k.0,
        λ ok. h.1 (k.1 ok).0,
      )

  -- What the mount notes of the partition leaves the task as it is.
  noted :
      {Q : Type 0} (r : InstallerResult) (p p' : PartitionResult) (out : Filling)
      → SameTask (r, p) (r, p')
      → Advances Q (r, p') out
      → Advances Q (r, p) out
  noted r p p' out s h = (SameTask-trans (r, p) (r, p') out s h.0, h.1)

  use_mounted-Advances :
      (index : ℕ) (a b : Filling) (w : io.World)
      → length stack ≡ 64
      → SameTask a b
      → Advances
          (AreCopied io mounts media stack fuel a index b.0.items)
          b
          (use_mounted io mounts media stack fuel index b w).0
  unfolding use_mounted
  use_mounted-Advances index a (r, p) w s t =
      let Q = AreCopied io mounts media stack fuel a index r.items in
      let P : Filling × io.World → Type 0 = λ out. Advances Q (r, p) out.0 in
      let fd = io.dopen (take 31 (p.root_prefix ++ (47 ∷ []))) w in
      let closed = io.dclose fd.0 fd.1 in
      let operation = codes "probe_preexisting_mount" in
      let probed = record p { mount_preexisting = true; mount_probe_result = fd.0 } in
      let found = record probed { mount_probe_close_result = closed.0 } in
      let filled = fill_partition io mounts media stack fuel index (r, found) closed.1 in
      if_intro P (is_negative fd.0) _ _
        (λ _.
          failure-Advances (r, p) r probed fd.0 p.name (47 ∷ []) operation (refl, refl, refl, refl))
        λ _.
          if_intro P (is_negative closed.0) _ _
            (λ _.
              failure-Advances (r, p) r found closed.0 p.name (47 ∷ []) operation
                (refl, refl, refl, refl))
            (λ _.
              noted r p found filled.0 (refl, refl, refl, refl)
                (fill_partition-Advances index a (r, found) closed.1 s t))

  install_partition-Advances :
      (index : ℕ) (a b : Filling) (w : io.World)
      → length stack ≡ 64
      → SameTask a b
      → Advances
          (AreCopied io mounts media stack fuel a index b.0.items)
          b
          (install_partition io mounts media stack fuel index b w).0
  unfolding install_partition
  install_partition-Advances index a (r, p) w s t =
      let Q = AreCopied io mounts media stack fuel a index r.items in
      let P : Filling × io.World → Type 0 = λ out. Advances Q (r, p) out.0 in
      let code = mounts.mount p.mountpoint p.blockdev w in
      let tried = record p { mount_attempted = true; mount_result = code.0 } in
      let owned = record tried { mount_owned = true } in
      let filled = fill_partition io mounts media stack fuel index (r, owned) code.1 in
      let used = use_mounted io mounts media stack fuel index (r, tried) code.1 in
      if_intro P (not (is_negative code.0)) _ _
        (λ _.
          noted r p owned filled.0 (refl, refl, refl, refl)
            (fill_partition-Advances index a (r, owned) code.1 s t))
        λ _.
          if_intro P (p.allow_preexisting_mount && (code.0 ==ℤ ebusy)) _ _
            (λ _.
              noted r p tried used.0 (refl, refl, refl, refl)
                (use_mounted-Advances index a (r, tried) code.1 s t))
            (λ _.
              failure-Advances (r, p) r tried code.0 p.name (47 ∷ []) (codes "mount_rw")
                (refl, refl, refl, refl))

  AllCopied-SameTask :
      (r r' : InstallerResult) (index : ℕ) (ps : List PartitionResult)
      → r'.source_root ≡ r.source_root
      → r'.items ≡ r.items
      → AllCopied io mounts media stack fuel r' index ps
      → AllCopied io mounts media stack fuel r index ps
  AllCopied-SameTask r r' index [] e f h = tt
  AllCopied-SameTask r r' index (p ∷ ps) e f h = (
    λ some_files.
        AreCopied-SameTask io mounts media stack fuel (r, p) (r', p) index r.items
          (e, f, refl, refl) (rw (← f) (h.0 some_files)),
    AllCopied-SameTask r r' (suc index) ps e f h.1,
  )

  -- A partition without files is skipped.
  skipped_or_filled :
      (skip : Bool) (r : InstallerResult) (p : PartitionResult) (b : Filling)
      → {Q : Type 0} → Advances Q (r, p) b
      → Advances (skip ≡ false → Q) (r, p) (if skip then r else b.0, if skip then p else b.1)
  skipped_or_filled true r p b h = (SameTask-refl (r, p), λ ok. (ok, λ e. cc))
  skipped_or_filled false r p b h = (h.0, λ ok. ((h.1 ok).0, λ _. (h.1 ok).1))

  -- Where the loop reports no failure, it has copied the files of all partitions.
  pub install_loop-AllCopied :
      (index : ℕ) (done rest : List PartitionResult) (r : InstallerResult) (w : io.World)
      → length stack ≡ 64
      → let out = (install_loop io mounts media stack fuel index done rest r w).0 in
        no_failure out ≡ true
        → (no_failure r ≡ true) × AllCopied io mounts media stack fuel r index rest
  unfolding install_loop
  install_loop-AllCopied index done [] r w s = λ ok. (ok, tt)
  install_loop-AllCopied index done (p ∷ rest) r w s =
      let P : InstallerResult × io.World → Type 0 = λ out.
        no_failure out.0 ≡ true
        → (no_failure r ≡ true) × AllCopied io mounts media stack fuel r index (p ∷ rest) in
      let installed = install_partition io mounts media stack fuel index (r, p) w in
      let skip = p.source_files == 0 in
      let after = if skip then r else installed.0.0 in
      let filled = if skip then p else installed.0.1 in
      let world = if skip then w else installed.1 in
      let h =
        skipped_or_filled skip r p installed.0
          (install_partition-Advances index (r, p) (r, p) w s (SameTask-refl (r, p))) in
      let k = install_loop-AllCopied (suc index) (done ++ (filled ∷ [])) rest after world s in
      if_intro P (not (no_failure r)) _ _
        (λ e ok. clash (no_failure r) (negated (no_failure r) e) ok)
        λ _ ok.
          let later = k ok in
          let now = h.1 later.0 in
          (now.0, (now.1, AllCopied-SameTask r after (suc index) rest h.0.0 h.0.1 later.1))
