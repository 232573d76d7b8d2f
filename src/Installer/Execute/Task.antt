-- ===== src/Installer/Execute/Task.antt =====
-- What one file that `installer_execute` of src/installer.c has copied means, and the steps of the
-- filling of a partition that keep its paths and the listing.
use repair_box_psx_hdd_setup.Base.{
  ℕ, zero, suc, ℤ, pos, negsuc, is_negative, ◌==ℤ◌, eio, ◌≡◌, refl, sym, ◌∙◌, Bool, true, false,
  not, ◌||◌, List, [], ◌∷◌, length, ◌==◌, if◌then◌else◌, if_intro, arith,
}
use repair_box_psx_hdd_setup.FileXio.{FileXio}
use repair_box_psx_hdd_setup.Drive.{Mounts}
use repair_box_psx_hdd_setup.Xfrom.Copy.{SourceMedia}
use repair_box_psx_hdd_setup.Installer.{
  item_file, SourceItem, PartitionResult, InstallerResult, set_failure, no_failure, make_usb_path,
  make_destination_path,
}
use repair_box_psx_hdd_setup.Installer.Copy.{
  Attempt, copy_file_once, copy_attempts, note_copy, copy_file,
}
use repair_box_psx_hdd_setup.Installer.Copy.Once.{IsPlacedCopy, copy_between-IsPlacedCopy}
use repair_box_psx_hdd_setup.Installer.Execute.{Filling}

-- A result that reports a failure.
abbrev pub HasFailed : InstallerResult → Type 0
HasFailed r = no_failure r ≡ false

pub negated : (b : Bool) → not b ≡ true → b ≡ false
negated true h = sym h
negated false h = refl

nonzero : (value : ℤ) → ((if value ==ℤ pos 0 then eio else value) ==ℤ pos 0) ≡ false
nonzero (pos zero) = refl
nonzero (pos (suc n)) = ground arith
nonzero (negsuc n) = refl

pub set_failure-HasFailed :
    (r : InstallerResult) (value : ℤ) (partition path operation : List ℕ)
    → HasFailed (set_failure r value partition path operation)
unfolding set_failure
set_failure-HasFailed r value partition path operation =
    if_intro HasFailed (not (no_failure r)) _ _ (λ e. negated (no_failure r) e) (λ _. nonzero value)

pub clash : {X : Type 0} (b : Bool) → b ≡ false → b ≡ true → X
clash true h k = cc
clash false h k = cc

-- What a partition and the result keep while it is filled: the paths and the listing.
abbrev pub SameTask : Filling → Filling → Type 0
SameTask a b =
    (b.0.source_root ≡ a.0.source_root)
    × (b.0.items ≡ a.0.items)
    × (b.1.name ≡ a.1.name)
    × (b.1.root_prefix ≡ a.1.root_prefix)

pub SameTask-refl : (a : Filling) → SameTask a a
SameTask-refl a = (refl, refl, refl, refl)

pub SameTask-trans : (a b c : Filling) → SameTask a b → SameTask b c → SameTask a c
SameTask-trans a b c h k = (k.0 ∙ h.0, k.1 ∙ h.1, k.2 ∙ h.2, k.3 ∙ h.3)

set_failure-SameTask :
    (a : Filling) (r : InstallerResult) (p : PartitionResult) (value : ℤ)
    (partition path operation : List ℕ)
    → SameTask a (r, p)
    → SameTask a (set_failure r value partition path operation, p)
unfolding set_failure
set_failure-SameTask a r p value partition path operation s =
    if_intro (λ (x : InstallerResult). SameTask a (x, p)) (not (no_failure r)) _ _ (λ _. s) (λ _. s)

-- One step of the filling keeps the task, and no failure behind it means that there was none before
-- and that the step has done `Q`.
abbrev pub Advances : Type 0 → Filling → Filling → Type 0
Advances Q a b = SameTask a b × (no_failure b.0 ≡ true → (no_failure a.0 ≡ true) × Q)

-- A step that failed advances to anything.
pub failure-Advances :
    {Q : Type 0} (a : Filling) (r : InstallerResult) (p : PartitionResult) (value : ℤ)
    (partition path operation : List ℕ)
    → SameTask a (r, p)
    → Advances Q a (set_failure r value partition path operation, p)
failure-Advances a r p value partition path operation s = (
  set_failure-SameTask a r p value partition path operation s,
  λ ok. clash _ (set_failure-HasFailed r value partition path operation) ok,
)

module _ (io : FileXio) (mounts : Mounts io) (media : SourceMedia) (stack : List ℕ) (fuel : ℕ) where
  -- In some state of the devices the file was copied and read back, with the paths of the task.
  abbrev pub WasCopied : Filling → SourceItem → Type 0
  WasCopied a item =
      (u : io.World) × IsPlacedCopy io media stack fuel item
        (make_usb_path a.0.source_root a.1.name item.relative_path)
        (make_destination_path a.1 item.relative_path) u

  -- The files of the listing that belong to the partition with this index.
  abbrev pub AreCopied : Filling → ℕ → List SourceItem → Type 0
  AreCopied a index [] = Unit {0}
  AreCopied a index (item ∷ items) =
      ((item.partition_index ≡ index) → (item.type ≡ item_file) → WasCopied a item)
      × AreCopied a index items

  -- The files of all partitions of which the scan has found any.
  abbrev pub AllCopied : InstallerResult → ℕ → List PartitionResult → Type 0
  AllCopied r index [] = Unit {0}
  AllCopied r index (p ∷ ps) =
      (((p.source_files == 0) ≡ false) → AreCopied (r, p) index r.items)
      × AllCopied r (suc index) ps

  pub WasCopied-SameTask :
      (a b : Filling) (item : SourceItem) → SameTask a b → WasCopied b item → WasCopied a item
  unfolding make_destination_path make_usb_path
  WasCopied-SameTask a b item s c = (c.0, rw (← s.0) (rw (← s.2) (rw (← s.3) c.1)))

  pub AreCopied-SameTask :
      (a b : Filling) (index : ℕ) (items : List SourceItem)
      → SameTask a b
      → AreCopied b index items
      → AreCopied a index items
  AreCopied-SameTask a b index [] s h = tt
  AreCopied-SameTask a b index (item ∷ items) s h =
      (λ e f. WasCopied-SameTask a b item s (h.0 e f), AreCopied-SameTask a b index items s h.1)

  attempts-WasCopied :
      (left number : ℕ) (r : InstallerResult) (p : PartitionResult) (item : SourceItem)
      (w : io.World)
      → length stack ≡ 64
      → is_negative (copy_attempts io media stack fuel left number r p item w).0.0.code ≡ false
      → WasCopied (r, p) item
  unfolding copy_attempts copy_file_once
  attempts-WasCopied zero number r p item w s n =
      (w, copy_between-IsPlacedCopy io media stack fuel item _ _ w s n)
  attempts-WasCopied (suc left) number r p item w s n =
      let P : (Attempt × (ℕ × ℕ)) × io.World → Type 0 =
        λ out. is_negative out.0.0.code ≡ false → WasCopied (r, p) item in
      let one = copy_file_once io media stack fuel r p item w in
      if_intro P ((one.0.code ==ℤ pos 0) || not (one.0.code ==ℤ eio)) _ _
        (λ _ n. (w, copy_between-IsPlacedCopy io media stack fuel item _ _ w s n))
        (λ _. attempts-WasCopied left (suc number) r p item one.1 s) n

  pub copy_file-Advances :
      (item : SourceItem) (a : Filling) (w : io.World)
      → length stack ≡ 64
      → Advances (WasCopied a item) a (copy_file io media stack fuel item a w).0
  unfolding copy_file note_copy
  copy_file-Advances item (r, p) w s =
      let P : Filling → Type 0 = λ b. Advances (WasCopied (r, p) item) (r, p) b in
      let run = copy_attempts io media stack fuel 1 1 r p item w in
      let code = run.0.0.code in
      if_intro P (is_negative code) _ _
        (λ _.
          failure-Advances (r, p) _ p code p.name item.relative_path run.0.0.failure_operation
            (refl, refl, refl, refl))
        (λ e. ((refl, refl, refl, refl), λ ok. (ok, attempts-WasCopied 1 1 r p item w s e)))
