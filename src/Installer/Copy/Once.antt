-- ===== src/Installer/Copy/Once.antt =====
-- `copy_file_once` of src/installer.c as a whole.
use repair_box_psx_hdd_setup.Base.{
  ℕ, ℤ, pos, negsuc, is_negative, ◌==ℤ◌, ◌≡◌, refl, ◌⊎◌, inl, inr, true, false, not, Option, none,
  some, List, [], length, ◌==◌, ==_iff, if_intro, Bool-cases, not-false,
}
use repair_box_psx_hdd_setup.FileXio.{FileXio}
use repair_box_psx_hdd_setup.Hash.Sha256.{sha256_init}
use repair_box_psx_hdd_setup.Xfrom.Copy.{SourceMedia, source_media_read_size}
use repair_box_psx_hdd_setup.Installer.{
  SourceItem, PartitionResult, InstallerResult, make_usb_path, make_destination_path,
}
use repair_box_psx_hdd_setup.Installer.Copy.{
  copy_buffer_size, Attempt, Hashing, copy_pass, close_copy, copy_open, copy_paths, copy_between,
  copy_file_once,
}
use repair_box_psx_hdd_setup.Installer.Copy.Verified.{
  clash, IsHashOf, Copies, ReadBack, start_hash, copy_pass-Copies, compare_copy-ReadBack,
}

zero_code : (code : ℤ) → (code ==ℤ pos 0) ≡ true → is_negative code ≡ false
zero_code (pos n) h = refl
zero_code (negsuc n) h = cc

module _ (io : FileXio) (media : SourceMedia) (stack : List ℕ) (fuel : ℕ) where
  close_copy-ReadBack :
      (item : SourceItem) (destination : List ℕ) (source_fd destination_fd : ℤ) (offset : ℕ)
      (copied : Hashing) (message : List ℕ) (w : io.World)
      → length stack ≡ 64
      → IsHashOf copied message
      → let out =
          (close_copy io media stack fuel item destination source_fd destination_fd offset copied
            w).0 in
        is_negative out.code ≡ false
        → ReadBack io media stack fuel item destination message
            (io.close destination_fd (io.close source_fd w).1).1
  unfolding close_copy
  close_copy-ReadBack item destination source_fd destination_fd offset copied message w s i =
      let P : Attempt × io.World → Type 0 = λ out.
        is_negative out.0.code ≡ false
        → ReadBack io media stack fuel item destination message
            (io.close destination_fd (io.close source_fd w).1).1 in
      let c1 = io.close source_fd w in
      let c2 = io.close destination_fd c1.1 in
      if_intro P (is_negative c1.0) _ _ (λ f n. clash c1.0 f n)
        λ _.
          if_intro P (is_negative c2.0) _ _ (λ f n. clash c2.0 f n)
            λ _.
              if_intro P (not (copied.size == item.size)) _ _ (λ _ n. cc)
                λ e.
                  compare_copy-ReadBack io media stack fuel item destination offset copied message
                    c2.1 s i
                    ((==_iff copied.size item.size).0 (not-false (copied.size == item.size) e))

  -- The destination was written with what the source delivered, both were closed, and then the
  -- destination was read back.
  abbrev pub IsCopied : SourceItem → List ℕ → List ℕ → io.World → Type 0
  IsCopied item source destination w =
      let source_fd = io.open_read source w in
      let destination_fd = io.open_write destination source_fd.1 in
      (message : List ℕ) × (w' : io.World) × Copies io media stack fuel source_fd.0 destination_fd.0
        (source_media_read_size media copy_buffer_size) destination_fd.1 w' message
      × ReadBack io media stack fuel item destination message
          (io.close destination_fd.0 (io.close source_fd.0 w').1).1

  copy_paths-IsCopied :
      (item : SourceItem) (source destination : List ℕ) (w : io.World)
      → length stack ≡ 64
      → let out = (copy_paths io media stack fuel item source destination w).0 in
        is_negative out.code ≡ false → IsCopied item source destination w
  unfolding copy_paths copy_open
  copy_paths-IsCopied item source destination w s =
      let P : Attempt × io.World → Type 0 =
        λ out. is_negative out.0.code ≡ false → IsCopied item source destination w in
      let a = io.open_read source w in
      let b = io.open_write destination a.1 in
      let start : Hashing = record { hash = sha256_init stack; size = 0 } in
      let pass = copy_pass io media stack fuel fuel a.0 b.0 0 start b.1 in
      let run =
        copy_pass-Copies io media stack fuel fuel a.0 b.0 0 start [] b.1
          (start_hash io media stack fuel s) in
      if_intro P (is_negative a.0) _ _ (λ f n. clash a.0 f n)
        λ _.
          if_intro P (is_negative b.0) _ _ (λ f n. clash b.0 f n)
            λ _.
              if_intro P (is_negative pass.0.0.code) _ _ (λ f n. clash pass.0.0.code f n)
                λ ok n.
                  let r = run ok in
                  (
                    r.0,
                    pass.1,
                    r.1,
                    close_copy-ReadBack item destination a.0 b.0 pass.0.0.failure_offset pass.0.1
                        r.0 pass.1 s r.2 n,
                  )

  -- The two paths of an item.
  abbrev pub IsPlacedCopy : SourceItem → Option (List ℕ) → Option (List ℕ) → io.World → Type 0
  IsPlacedCopy item source destination w =
      (from : List ℕ) × (to : List ℕ) × (source ≡ some from)
      × (destination ≡ some to)
      × IsCopied item from to w

  pub copy_between-IsPlacedCopy :
      (item : SourceItem) (source destination : Option (List ℕ)) (w : io.World)
      → length stack ≡ 64
      → let out = (copy_between io media stack fuel item source destination w).0 in
        is_negative out.code ≡ false → IsPlacedCopy item source destination w
  unfolding copy_between
  copy_between-IsPlacedCopy item none destination w s = λ n. cc
  copy_between-IsPlacedCopy item (some source) none w s = λ n. cc
  copy_between-IsPlacedCopy item (some source) (some destination) w s =
      λ n. (source, destination, refl, refl, copy_paths-IsCopied item source destination w s n)

  -- The answer is not 0, or the item's source and destination paths fit into their buffers, reads of
  -- the source delivered bytes to their end, each chunk of which was written to the destination whole,
  -- by writes without an error, before the next was read; and in the state that this leaves, with both
  -- files closed, reads of the destination delivered bytes to their end of which the padded block fold
  -- has the same SHA-256 digest. Both have the size that the listing gives the item.
  pub copy_file_once_verified :
      (r : InstallerResult) (partition : PartitionResult) (item : SourceItem) (w : io.World)
      → length stack ≡ 64
      → ((((copy_file_once io media stack fuel r partition item w).0.code) ==ℤ pos 0) ≡ false)
        ⊎ IsPlacedCopy item
            (make_usb_path r.source_root partition.name item.relative_path)
            (make_destination_path partition item.relative_path)
            w
  unfolding copy_file_once
  copy_file_once_verified r partition item w s =
      let source = make_usb_path r.source_root partition.name item.relative_path in
      let destination = make_destination_path partition item.relative_path in
      let out = (copy_between io media stack fuel item source destination w).0 in
      elim (Bool-cases (out.code ==ℤ pos 0)) [
        | inl e ↦ inr (copy_between-IsPlacedCopy item source destination w s (zero_code out.code e))
        | inr f ↦ inl f
      ]
