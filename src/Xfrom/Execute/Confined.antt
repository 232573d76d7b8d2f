-- ===== src/Xfrom/Execute/Confined.antt =====
-- What `xfrom_repair_execute` of src/xfrom_repair.c writes: the known files that are not left to the
-- activation, and nothing else.
use repair_box_psx_hdd_setup.Base.{
  ℕ, zero, suc, ◌+◌, ◌-◌, min, ℤ, pos, negsuc, is_negative, ◌≡◌, refl, Bool, false, not, ◌||◌, some,
  List, [], ◌∷◌, ◌++◌, length, take, drop, ltb, leb, ◌==ℤ◌, eq_bytes, if◌then◌else◌, if_intro,
  Option-cases, inl, inr,
}
use repair_box_psx_hdd_setup.FileXio.{FileXio, ReadResult, read_error, read_bytes, amount}
use repair_box_psx_hdd_setup.Hash.Sha256.{Context, sha256_init, sha256_update, sha256_final}
use repair_box_psx_hdd_setup.Xfrom.{Entry, Revision, xfrom_system_root}
use repair_box_psx_hdd_setup.Xfrom.Cleanup.Frame.{Frame}
use repair_box_psx_hdd_setup.Xfrom.Copy.{
  SourceMedia, build_source_path, build_destination_path, hash_loop, hash_path, load_loop,
  finish_load, load_path, load_verified_source, copy_loop, verify_destination, write_path,
  xfrom_file_limit, xfrom_io_size, source_media_read_size,
}

-- The path is the destination of a file that is not left to the activation.
pub data IsTarget (path : List ℕ) : List Entry → Type 0 where
  this_file :
      {entry : Entry} {rest : List Entry}
      → entry.deferred_activation ≡ false
      → build_destination_path entry ≡ some path
      → IsTarget path (entry ∷ rest)
  later_file :
      {entry : Entry} {rest : List Entry} → IsTarget path rest → IsTarget path (entry ∷ rest)

-- A property of the devices that reading keeps, that creating the system folder and removing extra
-- files of it keep, and that writing the targets keeps.
pub record Confines (io : FileXio) (files : List Entry) (Inv : io.World → Type 0) : Type 0 where
  pub cleanup : Frame io files Inv
  pub keeps_mkdir : (w : io.World) → Inv w → Inv (io.mkdir xfrom_system_root w).1
  pub keeps_open_read : (path : List ℕ) (w : io.World) → Inv w → Inv (io.open_read path w).1
  pub keeps_read : (fd : ℤ) (size : ℕ) (w : io.World) → Inv w → Inv (io.read fd size w).1
  pub keeps_close : (fd : ℤ) (w : io.World) → Inv w → Inv (io.close fd w).1
  pub keeps_open_write :
      (path : List ℕ) (w : io.World) → IsTarget path files → Inv w → Inv (io.open_write path w).1
  pub keeps_write : (fd : ℤ) (bytes : List ℕ) (w : io.World) → Inv w → Inv (io.write fd bytes w).1

-- The cases of a read and of a write, with an equation.
data ReadCases (r : ReadResult) : Type 0 where
  is_error : (n : ℕ) → r ≡ read_error n → ReadCases r
  is_empty : r ≡ read_bytes [] → ReadCases r
  is_some : (x : ℕ) (xs : List ℕ) → r ≡ read_bytes (x ∷ xs) → ReadCases r

read_cases : (r : ReadResult) → ReadCases r
read_cases (read_error n) = is_error n refl
read_cases (read_bytes []) = is_empty refl
read_cases (read_bytes (x ∷ xs)) = is_some x xs refl

data WriteCases (z : ℤ) : Type 0 where
  is_negsuc : (n : ℕ) → z ≡ negsuc n → WriteCases z
  is_zero : z ≡ pos 0 → WriteCases z
  is_positive : (k : ℕ) → z ≡ pos (suc k) → WriteCases z

write_cases : (z : ℤ) → WriteCases z
write_cases (negsuc n) = is_negsuc n refl
write_cases (pos zero) = is_zero refl
write_cases (pos (suc k)) = is_positive k refl

module _ (io : FileXio) (stack : List ℕ) (media : SourceMedia) (allocates : ℕ → Bool)
    (files : List Entry) (Inv : io.World → Type 0) (keeps : Confines io files Inv) where
  abbrev Keeps : {A : Type 0} → A × io.World → Type 0
  Keeps out = Inv out.1

  hash_loop-Keeps :
      (fuel request : ℕ) (fd : ℤ) (hash : Context) (total : ℕ) (w : io.World)
      → Inv w
      → Inv (hash_loop io stack media allocates fuel request fd hash total w).1
  unfolding hash_loop
  hash_loop-Keeps zero request fd hash total w i = i
  hash_loop-Keeps (suc fuel) request fd hash total w i =
      let kept = keeps.keeps_read fd request w i in
      elim (read_cases (io.read fd request w).0) [
        | is_error n e ↦ rw (e, hash_loop) kept
        | is_empty e ↦ rw (e, hash_loop) kept
        | is_some x xs e ↦
            rw (e, hash_loop)
              (if_intro Keeps (ltb xfrom_file_limit (total + length (x ∷ xs))) _ _ (λ _. kept)
                λ _.
                  hash_loop-Keeps fuel request fd (sha256_update hash (x ∷ xs))
                    (total + length (x ∷ xs)) _ kept)
      ]

  hash_path-Keeps :
      (path : List ℕ) (source : Bool) (w : io.World)
      → Inv w
      → Inv (hash_path io stack media allocates path source w).1
  unfolding hash_path
  hash_path-Keeps path source w i =
      let opened = io.open_read path w in
      let kept = keeps.keeps_open_read path w i in
      let request : ℕ =
        if source then source_media_read_size media xfrom_io_size else xfrom_io_size in
      let loop =
        hash_loop io stack media allocates (suc xfrom_file_limit) request opened.0
          (sha256_init stack) 0 opened.1 in
      let read =
        hash_loop-Keeps (suc xfrom_file_limit) request opened.0 (sha256_init stack) 0 opened.1
          kept in
      let done = keeps.keeps_close opened.0 loop.1 read in
      if_intro Keeps (is_negative opened.0) _ _ (λ _. kept)
        λ _.
          if_intro Keeps (is_negative loop.0.0) _ _ (λ _. done)
            λ _.
              if_intro Keeps (is_negative (io.close opened.0 loop.1).0) _ _ (λ _. done) (λ _. done)

  load_loop-Keeps :
      (fuel : ℕ) (fd : ℤ) (size : ℕ) (hash : Context) (buffer : List ℕ) (w : io.World)
      → Inv w
      → Inv (load_loop io stack media allocates fuel fd size hash buffer w).1
  unfolding load_loop
  load_loop-Keeps zero fd size hash buffer w i = i
  load_loop-Keeps (suc fuel) fd size hash buffer w i =
      let request = source_media_read_size media (min (size - length buffer) xfrom_io_size) in
      let kept = keeps.keeps_read fd request w i in
      if_intro Keeps (leb size (length buffer)) _ _ (λ _. i)
        λ _. elim (read_cases (io.read fd request w).0) [
          | is_error n e ↦ rw e kept
          | is_empty e ↦ rw e kept
          | is_some x xs e ↦ rw e (
              load_loop-Keeps fuel fd size (sha256_update hash (x ∷ xs)) (buffer ++ (x ∷ xs)) _
                kept)
        ]

  finish_load-Keeps :
      (entry : Entry) (fd : ℤ) (hash : Context) (buffer : List ℕ) (w : io.World)
      → Inv w
      → Inv (finish_load io stack media allocates entry fd hash buffer w).1
  unfolding finish_load
  finish_load-Keeps entry fd hash buffer w i =
      let extra = io.read fd 1 w in
      let closed = io.close fd extra.1 in
      let kept = keeps.keeps_close fd extra.1 (keeps.keeps_read fd 1 w i) in
      if_intro Keeps (not (amount extra.0 ==ℤ pos 0) || is_negative closed.0) _ _ (λ _. kept)
        λ _.
          if_intro Keeps (not (eq_bytes (sha256_final hash) entry.expected_sha256)) _ _ (λ _. kept)
            λ _. kept

  load_path-Keeps :
      (entry : Entry) (path : List ℕ) (w : io.World)
      → Inv w
      → Inv (load_path io stack media allocates entry path w).1
  unfolding load_path
  load_path-Keeps entry path w i =
      let opened = io.open_read path w in
      let kept = keeps.keeps_open_read path w i in
      let loop =
        load_loop io stack media allocates entry.size opened.0 entry.size (sha256_init stack) []
          opened.1 in
      let read =
        load_loop-Keeps entry.size opened.0 entry.size (sha256_init stack) [] opened.1 kept in
      if_intro Keeps (is_negative opened.0) _ _ (λ _. kept)
        λ _.
          if_intro Keeps (is_negative loop.0.0) _ _ (λ _. keeps.keeps_close opened.0 loop.1 read)
            λ _. finish_load-Keeps entry opened.0 loop.0.1.0 loop.0.1.1 loop.1 read

  pub load_verified_source-Keeps :
      (revision : Revision) (entry : Entry) (w : io.World)
      → Inv w
      → Inv (load_verified_source io stack media allocates revision entry w).1
  unfolding load_verified_source
  load_verified_source-Keeps revision entry w i =
      elim (Option-cases (build_source_path media revision entry entry.source_nested)) [
        | inl e ↦ rw (e, load_verified_source) i
        | inr (path, e) ↦
            rw (e, load_verified_source)
              (if_intro Keeps (allocates (if ltb 0 entry.size then entry.size else 64)) _ _
                (λ _. load_path-Keeps entry path w i) λ _. i)
      ]

  copy_loop-Keeps :
      (fuel : ℕ) (fd : ℤ) (size : ℕ) (bytes : List ℕ) (offset : ℕ) (w : io.World)
      → Inv w
      → Inv (copy_loop io stack media allocates fuel fd size bytes offset w).1
  unfolding copy_loop
  copy_loop-Keeps zero fd size bytes offset w i = i
  copy_loop-Keeps (suc fuel) fd size bytes offset w i =
      let chunk = take (min (size - offset) xfrom_io_size) (drop offset bytes) in
      let kept = keeps.keeps_write fd chunk w i in
      if_intro Keeps (leb size offset) _ _ (λ _. i)
        λ _. elim (write_cases (io.write fd chunk w).0) [
          | is_negsuc n e ↦ rw e kept
          | is_zero e ↦ rw e kept
          | is_positive k e ↦ rw e (copy_loop-Keeps fuel fd size bytes (offset + suc k) _ kept)
        ]

  -- The answer for one file: the path of the entry stays, and the property holds.
  abbrev KeepsEntry : List ℕ → (ℤ × Entry) × io.World → Type 0
  KeepsEntry path out = (out.0.1.path ≡ path) × Inv out.1

  pub write_path-Keeps :
      (entry : Entry) (bytes path : List ℕ) (w : io.World)
      → IsTarget path files
      → Inv w
      → KeepsEntry entry.path (write_path io stack media allocates entry bytes path w)
  unfolding write_path verify_destination
  write_path-Keeps entry bytes path w target i =
      let P : (ℤ × Entry) × io.World → Type 0 = KeepsEntry entry.path in
      let opened = io.open_write path w in
      let kept = keeps.keeps_open_write path w target i in
      let copied =
        copy_loop io stack media allocates entry.size opened.0 entry.size bytes 0 opened.1 in
      let written = copy_loop-Keeps entry.size opened.0 entry.size bytes 0 opened.1 kept in
      let closed = io.close opened.0 copied.1 in
      let done = keeps.keeps_close opened.0 copied.1 written in
      if_intro P (is_negative opened.0) _ _ (λ _. (refl, kept))
        λ _.
          if_intro P (is_negative copied.0) _ _ (λ _. (refl, done))
            λ _.
              if_intro P (is_negative closed.0) _ _ (λ _. (refl, done))
                λ _. (refl, hash_path-Keeps path false closed.1 done)
