-- ===== src/Xfrom/Execute/Written.antt =====
-- What `hash_path` and `write_path` of src/xfrom_repair.c have done where they answer without an error.
use mathlib.Core.Path.{subst}
use repair_box_psx_hdd_setup.Base.{
  ℕ, zero, suc, ℤ, pos, negsuc, is_negative, eilseq, ◌≡◌, refl, sym, ◌∙◌, append_assoc, inl, inr,
  Bool, true, false, some, List, [], ◌∷◌, ◌++◌, ◌==ℤ◌, if◌then◌else◌, if_intro, ◌+◌, ap, length,
  length-append, append-nil, ltb,
}
use repair_box_psx_hdd_setup.FileXio.{FileXio}
use repair_box_psx_hdd_setup.Hash.Padding.{reference}
use repair_box_psx_hdd_setup.Hash.Sha256.{
  Context, sha256_init, sha256_update, transform, initial_state, digest_of,
}
use repair_box_psx_hdd_setup.Hash.Sha256.Final.{
  Represents, sha256_init-Represents, sha256_update-Represents, sha256_final-Represents,
}
use repair_box_psx_hdd_setup.Installer.Copy.Verified.{Delivers, at_end, chunk, read_result_cases}
use repair_box_psx_hdd_setup.Xfrom.{Entry}
use repair_box_psx_hdd_setup.Xfrom.Copy.{
  xfrom_file_limit, xfrom_io_size, Hashed, SourceMedia, hash_loop, hash_path, copy_loop,
  build_destination_path,
}

pub zero_code : (code : ℤ) → (code ==ℤ pos 0) ≡ true → is_negative code ≡ false
zero_code (pos n) h = refl
zero_code (negsuc n) h = cc

pub failed : {X : Type 0} (code : ℤ) → is_negative code ≡ true → is_negative code ≡ false → X
failed code h k = cc

pub verify_code :
    (valid : Bool) (code : ℤ)
    → is_negative (if valid then pos 0 else if is_negative code then code else eilseq) ≡ false
    → valid ≡ true
verify_code true code h = refl
verify_code false (pos n) h = cc
verify_code false (negsuc n) h = cc

module _ (io : FileXio) (stack : List ℕ) (media : SourceMedia) (allocates : ℕ → Bool) where
  -- From one state of the devices, reads of the descriptor deliver these bytes and then the end.
  abbrev pub Reads : ℤ → io.World → List ℕ → Type 0
  Reads fd w content = Delivers io media stack 0 fd xfrom_io_size w content

  -- The bytes were written to the path, in this state of the devices, and the file was closed without
  -- an error; what was read of it from then on has this size and this SHA-256.
  abbrev pub IsWrittenAs : List ℕ → List ℕ → ℕ → List ℕ → io.World → Type 0
  IsWrittenAs path bytes size digest u =
      let opened = io.open_write path u in
      let copied = copy_loop io stack media allocates size opened.0 size bytes 0 opened.1 in
      let closed = io.close opened.0 copied.1 in
      let back = io.open_read path closed.1 in
      (is_negative opened.0 ≡ false)
      × (is_negative copied.0 ≡ false)
      × (is_negative closed.0 ≡ false)
      × ((content : List ℕ) × Reads back.0 back.1 content
          × (length content ≡ size)
          × (digest_of (reference transform initial_state content) ≡ digest))

  -- The destination of the entry was written, closed and read back.
  abbrev pub IsWritten : Entry → Type 0
  IsWritten entry =
      (u : io.World) × (path : List ℕ) × (bytes : List ℕ) × (build_destination_path entry
        ≡ some path)
      × IsWrittenAs path bytes entry.size entry.expected_sha256 u

  hash_loop-Reads :
      (left : ℕ) (fd : ℤ) (hash : Context) (message : List ℕ) (w : io.World)
      → Represents hash message
      → let out =
          (hash_loop io stack media allocates left xfrom_io_size fd hash (length message) w).0 in
        is_negative out.0 ≡ false
        → (rest : List ℕ) × Reads fd w rest
          × Represents out.1.0 (message ++ rest)
          × (out.1.1 ≡ length (message ++ rest))
  unfolding hash_loop
  hash_loop-Reads zero fd hash message w i = λ n. cc
  hash_loop-Reads (suc left) fd hash message w i =
      let got = io.read fd xfrom_io_size w in
      elim (read_result_cases got.0) [
        | inl (k, e) ↦ rw (e, hash_loop) (λ n. cc)
        | inr ([], e) ↦
            let same = append-nil message in
            rw (e, hash_loop)
              (λ n. ([], at_end w e, subst (Represents hash) (sym same) i, ap length (sym same)))
        | inr (x ∷ xs, e) ↦
            let all = length message + length (x ∷ xs) in
            let grown : length (message ++ (x ∷ xs)) ≡ all = length-append message (x ∷ xs) in
            let h' = sha256_update hash (x ∷ xs) in
            let P : (ℤ × (Context × ℕ)) × io.World → Type 0 = λ out.
              is_negative out.0.0 ≡ false
              → (rest : List ℕ) × Reads fd w rest
                × Represents out.0.1.0 (message ++ rest)
                × (out.0.1.1 ≡ length (message ++ rest)) in
            let next =
              subst
                (λ (n : ℕ).
                  let out =
                    (hash_loop io stack media allocates left xfrom_io_size fd h' n got.1).0 in
                  is_negative out.0 ≡ false
                  → (rest : List ℕ) × Reads fd got.1 rest
                    × Represents out.1.0 ((message ++ (x ∷ xs)) ++ rest)
                    × (out.1.1 ≡ length ((message ++ (x ∷ xs)) ++ rest)))
                grown
                (hash_loop-Reads left fd h' (message ++ (x ∷ xs)) got.1
                  (sha256_update-Represents hash message (x ∷ xs) i)) in
            rw (e, hash_loop)
              (if_intro P (ltb xfrom_file_limit all) _ _ (λ _ n. cc)
                λ _ n.
                  let r = next n in
                  let same = append_assoc message (x ∷ xs) r.0 in
                  (
                    (x ∷ xs) ++ r.0,
                    chunk w (x ∷ xs) r.0 e r.1,
                    subst (Represents _) same r.2,
                    r.3 ∙ ap length same,
                  ))
      ]

  pub hash_path-Reads :
      (path : List ℕ) (w : io.World)
      → length stack ≡ 64
      → let out = (hash_path io stack media allocates path false w).0 in
        is_negative out.code ≡ false
        → (content : List ℕ) × Reads (io.open_read path w).0 (io.open_read path w).1 content
          × (out.size ≡ length content)
          × (out.digest ≡ digest_of (reference transform initial_state content))
  unfolding hash_path
  hash_path-Reads path w s =
      let fd = io.open_read path w in
      let P : Hashed × io.World → Type 0 = λ out.
        is_negative out.0.code ≡ false
        → (content : List ℕ) × Reads fd.0 fd.1 content
          × (out.0.size ≡ length content)
          × (out.0.digest ≡ digest_of (reference transform initial_state content)) in
      let loop =
        hash_loop io stack media allocates (suc xfrom_file_limit) xfrom_io_size fd.0
          (sha256_init stack) 0 fd.1 in
      let closed = io.close fd.0 loop.1 in
      let read =
        hash_loop-Reads (suc xfrom_file_limit) fd.0 (sha256_init stack) [] fd.1
          (sha256_init-Represents stack s) in
      if_intro P (is_negative fd.0) _ _ (λ f n. failed fd.0 f n)
        λ _.
          if_intro P (is_negative loop.0.0) _ _ (λ f n. failed loop.0.0 f n)
            λ ok.
              if_intro P (is_negative closed.0) _ _ (λ f n. failed closed.0 f n)
                λ _ _.
                  let r = read ok in (r.0, r.1, r.3, sha256_final-Represents loop.0.1.0 r.0 r.2)
