-- ===== src/Installer/Copy/Verified.antt =====
-- What a result of 0 of `copy_file_once` of src/installer.c means: what was read back has the size and
-- the SHA-256 of what was copied.
use mathlib.Core.Path.{subst}
use repair_box_psx_hdd_setup.Base.{
  ℕ, zero, suc, ◌+◌, ◌≤◌, ℤ, pos, negsuc, is_negative, ◌≡◌, refl, sym, ◌∙◌, ◌⊎◌, inl, inr, Bool,
  true, false, not, ◌||◌, List, [], ◌∷◌, ◌++◌, append_assoc, append-nil, length, length-append,
  drop, length-drop, ◌==◌, ==_iff, eq_bytes, eq_bytes→eq, u64, if_intro, arith,
}
use repair_box_psx_hdd_setup.FileXio.{FileXio, ReadResult, read_error, read_bytes}
use repair_box_psx_hdd_setup.Hash.Padding.{reference}
use repair_box_psx_hdd_setup.Hash.Sha256.{
  sha256_init, sha256_final, transform, initial_state, digest_of,
}
use repair_box_psx_hdd_setup.Hash.Sha256.Final.{
  Represents, sha256_init-Represents, sha256_update-Represents, sha256_final-Represents,
}
use repair_box_psx_hdd_setup.Xfrom.Copy.{SourceMedia, source_media_read_size}
use repair_box_psx_hdd_setup.Installer.{SourceItem}
use repair_box_psx_hdd_setup.Installer.Copy.{
  copy_buffer_size, Attempt, Hashing, absorb_bytes, verify_loop, hash_open_file, write_chunk,
  copy_pass, compare_copy,
}

-- The hash and the size of a message.
abbrev pub IsHashOf : Hashing → List ℕ → Type 0
IsHashOf h message = Represents h.hash message × (h.size ≡ u64 (length message))

absorb_bytes-IsHashOf :
    (h : Hashing) (message bytes : List ℕ)
    → IsHashOf h message
    → IsHashOf (absorb_bytes h bytes) (message ++ bytes)
unfolding absorb_bytes
absorb_bytes-IsHashOf h message bytes i = (
  sha256_update-Represents h.hash message bytes i.0,
  omega (arith, i.1, length-append {0} message bytes),
)

pub clash : {X : Type 0} (code : ℤ) → is_negative code ≡ true → is_negative code ≡ false → X
clash code h k = cc

neither : (a b : Bool) → not a || not b ≡ false → (a ≡ true) × (b ≡ true)
neither a b h = ground arith

pub read_result_cases :
    (r : ReadResult) → ((k : ℕ) × (r ≡ read_error k)) ⊎ ((bytes : List ℕ) × (r ≡ read_bytes bytes))
read_result_cases (read_error k) = inl (k, refl)
read_result_cases (read_bytes bytes) = inr (bytes, refl)

write_cases : (z : ℤ) → ((n : ℕ) × (z ≡ negsuc n)) ⊎ ((n : ℕ) × (z ≡ pos n))
write_cases (pos n) = inr (n, refl)
write_cases (negsuc n) = inl (n, refl)

module _ (io : FileXio) (media : SourceMedia) (stack : List ℕ) (fuel : ℕ) where
  -- From one state of the devices, reads of the descriptor deliver these bytes and then the end.
  pub data Delivers (fd : ℤ) (size : ℕ) : io.World → List ℕ → Type 0 where
    at_end : (w : io.World) → (io.read fd size w).0 ≡ read_bytes [] → Delivers fd size w []
    chunk :
        (w : io.World) (bytes rest : List ℕ)
        → (io.read fd size w).0 ≡ read_bytes bytes
        → Delivers fd size (io.read fd size w).1 rest
        → Delivers fd size w (bytes ++ rest)

  -- From one state of the devices to another, the bytes are written to the descriptor: each write takes
  -- a part of what is left, and is no error.
  pub data Writes (fd : ℤ) : List ℕ → io.World → io.World → Type 0 where
    wrote_all : (w : io.World) → Writes fd [] w w
    wrote_part :
        (bytes : List ℕ) (k : ℕ) (w w' : io.World)
        → (io.write fd bytes w).0 ≡ pos (suc k)
        → Writes fd (drop (suc k) bytes) (io.write fd bytes w).1 w'
        → Writes fd bytes w w'

  -- From one state of the devices to another, reads of the source deliver these bytes and then the end,
  -- and each chunk of them is written to the destination before the next is read.
  pub data Copies (source destination : ℤ) (size : ℕ) : io.World → io.World → List ℕ → Type 0 where
    copied_all :
        (w : io.World)
        → (io.read source size w).0 ≡ read_bytes []
        → Copies source destination size w (io.read source size w).1 []
    copied_chunk :
        (w u w' : io.World) (bytes rest : List ℕ)
        → (io.read source size w).0 ≡ read_bytes bytes
        → Writes destination bytes (io.read source size w).1 u
        → Copies source destination size u w' rest
        → Copies source destination size w w' (bytes ++ rest)

  write_chunk-Writes :
      (left : ℕ) (fd : ℤ) (bytes : List ℕ) (written : ℕ) (w : io.World)
      → length bytes ≤ left
      → let out = write_chunk io media stack fuel left fd bytes written w in
        is_negative out.0.0 ≡ false → Writes fd bytes w out.1
  unfolding write_chunk
  write_chunk-Writes zero fd [] written w l = λ _. wrote_all w
  write_chunk-Writes zero fd (b ∷ bytes) written w l = absurd (omega arith)
  write_chunk-Writes (suc left) fd [] written w l = λ _. wrote_all w
  write_chunk-Writes (suc left) fd (b ∷ bytes) written w l =
      let out = io.write fd (b ∷ bytes) w in
      elim (write_cases out.0) [
        | inl (n, e) ↦ rw (e, write_chunk) (λ k. cc)
        | inr (zero, e) ↦ rw (e, write_chunk) (λ k. cc)
        | inr (suc k, e) ↦
            let next =
              write_chunk-Writes left fd (drop (suc k) (b ∷ bytes)) (written + suc k) out.1
                (omega (arith, length-drop {0} {A = ℕ} k bytes)) in
            rw (e, write_chunk) (λ n. wrote_part (b ∷ bytes) k w _ e (next n))
      ]

  verify_loop-Delivers :
      (left : ℕ) (fd : ℤ) (offset : ℕ) (h : Hashing) (message : List ℕ) (w : io.World)
      → IsHashOf h message
      → let out = (verify_loop io media stack fuel left fd offset h w).0 in
        is_negative out.0.code ≡ false
        → (rest : List ℕ) × Delivers fd copy_buffer_size w rest × IsHashOf out.1 (message ++ rest)
  unfolding verify_loop
  verify_loop-Delivers zero fd offset h message w i = λ n. cc
  verify_loop-Delivers (suc left) fd offset h message w i =
      let got = io.read fd copy_buffer_size w in
      elim (read_result_cases got.0) [
        | inl (k, e) ↦ rw (e, verify_loop) (λ n. cc)
        | inr ([], e) ↦
            rw (e, verify_loop)
              (λ n. ([], at_end w e, subst (IsHashOf h) (sym (append-nil message)) i))
        | inr (x ∷ xs, e) ↦
            let h' = absorb_bytes h (x ∷ xs) in
            let next =
              verify_loop-Delivers left fd h'.size h' (message ++ (x ∷ xs)) got.1
                (absorb_bytes-IsHashOf h message (x ∷ xs) i) in
            rw (e, verify_loop)
              λ n.
                let r = next n in
                (
                  (x ∷ xs) ++ r.0,
                  chunk w (x ∷ xs) r.0 e r.1,
                  subst (IsHashOf _) (append_assoc message (x ∷ xs) r.0) r.2,
                )
      ]

  pub copy_pass-Copies :
      (left : ℕ) (source destination : ℤ) (offset : ℕ) (h : Hashing) (message : List ℕ)
      (w : io.World)
      → IsHashOf h message
      → let out = copy_pass io media stack fuel left source destination offset h w in
        is_negative out.0.0.code ≡ false
        → (rest : List ℕ) × Copies source destination
            (source_media_read_size media copy_buffer_size)
            w
            out.1
            rest
          × IsHashOf out.0.1 (message ++ rest)
  unfolding copy_pass
  copy_pass-Copies zero source destination offset h message w i = λ n. cc
  copy_pass-Copies (suc left) source destination offset h message w i =
      let size = source_media_read_size media copy_buffer_size in
      let got = io.read source size w in
      elim (read_result_cases got.0) [
        | inl (k, e) ↦ rw (e, copy_pass) (λ n. cc)
        | inr ([], e) ↦
            rw (e, copy_pass)
              (λ n. ([], copied_all w e, subst (IsHashOf h) (sym (append-nil message)) i))
        | inr (x ∷ xs, e) ↦
            let bytes = x ∷ xs in
            let h' = absorb_bytes h bytes in
            let wrote = write_chunk io media stack fuel (length bytes) destination bytes 0 got.1 in
            let P : (Attempt × Hashing) × io.World → Type 0 = λ out.
              is_negative out.0.0.code ≡ false
              → (rest : List ℕ) × Copies source destination size w out.1 rest
                × IsHashOf out.0.1 (message ++ rest) in
            let next =
              copy_pass-Copies left source destination h'.size h' (message ++ bytes) wrote.1
                (absorb_bytes-IsHashOf h message bytes i) in
            rw (e, copy_pass)
              (if_intro P (is_negative wrote.0.0) _ _ (λ f n. clash wrote.0.0 f n)
                λ f n.
                  let r = next n in
                  (
                    bytes ++ r.0,
                    copied_chunk w wrote.1 _ bytes r.0 e
                        (write_chunk-Writes (length bytes) destination bytes 0 got.1 (omega arith)
                          f)
                        r.1,
                    subst (IsHashOf _) (append_assoc message bytes r.0) r.2,
                  ))
      ]

  -- What is read back of the destination from this state of the devices on.
  abbrev pub ReadBack : SourceItem → List ℕ → List ℕ → io.World → Type 0
  ReadBack item destination message w' =
      (back : List ℕ) × Delivers (io.open_read destination w').0 copy_buffer_size
        (io.open_read destination w').1 back
      × (u64 (length message) ≡ item.size)
      × (u64 (length back) ≡ item.size)
      × (digest_of (reference transform initial_state back)
          ≡ digest_of (reference transform initial_state message))

  pub start_hash : length stack ≡ 64 → IsHashOf (record { hash = sha256_init stack; size = 0 }) []
  start_hash s = (sha256_init-Represents stack s, omega arith)

  hash_open_file-Delivers :
      (path : List ℕ) (offset : ℕ) (w : io.World)
      → length stack ≡ 64
      → let out = (hash_open_file io media stack fuel path offset w).0 in
        is_negative out.0.code ≡ false
        → (back : List ℕ) × Delivers
            (io.open_read path w).0
            copy_buffer_size
            (io.open_read path w).1
            back
          × IsHashOf out.1 back
  unfolding hash_open_file
  hash_open_file-Delivers path offset w s =
      let fd = io.open_read path w in
      let P : (Attempt × Hashing) × io.World → Type 0 = λ out.
        is_negative out.0.0.code ≡ false
        → (back : List ℕ) × Delivers fd.0 copy_buffer_size fd.1 back × IsHashOf out.0.1 back in
      let start : Hashing = record { hash = sha256_init stack; size = 0 } in
      let loop = verify_loop io media stack fuel fuel fd.0 offset start fd.1 in
      let closed = io.close fd.0 loop.1 in
      let read = verify_loop-Delivers fuel fd.0 offset start [] fd.1 (start_hash s) in
      if_intro P (is_negative fd.0) _ _ (λ f n. clash fd.0 f n)
        λ _.
          if_intro P (is_negative loop.0.0.code) _ _ (λ f n. clash loop.0.0.code f n)
            λ ok. if_intro P (is_negative closed.0) _ _ (λ f n. clash closed.0 f n) (λ _ _. read ok)

  pub compare_copy-ReadBack :
      (item : SourceItem) (destination : List ℕ) (offset : ℕ) (copied : Hashing) (message : List ℕ)
      (w : io.World)
      → length stack ≡ 64
      → IsHashOf copied message
      → copied.size ≡ item.size
      → let out = (compare_copy io media stack fuel destination offset copied w).0 in
        is_negative out.code ≡ false → ReadBack item destination message w
  unfolding compare_copy
  compare_copy-ReadBack item destination offset copied message w s i z =
      let P : Attempt × io.World → Type 0 =
        λ out. is_negative out.0.code ≡ false → ReadBack item destination message w in
      let back = hash_open_file io media stack fuel destination offset w in
      let h = back.0.1 in
      let read = hash_open_file-Delivers destination offset w s in
      let sizes = copied.size == h.size in
      let digests = eq_bytes (sha256_final copied.hash) (sha256_final h.hash) in
      if_intro P (is_negative back.0.0.code) _ _ (λ f n. clash back.0.0.code f n)
        λ ok.
          if_intro P (not sizes || not digests) _ _ (λ _ n. cc)
            λ same _.
              let r = read ok in
              let b = neither sizes digests same in
              let size = (==_iff copied.size h.size).0 b.0 in
              let digest = eq_bytes→eq (sha256_final copied.hash) (sha256_final h.hash) b.1 in
              (
                r.0,
                r.1,
                sym i.1 ∙ z,
                sym r.2.1 ∙ (sym size ∙ z),
                sym (sha256_final-Represents h.hash r.0 r.2.0)
                    ∙ (sym digest ∙ sha256_final-Represents copied.hash message i.0),
              )
