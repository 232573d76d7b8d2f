-- ===== src/Xfrom/Execute/Placed.antt =====
-- What success of `xfrom_repair_execute` of src/xfrom_repair.c means for the files.
use mathlib.Core.Path.{subst}
use repair_box_psx_hdd_setup.Base.{
  ℕ, zero, suc, ℤ, pos, is_negative, eio, eperm, enametoolong, ◌≡◌, refl, sym, ◌∙◌, append_assoc,
  ◌⊎◌, inl, inr, Bool, true, false, not, ◌||◌, Option, none, some, List, [], ◌∷◌, ◌++◌, ◌==ℤ◌,
  if◌then◌else◌, if_intro, Option-cases, arith, length, ◌==◌, ==_iff, eq_bytes, eq_bytes→eq,
  and_elim, ◌&&◌,
}
use repair_box_psx_hdd_setup.FileXio.{FileXio}
use repair_box_psx_hdd_setup.Xfrom.{Entry, Revision, RepairResult}
use repair_box_psx_hdd_setup.Xfrom.Cleanup.{cleanup_system_root}
use repair_box_psx_hdd_setup.Xfrom.Copy.{
  SourceMedia, matches, hash_path, verify_destination, write_path, copy_loop,
  write_verified_destination, load_verified_source, build_destination_path,
}
use repair_box_psx_hdd_setup.Xfrom.Execute.{
  ensure_system_root, attempt, attempt_loop, execute_files, finish_repair, write_files,
  execute_permitted, xfrom_repair_execute,
}
use repair_box_psx_hdd_setup.Xfrom.Execute.Written.{
  zero_code, failed, verify_code, IsWritten, hash_path-Reads,
}

module _ (io : FileXio) (stack : List ℕ) (media : SourceMedia) (allocates : ℕ → Bool) where
  -- The file is left to the activation, or what was read back from it has the entry's size and digest.
  abbrev pub IsPlaced : Entry → Type 0
  IsPlaced entry =
      (entry.deferred_activation ≡ true)
      ⊎ ((entry.destination_valid ≡ true) × IsWritten io stack media allocates entry)

  abbrev pub ArePlaced : List Entry → Type 0
  ArePlaced [] = Unit {0}
  ArePlaced (entry ∷ entries) = IsPlaced entry × ArePlaced entries

  ArePlaced-append :
      (done : List Entry) (entry : Entry)
      → ArePlaced done
      → IsPlaced entry
      → ArePlaced (done ++ (entry ∷ []))
  ArePlaced-append [] entry h p = (p, tt)
  ArePlaced-append (e ∷ done) entry h p = (h.0, ArePlaced-append done entry h.1 p)

  append-empty : (done : List Entry) → ArePlaced done → ArePlaced (done ++ [])
  append-empty [] h = tt
  append-empty (e ∷ done) h = (h.0, append-empty done h.1)

  -- An answer for one file that is no error comes with a verified file.
  abbrev Verified : ℤ × Entry → Type 0
  Verified out =
      is_negative out.0 ≡ false
      → (out.1.destination_valid ≡ true) × IsWritten io stack media allocates out.1

  write_path-Verified :
      (entry : Entry) (bytes path : List ℕ) (w : io.World)
      → length stack ≡ 64
      → build_destination_path entry ≡ some path
      → Verified (write_path io stack media allocates entry bytes path w).0
  unfolding write_path verify_destination build_destination_path
  write_path-Verified entry bytes path w s q =
      let P : (ℤ × Entry) × io.World → Type 0 = λ out. Verified out.0 in
      let opened = io.open_write path w in
      let copied =
        copy_loop io stack media allocates entry.size opened.0 entry.size bytes 0 opened.1 in
      let closed = io.close opened.0 copied.1 in
      if_intro P (is_negative opened.0) _ _ (λ e. failed _ e)
        λ f.
          if_intro P (is_negative copied.0) _ _ (λ e. failed _ e)
            λ g.
              if_intro P (is_negative closed.0) _ _ (λ e. failed eio refl)
                λ h n.
                  let hashed = (hash_path io stack media allocates path false closed.1).0 in
                  let valid = verify_code (matches entry hashed) hashed.code n in
                  let a =
                    and_elim (hashed.code ==ℤ pos 0)
                      ((hashed.size == entry.size) && eq_bytes hashed.digest entry.expected_sha256)
                      valid in
                  let b =
                    and_elim (hashed.size == entry.size)
                      (eq_bytes hashed.digest entry.expected_sha256) a.1 in
                  let r =
                    hash_path-Reads io stack media allocates path closed.1 s
                      (zero_code hashed.code a.0) in
                  (
                    valid,
                    (
                      w,
                      path,
                      bytes,
                      q,
                      (
                        f,
                        g,
                        h,
                        (
                          r.0,
                          r.1,
                          sym r.2 ∙ (==_iff hashed.size entry.size).0 b.0,
                          sym r.3 ∙ eq_bytes→eq hashed.digest entry.expected_sha256 b.1,
                        ),
                      ),
                    ),
                  )

  write_verified_destination-Verified :
      (entry : Entry) (bytes : List ℕ) (w : io.World)
      → length stack ≡ 64
      → Verified (write_verified_destination io stack media allocates entry bytes w).0
  unfolding write_verified_destination
  write_verified_destination-Verified entry bytes w s =
      elim (Option-cases (build_destination_path entry)) [
        | inl e ↦ rw (e, Verified, write_verified_destination) (failed enametoolong refl)
        | inr (path, e) ↦
            rw (e, Verified, write_verified_destination)
              (write_path-Verified entry bytes path w s e)
      ]

  attempt-Verified :
      (revision : Revision) (entry : Entry) (w : io.World)
      → length stack ≡ 64
      → Verified (attempt io stack media allocates revision entry w).0
  unfolding attempt
  attempt-Verified revision entry w s =
      let P : (ℤ × Entry) × io.World → Type 0 = λ out. Verified out.0 in
      let loaded = load_verified_source io stack media allocates revision entry w in
      if_intro P (is_negative loaded.0.0) _ _ (λ e. failed _ e)
        λ _. write_verified_destination-Verified entry loaded.0.1 loaded.1 s

  attempt_loop-Verified :
      (left : ℕ) (revision : Revision) (code : ℤ) (entry : Entry) (w : io.World)
      → length stack ≡ 64
      → Verified (code, entry)
      → Verified (attempt_loop io stack media allocates left revision code entry w).0
  unfolding attempt_loop
  attempt_loop-Verified zero revision code entry w s v = v
  attempt_loop-Verified (suc left) revision code entry w s v =
      let P : (ℤ × Entry) × io.World → Type 0 = λ out. Verified out.0 in
      let tried = attempt io stack media allocates revision entry w in
      let verified = attempt-Verified revision entry w s in
      if_intro P ((tried.0.0 ==ℤ pos 0) || not (tried.0.0 ==ℤ eio)) _ _ (λ _. verified)
        λ _. attempt_loop-Verified left revision tried.0.0 tried.0.1 tried.1 s verified

  -- An answer that is no error comes with files that are all placed.
  abbrev Placed : ℤ × RepairResult → Type 0
  Placed out = is_negative out.0 ≡ false → ArePlaced out.1.files

  execute_files-Placed :
      (done rest : List Entry) (result : RepairResult) (w : io.World)
      → length stack ≡ 64
      → result.files ≡ done ++ rest
      → ArePlaced done
      → Placed (execute_files io stack media allocates done rest result w).0
  unfolding execute_files
  execute_files-Placed done [] result w s e h = λ _. subst ArePlaced (sym e) (append-empty done h)
  execute_files-Placed done (entry ∷ rest) result w s e h =
      let P : (ℤ × RepairResult) × io.World → Type 0 = λ out. Placed out.0 in
      let out = attempt_loop io stack media allocates 2 result.revision eio entry w in
      let verified : Verified out.0 =
        attempt_loop-Verified 2 result.revision eio entry w s (failed eio refl) in
      if_intro P entry.deferred_activation _ _
        (λ deferred.
          execute_files-Placed (done ++ (entry ∷ [])) rest _ w s
            (e ∙ sym (append_assoc done (entry ∷ []) rest))
            (ArePlaced-append done entry h (inl deferred)))
        λ _.
          if_intro P (is_negative out.0.0) _ _ (λ bad. failed _ bad)
            λ ok.
              execute_files-Placed (done ++ (out.0.1 ∷ [])) rest _ out.1 s
                (sym (append_assoc done (out.0.1 ∷ []) rest))
                (ArePlaced-append done out.0.1 h (inr (verified ok)))

  -- The answer of the repair: where it is no error, all files are placed and counted.
  abbrev Repaired : Option (ℤ × RepairResult) → Type 0
  Repaired none = Unit {0}
  Repaired (some (code, r)) = is_negative code ≡ false → ArePlaced r.files × (r.repair_valid ≡ true)

  counted : (valid : Bool) → is_negative (if valid then pos 0 else eio) ≡ false → valid ≡ true
  counted true h = refl
  counted false h = cc

  finish_repair-Repaired :
      (out : ℤ × RepairResult)
      → Placed out
      → Repaired (some (finish_repair io stack media allocates out))
  unfolding finish_repair
  finish_repair-Repaired (code, result) h =
      let P : ℤ × RepairResult → Type 0 = λ out. Repaired (some out) in
      if_intro P (is_negative code) _ _ (λ bad. failed _ bad) λ ok k. (h ok, counted _ k)

  write_files-Repaired :
      (cleaned : Option (ℤ × RepairResult)) (w : io.World)
      → length stack ≡ 64
      → Repaired (write_files io stack media allocates cleaned w).0
  unfolding write_files
  write_files-Repaired none w s = tt
  write_files-Repaired (some (code, result)) w s =
      let P : Option (ℤ × RepairResult) × io.World → Type 0 = λ out. Repaired out.0 in
      if_intro P (is_negative code) _ _ (λ bad. failed _ bad)
        λ _.
          finish_repair-Repaired (execute_files io stack media allocates [] result.files result w).0
            (execute_files-Placed [] result.files result w s refl tt)

  execute_permitted-Repaired :
      (fuel : ℕ) (result : RepairResult) (w : io.World)
      → length stack ≡ 64
      → Repaired (execute_permitted io stack media allocates fuel result w).0
  unfolding execute_permitted
  execute_permitted-Repaired fuel result w s =
      let P : Option (ℤ × RepairResult) × io.World → Type 0 = λ out. Repaired out.0 in
      let root = ensure_system_root io result w in
      let cleaned = cleanup_system_root io fuel root.0.1 root.1 in
      if_intro P (is_negative root.0.0) _ _ (λ bad. failed _ bad)
        λ _. write_files-Repaired cleaned.0 cleaned.1 s

  IsRefusal : Option (ℤ × RepairResult) → Type 0
  IsRefusal none = Unit {0}
  IsRefusal (some out) = is_negative out.0 ≡ true

  refusal :
      (a b : ℤ × RepairResult) → is_negative a.0 ≡ true → some a ≡ some b → is_negative b.0 ≡ true
  unfolding IsRefusal
  refusal a b h q = subst IsRefusal q h

  permitted :
      (a b c d : Bool)
      → not a || (not b || (not c || not d)) ≡ false
      → (a ≡ true) × (b ≡ true) × (c ≡ true) × (d ≡ true)
  permitted a b c d h = ground arith

  -- When `xfrom_repair_execute` returns without an error, it was permitted to run, the source files
  -- were valid and the flash accessible, and the repair is valid. Every file of the result is left to
  -- the activation, or its destination was opened, written and closed without an error, and what was
  -- read of it from then on has the entry's size, and a padded block fold that is the SHA-256 digest of
  -- the entry.
  pub xfrom_repair_execute_placed :
      (fuel : ℕ) (result r : RepairResult) (storage_valid session_confirmed : Bool) (code : ℤ)
      (w : io.World)
      → length stack ≡ 64
      → (xfrom_repair_execute io stack media allocates fuel result storage_valid session_confirmed
          w).0
        ≡ some (code, r)
      → is_negative code ≡ false
      → ((storage_valid ≡ true)
          × (session_confirmed ≡ true)
          × (result.source_valid ≡ true)
          × (result.xfrom_root_accessible ≡ true))
        × ArePlaced r.files
        × (r.repair_valid ≡ true)
  unfolding xfrom_repair_execute
  xfrom_repair_execute_placed fuel result r sv sc code w s e ok =
      let Answer : Option (ℤ × RepairResult) → Type 0 = λ out.
        out ≡ some (code, r)
        → ((sv ≡ true)
            × (sc ≡ true)
            × (result.source_valid ≡ true)
            × (result.xfrom_root_accessible ≡ true))
          × ArePlaced r.files
          × (r.repair_valid ≡ true) in
      let P : Option (ℤ × RepairResult) × io.World → Type 0 = λ out. Answer out.0 in
      let run = execute_permitted-Repaired fuel (record result { write_attempted = true }) w s in
      if_intro P
        (not sv || (not sc || (not result.source_valid || not result.xfrom_root_accessible))) _ _
        (λ _ q. failed code (refusal (eperm, result) (code, r) refl q) ok)
        (λ may q. (
          permitted sv sc result.source_valid result.xfrom_root_accessible may,
          (subst Repaired q run ok).0,
          (subst Repaired q run ok).1,
        ))
        e
