-- ===== src/Activation/Writing.antt =====
-- `write_all` of src/activation.c over a file system without faults: short writes are put together.
use mathlib.Core.Path.{subst}
use repair_box_psx_hdd_setup.Base.{
  ℕ, zero, suc, ◌+◌, ◌≤◌, ◌<◌, ℤ, pos, ◌≡◌, refl, ap, ◌∙◌, List, [], ◌∷◌, ◌++◌, append_assoc,
  append-nil, length, take, drop, length-drop, take-append-drop, arith,
}
use repair_box_psx_hdd_setup.FileXio.{FileXio}
use repair_box_psx_hdd_setup.FileXio.LawfulFile.{LawfulFile}
use repair_box_psx_hdd_setup.Activation.Arm.{write_loop}

module _ (io : FileXio) where
  write_loop_step :
      (fuel : ℕ) (fd : ℤ) (b : ℕ) (bytes : List ℕ) (offset k : ℕ) (w : io.World)
      → (io.write fd (b ∷ bytes) w).0 ≡ pos (suc k)
      → write_loop io (suc fuel) fd (b ∷ bytes) offset w
        ≡ write_loop io fuel fd
            (drop (suc k) (b ∷ bytes))
            (offset + suc k)
            (io.write fd (b ∷ bytes) w).1
  unfolding write_loop
  write_loop_step fuel fd b bytes offset k w e = rw (e, write_loop)

  module _ {path : List ℕ} (file : LawfulFile io path) where
    abbrev pub Written : ℤ → List ℕ → List ℕ → ℕ → (ℤ × ℕ) × io.World → Type 0
    Written fd content bytes offset r =
        (r.0 ≡ (pos (offset + length bytes), offset + length bytes))
        × file.Writing fd (content ++ bytes) r.1

    Written-nothing :
        (fd : ℤ) (content : List ℕ) (offset : ℕ) (w : io.World)
        → file.Writing fd content w
        → Written fd content [] offset ((pos offset, offset), w)
    Written-nothing fd content offset w r =
        let e : offset + 0 ≡ offset = omega arith in rw (append-nil, e) (refl, r)

    -- A round writes some bytes, and the rounds behind it write the rest.
    write_more :
        (fuel : ℕ) (fd : ℤ) (content : List ℕ) (b : ℕ) (bytes : List ℕ) (offset n : ℕ)
        (w : io.World)
        → (io.write fd (b ∷ bytes) w).0 ≡ pos n
        → 0 < n
        → n ≤ length (b ∷ bytes)
        → ((k : ℕ)
            → n ≡ suc k
            → Written fd
                (content ++ take (suc k) (b ∷ bytes))
                (drop (suc k) (b ∷ bytes))
                (offset + suc k)
                (write_loop io fuel fd
                  (drop (suc k) (b ∷ bytes))
                  (offset + suc k)
                  (io.write fd (b ∷ bytes) w).1))
        → Written fd content (b ∷ bytes) offset (write_loop io (suc fuel) fd (b ∷ bytes) offset w)
    write_more fuel fd content b bytes offset zero w e p h rest = absurd (omega arith)
    write_more fuel fd content b bytes offset (suc k) w e p h rest =
        let l : offset + suc k + length (drop (suc k) (b ∷ bytes)) ≡ offset + length (b ∷ bytes) =
          omega (arith, length-drop {0} (suc k) (b ∷ bytes)) in
        let all : (content ++ take (suc k) (b ∷ bytes)) ++ drop (suc k) (b ∷ bytes)
            ≡ content ++ (b ∷ bytes) =
          append_assoc content (take (suc k) (b ∷ bytes)) (drop (suc k) (b ∷ bytes))
          ∙ ap (λ t. content ++ t) (take-append-drop (suc k) (b ∷ bytes)) in
        let later = rest k refl in
        rw (write_loop_step fuel fd b bytes offset k w e) (
          later.0 ∙ ap (λ t. (pos t, t)) l,
          subst
              (λ t.
                file.Writing fd t
                  (write_loop io fuel fd (drop (suc k) (b ∷ bytes)) (offset + suc k)
                    (io.write fd (b ∷ bytes) w).1).1)
              all later.1,
        )

    -- Over a file system without faults, the loop of `write_all` writes all bytes behind those that are
    -- in the file, however the writes are split, with fuel of the number of bytes or more, and returns
    -- how many bytes are written.
    pub write_loop_writes :
        (fuel : ℕ) (fd : ℤ) (content bytes : List ℕ) (offset : ℕ) (w : io.World)
        → length bytes ≤ fuel
        → file.Writing fd content w
        → Written fd content bytes offset (write_loop io fuel fd bytes offset w)
    write_loop_writes zero fd content [] offset w h r =
        unfold write_loop in Written-nothing fd content offset w r
    write_loop_writes zero fd content (b ∷ bytes) offset w h r = absurd (omega arith)
    write_loop_writes (suc fuel) fd content [] offset w h r =
        unfold write_loop in Written-nothing fd content offset w r
    write_loop_writes (suc fuel) fd content (b ∷ bytes) offset w h r =
        let got = file.writes fd content (b ∷ bytes) w r (omega arith) in
        write_more fuel fd content b bytes offset got.0 w got.1 got.2 got.3 λ k e.
          write_loop_writes fuel fd (content ++ take (suc k) (b ∷ bytes)) (drop (suc k) (b ∷ bytes))
            (offset + suc k) (io.write fd (b ∷ bytes) w).1
            (omega (arith, length-drop {0} (suc k) (b ∷ bytes)))
            (subst
              (λ m. file.Writing fd (content ++ take m (b ∷ bytes)) (io.write fd (b ∷ bytes) w).1) e
              got.4)
