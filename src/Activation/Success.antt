-- ===== src/Activation/Success.antt =====
-- `activation_arm_pending` of src/activation.c over a file system without faults.
use mathlib.Core.Path.{subst}
use repair_box_psx_hdd_setup.Base.{
  ℕ, ◌+◌, ℤ, pos, ◌≡◌, refl, sym, ap, ◌∙◌, Bool, true, false, not, ◌&&◌, ◌||◌, List, [], length,
  eq_bytes_refl, arith, if◌then◌else◌,
}
use repair_box_psx_hdd_setup.FileXio.{FileXio}
use repair_box_psx_hdd_setup.FileXio.LawfulFile.{LawfulFile}
use repair_box_psx_hdd_setup.Bootflag.Image.{expected_sha1}
use repair_box_psx_hdd_setup.Bootflag.Scan.{bootflag_inspect_image}
use repair_box_psx_hdd_setup.Activation.Read.{
  ActivationFile, bootflag_path, image_valid, read_image,
}
use repair_box_psx_hdd_setup.Activation.Reading.{IsWhole, read_image-IsWhole}
use repair_box_psx_hdd_setup.Activation.Prepare.{
  ActivationResult, is_pending, activation_prepare, readback_valid,
}
use repair_box_psx_hdd_setup.Activation.Arm.{
  write_loop, write_all, write_image, read_back, activation_arm_pending,
}
use repair_box_psx_hdd_setup.Activation.Preparing.{prepare_outcome, standard, standard_facts}
use repair_box_psx_hdd_setup.Activation.Writing.{write_loop_writes}

allowed :
    {A : Type 0} (g a : Bool) (x y : A)
    → g ≡ true
    → a ≡ false
    → (if not true || (not true || (not g || a)) then x else y) ≡ y
allowed true false x y p q = refl
allowed true true x y p q = cc
allowed false a x y p q = cc

module _ (io : FileXio) (stack : List ℕ) where
  write_image_eq :
      (result : ActivationResult) (w : io.World) (fd k : ℕ)
      → (io.open_write bootflag_path w).0 ≡ pos fd
      → (write_all io (pos fd) result.generated.bytes (io.open_write bootflag_path w).1).0
        ≡ (pos 512, 512)
      → (io.close
          (pos fd)
          (write_all io (pos fd) result.generated.bytes (io.open_write bootflag_path w).1).1).0
        ≡ pos k
      → (r : ActivationResult) × (write_image io stack result w
          ≡ read_back io stack result.generated.bytes r
              (io.close
                (pos fd)
                (write_all io
                  (pos fd)
                  result.generated.bytes
                  (io.open_write bootflag_path w).1).1).1)
  unfolding write_image
  write_image_eq result w fd k o e c = rw (o, e, c) (_, refl)

  module _ (file : LawfulFile io bootflag_path) where
    -- The answer of a call that has armed the activation, with the standard image in the file.
    abbrev Armed : (ℤ × ActivationResult) × io.World → Type 0
    Armed out =
        (out.0.0 ≡ pos 0) × (out.0.1.sony_activation_armed ≡ true) × file.Holds standard.bytes out.1

    standard_readback :
        (f : ActivationFile)
        → IsWhole io file standard.bytes standard_facts.size stack f
        → readback_valid f standard.bytes ≡ true
    unfolding readback_valid image_valid
    standard_readback f i =
        let s = standard_facts in
        let inspected = bootflag_inspect_image standard.bytes 512 in
        let valid : inspected.sha1_valid ≡ true = s.sha1_valid in
        rw
          (
            i.bytes,
            i.size,
            i.opened,
            i.extra,
            i.closed,
            i.inspection,
            i.sha1,
            s.sha1,
            valid,
            s.payload_valid,
            s.calm,
            s.known,
            s.state,
            eq_bytes_refl standard.bytes,
            eq_bytes_refl expected_sha1,
          )
          refl

    read_back_standard :
        (r : ActivationResult) (w : io.World)
        → file.Holds standard.bytes w
        → let out = read_back io stack standard.bytes r w in
          (out.0.0 ≡ pos 0)
          × (out.0.1.sony_activation_armed ≡ true)
          × file.Holds standard.bytes out.1
    unfolding read_back
    read_back_standard r w h =
        let got = read_image-IsWhole io file standard.bytes standard_facts.size stack w h in
        let valid = standard_readback (read_image io stack bootflag_path w).0 got.0 in
        rw valid (refl, refl, got.1)

    write_image-standard :
        (r : ActivationResult) (w : io.World)
        → r.generated ≡ standard
        → let out = write_image io stack r w in
          (out.0.0 ≡ pos 0)
          × (out.0.1.sony_activation_armed ≡ true)
          × file.Holds standard.bytes out.1
    unfolding write_all
    write_image-standard r w e =
        let bytes = r.generated.bytes in
        let same : bytes ≡ standard.bytes = ap (λ g. g.bytes) e in
        let size : length bytes ≡ 512 = ap (λ b. length b) same ∙ standard_facts.size in
        let size0 : 0 + length bytes ≡ 512 = omega (arith, size) in
        let opened = file.opens_write w in
        let fd : ℤ = pos opened.0 in
        let w1 = (io.open_write bootflag_path w).1 in
        let loop =
          write_loop_writes io file (length bytes) fd [] bytes 0 w1 (omega arith) opened.2 in
        let wrote = write_loop io (length bytes) fd bytes 0 w1 in
        let done = file.closes_write fd bytes wrote.1 loop.1 in
        let holds : file.Holds standard.bytes (io.close fd wrote.1).1 =
          subst (λ b. file.Holds b (io.close fd wrote.1).1) same done.2 in
        let shape =
          write_image_eq r w opened.0 done.0 opened.1 (loop.0 ∙ ap (λ n. (pos n, n)) size0)
            done.1 in
        let back : Armed (read_back io stack bytes shape.0 (io.close fd wrote.1).1) =
          subst (λ b. Armed (read_back io stack b shape.0 (io.close fd wrote.1).1)) (sym same)
            (read_back_standard shape.0 (io.close fd wrote.1).1 holds) in
        subst Armed (sym shape.1) back

    -- Over a file system without faults, whatever the flash held: where the current image is not a
    -- valid pending one, `activation_prepare` and then `activation_arm_pending`, with both
    -- permissions, return 0 and arm the activation, and the file then holds the standard image.
    pub prepare_arm_succeeds :
        (r : ActivationResult) (w : io.World)
        → r.already_armed ≡ false
        → image_valid r.original && is_pending r.original.inspection.state ≡ false
        → let out = activation_arm_pending io stack (activation_prepare r) true true w in
          (out.0.0 ≡ pos 0)
          × (out.0.1.sony_activation_armed ≡ true)
          × file.Holds standard.bytes out.1
    unfolding activation_arm_pending
    prepare_arm_succeeds r w h k =
        let p = (prepare_outcome r).1 k in
        let armed : (activation_prepare r).already_armed ≡ false = p.3 ∙ h in
        subst Armed
          (sym (
            allowed (activation_prepare r).generation_valid (activation_prepare r).already_armed _ _
              p.0 armed))
          (write_image-standard (activation_prepare r) w p.1)
