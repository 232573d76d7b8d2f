-- ===== src/Activation/Arming.antt =====
-- `activation_arm_pending` of src/activation.c: when the activation is armed, and what then is known.
use repair_box_psx_hdd_setup.Base.{
  ℕ, ℤ, pos, negsuc, is_negative, ◌==ℤ◌, eperm, eio, ◌≡◌, refl, ◌∙◌, ◌↔◌, Bool, true, false, not,
  ◌||◌, List, eq_bytes→eq, arith, if◌then◌else◌, ◌==◌, and_elim, if_intro, ==_iff,
}
use repair_box_psx_hdd_setup.FileXio.{FileXio}
use repair_box_psx_hdd_setup.Bootflag.Image.{expected_sha1}
use repair_box_psx_hdd_setup.Bootflag.Scan.{BootflagState, normal, pending_40gb}
use repair_box_psx_hdd_setup.Activation.Read.{ActivationFile, bootflag_path, read_image}
use repair_box_psx_hdd_setup.Activation.Prepare.{ActivationResult, is_pending, readback_valid}
use repair_box_psx_hdd_setup.Activation.Arm.{
  write_all, write_image, read_back, activation_arm_pending,
}

-- What `activation_arm_pending` and `activation_verify_existing_pending` have found in a file that
-- shall be `expected` and be armed.
abbrev pub IsArmedFile : List ℕ → ActivationFile → Type 0
IsArmedFile expected file =
    (file.bytes ≡ expected)
    × (file.sha1 ≡ expected_sha1)
    × (file.inspection.state ≡ pending_40gb)
    × (file.inspection.scan.unknown_key_count ≡ 0)

is_pending_lem : (s : BootflagState) → is_pending s ≡ true → s ≡ pending_40gb
is_pending_lem normal h = cc
is_pending_lem pending_40gb h = refl
is_pending_lem _ h = cc

readback_valid-IsArmedFile :
    (file : ActivationFile) (expected : List ℕ)
    → readback_valid file expected ≡ true
    → IsArmedFile expected file
unfolding readback_valid
readback_valid-IsArmedFile file expected h =
    let a = and_elim _ _ h in
    let b = and_elim _ _ a.1 in
    let c = and_elim _ _ b.1 in
    let d = and_elim _ _ c.1 in
    (
      eq_bytes→eq file.bytes expected b.0,
      eq_bytes→eq file.sha1 expected_sha1 c.0,
      is_pending_lem file.inspection.state d.0,
      (==_iff file.inspection.scan.unknown_key_count 0).0 d.1,
    )

valid_code : (v : Bool) → ((if v then pos 0 else eio) ≡ pos 0) ↔ (v ≡ true)
valid_code true = (λ h. refl, λ h. refl)
valid_code false = (λ h. cc, λ h. cc)

module _ (io : FileXio) (stack : List ℕ) where
  -- The answer of a call that reads the image back: 0 exactly when the activation is armed, and then
  -- the file is `expected` and `Also` holds.
  abbrev Reports : List ℕ → (ActivationResult → Type 0) → ℤ × ActivationResult → Type 0
  Reports expected Also out =
      ((out.0 ≡ pos 0) ↔ (out.1.sony_activation_armed ≡ true))
      × (out.1.sony_activation_armed ≡ true
          → IsArmedFile expected out.1.pending_readback × Also out.1)

  refused :
      {X : Type 0} (code : ℤ) (armed : Bool)
      → is_negative code ≡ true
      → armed ≡ false
      → ((code ≡ pos 0) ↔ (armed ≡ true)) × (armed ≡ true → X)
  refused (pos n) armed e h = ((λ p. cc, λ p. cc), λ p. cc)
  refused (negsuc n) armed e h = ((λ p. cc, λ p. cc), λ p. cc)

  read_back-Reports :
      (expected : List ℕ) (r : ActivationResult) (w : io.World)
      → Reports expected
          (λ r'. (r'.write_result ≡ r.write_result) × (r'.bytes_written ≡ r.bytes_written))
          (read_back io stack expected r w).0
  unfolding read_back
  read_back-Reports expected r w =
      let file = (read_image io stack bootflag_path w).0 in
      (
        valid_code (readback_valid file expected),
        λ h. (readback_valid-IsArmedFile file expected h, (refl, refl)),
      )

  error_code : (z : ℤ) → is_negative (if is_negative z then z else eio) ≡ true
  error_code (pos n) = refl
  error_code (negsuc n) = refl

  written_whole :
      (written closed : ℤ) (count : ℕ)
      → not (written ==ℤ pos 512) || (not (count == 512) || is_negative closed) ≡ false
      → (written ≡ pos 512) × (count ≡ 512)
  written_whole (pos n) closed count h = ground arith
  written_whole (negsuc n) closed count h = cc

  write_image-Reports :
      (result : ActivationResult) (w : io.World)
      → result.sony_activation_armed ≡ false
      → Reports result.generated.bytes
          (λ r. (r.write_result ≡ pos 512) × (r.bytes_written ≡ 512))
          (write_image io stack result w).0
  unfolding write_image
  write_image-Reports result w h =
      let P : (ℤ × ActivationResult) × io.World → Type 0 = λ out.
        Reports result.generated.bytes (λ r. (r.write_result ≡ pos 512) × (r.bytes_written ≡ 512))
          out.0 in
      let opened = io.open_write bootflag_path w in
      let wrote = write_all io opened.0 result.generated.bytes opened.1 in
      let closed = io.close opened.0 wrote.1 in
      if_intro P (is_negative opened.0) _ _ (λ e. refused opened.0 result.sony_activation_armed e h)
        λ _.
          if_intro P
            (not (wrote.0.0 ==ℤ pos 512) || (not (wrote.0.1 == 512) || is_negative closed.0)) _ _
            (λ _. refused _ result.sony_activation_armed (error_code wrote.0.0) h)
            λ e.
              let whole = written_whole wrote.0.0 closed.0 wrote.0.1 e in
              let out = read_back-Reports result.generated.bytes _ closed.1 in
              (out.0, λ a. ((out.1 a).0, ((out.1 a).1.0 ∙ whole.0, (out.1 a).1.1 ∙ whole.1)))

  may_arm :
      (a b c d : Bool)
      → not a || (not b || (not c || d)) ≡ false
      → (a ≡ true) × (b ≡ true) × (c ≡ true) × (d ≡ false)
  may_arm a b c d h = ground arith

  -- For a result that is not armed yet, `activation_arm_pending` returns 0 exactly when it arms it.
  -- Then it was allowed to, it has written 512 bytes, and the file that it read back has the bytes of
  -- the generated image and the expected digest, is in the state PENDING_40GB and has no unknown key.
  pub arm_pending_armed :
      (result : ActivationResult) (storage_valid session_confirmed : Bool) (w : io.World)
      → result.sony_activation_armed ≡ false
      → let out = (activation_arm_pending io stack result storage_valid session_confirmed w).0 in
        ((out.0 ≡ pos 0) ↔ (out.1.sony_activation_armed ≡ true))
        × (out.1.sony_activation_armed ≡ true
            → ((storage_valid ≡ true)
                × (session_confirmed ≡ true)
                × (result.generation_valid ≡ true)
                × (result.already_armed ≡ false))
              × (out.1.write_result ≡ pos 512)
              × (out.1.bytes_written ≡ 512)
              × IsArmedFile result.generated.bytes out.1.pending_readback)
  unfolding activation_arm_pending
  arm_pending_armed result sv sc w h =
      let P : (ℤ × ActivationResult) × io.World → Type 0 = λ out.
        ((out.0.0 ≡ pos 0) ↔ (out.0.1.sony_activation_armed ≡ true))
        × (out.0.1.sony_activation_armed ≡ true
            → ((sv ≡ true)
                × (sc ≡ true)
                × (result.generation_valid ≡ true)
                × (result.already_armed ≡ false))
              × (out.0.1.write_result ≡ pos 512)
              × (out.0.1.bytes_written ≡ 512)
              × IsArmedFile result.generated.bytes out.0.1.pending_readback) in
      if_intro P (not sv || (not sc || (not result.generation_valid || result.already_armed))) _ _
        (λ e. refused eperm result.sony_activation_armed refl h)
        λ e.
          let out = write_image-Reports result w h in
          (
            out.0,
            λ a. (
              may_arm sv sc result.generation_valid result.already_armed e,
              (out.1 a).1.0,
              (out.1 a).1.1,
              (out.1 a).0,
            ),
          )
