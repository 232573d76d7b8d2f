-- ===== src/Activation/Arm.antt =====
-- `write_all`, `activation_arm_pending` and `activation_verify_existing_pending` of src/activation.c.
use repair_box_psx_hdd_setup.Base.{
  ℕ, zero, suc, ◌+◌, ℤ, pos, negsuc, is_negative, ◌==ℤ◌, eperm, eio, Bool, true, not, ◌||◌, List,
  [], ◌∷◌, length, drop, ◌==◌, if◌then◌else◌,
}
use repair_box_psx_hdd_setup.Base.Io.{Io}
use repair_box_psx_hdd_setup.FileXio.{FileXio}
use repair_box_psx_hdd_setup.Activation.Read.{bootflag_path, read_image}
use repair_box_psx_hdd_setup.Activation.Prepare.{ActivationResult, readback_valid}

module _ (io : FileXio) where
  -- The loop of `write_all` over the bytes that are left: the result, and how many bytes are written
  -- by then. A round that goes on writes at least one byte, so the number of bytes is fuel enough.
  unfoldable pub write_loop : ℕ → ℤ → List ℕ → ℕ → Io io.World (ℤ × ℕ)
  write_loop zero fd bytes offset w = ((pos offset, offset), w)
  write_loop (suc fuel) fd [] offset w = ((pos offset, offset), w)
  write_loop (suc fuel) fd (b ∷ bytes) offset w =
      let (result, w') = io.write fd (b ∷ bytes) w in
      elim result [
        | negsuc n ↦ ((negsuc n, offset), w')
        | pos n ↦ elim n [
          | zero ↦ ((eio, offset), w')
          | suc k ↦ write_loop fuel fd (drop (suc k) (b ∷ bytes)) (offset + suc k) w'
        ]
      ]

  unfoldable pub write_all : ℤ → List ℕ → Io io.World (ℤ × ℕ)
  write_all fd bytes w = write_loop (length bytes) fd bytes 0 w

  -- The image is read back after it was written, or where the one that is there is kept.
  unfoldable pub read_back : List ℕ → List ℕ → ActivationResult → Io io.World (ℤ × ActivationResult)
  read_back stack expected result w =
      let (file, w') = read_image io stack bootflag_path w in
      let valid = readback_valid file expected in
      (
        (
          if valid then pos 0 else eio,
          record result {
            pending_readback = file;
            pending_valid = valid;
            sony_activation_armed = valid;
          },
        ),
        w',
      )

  -- What `activation_arm_pending` does once it is allowed to: nothing but the image is written.
  unfoldable pub write_image : List ℕ → ActivationResult → Io io.World (ℤ × ActivationResult)
  write_image stack result w =
      let (fd, w1) = io.open_write bootflag_path w in
      let r = record result { write_attempted = true; write_open_result = fd } in
      if is_negative fd
      then ((fd, r), w1)
      else let ((written, count), w2) = write_all fd result.generated.bytes w1 in
        let (closed, w3) = io.close fd w2 in
        let r' = record r {
          write_result = written;
          bytes_written = count;
          write_close_result = closed;
        } in
        if not (written ==ℤ pos 512) || (not (count == 512) || is_negative closed)
        then ((if is_negative written then written else eio, r'), w3)
        else read_back stack result.generated.bytes r' w3

  unfoldable pub activation_arm_pending :
      List ℕ → ActivationResult → Bool → Bool → Io io.World (ℤ × ActivationResult)
  activation_arm_pending stack result storage_valid session_confirmed w =
      if not storage_valid
        || (not session_confirmed || (not result.generation_valid || result.already_armed))
      then ((eperm, result), w)
      else write_image stack result w

  unfoldable pub activation_verify_existing_pending :
      List ℕ → ActivationResult → Bool → Bool → Io io.World (ℤ × ActivationResult)
  activation_verify_existing_pending stack result storage_valid session_confirmed w =
      if not storage_valid || (not session_confirmed || not result.already_armed)
      then ((eperm, result), w)
      else read_back stack result.original.bytes result w
