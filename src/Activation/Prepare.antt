-- ===== src/Activation/Prepare.antt =====
-- `activation_initialize`, `activation_read_current` and `activation_prepare` of src/activation.c.
use repair_box_psx_hdd_setup.Base.{
  ℕ, ℤ, pos, negsuc, is_negative, ◌==ℤ◌, Bool, true, false, not, ◌&&◌, ◌||◌, List, replicate, ◌==◌,
  eq_bytes, if◌then◌else◌,
}
use repair_box_psx_hdd_setup.Base.Io.{Io}
use repair_box_psx_hdd_setup.FileXio.{FileXio}
use repair_box_psx_hdd_setup.Bootflag.Image.{Image, bootflag_generate_standard_40gb, expected_sha1}
use repair_box_psx_hdd_setup.Bootflag.Scan.{
  BootflagState, pending_40gb, Inspection, bootflag_inspect_image,
}
use repair_box_psx_hdd_setup.Activation.Read.{
  ActivationFile, zero_file, zero_inspection, image_valid, bootflag_path, read_image,
}

pub record ActivationResult : Type 0 where
  pub original : ActivationFile
  pub pending_readback : ActivationFile
  pub generated : Image
  pub generated_inspection : Inspection
  pub generation_valid : Bool
  pub write_attempted : Bool
  pub write_open_result : ℤ
  pub write_result : ℤ
  pub bytes_written : ℕ
  pub write_close_result : ℤ
  pub pending_valid : Bool
  pub sony_activation_armed : Bool
  pub current_accessible : Bool
  pub current_valid : Bool
  pub already_armed : Bool
  pub replacement_required : Bool

abbrev pub is_pending : BootflagState → Bool
is_pending pending_40gb = true
is_pending _ = false

unfoldable pub activation_initialize : ActivationResult
activation_initialize = record {
  original = zero_file;
  pending_readback = zero_file;
  generated = record {
    bytes = replicate 512 0;
    digest = replicate 20 0;
    validation_result = pos 0;
  };
  generated_inspection = zero_inspection;
  generation_valid = false;
  write_attempted = false;
  write_open_result = negsuc 0;
  write_result = negsuc 0;
  bytes_written = 0;
  write_close_result = negsuc 0;
  pending_valid = false;
  sony_activation_armed = false;
  current_accessible = false;
  current_valid = false;
  already_armed = false;
  replacement_required = false;
}

-- The test of the generated image in `activation_prepare`.
unfoldable pub generated_valid : Image → Inspection → Bool
generated_valid image inspection =
    eq_bytes image.digest expected_sha1
    && (is_pending inspection.state
        && (inspection.scan.bootmode_normal
            && (inspection.scan.repartition_40
                && (inspection.scan.contents_1 && (inspection.scan.unknown_key_count == 0)))))

-- `generate` is what `bootflag_generate_standard_40gb` gives.
unfoldable pub prepare_with : Image → ActivationResult → ActivationResult
prepare_with generate result =
    let original = result.original in
    let valid = image_valid original in
    let r = record result {
      current_accessible =
          not (is_negative original.open_result)
          && (not (is_negative original.read_result) && not (is_negative original.close_result));
      current_valid = valid;
    } in
    if valid && is_pending original.inspection.state
    then record r {
      already_armed =
          eq_bytes original.sha1 expected_sha1 && (original.inspection.scan.unknown_key_count == 0);
    }
    else let s = record r {
      replacement_required = not valid || not (is_pending original.inspection.state);
      generated = generate;
    } in
      if generate.validation_result ==ℤ pos 0
      then record s {
        generated_inspection = bootflag_inspect_image generate.bytes 512;
        generation_valid = generated_valid generate (bootflag_inspect_image generate.bytes 512);
      }
      else s

unfoldable pub activation_prepare : ActivationResult → ActivationResult
unfolding prepare_with
activation_prepare result = prepare_with bootflag_generate_standard_40gb result

-- What `activation_arm_pending` and `activation_verify_existing_pending` ask of the image that was
-- read back, which shall be `expected`.
unfoldable pub readback_valid : ActivationFile → List ℕ → Bool
readback_valid file expected =
    image_valid file
    && (eq_bytes file.bytes expected
        && (eq_bytes file.sha1 expected_sha1
            && (is_pending file.inspection.state && (file.inspection.scan.unknown_key_count == 0))))

unfoldable pub activation_read_current :
    (io : FileXio) → List ℕ → ActivationResult → Io io.World ActivationResult
activation_read_current io stack result w =
    let (file, w') = read_image io stack bootflag_path w in (record result { original = file }, w')
