-- ===== src/Activation/Preparing.antt =====
-- `activation_prepare` of src/activation.c: what is kept, and what is generated.
use repair_box_psx_hdd_setup.Base.{
  pos, ◌==ℤ◌, ◌≡◌, refl, sym, Bool, true, false, not, ◌&&◌, ◌||◌, length, take, drop, eq_bytes,
  has_prefix, arith, ◌==◌, and_elim,
}
use repair_box_psx_hdd_setup.Hash.Sha1.{bootflag_sha1, sha1_transform}
use repair_box_psx_hdd_setup.Bootflag.Image.{Image, bootflag_generate_standard_40gb, expected_sha1}
use repair_box_psx_hdd_setup.Bootflag.Scan.{
  pending_40gb, bootflag_inspect_image, scan_keys, classify, count_key, split_key, all_zero,
  classify_scan,
}
use repair_box_psx_hdd_setup.Activation.Read.{ActivationFile, image_valid}
use repair_box_psx_hdd_setup.Activation.Prepare.{
  ActivationResult, is_pending, generated_valid, prepare_with, activation_prepare,
}

and_true : (a b : Bool) → b ≡ true → a && b ≡ a
and_true true b h = h
and_true false b h = refl

-- The standard image, evaluated.
abbrev pub standard : Image
standard = bootflag_generate_standard_40gb

pub record StandardFacts : Type 0 where
  pub size : length standard.bytes ≡ 512
  pub result : (standard.validation_result ==ℤ pos 0) ≡ true
  pub valid : generated_valid standard (bootflag_inspect_image standard.bytes 512) ≡ true
  pub sha1 : bootflag_sha1 (take 492 (drop 20 standard.bytes)) ≡ expected_sha1
  pub sha1_valid : (bootflag_inspect_image standard.bytes 512).sha1_valid ≡ true
  pub payload_valid : (bootflag_inspect_image standard.bytes 512).scan.payload_valid ≡ true
  pub calm : (bootflag_inspect_image standard.bytes 512).scan.conflicting_value ≡ false
  pub known : (bootflag_inspect_image standard.bytes 512).scan.unknown_key_count ≡ 0
  pub state : (bootflag_inspect_image standard.bytes 512).state ≡ pending_40gb

pub standard_facts : StandardFacts
unfolding generated_valid bootflag_generate_standard_40gb sha1_transform bootflag_inspect_image
    scan_keys classify count_key split_key all_zero classify_scan eq_bytes has_prefix
standard_facts = record {
  size = refl;
  result = refl;
  valid = refl;
  sha1 = refl;
  sha1_valid = refl;
  payload_valid = refl;
  calm = refl;
  known = refl;
  state = refl;
}

-- A negated conjunction is the disjunction of the negations.
not_or_not : (a b : Bool) → a && b ≡ false → not a || not b ≡ true
not_or_not true true h = sym h
not_or_not true false h = refl
not_or_not false b h = refl

prepare_with_outcome :
    (g : Image) (r : ActivationResult)
    → (g.validation_result ==ℤ pos 0) ≡ true
    → generated_valid g (bootflag_inspect_image g.bytes 512) ≡ true
    → let p = prepare_with g r in
      (image_valid r.original && is_pending r.original.inspection.state) ≡ false
      → (p.generation_valid ≡ true)
        × (p.generated ≡ g)
        × (p.replacement_required ≡ true)
        × (p.already_armed ≡ r.already_armed)
unfolding prepare_with
prepare_with_outcome g r e v h =
    rw (h, e)
      (
        v,
        refl,
        not_or_not (image_valid r.original) (is_pending r.original.inspection.state) h,
        refl,
      )

image_valid-known :
    (f : ActivationFile) → image_valid f ≡ true → (f.inspection.scan.unknown_key_count == 0) ≡ true
unfolding image_valid
image_valid-known f h = ground arith

kept_outcome :
    (r : ActivationResult)
    → let p = activation_prepare r in
      image_valid r.original && is_pending r.original.inspection.state ≡ true
      → (p.already_armed ≡ eq_bytes r.original.sha1 expected_sha1)
        × (p.generated ≡ r.generated)
        × (p.generation_valid ≡ r.generation_valid)
        × (p.replacement_required ≡ r.replacement_required)
unfolding activation_prepare prepare_with
kept_outcome r h =
    let known =
      image_valid-known r.original
        (and_elim (image_valid r.original) (is_pending r.original.inspection.state) h).0 in
    rw h (and_true (eq_bytes r.original.sha1 expected_sha1) _ known, refl, refl, refl)

-- After the preparation, a current image that is valid and pending is kept, and is taken for armed
-- exactly when its digest is the expected one; in every other case the standard image is generated,
-- passes its checks, and is to replace the current one.
pub prepare_outcome :
    (r : ActivationResult)
    → let p = activation_prepare r in
      let kept = image_valid r.original && is_pending r.original.inspection.state in
      (kept ≡ true
        → (p.already_armed ≡ eq_bytes r.original.sha1 expected_sha1)
          × (p.generated ≡ r.generated)
          × (p.generation_valid ≡ r.generation_valid)
          × (p.replacement_required ≡ r.replacement_required))
      × (kept ≡ false
          → (p.generation_valid ≡ true)
            × (p.generated ≡ standard)
            × (p.replacement_required ≡ true)
            × (p.already_armed ≡ r.already_armed))
unfolding activation_prepare
prepare_outcome r = (
  λ h. kept_outcome r h,
  prepare_with_outcome standard r standard_facts.result standard_facts.valid,
)
