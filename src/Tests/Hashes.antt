-- ===== src/Tests/Hashes.antt =====
-- Test vectors.
use repair_box_psx_hdd_setup.Base.{pos, [], ◌∷◌, ◌≡◌, refl, replicate, codes, foldl}
use repair_box_psx_hdd_setup.Hash.Sha256.{transform, sha256_init, sha256_update, sha256_final}
use repair_box_psx_hdd_setup.Hash.Sha1.{sha1_transform}
use repair_box_psx_hdd_setup.Bootflag.Image.{Image, bootflag_generate_standard_40gb, expected_sha1}

-- SHA-256 of "abc", in two pieces.
sha256_abc :
    sha256_final (foldl sha256_update (sha256_init (replicate 64 7)) (codes "a" ∷ codes "bc" ∷ []))
    ≡ 0xba ∷ 0x78 ∷ 0x16 ∷ 0xbf ∷ 0x8f ∷ 0x01 ∷ 0xcf ∷ 0xea ∷ 0x41 ∷ 0x41 ∷ 0x40 ∷ 0xde ∷ 0x5d
      ∷ 0xae ∷ 0x22 ∷ 0x23 ∷ 0xb0 ∷ 0x03 ∷ 0x61 ∷ 0xa3 ∷ 0x96 ∷ 0x17 ∷ 0x7a ∷ 0x9c ∷ 0xb4 ∷ 0x10
      ∷ 0xff ∷ 0x61 ∷ 0xf2 ∷ 0x00 ∷ 0x15 ∷ 0xad ∷ []
unfolding sha256_init sha256_update sha256_final transform
sha256_abc = refl

-- The generated image passes the verifier, and its digest is the expected one.
standard_image_valid :
    (Image.validation_result bootflag_generate_standard_40gb ≡ pos 0)
    × (Image.digest bootflag_generate_standard_40gb ≡ expected_sha1)
unfolding bootflag_generate_standard_40gb sha1_transform
standard_image_valid = (refl, refl)
