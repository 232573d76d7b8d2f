-- ===== src/Bootflag/Image.antt =====
-- The generator and the verifier of the standard image, `bootflag_generate_standard_40gb` and
-- `bootflag_verify_image` of src/bootflag.c.
use repair_box_psx_hdd_setup.Base.{
  ℕ, ℤ, pos, einval, eio, List, [], ◌∷◌, ◌++◌, take, drop, replicate, write_at, codes, eq_bytes,
  if◌then◌else◌, not,
}
use repair_box_psx_hdd_setup.Hash.Sha1.{bootflag_sha1}

-- `bootflag_expected_sha1`
abbrev pub expected_sha1 : List ℕ
expected_sha1 =
    0x7e ∷ 0xf2 ∷ 0x24 ∷ 0xee ∷ 0x32 ∷ 0x26 ∷ 0x1c ∷ 0x62 ∷ 0x05 ∷ 0x0f ∷ 0xdc ∷ 0xe5 ∷ 0x6d ∷ 0x6d
    ∷ 0x20 ∷ 0x87 ∷ 0x21 ∷ 0x25 ∷ 0x03 ∷ 0xaa ∷ []

pub record Image : Type 0 where
  pub bytes : List ℕ
  pub digest : List ℕ
  pub validation_result : ℤ

-- The result, and the digest that is written to the caller's array.
unfoldable pub bootflag_verify_image : List ℕ → ℤ × List ℕ
bootflag_verify_image bytes =
    let digest = bootflag_sha1 (take 492 (drop 20 bytes)) in
    if not (eq_bytes (take 20 bytes) digest)
    then (eio, digest)
    else if not (eq_bytes digest expected_sha1)
    then (einval, digest)
    else (pos 0, digest)

-- The three strings are copied with their NULs over zeros; the image is never NULL in the program's
-- calls.
standard_payload : List ℕ
standard_payload =
    write_at
      (write_at (write_at (replicate 512 0) 0x14 (codes "BOOTMODE=Normal" ++ (0 ∷ []))) 0x24
        (codes "repartition=40" ++ (0 ∷ [])))
      0x33 (codes "contents=1" ++ (0 ∷ []))

unfoldable pub bootflag_generate_standard_40gb : Image
unfolding standard_payload bootflag_verify_image bootflag_sha1 eq_bytes
bootflag_generate_standard_40gb =
    let blank = standard_payload in
    let bytes = write_at blank 0 (bootflag_sha1 (take 492 (drop 20 blank))) in
    let (result, digest) = bootflag_verify_image bytes in
    record { bytes = bytes; digest = digest; validation_result = result }
