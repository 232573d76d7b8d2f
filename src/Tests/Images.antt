-- ===== src/Tests/Images.antt =====
-- The theorems on the digests, the images, the capacities and the module list at concrete inputs.
use repair_box_psx_hdd_setup.Base.{
  ℕ, ◌≤◌, ◌*◌, pos, ◌≡◌, refl, ◌↔◌, true, some, List, [], ◌∷◌, ◌++◌, length, take, replicate, codes,
  foldl, if◌then◌else◌, ◌==◌, arith, has_nul, eq_bytes, c_string,
}
use mathlib.Core.List.{flatten}
use repair_box_psx_hdd_setup.Hash.Padding.{reference}
use repair_box_psx_hdd_setup.Hash.Sha256.{
  transform, initial_state, digest_of, sha256_init, sha256_update, sha256_final,
}
use repair_box_psx_hdd_setup.Hash.Sha256.Final.{sha256_streaming}
use repair_box_psx_hdd_setup.Hash.Sha1.{
  bootflag_sha1, sha1_transform, sha1_initial_state, sha1_digest_of,
}
use repair_box_psx_hdd_setup.Hash.Sha1.OneShot.{bootflag_sha1_lem}
use repair_box_psx_hdd_setup.Bootflag.Scan.{
  normal, pending_40gb, scan_keys, empty_scan, bootflag_inspect_image,
}
use repair_box_psx_hdd_setup.Bootflag.Scan.Keys.{print_keys, count_keys, scan_keys-print_keys}
use repair_box_psx_hdd_setup.Bootflag.Scan.States.{Settles, payload_of, inspect_states}
use repair_box_psx_hdd_setup.Bootflag.Scan.Bounds.{unknown_keys_fit}
use repair_box_psx_hdd_setup.Bootflag.ReadOnly.{ro_invalid, ro_start, ro_inspect_image}
use repair_box_psx_hdd_setup.Bootflag.ReadOnly.Agreement.{summary, ro_of, parsers_agree}
use repair_box_psx_hdd_setup.Capacity.{
  verified_256, verified_512, verified_1tb, capacity_profile_detect,
}
use repair_box_psx_hdd_setup.Capacity.Bands.{detect_bands}
use repair_box_psx_hdd_setup.IopModule.{
  address_valid, read_iop, read_module, is_named, find_loop, iop_module_find,
}
use repair_box_psx_hdd_setup.IopModule.Outcomes.{Outcome, iop_module_find-Outcome}
use repair_box_psx_hdd_setup.Activation.Preparing.{standard}

sha256_streaming_example :
    sha256_final (foldl sha256_update (sha256_init (replicate 64 7)) (codes "a" ∷ codes "bc" ∷ []))
    ≡ digest_of (reference transform initial_state (flatten (codes "a" ∷ codes "bc" ∷ [])))
sha256_streaming_example = sha256_streaming (replicate 64 7) (codes "a" ∷ codes "bc" ∷ []) refl

bootflag_sha1_example :
    bootflag_sha1 (codes "abc")
    ≡ sha1_digest_of (reference sha1_transform sha1_initial_state (codes "abc"))
bootflag_sha1_example = bootflag_sha1_lem (codes "abc")

inspect_states_example :
    ((bootflag_inspect_image standard.bytes 512).state ≡ normal ↔ (
      (take 20 standard.bytes ≡ bootflag_sha1 (payload_of standard.bytes))
      × Settles (payload_of standard.bytes) 0))
    × ((bootflag_inspect_image standard.bytes 512).state ≡ pending_40gb ↔ (
        (take 20 standard.bytes ≡ bootflag_sha1 (payload_of standard.bytes))
        × Settles (payload_of standard.bytes) 1))
inspect_states_example = inspect_states standard.bytes

parsers_agree_example :
    let r = ro_inspect_image standard.bytes ro_start in
    let i = bootflag_inspect_image standard.bytes 512 in
    (r.calculated_digest ≡ i.calculated_digest)
    × (r.sha1_valid ≡ i.sha1_valid)
    × (r.scan ≡ summary i.scan)
    × (r.state ≡ (if i.scan.unknown_key_count == 0 then ro_of i.state else ro_invalid))
parsers_agree_example = parsers_agree standard.bytes ro_start

unknown_keys_fit_example :
    let scan = (bootflag_inspect_image standard.bytes 512).scan in
    (scan.unknown_key_count ≤ 246)
    × (length scan.unknown_key_offsets ≡ scan.unknown_key_count)
    × (length scan.unknown_key_lengths ≡ scan.unknown_key_count)
unknown_keys_fit_example = unknown_keys_fit standard.bytes 512

scan_keys-print_keys_example :
    scan_keys 9 0 (print_keys (codes "a=1" ∷ codes "b=2" ∷ []) 1) empty_scan
    ≡ record (count_keys 0 (codes "a=1" ∷ codes "b=2" ∷ []) empty_scan) { payload_valid = true }
scan_keys-print_keys_example =
    scan_keys-print_keys (codes "a=1" ∷ codes "b=2" ∷ []) 0 9 0 empty_scan
      (
        omega arith,
        (omega arith, (omega arith, (omega arith, tt))),
        (omega arith, (omega arith, (omega arith, (omega arith, tt))), tt),
      )
      (omega arith)

abbrev sectors : ℕ
sectors = 0x3BB00000

detect_bands_example :
    ((capacity_profile_detect sectors (pos 1) ≡ verified_256) ↔ (sectors ≡ 0x1DD80000))
    × ((capacity_profile_detect sectors (pos 1) ≡ verified_512)
        ↔ ((450000000000 ≤ 512 * sectors) × (512 * sectors ≤ 550000000000)))
    × ((capacity_profile_detect sectors (pos 1) ≡ verified_1tb)
        ↔ ((900000000000 ≤ 512 * sectors) × (512 * sectors ≤ 1099000000000)))
detect_bands_example = detect_bands sectors (omega arith, omega arith)

-- A list of one module, 7, whose name stands at 0x1000.
abbrev one_module : ℕ → ℕ → List ℕ
one_module address size =
    if address == 0x800
    then 0 ∷ 0 ∷ 0 ∷ 0 ∷ 0 ∷ 0x10 ∷ 0 ∷ 0 ∷ 1 ∷ 1 ∷ 0 ∷ 0 ∷ 7 ∷ 0 ∷ 0 ∷ 0 ∷ []
    else take size (codes "sio2man" ++ replicate 57 0)

-- The module is found.
one_module_found : iop_module_find one_module (some (codes "sio2man")) ≡ pos 7
unfolding iop_module_find find_loop read_module read_iop address_valid is_named has_nul eq_bytes
    c_string
one_module_found = refl

iop_module_find-Outcome_example :
    Outcome one_module
      (codes "sio2man")
      256
      0x800
      (iop_module_find one_module (some (codes "sio2man")))
iop_module_find-Outcome_example =
    iop_module_find-Outcome one_module (codes "sio2man") (omega arith) (omega arith)
