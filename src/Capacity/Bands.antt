-- ===== src/Capacity/Bands.antt =====
-- The profiles of src/capacity_profile.c as bands of sizes.
use repair_box_psx_hdd_setup.Base.{ℕ, ◌*◌, ◌≤◌, ◌<◌, pos, ◌≡◌, ◌↔◌, arith}
use repair_box_psx_hdd_setup.Capacity.{
  verified_256, verified_512, verified_1tb, capacity_profile_detect,
}

-- The number of sectors is addressed by more than 28 bits, and is no error number.
abbrev pub InRange : ℕ → Type 0
InRange n = (0x10000000 < n) × (n < 0xFFFFF000)

-- A drive of LBA48 is of one of the verified profiles exactly when its number of sectors is in the
-- profile's band; the bands do not overlap, so the order of the tests does not matter.
pub detect_bands :
    (n : ℕ)
    → InRange n
    → ((capacity_profile_detect n (pos 1) ≡ verified_256) ↔ (n ≡ 0x1DD80000))
      × ((capacity_profile_detect n (pos 1) ≡ verified_512)
          ↔ ((450000000000 ≤ 512 * n) × (512 * n ≤ 550000000000)))
      × ((capacity_profile_detect n (pos 1) ≡ verified_1tb)
          ↔ ((900000000000 ≤ 512 * n) × (512 * n ≤ 1099000000000)))
unfolding capacity_profile_detect
detect_bands n h = ground arith
