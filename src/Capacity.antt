-- ===== src/Capacity.antt =====
-- src/capacity_profile.c: the profile of a drive, from its number of sectors.
pub mod Bands
use repair_box_psx_hdd_setup.Base.{
  ℕ, ◌*◌, ℤ, pos, Bool, true, false, not, ◌&&◌, ◌||◌, List, codes, ltb, leb, ◌==◌, ◌==ℤ◌, u64,
  if◌then◌else◌,
}

pub data CapacityProfile : Type 0 where
  unsupported verified_256 verified_512 verified_1tb lba48_untested : CapacityProfile

-- CAPACITY_NATIVE_256, CAPACITY_512_MIN_BYTES, CAPACITY_512_MAX_BYTES, CAPACITY_LBA28_SECTOR_LIMIT and
-- CAPACITY_ERRNO_U32_FLOOR
abbrev pub capacity_native_256 : ℕ
capacity_native_256 = 0x1DD80000

abbrev pub capacity_512_min_bytes : ℕ
capacity_512_min_bytes = 450000000000

abbrev pub capacity_512_max_bytes : ℕ
capacity_512_max_bytes = 550000000000

abbrev pub capacity_lba28_sector_limit : ℕ
capacity_lba28_sector_limit = 0x10000000

abbrev pub capacity_errno_u32_floor : ℕ
capacity_errno_u32_floor = 0xFFFFF000

unfoldable pub capacity_profile_detect : ℕ → ℤ → CapacityProfile
capacity_profile_detect native_sectors islba48 =
    let bytes = u64 (native_sectors * 512) in
    if not (islba48 ==ℤ pos 1)
      || (leb native_sectors capacity_lba28_sector_limit
          || leb capacity_errno_u32_floor native_sectors)
    then unsupported
    else if native_sectors == capacity_native_256
    then verified_256
    else if leb capacity_512_min_bytes bytes && leb bytes capacity_512_max_bytes
    then verified_512
    else if leb 900000000000 bytes && leb bytes 1099000000000
    then verified_1tb
    else lba48_untested

unfoldable pub capacity_profile_name : CapacityProfile → List ℕ
capacity_profile_name verified_256 = codes "256 GB"
capacity_profile_name verified_512 = codes "512 GB"
capacity_profile_name verified_1tb = codes "1 TB"
capacity_profile_name lba48_untested = codes "LBA48 MEDIA"
capacity_profile_name unsupported = codes "UNSUPPORTED MEDIA"

unfoldable pub capacity_profile_is_experimental : CapacityProfile → Bool
capacity_profile_is_experimental lba48_untested = true
capacity_profile_is_experimental _ = false

unfoldable pub capacity_profile_is_supported : CapacityProfile → Bool
capacity_profile_is_supported unsupported = false
capacity_profile_is_supported _ = true
