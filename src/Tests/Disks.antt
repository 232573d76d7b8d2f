-- ===== src/Tests/Disks.antt =====
-- A drive whose state says whether a sector that is to be kept is as it was, on which the theorems on
-- the parts that write sectors are applied.
use repair_box_psx_hdd_setup.Base.{
  ℕ, zero, suc, ◌+◌, ◌*◌, ◌≤◌, pos, negsuc, enoent, eperm, ◌==ℤ◌, ◌≡◌, refl, ◌⊎◌, ◌↔◌, Bool, true,
  false, [], codes, length, replicate, ltb, leb, if◌then◌else◌, arith,
}
use repair_box_psx_hdd_setup.FileXio.{FileXio, read_bytes, dread_end}
use repair_box_psx_hdd_setup.Drive.{Drive}
use repair_box_psx_hdd_setup.Psx1.Cleanup.{cleanup_old_apa_headers, limited_sectors}
use repair_box_psx_hdd_setup.Psx1.Cleanup.Outcomes.{
  CleanupOutcome, cleanup-CleanupOutcome, slot_lba,
}
use repair_box_psx_hdd_setup.Psx1.Cleanup.Frame.{KeptByCleanup, cleanup-KeptByCleanup}
use repair_box_psx_hdd_setup.Bootstrap.Validate.{
  bootstrap_initialize, bootstrap_sector_count, BootstrapPaths, BootstrapResult,
}
use repair_box_psx_hdd_setup.Bootstrap.Validate.{bootstrap_byte_count, hash_binary}
use repair_box_psx_hdd_setup.Bootstrap.Hashing.{hash_binary_whole}
use repair_box_psx_hdd_setup.Bootstrap.Verified.{IsOnDrive, HasDigest, write_and_verify_verified}
use repair_box_psx_hdd_setup.Hash.Padding.{reference}
use repair_box_psx_hdd_setup.Hash.Sha256.{digest_of, transform, initial_state}
use repair_box_psx_hdd_setup.Xfrom.Copy.{SourceMedia}
use repair_box_psx_hdd_setup.Tests.Memory.{Disk, memory, memory_lawful}
use repair_box_psx_hdd_setup.Bootstrap.Write.{bootstrap_write_and_verify}
use repair_box_psx_hdd_setup.Bootstrap.Frame.{KeptByPrefix, write_and_verify-KeptByPrefix}

-- `true` while sector 0x2900 is as it was.
abbrev pub disk : FileXio
disk = record {
  World = Bool;
  open_read = λ path d. (pos 3, d);
  open_write = λ path d. (enoent, d);
  read = λ fd size d. (read_bytes (replicate size 0), d);
  write = λ fd bytes d. (enoent, d);
  close = λ fd d. (pos 0, d);
  dopen = λ path d. (enoent, d);
  dread = λ fd d. (dread_end, d);
  dclose = λ fd d. (pos 0, d);
  mkdir = λ path d. (enoent, d);
  remove = λ path d. (enoent, d);
}

-- A write that ends before the sector or begins behind it leaves it as it was.
abbrev pub drive : Drive disk
drive = record {
  write_sectors = λ lba bytes d. (
    pos 0,
    if leb (lba * 512 + length bytes) 0x520000 then d else if ltb 0x2900 lba then d else false,
  );
  read_sectors = λ lba count buffer d. ((negsuc 4, buffer), d);
  flush = λ d. (pos 0, d);
}

cleanup-CleanupOutcome_example :
    CleanupOutcome disk drive 0x4A817C8 true (cleanup_old_apa_headers disk drive 0x4A817C8 true)
cleanup-CleanupOutcome_example = cleanup-CleanupOutcome disk drive 0x4A817C8 true

kept_by_slot :
    (k : ℕ) (d : Bool)
    → d ≡ true
    → (if leb (slot_lba k * 512 + 1024) 0x520000
        then d
        else if ltb 0x2900 (slot_lba k)
        then d
        else false)
      ≡ true
kept_by_slot zero d h = h
kept_by_slot (suc k) d h = ground (arith, h)

kept_by_prefix :
    (lba count n : ℕ) (d : Bool)
    → lba + count ≤ bootstrap_sector_count
    → n ≡ count * 512
    → d ≡ true
    → (if leb (lba * 512 + n) 0x520000 then d else if ltb 0x2900 lba then d else false) ≡ true
kept_by_prefix lba count n d b e h = ground (arith, b, e, h)

drive_kept : KeptByCleanup disk drive (limited_sectors 0x4A817C8) (λ d. d ≡ true)
drive_kept = record {
  reads = λ lba count buffer d h. h;
  flushes = λ d h. h;
  clears = λ k d fits h. kept_by_slot k d h;
}

cleanup-KeptByCleanup_example : (cleanup_old_apa_headers disk drive 0x4A817C8 true).1 ≡ true
cleanup-KeptByCleanup_example =
    cleanup-KeptByCleanup disk drive 0x4A817C8 (λ d. d ≡ true) true drive_kept refl

abbrev pub paths : BootstrapPaths
paths = record { bin_path = codes "mass:/prefix.bin"; sums_path = codes "mass:/SHA256SUMS" }

-- A prefix that was accepted.
abbrev accepted : BootstrapResult
accepted = record bootstrap_initialize { validation_valid = true }

prefix_kept : KeptByPrefix disk drive paths (replicate 64 7) (λ d. d ≡ true)
prefix_kept = record {
  opens = λ d h. h;
  reads = λ fd size d h. h;
  closes = λ fd d h. h;
  reads_sectors = λ lba count buffer d h. h;
  writes_sectors = λ lba count bytes d b e h. kept_by_prefix lba count (length bytes) d b e h;
}

write_and_verify-KeptByPrefix_example :
    let out =
      bootstrap_write_and_verify disk drive paths
        (replicate 64 7)
        (replicate 6 [])
        []
        accepted
        true in
    (out.1 ≡ true) × (accepted.validation_valid ≡ false → out ≡ ((eperm, accepted), true))
write_and_verify-KeptByPrefix_example =
    write_and_verify-KeptByPrefix disk drive paths (replicate 64 7) (λ d. d ≡ true) (replicate 6 [])
      [] accepted true prefix_kept refl

no_sectors : (accepted.written_sectors ≡ 0) × (accepted.readback_sectors ≡ 0)
unfolding bootstrap_initialize
no_sectors = (refl, refl)

write_and_verify_verified_example :
    let out =
      (bootstrap_write_and_verify disk drive paths
        (replicate 64 7)
        (replicate 6 [])
        []
        accepted
        true).0 in
    ((out.0 ==ℤ pos 0) ≡ false)
    ⊎ ((accepted.validation_valid ≡ true)
        × (out.1.written_sectors ≡ bootstrap_sector_count)
        × (out.1.readback_sectors ≡ bootstrap_sector_count)
        × (out.1.bootstrap_valid ≡ true)
        × IsOnDrive disk drive paths
            (replicate 64 7)
            []
            true
            (HasDigest disk drive paths (replicate 64 7) accepted.expected_sha256))
write_and_verify_verified_example =
    write_and_verify_verified disk drive paths (replicate 64 7) (replicate 6 []) [] accepted true
      refl no_sectors.0 no_sectors.1

abbrev card : SourceMedia
card = record { is_mmce = true; psx1_xfrom_root = []; psx2_xfrom_root = [] }

abbrev small_file : Disk
small_file = record { content = codes "not the prefix"; at = 0 }

unread : bootstrap_initialize.binary_size ≡ 0
unfolding bootstrap_initialize
unread = refl

hash_binary_whole_example :
    let out =
      hash_binary memory card paths (replicate 64 7) 20 (pos 3) bootstrap_initialize small_file in
    (out.0.source_sha256 ≡ digest_of (reference transform initial_state (codes "not the prefix")))
    × (out.0.binary_size ≡ 14)
    × ((out.0.size_valid ≡ true) ↔ (14 ≡ bootstrap_byte_count))
    × (out.1.content ≡ codes "not the prefix")
unfolding memory_lawful
hash_binary_whole_example =
    hash_binary_whole memory card paths (replicate 64 7) (memory_lawful paths.bin_path)
      (codes "not the prefix") 20 3 bootstrap_initialize small_file refl (omega arith) unread
      (refl, refl)
