-- ===== src/Tests/Repairs.antt =====
-- A repair of one file on a console in memory.
use repair_box_psx_hdd_setup.Base.{
  ℕ, pos, ◌≡◌, refl, true, false, some, List, [], ◌∷◌, ◌++◌, length, take, drop, replicate, codes,
  eq_bytes, has_prefix, has_byte, base_name, if◌then◌else◌,
}
use repair_box_psx_hdd_setup.FileXio.{FileXio, read_bytes, dread_end}
use repair_box_psx_hdd_setup.Hash.Sha256.{transform, sha256_init, sha256_update, sha256_final}
use repair_box_psx_hdd_setup.Xfrom.{Entry, psx1, RepairResult, xfrom_repair_initialize}
use repair_box_psx_hdd_setup.Xfrom.Cleanup.{
  build_cleanup_plan, cleanup_system_root, verify_cleanup, remove_planned, remove_loop, close_plan,
  finish_plan, scan_loop, judge_cleanup,
}
use repair_box_psx_hdd_setup.Xfrom.Copy.{
  SourceMedia, source_root, source_media_read_size, build_source_path, build_destination_path,
  hash_loop, hash_path, load_loop, finish_load, load_path, load_verified_source, copy_loop,
  verify_destination, write_path, write_verified_destination,
}
use repair_box_psx_hdd_setup.Xfrom.Execute.{
  close_root, ensure_system_root, attempt, attempt_loop, execute_files, finish_repair, write_files,
  execute_permitted, xfrom_repair_execute,
}
use repair_box_psx_hdd_setup.Xfrom.Execute.Placed.{ArePlaced, xfrom_repair_execute_placed}

-- The written file, and what an open descriptor has yet to read.
record Console : Type 0 where
  target : List ℕ
  rest : List ℕ

abbrev console : FileXio
console = record {
  World = Console;
  open_read = λ path d. (
    pos 3,
    record d { rest = if has_prefix path (codes "xfrom0:") then d.target else codes "abc" },
  );
  open_write = λ path d. (pos 4, record d { target = [] });
  read = λ fd size d. (read_bytes (take size d.rest), record d { rest = drop size d.rest });
  write = λ fd bytes d. (pos (length bytes), record d { target = d.target ++ bytes });
  close = λ fd d. (pos 0, d);
  dopen = λ path d. (pos 5, d);
  dread = λ fd d. (dread_end, d);
  dclose = λ fd d. (pos 0, d);
  mkdir = λ path d. (pos 0, d);
  remove = λ path d. (pos 0, d);
}

abbrev medium : SourceMedia
medium = record {
  is_mmce = false;
  psx1_xfrom_root = codes "usb:/PSX1";
  psx2_xfrom_root = codes "usb:/PSX2";
}

abbrev abc_file : Entry
abc_file = record {
  path = codes "BIEXEC-SYSTEM/osdmain.dat";
  expected_sha256 =
      0xba ∷ 0x78 ∷ 0x16 ∷ 0xbf ∷ 0x8f ∷ 0x01 ∷ 0xcf ∷ 0xea ∷ 0x41 ∷ 0x41 ∷ 0x40 ∷ 0xde ∷ 0x5d
      ∷ 0xae ∷ 0x22 ∷ 0x23 ∷ 0xb0 ∷ 0x03 ∷ 0x61 ∷ 0xa3 ∷ 0x96 ∷ 0x17 ∷ 0x7a ∷ 0x9c ∷ 0xb4 ∷ 0x10
      ∷ 0xff ∷ 0x61 ∷ 0xf2 ∷ 0x00 ∷ 0x15 ∷ 0xad ∷ [];
  size = 3;
  source_nested = true;
  deferred_activation = false;
  source_valid = true;
  destination_valid = false;
  write_attempted = false;
}

abbrev ready : RepairResult
ready = record (xfrom_repair_initialize psx1) {
  files = abc_file ∷ [];
  source_valid = true;
  xfrom_root_accessible = true;
}

abbrev repaired : RepairResult
repaired = record ready {
  files = record abc_file { destination_valid = true; write_attempted = true } ∷ [];
  xfrom_partition_accessible = true;
  cleanup_valid = true;
  write_attempted = true;
  files_written = 1;
  repair_valid = true;
}

abbrev blank : Console
blank = record { target = []; rest = [] }

repair_run :
    (xfrom_repair_execute console (replicate 64 7) medium (λ size. true) 10 ready true true blank).0
    ≡ some (pos 0, repaired)
unfolding xfrom_repair_execute execute_permitted ensure_system_root close_root cleanup_system_root
    remove_planned verify_cleanup judge_cleanup build_cleanup_plan close_plan finish_plan scan_loop
    remove_loop write_files finish_repair execute_files attempt_loop attempt load_verified_source
    load_path load_loop finish_load build_source_path build_destination_path source_root
    source_media_read_size write_verified_destination write_path verify_destination copy_loop
    hash_path hash_loop transform sha256_init sha256_update sha256_final eq_bytes has_prefix
    has_byte base_name xfrom_repair_initialize
repair_run = refl

xfrom_repair_execute_placed_example :
    ((true ≡ true)
      × (true ≡ true)
      × (ready.source_valid ≡ true)
      × (ready.xfrom_root_accessible ≡ true))
    × ArePlaced console (replicate 64 7) medium (λ size. true) repaired.files
    × (repaired.repair_valid ≡ true)
xfrom_repair_execute_placed_example =
    xfrom_repair_execute_placed console (replicate 64 7) medium (λ size. true) 10 ready repaired
      true true (pos 0) blank refl repair_run refl
