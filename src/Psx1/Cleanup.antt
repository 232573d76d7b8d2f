-- ===== src/Psx1/Cleanup.antt =====
-- `cleanup_old_apa_headers` of src/psx1_pipeline.c: the places where partition headers of an earlier
-- table can be are cleared and read back, and the drive is flushed.
pub mod Outcomes
pub mod Frame
use repair_box_psx_hdd_setup.Base.{
  ℕ, zero, suc, ◌+◌, ◌-◌, ◌/◌, ℤ, pos, negsuc, is_negative, eio, einval, Bool, true, false, not,
  ◌||◌, List, replicate, ltb, leb, eq_bytes, take, u32, if◌then◌else◌, min,
}
use repair_box_psx_hdd_setup.Base.Io.{Io}
use repair_box_psx_hdd_setup.FileXio.{FileXio}
use repair_box_psx_hdd_setup.Drive.{Drive}
use repair_box_psx_hdd_setup.FormatTest.Session.{CleanupResult, no_cleanup}

-- APA_HEADER_FIRST_LBA, APA_HEADER_LBA_STEP, APA_HEADER_SECTORS and APA_HEADER_BYTES
abbrev pub apa_header_first_lba : ℕ
apa_header_first_lba = 0x2000

abbrev pub apa_header_lba_step : ℕ
apa_header_lba_step = 0x40000

abbrev pub apa_header_sectors : ℕ
apa_header_sectors = 2

abbrev pub apa_header_bytes : ℕ
apa_header_bytes = 1024

-- The sectors of the drive that LBA48 requests of 32 bits reach.
unfoldable pub limited_sectors : ℕ → ℕ
limited_sectors physical = if ltb 0x100000000 physical then 0x100000000 else physical

unfoldable pub slot_count : ℕ → ℕ
slot_count sectors =
    u32 ((sectors - apa_header_first_lba - apa_header_sectors) / apa_header_lba_step + 1)

abbrev pub zeroed_header : List ℕ
zeroed_header = replicate apa_header_bytes 0

module _ (io : FileXio) (drive : Drive io) where
  -- A failed slot: the LBA and the result are kept.
  abbrev slot_failed : ℕ → ℤ → CleanupResult → CleanupResult
  slot_failed lba code r = record r { failure_lba = u32 lba; result = code }

  -- One slot: `true` with the slot counted, or `false` with the failure.
  unfoldable pub clear_slot : ℕ → CleanupResult → Io io.World (Bool × CleanupResult)
  clear_slot lba r w =
      let (written, w1) = drive.write_sectors (u32 lba) zeroed_header w in
      let ((code, bytes), w2) =
        drive.read_sectors (u32 lba) apa_header_sectors (replicate apa_header_bytes 0xA5) w1 in
      if is_negative written
      then ((false, slot_failed lba written r), w1)
      else if is_negative code || not (eq_bytes zeroed_header bytes)
      then ((false, slot_failed lba (if is_negative code then code else eio) r), w2)
      else ((true, record r { verified_slots = suc r.verified_slots }), w2)

  -- The loop over the slots from `lba` on. Each round goes on by at least one sector, so that the
  -- number of sectors is fuel enough.
  unfoldable pub clear_loop : ℕ → ℕ → ℕ → CleanupResult → Io io.World (Bool × CleanupResult)
  clear_loop zero sectors lba r w = ((true, r), w)
  clear_loop (suc fuel) sectors lba r w =
      let ((cleared, r'), w') = clear_slot lba r w in
      let rest = clear_loop fuel sectors (lba + apa_header_lba_step) r' w' in
      if not (leb (lba + apa_header_sectors) sectors)
      then ((true, r), w)
      else if cleared
      then rest
      else ((false, r'), w')

  -- Behind the loop, where every slot is cleared.
  unfoldable pub flush_cleared : CleanupResult → Io io.World CleanupResult
  flush_cleared r w = let (code, w') = drive.flush w in (record r { result = code }, w')

  -- The result is also in the record.
  unfoldable pub cleanup_old_apa_headers : ℕ → Io io.World CleanupResult
  cleanup_old_apa_headers physical w =
      let sectors = limited_sectors physical in
      let start = record no_cleanup { attempted = true; result = eio } in
      let counted = record start { slots = slot_count sectors } in
      let ((cleared, r), w') = clear_loop sectors sectors apa_header_first_lba counted w in
      if leb sectors (apa_header_first_lba + apa_header_sectors)
      then (record start { result = einval }, w)
      else if cleared
      then flush_cleared r w'
      else (r, w')
