-- ===== src/Psx1/Cleanup/Frame.antt =====
-- What `cleanup_old_apa_headers` of src/psx1_pipeline.c can do to the drive.
use mathlib.Core.Path.{subst}
use repair_box_psx_hdd_setup.Base.{
  ℕ, zero, suc, ◌+◌, ◌≤◌, is_negative, eio, ◌≡◌, Bool, true, not, ◌||◌, List, replicate, leb,
  eq_bytes, u32, if_intro, arith, not-leb-false,
}
use repair_box_psx_hdd_setup.FileXio.{FileXio}
use repair_box_psx_hdd_setup.Drive.{Drive}
use repair_box_psx_hdd_setup.FormatTest.Session.{CleanupResult, no_cleanup}
use repair_box_psx_hdd_setup.Psx1.Cleanup.{
  apa_header_first_lba, apa_header_lba_step, apa_header_sectors, apa_header_bytes, limited_sectors,
  slot_count, zeroed_header, clear_slot, clear_loop, flush_cleared, cleanup_old_apa_headers,
}
use repair_box_psx_hdd_setup.Psx1.Cleanup.Outcomes.{slot_lba, limited_sectors-bound}

module _ (io : FileXio) (drive : Drive io) where
  -- A property of the devices that reading and flushing the drive keep, and clearing those of its
  -- headers that lie below `sectors`.
  pub record KeptByCleanup (sectors : ℕ) (Inv : io.World → Type 0) : Type 0 where
    pub reads :
        (lba count : ℕ) (buffer : List ℕ) (w : io.World)
        → Inv w
        → Inv (drive.read_sectors lba count buffer w).1
    pub flushes : (w : io.World) → Inv w → Inv (drive.flush w).1
    pub clears :
        (k : ℕ) (w : io.World)
        → slot_lba k + apa_header_sectors ≤ sectors
        → Inv w
        → Inv (drive.write_sectors (slot_lba k) zeroed_header w).1

  module _ (sectors : ℕ) (Inv : io.World → Type 0) (kept : KeptByCleanup sectors Inv)
      (bound : sectors ≤ 0x100000000) where
    clear_slot-Kept :
        (k : ℕ) (r : CleanupResult) (w : io.World)
        → slot_lba k + apa_header_sectors ≤ sectors
        → Inv w
        → Inv (clear_slot io drive (slot_lba k) r w).1
    unfolding clear_slot
    clear_slot-Kept k r w fits h =
        let P : (Bool × CleanupResult) × io.World → Type 0 = λ out. Inv out.1 in
        let lba : slot_lba k ≡ u32 (slot_lba k) = omega arith in
        let written = drive.write_sectors (u32 (slot_lba k)) zeroed_header w in
        let wrote : Inv written.1 =
          subst (λ n. Inv (drive.write_sectors n zeroed_header w).1) lba (kept.clears k w fits h) in
        let filler = replicate apa_header_bytes 0xA5 in
        let got = drive.read_sectors (u32 (slot_lba k)) apa_header_sectors filler written.1 in
        let read = kept.reads (u32 (slot_lba k)) apa_header_sectors filler written.1 wrote in
        if_intro P (is_negative written.0) _ _ (λ _. wrote)
          λ _.
            if_intro P (is_negative got.0.0 || not (eq_bytes zeroed_header got.0.1)) _ _ (λ _. read)
              (λ _. read)

    clear_loop-Kept :
        (fuel k : ℕ) (r : CleanupResult) (w : io.World)
        → Inv w
        → Inv (clear_loop io drive fuel sectors (slot_lba k) r w).1
    unfolding clear_loop
    clear_loop-Kept zero k r w h = h
    clear_loop-Kept (suc fuel) k r w h =
        let P : (Bool × CleanupResult) × io.World → Type 0 = λ out. Inv out.1 in
        let slot = clear_slot io drive (slot_lba k) r w in
        let here = slot_lba k + apa_header_sectors in
        let next : slot_lba (suc k) ≡ slot_lba k + apa_header_lba_step = omega arith in
        if_intro P (not (leb here sectors)) _ _ (λ _. h)
          λ t.
            let after = clear_slot-Kept k r w (not-leb-false here sectors t) h in
            if_intro P slot.0.0 _ _
              (λ _.
                subst (λ n. Inv (clear_loop io drive fuel sectors n slot.0.1 slot.1).1) next
                  (clear_loop-Kept fuel (suc k) slot.0.1 slot.1 after))
              (λ _. after)

  -- The clean-up changes nothing of the devices but the headers whose two sectors lie within the
  -- drive, at 0x2000 and every 0x40000 sectors from there on, to which it writes zeros: a property
  -- that this, reading the drive and flushing it keep holds after it where it held before.
  pub cleanup-KeptByCleanup :
      (physical : ℕ) (Inv : io.World → Type 0) (w : io.World)
      → KeptByCleanup (limited_sectors physical) Inv
      → Inv w
      → Inv (cleanup_old_apa_headers io drive physical w).1
  unfolding cleanup_old_apa_headers flush_cleared
  cleanup-KeptByCleanup physical Inv w kept h =
      let P : CleanupResult × io.World → Type 0 = λ out. Inv out.1 in
      let sectors = limited_sectors physical in
      let start = record no_cleanup { attempted = true; result = eio } in
      let counted = record start { slots = slot_count sectors } in
      let loop = clear_loop io drive sectors sectors apa_header_first_lba counted w in
      let after =
        clear_loop-Kept sectors Inv kept (limited_sectors-bound physical) sectors 0 counted w h in
      if_intro P (leb sectors (apa_header_first_lba + apa_header_sectors)) _ _ (λ _. h)
        λ _. if_intro P loop.0.0 _ _ (λ _. kept.flushes loop.1 after) (λ _. after)
