-- ===== src/Psx1/Cleanup/Outcomes.antt =====
-- How `cleanup_old_apa_headers` of src/psx1_pipeline.c ends.
use mathlib.Core.Path.{subst}
use repair_box_psx_hdd_setup.Base.{
  ℕ, zero, suc, ◌+◌, ◌*◌, ◌≤◌, ◌<◌, ℤ, is_negative, eio, einval, ◌≡◌, refl, sym, ap, ◌∙◌, ◌≢◌,
  not-false, List, eq_bytes→eq, eq_bytes_refl, Bool, true, false, not, ◌||◌, replicate, leb,
  eq_bytes, u32, if◌then◌else◌, if_intro, arith, leb→le, not-leb-true, not-leb-false, leb-false,
}
use repair_box_psx_hdd_setup.Base.Io.{Io}
use repair_box_psx_hdd_setup.FileXio.{FileXio}
use repair_box_psx_hdd_setup.Drive.{Drive}
use repair_box_psx_hdd_setup.FormatTest.Session.{CleanupResult, no_cleanup}
use repair_box_psx_hdd_setup.Psx1.Cleanup.{
  apa_header_first_lba, apa_header_lba_step, apa_header_sectors, apa_header_bytes, limited_sectors,
  slot_count, zeroed_header, clear_slot, clear_loop, flush_cleared, cleanup_old_apa_headers,
}

-- The slot with this number.
abbrev pub slot_lba : ℕ → ℕ
slot_lba k = apa_header_first_lba + apa_header_lba_step * k

slot_count-positive :
    (sectors : ℕ)
    → sectors ≤ 0x100000000
    → apa_header_first_lba + apa_header_sectors < sectors
    → 0 < slot_count sectors
unfolding slot_count
slot_count-positive sectors b s = omega arith

pub limited_sectors-bound : (n : ℕ) → limited_sectors n ≤ 0x100000000
unfolding limited_sectors
limited_sectors-bound n = ground arith

-- The count of slots, from the first slot that does not fit.
slot_count-first :
    (sectors k : ℕ)
    → sectors ≤ 0x100000000
    → apa_header_first_lba + apa_header_sectors < sectors
    → sectors < slot_lba k + apa_header_sectors
    → slot_lba k + apa_header_sectors ≤ sectors + apa_header_lba_step
    → k ≡ slot_count sectors
unfolding slot_count
slot_count-first sectors k b s h l = omega arith

slot_count-above :
    (sectors k : ℕ)
    → sectors ≤ 0x100000000
    → slot_lba k + apa_header_sectors ≤ sectors
    → k < slot_count sectors
unfolding slot_count
slot_count-above sectors k b l = omega arith

second : (a b : Bool) → a ≡ false → a || b ≡ true → b ≡ true
second a b h k = ground arith

neither : (a b : Bool) → a || b ≡ false → (a ≡ false) × (b ≡ false)
neither a b h = ground arith

differs : (xs ys : List ℕ) → not (eq_bytes xs ys) ≡ true → xs ≢ ys
differs xs ys h e = let t : eq_bytes xs ys ≡ true = rw e (eq_bytes_refl ys) in cc

slot_lba-u32 :
    (sectors k : ℕ)
    → sectors ≤ 0x100000000
    → slot_lba k + apa_header_sectors ≤ sectors
    → u32 (slot_lba k) ≡ slot_lba k
slot_lba-u32 sectors k b f = omega arith

module _ (io : FileXio) (drive : Drive io) where
  -- Zeros are written to the slot, and its sectors are read behind that.
  abbrev pub written_slot : ℕ → Io io.World ℤ
  written_slot k w = drive.write_sectors (slot_lba k) zeroed_header w

  abbrev pub read_slot : ℕ → Io io.World (ℤ × List ℕ)
  read_slot k w =
      drive.read_sectors (slot_lba k) apa_header_sectors (replicate apa_header_bytes 0xA5)
        (written_slot k w).1

  -- The slot was cleared without an error, and zeros were read back.
  abbrev pub IsSlotCleared : ℕ → io.World → Type 0
  IsSlotCleared k w =
      (is_negative (written_slot k w).0 ≡ false)
      × (is_negative (read_slot k w).0.0 ≡ false)
      × ((read_slot k w).0.1 ≡ zeroed_header)

  -- The result of a slot that was not cleared, and the state that it leaves.
  pub data SlotRefused (k : ℕ) (w : io.World) (code : ℤ) (w' : io.World) : Type 0 where
    write_failed :
        is_negative (written_slot k w).0 ≡ true
        → code ≡ (written_slot k w).0
        → w' ≡ (written_slot k w).1
        → SlotRefused k w code w'
    read_failed :
        is_negative (read_slot k w).0.0 ≡ true
        → code ≡ (read_slot k w).0.0
        → w' ≡ (read_slot k w).1
        → SlotRefused k w code w'
    not_zero :
        (read_slot k w).0.1 ≢ zeroed_header
        → code ≡ eio
        → w' ≡ (read_slot k w).1
        → SlotRefused k w code w'

  -- The first slots, so many of them, were cleared one after the other.
  pub data SlotsCleared (w : io.World) : ℕ → io.World → Type 0 where
    no_slot : SlotsCleared w zero w
    next_slot :
        (k : ℕ) (u : io.World)
        → SlotsCleared w k u
        → IsSlotCleared k u
        → SlotsCleared w (suc k) (read_slot k u).1

  -- How a slot ends.
  data SlotOutcome (k : ℕ) (r : CleanupResult) (w : io.World)
      : (Bool × CleanupResult) × io.World → Type 0 where
    slot_cleared :
        IsSlotCleared k w
        → SlotOutcome k r w
            ((true, record r { verified_slots = suc r.verified_slots }), (read_slot k w).1)
    slot_refused :
        (code : ℤ) (w' : io.World)
        → SlotRefused k w code w'
        → SlotOutcome k r w ((false, record r { failure_lba = slot_lba k; result = code }), w')

  -- How the loop ends for a drive of these sectors, from the state `w` before the first slot.
  data LoopOutcome (sectors : ℕ) (r : CleanupResult) (w : io.World)
      (out : (Bool × CleanupResult) × io.World) : Type 0 where
    all_cleared :
        out.0.0 ≡ true
        → out.0.1.slots ≡ r.slots
        → out.0.1.verified_slots ≡ slot_count sectors
        → SlotsCleared w (slot_count sectors) out.1
        → LoopOutcome sectors r w out
    one_refused :
        (u : io.World)
        → out.0.0 ≡ false
        → out.0.1.slots ≡ r.slots
        → out.0.1.verified_slots < slot_count sectors
        → SlotsCleared w out.0.1.verified_slots u
        → SlotRefused out.0.1.verified_slots u out.0.1.result out.1
        → out.0.1.failure_lba ≡ slot_lba out.0.1.verified_slots
        → LoopOutcome sectors r w out

  -- How the clean-up ends: the drive is too small and nothing is done, a slot was refused behind the
  -- cleared ones, or all slots were cleared and then the drive was flushed.
  pub data CleanupOutcome (physical : ℕ) (w : io.World) (out : CleanupResult × io.World)
      : Type 0 where
    is_small :
        limited_sectors physical ≤ apa_header_first_lba + apa_header_sectors
        → out.0.result ≡ einval
        → out.0.verified_slots ≡ 0
        → out.1 ≡ w
        → CleanupOutcome physical w out
    is_refused :
        (u : io.World)
        → out.0.slots ≡ slot_count (limited_sectors physical)
        → out.0.verified_slots < out.0.slots
        → SlotsCleared w out.0.verified_slots u
        → SlotRefused out.0.verified_slots u out.0.result out.1
        → out.0.failure_lba ≡ slot_lba out.0.verified_slots
        → CleanupOutcome physical w out
    is_cleared :
        (u : io.World)
        → out.0.slots ≡ slot_count (limited_sectors physical)
        → 0 < out.0.slots
        → out.0.verified_slots ≡ out.0.slots
        → SlotsCleared w out.0.slots u
        → out.0.result ≡ (drive.flush u).0
        → out.1 ≡ (drive.flush u).1
        → CleanupOutcome physical w out

  clear_slot-SlotOutcome :
      (k : ℕ) (r : CleanupResult) (w : io.World)
      → u32 (slot_lba k) ≡ slot_lba k
      → SlotOutcome k r w (clear_slot io drive (slot_lba k) r w)
  unfolding clear_slot
  clear_slot-SlotOutcome k r w e =
      let P : (Bool × CleanupResult) × io.World → Type 0 = λ out. SlotOutcome k r w out in
      let got = (read_slot k w).0 in
      let mismatch : (b : Bool)
          → (b ≡ true → is_negative got.0 ≡ true)
          → (b ≡ false → is_negative got.0 ≡ false)
          → (is_negative got.0 ≡ false → not (eq_bytes zeroed_header got.1) ≡ true)
          → SlotRefused k w (if b then got.0 else eio) (read_slot k w).1 =
        λ b f g h.
          if_intro (λ (code : ℤ). SlotRefused k w code (read_slot k w).1) b _ _
            (λ t. read_failed (f t) refl refl)
            (λ t. not_zero (λ q. differs zeroed_header got.1 (h (g t)) (sym q)) refl refl) in
      rw e (
        if_intro P (is_negative (written_slot k w).0) _ _
          (λ f. slot_refused _ _ (write_failed f refl refl))
          λ f.
            if_intro P (is_negative got.0 || not (eq_bytes zeroed_header got.1)) _ _
              (λ d. slot_refused _ _ (
                mismatch (is_negative got.0) (λ t. t) (λ t. t)
                  (λ t. second (is_negative got.0) _ t d)))
              (λ d.
                let h = neither (is_negative got.0) _ d in
                slot_cleared (f, h.0, sym (eq_bytes→eq zeroed_header got.1 (not-false _ h.1)))))

  -- One round, from what the rest of the loop does.
  round-LoopOutcome :
      (sectors k : ℕ) (r : CleanupResult) (w0 w : io.World)
      (slot : (Bool × CleanupResult) × io.World)
      (rest : CleanupResult → Io io.World (Bool × CleanupResult))
      → sectors ≤ 0x100000000
      → slot_lba k + apa_header_sectors ≤ sectors
      → r.verified_slots ≡ k
      → SlotsCleared w0 k w
      → SlotOutcome k r w slot
      → ((r' : CleanupResult)
          → (u : io.World) → r'.verified_slots ≡ suc k
          → r'.slots ≡ r.slots
          → SlotsCleared w0 (suc k) u
          → LoopOutcome sectors r w0 (rest r' u))
      → LoopOutcome sectors r w0
          (if slot.0.0 then rest slot.0.1 slot.1 else ((false, slot.0.1), slot.1))
  round-LoopOutcome sectors k r w0 w slot rest b fits e c (slot_cleared i) go =
      go _ _ (ap suc e) refl (next_slot k w c i)
  round-LoopOutcome sectors k r w0 w slot rest b fits e c (slot_refused code w' f) go =
      let same = sym e in
      one_refused w refl refl
        (subst (λ v. v < slot_count sectors) same (slot_count-above sectors k b fits))
        (subst (λ v. SlotsCleared w0 v w) same c) (subst (λ v. SlotRefused v w code w') same f)
        (ap slot_lba same)

  -- The same with as many slots to clear.
  same_slots :
      (sectors : ℕ) (r r' : CleanupResult) (w : io.World) (out : (Bool × CleanupResult) × io.World)
      → r'.slots ≡ r.slots
      → LoopOutcome sectors r' w out
      → LoopOutcome sectors r w out
  same_slots sectors r r' w out q (all_cleared c n v s) = all_cleared c (n ∙ q) v s
  same_slots sectors r r' w out q (one_refused u c n v s f a) = one_refused u c (n ∙ q) v s f a

  all_done :
      (sectors k : ℕ) (r : CleanupResult) (w0 w : io.World)
      → k ≡ slot_count sectors
      → r.verified_slots ≡ k
      → SlotsCleared w0 k w
      → LoopOutcome sectors r w0 ((true, r), w)
  all_done sectors k r w0 w q e c =
      all_cleared refl refl (e ∙ q) (subst (λ v. SlotsCleared w0 v w) q c)

  clear_loop-LoopOutcome :
      (fuel sectors k : ℕ) (r : CleanupResult) (w0 w : io.World)
      → sectors ≤ 0x100000000
      → apa_header_first_lba + apa_header_sectors < sectors
      → slot_lba k + apa_header_sectors ≤ sectors + apa_header_lba_step
      → sectors < fuel + slot_lba k
      → r.verified_slots ≡ k
      → SlotsCleared w0 k w
      → LoopOutcome sectors r w0 (clear_loop io drive fuel sectors (slot_lba k) r w)
  unfolding clear_loop
  clear_loop-LoopOutcome zero sectors k r w0 w b s l f e c =
      all_done sectors k r w0 w (slot_count-first sectors k b s (omega arith) l) e c
  clear_loop-LoopOutcome (suc fuel) sectors k r w0 w b s l f e c =
      let P : (Bool × CleanupResult) × io.World → Type 0 = λ out. LoopOutcome sectors r w0 out in
      let here = slot_lba k + apa_header_sectors in
      let next : slot_lba (suc k) ≡ slot_lba k + apa_header_lba_step = omega arith in
      if_intro P (not (leb here sectors)) _ _
        (λ t.
          all_done sectors k r w0 w (slot_count-first sectors k b s (not-leb-true here sectors t) l)
            e c)
        λ t.
          let fits = not-leb-false here sectors t in
          round-LoopOutcome sectors k r w0 w (clear_slot io drive (slot_lba k) r w)
            (clear_loop io drive fuel sectors (slot_lba k + apa_header_lba_step)) b fits e c
            (clear_slot-SlotOutcome k r w (slot_lba-u32 sectors k b fits))
            λ r' u e' q c'.
              subst (λ n. LoopOutcome sectors r w0 (clear_loop io drive fuel sectors n r' u)) next
                (same_slots sectors r r' w0 _ q (
                  clear_loop-LoopOutcome fuel sectors (suc k) r' w0 u b s (omega arith)
                    (omega arith) e' c'))

  flushed-CleanupOutcome :
      (physical : ℕ) (r : CleanupResult) (w : io.World) (loop : (Bool × CleanupResult) × io.World)
      → apa_header_first_lba + apa_header_sectors < limited_sectors physical
      → r.slots ≡ slot_count (limited_sectors physical)
      → LoopOutcome (limited_sectors physical) r w loop
      → CleanupOutcome physical w
          (if loop.0.0 then flush_cleared io drive loop.0.1 loop.1 else (loop.0.1, loop.1))
  unfolding flush_cleared
  flushed-CleanupOutcome physical r w ((true, r'), u) s q (all_cleared c n v k) =
      let same : r'.slots ≡ slot_count (limited_sectors physical) = n ∙ q in
      is_cleared u same
        (subst (λ m. 0 < m) (sym same) (slot_count-positive _ (limited_sectors-bound physical) s))
        (v ∙ sym same) (subst (λ m. SlotsCleared w m u) (sym same) k) refl refl
  flushed-CleanupOutcome physical r w ((false, r'), u) s q (all_cleared c n v k) = cc
  flushed-CleanupOutcome physical r w ((true, r'), u) s q (one_refused x c n v k f a) = cc
  flushed-CleanupOutcome physical r w ((false, r'), u) s q (one_refused x c n v k f a) =
      let same : r'.slots ≡ slot_count (limited_sectors physical) = n ∙ q in
      is_refused x same (subst (λ m. r'.verified_slots < m) (sym same) v) k f a

  -- The clean-up ends, and in one of three ways. A drive that has no room for the first header is
  -- refused, and the devices are as they were. Otherwise the number of slots is that of the headers
  -- that fit into the drive, cut to 2^32 sectors, and the slots are visited in order: either each was
  -- written with zeros without an error and zeros were read back behind that, and the drive was flushed
  -- with the answer that is returned; or this holds of the slots before one that was refused, whose LBA
  -- is reported, and the answer is that of its write or of its read, or -EIO where no zeros were read
  -- back.
  pub cleanup-CleanupOutcome :
      (physical : ℕ) (w : io.World)
      → CleanupOutcome physical w (cleanup_old_apa_headers io drive physical w)
  unfolding cleanup_old_apa_headers
  cleanup-CleanupOutcome physical w =
      let P : CleanupResult × io.World → Type 0 = λ out. CleanupOutcome physical w out in
      let sectors = limited_sectors physical in
      let least = apa_header_first_lba + apa_header_sectors in
      let start = record no_cleanup { attempted = true; result = eio } in
      let counted = record start { slots = slot_count sectors } in
      let loop = clear_loop io drive sectors sectors apa_header_first_lba counted w in
      if_intro P (leb sectors least) _ _ (λ t. is_small (leb→le sectors least t) refl refl refl)
        λ t.
          let room = leb-false sectors least t in
          flushed-CleanupOutcome physical counted w loop room refl (
            clear_loop-LoopOutcome sectors sectors 0 counted w w (limited_sectors-bound physical)
              room (omega arith) (omega arith) refl no_slot)
