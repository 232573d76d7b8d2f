-- ===== src/Storage/Listing.antt =====
-- The scan of a device by src/storage.c lists all its partitions.
use repair_box_psx_hdd_setup.Base.{
  ℕ, zero, suc, ◌<◌, ◌*◌, ℤ, pos, ◌≡◌, refl, ap, ◌∙◌, sym, Bool, true, List, [], ◌∷◌, ◌++◌,
  append-nil, append_assoc, length, ◌==◌, if◌then◌else◌, if_intro, arith,
}
use repair_box_psx_hdd_setup.Storage.{
  Partition, DeviceResult, Devices, ended, gave, append_entry, kept_entry, scan_loop, scan_root,
}

abbrev pub kept_entries : List Partition → List Partition
kept_entries [] = []
kept_entries (entry ∷ entries) = kept_entry entry ∷ kept_entries entries

module _ (devices : Devices) where
  -- A descriptor delivers these partitions one after the other, and then the end.
  pub data Delivers (fd : ℤ) : List Partition → devices.World → Type 0 where
    stops : {w : devices.World} → (devices.dread fd w).0 ≡ ended → Delivers fd [] w
    delivers :
        {entry : Partition} {rest : List Partition} {w : devices.World}
        → (devices.dread fd w).0 ≡ gave entry
        → Delivers fd rest (devices.dread fd w).1
        → Delivers fd (entry ∷ rest) w

module _ (devices : Devices) (fuel : ℕ) where
  -- An entry is added, and the scan goes on.
  abbrev Adds : Partition → DeviceResult → Bool × DeviceResult → Type 0
  Adds source d out =
      (out.0 ≡ true)
      × (out.1.entries ≡ d.entries ++ (kept_entry source ∷ []))
      × (out.1.entry_allocation_failed ≡ d.entry_allocation_failed)

  append_entry-Adds :
      (source : Partition) (d : DeviceResult)
      → ((n : ℕ) → devices.gives_entries n ≡ true)
      → Adds source d (append_entry devices fuel source d)
  unfolding append_entry
  append_entry-Adds source d m =
      let doubled = if d.entry_capacity == 0 then 16 else d.entry_capacity * 2 in
      if_intro (Adds source d) (length d.entries == d.entry_capacity) _ _
        (λ _. rw (m doubled) (refl, refl, refl)) (λ _. (refl, refl, refl))

  abbrev Whole : List Partition → DeviceResult → ℤ × DeviceResult → Type 0
  Whole listing d out =
      (out.1.entries ≡ d.entries ++ kept_entries listing)
      × (out.0 ≡ pos 0)
      × (out.1.entry_allocation_failed ≡ d.entry_allocation_failed)

  scan_loop-Whole :
      (left : ℕ) (fd : ℤ) (listing : List Partition) (d : DeviceResult) (w : devices.World)
      → ((n : ℕ) → devices.gives_entries n ≡ true)
      → Delivers devices fd listing w
      → length listing < left
      → Whole listing d (scan_loop devices fuel left fd d w).0
  unfolding scan_loop
  scan_loop-Whole zero fd listing d w m l h = ground (arith, h)
  scan_loop-Whole (suc left) fd [] d w m (stops e) h =
      rw (e, scan_loop) (sym (append-nil d.entries), refl, refl)
  scan_loop-Whole (suc left) fd (entry ∷ rest) d w m (delivers e l) h =
      let one = append_entry devices fuel entry d in
      let a = append_entry-Adds entry d m in
      let out = scan_loop-Whole left fd rest one.1 (devices.dread fd w).1 m l (omega (arith, h)) in
      rw (e, scan_loop, a.0)
        (
          out.0
              ∙ (ap (λ xs. xs ++ kept_entries rest) a.1
                  ∙ append_assoc d.entries (kept_entry entry ∷ []) (kept_entries rest)),
          out.1,
          out.2 ∙ a.2,
        )

  -- Where there is memory, over a device that opens, lists its partitions and ends, the scan with fuel
  -- for more than their number ends with the result 0 and has appended all of them, in order, with
  -- their names cut at the 256th byte.
  pub scan_root_complete :
      (n : ℕ) (listing : List Partition) (d : DeviceResult) (w : devices.World)
      → ((k : ℕ) → devices.gives_entries k ≡ true)
      → d.entries ≡ []
      → (devices.dopen d.name w).0 ≡ pos n
      → Delivers devices (pos n) listing (devices.dopen d.name w).1
      → length listing < fuel
      → let out = (scan_root devices fuel d w).0 in
        (out.entries ≡ kept_entries listing)
        × (out.final_dread_result ≡ pos 0)
        × (out.entry_allocation_failed ≡ d.entry_allocation_failed)
  unfolding scan_root
  scan_root_complete n listing d w m z o l h =
      let opened = record d { dopen_result = pos n; available = true } in
      let out = scan_loop-Whole fuel (pos n) listing opened (devices.dopen d.name w).1 m l h in
      rw o (out.0 ∙ ap (λ xs. xs ++ kept_entries listing) z, out.1, out.2)
