-- ===== src/Storage/Refresh.antt =====
-- What a scan of the layout by src/storage.c establishes.
use repair_box_psx_hdd_setup.Base.{
  ℕ, zero, suc, ◌*◌, ◌≤◌, ℤ, pos, is_negative, ◌≡◌, refl, ap, ◌∙◌, ◌⊎◌, inl, inr, Bool, true, false,
  List, [], ◌∷◌, ◌++◌, length, length-append, ◌==◌, ==_iff, if◌then◌else◌, if_intro, arith,
}
use repair_box_psx_hdd_setup.Storage.{
  Partition, DeviceResult, Diagnostics, Devices, PartitionRead, failed, ended, gave, append_entry,
  kept_entry, scan_loop, scan_root, storage_refresh_layout_diagnostics, clear_device_scan,
  query_common_values,
}

-- The list has its room, and a list that is not whole for want of memory ends with no result of 0.
abbrev HasRoom : DeviceResult → Type 0
HasRoom d = length d.entries ≤ d.entry_capacity

abbrev Reports : ℤ → DeviceResult → Type 0
Reports result d = (d.entry_allocation_failed ≡ false) ⊎ (result ≡ pos 1)

-- A device behind a scan.
abbrev pub IsScanned : DeviceResult → Type 0
IsScanned d =
    HasRoom d
    × Reports d.final_dread_result d
    × (((d.available ≡ true) × (is_negative d.dopen_result ≡ false))
        ⊎ ((d.available ≡ false) × (is_negative d.dopen_result ≡ true) × (d.entries ≡ [])))

-- A device in the loop.
abbrev IsOpen : ℤ → DeviceResult → Type 0
IsOpen fd d = (d.available ≡ true) × (d.dopen_result ≡ fd)

room :
    (entries : List Partition) (entry : Partition) (capacity : ℕ)
    → length entries ≤ capacity
    → (length entries == capacity) ≡ true
    → length (entries ++ (entry ∷ [])) ≤ (if capacity == 0 then 16 else capacity * 2)
room entries entry capacity h e =
    let k = (==_iff (length entries) capacity).0 e in
    let more = length-append {0} entries (entry ∷ []) in ground (arith, h, k, more)

spare :
    (entries : List Partition) (entry : Partition) (capacity : ℕ)
    → length entries ≤ capacity
    → (length entries == capacity) ≡ false
    → length (entries ++ (entry ∷ [])) ≤ capacity
spare entries entry capacity h e =
    let more = length-append {0} entries (entry ∷ []) in ground (arith, h, e, more)

-- The cases of a read, with an equation.
data PartitionCases (r : PartitionRead) : Type 0 where
  has_failed : (n : ℕ) → r ≡ failed n → PartitionCases r
  has_ended : r ≡ ended → PartitionCases r
  has_given : (source : Partition) → r ≡ gave source → PartitionCases r

partition_cases : (r : PartitionRead) → PartitionCases r
partition_cases (failed n) = has_failed n refl
partition_cases ended = has_ended refl
partition_cases (gave source) = has_given source refl

unfailed : {X : Type 0} (go : Bool) → go ≡ true → (go ≡ false) ⊎ X → X
unfailed go e (inl f) = cc
unfailed go e (inr x) = x

module _ (devices : Devices) (fuel : ℕ) where
  -- What the loop keeps until memory is wanting.
  abbrev Goes : ℤ → Bool × DeviceResult → Type 0
  Goes fd out =
      HasRoom out.1 × ((out.0 ≡ false) ⊎ (out.1.entry_allocation_failed ≡ false)) × IsOpen fd out.1

  append_entry-Goes :
      (source : Partition) (fd : ℤ) (d : DeviceResult)
      → HasRoom d
      → d.entry_allocation_failed ≡ false
      → IsOpen fd d
      → Goes fd (append_entry devices fuel source d)
  unfolding append_entry
  append_entry-Goes source fd d h f o =
      let doubled = if d.entry_capacity == 0 then 16 else d.entry_capacity * 2 in
      if_intro (Goes fd) (length d.entries == d.entry_capacity) _ _
        (λ e.
          if_intro (Goes fd) (devices.gives_entries doubled) _ _
            (λ _. (room d.entries (kept_entry source) d.entry_capacity h e, inr f, o))
            (λ _. (h, inl refl, o)))
        (λ e. (spare d.entries (kept_entry source) d.entry_capacity h e, inr f, o))

  abbrev Ends : ℤ → ℤ × DeviceResult → Type 0
  Ends fd out = HasRoom out.1 × Reports out.0 out.1 × IsOpen fd out.1

  scan_loop-Ends :
      (left : ℕ) (fd : ℤ) (d : DeviceResult) (w : devices.World)
      → HasRoom d
      → d.entry_allocation_failed ≡ false
      → IsOpen fd d
      → Ends fd (scan_loop devices fuel left fd d w).0
  unfolding scan_loop
  scan_loop-Ends zero fd d w h f o = (h, inl f, o)
  scan_loop-Ends (suc left) fd d w h f o =
      let P : (ℤ × DeviceResult) × devices.World → Type 0 = λ out. Ends fd out.0 in
      elim (partition_cases (devices.dread fd w).0) [
        | has_failed n e ↦ rw (e, scan_loop) (h, inl f, o)
        | has_ended e ↦ rw (e, scan_loop) (h, inl f, o)
        | has_given source e ↦
            let one = append_entry devices fuel source d in
            let kept = append_entry-Goes source fd d h f o in
            rw (e, scan_loop)
              (if_intro P one.0 _ _
                (λ go.
                  scan_loop-Ends left fd one.1 (devices.dread fd w).1 kept.0
                    (unfailed one.0 go kept.1) kept.2)
                (λ _. (kept.0, inr refl, kept.2)))
      ]

  -- A device before its scan.
  abbrev IsCleared : DeviceResult → Type 0
  IsCleared d = (d.entries ≡ []) × (d.entry_capacity ≡ 0) × (d.entry_allocation_failed ≡ false)

  scan_root-IsScanned :
      (d : DeviceResult) (w : devices.World)
      → IsCleared d
      → IsScanned (scan_root devices fuel d w).0
  unfolding scan_root
  scan_root-IsScanned d w h =
      let P : DeviceResult × devices.World → Type 0 = λ out. IsScanned out.0 in
      let fd = devices.dopen d.name w in
      let opened = record d { dopen_result = fd.0; available = true } in
      let roomy : HasRoom d = omega (arith, ap (λ xs. length xs) h.0) in
      let out = scan_loop-Ends fuel fd.0 opened fd.1 roomy h.2 (refl, refl) in
      if_intro P (is_negative fd.0) _ _ (λ e. (roomy, inl h.2, inr (refl, e, h.0)))
        (λ e. (out.0, out.1, inl (out.2.0, ap is_negative out.2.1 ∙ e)))

  -- Whatever the devices answer and whatever memory there is, a refresh of the layout leaves each of
  -- the two devices with a list of partitions that fits the room allocated for it and that is not cut
  -- for want of memory unless the last read is reported as one that gave another partition; and each
  -- device is either available, opened without an error, or not available, its error kept and its list
  -- empty.
  pub storage_refresh-IsScanned :
      (d : Diagnostics) (w : devices.World)
      → let out = (storage_refresh_layout_diagnostics devices fuel d w).0 in
        IsScanned out.hdd × IsScanned out.dvr_hdd
  unfolding storage_refresh_layout_diagnostics query_common_values clear_device_scan
  storage_refresh-IsScanned d w =
      (scan_root-IsScanned _ _ (refl, refl, refl), scan_root-IsScanned _ _ (refl, refl, refl))
