-- ===== src/DirectReady40/Table.antt =====
-- `dr40_exact_system_layout` and `dr40_exact_dvr_layout` of src/direct_ready40.c: the tests of the
-- partitions that the devices list.
use repair_box_psx_hdd_setup.Base.{
  ℕ, ◌+◌, ◌-◌, ◌*◌, ◌^◌, Bool, false, ◌&&◌, Option, none, some, List, [], ◌∷◌, codes, length,
  get_or, leb, ◌==◌, eq_bytes, u32, u64, if◌then◌else◌,
}
use repair_box_psx_hdd_setup.Storage.{Partition, DeviceResult}
use repair_box_psx_hdd_setup.DirectReady40.{native_max}

unfoldable pub find_entry : List Partition → List ℕ → Option Partition
find_entry [] name = none
find_entry (entry ∷ entries) name =
    let rest = find_entry entries name in if eq_bytes entry.name name then some entry else rest

-- `private_fields[5]`
abbrev pub start_of : Partition → ℕ
start_of entry = get_or entry.private_fields 5 0

unfoldable pub is_placed : Option Partition → ℕ → ℕ → Bool
is_placed none start size = false
is_placed (some entry) start size =
    (start_of entry == start) && ((entry.hisize == 0) && (entry.size == size))

unfoldable pub entry_matches : DeviceResult → List ℕ → ℕ → ℕ → Bool
entry_matches device name start size = is_placed (find_entry device.entries name) start size

unfoldable pub dr40_exact_system_layout : DeviceResult → Bool
dr40_exact_system_layout device =
    (length device.entries == 5)
    && (entry_matches device (codes "__mbr") 0 0x40000
        && (entry_matches device (codes "__net") 0x40000 0x40000
            && (entry_matches device (codes "__system") 0x80000 0x80000
                && (entry_matches device (codes "__sysconf") 0x100000 0x100000
                    && entry_matches device (codes "__common") 0x200000 0x200000))))

unfoldable pub end_of : Option Partition → ℕ
end_of none = 0
end_of (some entry) = u64 (start_of entry + entry.hisize * 2 ^ 32 + entry.size)

-- Whether the layout is exact, the end of the last partition and the number of sectors behind it.
unfoldable pub dr40_exact_dvr_layout : DeviceResult → Bool × (ℕ × ℕ)
dr40_exact_dvr_layout device =
    let calculated_end = end_of (find_entry device.entries (codes "__xcontents")) in
    (
      (length device.entries == 3)
          && (entry_matches device (codes "__extend") 0x04A817C8 0x40000
              && (entry_matches device (codes "__xdata") 0x04AC17C8 0x200000
                  && (entry_matches device (codes "__xcontents") 0x04CC17C8 0x190BE038
                      && ((calculated_end == 0x1DD7F800)
                          && (u32 (native_max + 2 ^ 32 - u32 calculated_end) == 0x800))))),
      (
        if leb calculated_end 0xffffffff then calculated_end else 0,
        if leb calculated_end native_max then native_max - calculated_end else 0,
      ),
    )
