-- ===== src/Tests/Layouts.antt =====
-- The scan of src/storage.c over two devices in memory.
use repair_box_psx_hdd_setup.Base.{ℕ, ◌≡◌, refl, zero, suc, pos, true, [], ◌∷◌, codes, arith}
use repair_box_psx_hdd_setup.Storage.{
  Partition, DeviceResult, Diagnostics, Devices, ended, gave, device_defaults, kept_entry,
  storage_refresh_layout_diagnostics, scan_root,
}
use repair_box_psx_hdd_setup.Storage.Refresh.{IsScanned, storage_refresh-IsScanned}
use repair_box_psx_hdd_setup.Storage.Listing.{stops, delivers, scan_root_complete}

abbrev partition : Partition
partition = record {
  name = codes "__mbr";
  mode = 1;
  attr = 0;
  size = 262144;
  hisize = 0;
  private_fields = [];
}

-- The state is the number of partitions that the open device has yet to list.
abbrev two_partitions : Devices
two_partitions = record {
  World = ℕ;
  dopen = λ name w. (pos 3, 2);
  dread = λ fd w. elim w [ zero ↦ (ended, 0) | suc k ↦ (gave partition, k) ];
  dclose = λ fd w. (pos 0, w);
  devctl = λ name request w. (pos 0, w);
  gives_entries = λ n. true;
}

abbrev untouched : Diagnostics
untouched = record {
  filexio_init_result = pos 0;
  cdvd_init_result = pos 1;
  notice_game_start_result = pos 1;
  xfrom_init_result = pos 0;
  modules = [];
  hdd = device_defaults (codes "hdd0:");
  dvr_hdd = device_defaults (codes "dvr_hdd0:");
}

storage_refresh-IsScanned_example :
    let out = (storage_refresh_layout_diagnostics two_partitions 10 untouched 0).0 in
    IsScanned out.hdd × IsScanned out.dvr_hdd
storage_refresh-IsScanned_example = storage_refresh-IsScanned two_partitions 10 untouched 0

abbrev fresh : DeviceResult
fresh = device_defaults (codes "hdd0:")

scan_root_complete_example :
    let out = (scan_root two_partitions 10 fresh 0).0 in
    (out.entries ≡ kept_entry partition ∷ kept_entry partition ∷ [])
    × (out.final_dread_result ≡ pos 0)
    × (out.entry_allocation_failed ≡ fresh.entry_allocation_failed)
scan_root_complete_example =
    scan_root_complete two_partitions 10 3 (partition ∷ partition ∷ []) fresh 0 (λ n. refl) refl
      refl (delivers refl (delivers refl (stops refl))) (omega arith)
