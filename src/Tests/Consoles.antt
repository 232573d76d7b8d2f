-- ===== src/Tests/Consoles.antt =====
-- The theorems on src/direct_ready40.c at a console in memory.
use mathlib.Core.List.{Perm}
use repair_box_psx_hdd_setup.Base.{
  ℕ, ◌*◌, ◌≡◌, ◌↔◌, refl, pos, true, false, List, [], ◌∷◌, map, eq_bytes, replicate, codes,
}
use repair_box_psx_hdd_setup.Drive.{Drive}
use repair_box_psx_hdd_setup.FormatTest.{expected_apa}
use repair_box_psx_hdd_setup.Storage.{Partition, DeviceResult, Diagnostics, ended, device_defaults}
use repair_box_psx_hdd_setup.DirectReady40.{Dr40Result, Console, Volumes, mode_initialize}
use repair_box_psx_hdd_setup.DirectReady40.Table.{
  find_entry, is_placed, entry_matches, dr40_exact_system_layout,
}
use repair_box_psx_hdd_setup.DirectReady40.Preflight.{dr40_initialize}
use repair_box_psx_hdd_setup.DirectReady40.Layout.{place_of, exact_system_layout_iff}
use repair_box_psx_hdd_setup.Tests.Disks.{paths}
use repair_box_psx_hdd_setup.Tests.Installs.{stick, plenty, mounts}
use repair_box_psx_hdd_setup.Tests.Memory.{memory}

abbrev sectors : Drive memory
sectors = record {
  write_sectors = λ lba bytes d. (pos 0, d);
  read_sectors = λ lba count buffer d. ((pos 0, replicate (count * 512) 0), d);
  flush = λ d. (pos 0, d);
}

abbrev volumes : Volumes memory
volumes = record {
  mount_read_only = λ point device d. (pos 0, d);
  zone_size = λ point d. (pos 8192, d);
  zone_free = λ point d. (pos 100, d);
  format_pfs = λ device name zone d. (pos 0, d);
  format_disk = λ device d. (pos 0, d);
  set_max_lba28 = λ value d. (pos 0, d);
  dread_partition = λ fd d. (ended, d);
  devctl = λ name request d. (pos 0, d);
}

abbrev console : Console
console = record {
  io = memory;
  drive = sectors;
  mounts = mounts;
  volumes = volumes;
  media = stick;
  memory = plenty;
  paths = paths;
  psx2_system_root = codes "mass:/PSX2";
  allow_pending_reinstall = false;
  stack = replicate 64 7;
  flag_buffer = replicate 512 0;
  samples_buffer = replicate 6 [];
  sector_buffer = [];
  fuel = 5;
}

abbrev started_up : Diagnostics
started_up = record {
  filexio_init_result = pos 0;
  cdvd_init_result = pos 1;
  notice_game_start_result = pos 1;
  xfrom_init_result = pos 0;
  modules = [];
  hdd = device_defaults (codes "hdd0:");
  dvr_hdd = device_defaults (codes "dvr_hdd0:");
}

abbrev confirmed : Dr40Result
confirmed = record (dr40_initialize (codes "mass:/PSX2") started_up) {
  mode = mode_initialize;
  preflight_valid = true;
  confirmation_received = true;
}

abbrev placed : List ℕ → ℕ → ℕ → Partition
placed name start size = record {
  name = name;
  mode = 0;
  attr = 0;
  size = size;
  hisize = 0;
  private_fields = 0 ∷ 0 ∷ 0 ∷ 0 ∷ 0 ∷ start ∷ [];
}

-- A fresh disk, whose partitions are listed from the last to the first.
abbrev fresh_disk : DeviceResult
fresh_disk = record (device_defaults (codes "hdd0:")) {
  entries =
      placed (codes "__common") 0x200000 0x200000
      ∷ placed (codes "__sysconf") 0x100000 0x100000
      ∷ placed (codes "__system") 0x80000 0x80000
      ∷ placed (codes "__net") 0x40000 0x40000
      ∷ placed (codes "__mbr") 0 0x40000
      ∷ [];
}

exact_system_layout_iff_example :
    (dr40_exact_system_layout fresh_disk ≡ true)
    ↔ Perm (map place_of fresh_disk.entries) expected_apa
exact_system_layout_iff_example = exact_system_layout_iff fresh_disk

fresh_disk_exact : dr40_exact_system_layout fresh_disk ≡ true
unfolding dr40_exact_system_layout entry_matches find_entry is_placed eq_bytes
fresh_disk_exact = refl
