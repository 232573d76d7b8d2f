-- ===== src/Storage.antt =====
-- src/storage.c: the scan of the two hard disk devices, whose partitions `fileXioDread` lists. The
-- loading of the drivers is left out.
pub mod Refresh
pub mod Listing
use repair_box_psx_hdd_setup.Base.{
  ℕ, zero, suc, ◌+◌, ◌*◌, ℤ, pos, negsuc, is_negative, eio, Bool, true, false, Option, none, some,
  List, [], ◌∷◌, ◌++◌, codes, c_string, length, take, ◌==◌, if◌then◌else◌,
}
use repair_box_psx_hdd_setup.Base.Io.{Io}

-- An `iox_dirent_t` of a partition, of which the program keeps all but the times.
pub record Partition : Type 0 where
  -- the buffer of 256 bytes
  pub name : List ℕ
  pub mode : ℕ
  pub attr : ℕ
  pub size : ℕ
  pub hisize : ℕ
  pub private_fields : List ℕ

pub record DeviceResult : Type 0 where
  pub name : List ℕ
  pub available : Bool
  pub dopen_result : ℤ
  pub final_dread_result : ℤ
  pub dclose_result : ℤ
  pub entry_capacity : ℕ
  pub entry_allocation_failed : Bool
  -- `entry_count` is its length
  pub entries : List Partition
  pub status_result : ℤ
  pub format_version_result : ℤ
  pub total_sectors_result : ℤ
  pub max_partition_sectors_result : ℤ
  pub max_lba48_result : ℤ
  pub is_lba48_result : ℤ

-- How a driver was loaded and started.
pub record ModuleResult : Type 0 where
  pub module_id : ℤ
  pub module_result : ℤ

-- The scans of the two devices, and how the console was started up.
pub record Diagnostics : Type 0 where
  pub filexio_init_result : ℤ
  pub cdvd_init_result : ℤ
  pub notice_game_start_result : ℤ
  pub xfrom_init_result : ℤ
  pub modules : List ModuleResult
  pub hdd : DeviceResult
  pub dvr_hdd : DeviceResult

-- The requests of `fileXioDevctl`.
pub data Request : Type 0 where
  status formatver totalsector maxsector getmaxlba48 islba48 : Request

-- The result of `fileXioDread` on a device.
pub data PartitionRead : Type 0 where
  failed : ℕ → PartitionRead
  ended : PartitionRead
  gave : Partition → PartitionRead

-- The calls of PS2SDK's fileXio on the devices, and whether `realloc` gives room for a number of
-- entries: a parameter.
pub record Devices : Type 1 where
  pub World : Type 0
  pub dopen : List ℕ → Io World ℤ
  pub dread : ℤ → Io World PartitionRead
  pub dclose : ℤ → Io World ℤ
  pub devctl : List ℕ → Request → Io World ℤ
  pub gives_entries : ℕ → Bool

abbrev pub device_defaults : List ℕ → DeviceResult
device_defaults name = record {
  name = name;
  available = false;
  dopen_result = negsuc 0;
  final_dread_result = negsuc 0;
  dclose_result = negsuc 0;
  entry_capacity = 0;
  entry_allocation_failed = false;
  entries = [];
  status_result = negsuc 0;
  format_version_result = negsuc 0;
  total_sectors_result = negsuc 0;
  max_partition_sectors_result = negsuc 0;
  max_lba48_result = negsuc 0;
  is_lba48_result = negsuc 0;
}

unfoldable pub clear_device_scan : DeviceResult → DeviceResult
clear_device_scan device = device_defaults device.name

-- The name of an entry is a text that ends in the buffer.
abbrev pub kept_entry : Partition → Partition
kept_entry source = record source { name = c_string (take 255 source.name) }

unfoldable pub storage_release : Diagnostics → Diagnostics
storage_release d = record d {
  hdd = record d.hdd { entries = []; entry_capacity = 0 };
  dvr_hdd = record d.dvr_hdd { entries = []; entry_capacity = 0 };
}

-- `fuel` is the bound on the loop over a device, which the code has not: where it is used up the
-- result is -EIO.
module _ (devices : Devices) (fuel : ℕ) where
  -- INITIAL_ENTRY_CAPACITY is 16; the first component is whether the result is 0.
  unfoldable pub append_entry : Partition → DeviceResult → Bool × DeviceResult
  append_entry source device =
      let doubled = if device.entry_capacity == 0 then 16 else device.entry_capacity * 2 in
      let entries = device.entries ++ (kept_entry source ∷ []) in
      if length device.entries == device.entry_capacity
      then (if devices.gives_entries doubled
          then (true, record device { entries = entries; entry_capacity = doubled })
          else (false, record device { entry_allocation_failed = true }))
      else (true, record device { entries = entries })

  -- The loop of `scan_root`: the last result of `fileXioDread`, where 1 stands for a positive one.
  unfoldable pub scan_loop : ℕ → ℤ → DeviceResult → Io devices.World (ℤ × DeviceResult)
  scan_loop zero fd device w = ((eio, device), w)
  scan_loop (suc left) fd device w =
      let (read, w') = devices.dread fd w in
      elim read [
        | failed n ↦ ((negsuc n, device), w')
        | ended ↦ ((pos 0, device), w')
        | gave source ↦
            let (go, device') = append_entry source device in
            let rest = scan_loop left fd device' w' in if go then rest else ((pos 1, device'), w')
      ]

  unfoldable pub scan_root : DeviceResult → Io devices.World DeviceResult
  scan_root device w =
      let (fd, w1) = devices.dopen device.name w in
      let opened = record device { dopen_result = fd; available = true } in
      let ((result, listed), w2) = scan_loop fuel fd opened w1 in
      let (closed, w3) = devices.dclose fd w2 in
      if is_negative fd
      then (record device { dopen_result = fd; available = false; final_dread_result = fd }, w1)
      else (record listed { final_dread_result = result; dclose_result = closed }, w3)

  unfoldable pub query_common_values : DeviceResult → Io devices.World DeviceResult
  query_common_values device w =
      let (a, w1) = devices.devctl device.name status w in
      let (b, w2) = devices.devctl device.name formatver w1 in
      let (c, w3) = devices.devctl device.name totalsector w2 in
      let (d, w4) = devices.devctl device.name maxsector w3 in
      (
        record device {
          status_result = a;
          format_version_result = b;
          total_sectors_result = c;
          max_partition_sectors_result = d;
        },
        w4,
      )

  unfoldable pub storage_refresh_layout_diagnostics : Diagnostics → Io devices.World Diagnostics
  storage_refresh_layout_diagnostics d w =
      let (hdd, w1) = query_common_values (clear_device_scan d.hdd) w in
      let (dvr, w2) = query_common_values (clear_device_scan d.dvr_hdd) w1 in
      let (max, w3) = devices.devctl (codes "dvr_hdd0:") getmaxlba48 w2 in
      let (is, w4) = devices.devctl (codes "dvr_hdd0:") islba48 w3 in
      let asked = record dvr { max_lba48_result = max; is_lba48_result = is } in
      let (hdd', w5) = scan_root hdd w4 in
      let (dvr', w6) = scan_root asked w5 in (record d { hdd = hdd'; dvr_hdd = dvr' }, w6)
