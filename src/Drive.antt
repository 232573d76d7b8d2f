-- ===== src/Drive.antt =====
-- The calls of fileXio that act on the hard disk `hdd0:` and the formatter, beside those of FileXio:
-- `fileXioDevctl` with HDIOC_WRITESECTOR, HDIOC_READSECTOR and HDIOC_FLUSH, and the calls that mount
-- partitions. They are no part of the repository.
use repair_box_psx_hdd_setup.Base.{ℕ, ℤ, List}
use repair_box_psx_hdd_setup.Base.Io.{Io}
use repair_box_psx_hdd_setup.FileXio.{FileXio}

pub record Drive (io : FileXio) : Type 0 where
  -- The first sector and the bytes that are written from there on, a multiple of 512.
  pub write_sectors : ℕ → List ℕ → Io io.World ℤ
  -- The first sector, the number of sectors and the buffer before the call; the result, and the
  -- buffer after the call.
  pub read_sectors : ℕ → ℕ → List ℕ → Io io.World (ℤ × List ℕ)
  pub flush : Io io.World ℤ

pub record Mounts (io : FileXio) : Type 0 where
  -- `fileXioMount(mountpoint, blockdev, FIO_MT_RDWR)`
  pub mount : List ℕ → List ℕ → Io io.World ℤ
  pub umount : List ℕ → Io io.World ℤ
