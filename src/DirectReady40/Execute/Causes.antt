-- ===== src/DirectReady40/Execute/Causes.antt =====
-- What a finished `dr40_execute` of src/direct_ready40.c reports: disks and file systems that were
-- formatted, file systems that are sound, and the stage that failed.
use repair_box_psx_hdd_setup.Base.{
  ℕ, zero, suc, ◌≤◌, ℤ, pos, negsuc, is_negative, ◌==ℤ◌, eio, ◌≡◌, refl, ap, ◌⊎◌, Bool, true, false,
  not, List, [], ◌∷◌, codes, length, take, ◌||◌, ==_iff, and_elim, if◌then◌else◌, arith,
}
use repair_box_psx_hdd_setup.Base.Stages.{EndsBy}
use repair_box_psx_hdd_setup.Installer.{InstallerResult, AreLeft}
use repair_box_psx_hdd_setup.Bootstrap.Validate.{BootstrapResult}
use repair_box_psx_hdd_setup.Bootstrap.Write.{bootstrap_write_and_verify}
use repair_box_psx_hdd_setup.DirectReady40.{Operation, PfsResult, Dr40Result, Console, fail}
use repair_box_psx_hdd_setup.DirectReady40.Volume.{judge_pfs, ensure_xcontents_directories}
use repair_box_psx_hdd_setup.DirectReady40.Execute.{Session}

-- No success and no failure is reported yet.
abbrev pub IsOpen : Dr40Result → Type 0
IsOpen r = (r.direct_ready40_storage_valid ≡ false) × (r.stopped_on_error ≡ false)

nonzero : (value : ℤ) → ((if value ==ℤ pos 0 then eio else value) ==ℤ pos 0) ≡ false
nonzero (pos zero) = refl
nonzero (pos (suc n)) = ground arith
nonzero (negsuc n) = refl

-- An operation that was made without an error.
abbrev pub IsDone : Operation → Type 0
IsDone o = (o.attempted ≡ true) × (is_negative o.return_value ≡ false)

-- A file system that was found valid: it was mounted, its zones have the size that it was formatted
-- with, its root was opened, listed to its end and closed, and a mount of the check was taken back.
abbrev pub IsSound : PfsResult → Type 0
IsSound p =
    (p.filesystem_valid ≡ true)
    × ((p.mount_owned || p.mount_preexisting) ≡ true)
    × (p.zone_size_result ≡ pos p.zone)
    × (is_negative p.zone_free_result ≡ false)
    × (is_negative p.dopen_result ≡ false)
    × (p.final_dread_result ≡ pos 0)
    × (is_negative p.dclose_result ≡ false)
    × (p.mount_owned ≡ true → is_negative p.umount_result ≡ false)

abbrev pub AreSound : List PfsResult → Type 0
AreSound [] = Unit {0}
AreSound (p ∷ ps) = IsSound p × AreSound ps

pub same_code : (a : ℤ) (n : ℕ) → (a ==ℤ pos n) ≡ true → a ≡ pos n
same_code (pos m) n h = ap pos ((==_iff m n).0 h)
same_code (negsuc m) n h = cc

pub not-true : (b : Bool) → not b ≡ true → b ≡ false
not-true b h = ground arith

unmounted : (owned b : Bool) → not owned || not b ≡ true → owned ≡ true → b ≡ false
unmounted owned b h k = ground arith

pub judge_pfs-IsSound :
    (p : PfsResult) → judge_pfs p ≡ true → IsSound (record p { filesystem_valid = judge_pfs p })
unfolding judge_pfs
judge_pfs-IsSound p h =
    let a = and_elim _ _ h in
    let b = and_elim _ _ a.1 in
    let c = and_elim _ _ b.1 in
    let d = and_elim _ _ c.1 in
    let e = and_elim _ _ d.1 in
    let f = and_elim _ _ e.1 in
    (
      h,
      a.0,
      same_code p.zone_size_result p.zone b.0,
      not-true _ c.0,
      not-true _ d.0,
      same_code p.final_dread_result 0 e.0,
      not-true _ f.0,
      unmounted p.mount_owned (is_negative p.umount_result) f.1,
    )

-- An installation that has not begun.
abbrev pub IsFresh : InstallerResult → Type 0
IsFresh r = (r.system_files_install_valid ≡ false) × AreLeft r.partitions

abbrev pub IsBegun : Session → Type 0
IsBegun s =
    IsOpen s.0 × (length s.0.normal_pfs ≤ 4) × (length s.0.dvr_pfs ≤ 2) × IsFresh s.0.installer

module _ (c : Console) where
  -- A disk that was formatted without an error, in some state of the devices.
  abbrev pub IsDisk : List ℕ → Operation → Type 0
  IsDisk device o =
      IsDone o × ((u : c.io.World) × (o.return_value ≡ (c.volumes.format_disk device u).0))

  -- The same of a file system.
  abbrev pub IsFormatted : Operation → List ℕ → List ℕ → ℕ → Type 0
  IsFormatted o device name zone =
      IsDone o × ((u : c.io.World) × (o.return_value ≡ (c.volumes.format_pfs device name zone u).0))

  abbrev pub AreFormatted : List PfsResult → Type 0
  AreFormatted [] = Unit {0}
  AreFormatted (p ∷ ps) = IsFormatted p.format p.format_device p.blockdev p.zone × AreFormatted ps

  -- The folders of the video partition were made, and the boot prefix was written and read back.
  abbrev pub HasFolders : Dr40Result → Type 0
  HasFolders r =
      (r.dvr_directories_valid ≡ true)
      × ((before : Bool) × (u : c.io.World) × (is_negative
              (ensure_xcontents_directories c before u).0.0
            ≡ false))

  abbrev pub HasPrefix : Dr40Result → Type 0
  HasPrefix r =
      (before : BootstrapResult) × (u : c.io.World) × (is_negative
          (bootstrap_write_and_verify c.io c.drive c.paths c.stack c.samples_buffer c.sector_buffer
            before u).0.0
        ≡ false)
      × (r.bootstrap
          ≡ (bootstrap_write_and_verify c.io c.drive c.paths c.stack c.samples_buffer
              c.sector_buffer before u).0.1)

  -- All disks and file systems were formatted.
  abbrev pub IsPrepared : Dr40Result → Type 0
  IsPrepared r =
      IsDisk (codes "hdd0:") r.apa
      × AreFormatted r.normal_pfs
      × IsDisk (codes "dvr_hdd0:") r.dvr_hdd
      × AreFormatted r.dvr_pfs

  -- The stage that failed, with its operation, and what the stages before it have made.
  pub data Cause (r : Dr40Result) : Type 0 where
    system_disk :
        r.failed_phase ≡ pos 1
        → (r.failure_operation ≡ codes "fileXioFormat_hdd0")
          ⊎ (r.failure_operation ≡ codes "validate_system_layout")
        → Cause r
    normal_file_system :
        (n : ℕ)
        → r.failed_phase ≡ pos n
        → 2 ≤ n
        → n ≤ 5
        → r.failure_operation ≡ codes "format_or_validate_normal_pfs"
        → IsDisk (codes "hdd0:") r.apa
        → Cause r
    video_disk :
        r.failed_phase ≡ pos 6
        → (r.failure_operation ≡ codes "fileXioFormat_dvr_hdd0")
          ⊎ (r.failure_operation ≡ codes "validate_final_dvr_layout")
        → IsDisk (codes "hdd0:") r.apa
        → AreFormatted r.normal_pfs
        → Cause r
    video_file_system :
        (n : ℕ)
        → r.failed_phase ≡ pos n
        → 7 ≤ n
        → n ≤ 8
        → r.failure_operation ≡ codes "format_or_validate_dvr_pfs"
        → IsDisk (codes "hdd0:") r.apa
        → AreFormatted r.normal_pfs
        → IsDisk (codes "dvr_hdd0:") r.dvr_hdd
        → Cause r
    folders :
        r.failed_phase ≡ pos 9
        → r.failure_operation ≡ codes "create_dvr_result_epg"
        → IsPrepared r
        → Cause r
    boot_prefix :
        r.failed_phase ≡ pos 10
        → r.failure_operation ≡ codes "write_or_verify_bootstrap"
        → IsPrepared r
        → HasFolders r
        → Cause r
    package_files :
        r.failed_phase ≡ pos 11
        → r.installer.system_files_install_valid ≡ false
        → IsPrepared r
        → HasFolders r
        → HasPrefix r
        → Cause r
    final_test :
        r.failed_phase ≡ pos 12
        → r.failure_operation ≡ codes "final_validation"
        → r.installer.system_files_install_valid ≡ true
        → IsPrepared r
        → HasFolders r
        → HasPrefix r
        → Cause r

  -- The report of a failure: no success, a result that is not 0, and the stage that failed.
  abbrev pub IsStopped : Dr40Result → Type 0
  IsStopped r =
      (r.direct_ready40_storage_valid ≡ false)
      × (r.stopped_on_error ≡ true)
      × ((r.failure_return ==ℤ pos 0) ≡ false)
      × Cause r

  abbrev pub Fails : Session → Type 0
  Fails s = IsStopped s.0

  abbrev pub Outcome : (Session → Type 0) → Bool × Session → Type 0
  Outcome Q out = EndsBy Fails Q out

  pub fail-IsStopped :
      (r : Dr40Result) (n : ℕ) (partition path operation : List ℕ) (value : ℤ)
      → IsOpen r
      → Cause (record r {
        stopped_on_error = true;
        failed_phase = pos n;
        failure_return = if value ==ℤ pos 0 then eio else value;
        failure_partition = take 31 partition;
        failure_path = take 1023 path;
        failure_operation = take 63 operation;
      })
      → IsStopped (fail r n partition path operation value)
  unfolding fail
  fail-IsStopped r n partition path operation value h k = rw h.1 (h.0, refl, nonzero value, k)
