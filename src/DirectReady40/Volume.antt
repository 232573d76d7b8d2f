-- ===== src/DirectReady40/Volume.antt =====
-- The file systems of src/direct_ready40.c: `validate_pfs_read_only`, `format_and_validate_pfs` and the
-- folders of the video partition.
use repair_box_psx_hdd_setup.Base.{
  ℕ, zero, suc, ℤ, pos, negsuc, is_negative, ◌==ℤ◌, eio, ebusy, Bool, true, false, not, ◌&&◌, ◌||◌,
  Option, none, some, List, [], ◌∷◌, codes, eq_bytes, if◌then◌else◌,
}
use repair_box_psx_hdd_setup.Base.Io.{Io}
use repair_box_psx_hdd_setup.FileXio.{dread_error, dread_end, dread_entry}
use repair_box_psx_hdd_setup.DirectReady40.{PfsResult, Console}

abbrev pub is_dvr : PfsResult → Bool
is_dvr p = eq_bytes p.format_device (codes "dvr_pfs:")

-- What the check of a file system resets.
abbrev pub unchecked : PfsResult → PfsResult
unchecked p = record p {
  mount_preexisting = false;
  mount_owned = false;
  umount_attempted = false;
  umount_result = negsuc 0;
  zone_size_result = negsuc 0;
  zone_free_result = negsuc 0;
  dopen_result = negsuc 0;
  final_dread_result = negsuc 0;
  dclose_result = negsuc 0;
}

unfoldable pub judge_pfs : PfsResult → Bool
judge_pfs p =
    (p.mount_owned || p.mount_preexisting)
    && ((p.zone_size_result ==ℤ pos p.zone)
        && (not (is_negative p.zone_free_result)
            && (not (is_negative p.dopen_result)
                && ((p.final_dread_result ==ℤ pos 0)
                    && (not (is_negative p.dclose_result)
                        && (not p.mount_owned || not (is_negative p.umount_result)))))))

-- The result with which a step failed.
unfoldable pub pfs_failure_return : PfsResult → ℤ
pfs_failure_return p =
    if is_negative p.format.return_value
    then p.format.return_value
    else if is_negative p.mount_result && not (is_dvr p && (p.mount_result ==ℤ ebusy))
    then p.mount_result
    else if is_negative p.zone_size_result
    then p.zone_size_result
    else if not (p.zone_size_result ==ℤ pos p.zone)
    then eio
    else if is_negative p.zone_free_result
    then p.zone_free_result
    else if is_negative p.dopen_result
    then p.dopen_result
    else if is_negative p.final_dread_result
    then p.final_dread_result
    else if is_negative p.dclose_result
    then p.dclose_result
    else if p.umount_attempted && is_negative p.umount_result
    then p.umount_result
    else eio

-- The folders of the video partition.
abbrev pub xcontents_paths : List (List ℕ)
xcontents_paths = codes "dvr_pfs0:/dvr" ∷ codes "dvr_pfs0:/result" ∷ codes "dvr_pfs0:/epg" ∷ []

module _ (c : Console) where
  -- The loop over the root of a file system: the last result. Where the fuel is used up it is -EIO.
  unfoldable pub drain : ℕ → ℤ → Io c.io.World ℤ
  drain zero fd w = (eio, w)
  drain (suc left) fd w =
      let (read, w') = c.io.dread fd w in
      elim read [
        | dread_error n ↦ (negsuc n, w')
        | dread_end ↦ (pos 0, w')
        | dread_entry e ↦ drain left fd w'
      ]

  unfoldable pub list_root : PfsResult → Io c.io.World PfsResult
  list_root p w =
      let (fd, w1) = c.io.dopen p.root_path w in
      let (last, w2) = drain c.fuel fd w1 in
      let (closed, w3) = c.io.dclose fd w2 in
      let opened = record p { dopen_result = fd } in
      if is_negative fd
      then (opened, w1)
      else (record opened { final_dread_result = last; dclose_result = closed }, w3)

  -- A mounted file system is asked for its zones and listed; a mount of this call is taken back.
  unfoldable pub check_mounted : PfsResult → Io c.io.World PfsResult
  check_mounted p w =
      let (size, w1) = c.volumes.zone_size p.mountpoint w in
      let (free, w2) = c.volumes.zone_free p.mountpoint w1 in
      let (listed, w3) =
        list_root (record p { zone_size_result = size; zone_free_result = free }) w2 in
      let (code, w4) = c.mounts.umount p.mountpoint w3 in
      if p.mount_owned
      then (record listed { umount_attempted = true; umount_result = code }, w4)
      else (listed, w3)

  abbrev judged : PfsResult × c.io.World → (Bool × PfsResult) × c.io.World
  judged (p, w) = ((judge_pfs p, record p { filesystem_valid = judge_pfs p }), w)

  unfoldable pub validate_pfs_read_only : PfsResult → Io c.io.World (Bool × PfsResult)
  validate_pfs_read_only p w =
      let (code, w1) = c.volumes.mount_read_only p.mountpoint p.blockdev w in
      let tried = record (unchecked p) { mount_result = code } in
      let owned = judged (check_mounted (record tried { mount_owned = true }) w1) in
      let preexisting = judged (check_mounted (record tried { mount_preexisting = true }) w1) in
      if not (is_negative code)
      then owned
      else if is_dvr p && (code ==ℤ ebusy)
      then preexisting
      else ((false, tried), w1)

  unfoldable pub format_and_validate_pfs : PfsResult → Io c.io.World (Bool × PfsResult)
  format_and_validate_pfs p w =
      let (code, w1) = c.volumes.format_pfs p.format_device p.blockdev p.zone w in
      let formatted = record p {
        format = record p.format { attempted = true; return_value = code };
      } in
      let ((valid, checked), w2) = validate_pfs_read_only formatted w1 in
      if is_negative code
      then ((false, formatted), w1)
      else ((valid, record checked { format = record checked.format { valid = valid } }), w2)

  -- The file systems, one after the other, from the stage of this number on: the results, and the
  -- stage that failed with its file system.
  unfoldable pub format_each :
      ℕ → List PfsResult → Io c.io.World (List PfsResult × Option (ℕ × PfsResult))
  format_each stage [] w = (([], none), w)
  format_each stage (p ∷ ps) w =
      let ((valid, p'), w1) = format_and_validate_pfs p w in
      let ((rest, failed), w2) = format_each (suc stage) ps w1 in
      if valid then ((p' ∷ rest, failed), w2) else ((p' ∷ ps, some (stage, p')), w1)

  -- The final checks, all of them: the results, and whether each is valid.
  unfoldable pub validate_each : List PfsResult → Io c.io.World (List PfsResult × Bool)
  validate_each [] w = (([], true), w)
  validate_each (p ∷ ps) w =
      let ((valid, p'), w1) = validate_pfs_read_only p w in
      let ((rest, all), w2) = validate_each ps w1 in ((p' ∷ rest, valid && all), w2)

  unfoldable pub ensure_directory : List ℕ → Io c.io.World ℤ
  ensure_directory path w =
      let (made, w1) = c.io.mkdir path w in
      let (fd, w2) = c.io.dopen path w1 in
      let (closed, w3) = c.io.dclose fd w2 in
      if not (is_negative made)
      then (pos 0, w1)
      else if is_negative fd
      then (made, w2)
      else (if is_negative closed then eio else pos 0, w3)

  unfoldable pub open_directory : List ℕ → Io c.io.World ℤ
  open_directory path w =
      let (fd, w1) = c.io.dopen path w in
      let (closed, w2) = c.io.dclose fd w1 in if is_negative fd then (fd, w1) else (closed, w2)

  -- The folders, while the result is not negative.
  unfoldable pub each_directory : (List ℕ → Io c.io.World ℤ) → ℤ → List (List ℕ) → Io c.io.World ℤ
  each_directory visit last [] w = (last, w)
  each_directory visit last (path ∷ paths) w =
      let (code, w') = visit path w in
      let rest = each_directory visit code paths w' in if is_negative code then (code, w') else rest

  -- The result, and the field `dvr_directories_valid`, which is `valid` before.
  unfoldable pub ensure_xcontents_directories : Bool → Io c.io.World (ℤ × Bool)
  ensure_xcontents_directories valid w =
      let (mounted, w1) = c.mounts.mount (codes "dvr_pfs0:") (codes "dvr_hdd0:__xcontents") w in
      let (code, w2) = each_directory ensure_directory (pos 0) xcontents_paths w1 in
      let (unmounted, w3) = c.mounts.umount (codes "dvr_pfs0:") w2 in
      let last = if not (is_negative code) && is_negative unmounted then unmounted else code in
      if is_negative mounted && not (mounted ==ℤ ebusy)
      then ((mounted, valid), w1)
      else if is_negative mounted
      then ((code, not (is_negative code)), w2)
      else ((last, not (is_negative last)), w3)

  unfoldable pub validate_xcontents_directories : Io c.io.World Bool
  validate_xcontents_directories w =
      let (mounted, w1) =
        c.volumes.mount_read_only (codes "dvr_pfs0:") (codes "dvr_hdd0:__xcontents") w in
      let (code, w2) = each_directory open_directory (pos 0) xcontents_paths w1 in
      let (unmounted, w3) = c.mounts.umount (codes "dvr_pfs0:") w2 in
      if is_negative mounted && not (mounted ==ℤ ebusy)
      then (false, w1)
      else if is_negative mounted
      then (not (is_negative code), w2)
      else (not (is_negative (if is_negative unmounted then eio else code)), w3)
