-- ===== src/Bootflag/ReadOnly.antt =====
-- src/bootflag_ro.c: the second parser of the image, with which the repair of a drive asks for the
-- state of the flash before it writes.
pub mod Agreement
use mathlib.Core.Option
use repair_box_psx_hdd_setup.Base.{
  ℕ, zero, suc, ◌+◌, ℤ, pos, negsuc, is_negative, ◌==ℤ◌, Bool, true, false, not, ◌&&◌, ◌||◌, none,
  some, List, [], ◌∷◌, take, drop, replicate, ltb, ◌==◌, if◌then◌else◌, eq_bytes,
}
use repair_box_psx_hdd_setup.Base.Io.{Io}
use repair_box_psx_hdd_setup.Hash.Sha1.{bootflag_sha1}
use repair_box_psx_hdd_setup.FileXio.{FileXio}
use repair_box_psx_hdd_setup.Activation.Read.{bootflag_path, positive, read_extra, read_loop}
use repair_box_psx_hdd_setup.Bootflag.Scan.{
  KeyKind, bootmode_key, bootmode_conflict, repartition_key, repartition_conflict, contents_key,
  contents_conflict, unknown_key, classify, split_key, all_zero,
}

pub data RoState : Type 0 where
  ro_normal ro_pending_40gb ro_invalid : RoState

-- `sha1` and the functions that it calls are copies of those of src/bootflag.c.
unfoldable pub ro_sha1 : List ℕ → List ℕ
ro_sha1 input = bootflag_sha1 input

-- The counters of the parser and the fields of the result that its loop writes.
pub record RoScan : Type 0 where
  pub bootmode_count : ℕ
  pub repartition_count : ℕ
  pub contents_count : ℕ
  pub payload_valid : Bool
  pub bootmode_normal : Bool
  pub repartition_40 : Bool
  pub contents_1 : Bool
  pub conflicting_value : Bool
  pub unknown_key_count : ℕ

abbrev pub ro_empty_scan : RoScan
ro_empty_scan = record {
  bootmode_count = 0;
  repartition_count = 0;
  contents_count = 0;
  payload_valid = false;
  bootmode_normal = false;
  repartition_40 = false;
  contents_1 = false;
  conflicting_value = false;
  unknown_key_count = 0;
}

-- The tests of the keys stand in the order of src/bootflag.c's, so `classify` is theirs too.
unfoldable pub ro_count_key : KeyKind → RoScan → RoScan
ro_count_key bootmode_key s = record s {
  bootmode_normal = true;
  bootmode_count = s.bootmode_count + 1;
  conflicting_value = if ltb 1 (s.bootmode_count + 1) then true else s.conflicting_value;
}
ro_count_key bootmode_conflict s = record s { conflicting_value = true }
ro_count_key repartition_key s = record s {
  repartition_40 = true;
  repartition_count = s.repartition_count + 1;
  conflicting_value = if ltb 1 (s.repartition_count + 1) then true else s.conflicting_value;
}
ro_count_key repartition_conflict s = record s { conflicting_value = true }
ro_count_key contents_key s = record s {
  contents_1 = true;
  contents_count = s.contents_count + 1;
  conflicting_value = if ltb 1 (s.contents_count + 1) then true else s.conflicting_value;
}
ro_count_key contents_conflict s = record s { conflicting_value = true }
ro_count_key unknown_key s = record s { unknown_key_count = s.unknown_key_count + 1 }

-- The loop over the payload, whose size is fuel enough.
unfoldable pub ro_scan_keys : ℕ → List ℕ → RoScan → RoScan
ro_scan_keys zero rest s = s
ro_scan_keys (suc fuel) [] s = s
ro_scan_keys (suc fuel) (x ∷ rest) s =
    if x == 0
    then (if all_zero (x ∷ rest) then record s { payload_valid = true } else s)
    else elim (split_key (x ∷ rest)) [
      | none ↦ s
      | some (key, rest') ↦ ro_scan_keys fuel rest' (ro_count_key (classify key) s)
    ]

unfoldable pub ro_state : RoScan → Bool → RoState
ro_state s sha1_valid =
    if not s.payload_valid
      || (not sha1_valid
          || (s.conflicting_value
              || (not (s.bootmode_count == 1) || not (s.unknown_key_count == 0))))
    then ro_invalid
    else if (s.repartition_count == 0) && (s.contents_count == 0)
    then ro_normal
    else if (s.repartition_count == 1) && (s.contents_count == 1)
    then ro_pending_40gb
    else ro_invalid

pub record RoResult : Type 0 where
  pub open_result : ℤ
  pub final_read_result : ℤ
  pub extra_read_result : ℤ
  pub close_result : ℤ
  pub size : ℕ
  pub present : Bool
  pub sha1_valid : Bool
  pub scan : RoScan
  pub state : RoState
  pub pending_40gb_preserved : Bool
  pub calculated_digest : List ℕ

abbrev pub ro_start : RoResult
ro_start = record {
  open_result = negsuc 0;
  final_read_result = negsuc 0;
  extra_read_result = negsuc 0;
  close_result = negsuc 0;
  size = 0;
  present = false;
  sha1_valid = false;
  scan = ro_empty_scan;
  state = ro_invalid;
  pending_40gb_preserved = false;
  calculated_digest = replicate 20 0;
}

unfoldable pub ro_inspect_image : List ℕ → RoResult → RoResult
ro_inspect_image bytes result =
    let payload = take 492 (drop 20 bytes) in
    let digest = ro_sha1 payload in
    let valid = eq_bytes (take 20 bytes) digest in
    let scan = ro_scan_keys 492 payload ro_empty_scan in
    record result {
      calculated_digest = digest;
      sha1_valid = valid;
      scan = scan;
      state = ro_state scan valid;
    }

-- A pending image may count as NORMAL, where a reinstallation is allowed.
unfoldable pub preserve_pending : Bool → RoState → RoResult → RoResult
preserve_pending true ro_pending_40gb result = record result {
  pending_40gb_preserved = true;
  state = ro_normal;
}
preserve_pending _ _ result = result

-- `allow` is the file's static variable, which `bootflag_ro_allow_pending_reinstall` sets; `stack` is
-- what the buffer, which is not initialised, holds. The loop that reads is that of src/activation.c.
unfoldable pub bootflag_ro_inspect : (io : FileXio) → List ℕ → Bool → Io io.World RoResult
bootflag_ro_inspect io stack allow w =
    let (fd, w1) = io.open_read bootflag_path w in
    if is_negative fd
    then (record ro_start { open_result = fd }, w1)
    else let (s, w2) =
        read_loop io 512 fd (record { buffer = stack; offset = 0; last_result = negsuc 0 }) w1 in
      let full = s.offset == 512 in
      let (extra, w3) = if full then read_extra io fd w2 else (negsuc 0, w2) in
      let (closed, w4) = io.close fd w3 in
      let result : RoResult = record ro_start {
        open_result = fd;
        present = true;
        final_read_result = s.last_result;
        extra_read_result = extra;
        close_result = closed;
        size = s.offset + (if ltb 0 (positive extra) then 1 else 0);
      } in
      let inspected =
        if full && ((extra ==ℤ pos 0) && not (is_negative closed))
        then ro_inspect_image s.buffer result
        else result in
      (preserve_pending allow inspected.state inspected, w4)
