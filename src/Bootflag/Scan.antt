-- ===== src/Bootflag/Scan.antt =====
-- `bootflag_inspect_image` of src/bootflag.c.
pub mod Keys
pub mod Counts
pub mod Bounds
pub mod States
use mathlib.Core.Option
use repair_box_psx_hdd_setup.Base.{
  ℕ, zero, suc, ◌+◌, ℤ, negsuc, Bool, true, false, not, ◌&&◌, ◌||◌, Option, none, some, List, [],
  ◌∷◌, ◌++◌, length, take, drop, replicate, ltb, ◌==◌, if◌then◌else◌, codes, eq_bytes, has_prefix,
}
use repair_box_psx_hdd_setup.Hash.Sha1.{bootflag_sha1}

pub data BootflagState : Type 0 where
  normal pending_40gb invalid : BootflagState

-- What the keys of a payload are to the parser, in the order of its tests.
pub data KeyKind : Type 0 where
  bootmode_key bootmode_conflict repartition_key repartition_conflict : KeyKind
  contents_key contents_conflict unknown_key : KeyKind

-- `key_equals` and `key_has_prefix` are `eq_bytes` and `has_prefix` of the key's bytes.
unfoldable pub classify : List ℕ → KeyKind
classify key =
    if eq_bytes key (codes "BOOTMODE=Normal")
    then bootmode_key
    else if has_prefix key (codes "BOOTMODE=")
    then bootmode_conflict
    else if eq_bytes key (codes "repartition=40")
    then repartition_key
    else if has_prefix key (codes "repartition=")
    then repartition_conflict
    else if eq_bytes key (codes "contents=1")
    then contents_key
    else if has_prefix key (codes "contents=")
    then contents_conflict
    else unknown_key

-- BOOTFLAG_MAX_PAYLOAD_KEYS
abbrev pub max_payload_keys : ℕ
max_payload_keys = 246

-- The counters of the parser and the fields of the inspection that its loop writes.
pub record KeyScan : Type 0 where
  pub bootmode_count : ℕ
  pub repartition_count : ℕ
  pub contents_count : ℕ
  pub payload_valid : Bool
  pub bootmode_normal : Bool
  pub repartition_40 : Bool
  pub contents_1 : Bool
  pub conflicting_value : Bool
  pub unknown_key_count : ℕ
  pub unknown_key_offsets : List ℕ
  pub unknown_key_lengths : List ℕ

-- `inspection->conflicting_value = 1` where the count is above 1.
unfoldable pub count_key : ℕ → List ℕ → KeyKind → KeyScan → KeyScan
count_key offset key bootmode_key s = record s {
  bootmode_count = s.bootmode_count + 1;
  bootmode_normal = true;
  conflicting_value = ltb 1 (s.bootmode_count + 1) || s.conflicting_value;
}
count_key offset key bootmode_conflict s = record s { conflicting_value = true }
count_key offset key repartition_key s = record s {
  repartition_count = s.repartition_count + 1;
  repartition_40 = true;
  conflicting_value = ltb 1 (s.repartition_count + 1) || s.conflicting_value;
}
count_key offset key repartition_conflict s = record s { conflicting_value = true }
count_key offset key contents_key s = record s {
  contents_count = s.contents_count + 1;
  contents_1 = true;
  conflicting_value = ltb 1 (s.contents_count + 1) || s.conflicting_value;
}
count_key offset key contents_conflict s = record s { conflicting_value = true }
count_key offset key unknown_key s =
    let fits = ltb s.unknown_key_count max_payload_keys in
    record s {
      unknown_key_count = s.unknown_key_count + 1;
      unknown_key_offsets =
          if fits then s.unknown_key_offsets ++ (offset ∷ []) else s.unknown_key_offsets;
      unknown_key_lengths =
          if fits then s.unknown_key_lengths ++ (length key ∷ []) else s.unknown_key_lengths;
    }

-- The bytes up to the next NUL and those behind it; `none` where no NUL follows.
unfoldable pub split_key : List ℕ → Option (List ℕ × List ℕ)
split_key [] = none
split_key (x ∷ xs) =
    if x == 0
    then some ([], xs)
    else elim (split_key xs) [ none ↦ none | some (key, rest) ↦ some (x ∷ key, rest) ]

unfoldable pub all_zero : List ℕ → Bool
all_zero [] = true
all_zero (x ∷ xs) = (x == 0) && all_zero xs

-- The loop over the payload from `offset` on. A key takes at least one byte and its NUL, so the size
-- of the payload is fuel enough. An early `return` leaves `payload_valid` at 0, and so is a return
-- of the scan as it stands.
unfoldable pub scan_keys : ℕ → ℕ → List ℕ → KeyScan → KeyScan
scan_keys zero offset rest s = s
scan_keys (suc fuel) offset [] s = s
scan_keys (suc fuel) offset (x ∷ rest) s =
    if x == 0
    then (if all_zero (x ∷ rest) then record s { payload_valid = true } else s)
    else elim (split_key (x ∷ rest)) [
      | none ↦ s
      | some (key, rest') ↦
          scan_keys fuel (offset + length key + 1) rest' (count_key offset key (classify key) s)
    ]

abbrev pub empty_scan : KeyScan
empty_scan = record {
  bootmode_count = 0;
  repartition_count = 0;
  contents_count = 0;
  payload_valid = false;
  bootmode_normal = false;
  repartition_40 = false;
  contents_1 = false;
  conflicting_value = false;
  unknown_key_count = 0;
  unknown_key_offsets = [];
  unknown_key_lengths = [];
}

-- The state, from the scan and the comparison of the digests.
unfoldable pub classify_scan : KeyScan → Bool → BootflagState
classify_scan s sha1_valid =
    if not s.payload_valid
      || (not sha1_valid || (s.conflicting_value || not (s.bootmode_count == 1)))
    then invalid
    else if (s.repartition_count == 0) && (s.contents_count == 0)
    then normal
    else if (s.repartition_count == 1) && (s.contents_count == 1)
    then pending_40gb
    else invalid

-- The four results of the calls that read the file are set by the callers.
pub record Inspection : Type 0 where
  pub open_result : ℤ
  pub final_read_result : ℤ
  pub extra_read_result : ℤ
  pub close_result : ℤ
  pub size : ℕ
  pub present : Bool
  pub sha1_valid : Bool
  pub scan : KeyScan
  pub state : BootflagState
  pub payload : List ℕ
  pub calculated_digest : List ℕ

abbrev pub empty_inspection : ℕ → Inspection
empty_inspection size = record {
  open_result = negsuc 0;
  final_read_result = negsuc 0;
  extra_read_result = negsuc 0;
  close_result = negsuc 0;
  size = size;
  present = false;
  sha1_valid = false;
  scan = empty_scan;
  state = invalid;
  payload = replicate 492 0;
  calculated_digest = replicate 20 0;
}

-- `bytes` is never NULL in the program's calls.
unfoldable pub bootflag_inspect_image : List ℕ → ℕ → Inspection
bootflag_inspect_image bytes size =
    let payload = take 492 (drop 20 bytes) in
    let digest = bootflag_sha1 payload in
    let sha1_valid = eq_bytes (take 20 bytes) digest in
    let scan = scan_keys 492 0 payload empty_scan in
    if size == 512
    then record (empty_inspection size) {
      payload = payload;
      calculated_digest = digest;
      sha1_valid = sha1_valid;
      scan = scan;
      state = classify_scan scan sha1_valid;
    }
    else empty_inspection size
