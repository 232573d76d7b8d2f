-- ===== src/Bootflag/Scan/Bounds.antt =====
-- The table of unknown keys of `bootflag_inspect_image` of src/bootflag.c: it never overflows.
use repair_box_psx_hdd_setup.Base.{
  ℕ, zero, suc, ◌+◌, ◌*◌, ◌≤◌, ◌≡◌, refl, ap, true, false, some, List, [], ◌∷◌, ◌++◌, length, take,
  drop, length-append, length-take, ltb, lt→ltb, ◌==◌, arith, Bool-cases, Option-cases, inl, inr,
}
use repair_box_psx_hdd_setup.Bootflag.Scan.Keys.{IsSplit, split_key-IsSplit}
use repair_box_psx_hdd_setup.Bootflag.Scan.{
  KeyKind, bootmode_key, bootmode_conflict, repartition_key, repartition_conflict, contents_key,
  contents_conflict, unknown_key, KeyScan, classify, count_key, split_key, all_zero, scan_keys,
  empty_scan, bootflag_inspect_image,
}

-- Every unknown key has its entry, and each has taken two bytes of the payload at least.
record IsRecorded (offset : ℕ) (s : KeyScan) : Type 0 where
  offsets : length s.unknown_key_offsets ≡ s.unknown_key_count
  lengths : length s.unknown_key_lengths ≡ s.unknown_key_count
  room : 2 * s.unknown_key_count ≤ offset

split_key-length :
    (x : ℕ) (xs key rest : List ℕ)
    → (x == 0) ≡ false
    → split_key (x ∷ xs) ≡ some (key, rest)
    → (suc (length xs) ≡ length key + 1 + length rest) × (1 ≤ length key)
split_key-length x xs [] rest z h =
    absurd (ground (arith, IsSplit.joined (split_key-IsSplit (x ∷ xs) [] rest h)))
split_key-length x xs (y ∷ key) rest z h =
    let joined : length (x ∷ xs) ≡ length ((y ∷ key) ++ (0 ∷ rest)) =
      ap (λ t. length t) (IsSplit.joined (split_key-IsSplit (x ∷ xs) (y ∷ key) rest h)) in
    (omega (arith, joined, length-append {0} (y ∷ key) (0 ∷ rest)), omega arith)

count_key-IsRecorded :
    (kind : KeyKind) (offset : ℕ) (key : List ℕ) (s : KeyScan)
    → 1 ≤ length key
    → offset + length key + 1 ≤ 492
    → IsRecorded offset s
    → IsRecorded (offset + length key + 1) (count_key offset key kind s)
unfolding count_key
count_key-IsRecorded bootmode_key offset key s l h r = record {
  offsets = r.offsets;
  lengths = r.lengths;
  room = omega (arith, r.room);
}
count_key-IsRecorded bootmode_conflict offset key s l h r = record {
  offsets = r.offsets;
  lengths = r.lengths;
  room = omega (arith, r.room);
}
count_key-IsRecorded repartition_key offset key s l h r = record {
  offsets = r.offsets;
  lengths = r.lengths;
  room = omega (arith, r.room);
}
count_key-IsRecorded repartition_conflict offset key s l h r = record {
  offsets = r.offsets;
  lengths = r.lengths;
  room = omega (arith, r.room);
}
count_key-IsRecorded contents_key offset key s l h r = record {
  offsets = r.offsets;
  lengths = r.lengths;
  room = omega (arith, r.room);
}
count_key-IsRecorded contents_conflict offset key s l h r = record {
  offsets = r.offsets;
  lengths = r.lengths;
  room = omega (arith, r.room);
}
count_key-IsRecorded unknown_key offset key s l h r =
    let fits : ltb s.unknown_key_count 246 ≡ true =
      lt→ltb s.unknown_key_count 246 (omega (arith, r.room)) in
    let one = length-append {0} s.unknown_key_offsets (offset ∷ []) in
    let two = length-append {0} s.unknown_key_lengths (length key ∷ []) in
    rw fits record {
      offsets = omega (arith, one, r.offsets);
      lengths = omega (arith, two, r.lengths);
      room = omega (arith, r.room);
    }

widen : (offset : ℕ) (s : KeyScan) → offset ≤ 492 → IsRecorded offset s → IsRecorded 492 s
widen offset s h r = record {
  offsets = r.offsets;
  lengths = r.lengths;
  room = omega (arith, r.room);
}

scan_keys-IsRecorded :
    (fuel offset : ℕ) (rest : List ℕ) (s : KeyScan)
    → offset + length rest ≤ 492
    → IsRecorded offset s
    → IsRecorded 492 (scan_keys fuel offset rest s)
unfolding scan_keys
scan_keys-IsRecorded zero offset rest s h r = widen offset s (omega arith) r
scan_keys-IsRecorded (suc fuel) offset [] s h r = widen offset s (omega arith) r
scan_keys-IsRecorded (suc fuel) offset (x ∷ rest) s h r = elim (Bool-cases (x == 0)) [
  | inl z ↦ elim (Bool-cases (all_zero (x ∷ rest))) [
    | inl zs ↦
        let w = widen offset s (omega arith) r in
        rw (z, zs) record { offsets = w.offsets; lengths = w.lengths; room = w.room }
    | inr zs ↦ rw (z, zs) (widen offset s (omega arith) r)
  ]
  | inr z ↦ elim (Option-cases (split_key (x ∷ rest))) [
    | inl e ↦ rw (z, e) (widen offset s (omega arith) r)
    | inr ((key, rest'), e) ↦
        let l = split_key-length x rest key rest' z e in
        rw (z, e)
          (scan_keys-IsRecorded fuel (offset + length key + 1) rest'
            (count_key offset key (classify key) s) (omega (arith, l.0))
            (count_key-IsRecorded (classify key) offset key s l.1 (omega (arith, l.0)) r))
  ]
]

-- In every image there are at most 246 unknown keys, so each of them has its entry in the two tables
-- of 246 entries.
pub unknown_keys_fit :
    (bytes : List ℕ) (size : ℕ)
    → let scan = (bootflag_inspect_image bytes size).scan in
      (scan.unknown_key_count ≤ 246)
      × (length scan.unknown_key_offsets ≡ scan.unknown_key_count)
      × (length scan.unknown_key_lengths ≡ scan.unknown_key_count)
unfolding bootflag_inspect_image
unknown_keys_fit bytes size =
    let payload : List ℕ = take 492 (drop 20 bytes) in
    let start : IsRecorded 0 empty_scan = record {
      offsets = refl;
      lengths = refl;
      room = omega arith;
    } in
    let r =
      scan_keys-IsRecorded 492 0 payload empty_scan
        (omega (arith, length-take {0} 492 (drop 20 bytes))) start in
    elim (Bool-cases (size == 512)) [
      | inl e ↦ rw e (omega (arith, r.room), r.offsets, r.lengths)
      | inr e ↦ rw e (omega arith, refl, refl)
    ]
