-- ===== src/Bootflag/ReadOnly/Agreement.antt =====
-- The parsers of src/bootflag_ro.c and src/bootflag.c agree on every image.
use repair_box_psx_hdd_setup.Base.{
  ℕ, zero, suc, ◌+◌, ◌≡◌, refl, ap, ◌∙◌, Bool, true, false, ◌||◌, List, [], ◌∷◌, length, take, drop,
  ◌==◌, if◌then◌else◌, eq_bytes, arith, Bool-cases, Option-cases, inl, inr,
}
use repair_box_psx_hdd_setup.Bootflag.Scan.{
  BootflagState, normal, pending_40gb, invalid, KeyKind, bootmode_key, bootmode_conflict,
  repartition_key, repartition_conflict, contents_key, contents_conflict, unknown_key, KeyScan,
  classify, count_key, split_key, all_zero, scan_keys, empty_scan, classify_scan,
  bootflag_inspect_image,
}
use repair_box_psx_hdd_setup.Bootflag.ReadOnly.{
  RoState, ro_normal, ro_pending_40gb, ro_invalid, RoScan, RoResult, ro_count_key, ro_scan_keys,
  ro_state, ro_inspect_image, ro_sha1,
}

-- What the second parser keeps of the first one's scan.
abbrev pub summary : KeyScan → RoScan
summary s = record {
  bootmode_count = s.bootmode_count;
  repartition_count = s.repartition_count;
  contents_count = s.contents_count;
  payload_valid = s.payload_valid;
  bootmode_normal = s.bootmode_normal;
  repartition_40 = s.repartition_40;
  contents_1 = s.contents_1;
  conflicting_value = s.conflicting_value;
  unknown_key_count = s.unknown_key_count;
}

-- The same state under the second parser's name.
abbrev pub ro_of : BootflagState → RoState
ro_of normal = ro_normal
ro_of pending_40gb = ro_pending_40gb
ro_of invalid = ro_invalid

conflict_eq : (a b : Bool) → (if a then true else b) ≡ a || b
conflict_eq true b = refl
conflict_eq false b = refl

ro_count_key-summary :
    (kind : KeyKind) (offset : ℕ) (key : List ℕ) (s : KeyScan)
    → ro_count_key kind (summary s) ≡ summary (count_key offset key kind s)
unfolding ro_count_key count_key
ro_count_key-summary bootmode_key offset key s = rw (conflict_eq _ s.conflicting_value) refl
ro_count_key-summary bootmode_conflict offset key s = refl
ro_count_key-summary repartition_key offset key s = rw (conflict_eq _ s.conflicting_value) refl
ro_count_key-summary repartition_conflict offset key s = refl
ro_count_key-summary contents_key offset key s = rw (conflict_eq _ s.conflicting_value) refl
ro_count_key-summary contents_conflict offset key s = refl
ro_count_key-summary unknown_key offset key s = refl

ro_scan_keys-summary :
    (fuel offset : ℕ) (rest : List ℕ) (s : KeyScan)
    → ro_scan_keys fuel rest (summary s) ≡ summary (scan_keys fuel offset rest s)
unfolding ro_scan_keys scan_keys
ro_scan_keys-summary zero offset rest s = refl
ro_scan_keys-summary (suc fuel) offset [] s = refl
ro_scan_keys-summary (suc fuel) offset (x ∷ rest) s = elim (Bool-cases (x == 0)) [
  | inl z ↦ elim (Bool-cases (all_zero (x ∷ rest))) [
    | inl zs ↦ rw (z, zs) refl
    | inr zs ↦ rw (z, zs) refl
  ]
  | inr z ↦ elim (Option-cases (split_key (x ∷ rest))) [
    | inl e ↦ rw (z, e) refl
    | inr (p, e) ↦
        rw (z, e)
          (ap (λ t. ro_scan_keys fuel p.1 t) (ro_count_key-summary (classify p.0) offset p.0 s)
            ∙ ro_scan_keys-summary fuel (offset + length p.0 + 1) p.1
                (count_key offset p.0 (classify p.0) s))
  ]
]

ro_state-classify_scan :
    (s : KeyScan) (ok : Bool)
    → ro_state (summary s) ok
      ≡ (if s.unknown_key_count == 0 then ro_of (classify_scan s ok) else ro_invalid)
unfolding ro_state classify_scan
ro_state-classify_scan s ok = ground arith

-- On the same 512 bytes the two parsers find the same digest, flags and number of unknown keys, and
-- the second finds the state of the first, unless there is an unknown key: then it is INVALID.
pub parsers_agree :
    (bytes : List ℕ) (result : RoResult)
    → let r = ro_inspect_image bytes result in
      let i = bootflag_inspect_image bytes 512 in
      (r.calculated_digest ≡ i.calculated_digest)
      × (r.sha1_valid ≡ i.sha1_valid)
      × (r.scan ≡ summary i.scan)
      × (r.state ≡ (if i.scan.unknown_key_count == 0 then ro_of i.state else ro_invalid))
unfolding ro_inspect_image bootflag_inspect_image ro_sha1
parsers_agree bytes result =
    let payload : List ℕ = take 492 (drop 20 bytes) in
    let scan = ro_scan_keys-summary 492 0 payload empty_scan in
    let ok : Bool = eq_bytes (take 20 bytes) (ro_sha1 payload) in
    (
      refl,
      refl,
      scan,
      ap (λ t. ro_state t ok) scan ∙ ro_state-classify_scan (scan_keys 492 0 payload empty_scan) ok,
    )
