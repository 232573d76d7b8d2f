-- ===== src/Bootflag/Scan/States.antt =====
-- What the three states of `bootflag_inspect_image` say of the image, and the bound on the table of
-- unknown keys.
use repair_box_psx_hdd_setup.Base.{
  ℕ, ◌≤◌, ◌≡◌, refl, sym, ap, ◌∙◌, ◌↔◌, ◌⊎◌, inl, inr, Bool, true, false, List, length, length-take,
  take, drop, eq_bytes, eq_bytes_iff, arith,
}
use repair_box_psx_hdd_setup.Hash.Sha1.{bootflag_sha1}
use repair_box_psx_hdd_setup.Bootflag.Scan.{
  BootflagState, normal, pending_40gb, KeyScan, empty_scan, scan_keys, classify_scan,
  bootflag_inspect_image,
}
use repair_box_psx_hdd_setup.Bootflag.Scan.Keys.{
  IsPayload, count_keys, scan_keys-IsPayload, scan_keys-print_keys,
}
use repair_box_psx_hdd_setup.Bootflag.Scan.Counts.{
  count_if, is_bootmode, is_repartition, is_contents, is_conflict, count_keys-Totals,
  conflict-IsCalm, IsCalm-conflict,
}

-- A payload of keys, with zeros behind them: the setting for the boot mode stands there once, those
-- for the 40 GB repartitioning `r` times each, and none of the three with another value.
pub record Settles (payload : List ℕ) (r : ℕ) : Type 0 where
  pub keys : List (List ℕ)
  pub zeros : ℕ
  pub shape : IsPayload payload keys zeros
  pub bootmode : count_if is_bootmode keys ≡ 1
  pub repartition : count_if is_repartition keys ≡ r
  pub contents : count_if is_contents keys ≡ r
  pub conflicts : count_if is_conflict keys ≡ 0

classify_scan_iff :
    (s : KeyScan) (ok : Bool) (st : BootflagState) (r : ℕ)
    → ((st ≡ normal) × (r ≡ 0)) ⊎ ((st ≡ pending_40gb) × (r ≡ 1))
    → (classify_scan s ok ≡ st) ↔ (
        (ok ≡ true)
        × (s.payload_valid ≡ true)
        × (s.conflicting_value ≡ false)
        × (s.bootmode_count ≡ 1)
        × (s.repartition_count ≡ r)
        × (s.contents_count ≡ r))
unfolding classify_scan
classify_scan_iff s ok st r h = ground arith

module _ (payload : List ℕ) (fits : length payload ≤ 492) (ok : Bool) where
  abbrev scan : KeyScan
  scan = scan_keys 492 0 payload empty_scan

  scan_of_keys :
      (ks : List (List ℕ)) (n : ℕ)
      → IsPayload payload ks n
      → scan ≡ record (count_keys 0 ks empty_scan) { payload_valid = true }
  scan_of_keys ks n p =
      ap (λ xs. scan_keys 492 0 xs empty_scan) p.printed
      ∙ scan_keys-print_keys ks n 492 0 empty_scan p.keys
          (omega (arith, ap (λ (xs : List ℕ). length xs) p.printed))

  Settles-scan :
      (r : ℕ)
      → r ≤ 1
      → Settles payload r
      → (scan.payload_valid ≡ true)
        × (scan.conflicting_value ≡ false)
        × (scan.bootmode_count ≡ 1)
        × (scan.repartition_count ≡ r)
        × (scan.contents_count ≡ r)
  Settles-scan r small p =
      let e = scan_of_keys p.keys p.zeros p.shape in
      let totals = count_keys-Totals 0 p.keys empty_scan in
      rw e (
        refl,
        IsCalm-conflict 0 p.keys empty_scan refl (record {
          conflicts = p.conflicts;
          bootmode = omega (arith, p.bootmode);
          repartition = omega (arith, p.repartition);
          contents = omega (arith, p.contents);
        }),
        omega (arith, totals.bootmode, p.bootmode),
        omega (arith, totals.repartition, p.repartition),
        omega (arith, totals.contents, p.contents),
      )

  scan-Settles :
      (r : ℕ)
      → scan.payload_valid ≡ true
      → scan.conflicting_value ≡ false
      → scan.bootmode_count ≡ 1
      → scan.repartition_count ≡ r
      → scan.contents_count ≡ r
      → Settles payload r
  scan-Settles r valid calm b rp c =
      let found = scan_keys-IsPayload 492 0 payload empty_scan refl valid in
      let ks : List (List ℕ) = found.0 in
      let e = scan_of_keys ks found.1 found.2 in
      let totals = count_keys-Totals 0 ks empty_scan in
      let quiet =
        conflict-IsCalm 0 ks empty_scan (omega arith)
          (sym (ap (λ (s : KeyScan). s.conflicting_value) e) ∙ calm) in
      record {
        keys = ks;
        zeros = found.1;
        shape = found.2;
        bootmode = omega (arith, totals.bootmode, ap (λ (s : KeyScan). s.bootmode_count) e);
        repartition =
            omega (arith, totals.repartition, ap (λ (s : KeyScan). s.repartition_count) e);
        contents = omega (arith, totals.contents, ap (λ (s : KeyScan). s.contents_count) e);
        conflicts = quiet.conflicts;
      }

  state_iff :
      (st : BootflagState) (r : ℕ)
      → ((st ≡ normal) × (r ≡ 0)) ⊎ ((st ≡ pending_40gb) × (r ≡ 1))
      → (classify_scan scan ok ≡ st) ↔ ((ok ≡ true) × Settles payload r)
  state_iff st r h = (
    λ e.
        let d = (classify_scan_iff scan ok st r h).0 e in (d.0, scan-Settles r d.1 d.2 d.3 d.4 d.5),
    λ d.
        let q = Settles-scan r (ground arith) d.1 in
        (classify_scan_iff scan ok st r h).1 (d.0, q.0, q.1, q.2, q.3, q.4),
  )

module _ (bytes : List ℕ) where
  abbrev pub payload_of : List ℕ
  payload_of = take 492 (drop 20 bytes)

  -- The image of 512 bytes is NORMAL exactly when its first 20 bytes are the SHA-1 of the payload,
  -- and the payload is made of keys and zeros with the boot mode set once to Normal and neither of
  -- the two repartitioning settings; it is PENDING_40GB exactly when those two stand there once
  -- each. In both cases none of the three settings has another value, and other keys are free.
  pub inspect_states :
      ((bootflag_inspect_image bytes 512).state ≡ normal
        ↔ ((take 20 bytes ≡ bootflag_sha1 payload_of) × Settles payload_of 0))
      × ((bootflag_inspect_image bytes 512).state ≡ pending_40gb
          ↔ ((take 20 bytes ≡ bootflag_sha1 payload_of) × Settles payload_of 1))
  unfolding bootflag_inspect_image
  inspect_states =
      let ok : Bool = eq_bytes (take 20 bytes) (bootflag_sha1 payload_of) in
      let fits : length payload_of ≤ 492 = omega (arith, length-take {0} 492 (drop 20 bytes)) in
      let header = eq_bytes_iff (take 20 bytes) (bootflag_sha1 payload_of) in
      let n = state_iff payload_of fits ok normal 0 (inl (refl, refl)) in
      let p = state_iff payload_of fits ok pending_40gb 1 (inr (refl, refl)) in
      (
        (λ e. let d = n.0 e in (header.0 d.0, d.1), λ d. n.1 (header.1 d.0, d.1)),
        (λ e. let d = p.0 e in (header.0 d.0, d.1), λ d. p.1 (header.1 d.0, d.1)),
      )
