-- ===== src/FormatTest/Preflight.antt =====
-- What the preflight of src/psx1_format_test.c decides.
use native.Mathlib.Decide.{dec_le}
use repair_box_psx_hdd_setup.Base.{
  ℕ, ◌≤◌, ℤ, ◌≡◌, refl, ◌↔◌, Bool, true, false, not, length, ltb, lt→ltb, ltb→lt, if◌then◌else◌,
  if_intro, arith,
}
use repair_box_psx_hdd_setup.Inspector.{InspectorData}
use repair_box_psx_hdd_setup.FormatTest.{
  too_small, device_io_error, unsupported_physical_device, PreFormatState, capacity_64_gb,
  capacity_128_gb, capacity_256_gb, capacity_512_gb, within_nominal, classify_capacity, table_state,
  state_passes, format_test_analyze_preflight, format_test_exact_apa, format_test_mbr_valid,
  format_test_min_visible_sectors,
}

table_state_passes :
    (v : ℤ) (exact mbr : Bool) (n : ℕ) → state_passes (table_state v exact mbr n) ≡ true
unfolding state_passes table_state
table_state_passes v exact mbr n = ground arith

passes_iff :
    (r u : Bool) (n least : ℕ) (t : PreFormatState)
    → state_passes t ≡ true
    → (state_passes (
          if not r
          then device_io_error
          else if not u
          then unsupported_physical_device
          else if ltb n least
          then too_small
          else t)
        ≡ true)
      ↔ ((r ≡ true) × (u ≡ true) × (least ≤ n))
unfolding state_passes
passes_iff true true n least t h =
    if_intro (λ s. (state_passes s ≡ true) ↔ ((true ≡ true) × (true ≡ true) × (least ≤ n)))
      (ltb n least) too_small t
      (λ e. let small = ltb→lt n least e in (λ f. cc, λ f. absurd (omega (arith, f.2))))
      (λ e. (
        λ _. (
          refl,
          refl,
          elim (dec_le least n) [ yes l ↦ l | no g ↦ let b = lt→ltb n least (omega arith) in cc ],
        ),
        λ _. h,
      ))
passes_iff true false n least t h = ground arith
passes_iff false u n least t h = ground arith

-- The preflight passes exactly when the device is readable, the format module is usable and the
-- drive has the least number of sectors, whatever its partition table is.
pub preflight_pass_iff :
    (scan : InspectorData)
    → let r = format_test_analyze_preflight scan in
      (r.preflight_pass ≡ true) ↔ (
        (r.device_readable ≡ true)
        × (r.format_module_usable ≡ true)
        × (format_test_min_visible_sectors ≤ r.physical_sector_count))
unfolding format_test_analyze_preflight
preflight_pass_iff scan = passes_iff _ _ _ _ _ (
    table_state_passes scan.hdd_formatver (format_test_exact_apa scan) (format_test_mbr_valid scan)
      (length scan.apa))

-- The four classes are bands of sizes from three quarters to five quarters of a nominal size, and no
-- size is in two of the bands, so that the order of the tests does not matter.
pub classify_bands :
    (n : ℕ)
    → ((classify_capacity n ≡ capacity_64_gb) ↔ ((93750000 ≤ n) × (n ≤ 156250000)))
      × (((classify_capacity n ≡ capacity_128_gb) ↔ ((187500000 ≤ n) × (n ≤ 312500000)))
          × (((classify_capacity n ≡ capacity_256_gb) ↔ ((375000000 ≤ n) × (n ≤ 625000000)))
              × ((classify_capacity n ≡ capacity_512_gb) ↔ ((750000000 ≤ n) × (n ≤ 1250000000)))))
unfolding classify_capacity within_nominal
classify_bands n = ground arith
