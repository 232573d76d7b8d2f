-- ===== src/FormatTest/Layout.antt =====
-- `format_test_exact_apa` of src/psx1_format_test.c: the table is a permutation of the expected one.
use mathlib.Core.List.{Perm}
use mathlib.Core.Logic.{∥∥₁_elim}
use native.Mathlib.Nat.{ℕ_set}
use repair_box_psx_hdd_setup.Base.{
  ℤ, negsuc, suc, pos, ◌≡◌, refl, sym, ap, ◌∙◌, ◌↔◌, Bool, true, false, not, ◌||◌, List, [], ◌∷◌,
  map, length, ◌==◌, ==_iff, ◌==ℤ◌, and_elim, if◌then◌else◌, arith,
}
use repair_box_psx_hdd_setup.FormatTest.Keys.{
  same_key, occurrences, length-map, Perm-length, AllOnce, AllPresent→Perm, AllOnce→AllPresent,
  AllOnce-Perm, expected_AreDistinct, expected_AllOnce,
}
use repair_box_psx_hdd_setup.Inspector.{ApaEntry, InspectorData}
use repair_box_psx_hdd_setup.FormatTest.{
  ExpectedApa, expected, expected_apa, is_expected_entry, count_matches, all_once,
  format_test_exact_apa,
}

-- The name, the start and the size of an entry.
abbrev pub entry_key : ApaEntry → ExpectedApa
entry_key entry = expected entry.name entry.start entry.size

count_matches-map :
    (e : ExpectedApa) (entries : List ApaEntry)
    → count_matches e entries ≡ occurrences e (map entry_key entries)
unfolding count_matches occurrences is_expected_entry same_key
count_matches-map e [] = refl
count_matches-map e (entry ∷ entries) =
    let same = same_key e (entry_key entry) in
    ap (λ n. if same then suc n else n) (count_matches-map e entries)

all_once→AllOnce :
    (es : List ExpectedApa) (entries : List ApaEntry)
    → all_once es entries ≡ true
    → AllOnce es (map entry_key entries)
unfolding all_once
all_once→AllOnce [] entries h = tt
all_once→AllOnce (e ∷ es) entries h =
    let both = and_elim (count_matches e entries == 1) (all_once es entries) h in
    (
      sym (count_matches-map e entries) ∙ (==_iff (count_matches e entries) 1).0 both.0,
      all_once→AllOnce es entries both.1,
    )

AllOnce→all_once :
    (es : List ExpectedApa) (entries : List ApaEntry)
    → AllOnce es (map entry_key entries)
    → all_once es entries ≡ true
unfolding all_once
AllOnce→all_once [] entries h = refl
AllOnce→all_once (e ∷ es) entries h =
    let one : (count_matches e entries == 1) ≡ true =
      (==_iff (count_matches e entries) 1).1 (count_matches-map e entries ∙ h.0) in
    rw (one, AllOnce→all_once es entries h.1) refl

guard :
    (a o d l x : Bool)
    → ((if not a || (o || (not d || not l)) then false else x) ≡ true)
      ↔ ((a ≡ true) × (o ≡ false) × (d ≡ true) × (l ≡ true) × (x ≡ true))
guard a o d l x = ground arith

is_zero_iff : (z : ℤ) → ((z ==ℤ pos 0) ≡ true) ↔ (z ≡ pos 0)
is_zero_iff (pos n) = ground arith
is_zero_iff (negsuc n) = ground arith

-- A scan has the exact layout exactly when the drive is available, the listing of its partitions
-- ended without an overflow or an error, and the partitions, by name, start and size, are a
-- permutation of the five of a fresh PSX1 disk.
pub exact_apa_iff :
    (scan : InspectorData)
    → (format_test_exact_apa scan ≡ true) ↔ (
        (scan.hdd_available ≡ true)
        × (scan.apa_overflow ≡ false)
        × (scan.hdd_final_dread_result ≡ pos 0)
        × Perm (map entry_key scan.apa) expected_apa)
unfolding format_test_exact_apa
exact_apa_iff scan =
    let keys = map entry_key scan.apa in
    let g =
      guard scan.hdd_available scan.apa_overflow (scan.hdd_final_dread_result ==ℤ pos 0)
        (length scan.apa == 5) (all_once expected_apa scan.apa) in
    let z = is_zero_iff scan.hdd_final_dread_result in
    (
      λ h.
          let p = g.0 h in
          (
            p.0,
            p.1,
            z.0 p.2,
            AllPresent→Perm expected_apa keys expected_AreDistinct
                (AllOnce→AllPresent expected_apa keys (all_once→AllOnce expected_apa scan.apa p.4))
                (length-map entry_key scan.apa ∙ (==_iff (length scan.apa) 5).0 p.3),
          ),
      λ h.
          let perm : Perm keys expected_apa = h.3 in
          let five : length keys ≡ 5 = ∥∥₁_elim perm (ℕ_set (length keys) 5) Perm-length in
          g.1 (
            h.0,
            h.1,
            z.1 h.2,
            (==_iff (length scan.apa) 5).1 (sym (length-map entry_key scan.apa) ∙ five),
            AllOnce→all_once expected_apa scan.apa
                (AllOnce-Perm expected_apa keys expected_apa perm expected_AllOnce),
          ),
    )
