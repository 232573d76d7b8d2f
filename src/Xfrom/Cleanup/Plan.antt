-- ===== src/Xfrom/Cleanup/Plan.antt =====
-- What `build_cleanup_plan` of src/xfrom_repair.c plans to remove: safe names that are not known.
use mathlib.Core.Path.{subst}
use repair_box_psx_hdd_setup.Base.{
  ℕ, suc, ◌≤◌, ℤ, is_negative, ◌≡◌, refl, ◌∙◌, Bool, true, false, not, ◌||◌, List, [], ◌∷◌, ◌++◌,
  length, leb, codes, c_string, eq_bytes, has_nul, if_intro, arith, length-append,
}
use repair_box_psx_hdd_setup.FileXio.{Dirent}
use repair_box_psx_hdd_setup.Xfrom.{
  Entry, RepairResult, fail, xfrom_cleanup_max_files, xfrom_repair_path_size,
}
use repair_box_psx_hdd_setup.Xfrom.Cleanup.{
  known_name, known_destination_name, safe_cleanup_name, system_path, Scan, scan_name, scan_entry,
}

-- The path of a file of the system folder with a safe name that none of the known files has.
pub record IsExtra (files : List Entry) (path : List ℕ) : Type 0 where
  pub name : List ℕ
  pub path_eq : path ≡ system_path name
  pub safe : safe_cleanup_name name ≡ true
  pub unknown : known_name files name ≡ false

abbrev pub AreExtras : List Entry → List (List ℕ) → Type 0
AreExtras files [] = Unit {0}
AreExtras files (path ∷ paths) = IsExtra files path × AreExtras files paths

AreExtras-append :
    (files : List Entry) (paths : List (List ℕ)) (path : List ℕ)
    → AreExtras files paths
    → IsExtra files path
    → AreExtras files (paths ++ (path ∷ []))
AreExtras-append files [] path h e = (e, tt)
AreExtras-append files (p ∷ paths) path h e = (h.0, AreExtras-append files paths path h.1 e)

pub record IsPlan (files : List Entry) (scan : Scan) : Type 0 where
  pub files_eq : scan.result.files ≡ files
  pub extras : AreExtras files scan.paths
  pub bounded : length scan.paths ≤ 64

pub fail-files :
    (operation path : List ℕ) (code : ℤ) (result : RepairResult)
    → (fail operation path code result).files ≡ result.files
unfolding fail
fail-files operation path code result =
    if_intro (λ (r : RepairResult). r.files ≡ result.files) (is_negative result.failure_return) _ _
      (λ _. refl) (λ _. refl)

leb-false : (a b : ℕ) → leb a b ≡ false → suc b ≤ a
leb-false a b h = ground arith

module _ (files : List Entry) where
  pub fail-IsPlan :
      (operation path : List ℕ) (code : ℤ) (scan : Scan)
      → IsPlan files scan
      → IsPlan files (record scan { result = fail operation path code scan.result })
  fail-IsPlan operation path code scan p = record {
    files_eq = fail-files operation path code scan.result ∙ p.files_eq;
    extras = p.extras;
    bounded = p.bounded;
  }

  add-IsPlan :
      (name : List ℕ) (scan : Scan)
      → IsPlan files scan
      → not (safe_cleanup_name name) ≡ false
      → known_destination_name scan.result name ≡ false
      → leb 64 (length scan.paths) ≡ false
      → IsPlan files (record scan { paths = scan.paths ++ (system_path name ∷ []) })
  unfolding known_destination_name
  add-IsPlan name scan p safe unknown room = record {
    files_eq = p.files_eq;
    extras = AreExtras-append files scan.paths (system_path name) p.extras (record {
      name = name;
      path_eq = refl;
      safe = ground arith;
      unknown = subst (λ fs. known_name fs name ≡ false) p.files_eq unknown;
    });
    bounded = omega (
      arith,
      length-append {0} scan.paths (system_path name ∷ []),
      leb-false 64 (length scan.paths) room,
    );
  }

  scan_name-IsPlan :
      (name : List ℕ) (is_directory : Bool) (scan : Scan)
      → IsPlan files scan
      → IsPlan files (scan_name name is_directory scan).1
  unfolding scan_name
  scan_name-IsPlan name is_directory scan p =
      let P : ℤ × Scan → Type 0 = λ out. IsPlan files out.1 in
      if_intro P (not (safe_cleanup_name name)) _ _ (λ _. fail-IsPlan _ _ _ scan p)
        λ safe.
          if_intro P is_directory _ _ (λ _. fail-IsPlan _ _ _ scan p)
            λ _.
              if_intro P (known_destination_name scan.result name) _ _ (λ _. p)
                λ unknown.
                  if_intro P (leb xfrom_cleanup_max_files (length scan.paths)) _ _
                    (λ _. fail-IsPlan _ _ _ scan p)
                    λ room.
                      if_intro P (leb xfrom_repair_path_size (length (system_path name))) _ _
                        (λ _. fail-IsPlan _ _ _ scan p)
                        λ _. add-IsPlan name scan p safe unknown room

  pub scan_entry-IsPlan :
      (entry : Dirent) (scan : Scan) → IsPlan files scan → IsPlan files (scan_entry entry scan).1
  unfolding scan_entry
  scan_entry-IsPlan entry scan p =
      let P : ℤ × Scan → Type 0 = λ out. IsPlan files out.1 in
      if_intro P (not (has_nul entry.name)) _ _ (λ _. fail-IsPlan _ _ _ scan p)
        λ _.
          if_intro P
            (eq_bytes (c_string entry.name) (codes ".")
              || eq_bytes (c_string entry.name) (codes ".."))
            _ _ (λ _. p)
            λ _.
              scan_name-IsPlan (c_string entry.name) entry.is_directory _
                (record { files_eq = p.files_eq; extras = p.extras; bounded = p.bounded })
