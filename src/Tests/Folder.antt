-- ===== src/Tests/Folder.antt =====
-- A system folder in memory, on which the clean-up of src/xfrom_repair.c runs.
use repair_box_psx_hdd_setup.Base.{
  replicate, eperm, ◌&&◌, ℕ, ℤ, pos, enoent, ◌≡◌, refl, ap, ◌∙◌, Bool, true, false, ◌||◌, List, [],
  ◌∷◌, ◌++◌, codes, eq_bytes, eq_bytes→eq, has_byte, has_nul, base_name, c_string, is_negative,
  some, if◌then◌else◌, arith, Bool-cases, inl, inr,
}
use repair_box_psx_hdd_setup.FileXio.{
  FileXio, Dirent, read_error, DreadResult, dread_end, dread_entry,
}
use repair_box_psx_hdd_setup.Xfrom.{
  Entry, psx1, RepairResult, xfrom_repair_initialize, xfrom_system_root,
}
use repair_box_psx_hdd_setup.Xfrom.Cleanup.{
  known_name, system_path, Scan, build_cleanup_plan, cleanup_system_root, verify_cleanup,
  remove_planned, remove_loop, close_plan, finish_plan, scan_loop, scan_entry, scan_name,
  known_destination_name, safe_cleanup_name,
}
use repair_box_psx_hdd_setup.Xfrom.Copy.{SourceMedia}
use repair_box_psx_hdd_setup.Xfrom.Execute.{xfrom_repair_execute}
use repair_box_psx_hdd_setup.Xfrom.Execute.Confined.{Confines}
use repair_box_psx_hdd_setup.Xfrom.Execute.Confinement.{xfrom_repair_execute_confined}
use repair_box_psx_hdd_setup.Xfrom.Cleanup.Plan.{IsExtra}
use repair_box_psx_hdd_setup.Xfrom.Cleanup.Frame.{Frame, cleanup_system_root-Frame}
use repair_box_psx_hdd_setup.Xfrom.Cleanup.Listing.{
  Lists, ends, delivers, extras, build_cleanup_plan_complete,
}

-- The names of the files, and those that the open descriptor has yet to deliver.
pub record Folder : Type 0 where
  pub names : List (List ℕ)
  pub rest : List (List ℕ)

abbrev pub dirent_of : List ℕ → Dirent
dirent_of name = record { name = name ++ (0 ∷ []); is_directory = false; size = 0 }

abbrev pub next_of : List (List ℕ) → List (List ℕ) → DreadResult × Folder
next_of names [] = (dread_end, record { names = names; rest = [] })
next_of names (name ∷ rest) = (dread_entry (dirent_of name), record { names = names; rest = rest })

unfoldable pub without : List ℕ → List (List ℕ) → List (List ℕ)
without path [] = []
without path (name ∷ names) =
    if eq_bytes (system_path name) path then without path names else name ∷ without path names

unfoldable has_name : List ℕ → List (List ℕ) → Bool
has_name name [] = false
has_name name (n ∷ names) = eq_bytes n name || has_name name names

abbrev pub folder : FileXio
folder = record {
  World = Folder;
  open_read = λ path d. (enoent, d);
  open_write = λ path d. (enoent, d);
  read = λ fd size d. (read_error 4, d);
  write = λ fd bytes d. (enoent, d);
  close = λ fd d. (pos 0, d);
  dopen = λ path d. (pos 4, record d { rest = d.names });
  dread = λ fd d. next_of d.names d.rest;
  dclose = λ fd d. (pos 0, d);
  mkdir = λ path d. (pos 0, d);
  remove = λ path d. (pos 0, record d { names = without path d.names });
}

abbrev known_file : Entry
known_file = record {
  path = codes "BIEXEC-SYSTEM/osdmain.dat";
  expected_sha256 = [];
  size = 4;
  source_nested = false;
  deferred_activation = false;
  source_valid = false;
  destination_valid = false;
  write_attempted = false;
}

abbrev repair : RepairResult
repair = record (xfrom_repair_initialize psx1) { files = known_file ∷ [] }

abbrev pub littered : Folder
littered = record {
  names = codes "osdmain.dat" ∷ codes "junk.bin" ∷ codes "old.log" ∷ [];
  rest = [];
}

abbrev KeepsFile : Folder → Type 0
KeepsFile d = has_name (codes "osdmain.dat") d.names ≡ true

has_name-without :
    (n name : List ℕ) (names : List (List ℕ))
    → eq_bytes (system_path name) (system_path n) ≡ false
    → has_name name names ≡ true
    → has_name name (without (system_path n) names) ≡ true
unfolding has_name without
has_name-without n name [] u h = h
has_name-without n name (m ∷ names) u h = elim (Bool-cases (eq_bytes m name)) [
  | inl t ↦
      let same = eq_bytes→eq m name t in
      let kept : eq_bytes (system_path m) (system_path n) ≡ false =
        ap (λ k. eq_bytes (system_path k) (system_path n)) same ∙ u in
      rw (kept, t) refl
  | inr f ↦ elim (Bool-cases (eq_bytes (system_path m) (system_path n))) [
    | inl g ↦ rw g (has_name-without n name names u (ground arith))
    | inr g ↦ rw (g, f) (has_name-without n name names u (ground arith))
  ]
]

next_keeps : (names rest : List (List ℕ)) → (next_of names rest).1.names ≡ names
next_keeps names [] = refl
next_keeps names (name ∷ rest) = refl

different : (b : Bool) → (if b then true else false) ≡ false → b ≡ false
different true h = h
different false h = h

remove_keeps :
    (path : List ℕ) (names : List (List ℕ))
    → IsExtra (known_file ∷ []) path
    → has_name (codes "osdmain.dat") names ≡ true
    → has_name (codes "osdmain.dat") (without path names) ≡ true
unfolding known_name base_name has_byte eq_bytes
remove_keeps path names e h =
    rw e.path_eq (has_name-without e.name (codes "osdmain.dat") names (different _ e.unknown) h)

folder_frame : Frame folder (known_file ∷ []) KeepsFile
folder_frame = record {
  keeps_dopen = λ path w h. h;
  keeps_dread =
      λ fd w h. ap (λ n. has_name (codes "osdmain.dat") n) (next_keeps w.names w.rest) ∙ h;
  keeps_dclose = λ fd w h. h;
  keeps_remove = λ path w e h. remove_keeps path w.names e h;
}

littered_keeps : KeepsFile littered
unfolding has_name eq_bytes
littered_keeps = refl

cleanup_system_root-Frame_example : KeepsFile (cleanup_system_root folder 10 repair littered).1
cleanup_system_root-Frame_example =
    cleanup_system_root-Frame folder (known_file ∷ []) KeepsFile folder_frame 10 repair littered
      refl littered_keeps

-- The extra files are gone.
cleanup_run : (cleanup_system_root folder 10 repair littered).1.names ≡ codes "osdmain.dat" ∷ []
unfolding cleanup_system_root verify_cleanup remove_planned remove_loop build_cleanup_plan
    close_plan finish_plan scan_loop scan_entry scan_name known_destination_name known_name
    safe_cleanup_name without eq_bytes has_nul has_byte base_name c_string
cleanup_run = refl

abbrev listing : List Dirent
listing =
    dirent_of (codes "osdmain.dat")
    ∷ dirent_of (codes "junk.bin")
    ∷ dirent_of (codes "old.log")
    ∷ []

Lists-littered : Lists folder (pos 4) listing (folder.dopen xfrom_system_root littered).1
Lists-littered = delivers refl (delivers refl (delivers refl (ends refl)))

build_cleanup_plan_complete_example :
    (code : ℤ) × (scan : Scan) × ((build_cleanup_plan folder 10 repair littered).0
      ≡ some (code, scan))
    × (is_negative code ≡ false → scan.paths ≡ extras (known_file ∷ []) listing)
build_cleanup_plan_complete_example =
    build_cleanup_plan_complete folder 10 4 listing repair littered refl Lists-littered
      (omega arith)

abbrev medium : SourceMedia
medium = record {
  is_mmce = false;
  psx1_xfrom_root = codes "usb:/PSX1";
  psx2_xfrom_root = codes "usb:/PSX2";
}

abbrev ready : RepairResult
ready = record repair { source_valid = true; xfrom_root_accessible = true }

folder_confines : Confines folder (known_file ∷ []) KeepsFile
folder_confines = record {
  cleanup = folder_frame;
  keeps_mkdir = λ w h. h;
  keeps_open_read = λ path w h. h;
  keeps_read = λ fd size w h. h;
  keeps_close = λ fd w h. h;
  keeps_open_write = λ path w t h. h;
  keeps_write = λ fd bytes w h. h;
}

xfrom_repair_execute_confined_example :
    let out =
      xfrom_repair_execute folder
        (replicate 64 7)
        medium
        (λ size. true)
        10
        ready
        true
        true
        littered in
    KeepsFile out.1 × (true && true ≡ false → out ≡ (some (eperm, ready), littered))
xfrom_repair_execute_confined_example =
    xfrom_repair_execute_confined folder (replicate 64 7) medium (λ size. true) (known_file ∷ [])
      KeepsFile folder_confines 10 ready true true littered refl littered_keeps
