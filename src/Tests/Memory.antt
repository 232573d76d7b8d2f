-- ===== src/Tests/Memory.antt =====
-- File systems in memory, on which the theorems about calls of fileXio are applied.
use repair_box_psx_hdd_setup.Base.{
  ℕ, ◌+◌, ◌-◌, min, pos, ◌≡◌, refl, ap, ap₂, List, [], ◌++◌, length, take, drop, arith, enoent,
}
use repair_box_psx_hdd_setup.FileXio.{FileXio, read_bytes, dread_end}
use repair_box_psx_hdd_setup.FileXio.LawfulFile.{LawfulFile}

-- One file and the position of its descriptor.
pub record Disk : Type 0 where
  pub content : List ℕ
  pub at : ℕ

-- How much a read gives: at most 100 bytes.
abbrev read_size : ℕ → Disk → ℕ
read_size size d = min (min size 100) (length d.content - d.at)

abbrev pub memory : FileXio
memory = record {
  World = Disk;
  open_read = λ path d. (pos 3, record d { at = 0 });
  open_write = λ path d. (pos 3, record { content = []; at = 0 });
  read = λ fd size d. (
    read_bytes (take (read_size size d) (drop d.at d.content)),
    record d { at = d.at + read_size size d },
  );
  write = λ fd bytes d. (
    pos (min 200 (length bytes)),
    record d { content = d.content ++ take (min 200 (length bytes)) bytes },
  );
  close = λ fd d. (pos 0, d);
  dopen = λ path d. (enoent, d);
  dread = λ fd d. (dread_end, d);
  dclose = λ fd d. (pos 0, d);
  mkdir = λ path d. (enoent, d);
  remove = λ path d. (enoent, d);
}

unfoldable pub memory_lawful : (path : List ℕ) → LawfulFile memory path
memory_lawful path = record {
  Holds = λ content d. d.content ≡ content;
  Reading = λ fd content at d. (d.content ≡ content) × (d.at ≡ at);
  Writing = λ fd content d. d.content ≡ content;
  opens_read = λ content d h. (3, refl, (h, refl));
  reads = λ fd content at size d r.
      let size_eq : length d.content ≡ length content = ap (λ c. length c) r.0 in
      (
        read_size size d,
        ap₂ (λ a c. read_bytes (take (read_size size d) (drop a c))) r.1 r.0,
        omega (arith, r.1, size_eq),
        (λ h. omega (arith, r.1, size_eq)),
        (r.0, omega (arith, r.1)),
      );
  closes_read = λ fd content at d r. (0, refl, r.0);
  opens_write = λ d. (3, refl, refl);
  writes = λ fd content bytes d r h. (
    min 200 (length bytes),
    refl,
    omega arith,
    omega arith,
    ap (λ t. t ++ take (min 200 (length bytes)) bytes) r,
  );
  closes_write = λ fd content d r. (0, refl, r);
}
