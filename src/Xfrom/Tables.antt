-- ===== src/Xfrom/Tables.antt =====
-- The tables of src/xfrom_repair.c with the known system files, and `populate_entries`.
use repair_box_psx_hdd_setup.Base.{
  ℕ, ℤ, pos, einval, Bool, true, false, List, [], ◌∷◌, ◌++◌, map, codes, take,
}
use repair_box_psx_hdd_setup.Xfrom.{Entry, psx1, psx2, other_revision, RepairResult}

pub record KnownFile : Type 0 where
  pub name : List ℕ
  pub size : ℕ
  pub sha256 : List ℕ
  pub deferred_activation : Bool

abbrev digest_e3b0 : List ℕ
digest_e3b0 =
    0xe3 ∷ 0xb0 ∷ 0xc4 ∷ 0x42 ∷ 0x98 ∷ 0xfc ∷ 0x1c ∷ 0x14 ∷ 0x9a ∷ 0xfb ∷ 0xf4 ∷ 0xc8 ∷ 0x99 ∷ 0x6f
    ∷ 0xb9 ∷ 0x24 ∷ 0x27 ∷ 0xae ∷ 0x41 ∷ 0xe4 ∷ 0x64 ∷ 0x9b ∷ 0x93 ∷ 0x4c ∷ 0xa4 ∷ 0x95 ∷ 0x99
    ∷ 0x1b ∷ 0x78 ∷ 0x52 ∷ 0xb8 ∷ 0x55 ∷ []

abbrev digest_0a5e : List ℕ
digest_0a5e =
    0x0a ∷ 0x5e ∷ 0x6a ∷ 0xd1 ∷ 0xae ∷ 0xef ∷ 0x76 ∷ 0x8b ∷ 0x74 ∷ 0x92 ∷ 0xdc ∷ 0xc4 ∷ 0xd2 ∷ 0x59
    ∷ 0x5c ∷ 0xb0 ∷ 0x2b ∷ 0xa4 ∷ 0x9e ∷ 0x3e ∷ 0x1d ∷ 0xde ∷ 0x1d ∷ 0x32 ∷ 0x67 ∷ 0x7f ∷ 0xd2
    ∷ 0x99 ∷ 0x6d ∷ 0xaf ∷ 0x93 ∷ 0x05 ∷ []

abbrev digest_9dcd : List ℕ
digest_9dcd =
    0x9d ∷ 0xcd ∷ 0x3c ∷ 0xe0 ∷ 0xde ∷ 0x29 ∷ 0x2d ∷ 0x21 ∷ 0xc0 ∷ 0x66 ∷ 0x1e ∷ 0x5d ∷ 0x87 ∷ 0xe8
    ∷ 0xd3 ∷ 0x64 ∷ 0x63 ∷ 0x44 ∷ 0xa7 ∷ 0x2f ∷ 0xd9 ∷ 0x1b ∷ 0x94 ∷ 0xfd ∷ 0x8d ∷ 0x94 ∷ 0x24
    ∷ 0x19 ∷ 0x52 ∷ 0x4b ∷ 0xbb ∷ 0x79 ∷ []

abbrev digest_1640 : List ℕ
digest_1640 =
    0x16 ∷ 0x40 ∷ 0x4c ∷ 0x54 ∷ 0x51 ∷ 0x04 ∷ 0x2d ∷ 0xfa ∷ 0xc3 ∷ 0x3c ∷ 0xff ∷ 0xbd ∷ 0x85 ∷ 0xd9
    ∷ 0x55 ∷ 0x4f ∷ 0xf3 ∷ 0xab ∷ 0x4e ∷ 0x54 ∷ 0x9f ∷ 0x39 ∷ 0xe5 ∷ 0x0d ∷ 0xa5 ∷ 0x92 ∷ 0x12
    ∷ 0xe4 ∷ 0x1e ∷ 0xf6 ∷ 0xd0 ∷ 0x3a ∷ []

abbrev digest_61f0 : List ℕ
digest_61f0 =
    0x61 ∷ 0xf0 ∷ 0x4f ∷ 0xc7 ∷ 0x09 ∷ 0x58 ∷ 0x20 ∷ 0xc8 ∷ 0x27 ∷ 0x41 ∷ 0xc9 ∷ 0xeb ∷ 0x6e ∷ 0x82
    ∷ 0x87 ∷ 0xd0 ∷ 0x0a ∷ 0x42 ∷ 0x8d ∷ 0xc5 ∷ 0xd7 ∷ 0x4d ∷ 0x34 ∷ 0x47 ∷ 0xea ∷ 0x44 ∷ 0x9f
    ∷ 0x80 ∷ 0xd9 ∷ 0xae ∷ 0x9c ∷ 0x9f ∷ []

abbrev digest_b27c : List ℕ
digest_b27c =
    0xb2 ∷ 0x7c ∷ 0x00 ∷ 0x86 ∷ 0x5a ∷ 0x78 ∷ 0x59 ∷ 0x1c ∷ 0x99 ∷ 0x37 ∷ 0x67 ∷ 0x58 ∷ 0x6a ∷ 0x87
    ∷ 0x4c ∷ 0x90 ∷ 0x92 ∷ 0xc8 ∷ 0xc6 ∷ 0x38 ∷ 0x34 ∷ 0xd4 ∷ 0x72 ∷ 0x4c ∷ 0xcb ∷ 0xe0 ∷ 0xee
    ∷ 0xa6 ∷ 0xd1 ∷ 0x0e ∷ 0xca ∷ 0xd4 ∷ []

-- `psx1_files`
abbrev pub psx1_files : List KnownFile
psx1_files =
    record {
      name = codes "INSTALL.ID";
      size = 0;
      sha256 = digest_e3b0;
      deferred_activation = false;
    }
    ∷ record {
      name = codes "osdmain.dat";
      size = 6144000;
      sha256 = digest_0a5e;
      deferred_activation = false;
    }
    ∷ record {
      name = codes "osdmain.mod";
      size = 2048;
      sha256 = digest_9dcd;
      deferred_activation = false;
    }
    ∷ record {
      name = codes "xosdmain.elf";
      size = 423760;
      sha256 = digest_1640;
      deferred_activation = false;
    }
    ∷ []

-- `psx2_files`; bootflag.txt is checked, and its write is left to the activation.
abbrev pub psx2_files : List KnownFile
psx2_files =
    record {
      name = codes "bootflag.bak";
      size = 512;
      sha256 = digest_61f0;
      deferred_activation = false;
    }
    ∷ record {
      name = codes "bootflag.txt";
      size = 512;
      sha256 = digest_61f0;
      deferred_activation = true;
    }
    ∷ record {
      name = codes "INSTALL.ID";
      size = 0;
      sha256 = digest_e3b0;
      deferred_activation = false;
    }
    ∷ record {
      name = codes "xosdmain.elf";
      size = 478688;
      sha256 = digest_b27c;
      deferred_activation = false;
    }
    ∷ []

-- The path is cut at the size of its field, 192 bytes with the NUL.
abbrev pub entry_of : KnownFile → Entry
entry_of known = record {
  path = take 191 (codes "BIEXEC-SYSTEM/" ++ known.name);
  expected_sha256 = known.sha256;
  size = known.size;
  source_nested = false;
  deferred_activation = known.deferred_activation;
  source_valid = false;
  destination_valid = false;
  write_attempted = false;
}

-- The tables have at most XFROM_REPAIR_MAX_FILES entries, so -E2BIG is never returned.
unfoldable pub populate_entries : RepairResult → ℤ × RepairResult
populate_entries result = elim result.revision [
  | psx1 ↦ (pos 0, record result { files = map entry_of psx1_files })
  | psx2 ↦ (pos 0, record result { files = map entry_of psx2_files })
  | other_revision ↦ (einval, result)
]
