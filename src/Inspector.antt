-- ===== src/Inspector.antt =====
-- The results of src/psx1_inspector.c (include/inspector.h) that the other parts read: the answers of
-- the hard disk, its partition table and what was found in each partition. An `int` that is only
-- tested for zero is a Boolean, a text is the list of its bytes before the NUL, and `apa_count` is the
-- length of `apa`.
use repair_box_psx_hdd_setup.Base.{ℕ, ℤ, Bool, List}

pub data SubpartitionClass : Type 0 where
  subpart_unknown subpart_match subpart_mismatch subpart_not_applicable : SubpartitionClass

pub data JournalClass : Type 0 where
  journal_unknown journal_clean journal_recovery_required journal_invalid : JournalClass

pub record RawPfs : Type 0 where
  pub applicable : Bool
  pub raw_pfs_read_valid : Bool
  pub pfs_super_valid : Bool
  pub pfs_root_valid : Bool
  pub pfs_structure_valid : Bool
  pub version : ℕ
  pub zone_size : ℕ
  pub declared_subpartitions : ℕ
  pub available_subpartitions : ℕ
  pub subpartition_class : SubpartitionClass
  pub primary_backup_match : Bool
  pub journal_class : JournalClass
  pub journal_num : ℕ
  pub root_inode_type_valid : Bool
  pub root_directory_valid : Bool
  pub root_directory_dot_found : Bool
  pub root_directory_dotdot_found : Bool
  pub root_directory_entries_truncated : Bool
  pub root_directory_entries : ℕ

pub record ApaEntry : Type 0 where
  pub name : List ℕ
  pub start : ℕ
  pub size : ℕ
  pub pfs_applicable : Bool
  pub raw_pfs : RawPfs

pub record ModuleResult : Type 0 where
  pub module_id : ℤ
  pub startup_result : ℤ

pub record InspectorData : Type 0 where
  pub filexio_init_result : ℤ
  pub modules : List ModuleResult
  pub hdd_status : ℤ
  pub hdd_formatver : ℤ
  pub hdd_totalsector : ℤ
  pub hdd_getmaxlba48 : ℤ
  pub hdd_islba48 : ℤ
  pub hdd_final_dread_result : ℤ
  pub hdd_available : Bool
  pub apa_overflow : Bool
  pub apa : List ApaEntry
  pub mbr_read_result : ℤ
  pub mbr_magic_valid : Bool
  pub mbr_checksum_valid : Bool
  pub mbr_version : ℕ
  pub mbr_osd_start : ℕ
  pub mbr_osd_size : ℕ
  pub mbr_magic_text : List ℕ
