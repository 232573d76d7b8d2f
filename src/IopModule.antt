-- ===== src/IopModule.antt =====
-- src/iop_module_lookup.c: a module of the I/O processor is looked up by its name in the list that
-- its loader keeps in its memory.
pub mod Outcomes
use mathlib.Core.Option
use repair_box_psx_hdd_setup.Base.{
  ℕ, zero, suc, ◌+◌, ◌-◌, ◌*◌, ℤ, pos, eio, einval, enoent, eloop, Bool, true, false, not, ◌&&◌,
  ◌||◌, Option, none, some, List, [], ◌∷◌, length, take, drop, get_or, ltb, leb, ◌==◌, ◌==ℤ◌,
  bit_and, c_string, eq_bytes, has_nul, if◌then◌else◌,
}

abbrev pub iop_ram_bytes : ℕ
iop_ram_bytes = 0x200000

abbrev pub module_limit : ℕ
module_limit = 256

-- `module_prefix_t` less its padding; the numbers are little-endian.
pub record ModulePrefix : Type 0 where
  pub next : ℕ
  pub name : ℕ
  pub version : ℕ
  pub flags : ℕ
  pub id : ℕ

abbrev pub load_le16 : List ℕ → ℕ → ℕ
load_le16 bytes at = get_or bytes at 0 + 256 * get_or bytes (at + 1) 0

abbrev pub load_le32 : List ℕ → ℕ → ℕ
load_le32 bytes at = load_le16 bytes at + 65536 * load_le16 bytes (at + 2)

abbrev pub module_prefix : List ℕ → ModulePrefix
module_prefix bytes = record {
  next = load_le32 bytes 0;
  name = load_le32 bytes 4;
  version = load_le16 bytes 8;
  flags = load_le16 bytes 10;
  id = load_le16 bytes 12;
}

-- The address in the memory, without the bits of its segment.
abbrev pub physical_address : ℕ → ℕ
physical_address address = bit_and address 0x1fffffff

unfoldable pub address_valid : ℕ → ℕ → Bool
address_valid address size =
    let region = bit_and address 0xe0000000 in
    let physical = physical_address address in
    not (
      (not (region == 0) && (not (region == 0x80000000) && not (region == 0xa0000000)))
      || ((physical == 0) || (leb iop_ram_bytes physical || ltb (iop_ram_bytes - physical) size)))

-- `smem_read` of PS2SDK's libsmem reads the memory of the I/O processor: from an address, a number of
-- bytes; its result is how many it has read. The memory does not change during a lookup.
module _ (smem_read : ℕ → ℕ → List ℕ) where
  -- The bytes, where the C function returns 0, and its error where it does not.
  unfoldable pub read_iop : ℕ → ℕ → ℤ × List ℕ
  read_iop address size =
      if not (address_valid address size)
      then (einval, [])
      else let bytes = smem_read (physical_address address) size in
        if length bytes == size then (pos 0, bytes) else (eio, [])

  -- The prefix of the module at an address; `none` where `iop_module_find` returns -EIO.
  unfoldable pub read_module : ℕ → Option ModulePrefix
  read_module address =
      let (result, bytes) = read_iop address 16 in
      if not (bit_and address 3 == 0) || not (result ==ℤ pos 0)
      then none
      else some (module_prefix bytes)

  -- Whether the name of a module can be read and is `name`.
  unfoldable pub is_named : List ℕ → ModulePrefix → Bool
  is_named name prefix =
      let (result, bytes) = read_iop prefix.name 64 in
      (result ==ℤ pos 0) && (has_nul bytes && eq_bytes (c_string bytes) name)

  -- The loop, `fuel` rounds from its end.
  unfoldable pub find_loop : List ℕ → ℕ → ℕ → ℤ
  find_loop name zero address = if address == 0 then enoent else eloop
  find_loop name (suc fuel) address = if address == 0 then enoent else elim (read_module address) [
    | none ↦ eio
    | some prefix ↦
        let rest = find_loop name fuel prefix.next in
        if is_named name prefix then pos prefix.id else rest
  ]

  -- `none` is NULL.
  unfoldable pub iop_module_find : Option (List ℕ) → ℤ
  iop_module_find none = einval
  iop_module_find (some name) =
      if (length name == 0) || leb 64 (length name)
      then einval
      else find_loop name module_limit 0x800
