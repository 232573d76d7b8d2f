-- ===== src/Bootstrap.antt =====
-- src/bootstrap.c: the boot prefix of the disk is validated, written and read back. This file has `hex_value`
-- and `parse_sum`, for the line of the checksum file.
pub mod Sums
pub mod Validate
pub mod Hashing
pub mod Write
pub mod Verified
pub mod Frame
use repair_box_psx_hdd_setup.Base.{
  ℕ, zero, suc, ◌+◌, ◌-◌, ◌*◌, Bool, true, false, not, ◌&&◌, ◌||◌, Option, none, some, List, [],
  ◌∷◌, ◌++◌, codes, leb, ◌==◌, c_string, eq_bytes, u8, bit_or, if◌then◌else◌,
}

-- `none` is -1.
unfoldable pub hex_value : ℕ → Option ℕ
hex_value value =
    if leb 48 value && leb value 57
    then some (value - 48)
    else if leb 97 value && leb value 102
    then some (value - 97 + 10)
    else if leb 65 value && leb value 70
    then some (value - 65 + 10)
    else none

-- Two digits are a byte.
unfoldable pub hex_byte : Option ℕ → Option ℕ → Option ℕ
hex_byte (some high) (some low) = some (u8 (bit_or (high * 16) low))
hex_byte _ _ = none

-- The name that stands behind the digest.
abbrev pub sum_name : List ℕ
sum_name = codes "mbr_bootstrap_prefix.bin" ++ (10 ∷ [])

unfoldable pub parse_name : List ℕ → Bool
parse_name (a ∷ b ∷ rest) = (a == 32) && ((b == 32) && eq_bytes (c_string rest) sum_name)
parse_name _ = false

-- The loop over the digits, with the digest so far, and the test behind it; `none` is -EINVAL.
unfoldable pub parse_digits : ℕ → List ℕ → List ℕ → Option (List ℕ)
parse_digits zero digest line = if parse_name line then some digest else none
parse_digits (suc left) digest (a ∷ b ∷ line) = elim (hex_byte (hex_value a) (hex_value b)) [
  | none ↦ none
  | some byte ↦ parse_digits left (digest ++ (byte ∷ [])) line
]
parse_digits (suc left) digest _ = none

-- The digest of the line, where the result is 0.
unfoldable pub parse_sum : List ℕ → Option (List ℕ)
parse_sum line = parse_digits 32 [] line
