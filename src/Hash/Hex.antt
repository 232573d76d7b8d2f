-- ===== src/Hash/Hex.antt =====
-- The printers of digests: `sha256_to_hex` of src/sha256.c and `bootflag_digest_to_hex` of
-- src/bootflag.c.
use repair_box_psx_hdd_setup.Base.{ℕ, List, [], ◌∷◌, ◌++◌, codes, get_or, ◌>>>◌, bit_and}

-- Two digits of a table for each byte.
unfoldable pub hex_digits : List ℕ → List ℕ → List ℕ
hex_digits digits [] = []
hex_digits digits (byte ∷ digest) =
    get_or digits (byte >>> 4) 0 ∷ get_or digits (bit_and byte 0x0f) 0 ∷ hex_digits digits digest

-- The texts end with a NUL.
unfoldable pub sha256_to_hex : List ℕ → List ℕ
sha256_to_hex digest = hex_digits (codes "0123456789abcdef") digest ++ (0 ∷ [])

unfoldable pub bootflag_digest_to_hex : List ℕ → List ℕ
bootflag_digest_to_hex digest = hex_digits (codes "0123456789ABCDEF") digest ++ (0 ∷ [])
