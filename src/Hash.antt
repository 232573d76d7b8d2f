-- ===== src/Hash.antt =====
-- The two hash functions of the program, src/sha256.c and the SHA-1 of src/bootflag.c, and the
-- text form of digests. `Padding` is the description that both are compared with.
pub mod Padding
pub mod Sha256
pub mod Sha1
pub mod Hex
