-- ===== src/Bootflag.antt =====
-- src/bootflag.c: the 512-byte image `bootflag.txt` of the PSX flash, 20 bytes of SHA-1 before a
-- payload of NUL-terminated keys. `int` results that are only 0 or 1 are booleans; a pointer into a
-- buffer is the rest of the buffer.
pub mod Image
pub mod Scan
pub mod ReadOnly
