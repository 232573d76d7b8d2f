-- ===== src/Lib.antt =====
-- A model of RepairBox PSX HDD Setup, the program that prepares hard disks and the flash memory of
-- Sony's PSX (DESR) consoles, and theorems about it.
--
-- The program runs on the console. src/main.c shows the menus and calls the parts; each part writes
-- a result record with every return value, and refuses to write unless the parts before it have
-- succeeded. The parts that are modelled, with their files here:
--   Hash          src/sha256.c (Hash/Sha256) and the SHA-1 of src/bootflag.c (Hash/Sha1); the
--                 reference of both is Hash/Padding, and Hash/Hex prints digests
--   Bootflag      src/bootflag.c: the image of 512 bytes in the flash that tells the console's
--                 system to set the disk up (Bootflag/Image generates it, Bootflag/Scan reads it);
--                 Bootflag/ReadOnly is the second reader, src/bootflag_ro.c
--   Activation    src/activation.c: the image is read, generated, written and read back
--   Bootstrap     src/bootstrap.c: the boot prefix of the disk (Bootstrap/Validate hashes it and reads its
--                 checksum file, Bootstrap/Write writes it and reads it back)
--   FormatTest    src/psx1_format_test.c: what a scan of a drive says about formatting it; the scan is
--                 the record of Inspector (include/inspector.h)
--   Psx1          src/psx1_pipeline.c: format, check and fill a disk of the first revision (Psx1/Execute
--                 has the stages, Psx1/FormatJob the formatter's thread, Psx1/Cleanup the recovery)
--   Installer     src/installer.c: the system files are copied from the source medium to the partitions
--                 (Installer/Scan and Installer/Scan/Source list them, Installer/Copy copies a file
--                 and reads it back, Installer/Execute mounts and fills the partitions)
--   DirectReady40 src/direct_ready40.c: format, check and fill a disk of the second revision, from the
--                 parts above and below (DirectReady40/Table tests the layouts,
--                 DirectReady40/Preflight looks before a run, DirectReady40/Volume formats and checks
--                 file systems, DirectReady40/Execute runs the stages)
--   Storage       src/storage.c: the scan of the partitions of the two hard disk devices
--   Capacity      src/capacity_profile.c
--   IopModule     src/iop_module_lookup.c
--   Xfrom         src/xfrom_repair.c: the repair of the system files in the flash (Xfrom/Tables has the
--                 known files, Xfrom/Validate checks the source, Xfrom/Cleanup removes what does not
--                 belong there, Xfrom/Copy reads, writes and hashes, Xfrom/Execute runs the repair)
-- Psx1 takes what it uses of the inspector and the installer as the record `Parts`; Psx1/Package says
-- what it relies on of an installer, and Psx1/Package/Filled fills the record with Installer.
-- FileXio has the calls of PS2SDK's fileXio library, which is no part of the repository, as a record
-- that the models take as a parameter, Drive those on sectors and mounts, and Psx1/FormatJob the
-- formatter's; FileXio/LawfulFile says what the theorems about success ask of it. Base has
-- what the modules share.
--
-- A function of the program is a definition of its name. `int` is Base's ℤ, unsigned numbers are ℕ
-- with the wrap written out where the code can reach it, buffers and texts are lists of bytes, and
-- a record has the fields of the C structure. A function that calls the system takes the state of
-- the devices to the next (`Io`). Buffers that the code does not initialise are arguments.
--
-- Loops are structural recursion or run on fuel. The fuel of the loops over buffers is the number
-- of bytes, since each round takes at least one; of the module list it is the code's own limit,
-- 256. The loop over a folder has no bound in the code: its fuel is an argument, and it is enough
-- where it is greater than the number of entries. The scan of a device is bounded the same way. The
-- installer's loops over a file have their fuel as an argument too; its folders are at most 1024
-- deep, since a path is shorter than 1024. The hash of a file has the code's limit of 8 MiB as
-- fuel, the passes over the prefix and over the old headers the number of sectors; the hash of the
-- prefix and the wait for a thread, which have no bound in the code, have it as an argument.
--
-- Not modelled: durations, delays, reports of progress and the screen, and so far the inspector and
-- the parts that fill other disks (src/psx1_inspector.c, src/direct_ready40_multi.c, src/apps/app_installer.c
-- and others).
pub mod Activation
pub mod Base
pub mod Bootflag
pub mod Bootstrap
pub mod Capacity
pub mod DirectReady40
pub mod Drive
pub mod FileXio
pub mod FormatTest
pub mod Hash
pub mod Inspector
pub mod Installer
pub mod IopModule
pub mod Psx1
pub mod Storage
mod Tests
pub mod Xfrom
