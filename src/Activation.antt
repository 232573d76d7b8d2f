-- ===== src/Activation.antt =====
-- src/activation.c: the bootflag image in the console's flash is read, generated, written and read
-- back. Duration fields are left out.
pub mod Read
pub mod Prepare
pub mod Arm
pub mod Reading
pub mod Arming
pub mod Success
pub mod Writing
pub mod Preparing
