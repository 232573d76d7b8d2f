-- ===== src/Tests.antt =====
-- The definitions at concrete inputs.
mod Hashes
mod Memory
mod Folder
mod Sums
mod Repairs
mod Activations
mod Consoles
mod Disks
mod Installs
mod Layouts
mod Pipelines
mod Images
