-- ===== src/Zfs.antt =====
-- The directory zfs.
pub mod Destroy
pub mod DatasetPath
pub mod Namecheck
