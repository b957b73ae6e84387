-- ===== src/Executors/Migration.antt =====
-- executors/migration.py: the staging of an old install before the disk is wiped, and its restoration.
pub mod Staging
pub mod Restore
pub mod Cleanup
