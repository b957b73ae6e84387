-- ===== src/Tests.antt =====
-- The theorems at concrete inputs.
mod Fixtures
mod Storage
mod Settings
mod Steps
mod Drives
mod Install
mod Screens
mod Disks
mod Secrets
mod Stored
mod Commands
