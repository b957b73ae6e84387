-- ===== src/Executors/Boot.antt =====
-- executors/boot.py: the kernel images with Secure Boot, and the boot loader.
pub mod Texts
pub mod SecureBoot
pub mod Images
pub mod Loader
pub mod Emissions
pub mod Enrollment
