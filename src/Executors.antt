-- ===== src/Executors.antt =====
-- src/arch_installer/executors: one module for each install step's executor.
pub mod Base
pub mod Storage
pub mod Mirrors
pub mod System
pub mod Packages
pub mod Gpu
pub mod Firewall
pub mod Docker
pub mod UsbBoot
pub mod Boot
pub mod Harmless
pub mod Migration
pub mod Recovery
pub mod Snapper
pub mod UsbBackup
