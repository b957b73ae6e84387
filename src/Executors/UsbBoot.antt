-- ===== src/Executors/UsbBoot.antt =====
-- executors/usb_boot.py: the preparation of the USB boot drive, and the clone of one.
pub mod Inspector
pub mod Iso
pub mod Drive
pub mod Cloner
mod Reads
pub mod Safety
pub mod Cloning
pub mod Capacity
pub mod Safeguards
