-- ===== src/Config/Models/Storage.antt =====
-- models.py: the storage and USB boot sections, and the names of partitions.
use arch_installer.Prelude.{
  String, ◌<>◌, Bool, List, ◌||◌, ◌==◌, contains, ℕ, show_nat, ℤ, if◌then◌else◌,
}
use arch_installer.Config.Models.Enums.{WipeMethod}

abbrev pub cryptroot_mapper_name : String
cryptroot_mapper_name = "cryptroot"

unfoldable pub derive_partition_path : String → ℕ → String
derive_partition_path disk partition_number =
    if disk == ""
    then ""
    else if contains "nvme" disk || contains "loop" disk
    then disk <> "p" <> show_nat partition_number
    else disk <> show_nat partition_number

pub record LuksConfig : Type 0 where
  pub type : String
  pub cipher : String
  pub key_size : ℤ
  pub hash : String
  pub pbkdf : String
  pub pbkdf_memory : ℤ
  pub pbkdf_parallel : ℤ
  pub pbkdf_time_ms : ℤ

pub record SubvolumeConfig : Type 0 where
  pub name : String
  pub mountpoint : String
  pub nocow : Bool

pub record BtrfsConfig : Type 0 where
  pub label : String
  pub mount_options : String
  pub subvolumes : List SubvolumeConfig

pub record SwapConfig : Type 0 where
  pub enabled : Bool
  pub size_mb : ℤ
  pub path : String
  pub hibernation : Bool

pub record StorageConfig : Type 0 where
  pub target_disk : String
  pub efi_size_mb : ℤ
  pub wipe_method : WipeMethod
  pub luks : LuksConfig
  pub btrfs : BtrfsConfig
  pub swap : SwapConfig

-- The property `cryptroot_device`, the same for every storage section.
abbrev pub cryptroot_device : String
cryptroot_device = "/dev/mapper/cryptroot"

pub record UsbBootConfig : Type 0 where
  pub enabled : Bool
  pub device : String
  pub recovery_system : Bool
  pub iso_path : String

unfoldable pub usb_efi_partition : UsbBootConfig → String
usb_efi_partition u = derive_partition_path u.device 1

unfoldable pub usb_luks_header_partition : UsbBootConfig → String
usb_luks_header_partition u = derive_partition_path u.device 2

unfoldable pub usb_recovery_partition : UsbBootConfig → String
usb_recovery_partition u = derive_partition_path u.device 3
