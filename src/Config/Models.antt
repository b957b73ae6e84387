-- ===== src/Config/Models.antt =====
-- models.py: the frozen configuration. `tuple[T, ...]` is a list, an `int` may be negative.
pub mod Enums
pub mod System
pub mod Storage
pub mod Boot
pub mod Features
use arch_installer.Prelude.{String, if◌then◌else◌}
use System.{SystemConfig, PackagesConfig, GpuConfig}
use Storage.{
  StorageConfig, UsbBootConfig, derive_partition_path, usb_efi_partition, usb_luks_header_partition,
}
use Boot.{BootConfig}
use Features.{
  SnapperConfig, FirewallConfig, DockerConfig, NotificationsConfig, SyncConfig, MigrationConfig,
  EncryptedSecretsConfig, Credentials,
}

pub record InstallerConfig : Type 0 where
  pub system : SystemConfig
  pub packages : PackagesConfig
  pub storage : StorageConfig
  pub boot : BootConfig
  pub gpu : GpuConfig
  pub snapper : SnapperConfig
  pub firewall : FirewallConfig
  pub docker : DockerConfig
  pub notifications : NotificationsConfig
  pub sync : SyncConfig
  pub migration : MigrationConfig
  pub usb_boot : UsbBootConfig
  pub secrets : EncryptedSecretsConfig
  pub credentials : Credentials

unfoldable pub encrypted_device : InstallerConfig → String
encrypted_device c =
    if c.usb_boot.enabled
    then c.storage.target_disk
    else derive_partition_path c.storage.target_disk 2

unfoldable pub efi_partition : InstallerConfig → String
efi_partition c =
    if c.usb_boot.enabled
    then usb_efi_partition c.usb_boot
    else derive_partition_path c.storage.target_disk 1

unfoldable pub luks_header_device : InstallerConfig → String
unfolding encrypted_device
luks_header_device c =
    if c.usb_boot.enabled then usb_luks_header_partition c.usb_boot else encrypted_device c
