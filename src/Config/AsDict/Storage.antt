-- ===== src/Config/AsDict/Storage.antt =====
-- models.py: `asdict` of the storage and USB boot drive sections.
use arch_installer.Config.Value.{Value, bool, int, text, tuple, dict, end, field}
use arch_installer.Config.Models.Storage.{
  LuksConfig, SubvolumeConfig, BtrfsConfig, SwapConfig, StorageConfig, UsbBootConfig,
}
use arch_installer.Config.AsDict.Members.{items_of, wipe_method_value}

unfoldable pub luks_config_dict : LuksConfig → Value
luks_config_dict c = dict (
    field "type" (text c.type) (
      field "cipher" (text c.cipher) (
        field "key_size" (int c.key_size) (
          field "hash" (text c.hash) (
            field "pbkdf" (text c.pbkdf) (
              field "pbkdf_memory" (int c.pbkdf_memory) (
                field "pbkdf_parallel" (int c.pbkdf_parallel)
                  (field "pbkdf_time_ms" (int c.pbkdf_time_ms) (end)))))))))

unfoldable pub subvolume_config_dict : SubvolumeConfig → Value
subvolume_config_dict c = dict (
    field "name" (text c.name)
      (field "mountpoint" (text c.mountpoint) (field "nocow" (bool c.nocow) (end))))

unfoldable pub btrfs_config_dict : BtrfsConfig → Value
unfolding items_of subvolume_config_dict
btrfs_config_dict c = dict (
    field "label" (text c.label) (
      field "mount_options" (text c.mount_options)
        (field "subvolumes" (tuple (items_of subvolume_config_dict c.subvolumes)) (end))))

unfoldable pub swap_config_dict : SwapConfig → Value
swap_config_dict c = dict (
    field "enabled" (bool c.enabled) (
      field "size_mb" (int c.size_mb)
        (field "path" (text c.path) (field "hibernation" (bool c.hibernation) (end)))))

unfoldable pub storage_config_dict : StorageConfig → Value
unfolding btrfs_config_dict luks_config_dict swap_config_dict
storage_config_dict c = dict (
    field "target_disk" (text c.target_disk) (
      field "efi_size_mb" (int c.efi_size_mb) (
        field "wipe_method" (wipe_method_value c.wipe_method) (
          field "luks" (luks_config_dict c.luks) (
            field "btrfs" (btrfs_config_dict c.btrfs)
              (field "swap" (swap_config_dict c.swap) (end)))))))

unfoldable pub usb_boot_config_dict : UsbBootConfig → Value
usb_boot_config_dict c = dict (
    field "enabled" (bool c.enabled) (
      field "device" (text c.device) (
        field "recovery_system" (bool c.recovery_system)
          (field "iso_path" (text c.iso_path) (end)))))
