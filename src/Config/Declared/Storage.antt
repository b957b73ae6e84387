-- ===== src/Config/Declared/Storage.antt =====
-- models.py: the fields of the storage and USB boot drive sections, with their types.
use arch_installer.Config.Schema.{
  text_type, int_type, bool_type, tuple_type, section_type, Section, done, declare,
}
use arch_installer.Config.Declared.Members.{wipe_method_type}

abbrev pub luks_config_section : Section
luks_config_section = declare "type" text_type (
    declare "cipher" text_type (
      declare "key_size" int_type (
        declare "hash" text_type (
          declare "pbkdf" text_type (
            declare "pbkdf_memory" int_type
              (declare "pbkdf_parallel" int_type (declare "pbkdf_time_ms" int_type (done))))))))

abbrev pub subvolume_config_section : Section
subvolume_config_section =
    declare "name" text_type (declare "mountpoint" text_type (declare "nocow" bool_type (done)))

abbrev pub btrfs_config_section : Section
btrfs_config_section = declare "label" text_type (
    declare "mount_options" text_type
      (declare "subvolumes" (tuple_type (section_type subvolume_config_section)) (done)))

abbrev pub swap_config_section : Section
swap_config_section =
    declare "enabled" bool_type (
      declare "size_mb" int_type
        (declare "path" text_type (declare "hibernation" bool_type (done))))

abbrev pub storage_config_section : Section
storage_config_section = declare "target_disk" text_type (
    declare "efi_size_mb" int_type (
      declare "wipe_method" wipe_method_type (
        declare "luks" (section_type luks_config_section) (
          declare "btrfs" (section_type btrfs_config_section)
            (declare "swap" (section_type swap_config_section) (done))))))

abbrev pub usb_boot_config_section : Section
usb_boot_config_section = declare "enabled" bool_type (
    declare "device" text_type
      (declare "recovery_system" bool_type (declare "iso_path" text_type (done))))
