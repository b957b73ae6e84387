-- ===== src/Config/Instances/Storage.antt =====
-- The values of the storage and USB boot drive sections.
use arch_installer.Prelude.{refl}
use arch_installer.Config.Schema.{section_type}
use arch_installer.Config.Declared.Storage.{
  luks_config_section, subvolume_config_section, btrfs_config_section, swap_config_section,
  storage_config_section, usb_boot_config_section,
}
use arch_installer.Config.AsDict.Storage.{
  luks_config_dict, subvolume_config_dict, btrfs_config_dict, swap_config_dict, storage_config_dict,
  usb_boot_config_dict,
}
use arch_installer.Config.Instances.Members.{
  Covers, text-Covers, int-Covers, bool-Covers, ◌&◌, done-Covers, section-Covers, tuple-Covers,
  wipe_method_value-Covers,
}

pub luks_config_dict-Covers : Covers (section_type luks_config_section) luks_config_dict
unfolding luks_config_dict
luks_config_dict-Covers =
    section-Covers
      (text-Covers & text-Covers & int-Covers & text-Covers & text-Covers & int-Covers & int-Covers
        & int-Covers & done-Covers)
      (λ p. record {
        type = p.first;
        cipher = p.rest.first;
        key_size = p.rest.rest.first;
        hash = p.rest.rest.rest.first;
        pbkdf = p.rest.rest.rest.rest.first;
        pbkdf_memory = p.rest.rest.rest.rest.rest.first;
        pbkdf_parallel = p.rest.rest.rest.rest.rest.rest.first;
        pbkdf_time_ms = p.rest.rest.rest.rest.rest.rest.rest.first;
      })
      λ p. refl

pub subvolume_config_dict-Covers :
    Covers (section_type subvolume_config_section) subvolume_config_dict
unfolding subvolume_config_dict
subvolume_config_dict-Covers =
    section-Covers (text-Covers & text-Covers & bool-Covers & done-Covers)
      (λ p. record { name = p.first; mountpoint = p.rest.first; nocow = p.rest.rest.first })
      λ p. refl

pub btrfs_config_dict-Covers : Covers (section_type btrfs_config_section) btrfs_config_dict
unfolding btrfs_config_dict
btrfs_config_dict-Covers =
    section-Covers
      (text-Covers & text-Covers & (tuple-Covers subvolume_config_dict-Covers) & done-Covers)
      (λ p. record {
        label = p.first;
        mount_options = p.rest.first;
        subvolumes = p.rest.rest.first;
      })
      λ p. refl

pub swap_config_dict-Covers : Covers (section_type swap_config_section) swap_config_dict
unfolding swap_config_dict
swap_config_dict-Covers =
    section-Covers (bool-Covers & int-Covers & text-Covers & bool-Covers & done-Covers)
      (λ p. record {
        enabled = p.first;
        size_mb = p.rest.first;
        path = p.rest.rest.first;
        hibernation = p.rest.rest.rest.first;
      })
      λ p. refl

pub storage_config_dict-Covers : Covers (section_type storage_config_section) storage_config_dict
unfolding storage_config_dict
storage_config_dict-Covers =
    section-Covers
      (text-Covers & int-Covers & wipe_method_value-Covers & luks_config_dict-Covers
        & btrfs_config_dict-Covers & swap_config_dict-Covers & done-Covers)
      (λ p. record {
        target_disk = p.first;
        efi_size_mb = p.rest.first;
        wipe_method = p.rest.rest.first;
        luks = p.rest.rest.rest.first;
        btrfs = p.rest.rest.rest.rest.first;
        swap = p.rest.rest.rest.rest.rest.first;
      })
      λ p. refl

pub usb_boot_config_dict-Covers : Covers (section_type usb_boot_config_section) usb_boot_config_dict
unfolding usb_boot_config_dict
usb_boot_config_dict-Covers =
    section-Covers (bool-Covers & text-Covers & bool-Covers & text-Covers & done-Covers)
      (λ p. record {
        enabled = p.first;
        device = p.rest.first;
        recovery_system = p.rest.rest.first;
        iso_path = p.rest.rest.rest.first;
      })
      λ p. refl
