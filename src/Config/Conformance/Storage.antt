-- ===== src/Config/Conformance/Storage.antt =====
-- The storage and USB boot drive sections have the declared types.
use arch_installer.Prelude.{◌≡◌, refl, true}
use arch_installer.Config.Schema.{section_type}
use arch_installer.Config.Export.{conforms, fields_conform}
use arch_installer.Config.Models.Storage.{
  LuksConfig, SubvolumeConfig, BtrfsConfig, SwapConfig, StorageConfig, UsbBootConfig,
}
use arch_installer.Config.Declared.Storage.{
  luks_config_section, subvolume_config_section, btrfs_config_section, swap_config_section,
  storage_config_section, usb_boot_config_section,
}
use arch_installer.Config.AsDict.Storage.{
  luks_config_dict, subvolume_config_dict, btrfs_config_dict, swap_config_dict, storage_config_dict,
  usb_boot_config_dict,
}
use arch_installer.Config.Conformance.Members.{both, items_of-conforms, wipe_method-conforms}

pub luks_config_dict-conforms :
    (c : LuksConfig) → conforms (section_type luks_config_section) (luks_config_dict c) ≡ true
unfolding luks_config_dict conforms fields_conform
luks_config_dict-conforms c = refl

pub subvolume_config_dict-conforms :
    (c : SubvolumeConfig)
    → conforms (section_type subvolume_config_section) (subvolume_config_dict c) ≡ true
unfolding subvolume_config_dict conforms fields_conform
subvolume_config_dict-conforms c = refl

pub btrfs_config_dict-conforms :
    (c : BtrfsConfig) → conforms (section_type btrfs_config_section) (btrfs_config_dict c) ≡ true
unfolding btrfs_config_dict conforms fields_conform
btrfs_config_dict-conforms c =
    both
      (items_of-conforms (section_type subvolume_config_section) subvolume_config_dict
        subvolume_config_dict-conforms c.subvolumes)
      (refl)

pub swap_config_dict-conforms :
    (c : SwapConfig) → conforms (section_type swap_config_section) (swap_config_dict c) ≡ true
unfolding swap_config_dict conforms fields_conform
swap_config_dict-conforms c = refl

pub storage_config_dict-conforms :
    (c : StorageConfig)
    → conforms (section_type storage_config_section) (storage_config_dict c) ≡ true
unfolding storage_config_dict conforms fields_conform
storage_config_dict-conforms c = both (wipe_method-conforms c.wipe_method) (
    both (luks_config_dict-conforms c.luks)
      (both (btrfs_config_dict-conforms c.btrfs) (both (swap_config_dict-conforms c.swap) (refl))))

pub usb_boot_config_dict-conforms :
    (c : UsbBootConfig)
    → conforms (section_type usb_boot_config_section) (usb_boot_config_dict c) ≡ true
unfolding usb_boot_config_dict conforms fields_conform
usb_boot_config_dict-conforms c = refl
