-- ===== src/Executors/Storage/Resume.antt =====
-- executors/storage.py: the storage step over a disk that an earlier run has set up.
use arch_installer.Prelude.{◌≡◌, String, contains, [], true, false, some}
use arch_installer.Core.Commands.{probe}
use arch_installer.Core.Commands.Probes.{Probe}
use arch_installer.Core.Exec.{Machine, Invocation, Exec, plain}
use arch_installer.Core.Exec.Emits.{
  Emits, Yields, Succeeds, Prints, emits_rules, Emits-bind, Emits-bind-Yields, Emits-if,
  Yields-bind, Yields-succeeds, Yields-succeeded, Yields-run_with,
}
use arch_installer.Core.Exec.Devices.{OverwritesIn, path_rules}
use arch_installer.Config.Models.Enums.{WipeMethod}
use arch_installer.Config.Models.Storage.{cryptroot_device}
use arch_installer.Config.Models.{
  InstallerConfig, encrypted_device, efi_partition, luks_header_device,
}
use arch_installer.Executors.Base.{is_mountpoint, file_exists}
use arch_installer.Executors.Storage.Partitions.{
  cleanup_stale_mounts, partitions_exist, effective_wipe_method,
}
use arch_installer.Executors.Storage.Volumes.{
  detached_header_option, luks_is_usable, setup_luks, create_subvolume, create_subvolumes,
  setup_btrfs, mount_subvolume, mount_efi_partition, mount_filesystems, create_swapfile,
  reuse_mapping, ensure_header, ensure_btrfs, ensure_vfat, open_luks,
}
use arch_installer.Executors.Storage.{
  keep_existing, prepare_internal_disk, prepare_disk, converge, execute,
}

-- `cryptsetup open --test-passphrase`, with the password on its input
abbrev pub passphrase_test : InstallerConfig → Invocation
passphrase_test config = record {
  command = probe (Probe.test_passphrase (detached_header_option config) (encrypted_device config));
  input = some config.credentials.luks_password;
}

-- The machine answers as one whose disk an earlier run has set up, whatever was run before: both
-- partitions are there, the LUKS header is valid, the password opens it, and both file systems are
-- made.
pub record IsIntact (w : Machine) (config : InstallerConfig) : Type 0 where
  pub has_efi : Succeeds w (plain (probe (Probe.list_device (efi_partition config))))
  pub has_encrypted : Succeeds w (plain (probe (Probe.list_device (encrypted_device config))))
  pub has_header : Succeeds w (plain (probe (Probe.is_luks (luks_header_device config))))
  pub unlocks : Succeeds w (passphrase_test config)
  pub has_btrfs :
      Prints w (plain (probe (Probe.blkid cryptroot_device))) (contains "TYPE=\"btrfs\"")
  pub has_vfat :
      Prints w (plain (probe (Probe.blkid (efi_partition config)))) (contains "TYPE=\"vfat\"")

ruleset keep_rules = (emits_rules, path_rules, tt)

module _ (w : Machine) (config : InstallerConfig) (intact : IsIntact w config) where
  abbrev Spares : {A : Type 0} → Exec A → Type 0
  Spares m = Emits w (OverwritesIn []) m

  cleanup-Spares : Spares cleanup_stale_mounts
  unfolding cleanup_stale_mounts
  cleanup-Spares = search keep_rules depth 30

  partitions_exist-Spares : Spares (partitions_exist config)
  unfolding partitions_exist
  partitions_exist-Spares = search keep_rules depth 30

  partitions_exist-Yields : Yields w (λ b. b ≡ true) (partitions_exist config)
  unfolding partitions_exist
  partitions_exist-Yields =
      Yields-bind (λ b. b ≡ true) _ _ (Yields-succeeds _ intact.has_efi)
        λ b found. rw found (Yields-succeeds _ intact.has_encrypted)

  luks_is_usable-Spares : Spares (luks_is_usable config)
  unfolding luks_is_usable
  luks_is_usable-Spares = search keep_rules depth 30

  luks_is_usable-Yields : Yields w (λ b. b ≡ true) (luks_is_usable config)
  unfolding luks_is_usable
  luks_is_usable-Yields =
      Yields-bind (λ b. b ≡ true) _ _ (Yields-succeeds _ intact.has_header)
        λ b found. rw found (Yields-succeeded (passphrase_test config) intact.unlocks)

  prepare_disk-Spares : Spares (prepare_disk config WipeMethod.skip)
  unfolding prepare_disk prepare_internal_disk
  prepare_disk-Spares = Emits-if config.usb_boot.enabled _ _ (search keep_rules) (
      Emits-bind-Yields (λ b. b ≡ true) _ _ partitions_exist-Spares partitions_exist-Yields
        (λ b found. rw found (
          Emits-bind-Yields (λ b. b ≡ true) _ _ luks_is_usable-Spares luks_is_usable-Yields
            (λ u usable. rw usable (search keep_rules)))))

  ensure_header-Spares : Spares (ensure_header config)
  unfolding ensure_header
  ensure_header-Spares =
      Emits-bind-Yields (λ b. b ≡ true) _ _ (search keep_rules depth 30)
        (Yields-succeeds _ intact.has_header) λ b found. rw found (search keep_rules)

  setup_luks-Spares : Spares (setup_luks config)
  unfolding setup_luks reuse_mapping open_luks
  setup_luks-Spares = search (keep_rules, ensure_header-Spares) depth 30

  create_subvolumes-Spares : Spares (create_subvolumes config)
  unfolding create_subvolumes create_subvolume
  create_subvolumes-Spares = search keep_rules depth 30

  ensure_btrfs-Spares : (label : String) → Spares (ensure_btrfs label)
  unfolding ensure_btrfs
  ensure_btrfs-Spares label =
      Emits-bind-Yields _ _ _ (search keep_rules) (Yields-run_with _ _ _ intact.has_btrfs)
        λ r found. rw found (search keep_rules)

  setup_btrfs-Spares : Spares (setup_btrfs config)
  unfolding setup_btrfs is_mountpoint
  setup_btrfs-Spares = search (keep_rules, ensure_btrfs-Spares, create_subvolumes-Spares) depth 30

  ensure_vfat-Spares : Spares (ensure_vfat (efi_partition config))
  unfolding ensure_vfat
  ensure_vfat-Spares =
      Emits-bind-Yields _ _ _ (search keep_rules) (Yields-run_with _ _ _ intact.has_vfat)
        λ r found. rw found (search keep_rules)

  mount_filesystems-Spares : Spares (mount_filesystems config)
  unfolding mount_filesystems mount_subvolume mount_efi_partition
  mount_filesystems-Spares = search (keep_rules, ensure_vfat-Spares) depth 40

  create_swapfile-Spares : Spares (create_swapfile config)
  unfolding create_swapfile file_exists
  create_swapfile-Spares = search keep_rules depth 40

  effective-skip :
      config.migration.enabled ≡ false
      → config.storage.wipe_method ≡ WipeMethod.skip
      → effective_wipe_method config ≡ WipeMethod.skip
  unfolding effective_wipe_method
  effective-skip fresh skips = rw fresh skips

  converge-Spares : effective_wipe_method config ≡ WipeMethod.skip → Spares (converge config)
  unfolding converge
  converge-Spares skips = rw skips (
      search
        (
          keep_rules, cleanup-Spares, prepare_disk-Spares, setup_luks-Spares, setup_btrfs-Spares,
          mount_filesystems-Spares, create_swapfile-Spares,
        )
        depth 30)

  -- A storage step without migration whose wipe method is `skip`, on a machine whose disk an
  -- earlier run has set up, overwrites no device at all, with a USB boot drive and without.
  pub execute-spares_intact :
      config.migration.enabled ≡ false
      → config.storage.wipe_method ≡ WipeMethod.skip
      → Emits w (OverwritesIn []) (execute config)
  unfolding execute keep_existing is_mountpoint
  execute-spares_intact fresh skips = Emits-bind _ _ (search keep_rules depth 30) λ mounted.
      Emits-if mounted _ _ (search keep_rules depth 30)
        (converge-Spares (effective-skip fresh skips))
