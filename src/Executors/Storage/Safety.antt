-- ===== src/Executors/Storage/Safety.antt =====
-- executors/storage.py: which devices the storage step overwrites.
use arch_installer.Prelude.{refl, Bool-cases, inl, inr, String, List, [], ◌∷◌, ℕ, zero, suc}
use arch_installer.Core.Exec.{Machine, Exec, sleep, do_attempt}
use arch_installer.Core.Commands.{disk}
use arch_installer.Core.Commands.Disks
use arch_installer.Core.Commands.Disks.{header_devices}
use arch_installer.Core.Exec.Emits.{Emits, emits_rules, Emits-bind, Emits-if}
use arch_installer.Core.Exec.Devices.{DevicesIn, path_rules, OverwritesIn}
use arch_installer.Config.Models.Enums.{WipeMethod}
use arch_installer.Config.Models.Storage.{cryptroot_device, SubvolumeConfig}
use arch_installer.Config.Models.{
  InstallerConfig, encrypted_device, efi_partition, luks_header_device,
}
use arch_installer.Executors.Base.{is_mountpoint, path_exists, file_exists}
use arch_installer.Executors.Storage.Partitions.{
  cleanup_stale_mounts, partitions_exist, fill_disk, wipe_disk, prepare_loop_device, create_node,
  make_node_from, create_loop_partition_nodes, wait_loop, wait_for_partitions, create_partitions,
}
use arch_installer.Executors.Storage.Volumes.{
  detached_header_device, luks_is_usable, setup_luks, create_subvolume, create_subvolumes,
  setup_btrfs, mount_subvolume, mount_efi_partition, mount_filesystems, create_swapfile,
  reuse_mapping, ensure_header, ensure_btrfs, ensure_vfat, format_luks, open_luks,
}
use arch_installer.Executors.Storage.{
  keep_existing, prepare_internal_disk, prepare_disk, converge, execute,
}

-- The target disk, its two parts, the device of the LUKS header, and the volume inside the encrypted part.
abbrev pub own_devices : InstallerConfig → List String
own_devices config =
    config.storage.target_disk
    ∷ efi_partition config
    ∷ encrypted_device config
    ∷ luks_header_device config
    ∷ cryptroot_device
    ∷ []

ruleset own_rules = (emits_rules, path_rules, inl, inr, tt)

module _ (w : Machine) (config : InstallerConfig) where
  abbrev Stays : {A : Type 0} → Exec A → Type 0
  Stays m = Emits w (OverwritesIn (own_devices config)) m

  cleanup-Stays : Stays cleanup_stale_mounts
  unfolding cleanup_stale_mounts
  cleanup-Stays = search own_rules depth 30

  fill-Stays : (m : WipeMethod) → Stays (fill_disk config.storage.target_disk m)
  unfolding fill_disk
  fill-Stays WipeMethod.secure = search own_rules depth 30
  fill-Stays _ = search own_rules depth 30

  wipe-Stays : (m : WipeMethod) → Stays (wipe_disk config.storage.target_disk m)
  unfolding wipe_disk
  wipe-Stays m = search (own_rules, fill-Stays) depth 30

  partitions_exist-Stays : Stays (partitions_exist config)
  unfolding partitions_exist
  partitions_exist-Stays = search own_rules depth 30

  prepare_loop-Stays : (d : String) → Stays (prepare_loop_device d)
  unfolding prepare_loop_device
  prepare_loop-Stays d = search own_rules depth 30

  make_node-Stays : (node : String) (parts : List String) → Stays (make_node_from node parts)
  unfolding make_node_from
  make_node-Stays node (_ ∷ (_ ∷ [])) = search own_rules depth 30
  make_node-Stays node _ = search own_rules depth 30

  create_node-Stays : (parts : List String) → Stays (create_node parts)
  unfolding create_node path_exists
  create_node-Stays (name ∷ (numbers ∷ (kind ∷ rest))) =
      search (own_rules, make_node-Stays) depth 30
  create_node-Stays _ = search own_rules depth 30

  create_nodes-Stays : (d : String) → Stays (create_loop_partition_nodes d)
  unfolding create_loop_partition_nodes
  create_nodes-Stays d = search (own_rules, create_node-Stays) depth 30

  wait_loop-Stays : (d t : String) (n : ℕ) → Stays (wait_loop d t n)
  unfolding wait_loop path_exists
  wait_loop-Stays d t zero = search own_rules
  wait_loop-Stays d t (suc n) = Emits-bind (path_exists d) _ (search own_rules depth 30) λ found.
      Emits-if found _ _ (search own_rules) (
        Emits-bind (sleep 1) _ (search own_rules) (λ _.
          Emits-bind (do_attempt (disk (Disks.partprobe t))) _ (search own_rules depth 30)
            (λ _. wait_loop-Stays d t n)))

  create_partitions-Stays : Stays (create_partitions config)
  unfolding create_partitions wait_for_partitions
  create_partitions-Stays =
      search (own_rules, prepare_loop-Stays, create_nodes-Stays, wait_loop-Stays) depth 40

  luks_is_usable-Stays : Stays (luks_is_usable config)
  unfolding luks_is_usable
  luks_is_usable-Stays = search own_rules depth 30

  -- a detached header lies on the boot drive's partition for it
  header-In : DevicesIn (own_devices config) (header_devices (detached_header_device config))
  unfolding detached_header_device luks_header_device
  header-In = elim (Bool-cases config.usb_boot.enabled) [
    | inl detached ↦ rw detached (inr (inr (inr (inl refl))), tt)
    | inr attached ↦ rw attached tt
  ]

  setup_luks-Stays : Stays (setup_luks config)
  unfolding setup_luks reuse_mapping ensure_header format_luks open_luks
  setup_luks-Stays = search (own_rules, header-In) depth 30

  create_subvolumes-Stays : Stays (create_subvolumes config)
  unfolding create_subvolumes create_subvolume
  create_subvolumes-Stays = search own_rules depth 30

  setup_btrfs-Stays : Stays (setup_btrfs config)
  unfolding setup_btrfs ensure_btrfs is_mountpoint
  setup_btrfs-Stays = search (own_rules, create_subvolumes-Stays) depth 40

  mount_subvolume-Stays : (o : String) (v : SubvolumeConfig) → Stays (mount_subvolume o v)
  unfolding mount_subvolume
  mount_subvolume-Stays o v = search own_rules depth 30

  mount_efi-Stays : Stays (mount_efi_partition config)
  unfolding mount_efi_partition ensure_vfat
  mount_efi-Stays = search own_rules depth 30

  mount_filesystems-Stays : Stays (mount_filesystems config)
  unfolding mount_filesystems
  mount_filesystems-Stays = search (own_rules, mount_subvolume-Stays, mount_efi-Stays) depth 30

  create_swapfile-Stays : Stays (create_swapfile config)
  unfolding create_swapfile file_exists
  create_swapfile-Stays = search own_rules depth 40

  prepare_disk-Stays : (m : WipeMethod) → Stays (prepare_disk config m)
  unfolding prepare_disk prepare_internal_disk
  prepare_disk-Stays m =
      search
        (
          own_rules, wipe-Stays, partitions_exist-Stays, create_partitions-Stays,
          luks_is_usable-Stays,
        )
        depth 30

  converge-Stays : Stays (converge config)
  unfolding converge
  converge-Stays =
      search
        (
          own_rules, cleanup-Stays, prepare_disk-Stays, setup_luks-Stays, setup_btrfs-Stays,
          mount_filesystems-Stays, create_swapfile-Stays,
        )
        depth 30

  -- On every machine and from every trace, whether it returns or raises, the storage step
  -- overwrites no device but the target disk, the EFI partition, the encrypted device, the device of
  -- the LUKS header, which is a partition of the USB boot drive where one is used, and the opened volume.
  -- Writing a file to a path below /dev/ counts too.
  pub execute-OverwritesIn : Emits w (OverwritesIn (own_devices config)) (execute config)
  unfolding execute keep_existing is_mountpoint
  execute-OverwritesIn = search (own_rules, converge-Stays) depth 30
