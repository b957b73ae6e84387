-- ===== src/Executors/Storage.antt =====
-- executors/storage.py: `StorageStepExecutor`. The phases are in the children, and so are the proofs.
pub mod Partitions
pub mod Volumes
pub mod Safety
pub mod Resume
use arch_installer.Prelude.{Bool, ◌&&◌, pos, ltb_ℤ, if◌then◌else◌}
use arch_installer.Core.Commands.{Command, probe}
use arch_installer.Core.Commands.Probes.{Probe}
use arch_installer.Core.Exec.{Exec, Done, pure, do_attempt, attempt, ◌>>=◌, ◌>>◌}
use arch_installer.Config.Models.Enums.{WipeMethod, is_skip}
use arch_installer.Config.Models.{InstallerConfig}
use arch_installer.Executors.Base.{is_mountpoint}
use arch_installer.Executors.Storage.Partitions.{
  effective_wipe_method, cleanup_stale_mounts, partitions_exist, wipe_disk, create_partitions,
}
use arch_installer.Executors.Storage.Volumes.{
  luks_is_usable, setup_luks, setup_btrfs, mount_filesystems, create_swapfile,
}

-- `/mnt` is mounted already: its source and the EFI mount are looked at, and nothing else
unfoldable pub keep_existing : Exec Done
keep_existing = do
  do_attempt (probe (Probe.mount_source "/mnt"))
  efi_mounted ← is_mountpoint "/mnt/efi"
  pure tt

-- the disk without a USB boot drive, by the effective wipe method
unfoldable pub prepare_internal_disk : InstallerConfig → WipeMethod → Exec Done
prepare_internal_disk config method =
    if is_skip method
    then (do
      exist ← partitions_exist config
      if exist
          then (do
            usable ← luks_is_usable config
            if usable then pure tt else (do
              wipe_disk config.storage.target_disk WipeMethod.quick
              create_partitions config))
          else create_partitions config)
    else (do wipe_disk config.storage.target_disk method; create_partitions config)

unfoldable pub prepare_disk : InstallerConfig → WipeMethod → Exec Done
prepare_disk config method =
    if config.usb_boot.enabled
    then if is_skip method then pure tt else wipe_disk config.storage.target_disk method
    else prepare_internal_disk config method

unfoldable pub converge : InstallerConfig → Exec Done
converge config = do
  cleanup_stale_mounts
  prepare_disk config (effective_wipe_method config)
  setup_luks config
  setup_btrfs config
  mount_filesystems config
  if config.storage.swap.enabled && ltb_ℤ (pos 0) config.storage.swap.size_mb
      then create_swapfile config
      else pure tt

unfoldable pub execute : InstallerConfig → Exec Done
execute config = do
  mounted ← is_mountpoint "/mnt"
  if mounted then keep_existing else converge config
