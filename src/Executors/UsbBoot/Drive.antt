-- ===== src/Executors/UsbBoot/Drive.antt =====
-- executors/usb_boot.py: `UsbBootDriveStepExecutor`.
use arch_installer.Prelude.{
  String, ◌<>◌, ◌==◌, Bool, true, false, not, ◌&&◌, ℕ, ℤ, pos, ◌+ℤ◌, ltb_ℤ, floor_div, ceil_div,
  is_zero_int, show_int, if◌then◌else◌,
}
use arch_installer.Errors.{usb_boot_drive_error}
use arch_installer.Core.Commands.{disk, files}
use arch_installer.Core.Commands.Disks
use arch_installer.Core.Commands.Files.{make_directory}
use arch_installer.Core.Exec.{Exec, Done, pure, raise, do_run, do_attempt, finally, ◌>>=◌, ◌>>◌}
use arch_installer.Config.Models.Enums.{is_skip}
use arch_installer.Config.Models.Storage.{
  cryptroot_mapper_name, usb_efi_partition, usb_luks_header_partition, usb_recovery_partition,
}
use arch_installer.Config.Models.{InstallerConfig}
use arch_installer.Executors.Base.{is_mountpoint, stable_disk_path}
use arch_installer.Executors.UsbBoot.Inspector.{
  require_disk, size_bytes, wait_for_partition, holds_luks_header,
}
use arch_installer.Executors.UsbBoot.Iso.{image_size_bytes, extract_live_system}

abbrev pub mebibyte : ℕ
mebibyte = 1048576

abbrev pub luks_header_partition_size_mb : ℤ
luks_header_partition_size_mb = pos 32

abbrev pub partition_table_size_mb : ℤ
partition_table_size_mb = pos 2

abbrev pub recovery_mount : String
recovery_mount = "/run/dali/usb-recovery"

unfoldable pub recovery_partition_size_mb : ℤ → ℤ
recovery_partition_size_mb iso_size_bytes =
    let iso_size_mb = ceil_div iso_size_bytes mebibyte in
    iso_size_mb +ℤ floor_div iso_size_mb 10 +ℤ pos 64

unfoldable pub is_resuming : InstallerConfig → Exec Bool
is_resuming config = do
  mounted ← is_mountpoint "/mnt"
  pure
      (if mounted then true else is_skip config.storage.wipe_method && not config.migration.enabled)

unfoldable pub keeps_existing_drive : InstallerConfig → Exec Bool
keeps_existing_drive config = do
  resuming ← is_resuming config
  if resuming then holds_luks_header (usb_luks_header_partition config.usb_boot) else pure false

unfoldable pub needed_mb : InstallerConfig → ℤ → ℤ
needed_mb config recovery_size_mb =
    partition_table_size_mb +ℤ config.storage.efi_size_mb +ℤ luks_header_partition_size_mb
    +ℤ recovery_size_mb

unfoldable pub require_capacity : InstallerConfig → ℤ → Exec Done
require_capacity config recovery_size_mb = do
  let device = config.usb_boot.device
  let needed = needed_mb config recovery_size_mb
  bytes ← size_bytes device
  let available_mb = floor_div bytes mebibyte
  if ltb_ℤ available_mb needed
      then raise (
          usb_boot_drive_error (
            device
            <> " holds "
            <> show_int available_mb
            <> " MiB, the USB boot drive needs "
            <> show_int needed
            <> " MiB"))
      else pure tt

unfoldable pub release_drive : InstallerConfig → Exec Done
release_drive config = do
  do_attempt (disk (Disks.unmount_tree "/mnt"))
  do_attempt (disk (Disks.unmount recovery_mount))
  do_attempt (disk Disks.swapoff_all)
  do_attempt (disk (Disks.luks_close cryptroot_mapper_name))
  do_attempt (disk (Disks.unmount (usb_efi_partition config.usb_boot)))
  do_attempt (disk (Disks.unmount (usb_recovery_partition config.usb_boot)))

-- `_partition`
unfoldable pub partition_drive : InstallerConfig → ℤ → Exec Done
partition_drive config recovery_size_mb = do
  let device = config.usb_boot.device
  let no_recovery = is_zero_int recovery_size_mb
  do_attempt (disk (Disks.wipefs device))
  do_run (disk (Disks.zap_partition_table device))
  do_run (
      disk
        (Disks.new_partition 1 ("+" <> show_int config.storage.efi_size_mb <> "M") "ef00" device))
  do_run (
      disk (
        Disks.new_partition 2 ("+" <> show_int luks_header_partition_size_mb <> "M") "8300" device))
  if no_recovery
      then pure tt
      else do_run
          (disk (Disks.new_partition 3 ("+" <> show_int recovery_size_mb <> "M") "8300" device))
  do_attempt (disk (Disks.partprobe device))
  do_attempt (disk Disks.settle)
  wait_for_partition device (
      if no_recovery
      then usb_luks_header_partition config.usb_boot
      else usb_recovery_partition config.usb_boot)
  do_attempt (disk (Disks.wipefs (usb_luks_header_partition config.usb_boot)))

unfoldable pub store_recovery_system : InstallerConfig → Exec Done
store_recovery_system config = do
  let recovery_partition = usb_recovery_partition config.usb_boot
  do_run (disk (Disks.make_ext4 "-F -m 0 -L RECOVERY" recovery_partition))
  do_run (files (make_directory recovery_mount))
  do_run (disk (Disks.mount "ext4" recovery_partition recovery_mount))
  finally (extract_live_system config.usb_boot.iso_path recovery_mount)
      (do_attempt (disk (Disks.unmount recovery_mount)))

unfoldable pub recovery_size_mb : InstallerConfig → Exec ℤ
recovery_size_mb config = do
  bytes ←
      (if config.usb_boot.recovery_system
        then image_size_bytes config.usb_boot.iso_path
        else pure (pos 0))
  pure (if is_zero_int bytes then pos 0 else recovery_partition_size_mb bytes)

-- everything that changes the drive
unfoldable pub prepare_drive : InstallerConfig → ℤ → Exec Done
prepare_drive config recovery_size = do
  release_drive config
  partition_drive config recovery_size
  do_run (disk (Disks.make_vfat (usb_efi_partition config.usb_boot)))
  if config.usb_boot.recovery_system then store_recovery_system config else pure tt

unfoldable pub check_and_prepare : InstallerConfig → Exec Done
check_and_prepare config = do
  recovery_size ← recovery_size_mb config
  require_capacity config recovery_size
  prepare_drive config recovery_size

unfoldable pub require_stable_path : String → Exec Done
require_stable_path target_disk = do
  path ← stable_disk_path target_disk
  if path == ""
      then raise (
          usb_boot_drive_error (
            target_disk
            <> " has no /dev/disk/by-id name. Without a partition table the boot finds the disk "
            <> "only by that name"))
      else pure tt

unfoldable pub unless : Bool → Exec Done → Exec Done
unless b m = if b then pure tt else m

unfoldable pub execute : InstallerConfig → Exec Done
execute config =
    if config.usb_boot.device == config.storage.target_disk
    then raise
        (usb_boot_drive_error (config.usb_boot.device <> " is the target disk, not a USB drive"))
    else (do
      require_disk config.usb_boot.device
      require_stable_path config.storage.target_disk
      kept ← keeps_existing_drive config
      unless kept (check_and_prepare config))
